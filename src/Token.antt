-- ===== src/Token.antt =====
-- The token pallet, runtime/src/token.rs: its storage, the functions that other pallets call
-- (`_burn`, `_mint`, `lock`, `unlock`, `check_token_exist`) and the helpers of its own calls.
pub mod Calls
pub mod Effects
pub mod Conservation
pub mod Backing
pub mod Solvency
pub mod Allowances
pub mod Genesis
pub mod Ledger
pub mod Refinement
pub mod Tests
use akropolis_os_chain_node.Common.{
  ℕ, List, [], ◌∷◌, ◌++◌, Option, not, ltb, leb, ◌==◌, if◌then◌else◌, is_some, length,
}
use akropolis_os_chain_node.Common.Words.{
  u128_mod, checked_add, checked_sub, wrapping_add, wrapping_sub,
}
use akropolis_os_chain_node.Common.Maps.{update, update₂}
use akropolis_os_chain_node.Common.Action.{
  Action, pure, fail, or_fail, or_panic, gets, ensure, modify, ◌>>=◌, ◌>>◌,
}
use akropolis_os_chain_node.Errors.{
  burn_more_than_supply, burn_zero_balance, funds_locked, burn_balance_underflow,
  burn_supply_underflow, mint_amount_zero, mint_balance_overflow, mint_supply_overflow,
  not_enough_tokens, symbol_too_long, symbol_too_short,
}
use akropolis_os_chain_node.Types.{Token}

pub data Event : Type 0 where
  transfer : ℕ → ℕ → ℕ → Event
  approval : ℕ → ℕ → ℕ → Event
  mint : ℕ → ℕ → Event
  burn : ℕ → ℕ → Event

-- `TokenStorage`, and the events of the pallet, the newest last.
pub record Storage : Type 0 where
  pub count : ℕ
  pub locked : ℕ → ℕ → ℕ
  pub tokens : List Token
  pub token_map : ℕ → Token
  pub token_ids : List ℕ → Option ℕ
  pub token_symbol : ℕ → List ℕ
  pub total_supply : ℕ → ℕ
  pub balance : ℕ → ℕ → ℕ
  pub allowance : ℕ → ℕ → ℕ → ℕ
  pub events : List Event

unfoldable pub deposit_event : Event → Action Storage Unit
deposit_event e = modify λ s. record s { events = s.events ++ e ∷ [] }

unfoldable pub set_balance : ℕ → ℕ → ℕ → Action Storage Unit
set_balance token_id account v =
    modify λ s. record s { balance = update₂ s.balance token_id account v }

unfoldable pub set_total_supply : ℕ → ℕ → Action Storage Unit
set_total_supply token_id v =
    modify λ s. record s { total_supply = update s.total_supply token_id v }

unfoldable pub set_locked : ℕ → ℕ → ℕ → Action Storage Unit
set_locked token_id account v =
    modify λ s. record s { locked = update₂ s.locked token_id account v }

-- `_burn`
unfoldable pub burn_tokens : ℕ → ℕ → ℕ → Action Storage Unit
unfolding ◌>>=◌ set_balance set_total_supply
burn_tokens token_id from amount = do
  supply ← gets (λ s. s.total_supply 0)
  ensure (leb amount supply) burn_more_than_supply
  balance ← gets (λ s. s.balance token_id from)
  locked ← gets (λ s. s.locked token_id from)
  let free_balance = wrapping_sub u128_mod balance locked
  ensure (ltb 0 free_balance) burn_zero_balance
  ensure (leb amount free_balance) funds_locked
  next_balance ← or_fail (checked_sub free_balance amount) burn_balance_underflow
  next_total ← or_fail (checked_sub supply amount) burn_supply_underflow
  set_balance token_id from next_balance
  set_total_supply token_id next_total

-- `_mint`
unfoldable pub mint_tokens : ℕ → ℕ → ℕ → Action Storage Unit
unfolding ◌>>=◌ set_balance set_total_supply
mint_tokens token_id to amount = do
  ensure (not (amount == 0)) mint_amount_zero
  old_balance ← gets (λ s. s.balance token_id to)
  next_balance ← or_fail (checked_add u128_mod old_balance amount) mint_balance_overflow
  supply ← gets (λ s. s.total_supply 0)
  next_total ← or_fail (checked_add u128_mod supply amount) mint_supply_overflow
  set_balance token_id to next_balance
  set_total_supply token_id next_total

unfoldable pub make_transfer : ℕ → ℕ → ℕ → ℕ → Action Storage Unit
unfolding ◌>>=◌ set_balance deposit_event
make_transfer token_id from to amount = do
  from_balance ← gets (λ s. s.balance token_id from)
  ensure (leb amount from_balance) not_enough_tokens
  locked ← gets (λ s. s.locked token_id from)
  ensure (leb amount (wrapping_sub u128_mod from_balance locked)) funds_locked
  set_balance token_id from (wrapping_sub u128_mod from_balance amount)
  to_balance ← gets (λ s. s.balance token_id to)
  set_balance token_id to (wrapping_add u128_mod to_balance amount)
  deposit_event (Event.transfer from to amount)

unfoldable pub lock : ℕ → ℕ → ℕ → Action Storage Unit
unfolding set_locked
lock token_id account amount = set_locked token_id account amount

-- A key that is removed reads as 0, which is what the other branch would write.
unfoldable pub unlock : ℕ → ℕ → ℕ → Action Storage Unit
unfolding ◌>>=◌ set_locked
unlock token_id account amount = do
  balance ← gets (λ s. s.locked token_id account)
  new_balance ← or_panic (checked_sub balance amount)
  if new_balance == 0
      then set_locked token_id account 0
      else set_locked token_id account new_balance

unfoldable pub validate_name : List ℕ → Action Storage Unit
unfolding pure fail
validate_name name =
    if ltb 10 (length name)
    then fail symbol_too_long
    else if ltb (length name) 3
    then fail symbol_too_short
    else pure tt

unfoldable pub check_token_exist : List ℕ → Action Storage Unit
unfolding ◌>>=◌ validate_name
check_token_exist token = do
  known ← gets (λ s. is_some (s.token_ids token))
  if not known then validate_name token else pure tt
