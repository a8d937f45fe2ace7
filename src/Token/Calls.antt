-- ===== src/Token/Calls.antt =====
-- The dispatchable calls of the token pallet, the `decl_module!` block of runtime/src/token.rs.
-- `lookup` stands for `T::Lookup::lookup`, which the runtime is configured with.
use akropolis_os_chain_node.Common.{ℕ, Option, not, ◌==◌}
use akropolis_os_chain_node.Common.Words.{checked_sub}
use akropolis_os_chain_node.Common.Maps.{update₃}
use akropolis_os_chain_node.Common.Action.{Action, or_fail, gets, ensure, modify, ◌>>=◌, ◌>>◌}
use akropolis_os_chain_node.Errors.{transfer_amount_zero, allowance_underflow, lookup_failed}
use akropolis_os_chain_node.Origin.{Origin, ensure_signed}
use akropolis_os_chain_node.Token.{
  Storage, Event, deposit_event, burn_tokens, mint_tokens, make_transfer, check_token_exist,
}

unfoldable pub burn : Origin → ℕ → ℕ → ℕ → Action Storage Unit
unfolding ◌>>=◌ ensure_signed check_token_exist burn_tokens deposit_event
burn origin from token_id amount = do
  ensure_signed origin
  token ← gets (λ s. s.token_map token_id)
  check_token_exist token.symbol
  burn_tokens 0 from amount
  deposit_event (Event.burn from amount)

unfoldable pub mint : Origin → ℕ → ℕ → ℕ → Action Storage Unit
unfolding ◌>>=◌ ensure_signed check_token_exist mint_tokens deposit_event
mint origin to token_id amount = do
  ensure_signed origin
  token ← gets (λ s. s.token_map token_id)
  check_token_exist token.symbol
  mint_tokens token.id to amount
  deposit_event (Event.mint to amount)

unfoldable pub set_allowance : ℕ → ℕ → ℕ → ℕ → Action Storage Unit
set_allowance token_id owner spender v =
    modify λ s. record s { allowance = update₃ s.allowance token_id owner spender v }

unfoldable pub transfer : (ℕ → Option ℕ) → Origin → ℕ → ℕ → ℕ → Action Storage Unit
unfolding ◌>>=◌ ensure_signed make_transfer
transfer lookup origin to token_id amount = do
  sender ← ensure_signed origin
  target ← or_fail (lookup to) lookup_failed
  ensure (not (amount == 0)) transfer_amount_zero
  make_transfer token_id sender target amount

unfoldable pub approve : (ℕ → Option ℕ) → Origin → ℕ → ℕ → ℕ → Action Storage Unit
unfolding ◌>>=◌ ensure_signed set_allowance deposit_event
approve lookup origin spender token_id value = do
  sender ← ensure_signed origin
  target ← or_fail (lookup spender) lookup_failed
  set_allowance token_id sender target value
  deposit_event (Event.approval sender target value)

unfoldable pub transfer_from : Origin → ℕ → ℕ → ℕ → ℕ → Action Storage Unit
unfolding ◌>>=◌ ensure_signed make_transfer set_allowance
transfer_from origin from to token_id value = do
  sender ← ensure_signed origin
  allowance ← gets (λ s. s.allowance token_id from sender)
  updated_allowance ← or_fail (checked_sub allowance value) allowance_underflow
  make_transfer token_id from to value
  set_allowance token_id from sender updated_allowance
