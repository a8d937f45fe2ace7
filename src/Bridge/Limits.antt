-- ===== src/Bridge/Limits.antt =====
-- The checks that a call of the bridge pallet makes before it votes: amounts, pending volumes,
-- daily volumes, limits, holds and validators (runtime/src/bridge.rs).
use akropolis_os_chain_node.Common.{
  ℕ, ◌-◌, ◌/◌, Bool, true, false, not, ◌&&◌, [], ◌∷◌, ◌++◌, some, ltb, if◌then◌else◌, is_some,
  unwrap_or, contains,
}
use mathlib.Core.List.{foldl}
use akropolis_os_chain_node.Common.Words.{
  u32_mod, u128_mod, wrapping_add, checked_add, checked_mul, checked_div,
}
use akropolis_os_chain_node.Common.Action.{
  Action, pure, or_fail, or_panic, gets, ensure, ◌>>=◌, ◌>>◌,
}
use akropolis_os_chain_node.Errors.{
  Error, not_a_validator, user_blocked, amount_too_small, amount_too_big, pending_burn_overflow,
  pending_mint_overflow, too_many_pending_burns, too_many_pending_mints, limit_overflow,
  limit_underflow,
}
use akropolis_os_chain_node.Types.{Limits, into_array}
use akropolis_os_chain_node.Bridge.State.{
  Storage, Env, Event, Preimage, day, day_in_blocks, deposit_event, set_daily_blocked,
}

-- (yesterday, today)
unfoldable pub get_day_pair : ℕ → ℕ × ℕ
get_day_pair now = (if ltb now day then 0 else now / day - 1, now / day)

unfoldable pub check_validator : ℕ → Action Storage Unit
unfolding ◌>>=◌
check_validator validator = do
  is_trusted ← gets (λ s. is_some (s.validators validator))
  ensure is_trusted not_a_validator

unfoldable pub check_operational : Error → Action Storage Unit
unfolding ◌>>=◌
check_operational e = do operational ← gets (λ s. s.bridge_is_operational); ensure operational e

unfoldable pub check_amount : ℕ → Action Storage Unit
unfolding ◌>>=◌
check_amount amount = do
  limits ← gets (λ s. s.current_limits)
  ensure (ltb limits.min_tx_value amount) amount_too_small
  ensure (ltb amount limits.max_tx_value) amount_too_big

unfoldable pub check_pending_burn : ℕ → Action Storage Unit
unfolding ◌>>=◌
check_pending_burn amount = do
  pending ← gets (λ s. s.current_pending_burn)
  volume ← or_fail (checked_add u128_mod pending amount) pending_burn_overflow
  limits ← gets (λ s. s.current_limits)
  ensure (ltb volume limits.max_pending_tx_limit) too_many_pending_burns

unfoldable pub check_pending_mint : ℕ → Action Storage Unit
unfolding ◌>>=◌
check_pending_mint amount = do
  pending ← gets (λ s. s.current_pending_mint)
  volume ← or_fail (checked_add u128_mod pending amount) pending_mint_overflow
  limits ← gets (λ s. s.current_limits)
  ensure (ltb volume limits.max_pending_tx_limit) too_many_pending_mints

-- The accounts blocked today get this one, with an event, unless it is there already.
unfoldable pub block_account : Env → ℕ → ℕ → ℕ → Action Storage Unit
unfolding ◌>>=◌ set_daily_blocked deposit_event
block_account env token_id today account = do
  blocked ← gets (λ s. unwrap_or (s.daily_blocked token_id today) [])
  if contains blocked account then set_daily_blocked token_id today (some blocked) else do
    set_daily_blocked token_id today (some (blocked ++ account ∷ []))
    deposit_event (
        Event.account_paused_message (env.hash (Preimage.account_at env.now account)) account
          env.now token_id)

unfoldable pub check_daily_account_volume : Env → ℕ → ℕ → ℕ → Action Storage Unit
unfolding ◌>>=◌ get_day_pair block_account
check_daily_account_volume env token_id account amount = do
  cur_pending ← gets (λ s. s.daily_limits token_id account)
  limits ← gets (λ s. s.current_limits)
  let can_burn = ltb (wrapping_add u128_mod cur_pending amount) limits.day_max_limit_for_one_address
  let today = (get_day_pair env.now).1
  user_blocked_today ← gets (λ s. contains (unwrap_or (s.daily_blocked token_id today) []) account)
  if not can_burn then block_account env token_id today account else pure tt
  ensure (can_burn && not user_blocked_today) user_blocked

-- One round of the fold of `check_limits`: is every limit so far below the greatest value, and is
-- every one above the least?
unfoldable pub limit_round : Bool × Bool → ℕ → Bool × Bool
limit_round (true, true) l = (ltb l (u128_mod - 1), ltb 0 l)
limit_round (true, false) l = (ltb l (u128_mod - 1), false)
limit_round (false, true) l = (false, ltb 0 l)
limit_round (false, false) l = (false, false)

unfoldable pub check_limits : Limits → Action Storage Unit
unfolding ◌>>=◌ limit_round
check_limits limits = do
  let passed = foldl limit_round (true, true) (into_array limits)
  ensure passed.0 limit_overflow
  ensure passed.1 limit_underflow

-- `first_tx.0 + daily_hold < 0`, on the block number of the account's first deposit
unfoldable pub day_passed : ℕ → Bool
day_passed block = ltb (wrapping_add u32_mod block day_in_blocks) 0

-- 75% of a balance
unfoldable pub allowed_amount : ℕ → Action Storage ℕ
unfolding ◌>>=◌
allowed_amount balance = do
  share ← or_panic (checked_div balance 100)
  or_panic (checked_mul u128_mod share 75)
