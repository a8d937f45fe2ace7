-- ===== src/Bridge/Bounds.antt =====
-- What the limits, the day pair and the first-day hold of the bridge pallet come to.
use akropolis_os_chain_node.Common.{ℕ, ◌+◌, ◌-◌, ◌*◌, ◌/◌, ◌≤◌, ◌<◌, ◌≡◌, ◌↔◌, arith}
use akropolis_os_chain_node.Common.Words.{u128_mod}
use akropolis_os_chain_node.Common.Action.{ok, err}
use akropolis_os_chain_node.Errors.{daily_hold}
use akropolis_os_chain_node.Types.{Limits, TransferMessage}
use akropolis_os_chain_node.Bridge.State.{Storage, day}
use akropolis_os_chain_node.Bridge.Limits.{get_day_pair, check_limits, allowed_amount}
use akropolis_os_chain_node.Bridge.Execute.{check_daily_holds}

-- A limit that can be set.
abbrev pub InRange : ℕ → Type 0
InRange l = (0 < l) × (l < u128_mod - 1)

-- The fold of `check_limits` accepts exactly the limits whose five values are all above 0 and below
-- the greatest `u128`, and a check changes nothing.
pub check_limits_iff :
    (l : Limits) (s : Storage)
    → (check_limits l s ≡ (ok tt, s)) ↔ (
        InRange l.max_tx_value
        × InRange l.day_max_limit
        × InRange l.day_max_limit_for_one_address
        × InRange l.max_pending_tx_limit
        × InRange l.min_tx_value)
unfolding check_limits
check_limits_iff l s = (λ h. ground arith, λ h. ground arith)

-- Yesterday is the day before today, or day 0 on day 0.
pub get_day_pair_lem :
    (now : ℕ)
    → let (yesterday, today) = get_day_pair now in
      (today * day ≤ now) × (now < (today + 1) * day) × (yesterday ≡ today - 1)
unfolding get_day_pair
get_day_pair_lem now = ground arith

-- The share that may be withdrawn is found for every `u128` balance, without a panic, and is 75 for
-- each full hundred.
pub allowed_amount_lem :
    (balance : ℕ) (s : Storage)
    → balance < u128_mod
    → allowed_amount balance s ≡ (ok (balance / 100 * 75), s)
unfolding allowed_amount
allowed_amount_lem balance s h = ground arith

-- The first-day hold never ends: whenever an account asks for more than 75 in a hundred of its
-- balance, of a `u128`, the withdrawal is refused, whichever block its first deposit was in.
pub check_daily_holds-refused :
    (m : TransferMessage) (s : Storage)
    → s.token.balance m.token m.substrate_address < u128_mod
    → s.token.balance m.token m.substrate_address / 100 * 75 < m.amount
    → (check_daily_holds m s).0 ≡ err daily_hold
unfolding check_daily_holds
check_daily_holds-refused m s h k = ground arith
