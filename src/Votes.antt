-- ===== src/Votes.antt =====
-- The vote threshold `votes as f64 / maximum as f64 >= 0.51` of runtime/src/bridge.rs and
-- runtime/src/dao.rs, with the rounding of 64-bit IEEE floats written out on natural numbers.
pub mod Threshold
mod Tests
use akropolis_os_chain_node.Common.{
  ℕ, zero, suc, ◌+◌, ◌*◌, ◌/◌, ◌%◌, ◌^◌, Bool, true, false, ltb, leb, ◌==◌, if◌then◌else◌,
}

-- `n` rounded to a multiple of `unit`, a tie to the even multiple.
unfoldable pub round_to : ℕ → ℕ → ℕ
round_to unit n =
    let down = n / unit * unit in
    if ltb (2 * (n % unit)) unit
    then down
    else if ltb unit (2 * (n % unit))
    then down + unit
    else if n / unit % 2 == 0
    then down
    else down + unit

-- The unit is doubled until `n` has at most 53 bits above it.
unfoldable pub round_from : ℕ → ℕ → ℕ → ℕ
unfolding round_to
round_from zero unit n = n
round_from (suc fuel) unit n = elim (ltb n (2 ^ 53 * unit)) [
  | true ↦ round_to unit n
  | false ↦ round_from fuel (2 * unit) n
]

-- `n as f64` for a `u64`, which needs at most 11 doublings.
unfoldable pub as_f64 : ℕ → ℕ
unfolding round_from
as_f64 n = round_from 12 1 n

-- The literal 0.51 is the float 4593671619917906 / 2 ^ 53. The rounded quotient of `a` by `b` is at
-- least that float when the exact one is at least 9187343239835811 / 2 ^ 54, the midpoint between
-- it and the float below: a quotient at the midpoint is rounded to the even numerator, that is up.
abbrev pub threshold_num : ℕ
threshold_num = 9_187_343_239_835_811

-- `a / b >= 0.51` for floats `a` and `b` that are whole. By 0, the quotient is infinite or not a
-- number.
unfoldable pub quotient_is_enough : ℕ → ℕ → Bool
quotient_is_enough a b = if b == 0 then ltb 0 a else leb (threshold_num * b) (2 ^ 54 * a)

unfoldable pub votes_are_enough : ℕ → ℕ → Bool
unfolding as_f64 quotient_is_enough
votes_are_enough votes maximum_votes = quotient_is_enough (as_f64 votes) (as_f64 maximum_votes)
