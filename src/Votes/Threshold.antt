-- ===== src/Votes/Threshold.antt =====
-- What the float comparison of `votes_are_enough` decides.
use akropolis_os_chain_node.Common.{
  ℕ, ◌+◌, ◌*◌, ◌^◌, ◌≤◌, ◌<◌, ◌≡◌, true, leb, ltb, ◌==◌, if◌then◌else◌, arith,
}
use akropolis_os_chain_node.Votes.{round_from, as_f64, quotient_is_enough, votes_are_enough}

-- A whole number below 2 ^ 53 is a float.
pub as_f64_exact : (n : ℕ) → n < 2 ^ 53 → as_f64 n ≡ n
unfolding as_f64
as_f64_exact n h = ground arith

-- With fewer than 2 ^ 47 voters and fewer than 2 ^ 53 votes, the float test asks for exactly 51
-- votes in a hundred. Without voters one vote is enough, and no vote is not.
pub votes_are_enough-rule :
    (votes maximum_votes : ℕ)
    → votes < 2 ^ 53
    → maximum_votes < 2 ^ 47
    → votes_are_enough votes maximum_votes
      ≡ (if maximum_votes == 0 then ltb 0 votes else leb (51 * maximum_votes) (100 * votes))
unfolding votes_are_enough quotient_is_enough
votes_are_enough-rule votes maximum_votes h k =
    ground (arith, as_f64_exact votes h, as_f64_exact maximum_votes)

-- Of fewer than 2 ^ 47 voters, no two groups that share no voter are both enough.
pub votes_are_enough-exclusive :
    (yes_count no_count maximum_votes : ℕ)
    → maximum_votes < 2 ^ 47
    → yes_count + no_count ≤ maximum_votes
    → votes_are_enough yes_count maximum_votes ≡ true
    → ¬ (votes_are_enough no_count maximum_votes ≡ true)
votes_are_enough-exclusive yes_count no_count maximum_votes h k y n = ground (
  arith,
  votes_are_enough-rule yes_count maximum_votes,
  votes_are_enough-rule no_count maximum_votes,
)

-- Twelve rounds are enough for every `u64`: more rounds change nothing.
pub round_from-enough : (more n : ℕ) → n < 2 ^ 64 → round_from (12 + more) 1 n ≡ as_f64 n
unfolding round_from as_f64
round_from-enough more n h = ground arith
