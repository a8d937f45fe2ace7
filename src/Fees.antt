-- ===== src/Fees.antt =====
-- The conversions of the runtime between balances, votes and weights (runtime/src/impls.rs).
pub mod Weights
use akropolis_os_chain_node.Common.{
  ℕ, ◌+◌, ◌-◌, ◌*◌, ◌/◌, ◌%◌, ◌≤◌, ◌<◌, ◌≡◌, leb, if◌then◌else◌, arith, ap, ◌∙◌, sym, subst,
}
use native.Mathlib.Nat.{mod-eq_of_lt, div-mul-le_self, div-lt_iff_lt-mul, lt-div-mul-add}
use akropolis_os_chain_node.Common.Words.{u64_mod, u128_mod}

-- `a.max(b)`
abbrev pub max : ℕ → ℕ → ℕ
max a b = if leb a b then b else a

-- `CurrencyToVoteHandler::factor`, at a total issuance.
unfoldable pub factor : ℕ → ℕ
factor total_issuance = max (total_issuance / (u64_mod - 1)) 1

-- `Convert<Balance, u64>`
unfoldable pub vote_of_balance : ℕ → ℕ → ℕ
vote_of_balance total_issuance x = x / factor total_issuance % u64_mod

-- `Convert<u128, Balance>`
unfoldable pub balance_of_vote : ℕ → ℕ → ℕ
balance_of_vote total_issuance x = x * factor total_issuance % u128_mod

factor_positive : (total_issuance : ℕ) → 0 < factor total_issuance
unfolding factor
factor_positive total_issuance = ground arith

-- A balance whose vote is a `u64`, as a vote and back, loses less than the factor and gains nothing.
-- The balance is a `u128`.
balance_of_vote-vote_of_balance :
    (total_issuance x : ℕ)
    → x < u128_mod
    → x < u64_mod * factor total_issuance
    → let y = balance_of_vote total_issuance (vote_of_balance total_issuance x) in
      (y ≤ x) × (x < y + factor total_issuance)
unfolding balance_of_vote vote_of_balance
balance_of_vote-vote_of_balance total_issuance x small covered =
    let f = factor total_issuance in
    let positive = factor_positive total_issuance in
    let least = div-mul-le_self x f in
    let vote : x / f % u64_mod ≡ x / f = mod-eq_of_lt ((div-lt_iff_lt-mul positive).1 covered) in
    let back : balance_of_vote total_issuance (vote_of_balance total_issuance x) ≡ x / f * f =
      ap (λ v. v * f % u128_mod) vote ∙ mod-eq_of_lt (omega (arith, least)) in
    (
      subst (λ y. y ≤ x) (sym back) least,
      subst (λ y. x < y + f) (sym back) (lt-div-mul-add positive),
    )

-- While the total issuance is below twice the greatest `u64`, the factor is 1, and a balance of
-- 2 ^ 64 or more that is within the issuance has the vote of a balance that is less by 2 ^ 64.
pub vote_of_balance_wraps :
    (total_issuance x : ℕ)
    → total_issuance < 2 * (u64_mod - 1)
    → u64_mod ≤ x
    → x ≤ total_issuance
    → vote_of_balance total_issuance x ≡ vote_of_balance total_issuance (x - u64_mod)
unfolding vote_of_balance factor
vote_of_balance_wraps total_issuance x bound large within = ground arith
