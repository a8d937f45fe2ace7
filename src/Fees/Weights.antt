-- ===== src/Fees/Weights.antt =====
-- What a transaction pays for its weight, how the price of weight follows the load, and who gets the
-- fees (runtime/src/impls.rs, runtime/src/lib.rs). The fixed point numbers, the fractions and the
-- imbalances of the framework are parameters.
use akropolis_os_chain_node.Common.{
  ℕ, ◌+◌, ◌-◌, ◌*◌, ◌^◌, ◌≤◌, ◌<◌, ◌≡◌, Bool, true, List, [], ◌∷◌, leb, if◌then◌else◌, arith,
  Bool-cases, inl, inr,
}
use akropolis_os_chain_node.Common.Words.{u32_mod, u128_mod}
use akropolis_os_chain_node.Fees.{max}

-- `a.min(b)`
abbrev pub min : ℕ → ℕ → ℕ
min a b = if leb a b then a else b

-- `saturating_mul` of `u128`
abbrev pub saturating_mul : ℕ → ℕ → ℕ
saturating_mul a b = min (a * b) (u128_mod - 1)

-- `LinearWeightToFee::convert`, with the coefficient of the runtime
abbrev pub weight_fee_coefficient : ℕ
weight_fee_coefficient = 1_000

unfoldable pub weight_to_fee : ℕ → ℕ → ℕ
weight_to_fee coefficient w = saturating_mul w coefficient

-- The fee of a weight, of a `u32`, is exact at the coefficient of the runtime: of two weights, the
-- greater one costs more, by the coefficient for each unit.
pub weight_to_fee_lem :
    (v w : ℕ)
    → v ≤ w
    → w < u32_mod
    → weight_to_fee weight_fee_coefficient w
      ≡ weight_to_fee weight_fee_coefficient v + (w - v) * weight_fee_coefficient
unfolding weight_to_fee
weight_to_fee_lem v w h small = ground arith

-- `Fixed64`, with the order that `max` uses.
pub record Fixed (F : Type 0) : Type 0 where
  pub from_rational : ℕ → ℕ → F
  pub minus_one : F
  pub saturating_mul : F → F → F
  pub saturating_add : F → F → F
  pub saturating_sub : F → F → F
  pub subtract : F → F → F
  pub max : F → F → F
  pub at_most : F → F → Bool

module _ {F : Type 0} (fixed : Fixed F) where
  -- `TargetedFeeAdjustment::convert`; the target is a fraction of the greatest weight.
  unfoldable pub targeted_fee_adjustment : (ℕ → ℕ) → ℕ → ℕ → F → F
  targeted_fee_adjustment target max_weight block_weight multiplier =
      let target_weight = target max_weight in
      let positive = leb target_weight block_weight in
      let diff_abs = max block_weight target_weight - min block_weight target_weight in
      let diff = fixed.from_rational diff_abs max_weight in
      let diff_squared = fixed.saturating_mul diff diff in
      let v = fixed.from_rational 4 100_000 in
      let v_squared_2 = fixed.from_rational 1 1_000_000_000 in
      let first_term = fixed.saturating_mul v diff in
      let second_term = fixed.saturating_mul v_squared_2 diff_squared in
      if positive
      then fixed.saturating_add multiplier (fixed.saturating_add first_term second_term)
      else fixed.max (fixed.saturating_sub multiplier (fixed.subtract first_term second_term))
          fixed.minus_one

  -- What the multiplier relies on: the order is transitive; zero is at most a fraction of an `i64`, and at most
  -- a product of what it is at most; a sum is at least its left side if zero is at most the
  -- right one; and the greater of two is at least the second.
  pub record IsFixed : Type 0 where
    pub zero : F
    pub trans :
        (a b c : F) → fixed.at_most a b ≡ true → fixed.at_most b c ≡ true → fixed.at_most a c ≡ true
    pub rational : (n d : ℕ) → n < 2 ^ 63 → fixed.at_most zero (fixed.from_rational n d) ≡ true
    pub product :
        (a b : F)
        → fixed.at_most zero a ≡ true
        → fixed.at_most zero b ≡ true
        → fixed.at_most zero (fixed.saturating_mul a b) ≡ true
    pub sum :
        (a b : F) → fixed.at_most zero b ≡ true → fixed.at_most a (fixed.saturating_add a b) ≡ true
    pub max_right : (a b : F) → fixed.at_most b (fixed.max a b) ≡ true

  -- The multiplier of the fees never falls below -1, and does not fall at all after a block that
  -- reached the target. The weights are `u32`.
  targeted_fee_adjustment_lem :
      IsFixed
      → (target : ℕ → ℕ) (max_weight block_weight : ℕ) (multiplier : F)
      → target max_weight < u32_mod
      → block_weight < u32_mod
      → fixed.at_most fixed.minus_one multiplier ≡ true
      → let next = targeted_fee_adjustment target max_weight block_weight multiplier in
        (fixed.at_most fixed.minus_one next ≡ true)
        × (target max_weight ≤ block_weight → fixed.at_most multiplier next ≡ true)
  unfolding targeted_fee_adjustment
  targeted_fee_adjustment_lem laws target max_weight block_weight multiplier small light least =
      let target_weight = target max_weight in
      let diff_abs = max block_weight target_weight - min block_weight target_weight in
      let diff = fixed.from_rational diff_abs max_weight in
      let v = fixed.from_rational 4 100_000 in
      let v_squared_2 = fixed.from_rational 1 1_000_000_000 in
      let first_term = fixed.saturating_mul v diff in
      let squared = fixed.saturating_mul diff diff in
      let second_term = fixed.saturating_mul v_squared_2 squared in
      let excess = fixed.saturating_add first_term second_term in
      let not_less = laws.rational diff_abs max_weight (ground arith) in
      let first = laws.product v diff (laws.rational 4 100_000 (omega arith)) not_less in
      let square = laws.product diff diff not_less not_less in
      let second =
        laws.product v_squared_2 squared (laws.rational 1 1_000_000_000 (omega arith)) square in
      let both =
        laws.trans laws.zero first_term excess first (laws.sum first_term second_term second) in
      let more = laws.sum multiplier excess both in
      let raised = laws.trans fixed.minus_one multiplier _ least more in
      let lowered =
        laws.max_right (fixed.saturating_sub multiplier (fixed.subtract first_term second_term))
          fixed.minus_one in
      elim (Bool-cases (leb target_weight block_weight)) [
        | inl reached ↦ rw reached (raised, λ h. more)
        | inr missed ↦ rw missed (lowered, λ h. absurd (ground arith))
      ]

-- The imbalances of the framework, by their amounts: `ration` splits one, and `merge` joins two.
pub record Imbalances : Type 0 where
  pub ration : ℕ → ℕ → ℕ → ℕ × ℕ
  pub merge : ℕ → ℕ → ℕ

-- `DealWithFees::on_unbalanceds`: what the treasury and the author get of the fees and then the tips.
unfoldable pub deal_with_fees : Imbalances → List ℕ → ℕ × ℕ
deal_with_fees imbalances [] = (0, 0)
deal_with_fees imbalances (fees ∷ []) = imbalances.ration fees 80 20
deal_with_fees imbalances (fees ∷ tips ∷ _) =
    let (treasury, author) = imbalances.ration fees 80 20 in
    let (more, most) = imbalances.ration tips 80 20 in
    (imbalances.merge treasury more, imbalances.merge author most)

-- The treasury and the author get the fees and the tips together, and nothing is lost or made. A split
-- loses nothing, and amounts that make a `u128` together are joined without a loss.
pub deal_with_fees-total :
    (imbalances : Imbalances) (fees tips : ℕ)
    → ((x : ℕ) → (imbalances.ration x 80 20).0 + (imbalances.ration x 80 20).1 ≡ x)
    → ((x y : ℕ) → x + y < u128_mod → imbalances.merge x y ≡ x + y)
    → fees + tips < u128_mod
    → let (treasury, author) = deal_with_fees imbalances (fees ∷ tips ∷ []) in
      treasury + author ≡ fees + tips
unfolding deal_with_fees
deal_with_fees-total imbalances fees tips split joined small =
    let a = imbalances.ration fees 80 20 in
    let b = imbalances.ration tips 80 20 in
    omega (
      arith,
      split fees,
      split tips,
      joined a.0 b.0 (omega (arith, split fees, split tips)),
      joined a.1 b.1 (omega (arith, split fees, split tips)),
    )
