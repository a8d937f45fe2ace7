-- ===== src/Runtime/Signing.antt =====
-- How the runtime signs a call that its offchain workers send (`create_transaction` of
-- runtime/src/lib.rs). The signed payload, the keys and the index of accounts are parameters.
use native.Mathlib.Nat.{two-pow-succ}
use akropolis_os_chain_node.Common.{
  ℕ, zero, suc, ◌+◌, ◌-◌, ◌*◌, ◌/◌, ◌^◌, ◌≤◌, ◌<◌, ◌≡◌, true, leb, Option, none, some,
  if◌then◌else◌, arith, refl, ap, ◌∙◌, Bool-cases, inl, inr, Option-cases,
}
use akropolis_os_chain_node.Factory.{SignedExtra}

-- `BlockHashCount`
abbrev pub block_hash_count : ℕ
block_hash_count = 250

-- The least power of two from the `k`-th on that is at least `c`, among the next ones.
unfoldable pub next_power : ℕ → ℕ → ℕ → Option ℕ
next_power zero k c = none
next_power (suc powers) k c =
    let rest = next_power powers (k + 1) c in if leb c (2 ^ k) then some (2 ^ k) else rest

-- `checked_next_power_of_two` of `u32`
abbrev pub checked_next_power_of_two : ℕ → Option ℕ
checked_next_power_of_two c = next_power 32 0 c

-- `.map(|c| c / 2).unwrap_or(2)`
abbrev pub half_or : Option ℕ → ℕ
half_or none = 2
half_or (some p) = p / 2

unfoldable pub period_of : ℕ → ℕ
unfolding next_power
period_of count = half_or (checked_next_power_of_two count)

-- The payload of a call `C` with what is signed beside it, for keys `P`; `none` is an error.
pub record Signer (C P G Payload : Type 0) : Type 0 where
  pub mortal : ℕ → ℕ → ℕ × ℕ
  pub payload : C → SignedExtra → Option Payload
  pub sign : P → Payload → Option G
  pub unlookup : ℕ → ℕ
  pub deconstruct : Payload → C × SignedExtra

module _ {C P G Payload : Type 0} (signer : Signer C P G Payload) where
  -- At a number of blocks whose hashes are kept, in a block. The number of blocks to come is one more
  -- than that of the last block.
  unfoldable pub create_transaction : ℕ → ℕ → C → P → ℕ → ℕ → Option (C × ℕ × G × SignedExtra)
  unfolding period_of
  create_transaction count block_number call public account index =
      let current_block = block_number - 1 in
      let extra : SignedExtra = record {
        era = signer.mortal (period_of count) current_block;
        nonce = index;
        tip = 0;
      } in
      elim (signer.payload call extra) [
        | none ↦ none
        | some raw_payload ↦ elim (signer.sign public raw_payload) [
          | none ↦ none
          | some signature ↦
              let address = signer.unlookup account in
              let (call', extra') = signer.deconstruct raw_payload in
              some (call', address, signature, extra')
        ]
      ]

-- What is found is a power of two, at least `c`, and the one before it is less.
next_power_cases :
    (powers k c : ℕ)
    → 2 ^ k < 2 * c
    → c ≤ 2 ^ (k + powers)
    → (n : ℕ) × (next_power (suc powers) k c ≡ some (2 ^ n)) × (c ≤ 2 ^ n) × (2 ^ n < 2 * c)
unfolding next_power
next_power_cases zero k c below above =
    let flat : 2 ^ (k + 0) ≡ 2 ^ k = ap (λ n. 2 ^ n) (omega arith) in
    let enough : c ≤ 2 ^ k = omega (arith, flat) in
    let found : leb c (2 ^ k) ≡ true = ground arith in (k, rw found refl, enough, below)
next_power_cases (suc powers) k c below above = elim (Bool-cases (leb c (2 ^ k))) [
  | inl found ↦ (k, rw found refl, ground (arith, found), below)
  | inr missed ↦
      let doubled : 2 ^ (k + 1) ≡ 2 ^ k + 2 ^ k = ap (λ n. 2 ^ n) (omega arith) ∙ two-pow-succ k in
      let small : 2 ^ k < c = ground (arith, missed) in
      let further : 2 ^ (k + suc powers) ≡ 2 ^ (k + 1 + powers) = ap (λ n. 2 ^ n) (omega arith) in
      let (n, e, low, high) =
        next_power_cases powers (k + 1) c (omega (arith, doubled, small))
          (omega (arith, further)) in
      (n, rw missed (e), low, high)
]

half_of_power :
    (n c : ℕ)
    → 1 < c
    → c ≤ 2 ^ n
    → 2 ^ n < 2 * c
    → (j : ℕ) × (half_or (some (2 ^ n)) ≡ 2 ^ j) × (2 ^ j < c) × (c ≤ 2 * 2 ^ j)
half_of_power zero c some_blocks low high = absurd (omega arith)
half_of_power (suc n) c some_blocks low high =
    let doubled : 2 ^ suc n ≡ 2 ^ n + 2 ^ n = two-pow-succ n in
    (n, omega (arith, doubled), omega (arith, doubled), omega (arith, doubled))

-- The period for a number of kept hashes that is above 1 and at most 2 ^ 31 is the greatest power of
-- two below that number.
period_of_lem :
    (count : ℕ)
    → 1 < count
    → count ≤ 2 ^ 31
    → (j : ℕ) × (period_of count ≡ 2 ^ j) × (2 ^ j < count) × (count ≤ 2 * 2 ^ j)
unfolding period_of
period_of_lem count some_blocks few =
    let (n, e, low, high) = next_power_cases 31 0 count (omega arith) few in
    let (j, half, below, above) = half_of_power n count some_blocks low high in
    (j, ap half_or e ∙ half, below, above)

module _ {C P G Payload : Type 0} (signer : Signer C P G Payload) where
  -- What a transaction is made of.
  create_transaction-parts :
      (count block_number : ℕ) (call : C) (public : P) (account index : ℕ)
      (made : C × ℕ × G × SignedExtra)
      → create_transaction signer count block_number call public account index ≡ some made
      → let extra : SignedExtra = record {
        era = signer.mortal (period_of count) (block_number - 1);
        nonce = index;
        tip = 0;
      } in
        (p : Payload) × (signer.payload call extra ≡ some p)
        × (signer.sign public p ≡ some made.2)
        × (made.1 ≡ signer.unlookup account)
        × (made.0 ≡ (signer.deconstruct p).0)
        × (made.3 ≡ (signer.deconstruct p).1)
  unfolding create_transaction
  create_transaction-parts count block_number call public account index made e =
      let extra : SignedExtra = record {
        era = signer.mortal (period_of count) (block_number - 1);
        nonce = index;
        tip = 0;
      } in
      elim (Option-cases (signer.payload call extra)) [
        | inl missing ↦ absurd (ground (arith, e, missing))
        | inr (p, h) ↦ elim (Option-cases (signer.sign public p)) [
          | inl missing ↦ absurd (ground (arith, e, h, missing))
          | inr (g, k) ↦ (
            p,
            h,
            k ∙ ground (arith, e, h, k),
            ground (arith, e, h, k),
            ground (arith, e, h, k),
            ground (arith, e, h, k),
          )
        ]
      ]

  -- A transaction that is created is the call, signed with the nonce and no tip. Its era starts at
  -- the last block, and has as its period the greatest power of two below the number of kept
  -- hashes. That number is above 1 and at most 2 ^ 31, and a payload has what it was made of.
  pub create_transaction-ok :
      (count block_number : ℕ) (call : C) (public : P) (account index : ℕ)
      (made : C × ℕ × G × SignedExtra)
      → ((c : C) (x : SignedExtra) (p : Payload)
          → signer.payload c x ≡ some p
          → signer.deconstruct p ≡ (c, x))
      → 1 < count
      → count ≤ 2 ^ 31
      → create_transaction signer count block_number call public account index ≡ some made
      → let (call', address, signature, extra) = made in
        (call' ≡ call)
        × (address ≡ signer.unlookup account)
        × ((p : Payload) × (signer.payload call extra ≡ some p)
            × (signer.sign public p ≡ some signature))
        × (extra.nonce ≡ index)
        × (extra.tip ≡ 0)
        × ((j : ℕ) × (extra.era ≡ signer.mortal (2 ^ j) (block_number - 1))
            × (2 ^ j < count)
            × (count ≤ 2 * 2 ^ j))
  create_transaction-ok count block_number call public account index made parts some_blocks few e =
      let extra : SignedExtra = record {
        era = signer.mortal (period_of count) (block_number - 1);
        nonce = index;
        tip = 0;
      } in
      let (p, h, k, address, first, last) =
        create_transaction-parts count block_number call public account index made e in
      let (j, period, below, above) = period_of_lem count some_blocks few in
      let same : made.3 ≡ extra = last ∙ ap (λ d. d.1) (parts call extra p h) in
      (
        first ∙ ap (λ d. d.0) (parts call extra p h),
        address,
        (p, ap (signer.payload call) same ∙ h, k),
        ap (λ x. x.nonce) same,
        ap (λ x. x.tip) same,
        (
          j,
          ap (λ x. x.era) same ∙ ap (λ n. signer.mortal n (block_number - 1)) period,
          below,
          above,
        ),
      )
