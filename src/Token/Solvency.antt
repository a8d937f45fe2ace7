-- ===== src/Token/Solvency.antt =====
-- The supply of token 0 over histories of the token pallet (runtime/src/token.rs). The calls mint and
-- burn read the supply of this token only.
pub mod Runs
use akropolis_os_chain_node.Common.{
  ℕ, ◌+◌, ◌-◌, ◌≤◌, ◌<◌, ◌≡◌, ◌≢◌, List, [], ◌∷◌, Option, arith, refl, sym, subst, ◌⊎◌, inl, inr,
  Option-cases, Bool-cases, ◌==◌, ap, true, false,
}
use akropolis_os_chain_node.Common.Words.{u128_mod}
use akropolis_os_chain_node.Common.Maps.{update₂}
use akropolis_os_chain_node.Origin.{Origin, signed, root, unsigned}
use akropolis_os_chain_node.Token.{
  Storage, make_transfer, burn_tokens, mint_tokens, check_token_exist,
}
use akropolis_os_chain_node.Token.Calls
use akropolis_os_chain_node.Token.Backing.{IsBacked, IsBacked-le, IsBacked-update₂, IsBacked-moved}
use akropolis_os_chain_node.Token.Ledger.{moved, check_token_exist-frame}
use akropolis_os_chain_node.Token.Refinement.{Call, dispatch, unsigned_stays}

-- The accounts hold the supply of token 0, a `u128`, and nothing of it is locked.
pub record IsSolvent (s : Storage) : Type 0 where
  pub backing : IsBacked (s.balance 0) (s.total_supply 0)
  pub bound : s.total_supply 0 < u128_mod
  pub free : (a : ℕ) → s.locked 0 a ≡ 0

pub backed : {m m' : ℕ → ℕ} {n n' : ℕ} → m' ≡ m → n' ≡ n → IsBacked m n → IsBacked m' n'
backed {m' = m'} {n = n} e f b =
    subst (λ k. IsBacked m' k) (sym f) (subst (λ h. IsBacked h n) (sym e) b)

-- What an action leaves of token 0 when the supply stays.
module _ (s : Storage) (solvent : IsSolvent s) where
  small : (a : ℕ) → s.balance 0 a < u128_mod
  small a = omega (arith, IsBacked-le solvent.backing a, solvent.bound)

  fits :
      (from to amount : ℕ)
      → amount ≤ s.balance 0 from
      → moved s.balance 0 from to amount 0 to < u128_mod
  fits from to amount h =
      let le = IsBacked-le (IsBacked-moved s.balance 0 from to amount _ solvent.backing h) to in
      omega (arith, le, solvent.bound)

  make_transfer-effect :
      (token_id from to amount : ℕ)
      → let t = (make_transfer token_id from to amount s).1 in
        (t.total_supply ≡ s.total_supply)
        × (t.locked ≡ s.locked)
        × ((t.balance 0 ≡ s.balance 0)
            ⊎ ((amount ≤ s.balance 0 from) × (t.balance 0 ≡ moved s.balance 0 from to amount 0)))
  unfolding make_transfer
  make_transfer-effect token_id from to amount = elim (Bool-cases (token_id == 0)) [
    | inl zero ↦ ground (arith, small from, fits from to amount)
    | inr other ↦ ground arith
  ]

  pub make_transfer-IsSolvent :
      (token_id from to amount : ℕ) → IsSolvent (make_transfer token_id from to amount s).1
  make_transfer-IsSolvent token_id from to amount =
      let (supply, locked, effect) = make_transfer-effect token_id from to amount in
      let bound = subst (λ f. f 0 < u128_mod) (sym supply) solvent.bound in
      let free = subst (λ f. (a : ℕ) → f 0 a ≡ 0) (sym locked) solvent.free in
      let n = ap (λ f. f 0) supply in
      elim effect [
        | inl same ↦ record { backing = backed same n solvent.backing; bound = bound; free = free }
        | inr (covered, effect) ↦ record {
          backing =
              backed effect n (IsBacked-moved s.balance 0 from to amount _ solvent.backing covered);
          bound = bound;
          free = free;
        }
      ]

  burn_tokens-effect :
      (from amount : ℕ)
      → let t = (burn_tokens 0 from amount s).1 in
        (t.locked ≡ s.locked)
        × (((t.balance 0 ≡ s.balance 0) × (t.total_supply 0 ≡ s.total_supply 0))
            ⊎ ((amount ≤ s.balance 0 from)
                × (amount ≤ s.total_supply 0)
                × (t.balance 0 ≡ update₂ s.balance 0 from (s.balance 0 from - amount) 0)
                × (t.total_supply 0 ≡ s.total_supply 0 - amount)))
  unfolding burn_tokens
  burn_tokens-effect from amount = ground (arith, small from, solvent.free from)

  pub burn_tokens-IsSolvent : (from amount : ℕ) → IsSolvent (burn_tokens 0 from amount s).1
  burn_tokens-IsSolvent from amount =
      let (locked, effect) = burn_tokens-effect from amount in
      let free = subst (λ f. (a : ℕ) → f 0 a ≡ 0) (sym locked) solvent.free in
      elim effect [
        | inl (same, supply) ↦ record {
          backing = backed same supply solvent.backing;
          bound = omega (arith, supply, solvent.bound);
          free = free;
        }
        | inr (covered, issued, left, supply) ↦ record {
          backing = backed left supply (
              IsBacked-update₂ s.balance 0 from (s.balance 0 from - amount) _
                (s.total_supply 0 - amount) solvent.backing (omega (arith, covered, issued)));
          bound = omega (arith, supply, solvent.bound);
          free = free;
        }
      ]

  mint_tokens-effect :
      (token_id to amount : ℕ)
      → let t = (mint_tokens token_id to amount s).1 in
        (t.locked ≡ s.locked)
        × (((t.balance 0 ≡ s.balance 0) × (t.total_supply 0 ≡ s.total_supply 0))
            ⊎ ((s.total_supply 0 + amount < u128_mod)
                × (t.balance 0 ≡ update₂ s.balance 0 to (s.balance 0 to + amount) 0)
                × (t.total_supply 0 ≡ s.total_supply 0 + amount)))
  unfolding mint_tokens
  mint_tokens-effect token_id to amount = elim (Bool-cases (token_id == 0)) [
    | inl zero ↦ ground arith
    | inr other ↦ ground arith
  ]

  pub mint_tokens-IsSolvent :
      (token_id to amount : ℕ) → IsSolvent (mint_tokens token_id to amount s).1
  mint_tokens-IsSolvent token_id to amount =
      let (locked, effect) = mint_tokens-effect token_id to amount in
      let free = subst (λ f. (a : ℕ) → f 0 a ≡ 0) (sym locked) solvent.free in
      elim effect [
        | inl (same, supply) ↦ record {
          backing = backed same supply solvent.backing;
          bound = omega (arith, supply, solvent.bound);
          free = free;
        }
        | inr (bound, held, supply) ↦ record {
          backing = backed held supply (
              IsBacked-update₂ s.balance 0 to (s.balance 0 to + amount) _
                (s.total_supply 0 + amount) solvent.backing (omega arith));
          bound = omega (arith, supply, bound);
          free = free;
        }
      ]
