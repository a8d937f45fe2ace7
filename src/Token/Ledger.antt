-- ===== src/Token/Ledger.antt =====
-- A ledger on unbounded numbers, what a client of an ERC20 token sees, and what the parts of the
-- calls in runtime/src/token.rs do to it.
use akropolis_os_chain_node.Common.{ℕ, ◌+◌, ◌-◌, ◌≤◌, ◌<◌, ◌≡◌, ◌≢◌, true, false, List, arith, ◌⊎◌}
use akropolis_os_chain_node.Common.Words.{u128_mod}
use akropolis_os_chain_node.Common.Maps.{update₂, update₃}
use akropolis_os_chain_node.Common.Action.{returns}
use akropolis_os_chain_node.Origin.{Origin, signed}
use akropolis_os_chain_node.Token.{
  Storage, make_transfer, burn_tokens, mint_tokens, check_token_exist,
}

-- What an account holds of a token, and what a spender may take from an owner.
pub record Ledger : Type 0 where
  pub holding : ℕ → ℕ → ℕ
  pub permitted : ℕ → ℕ → ℕ → ℕ

abbrev pub moved : (ℕ → ℕ → ℕ) → ℕ → ℕ → ℕ → ℕ → ℕ → ℕ → ℕ
moved h token_id from to amount =
    let paid = update₂ h token_id from (h token_id from - amount) in
    update₂ paid token_id to (paid token_id to + amount)

-- One step of the ledger by an origin, on unbounded numbers. Who has not signed changes nothing; who
-- has moves the own tokens, permits others to take them, or spends what is permitted.
pub data Step (o : Origin) (a b : Ledger) : Type 0 where
  stay : b ≡ a → Step o a b
  move :
      (from token_id to amount : ℕ)
      → o ≡ signed from
      → amount ≤ a.holding token_id from
      → b ≡ record a { holding = moved a.holding token_id from to amount }
      → Step o a b
  permit :
      (owner token_id spender v : ℕ)
      → o ≡ signed owner
      → b ≡ record a { permitted = update₃ a.permitted token_id owner spender v }
      → Step o a b
  spend :
      (spender token_id from to amount : ℕ)
      → o ≡ signed spender
      → amount ≤ a.holding token_id from
      → amount ≤ a.permitted token_id from spender
      → b ≡ record {
        holding = moved a.holding token_id from to amount;
        permitted =
            update₃ a.permitted token_id from spender (a.permitted token_id from spender - amount);
      }
      → Step o a b
  issue :
      (who token_id to amount : ℕ)
      → o ≡ signed who
      → 0 < amount
      → b ≡ record a { holding = update₂ a.holding token_id to (a.holding token_id to + amount) }
      → Step o a b
  -- what is lost beside the amount were locked tokens
  destroy :
      (who token_id from amount lost : ℕ)
      → o ≡ signed who
      → amount + lost ≤ a.holding token_id from
      → b ≡ record a {
        holding = update₂ a.holding token_id from (a.holding token_id from - (amount + lost));
      }
      → Step o a b

abbrev pub view : Storage → Ledger
view s = record { holding = s.balance; permitted = s.allowance }

-- Balances are so small that a transfer overflows nothing, and they cover what is locked.
abbrev pub IsSound : Storage → Type 0
IsSound s =
    ((t a : ℕ) → s.balance t a < u128_mod)
    × ((t a b : ℕ) → a ≢ b → s.balance t a + s.balance t b < u128_mod)
    × ((t a : ℕ) → s.locked t a ≤ s.balance t a)

pub make_transfer-moved :
    (token_id from to amount : ℕ) (s : Storage)
    → IsSound s
    → let r = make_transfer token_id from to amount s in
      ((returns r ≡ false) × (r.1 ≡ s))
      ⊎ ((returns r ≡ true)
          × (amount ≤ s.balance token_id from)
          × (r.1.balance ≡ moved s.balance token_id from to amount)
          × (r.1.allowance ≡ s.allowance))
unfolding make_transfer
make_transfer-moved token_id from to amount s (small, pair, covered) =
    ground (arith, small token_id from, small token_id to, pair token_id from to)

pub burn_tokens-destroyed :
    (token_id from amount : ℕ) (s : Storage)
    → IsSound s
    → let r = burn_tokens token_id from amount s in
      let gone = amount + s.locked token_id from in
      ((returns r ≡ false) × (r.1 ≡ s))
      ⊎ ((returns r ≡ true)
          × (gone ≤ s.balance token_id from)
          × (r.1.balance ≡ update₂ s.balance token_id from (s.balance token_id from - gone))
          × (r.1.allowance ≡ s.allowance))
unfolding burn_tokens
burn_tokens-destroyed token_id from amount s (small, pair, covered) =
    ground (arith, small token_id from, covered token_id from)

pub mint_tokens-issued :
    (token_id to amount : ℕ) (s : Storage)
    → let r = mint_tokens token_id to amount s in
      ((returns r ≡ false) × (r.1 ≡ s))
      ⊎ ((returns r ≡ true)
          × (0 < amount)
          × (r.1.balance ≡ update₂ s.balance token_id to (s.balance token_id to + amount))
          × (r.1.allowance ≡ s.allowance))
unfolding mint_tokens
mint_tokens-issued token_id to amount s = ground arith

pub check_token_exist-frame : (symbol : List ℕ) (s : Storage) → (check_token_exist symbol s).1 ≡ s
unfolding check_token_exist
check_token_exist-frame symbol s = ground arith

pub ledger_eq :
    {g h : ℕ → ℕ → ℕ} {p q : ℕ → ℕ → ℕ → ℕ}
    → g ≡ h
    → p ≡ q
    → Path Ledger (record { holding = g; permitted = p }) (record { holding = h; permitted = q })
ledger_eq a b = cc
