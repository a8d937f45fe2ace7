-- ===== src/Token/Backing.antt =====
-- What all accounts hold of a token, with finitely many holders: who holds nothing need not be
-- listed (the map `Balance` of runtime/src/token.rs).
use akropolis_os_chain_node.Common.{
  ℕ, ◌+◌, ◌-◌, ◌≤◌, ◌≡◌, true, false, List, ◌∷◌, arith, contains, Bool-cases, inl, inr,
}
use akropolis_os_chain_node.Common.Maps.{update₂}
use akropolis_os_chain_node.Token.Conservation.{total, Distinct, total-update₂, le-total}
use akropolis_os_chain_node.Token.Ledger.{moved}

-- The accounts that hold something, each listed once, hold the supply together.
pub record IsBacked (holding : ℕ → ℕ) (supply : ℕ) : Type 0 where
  pub accounts : List ℕ
  pub distinct : Distinct accounts
  pub all_listed : (a : ℕ) → contains accounts a ≡ false → holding a ≡ 0
  pub sum : total holding accounts ≡ supply

-- Any account can be listed.
listing :
    {m : ℕ → ℕ} {n : ℕ} (k : ℕ) (b : IsBacked m n)
    → (c : IsBacked m n) × (contains c.accounts k ≡ true)
listing {m = m} k b = elim (Bool-cases (contains b.accounts k)) [
  | inl there ↦ (b, there)
  | inr missing ↦ (
    record {
      accounts = k ∷ b.accounts;
      distinct = (missing, b.distinct);
      all_listed = λ a h. b.all_listed a (ground (arith, h));
      sum = omega (arith, b.all_listed k missing, b.sum);
    },
    ground arith,
  )
]

pub IsBacked-le : {m : ℕ → ℕ} {n : ℕ} → IsBacked m n → (k : ℕ) → m k ≤ n
IsBacked-le {m = m} b k =
    let (c, there) = listing k b in omega (arith, le-total m k c.accounts there, c.sum)

-- The balance of one account changes, and the supply by as much.
pub IsBacked-update₂ :
    (m : ℕ → ℕ → ℕ) (t k v n n' : ℕ)
    → IsBacked (m t) n
    → n' + m t k ≡ n + v
    → IsBacked (update₂ m t k v t) n'
IsBacked-update₂ m t k v n n' b e =
    let (c, there) = listing k b in
    record {
      accounts = c.accounts;
      distinct = c.distinct;
      all_listed = λ a h. ground (arith, c.all_listed a h, there);
      sum = omega (arith, total-update₂ m t k v c.accounts c.distinct there, c.sum, e);
    }

pub IsBacked-moved :
    (m : ℕ → ℕ → ℕ) (t from to amount n : ℕ)
    → IsBacked (m t) n
    → amount ≤ m t from
    → IsBacked (moved m t from to amount t) n
IsBacked-moved m t from to amount n b h =
    let le = IsBacked-le b from in
    let paid = update₂ m t from (m t from - amount) in
    let first =
      IsBacked-update₂ m t from (m t from - amount) n (n - amount) b (omega (arith, h, le)) in
    IsBacked-update₂ paid t to (paid t to + amount) (n - amount) n first (omega (arith, h, le))
