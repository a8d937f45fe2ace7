-- ===== src/Token/Conservation.antt =====
-- Transfers of tokens neither make nor destroy tokens.
use akropolis_os_chain_node.Common.{
  ℕ, ◌+◌, ◌-◌, ◌≤◌, ◌<◌, ◌≡◌, true, false, List, [], ◌∷◌, arith, contains, refl,
}
use akropolis_os_chain_node.Common.Words.{u128_mod}
use akropolis_os_chain_node.Common.Maps.{update₂}
use akropolis_os_chain_node.Token.{Storage, make_transfer}

-- The tokens that the listed accounts hold together.
abbrev pub total : (ℕ → ℕ) → List ℕ → ℕ
total balance [] = 0
total balance (a ∷ accounts) = balance a + total balance accounts

-- No account is listed twice.
abbrev pub Distinct : List ℕ → Type 0
Distinct [] = Unit
Distinct (a ∷ accounts) = (contains accounts a ≡ false) × Distinct accounts

pub total-update₂_other :
    (m : ℕ → ℕ → ℕ) (t k v : ℕ) (xs : List ℕ)
    → contains xs k ≡ false
    → total (update₂ m t k v t) xs ≡ total (m t) xs
total-update₂_other m t k v [] h = refl
total-update₂_other m t k v (x ∷ xs) h = ground (arith, total-update₂_other m t k v xs)

pub total-update₂ :
    (m : ℕ → ℕ → ℕ) (t k v : ℕ) (xs : List ℕ)
    → Distinct xs
    → contains xs k ≡ true
    → total (update₂ m t k v t) xs + m t k ≡ total (m t) xs + v
total-update₂ m t k v [] d h = cc
total-update₂ m t k v (x ∷ xs) d h =
    ground (arith, total-update₂ m t k v xs d.1, total-update₂_other m t k v xs)

pub le-total : (m : ℕ → ℕ) (k : ℕ) (xs : List ℕ) → contains xs k ≡ true → m k ≤ total m xs
le-total m k [] h = cc
le-total m k (x ∷ xs) h = ground (arith, le-total m k xs)

-- Whether a transfer succeeds or fails, the accounts of any list that has the sender and the
-- receiver, each once, hold as much together as before, if that is a `u128`.
pub make_transfer-total :
    (token_id from to amount : ℕ) (s : Storage) (accounts : List ℕ)
    → Distinct accounts
    → contains accounts from ≡ true
    → contains accounts to ≡ true
    → total (s.balance token_id) accounts < u128_mod
    → total ((make_transfer token_id from to amount s).1.balance token_id) accounts
      ≡ total (s.balance token_id) accounts
unfolding make_transfer
make_transfer-total token_id from to amount s accounts d f t b =
    let paid = s.balance token_id from - amount in
    let m = update₂ s.balance token_id from paid in
    ground (
      arith,
      le-total (s.balance token_id) from accounts f,
      total-update₂ s.balance token_id from paid accounts d f,
      le-total (m token_id) to accounts t,
      total-update₂ m token_id to (m token_id to + amount) accounts d t,
    )
