-- ===== src/ChainSpec/Balances.antt =====
-- What the accounts of a test network hold at first (cli/src/chain_spec.rs).
use akropolis_os_chain_node.Common.{
  ℕ, ◌+◌, ◌*◌, ◌/◌, ◌≤◌, ◌≡◌, Bool, List, [], ◌∷◌, ◌++◌, map, Option, arith, refl, length,
  length-take, unwrap_or,
}
use akropolis_os_chain_node.ChainSpec.{
  Authority, Keys, testnet_genesis, default_endowed, first_half, endowment, stash_amount,
}

-- What a list of accounts with their balances holds together.
abbrev pub total : List (ℕ × ℕ) → ℕ
total [] = 0
total ((_, v) ∷ rest) = v + total rest

total-append : (xs ys : List (ℕ × ℕ)) → total (xs ++ ys) ≡ total xs + total ys
total-append [] ys = omega arith
total-append ((a, v) ∷ xs) ys = omega (arith, total-append xs ys)

total-map :
    {A : Type 0} (account : A → ℕ) (v : ℕ) (xs : List A)
    → total (map (λ x. (account x, v)) xs) ≡ length xs * v
total-map account v [] = omega arith
total-map account v (x ∷ xs) = omega (arith, total-map account v xs)

total-stakers :
    (v : ℕ) (authorities : List Authority)
    → total (
        map
          (λ (x : ℕ × ℕ × ℕ). (x.0, x.2))
          (map (λ (x : Authority). (x.stash, x.controller, v)) authorities))
      ≡ length authorities * v
total-stakers v [] = omega arith
total-stakers v (x ∷ authorities) = omega (arith, total-stakers v authorities)

length-first_half :
    (accounts : List ℕ)
    → (length accounts ≤ 2 * length (first_half accounts))
      × (2 * length (first_half accounts) ≤ length accounts + 1)
length-first_half accounts =
    let n = (length accounts + 1) / 2 in
    let taken : length (first_half accounts) ≡ n = length-take n accounts (omega arith) in
    (omega (arith, taken), omega (arith, taken))

-- The balances of a test network are the endowment of each endowed account and a stake for each
-- authority, and what the authorities stake is covered by them. The council, the technical
-- committee and the society are the same accounts, half of the endowed ones, rounded up.
pub testnet_genesis-balances :
    (keys : Keys) (authorities : List Authority) (root_key : ℕ) (given : Option (List ℕ))
    (enable_println : Bool)
    → let g = testnet_genesis keys authorities root_key given enable_println in
      let endowed = unwrap_or given (default_endowed keys) in
      (total g.balances ≡ length endowed * endowment + length authorities * stash_amount)
      × (total (map (λ x. (x.0, x.2)) g.staking.stakers) ≤ total g.balances)
      × (g.council ≡ g.society)
      × (g.technical_committee ≡ g.society)
      × (length endowed ≤ 2 * length g.society)
      × (2 * length g.society ≤ length endowed + 1)
unfolding testnet_genesis
testnet_genesis-balances keys authorities root_key given enable_println =
    let endowed = unwrap_or given (default_endowed keys) in
    let joined =
      total-append (map (λ k. (k, endowment)) endowed)
        (map (λ (x : Authority). (x.stash, stash_amount)) authorities) in
    let endowments = total-map (λ (k : ℕ). k) endowment endowed in
    let stashes = total-map (λ (x : Authority). x.stash) stash_amount authorities in
    let stakes = total-stakers stash_amount authorities in
    let (enough, tight) = length-first_half endowed in
    (
      omega (arith, joined, endowments, stashes),
      omega (arith, joined, endowments, stashes, stakes),
      refl,
      refl,
      enough,
      tight,
    )
