-- ===== src/PriceOracle/Aggregation.antt =====
-- What the price oracle keeps of the recorded prices, and what it makes of them.
use mathlib.Core.List.{foldl}
use akropolis_os_chain_node.Common.{
  ℕ, ◌+◌, ◌-◌, ◌*◌, ◌/◌, ◌≤◌, ◌<◌, ◌≡◌, List, [], ◌∷◌, ◌++◌, take, arith, ap, refl, drop, length,
  if◌then◌else◌, ltb, length-drop,
}
use akropolis_os_chain_node.Common.Words.{u32_mod, u128_mod, wrapping_add}
use akropolis_os_chain_node.Common.Action.{ok}
use akropolis_os_chain_node.PriceOracle.{
  Storage, Call, keep_last, tokens_to_keep, price_sum, aggregate_price_points,
}

take-append-drop : (n : ℕ) (xs : List ℕ) → take n xs ++ drop n xs ≡ xs
take-append-drop ℕ.zero xs = refl
take-append-drop (ℕ.suc n) [] = refl
take-append-drop (ℕ.suc n) (x ∷ xs) = ap (λ ys. x ∷ ys) (take-append-drop n xs)

-- What is kept are the last prices, all of them while there are fewer than ten, and ten otherwise.
pub keep_last_lem :
    (prices : List ℕ)
    → (length (keep_last prices) ≤ tokens_to_keep)
      × (tokens_to_keep ≤ length prices → length (keep_last prices) ≡ tokens_to_keep)
      × ((older : List ℕ) × (older ++ keep_last prices ≡ prices))
unfolding keep_last
keep_last_lem prices =
    let n = length prices - tokens_to_keep in
    let kept = take-append-drop n prices in
    (
      ground (arith, length-drop n prices),
      λ h. ground (arith, length-drop n prices),
      (if ltb (length prices) tokens_to_keep then [] else take n prices, ground (arith, kept)),
    )

abbrev pub total : List ℕ → ℕ
total [] = 0
total (x ∷ xs) = x + total xs

-- Every price lies between the two bounds.
abbrev pub Within : ℕ → ℕ → List ℕ → Type 0
Within lo hi [] = Unit
Within lo hi (x ∷ xs) = (lo ≤ x) × (x ≤ hi) × Within lo hi xs

foldl-total :
    (xs : List ℕ) (start : ℕ)
    → start + total xs < u128_mod
    → foldl (λ mem price. wrapping_add u128_mod mem price) start xs ≡ start + total xs
foldl-total [] start h = omega arith
foldl-total (x ∷ xs) start h = ground (arith, foldl-total xs (wrapping_add u128_mod start x))

total-Within :
    (lo hi : ℕ) (xs : List ℕ)
    → Within lo hi xs
    → (lo * length xs ≤ total xs) × (total xs ≤ hi * length xs)
total-Within lo hi [] w = (omega arith, omega arith)
total-Within lo hi (x ∷ xs) w = let rest = total-Within lo hi xs w.2 in (grind arith, grind arith)

-- The average of the prices of a symbol, rounded down.
abbrev pub average : Storage → List ℕ → ℕ
average s symbol = total (s.token_price_history symbol) / length (s.token_price_history symbol)

pub aggregate_price_points-average :
    (block : ℕ) (symbol : List ℕ) (s : Storage)
    → let prices = s.token_price_history symbol in
      0 < length prices
      → length prices < u32_mod
      → total prices < u128_mod
      → aggregate_price_points block symbol s
        ≡ (ok (Call.record_aggregated_price_points block symbol (average s symbol)), s)
unfolding aggregate_price_points price_sum
aggregate_price_points-average block symbol s some_price few sum =
    ground (arith, foldl-total (s.token_price_history symbol) 0)

-- The aggregation of the prices of a symbol, of which there are at least one and fewer than 2 ^ 32,
-- with a sum that is a `u128`, does not panic: the call that it returns has their average, rounded
-- down, which lies between any bounds of the prices.
pub aggregate_price_points_lem :
    (block lo hi : ℕ) (symbol : List ℕ) (s : Storage)
    → let prices = s.token_price_history symbol in
      0 < length prices
      → length prices < u32_mod
      → total prices < u128_mod
      → Within lo hi prices
      → (aggregate_price_points block symbol s
          ≡ (ok (Call.record_aggregated_price_points block symbol (average s symbol)), s))
        × (lo ≤ average s symbol)
        × (average s symbol ≤ hi)
aggregate_price_points_lem block lo hi symbol s some_price few sum w =
    let prices = s.token_price_history symbol in
    (
      aggregate_price_points-average block symbol s some_price few sum,
      grind (arith, total-Within lo hi prices w),
      grind (arith, total-Within lo hi prices w),
    )
