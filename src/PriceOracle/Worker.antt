-- ===== src/PriceOracle/Worker.antt =====
-- What the offchain worker submits, and where it stops (runtime/src/price_oracle.rs).
use akropolis_os_chain_node.Common.{
  ℕ, ◌<◌, ◌≡◌, List, [], ◌∷◌, ◌++◌, map, some, true, false, arith, refl, length, ltb, Bool-cases,
  inl, inr, ap, sym,
}
use akropolis_os_chain_node.Common.Words.{u32_mod, u128_mod}
use akropolis_os_chain_node.Common.Action.{ok, panicked, map_err, for_each, ◌>>=◌}
use akropolis_os_chain_node.PriceOracle.{Storage, Call, fetches_at}
use akropolis_os_chain_node.PriceOracle.Aggregation.{total, average, aggregate_price_points-average}
use akropolis_os_chain_node.PriceOracle.Fetch.{
  Library, Reply, Pool, dai_url, receive, fetch_json, fetch_price_from_coincap, fetch_price_from,
  fetch_price_unsigned, submit_unsigned, aggregate_price_points_unsigned, logged, fetch_all,
  recorded_symbols, aggregate_all, offchain_worker,
}

-- Every symbol has so few and so small prices that their count and their sum are machine words.
abbrev pub AllSmall : Storage → List (List ℕ) → Type 0
AllSmall s [] = Unit
AllSmall s (symbol ∷ symbols) =
    (length (s.token_price_history symbol) < u32_mod)
    × (total (s.token_price_history symbol) < u128_mod)
    × AllSmall s symbols

abbrev AllReady : Storage → List (List ℕ) → Type 0
AllReady s [] = Unit
AllReady s (symbol ∷ symbols) =
    (0 < length (s.token_price_history symbol))
    × (length (s.token_price_history symbol) < u32_mod)
    × (total (s.token_price_history symbol) < u128_mod)
    × AllReady s symbols

recorded-AllReady :
    (s : Storage) (symbols : List (List ℕ))
    → AllSmall s symbols
    → AllReady s (recorded_symbols s symbols)
recorded-AllReady s [] small = tt
recorded-AllReady s (symbol ∷ symbols) (few, sum, small) =
    let rest = recorded-AllReady s symbols small in
    elim (Bool-cases (ltb 0 (length (s.token_price_history symbol)))) [
      | inl recorded ↦ ground (arith, rest)
      | inr unrecorded ↦ ground (arith, rest)
    ]

-- The call that submits the average of a symbol.
abbrev pub average_call : Storage → ℕ → List ℕ → Call
average_call s block symbol = Call.record_aggregated_price_points block symbol (average s symbol)

-- One call for each symbol that has a price.
abbrev pub average_calls : Storage → ℕ → List (List ℕ) → List Call
average_calls s block [] = []
average_calls s block (symbol ∷ symbols) = elim (s.token_price_history symbol) [
  | [] ↦ average_calls s block symbols
  | _ ∷ _ ↦ average_call s block symbol ∷ average_calls s block symbols
]

average_calls-recorded :
    (s : Storage) (block : ℕ) (symbols : List (List ℕ))
    → map (average_call s block) (recorded_symbols s symbols) ≡ average_calls s block symbols
average_calls-recorded s block [] = refl
average_calls-recorded s block (symbol ∷ symbols) =
    ground (arith, average_calls-recorded s block symbols)

module _ {J F : Type 0} (library : Library J F) where
  aggregate_one :
      (s : Storage) (block : ℕ) (symbol : List ℕ) (pool : Pool)
      → ((c : Call) → library.accepts c ≡ true)
      → 0 < length (s.token_price_history symbol)
      → length (s.token_price_history symbol) < u32_mod
      → total (s.token_price_history symbol) < u128_mod
      → logged library (symbol ∷ []) (aggregate_price_points_unsigned library s block symbol) pool
        ≡ (ok tt, pool ++ average_call s block symbol ∷ [])
  unfolding logged aggregate_price_points_unsigned submit_unsigned ◌>>=◌
  aggregate_one s block symbol pool accepts some_price few small = ground (
    arith,
    accepts (average_call s block symbol),
    aggregate_price_points-average block symbol s some_price few small,
  )

  append_assoc : (xs ys zs : Pool) → (xs ++ ys) ++ zs ≡ xs ++ (ys ++ zs)
  append_assoc [] ys zs = refl
  append_assoc (x ∷ xs) ys zs = ap (λ l. x ∷ l) (append_assoc xs ys zs)

  append_nil : (xs : Pool) → xs ++ [] ≡ xs
  append_nil [] = refl
  append_nil (x ∷ xs) = ap (λ l. x ∷ l) (append_nil xs)

  aggregate_all_lem :
      (s : Storage) (block : ℕ) (symbols : List (List ℕ)) (pool : Pool)
      → ((c : Call) → library.accepts c ≡ true)
      → AllReady s symbols
      → aggregate_all library s block symbols pool
        ≡ (ok tt, pool ++ map (average_call s block) symbols)
  unfolding aggregate_all for_each ◌>>=◌
  aggregate_all_lem s block [] pool accepts ready = ap (λ l. (ok tt, l)) (sym (append_nil pool))
  aggregate_all_lem s block (symbol ∷ symbols) pool accepts (some_price, few, sum, ready) =
      let call = average_call s block symbol in
      ground (
        arith,
        aggregate_one s block symbol pool accepts some_price few sum,
        aggregate_all_lem s block symbols (pool ++ call ∷ []) accepts ready,
        append_assoc pool (call ∷ []) (map (average_call s block) symbols),
      )

  -- In a block without fetches, with a pool that takes every call, the worker submits, for each symbol
  -- that has prices and in their order, the average of its prices, and nothing else; it does not
  -- panic. The numbers and the sums of the prices are machine words.
  pub offchain_worker-average :
      (duration block : ℕ) (symbols : List (List ℕ)) (s : Storage)
      → ((c : Call) → library.accepts c ≡ true)
      → fetches_at duration block ≡ false
      → AllSmall s symbols
      → offchain_worker library duration symbols block s [] ≡ (ok tt, average_calls s block symbols)
  unfolding offchain_worker ◌>>=◌
  offchain_worker-average duration block symbols s accepts idle small = ground (
    arith,
    idle,
    aggregate_all_lem s block (recorded_symbols s symbols) [] accepts
        (recorded-AllReady s symbols small),
    average_calls-recorded s block symbols,
  )

  -- When a price is due and the first source answers with a JSON object that has no member, the worker
  -- panics: it submits no price and aggregates none.
  pub offchain_worker-empty_object :
      (duration block : ℕ) (symbols : List (List ℕ)) (s : Storage) (body : List ℕ) (json : J)
      → fetches_at duration block ≡ true
      → library.is_utf8 dai_url ≡ true
      → library.get dai_url ≡ Reply.answered 200 body
      → library.is_utf8 body ≡ true
      → library.parse_json body ≡ some json
      → library.get_object json ≡ some []
      → offchain_worker library duration symbols block s [] ≡ (panicked, [])
  unfolding offchain_worker fetch_all for_each logged fetch_price_unsigned fetch_json receive
      fetch_price_from fetch_price_from_coincap map_err ◌>>=◌
  offchain_worker-empty_object duration block symbols s body json due url got text parsed empty =
      ground (arith, due, url, got, text, parsed, empty)
