-- ===== src/Token/Genesis.antt =====
-- The first state of the token pallet: the `build` functions of its storage and the configured
-- tokens (runtime/src/token.rs).
use akropolis_os_chain_node.Common.{
  ℕ, ◌+◌, ◌%◌, ◌<◌, ◌≡◌, Bool, true, false, ◌==◌, ◌||◌, List, [], ◌∷◌, ◌++◌, Option, none, some,
  arith, refl, length, bytes_eq,
}
use akropolis_os_chain_node.Common.Words.{u32_mod}
use akropolis_os_chain_node.Common.Maps.{update, update_bytes}
use akropolis_os_chain_node.Types.{Token, default_token}
use akropolis_os_chain_node.Token.{Storage}

-- `build` of TokenMap, TokenIds and TokenSymbol: what is inserted last is found. The last one counts
-- the position `i`.
abbrev pub build_token_map : List Token → (ℕ → Token) → ℕ → Token
build_token_map [] m = m
build_token_map (t ∷ tokens) m = build_token_map tokens (update m t.id t)

abbrev pub build_token_ids : List Token → (List ℕ → Option ℕ) → List ℕ → Option ℕ
build_token_ids [] m = m
build_token_ids (t ∷ tokens) m = build_token_ids tokens (update_bytes m t.symbol (some t.id))

abbrev pub build_token_symbol : ℕ → List Token → (ℕ → List ℕ) → ℕ → List ℕ
build_token_symbol i [] m = m
build_token_symbol i (t ∷ tokens) m = build_token_symbol (i + 1) tokens (update m i t.symbol)

-- The state that `GenesisConfig { tokens }` builds.
unfoldable pub genesis : List Token → Storage
genesis tokens = record {
  count = length tokens % u32_mod;
  locked = λ _ _. 0;
  tokens = tokens;
  token_map = build_token_map tokens (λ _. default_token);
  token_ids = build_token_ids tokens (λ _. none);
  token_symbol = build_token_symbol 0 tokens (λ _. []);
  total_supply = λ _. 0;
  balance = λ _ _. 0;
  allowance = λ _ _ _. 0;
  events = [];
}

-- Some token has the id, or the symbol.
abbrev pub has_id : List Token → ℕ → Bool
has_id [] id = false
has_id (t ∷ tokens) id = t.id == id || has_id tokens id

abbrev pub has_symbol : List Token → List ℕ → Bool
has_symbol [] symbol = false
has_symbol (t ∷ tokens) symbol = bytes_eq t.symbol symbol || has_symbol tokens symbol

bytes_eq_refl : (xs : List ℕ) → bytes_eq xs xs ≡ true
bytes_eq_refl [] = refl
bytes_eq_refl (x ∷ xs) = ground (arith, bytes_eq_refl xs)

build_token_map-other :
    (tokens : List Token) (m : ℕ → Token) (id : ℕ)
    → has_id tokens id ≡ false
    → build_token_map tokens m id ≡ m id
build_token_map-other [] m id h = refl
build_token_map-other (t ∷ tokens) m id h =
    ground (arith, build_token_map-other tokens (update m t.id t) id)

build_token_ids-other :
    (tokens : List Token) (m : List ℕ → Option ℕ) (symbol : List ℕ)
    → has_symbol tokens symbol ≡ false
    → build_token_ids tokens m symbol ≡ m symbol
build_token_ids-other [] m symbol h = refl
build_token_ids-other (t ∷ tokens) m symbol h =
    ground (arith, build_token_ids-other tokens (update_bytes m t.symbol (some t.id)) symbol)

build_token_map-found :
    (before after : List Token) (t : Token) (m : ℕ → Token)
    → has_id after t.id ≡ false
    → build_token_map (before ++ t ∷ after) m t.id ≡ t
build_token_map-found [] after t m h =
    ground (arith, build_token_map-other after (update m t.id t) t.id h)
build_token_map-found (x ∷ before) after t m h =
    build_token_map-found before after t (update m x.id x) h

build_token_ids-found :
    (before after : List Token) (t : Token) (m : List ℕ → Option ℕ)
    → has_symbol after t.symbol ≡ false
    → build_token_ids (before ++ t ∷ after) m t.symbol ≡ some t.id
build_token_ids-found [] after t m h = ground (
  arith,
  bytes_eq_refl t.symbol,
  build_token_ids-other after (update_bytes m t.symbol (some t.id)) t.symbol h,
)
build_token_ids-found (x ∷ before) after t m h =
    build_token_ids-found before after t (update_bytes m x.symbol (some x.id)) h

build_token_symbol-other :
    (i : ℕ) (tokens : List Token) (m : ℕ → List ℕ) (k : ℕ)
    → k < i
    → build_token_symbol i tokens m k ≡ m k
build_token_symbol-other i [] m k h = refl
build_token_symbol-other i (t ∷ tokens) m k h =
    ground (arith, build_token_symbol-other (i + 1) tokens (update m i t.symbol) k)

build_token_symbol-found :
    (i j : ℕ) (before after : List Token) (t : Token) (m : ℕ → List ℕ)
    → i + length before ≡ j
    → build_token_symbol i (before ++ t ∷ after) m j ≡ t.symbol
build_token_symbol-found i j [] after t m e =
    let same : i ≡ j = omega arith in
    ground (arith, build_token_symbol-other (i + 1) after (update m i t.symbol) j)
build_token_symbol-found i j (x ∷ before) after t m e =
    build_token_symbol-found (i + 1) j before after t (update m i x.symbol) (omega arith)

-- Each configured token after which neither its id nor its symbol comes again is found by its id, and
-- its id by its symbol; its symbol stands at its position. Nobody holds a token, nothing is
-- locked and nothing is supplied.
pub genesis_tokens :
    (before after : List Token) (t : Token)
    → has_id after t.id ≡ false
    → has_symbol after t.symbol ≡ false
    → let s = genesis (before ++ t ∷ after) in
      (s.token_map t.id ≡ t)
      × (s.token_ids t.symbol ≡ some t.id)
      × (s.token_symbol (length before) ≡ t.symbol)
      × ((i a : ℕ) → (s.balance i a ≡ 0) × (s.locked i a ≡ 0) × (s.total_supply i ≡ 0))
unfolding genesis
genesis_tokens before after t h k = (
  build_token_map-found before after t _ h,
  build_token_ids-found before after t _ k,
  build_token_symbol-found 0 (length before) before after t _ (omega arith),
  λ i a. (refl, refl, refl),
)
