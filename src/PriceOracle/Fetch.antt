-- ===== src/PriceOracle/Fetch.antt =====
-- The offchain worker of the price oracle, which fetches prices and submits unsigned calls
-- (runtime/src/price_oracle.rs). The HTTP client, the JSON library, floats and the pool of
-- transactions are parameters.
use akropolis_os_chain_node.Common.{
  ℕ, ◌*◌, ◌%◌, ◌^◌, List, [], ◌∷◌, ◌++◌, map, Option, none, some, Bool, not, ltb, ◌&&◌, ◌==◌,
  if◌then◌else◌, length, all, bytes_eq,
}
use akropolis_os_chain_node.Common.Words.{u128_mod}
use akropolis_os_chain_node.Common.Action.{
  Action, ok, err, panicked, pure, fail, ensure, or_fail, or_panic, map_err, returned, ◌>>=◌, ◌>>◌,
  for_each,
}
use akropolis_os_chain_node.Errors.{
  Error, url_not_utf8, http_send_error, http_wait_error, http_status_error, body_not_utf8,
  json_parse_error, coingecko_error, coincap_error, cryptocompare_error, unknown_source,
  json_not_conforming, value_not_utf8, value_not_number, fetch_submit_error, submit_failed,
}
use akropolis_os_chain_node.PriceOracle.{Storage, Call, aggregate_price_points, fetches_at}

-- https://api.coincap.io/v2/assets/dai
abbrev pub dai_url : List ℕ
dai_url =
    104 ∷ 116 ∷ 116 ∷ 112 ∷ 115 ∷ 58 ∷ 47 ∷ 47 ∷ 97 ∷ 112 ∷ 105 ∷ 46 ∷ 99 ∷ 111 ∷ 105 ∷ 110 ∷ 99
    ∷ 97 ∷ 112 ∷ 46 ∷ 105 ∷ 111 ∷ 47 ∷ 118 ∷ 50 ∷ 47 ∷ 97 ∷ 115 ∷ 115 ∷ 101 ∷ 116 ∷ 115 ∷ 47 ∷ 100
    ∷ 97 ∷ 105 ∷ []

-- https://min-api.cryptocompare.com/data/price?fsym=USDT&tsyms=USD
abbrev pub usdt_url : List ℕ
usdt_url =
    104 ∷ 116 ∷ 116 ∷ 112 ∷ 115 ∷ 58 ∷ 47 ∷ 47 ∷ 109 ∷ 105 ∷ 110 ∷ 45 ∷ 97 ∷ 112 ∷ 105 ∷ 46 ∷ 99
    ∷ 114 ∷ 121 ∷ 112 ∷ 116 ∷ 111 ∷ 99 ∷ 111 ∷ 109 ∷ 112 ∷ 97 ∷ 114 ∷ 101 ∷ 46 ∷ 99 ∷ 111 ∷ 109 ∷ 47
    ∷ 100 ∷ 97 ∷ 116 ∷ 97 ∷ 47 ∷ 112 ∷ 114 ∷ 105 ∷ 99 ∷ 101 ∷ 63 ∷ 102 ∷ 115 ∷ 121 ∷ 109 ∷ 61 ∷ 85
    ∷ 83 ∷ 68 ∷ 84 ∷ 38 ∷ 116 ∷ 115 ∷ 121 ∷ 109 ∷ 115 ∷ 61 ∷ 85 ∷ 83 ∷ 68 ∷ []

-- https://min-api.cryptocompare.com/data/price?fsym=USDC&tsyms=USD
abbrev pub usdc_url : List ℕ
usdc_url =
    104 ∷ 116 ∷ 116 ∷ 112 ∷ 115 ∷ 58 ∷ 47 ∷ 47 ∷ 109 ∷ 105 ∷ 110 ∷ 45 ∷ 97 ∷ 112 ∷ 105 ∷ 46 ∷ 99
    ∷ 114 ∷ 121 ∷ 112 ∷ 116 ∷ 111 ∷ 99 ∷ 111 ∷ 109 ∷ 112 ∷ 97 ∷ 114 ∷ 101 ∷ 46 ∷ 99 ∷ 111 ∷ 109 ∷ 47
    ∷ 100 ∷ 97 ∷ 116 ∷ 97 ∷ 47 ∷ 112 ∷ 114 ∷ 105 ∷ 99 ∷ 101 ∷ 63 ∷ 102 ∷ 115 ∷ 121 ∷ 109 ∷ 61 ∷ 85
    ∷ 83 ∷ 68 ∷ 67 ∷ 38 ∷ 116 ∷ 115 ∷ 121 ∷ 109 ∷ 115 ∷ 61 ∷ 85 ∷ 83 ∷ 68 ∷ []

-- https://api.coingecko.com/api/v3/simple/price?ids=cDAI&vs_currencies=USD
abbrev pub cdai_url : List ℕ
cdai_url =
    104 ∷ 116 ∷ 116 ∷ 112 ∷ 115 ∷ 58 ∷ 47 ∷ 47 ∷ 97 ∷ 112 ∷ 105 ∷ 46 ∷ 99 ∷ 111 ∷ 105 ∷ 110 ∷ 103
    ∷ 101 ∷ 99 ∷ 107 ∷ 111 ∷ 46 ∷ 99 ∷ 111 ∷ 109 ∷ 47 ∷ 97 ∷ 112 ∷ 105 ∷ 47 ∷ 118 ∷ 51 ∷ 47 ∷ 115
    ∷ 105 ∷ 109 ∷ 112 ∷ 108 ∷ 101 ∷ 47 ∷ 112 ∷ 114 ∷ 105 ∷ 99 ∷ 101 ∷ 63 ∷ 105 ∷ 100 ∷ 115 ∷ 61 ∷ 99
    ∷ 68 ∷ 65 ∷ 73 ∷ 38 ∷ 118 ∷ 115 ∷ 95 ∷ 99 ∷ 117 ∷ 114 ∷ 114 ∷ 101 ∷ 110 ∷ 99 ∷ 105 ∷ 101 ∷ 115
    ∷ 61 ∷ 85 ∷ 83 ∷ 68 ∷ []

abbrev pub coincap : List ℕ
coincap = 99 ∷ 111 ∷ 105 ∷ 110 ∷ 99 ∷ 97 ∷ 112 ∷ []

abbrev pub cryptocompare : List ℕ
cryptocompare = 99 ∷ 114 ∷ 121 ∷ 112 ∷ 116 ∷ 111 ∷ 99 ∷ 111 ∷ 109 ∷ 112 ∷ 97 ∷ 114 ∷ 101 ∷ []

abbrev pub coingecko : List ℕ
coingecko = 99 ∷ 111 ∷ 105 ∷ 110 ∷ 103 ∷ 101 ∷ 99 ∷ 107 ∷ 111 ∷ []

-- "priceUsd"
abbrev pub price_key : List ℕ
price_key = 112 ∷ 114 ∷ 105 ∷ 99 ∷ 101 ∷ 85 ∷ 115 ∷ 100 ∷ []

-- A symbol, where its price comes from, and the address.
abbrev pub fetched_cryptos : List (List ℕ × List ℕ × List ℕ)
fetched_cryptos =
    (68 ∷ 65 ∷ 73 ∷ [], coincap, dai_url)
    ∷ (85 ∷ 83 ∷ 68 ∷ 84 ∷ [], cryptocompare, usdt_url)
    ∷ (85 ∷ 83 ∷ 68 ∷ 67 ∷ [], cryptocompare, usdc_url)
    ∷ (99 ∷ 68 ∷ 65 ∷ 73 ∷ [], coingecko, cdai_url)
    ∷ []

-- What comes of an HTTP request: it cannot be sent, there is no answer, or one with a code and a
-- body.
pub data Reply : Type 0 where
  not_sent : Reply
  not_answered : Reply
  answered : ℕ → List ℕ → Reply

-- What the worker calls, over a type of JSON values and one of floats. An accessor of JSON that
-- panics gives `none`; `round_scaled v` is `(v * 1000000000.0).round() as u128`; errors are
-- formatted only where the log takes them.
pub record Library (J F : Type 0) : Type 0 where
  pub is_utf8 : List ℕ → Bool
  pub get : List ℕ → Reply
  pub parse_json : List ℕ → Option J
  pub get_object : J → Option (List (List ℕ × J))
  pub get_number_f64 : J → Option F
  pub get_bytes : J → Option (List ℕ)
  pub parse_f64 : List ℕ → Option F
  pub round_scaled : F → ℕ
  pub accepts : Call → Bool
  pub logs_errors : Bool

-- The calls that the worker submitted.
abbrev pub Pool : Type 0
Pool = List Call

-- `[0]` of a vector
abbrev pub at_zero : {A : Type 0} → List A → Option A
at_zero [] = none
at_zero (x ∷ _) = some x

-- `as u8` of each character
abbrev pub vecchars_to_vecbytes : List ℕ → List ℕ
vecchars_to_vecbytes it = map (λ c. c % 2 ^ 8) it

-- `filter(..).nth(0)`
abbrev pub find_price : {J : Type 0} → List (List ℕ × J) → Option J
find_price [] = none
find_price ((k, v) ∷ data_rest) =
    if bytes_eq price_key (vecchars_to_vecbytes k) then some v else find_price data_rest

-- `iter().filter(..)` over the symbols of the history
abbrev pub recorded_symbols : Storage → List (List ℕ) → List (List ℕ)
recorded_symbols s [] = []
recorded_symbols s (symbol ∷ symbols) =
    let rest = recorded_symbols s symbols in
    if ltb 0 (length (s.token_price_history symbol)) then symbol ∷ rest else rest

module _ {J F : Type 0} (library : Library J F) where
  unfoldable pub receive : Reply → Action Pool (List ℕ)
  unfolding pure fail
  receive Reply.not_sent = fail http_send_error
  receive Reply.not_answered = fail http_wait_error
  receive (Reply.answered code body) = if code == 200 then pure body else fail http_status_error

  unfoldable pub fetch_json : List ℕ → Action Pool J
  unfolding ◌>>=◌ receive
  fetch_json remote_url = do
    ensure (library.is_utf8 remote_url) url_not_utf8
    body ← receive (library.get remote_url)
    ensure (library.is_utf8 body) body_not_utf8
    or_fail (library.parse_json body) json_parse_error

  abbrev pub round_value : F → ℕ
  round_value v = library.round_scaled v * 1_000_000_000 % u128_mod

  unfoldable pub fetch_price_from_cryptocompare : J → Action Pool ℕ
  unfolding ◌>>=◌
  fetch_price_from_cryptocompare json_val = do
    object ← or_panic (library.get_object json_val)
    member ← or_panic (at_zero object)
    val_f64 ← or_panic (library.get_number_f64 member.1)
    pure (round_value val_f64)

  unfoldable pub fetch_price_from_coingecko : J → Action Pool ℕ
  unfolding ◌>>=◌
  fetch_price_from_coingecko json_val = do
    object ← or_panic (library.get_object json_val)
    member ← or_panic (at_zero object)
    inner ← or_panic (library.get_object member.1)
    price ← or_panic (at_zero inner)
    val_f64 ← or_panic (library.get_number_f64 price.1)
    pure (round_value val_f64)

  unfoldable pub fetch_price_from_coincap : J → Action Pool ℕ
  unfolding ◌>>=◌
  fetch_price_from_coincap json_val = do
    object ← or_panic (library.get_object json_val)
    member ← or_panic (at_zero object)
    fields ← or_panic (library.get_object member.1)
    v ← or_fail (find_price fields) json_not_conforming
    val_u8 ← or_panic (library.get_bytes v)
    ensure (library.is_utf8 val_u8) value_not_utf8
    val_f64 ← or_fail (library.parse_f64 val_u8) value_not_number
    pure (round_value val_f64)

  unfoldable pub fetch_price_from : List ℕ → J → Action Pool ℕ
  unfolding fail map_err
  fetch_price_from remote_src json =
      if bytes_eq remote_src coingecko
      then map_err coingecko_error (fetch_price_from_coingecko json)
      else if bytes_eq remote_src coincap
      then map_err coincap_error (fetch_price_from_coincap json)
      else if bytes_eq remote_src cryptocompare
      then map_err cryptocompare_error (fetch_price_from_cryptocompare json)
      else fail unknown_source

  -- `T::SubmitUnsignedTransaction::submit_unsigned(call)`, with the error it is mapped to
  unfoldable pub submit_unsigned : Call → Error → Action Pool Unit
  submit_unsigned call e pool =
      if library.accepts call then (ok tt, pool ++ call ∷ []) else (err e, pool)

  unfoldable pub fetch_price_unsigned : ℕ → List ℕ → List ℕ → List ℕ → Action Pool Unit
  unfolding ◌>>=◌ submit_unsigned
  fetch_price_unsigned block symbol remote_src remote_url = do
    json ← fetch_json remote_url
    price ← fetch_price_from remote_src json
    submit_unsigned (Call.record_price block symbol remote_src remote_url price) fetch_submit_error

  unfoldable pub aggregate_price_points_unsigned : Storage → ℕ → List ℕ → Action Pool Unit
  unfolding ◌>>=◌ returned submit_unsigned
  aggregate_price_points_unsigned s block symbol = do
    call ← returned (aggregate_price_points block symbol s).0
    submit_unsigned call submit_failed

  -- `if let Err(e) = res`: the error is logged with the names, of which a log makes strings.
  unfoldable pub logged : List (List ℕ) → Action Pool Unit → Action Pool Unit
  logged names res pool =
      let (r, t) = res pool in
      elim r [
        | ok _ ↦ (ok tt, t)
        | err _ ↦
            if library.logs_errors && not (all library.is_utf8 names)
            then (panicked, t)
            else (ok tt, t)
        | panicked ↦ (panicked, t)
      ]

  unfoldable pub fetch_all : ℕ → Action Pool Unit
  fetch_all block = for_each fetched_cryptos λ crypto.
      logged (crypto.0 ∷ crypto.1 ∷ []) (fetch_price_unsigned block crypto.0 crypto.1 crypto.2)

  unfoldable pub aggregate_all : Storage → ℕ → List (List ℕ) → Action Pool Unit
  aggregate_all s block symbols =
      for_each symbols
        λ symbol. logged (symbol ∷ []) (aggregate_price_points_unsigned s block symbol)

  -- `symbols` are the keys of the history in the order in which it is iterated.
  unfoldable pub offchain_worker : ℕ → List (List ℕ) → ℕ → Storage → Action Pool Unit
  unfolding ◌>>=◌
  offchain_worker duration symbols block s = do
    if fetches_at duration block then fetch_all block else pure tt
    aggregate_all s block (recorded_symbols s symbols)
