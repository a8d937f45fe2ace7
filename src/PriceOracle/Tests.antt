-- ===== src/PriceOracle/Tests.antt =====
-- The theorems on the price oracle at concrete prices.
use akropolis_os_chain_node.Common.{
  ℕ, ◌/◌, ◌≤◌, ◌≡◌, List, [], ◌∷◌, ◌*◌, ◌==◌, map, none, some, true, if◌then◌else◌, refl, arith,
  length,
}
use akropolis_os_chain_node.Common.Action.{ok, panicked}
use akropolis_os_chain_node.PriceOracle.{Storage, Call, aggregate_price_points, fetches_at}
use akropolis_os_chain_node.PriceOracle.Fetch.{Library, Reply, recorded_symbols, offchain_worker}
use akropolis_os_chain_node.PriceOracle.Worker.{
  average_call, average_calls, offchain_worker-average, offchain_worker-empty_object,
}
use akropolis_os_chain_node.PriceOracle.Aggregation.{total, aggregate_price_points_lem}

abbrev dai : List ℕ
dai = 68 ∷ 65 ∷ 73 ∷ []

abbrev prices : List ℕ
prices = 99 ∷ 101 ∷ 104 ∷ []

abbrev recorded : Storage
recorded = record {
  token_price_history = λ _. prices;
  aggregated_prices = λ _. (0, 0);
  events = [];
}

aggregate_price_points_lem_example :
    (aggregate_price_points 8 dai recorded
      ≡ (ok (Call.record_aggregated_price_points 8 dai (total prices / length prices)), recorded))
    × (99 ≤ total prices / length prices)
    × (total prices / length prices ≤ 104)
aggregate_price_points_lem_example =
    aggregate_price_points_lem 8 99 104 dai recorded (omega arith) (omega arith) (omega arith)
      (omega arith, omega arith, (omega arith, omega arith, (omega arith, omega arith, tt)))

-- A JSON value is 0, the empty object, or a number. Every address answers with the empty object.
abbrev library : Library ℕ ℕ
library = record {
  is_utf8 = λ _. true;
  get = λ _. Reply.answered 200 (123 ∷ 125 ∷ []);
  parse_json = λ _. some 0;
  get_object = λ json. if json == 0 then some [] else none;
  get_number_f64 = λ json. if json == 0 then none else some json;
  get_bytes = λ _. none;
  parse_f64 = λ _. none;
  round_scaled = λ v. v * 1_000_000_000;
  accepts = λ _. true;
  logs_errors = true;
}

offchain_worker-average_example :
    offchain_worker library 5 (dai ∷ []) 8 recorded []
    ≡ (ok tt, average_calls recorded 8 (dai ∷ []))
unfolding fetches_at
offchain_worker-average_example =
    offchain_worker-average library 5 8 (dai ∷ []) recorded (λ c. refl) refl
      (omega arith, omega arith, tt)

-- What is submitted is the average of 99, 101 and 104.
submitted_average :
    map (average_call recorded 8) (recorded_symbols recorded (dai ∷ []))
    ≡ Call.record_aggregated_price_points 8 dai 101 ∷ []
submitted_average = refl

offchain_worker-empty_object_example :
    offchain_worker library 5 (dai ∷ []) 10 recorded [] ≡ (panicked, [])
unfolding fetches_at
offchain_worker-empty_object_example =
    offchain_worker-empty_object library 5 10 (dai ∷ []) recorded (123 ∷ 125 ∷ []) 0 refl refl refl
      refl refl refl
