-- ===== src/PriceOracle.antt =====
-- The price oracle pallet, runtime/src/price_oracle.rs: recorded prices, aggregated prices, the
-- aggregation that the offchain worker submits, and the check of unsigned calls. Fetch has the
-- worker itself.
pub mod Aggregation
pub mod Fetch
pub mod Worker
mod Tests
use mathlib.Core.List.{foldl}
use akropolis_os_chain_node.Common.{
  ℕ, ◌-◌, ◌%◌, List, [], ◌∷◌, ◌++◌, Option, none, some, Bool, ltb, ◌&&◌, ◌==◌, if◌then◌else◌,
  length, drop, bytes_eq,
}
use akropolis_os_chain_node.Common.Words.{u32_mod, u128_mod, wrapping_add, checked_div}
use akropolis_os_chain_node.Common.Maps.{update_bytes}
use akropolis_os_chain_node.Common.Action.{
  Action, pure, gets, ensure, modify, or_panic, ◌>>=◌, ◌>>◌, for_each,
}
use akropolis_os_chain_node.Origin.{Origin, ensure_none}

abbrev pub tokens_to_keep : ℕ
tokens_to_keep = 10

pub data Event : Type 0 where
  fetched_price : List ℕ → List ℕ → ℕ → ℕ → Event
  aggregated_price : List ℕ → ℕ → ℕ → Event

-- `PriceOracle` of `decl_storage!`, maps from symbols, and the events of the pallet.
pub record Storage : Type 0 where
  pub token_price_history : List ℕ → List ℕ
  pub aggregated_prices : List ℕ → ℕ × ℕ
  pub events : List Event

-- The calls of the pallet, with their arguments; the constructors leave out `_unsigned`.
pub data Call : Type 0 where
  record_price : ℕ → List ℕ → List ℕ → List ℕ → ℕ → Call
  record_aggregated_price_points : ℕ → List ℕ → ℕ → Call
  other : Call

unfoldable pub set_history : List ℕ → List ℕ → Action Storage Unit
set_history symbol prices =
    modify λ s. record s { token_price_history = update_bytes s.token_price_history symbol prices }

unfoldable pub set_aggregated : List ℕ → ℕ × ℕ → Action Storage Unit
set_aggregated symbol point =
    modify λ s. record s { aggregated_prices = update_bytes s.aggregated_prices symbol point }

unfoldable pub deposit_event : Event → Action Storage Unit
deposit_event e = modify λ s. record s { events = s.events ++ e ∷ [] }

-- `now` is the time of the timestamp pallet. The block number and the address are not used.
unfoldable pub record_price_unsigned :
    ℕ → Origin → ℕ → List ℕ × List ℕ × List ℕ → ℕ → Action Storage Unit
unfolding ◌>>=◌ ensure_none set_history deposit_event
record_price_unsigned now origin block_number (symbol, remote_src, remote_url) price = do
  ensure_none origin
  prices ← gets (λ s. s.token_price_history symbol)
  set_history symbol (prices ++ price ∷ [])
  deposit_event (Event.fetched_price symbol remote_src now price)

-- The last ten prices, as the `drain` in `record_aggregated_price_points_unsigned` keeps them.
unfoldable pub keep_last : List ℕ → List ℕ
keep_last prices =
    if ltb (length prices) tokens_to_keep
    then prices
    else drop (length prices - tokens_to_keep) prices

unfoldable pub record_aggregated_price_points_unsigned :
    ℕ → Origin → ℕ → List ℕ → ℕ → Action Storage Unit
unfolding ◌>>=◌ ensure_none set_aggregated keep_last set_history deposit_event
record_aggregated_price_points_unsigned now origin block symbol price = do
  ensure_none origin
  set_aggregated symbol (now, price)
  old ← gets (λ s. s.token_price_history symbol)
  set_history symbol (keep_last old)
  deposit_event (Event.aggregated_price symbol now price)

-- `fold(zero, |mem, price| mem + *price)`
unfoldable pub price_sum : List ℕ → ℕ
price_sum prices = foldl (λ mem price. wrapping_add u128_mod mem price) 0 prices

-- The call that `aggregate_price_points_unsigned` submits. By no price it would divide by zero.
unfoldable pub aggregate_price_points : ℕ → List ℕ → Action Storage Call
unfolding ◌>>=◌ price_sum
aggregate_price_points block symbol = do
  prices ← gets (λ s. s.token_price_history symbol)
  price_avg ← or_panic (checked_div (price_sum prices) (length prices % u32_mod))
  pure (Call.record_aggregated_price_points block symbol price_avg)

-- Type I tasks of `offchain_worker` run in blocks that the period divides; a period of 0 turns
-- them off.
unfoldable pub fetches_at : ℕ → ℕ → Bool
fetches_at duration block = ltb 0 duration && block % duration == 0

-- The fields of `ValidTransaction` that `validate_unsigned` fills, `provides` before its encoding.
pub record ValidTransaction : Type 0 where
  pub priority : ℕ
  pub provides : ℕ × List ℕ × ℕ
  pub longevity : ℕ
  pub propagate : Bool

-- `none` is `InvalidTransaction::Call`.
unfoldable pub validate_unsigned : Call → Option ValidTransaction
validate_unsigned (Call.record_price block symbol remote_src remote_url price) = some (record {
  priority = 1;
  provides = (block, symbol, price);
  longevity = 5;
  propagate = Bool.true;
})
validate_unsigned (Call.record_aggregated_price_points block symbol price) = some (record {
  priority = 1;
  provides = (block, symbol, price);
  longevity = 5;
  propagate = Bool.true;
})
validate_unsigned Call.other = none
