-- ===== src/Runtime.antt =====
-- The runtime that `construct_runtime!` puts together (runtime/src/lib.rs): the five pallets of the
-- chain over one state, and what the pallets of the framework do to the balances.
pub mod Composition
pub mod Start
pub mod Unguarded
pub mod Overdraft
pub mod Signing
mod Tests
mod Histories
use akropolis_os_chain_node.Common.{ℕ, List, [], ◌∷◌, Option, none}
use akropolis_os_chain_node.Common.Action.{Action, Outcome, ok, err, panicked, or_panic, zoom}
use akropolis_os_chain_node.Origin.{Origin}
use akropolis_os_chain_node.Token
use akropolis_os_chain_node.Token.Refinement as TokenCalls
use akropolis_os_chain_node.Bridge.State as BridgeState
use akropolis_os_chain_node.Bridge.Run as BridgeRun
use akropolis_os_chain_node.PriceOracle
use akropolis_os_chain_node.Marketplace
use akropolis_os_chain_node.Dao.State as DaoState
use akropolis_os_chain_node.Dao.Run as DaoRun

-- What a call can ask of the framework: the lookup of accounts, the hashes and the time that the
-- bridge sees, and the balances pallet that the daos see.
pub record Context (C : Type 0) : Type 0 where
  pub lookup : ℕ → Option ℕ
  pub env : BridgeState.Env
  pub balances : DaoState.Runtime C

-- The storages of the pallets. The pallets that a storage holds too are read from here, by the views
-- below.
pub record State (C : Type 0) : Type 0 where
  pub currency : C
  pub token : Token.Storage
  pub bridge : BridgeState.Storage
  pub dao : DaoState.Storage C
  pub marketplace : Marketplace.Storage
  pub price_oracle : PriceOracle.Storage

-- `Call` of the runtime, as far as the pallets of the chain go, with the hooks at the end of a block.
pub data Call (C : Type 0) : Type 0 where
  token : TokenCalls.Call → Call C
  bridge : BridgeRun.Call → Call C
  dao : DaoRun.Call C → Call C
  marketplace : ℕ → Call C
  price_oracle : PriceOracle.Call → Call C

-- `other` is no call of the pallet, and none of it arrives here.
unfoldable pub dispatch_price : ℕ → Origin → PriceOracle.Call → Action PriceOracle.Storage Unit
dispatch_price now o (PriceOracle.Call.record_price block symbol remote_src remote_url price) =
    PriceOracle.record_price_unsigned now o block (symbol, remote_src, remote_url) price
dispatch_price now o (PriceOracle.Call.record_aggregated_price_points block symbol price) =
    PriceOracle.record_aggregated_price_points_unsigned now o block symbol price
dispatch_price now o PriceOracle.Call.other = or_panic none

module _ {C : Type 0} where
  abbrev pub view_bridge : State C → BridgeState.Storage
  view_bridge s = record s.bridge { token = s.token }

  abbrev pub put_bridge : BridgeState.Storage → State C → State C
  put_bridge t s = record s { bridge = t; token = t.token }

  abbrev pub view_dao : State C → DaoState.Storage C
  view_dao s = record s.dao {
    currency = s.currency;
    token = s.token;
    prices = s.price_oracle;
    marketplace = s.marketplace;
  }

  abbrev pub put_dao : DaoState.Storage C → State C → State C
  put_dao t s = record s {
    dao = t;
    currency = t.currency;
    token = t.token;
    price_oracle = t.prices;
    marketplace = t.marketplace;
  }

  unfoldable pub dispatch : Context C → Origin → Call C → Action (State C) Unit
  unfolding zoom
  dispatch x o (Call.token c) =
      zoom (λ s. s.token) (λ t s. record s { token = t }) (TokenCalls.dispatch x.lookup o c)
  dispatch x o (Call.bridge c) = zoom view_bridge put_bridge (BridgeRun.dispatch x.env o c)
  dispatch x o (Call.dao c) = zoom view_dao put_dao (DaoRun.dispatch x.balances o c)
  dispatch x o (Call.marketplace proposal_id) =
      zoom (λ s. s.marketplace) (λ t s. record s { marketplace = t })
        (Marketplace.make_investment o proposal_id)
  dispatch x o (Call.price_oracle c) =
      zoom (λ s. s.price_oracle) (λ t s. record s { price_oracle = t })
        (dispatch_price x.env.now o c)

-- A call, or a change of the balances by another pallet of the framework.
pub data Step (C : Type 0) : Type 0 where
  call : Context C → Origin → Call C → Step C
  outside : C → Step C

module _ {C : Type 0} where
  -- What panics leaves the state as it was.
  abbrev pub after : State C → Outcome (Unit {0}) × State C → State C
  after s (panicked, _) = s
  after _ (_, t) = t

  abbrev pub step : Step C → State C → State C
  step (Step.call x o c) s = after s (dispatch x o c s)
  step (outside c) s = record s { currency = c }

  unfoldable pub run : List (Step C) → State C → State C
  run [] s = s
  run (x ∷ rest) s = run rest (step x s)
