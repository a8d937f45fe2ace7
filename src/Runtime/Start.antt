-- ===== src/Runtime/Start.antt =====
-- The chain from its first block: what holds after any history of a test network.
use akropolis_os_chain_node.Common.{
  ℕ, ◌≡◌, ◌≤◌, Bool, true, List, [], Option, none, some, arith, refl, contains, ◌∙◌,
}
use akropolis_os_chain_node.Types.{Limits}
use akropolis_os_chain_node.Token
use akropolis_os_chain_node.Token.Genesis as TokenGenesis
use akropolis_os_chain_node.PriceOracle
use akropolis_os_chain_node.Marketplace
use akropolis_os_chain_node.Bridge.Genesis as BridgeGenesis
use akropolis_os_chain_node.Bridge.Index.{IsIndexed, IsIndexed-Invariant, create_transfer-IsIndexed}
use akropolis_os_chain_node.Bridge.Counted.{Counted-zero}
use akropolis_os_chain_node.Bridge.Voters.{IsCounted, IsCounted-Rules}
use akropolis_os_chain_node.Bridge.Run as BridgeRun
use akropolis_os_chain_node.Bridge.Run.{IsTrusted, IsTrusted-Invariant, create_transfer-IsTrusted}
use akropolis_os_chain_node.Bridge.Trust.{AreTrusted, AreTrusted-IsKept}
use akropolis_os_chain_node.Bridge.Invariant.Calls.{Rules-of_Invariant}
use akropolis_os_chain_node.Dao.Bounds.{IsBounded-Invariant}
use akropolis_os_chain_node.Dao.Tally.{IsTally, IsTallied-Invariant}
use akropolis_os_chain_node.Dao.Genesis as DaoGenesis
use akropolis_os_chain_node.ChainSpec.{Keys, Authority, testnet_genesis, bridge_validators}
use akropolis_os_chain_node.ChainSpec.Start.{testnet_limits}
use akropolis_os_chain_node.Runtime.{State, Step, view_bridge, view_dao, run}
use akropolis_os_chain_node.Runtime.Composition.{run-Both}

abbrev pub empty_prices : PriceOracle.Storage
empty_prices = record {
  token_price_history = λ _. [];
  aggregated_prices = λ _. (0, 0);
  events = [];
}

abbrev pub empty_market : Marketplace.Storage
empty_market = record { something = none; events = [] }

-- The state that the pallets of the chain start from. The daos have no configuration.
unfoldable pub genesis :
    {C : Type 0}
    → (keys : Keys) → List Authority
    → ℕ
    → Option (List ℕ)
    → Bool
    → C
    → Option (State C)
unfolding testnet_genesis
genesis keys authorities root_key given enable_println currency =
    let g = testnet_genesis keys authorities root_key given enable_println in
    let token = TokenGenesis.genesis g.token in
    elim (BridgeGenesis.genesis g.bridge token) [
      | none ↦ none
      | some bridge ↦ some (record {
        currency = currency;
        token = token;
        bridge = bridge;
        dao = DaoGenesis.genesis DaoGenesis.default_config currency token empty_prices empty_market;
        marketplace = empty_market;
        price_oracle = empty_prices;
      })
    ]

initial-IsCounted :
    (config : BridgeGenesis.Config) (t : Token.Storage) (l : Limits)
    → IsCounted (BridgeGenesis.initial config t l)
initial-IsCounted config t l id = Counted-zero _ _ refl

initial-AreTrusted :
    (config : BridgeGenesis.Config) (t : Token.Storage) (l : Limits)
    → AreTrusted (BridgeGenesis.initial config t l)
initial-AreTrusted config t l id a v = ground (arith, v)

-- The chain of a test network starts, and after any history, whatever was called by whom and in any
-- order, the index of transfers is sound, the votes on each transfer are covered by different
-- accounts on record, all of them validators, and the three validators still are validators; no dao has more than four
-- members, and the votes on each proposal are those of the voters on record.
pub genesis-run :
    {C : Type 0} (keys : Keys) (authorities : List Authority) (root_key : ℕ)
    (given : Option (List ℕ)) (enable_println : Bool) (currency : C) (steps : List (Step C))
    (d n a : ℕ)
    → (start : State C) × (genesis keys authorities root_key given enable_println currency
        ≡ some start)
      × (let s = run steps start in
          IsIndexed (view_bridge s)
          × IsCounted (view_bridge s)
          × AreTrusted (view_bridge s)
          × (contains bridge_validators a ≡ true → IsTrusted a (view_bridge s))
          × ((view_dao s).members_count d ≤ 4)
          × IsTally (view_dao s) d n)
unfolding genesis BridgeGenesis.genesis testnet_genesis BridgeGenesis.build_limits
genesis-run {C = C} keys authorities root_key given enable_println currency steps d n a =
    let g = testnet_genesis keys authorities root_key given enable_println in
    let token = TokenGenesis.genesis g.token in
    let bridge = BridgeGenesis.initial g.bridge token testnet_limits in
    let config = DaoGenesis.default_config in
    let dao = DaoGenesis.genesis config currency token empty_prices empty_market in
    let start : State C = record {
      currency = currency;
      token = token;
      bridge = bridge;
      dao = dao;
      marketplace = empty_market;
      price_oracle = empty_prices;
    } in
    let (indexed, trusted) = BridgeGenesis.initial_sound g.bridge token testnet_limits in
    let bounded = DaoGenesis.genesis-IsBounded config currency token empty_prices empty_market in
    let tallied = DaoGenesis.genesis-IsTally config currency token empty_prices empty_market in
    let index_rules = Rules-of_Invariant IsIndexed-Invariant create_transfer-IsIndexed in
    let trust_rules = Rules-of_Invariant (IsTrusted-Invariant a) (create_transfer-IsTrusted a) in
    let first =
      run-Both index_rules.frame.on_token (BridgeRun.dispatch_kept index_rules) IsTallied-Invariant
        steps start indexed tallied in
    let second =
      run-Both IsCounted-Rules.frame.on_token (BridgeRun.dispatch_kept IsCounted-Rules)
        (IsBounded-Invariant 4 (omega arith)) steps start
        (initial-IsCounted g.bridge token testnet_limits) bounded in
    let third =
      run-Both (λ t x h. h) AreTrusted-IsKept IsTallied-Invariant steps start
        (initial-AreTrusted g.bridge token testnet_limits) tallied in
    (
      start,
      refl,
      (
        first.0,
        second.0,
        third.0,
        λ h.
            (run-Both trust_rules.frame.on_token (BridgeRun.dispatch_kept trust_rules)
              IsTallied-Invariant steps start (trusted a ∙ h) tallied).0,
        second.1.1 d,
        first.1 d n,
      ),
    )
