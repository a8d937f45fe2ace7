-- ===== src/Dao/Genesis.antt =====
-- The first state of the dao pallet, by the configuration of its storage (runtime/src/dao.rs).
use akropolis_os_chain_node.Common.{ℕ, ◌≤◌, List, [], none, arith, refl}
use akropolis_os_chain_node.Token
use akropolis_os_chain_node.PriceOracle
use akropolis_os_chain_node.Marketplace
use akropolis_os_chain_node.Dao.State.{Storage}
use akropolis_os_chain_node.Dao.Run.{Step, run}
use akropolis_os_chain_node.Dao.Bounds.{IsBounded, run-IsBounded}
use akropolis_os_chain_node.Dao.Tally.{IsTally, run-IsTally}

-- `DaoConfig`
pub record Config : Type 0 where
  pub minimum_number_of_members : ℕ
  pub maximum_number_of_members : ℕ
  pub open_proposals_per_block : ℕ

-- The values that hold where nothing is configured.
abbrev pub default_config : Config
default_config = record {
  minimum_number_of_members = 1;
  maximum_number_of_members = 4;
  open_proposals_per_block = 2;
}

module _ {C : Type 0} where
  -- The state that the configuration builds beside those of the other pallets.
  unfoldable pub genesis :
      Config → C → Token.Storage → PriceOracle.Storage → Marketplace.Storage → Storage C
  genesis config currency token prices marketplace = record {
    currency = currency;
    token = token;
    prices = prices;
    marketplace = marketplace;
    daos = λ _. none;
    daos_count = 0;
    dao_names = λ _. none;
    dao_addresses = λ _. none;
    dao_timeouts = λ _. 0;
    dao_maximum_number_of_members = λ _. 0;
    address = λ _. 0;
    minimum_number_of_members = config.minimum_number_of_members;
    maximum_number_of_members = config.maximum_number_of_members;
    members = λ _ _. 0;
    members_count = λ _. 0;
    dao_members = λ _ _. none;
    dao_proposals = λ _ _. none;
    dao_proposals_count = λ _. 0;
    dao_proposals_index = λ _. 0;
    dao_proposals_votes = λ _ _ _. 0;
    dao_proposals_votes_count = λ _ _. 0;
    dao_proposals_votes_index = λ _ _ _. none;
    open_proposals_per_block = config.open_proposals_per_block;
    open_dao_proposals = λ _. [];
    open_dao_proposals_hashes = λ _. none;
    open_dao_proposals_hashes_index = λ _. 0;
    events = [];
  }

  pub genesis-IsBounded :
      (config : Config) (c : C) (t : Token.Storage) (p : PriceOracle.Storage)
      (m : Marketplace.Storage)
      → IsBounded config.maximum_number_of_members (genesis config c t p m)
  unfolding genesis
  genesis-IsBounded config c t p m = (
    refl,
    λ d. omega arith,
    λ d. omega arith,
    λ d dao e. absurd (ground arith),
    λ d n q e. absurd (ground arith),
  )

  pub genesis-IsTally :
      (config : Config) (c : C) (t : Token.Storage) (p : PriceOracle.Storage)
      (m : Marketplace.Storage) (d n : ℕ)
      → IsTally (genesis config c t p m) d n
  unfolding genesis
  genesis-IsTally config c t p m d n = (
    refl,
    λ i h. absurd (omega arith),
    λ voter i e. absurd (ground arith),
    λ h. refl,
    λ q h e. absurd (ground arith),
  )

  -- After any history from a configured state that allows at least one member, no dao has more
  -- members than configured, and the votes on each proposal are those of the voters on record.
  pub genesis-run :
      (config : Config) (c : C) (t : Token.Storage) (p : PriceOracle.Storage)
      (m : Marketplace.Storage) (steps : List (Step C)) (d n : ℕ)
      → 1 ≤ config.maximum_number_of_members
      → let s = run steps (genesis config c t p m) in
        (s.members_count d ≤ config.maximum_number_of_members) × IsTally s d n
  genesis-run config c t p m steps d n some_member =
      let bounded =
        run-IsBounded config.maximum_number_of_members steps (genesis config c t p m) some_member
          (genesis-IsBounded config c t p m) in
      (bounded.1 d, run-IsTally steps (genesis config c t p m) (genesis-IsTally config c t p m) d n)
