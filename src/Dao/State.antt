-- ===== src/Dao/State.antt =====
-- The storage and the events of the dao pallet (`decl_storage!` and `decl_event!` of
-- runtime/src/dao.rs), what a call takes from other pallets, and one writer for each map.
use akropolis_os_chain_node.Common.{ℕ, ◌*◌, Bool, List, [], ◌∷◌, ◌++◌, Option, some}
use akropolis_os_chain_node.Common.Maps.{update, update₂, update₃}
use akropolis_os_chain_node.Common.Action.{Action, modify, zoom}
use akropolis_os_chain_node.Types.{Dao, Proposal}
use akropolis_os_chain_node.Token
use akropolis_os_chain_node.PriceOracle
use akropolis_os_chain_node.Marketplace

abbrev pub minimum_vote_timeout : ℕ
minimum_vote_timeout = 30

abbrev pub maximum_vote_timeout : ℕ
maximum_vote_timeout = 3 * 30 * 24 * 60 * 6

-- What the pallet encodes and hashes.
pub data Preimage : Type 0 where
  name : List ℕ → Preimage
  add_member : ℕ → ℕ → Preimage
  remove_member : ℕ → ℕ → Preimage
  get_loan : ℕ → ℕ → ℕ → Preimage
  change_vote_timeout : ℕ → ℕ → Preimage
  change_maximum_number_of_members : ℕ → ℕ → Preimage

-- The hash of an encoding, the block number, and the balances pallet over a storage `C` of its own:
-- `set_lock` and `remove_lock` are about the lock of this pallet, `transfer` keeps the sender alive.
pub record Runtime (C : Type 0) : Type 0 where
  pub hash : Preimage → ℕ
  pub block_number : ℕ
  pub existential_deposit : ℕ
  pub free_balance : C → ℕ → ℕ
  pub reserved_balance : C → ℕ → ℕ
  pub transfer : ℕ → ℕ → ℕ → Action C Unit
  pub set_lock : ℕ → ℕ → C → C
  pub remove_lock : ℕ → C → C

pub data Event : Type 0 where
  new_deposit : ℕ → ℕ → ℕ → Event
  dao_created : ℕ → ℕ → List ℕ → Event
  new_vote : ℕ → ℕ → ℕ → Bool → Event
  proposal_is_accepted : ℕ → ℕ → Event
  proposal_is_expired : ℕ → ℕ → Event
  proposal_is_rejected : ℕ → ℕ → Event
  propose_to_add_member : ℕ → ℕ → ℕ → Event
  propose_to_remove_member : ℕ → ℕ → ℕ → Event
  propose_to_get_loan : ℕ → ℕ → ℕ → ℕ → ℕ → ℕ → Event
  propose_to_change_timeout : ℕ → ℕ → Event
  propose_to_change_maximum_number_of_members : ℕ → ℕ → Event

-- The storage of the pallet beside those of the pallets that it calls. `OpenDaoProposalsIndex` is
-- left out: nothing reads or writes it.
pub record Storage (C : Type 0) : Type 0 where
  pub currency : C
  pub token : Token.Storage
  pub prices : PriceOracle.Storage
  pub marketplace : Marketplace.Storage
  pub daos : ℕ → Option Dao
  pub daos_count : ℕ
  pub dao_names : ℕ → Option ℕ
  pub dao_addresses : ℕ → Option ℕ
  pub dao_timeouts : ℕ → ℕ
  pub dao_maximum_number_of_members : ℕ → ℕ
  pub address : ℕ → ℕ
  pub minimum_number_of_members : ℕ
  pub maximum_number_of_members : ℕ
  pub members : ℕ → ℕ → ℕ
  pub members_count : ℕ → ℕ
  pub dao_members : ℕ → ℕ → Option ℕ
  pub dao_proposals : ℕ → ℕ → Option Proposal
  pub dao_proposals_count : ℕ → ℕ
  pub dao_proposals_index : ℕ → ℕ
  pub dao_proposals_votes : ℕ → ℕ → ℕ → ℕ
  pub dao_proposals_votes_count : ℕ → ℕ → ℕ
  pub dao_proposals_votes_index : ℕ → ℕ → ℕ → Option ℕ
  pub open_proposals_per_block : ℕ
  pub open_dao_proposals : ℕ → List ℕ
  pub open_dao_proposals_hashes : ℕ → Option ℕ
  pub open_dao_proposals_hashes_index : ℕ → ℕ
  pub events : List Event

module _ {C : Type 0} where
  unfoldable pub deposit_event : Event → Action (Storage C) Unit
  deposit_event e = modify λ s. record s { events = s.events ++ e ∷ [] }

  unfoldable pub set_member : ℕ → ℕ → ℕ → Action (Storage C) Unit
  set_member dao_id member_id account =
      modify λ s. record s { members = update₂ s.members dao_id member_id account }

  unfoldable pub set_members_count : ℕ → ℕ → Action (Storage C) Unit
  set_members_count dao_id v =
      modify λ s. record s { members_count = update s.members_count dao_id v }

  unfoldable pub set_dao_member : ℕ → ℕ → Option ℕ → Action (Storage C) Unit
  set_dao_member dao_id account v =
      modify λ s. record s { dao_members = update₂ s.dao_members dao_id account v }

  unfoldable pub set_timeout : ℕ → ℕ → Action (Storage C) Unit
  set_timeout dao_id v = modify λ s. record s { dao_timeouts = update s.dao_timeouts dao_id v }

  unfoldable pub set_maximum_number_of_members : ℕ → ℕ → Action (Storage C) Unit
  set_maximum_number_of_members dao_id v = modify λ s. record s {
    dao_maximum_number_of_members = update s.dao_maximum_number_of_members dao_id v;
  }

  unfoldable pub set_proposal : ℕ → ℕ → Proposal → Action (Storage C) Unit
  set_proposal dao_id proposal_id p =
      modify λ s. record s { dao_proposals = update₂ s.dao_proposals dao_id proposal_id (some p) }

  -- The three writes at the end of `vote`.
  unfoldable pub add_vote : ℕ → ℕ → ℕ → ℕ → ℕ → Action (Storage C) Unit
  add_vote dao_id proposal_id count voter new_count = modify λ s. record s {
    dao_proposals_votes = update₃ s.dao_proposals_votes dao_id proposal_id count voter;
    dao_proposals_votes_count = update₂ s.dao_proposals_votes_count dao_id proposal_id new_count;
    dao_proposals_votes_index =
        update₃ s.dao_proposals_votes_index dao_id proposal_id voter (some count);
  }

  unfoldable pub on_currency : {A : Type 0} → Action C A → Action (Storage C) A
  on_currency m = zoom (λ s. s.currency) (λ c s. record s { currency = c }) m

  unfoldable pub on_token : {A : Type 0} → Action Token.Storage A → Action (Storage C) A
  on_token m = zoom (λ s. s.token) (λ t s. record s { token = t }) m

  unfoldable pub on_marketplace : {A : Type 0} → Action Marketplace.Storage A → Action (Storage C) A
  on_marketplace m = zoom (λ s. s.marketplace) (λ t s. record s { marketplace = t }) m
