-- ===== src/Dao/Calls.antt =====
-- The other calls of the dao pallet: `create`, `vote`, `deposit` and `on_finalize`
-- (runtime/src/dao.rs).
use akropolis_os_chain_node.Common.{
  ℕ, Bool, false, not, ◌||◌, List, some, ltb, leb, ◌==◌, if◌then◌else◌, is_some, unwrap_or,
}
use akropolis_os_chain_node.Common.Words.{u64_mod, checked_add, wrapping_add}
use akropolis_os_chain_node.Common.Maps.{update, update₂}
use akropolis_os_chain_node.Common.Action.{
  Action, pure, or_fail, gets, ensure, modify, ◌>>=◌, ◌>>◌, for_each,
}
use akropolis_os_chain_node.Errors.{
  dao_count_overflow, founder_is_dao, dao_address_busy, dao_name_exists, dao_reserved_balance,
  not_a_member, proposal_not_exists, voted_already, votes_count_overflow, proposal_not_open,
  insufficient_deposit,
}
use akropolis_os_chain_node.Origin.{Origin, ensure_signed}
use akropolis_os_chain_node.Types.{Proposal, Dao, default_proposal}
use akropolis_os_chain_node.Votes.{votes_are_enough}
use akropolis_os_chain_node.Dao.State.{
  Storage, Runtime, Event, Preimage, minimum_vote_timeout, deposit_event, set_proposal, add_vote,
  on_currency,
}
use akropolis_os_chain_node.Dao.Members.{validate_name, validate_description}
use akropolis_os_chain_node.Dao.Execution.{execute_proposal, close_proposal}
use akropolis_os_chain_node.Dao.Proposals.{check_dao_exists, check_member}

-- `if vote { yes_count += 1 } else { no_count += 1 }`
abbrev pub count_vote : Proposal → Bool → Proposal
count_vote p v =
    if v
    then record p { yes_count = wrapping_add u64_mod p.yes_count 1 }
    else record p { no_count = wrapping_add u64_mod p.no_count 1 }

module _ {C : Type 0} where
  unfoldable pub set_account_lock : Runtime C → ℕ → Action (Storage C) Unit
  set_account_lock r who =
      modify λ s. record s { currency = r.set_lock who (r.free_balance s.currency who) s.currency }

  unfoldable pub remove_account_lock : Runtime C → ℕ → Action (Storage C) Unit
  remove_account_lock r who = modify λ s. record s { currency = r.remove_lock who s.currency }

  -- The ten writes at the end of `create`.
  unfoldable pub store_dao : ℕ → ℕ → ℕ → Dao → Action (Storage C) Unit
  store_dao dao_id new_count name_hash dao = modify λ s. record s {
    daos = update s.daos dao_id (some dao);
    daos_count = new_count;
    dao_names = update s.dao_names name_hash (some dao_id);
    dao_addresses = update s.dao_addresses dao.address (some dao_id);
    dao_timeouts = update s.dao_timeouts dao_id minimum_vote_timeout;
    dao_maximum_number_of_members =
        update s.dao_maximum_number_of_members dao_id s.maximum_number_of_members;
    address = update s.address dao_id dao.address;
    members = update₂ s.members dao_id 0 dao.founder;
    members_count = update s.members_count dao_id 1;
    dao_members = update₂ s.dao_members dao_id dao.founder (some 0);
  }

  -- The checks of `create`.
  unfoldable pub check_new_dao : Runtime C → ℕ → ℕ → List ℕ → List ℕ → Action (Storage C) Unit
  unfolding ◌>>=◌
  check_new_dao r founder address name description = do
    ensure (not (founder == address)) founder_is_dao
    validate_name name
    validate_description description
    address_busy ← gets (λ s. is_some (s.dao_addresses address))
    ensure (not address_busy) dao_address_busy
    name_busy ← gets (λ s. is_some (s.dao_names (r.hash (Preimage.name name))))
    ensure (not name_busy) dao_name_exists
    reserved ← gets (λ s. r.reserved_balance s.currency address)
    ensure (reserved == 0) dao_reserved_balance

  -- `create` after its checks.
  unfoldable pub place_dao : Runtime C → ℕ → ℕ → Dao → Action (Storage C) Unit
  unfolding ◌>>=◌ on_currency set_account_lock store_dao deposit_event
  place_dao r dao_id new_count dao = do
    on_currency (r.transfer dao.founder dao.address r.existential_deposit)
    set_account_lock r dao.address
    store_dao dao_id new_count (r.hash (Preimage.name dao.name)) dao
    deposit_event (Event.dao_created dao.address dao.founder dao.name)

  unfoldable pub create : Runtime C → Origin → ℕ → List ℕ → List ℕ → Action (Storage C) Unit
  unfolding ◌>>=◌ ensure_signed
  create r origin address name description = do
    founder ← ensure_signed origin
    dao_id ← gets (λ s. s.daos_count)
    new_count ← or_fail (checked_add u64_mod dao_id 1) dao_count_overflow
    check_new_dao r founder address name description
    place_dao r dao_id new_count
        (record { address = address; name = name; description = description; founder = founder })

  -- The match on the outcome at the end of `vote`.
  unfoldable pub announce : ℕ → ℕ → Bool → Bool → Bool → Action (Storage C) Unit
  unfolding ◌>>=◌ deposit_event
  announce dao_id proposal_id accepted rejected all_voted =
      if accepted
      then deposit_event (Event.proposal_is_accepted dao_id proposal_id)
      else if rejected
      then deposit_event (Event.proposal_is_rejected dao_id proposal_id)
      else if all_voted
      then deposit_event (Event.proposal_is_rejected dao_id proposal_id)
      else pure tt

  -- The two branches of `vote` that act on a proposal which has its new vote.
  unfoldable pub settle_proposal : ℕ → ℕ → Proposal → Bool → Bool → Action (Storage C) Unit
  unfolding ◌>>=◌ close_proposal set_proposal
  settle_proposal dao_id proposal_id proposal is_accepted is_decided = do
    if is_accepted then execute_proposal proposal else pure tt
    if is_decided
        then close_proposal dao_id proposal_id proposal is_accepted
        else set_proposal dao_id proposal_id proposal

  -- `vote` after its checks, on the proposal with its new vote.
  unfoldable pub conclude_vote : ℕ → ℕ → ℕ → Bool → ℕ → ℕ → Proposal → Action (Storage C) Unit
  unfolding ◌>>=◌ add_vote deposit_event
  conclude_vote voter dao_id proposal_id v count new_count proposal = do
    members_count ← gets (λ s. s.members_count dao_id)
    let is_accepted = votes_are_enough proposal.yes_count members_count
    let is_rejected = votes_are_enough proposal.no_count members_count
    let all_voted = leb members_count (wrapping_add u64_mod proposal.yes_count proposal.no_count)
    settle_proposal dao_id proposal_id proposal is_accepted
        (is_accepted || (is_rejected || all_voted))
    add_vote dao_id proposal_id count voter new_count
    deposit_event (Event.new_vote dao_id proposal_id voter v)
    announce dao_id proposal_id is_accepted is_rejected all_voted

  unfoldable pub vote : Origin → ℕ → ℕ → Bool → Action (Storage C) Unit
  unfolding ◌>>=◌ ensure_signed check_member
  vote origin dao_id proposal_id v = do
    voter ← ensure_signed origin
    check_member dao_id voter not_a_member
    found ← gets (λ s. is_some (s.dao_proposals dao_id proposal_id))
    ensure found proposal_not_exists
    voted ← gets (λ s. is_some (s.dao_proposals_votes_index dao_id proposal_id voter))
    ensure (not voted) voted_already
    count ← gets (λ s. s.dao_proposals_votes_count dao_id proposal_id)
    new_count ← or_fail (checked_add u64_mod count 1) votes_count_overflow
    stored ← gets (λ s. unwrap_or (s.dao_proposals dao_id proposal_id) default_proposal)
    ensure stored.is_open proposal_not_open
    conclude_vote voter dao_id proposal_id v count new_count (count_vote stored v)

  unfoldable pub deposit : Runtime C → Origin → ℕ → ℕ → Action (Storage C) Unit
  unfolding ◌>>=◌ ensure_signed check_dao_exists check_member remove_account_lock on_currency
      set_account_lock deposit_event
  deposit r origin dao_id value = do
    depositor ← ensure_signed origin
    check_dao_exists dao_id
    check_member dao_id depositor not_a_member
    balance ← gets (λ s. r.free_balance s.currency depositor)
    ensure (ltb value balance) insufficient_deposit
    dao_address ← gets (λ s. s.address dao_id)
    remove_account_lock r dao_address
    on_currency (r.transfer depositor dao_address value)
    set_account_lock r dao_address
    deposit_event (Event.new_deposit depositor dao_address value)

  -- The body of the loop of `on_finalize`.
  unfoldable pub expire_proposal : ℕ → Action (Storage C) Unit
  unfolding ◌>>=◌ close_proposal deposit_event
  expire_proposal proposal_id = do
    dao_id ← gets (λ s. s.dao_proposals_index proposal_id)
    proposal ← gets (λ s. unwrap_or (s.dao_proposals dao_id proposal_id) default_proposal)
    if proposal.is_open
        then (do
          close_proposal dao_id proposal_id proposal false
          deposit_event (Event.proposal_is_expired dao_id proposal_id))
        else pure tt

  unfoldable pub clear_open_proposals : ℕ → Action (Storage C) Unit
  clear_open_proposals block =
      modify λ s. record s { open_dao_proposals = update s.open_dao_proposals block List.[] }

  unfoldable pub on_finalize : Runtime C → Action (Storage C) Unit
  unfolding ◌>>=◌ for_each expire_proposal clear_open_proposals
  on_finalize r = do
    proposals ← gets (λ s. s.open_dao_proposals r.block_number)
    for_each proposals expire_proposal
    clear_open_proposals r.block_number
