-- ===== src/Dao/Proposals.antt =====
-- The five calls that open a proposal in the dao pallet (runtime/src/dao.rs). Their shared lines,
-- such as the writes at the end, are functions of their own.
use akropolis_os_chain_node.Common.{
  ℕ, ◌%◌, true, false, not, List, [], ◌∷◌, ◌++◌, some, ltb, leb, ◌==◌, is_some, length,
}
use akropolis_os_chain_node.Common.Words.{u32_mod, u64_mod, wrapping_add, checked_add}
use akropolis_os_chain_node.Common.Maps.{update, update₂}
use akropolis_os_chain_node.Common.Action.{Action, or_fail, gets, ensure, modify, ◌>>=◌, ◌>>◌}
use akropolis_os_chain_node.Errors.{
  dao_not_exists, already_member, already_not_a_member, dao_as_member, max_members_reached,
  proposal_already_open, max_open_proposals, proposal_count_overflow, not_a_member, last_member,
  same_timeout, same_max_members, members_over_new_max, Error,
}
use akropolis_os_chain_node.Origin.{Origin, ensure_signed}
use akropolis_os_chain_node.Types
use akropolis_os_chain_node.Dao.State.{Storage, Runtime, Event, Preimage, deposit_event}
use akropolis_os_chain_node.Dao.Members.{
  validate_description, validate_vote_timeout, validate_number_of_members,
}
use akropolis_os_chain_node.Dao.Execution.{withdraw_from_dao_balance_is_valid}

module _ {C : Type 0} where
  -- The block after which a proposal that is opened now expires.
  abbrev pub voting_deadline : Runtime C → ℕ → Storage C → ℕ
  voting_deadline r dao_id s = wrapping_add u32_mod r.block_number (s.dao_timeouts dao_id)

  unfoldable pub check_dao_exists : ℕ → Action (Storage C) Unit
  unfolding ◌>>=◌
  check_dao_exists dao_id = do
    found ← gets (λ s. is_some (s.daos dao_id))
    ensure found dao_not_exists

  unfoldable pub check_member : ℕ → ℕ → Error → Action (Storage C) Unit
  unfolding ◌>>=◌
  check_member dao_id account e = do
    found ← gets (λ s. is_some (s.dao_members dao_id account))
    ensure found e

  unfoldable pub check_hash_free : ℕ → Action (Storage C) Unit
  unfolding ◌>>=◌
  check_hash_free proposal_hash = do
    found ← gets (λ s. is_some (s.open_dao_proposals_hashes proposal_hash))
    ensure (not found) proposal_already_open

  unfoldable pub check_open_proposals : ℕ → Action (Storage C) Unit
  unfolding ◌>>=◌
  check_open_proposals deadline = do
    open_proposals ← gets (λ s. s.open_dao_proposals deadline)
    limit ← gets (λ s. s.open_proposals_per_block)
    ensure (ltb (length open_proposals % u32_mod) limit) max_open_proposals

  -- The six writes of a new proposal.
  unfoldable pub store_proposal : ℕ → ℕ → ℕ → Types.Action → ℕ → ℕ → Action (Storage C) Unit
  store_proposal dao_id proposal_id new_count action deadline proposal_hash = modify λ s. record s {
    dao_proposals = update₂ s.dao_proposals dao_id proposal_id (
        some (record {
          dao_id = dao_id;
          action = action;
          is_open = true;
          accepted = false;
          voting_deadline = deadline;
          yes_count = 0;
          no_count = 0;
        }));
    dao_proposals_count = update s.dao_proposals_count dao_id new_count;
    dao_proposals_index = update s.dao_proposals_index proposal_id dao_id;
    open_dao_proposals =
        update s.open_dao_proposals deadline (s.open_dao_proposals deadline ++ proposal_id ∷ []);
    open_dao_proposals_hashes = update s.open_dao_proposals_hashes proposal_hash (some proposal_id);
    open_dao_proposals_hashes_index =
        update s.open_dao_proposals_hashes_index proposal_id proposal_hash;
  }

  unfoldable pub open_proposal : ℕ → Types.Action → ℕ → ℕ → Action (Storage C) Unit
  unfolding ◌>>=◌ store_proposal
  open_proposal dao_id action deadline proposal_hash = do
    proposal_id ← gets (λ s. s.dao_proposals_count dao_id)
    new_count ← or_fail (checked_add u64_mod proposal_id 1) proposal_count_overflow
    store_proposal dao_id proposal_id new_count action deadline proposal_hash

  unfoldable pub propose_to_add_member : Runtime C → Origin → ℕ → Action (Storage C) Unit
  unfolding ◌>>=◌ ensure_signed check_dao_exists check_hash_free check_open_proposals open_proposal
      deposit_event
  propose_to_add_member r origin dao_id = do
    candidate ← ensure_signed origin
    let proposal_hash = r.hash (Preimage.add_member candidate dao_id)
    deadline ← gets (voting_deadline r dao_id)
    check_dao_exists dao_id
    is_member ← gets (λ s. is_some (s.dao_members dao_id candidate))
    ensure (not is_member) already_member
    is_dao ← gets (λ s. is_some (s.dao_addresses candidate))
    ensure (not is_dao) dao_as_member
    has_room ← gets (λ s. ltb (s.members_count dao_id) (s.dao_maximum_number_of_members dao_id))
    ensure has_room max_members_reached
    check_hash_free proposal_hash
    check_open_proposals deadline
    open_proposal dao_id (Types.Action.add_member candidate) deadline proposal_hash
    deposit_event (Event.propose_to_add_member dao_id candidate deadline)

  unfoldable pub propose_to_remove_member : Runtime C → Origin → ℕ → Action (Storage C) Unit
  unfolding ◌>>=◌ ensure_signed check_dao_exists check_member check_hash_free check_open_proposals
      open_proposal deposit_event
  propose_to_remove_member r origin dao_id = do
    candidate ← ensure_signed origin
    let proposal_hash = r.hash (Preimage.remove_member candidate dao_id)
    deadline ← gets (voting_deadline r dao_id)
    check_dao_exists dao_id
    check_member dao_id candidate already_not_a_member
    has_others ← gets (λ s. ltb 1 (s.members_count dao_id))
    ensure has_others last_member
    check_hash_free proposal_hash
    check_open_proposals deadline
    open_proposal dao_id (Types.Action.remove_member candidate) deadline proposal_hash
    deposit_event (Event.propose_to_remove_member dao_id candidate deadline)

  unfoldable pub propose_to_get_loan :
      Runtime C → Origin → ℕ → List ℕ → ℕ → ℕ → ℕ → ℕ → Action (Storage C) Unit
  unfolding ◌>>=◌ ensure_signed validate_description check_dao_exists check_member check_hash_free
      check_open_proposals withdraw_from_dao_balance_is_valid open_proposal deposit_event
  propose_to_get_loan r origin dao_id description days rate token_id value = do
    proposer ← ensure_signed origin
    let proposal_hash = r.hash (Preimage.get_loan proposer dao_id token_id)
    deadline ← gets (voting_deadline r dao_id)
    validate_description description
    check_dao_exists dao_id
    check_member dao_id proposer already_not_a_member
    check_hash_free proposal_hash
    check_open_proposals deadline
    withdraw_from_dao_balance_is_valid r dao_id value
    open_proposal dao_id (Types.Action.get_loan description days rate token_id value) deadline
        proposal_hash
    deposit_event (Event.propose_to_get_loan dao_id proposer days rate value deadline)

  unfoldable pub propose_to_change_vote_timeout :
      Runtime C → Origin → ℕ → ℕ → Action (Storage C) Unit
  unfolding ◌>>=◌ ensure_signed validate_vote_timeout check_dao_exists check_member check_hash_free
      check_open_proposals open_proposal deposit_event
  propose_to_change_vote_timeout r origin dao_id value = do
    proposer ← ensure_signed origin
    let proposal_hash = r.hash (Preimage.change_vote_timeout proposer dao_id)
    deadline ← gets (voting_deadline r dao_id)
    validate_vote_timeout value
    check_dao_exists dao_id
    check_member dao_id proposer not_a_member
    check_hash_free proposal_hash
    unchanged ← gets (λ s. s.dao_timeouts dao_id == value)
    ensure (not unchanged) same_timeout
    check_open_proposals deadline
    open_proposal dao_id (Types.Action.change_timeout dao_id value) deadline proposal_hash
    deposit_event (Event.propose_to_change_timeout dao_id value)

  unfoldable pub propose_to_change_maximum_number_of_members :
      Runtime C → Origin → ℕ → ℕ → Action (Storage C) Unit
  unfolding ◌>>=◌ ensure_signed validate_number_of_members check_dao_exists check_member
      check_hash_free check_open_proposals open_proposal deposit_event
  propose_to_change_maximum_number_of_members r origin dao_id value = do
    proposer ← ensure_signed origin
    let proposal_hash = r.hash (Preimage.change_maximum_number_of_members proposer dao_id)
    deadline ← gets (voting_deadline r dao_id)
    validate_number_of_members value
    check_dao_exists dao_id
    check_member dao_id proposer not_a_member
    check_hash_free proposal_hash
    unchanged ← gets (λ s. s.dao_maximum_number_of_members dao_id == value)
    ensure (not unchanged) same_max_members
    fits ← gets (λ s. leb (s.members_count dao_id) value)
    ensure fits members_over_new_max
    check_open_proposals deadline
    open_proposal dao_id (Types.Action.change_maximum_number_of_members dao_id value) deadline
        proposal_hash
    deposit_event (Event.propose_to_change_maximum_number_of_members dao_id value)
