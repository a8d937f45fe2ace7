-- ===== src/Dao/Invariant.antt =====
-- Invariants of the dao pallet: what a predicate on the storage must survive to be kept by every
-- call and by the end of a block.
use akropolis_os_chain_node.Common.{ℕ, ◌≤◌, ◌≡◌, true, Bool, List, arith}
use akropolis_os_chain_node.Common.Action.{Action, returns, ◌>>◌}
use akropolis_os_chain_node.Common.Keeps.{
  Keeps, Keeps-modify, Keeps-zoom, Keeps-checked, keeps_rules,
}
use akropolis_os_chain_node.Errors.{Error}
use akropolis_os_chain_node.Origin.{Origin, Keeps-ensure_signed}
use akropolis_os_chain_node.Types
use akropolis_os_chain_node.Types.{Dao}
use akropolis_os_chain_node.Dao.State.{
  Storage, Runtime, Event, deposit_event, on_currency, minimum_vote_timeout, maximum_vote_timeout,
}
use akropolis_os_chain_node.Dao.Members.{
  validate_name, validate_description, validate_vote_timeout, validate_number_of_members,
}
use akropolis_os_chain_node.Dao.Execution.{withdraw_from_dao_balance_is_valid}
use akropolis_os_chain_node.Dao.Proposals.{
  check_dao_exists, check_member, check_hash_free, check_open_proposals, open_proposal,
  propose_to_add_member, propose_to_remove_member, propose_to_get_loan,
  propose_to_change_vote_timeout, propose_to_change_maximum_number_of_members,
}
use akropolis_os_chain_node.Dao.Calls.{
  set_account_lock, remove_account_lock, store_dao, check_new_dao, place_dao, create, vote, deposit,
  expire_proposal, clear_open_proposals, on_finalize,
}
use akropolis_os_chain_node.Token
use akropolis_os_chain_node.PriceOracle
use akropolis_os_chain_node.Marketplace

-- `P` survives the writes of the pallet; `IsAllowed` are the actions that a proposal may have.
pub record Invariant {C : Type 0} (IsAllowed : Types.Action → Type 0) (P : Storage C → Type 0)
    : Type 0 where
  pub on_outside :
      (c : C) (t : Token.Storage) (p : PriceOracle.Storage) (m : Marketplace.Storage)
      (s : Storage C)
      → P s
      → P (record s { currency = c; token = t; prices = p; marketplace = m })
  pub on_events : (x : List Event) (s : Storage C) → P s → P (record s { events = x })
  pub on_open_dao_proposals :
      (x : ℕ → List ℕ) (s : Storage C) → P s → P (record s { open_dao_proposals = x })
  pub on_store_dao : (id hash : ℕ) (count : ℕ) (dao : Dao) → Keeps P (store_dao id count hash dao)
  pub on_open :
      (dao_id : ℕ) (a : Types.Action) (deadline hash : ℕ)
      → IsAllowed a
      → Keeps P (open_proposal dao_id a deadline hash)
  pub on_vote :
      (o : Origin) (dao_id proposal_id : ℕ) (v : Bool) → Keeps P (vote o dao_id proposal_id v)
  pub on_expire : (proposal_id : ℕ) → Keeps P (expire_proposal proposal_id)
  pub allows_add : (member : ℕ) → IsAllowed (Types.Action.add_member member)
  pub allows_remove : (member : ℕ) → IsAllowed (Types.Action.remove_member member)
  pub allows_loan :
      (d : List ℕ) (days rate token v : ℕ) → IsAllowed (Types.Action.get_loan d days rate token v)
  pub allows_timeout :
      (id v : ℕ)
      → minimum_vote_timeout ≤ v
      → v ≤ maximum_vote_timeout
      → IsAllowed (Types.Action.change_timeout id v)
  pub allows_maximum :
      (id v : ℕ) (s : Storage C)
      → P s
      → v ≤ s.maximum_number_of_members
      → IsAllowed (Types.Action.change_maximum_number_of_members id v)

module _ {C : Type 0} where
  validate_vote_timeout-range :
      (v : ℕ) (s : Storage C)
      → returns (validate_vote_timeout v s) ≡ true
      → (minimum_vote_timeout ≤ v) × (v ≤ maximum_vote_timeout)
  unfolding validate_vote_timeout
  validate_vote_timeout-range v s h = ground arith

  validate_number_of_members-range :
      (v : ℕ) (s : Storage C)
      → returns (validate_number_of_members v s) ≡ true
      → v ≤ s.maximum_number_of_members
  unfolding validate_number_of_members
  validate_number_of_members-range v s h = ground arith

-- The checks only read.
module _ {C : Type 0} {P : Storage C → Type 0} where
  check_dao_exists-Keeps : (id : ℕ) → Keeps P (check_dao_exists id)
  unfolding check_dao_exists
  check_dao_exists-Keeps id = search keeps_rules depth 20

  check_member-Keeps : (id account : ℕ) (e : Error) → Keeps P (check_member id account e)
  unfolding check_member
  check_member-Keeps id account e = search keeps_rules depth 20

  check_hash_free-Keeps : (hash : ℕ) → Keeps P (check_hash_free hash)
  unfolding check_hash_free
  check_hash_free-Keeps hash = search keeps_rules depth 20

  check_open_proposals-Keeps : (deadline : ℕ) → Keeps P (check_open_proposals deadline)
  unfolding check_open_proposals
  check_open_proposals-Keeps deadline = search keeps_rules depth 20

  validate_name-Keeps : (name : List ℕ) → Keeps P (validate_name name)
  unfolding validate_name
  validate_name-Keeps name = search keeps_rules depth 20

  validate_description-Keeps : (text : List ℕ) → Keeps P (validate_description text)
  unfolding validate_description
  validate_description-Keeps text = search keeps_rules depth 20

  validate_vote_timeout-Keeps : (v : ℕ) → Keeps P (validate_vote_timeout v)
  unfolding validate_vote_timeout
  validate_vote_timeout-Keeps v = search keeps_rules depth 20

  validate_number_of_members-Keeps : (v : ℕ) → Keeps P (validate_number_of_members v)
  unfolding validate_number_of_members
  validate_number_of_members-Keeps v = search keeps_rules depth 20

  withdraw_from_dao_balance_is_valid-Keeps :
      (r : Runtime C) (id v : ℕ) → Keeps P (withdraw_from_dao_balance_is_valid r id v)
  unfolding withdraw_from_dao_balance_is_valid
  withdraw_from_dao_balance_is_valid-Keeps r id v = search keeps_rules depth 20

  check_new_dao-Keeps :
      (r : Runtime C) (founder address : ℕ) (name description : List ℕ)
      → Keeps P (check_new_dao r founder address name description)
  unfolding check_new_dao
  check_new_dao-Keeps r founder address name description =
      search (keeps_rules, validate_name-Keeps, validate_description-Keeps) depth 20

ruleset check_rules = (
  keeps_rules, Keeps-ensure_signed, check_dao_exists-Keeps, check_member-Keeps,
  check_hash_free-Keeps, check_open_proposals-Keeps, validate_description-Keeps,
  withdraw_from_dao_balance_is_valid-Keeps, check_new_dao-Keeps,
)

module _ {C : Type 0} {IsAllowed : Types.Action → Type 0} {P : Storage C → Type 0}
    (inv : Invariant IsAllowed P) where
  deposit_event-Keeps : (e : Event) → Keeps P (deposit_event e)
  unfolding deposit_event
  deposit_event-Keeps e = Keeps-modify _ (λ s h. inv.on_events _ s h)

  on_currency-Keeps : {A : Type 0} (m : Action C A) → Keeps P (on_currency m)
  unfolding on_currency
  on_currency-Keeps m =
      Keeps-zoom _ _ m (λ c s h. inv.on_outside c s.token s.prices s.marketplace s h)

  set_account_lock-Keeps : (r : Runtime C) (who : ℕ) → Keeps P (set_account_lock r who)
  unfolding set_account_lock
  set_account_lock-Keeps r who =
      Keeps-modify _ (λ s h. inv.on_outside _ s.token s.prices s.marketplace s h)

  remove_account_lock-Keeps : (r : Runtime C) (who : ℕ) → Keeps P (remove_account_lock r who)
  unfolding remove_account_lock
  remove_account_lock-Keeps r who =
      Keeps-modify _ (λ s h. inv.on_outside _ s.token s.prices s.marketplace s h)

  clear_open_proposals-Keeps : (block : ℕ) → Keeps P (clear_open_proposals block)
  unfolding clear_open_proposals
  clear_open_proposals-Keeps block = Keeps-modify _ (λ s h. inv.on_open_dao_proposals _ s h)

  place_dao-Keeps : (r : Runtime C) (id count : ℕ) (dao : Dao) → Keeps P (place_dao r id count dao)
  unfolding place_dao
  place_dao-Keeps r id count dao =
      let stored = inv.on_store_dao in
      search (keeps_rules, on_currency-Keeps, set_account_lock-Keeps, stored, deposit_event-Keeps)
        depth 20

  pub create-Keeps :
      (r : Runtime C) (o : Origin) (address : ℕ) (name description : List ℕ)
      → Keeps P (create r o address name description)
  unfolding create
  create-Keeps r o address name description = search (check_rules, place_dao-Keeps) depth 20

  pub propose_to_add_member-Keeps :
      (r : Runtime C) (o : Origin) (id : ℕ) → Keeps P (propose_to_add_member r o id)
  unfolding propose_to_add_member
  propose_to_add_member-Keeps r o id =
      let opened = inv.on_open in
      let allowed = inv.allows_add in
      search (check_rules, opened, allowed, deposit_event-Keeps) depth 30

  pub propose_to_remove_member-Keeps :
      (r : Runtime C) (o : Origin) (id : ℕ) → Keeps P (propose_to_remove_member r o id)
  unfolding propose_to_remove_member
  propose_to_remove_member-Keeps r o id =
      let opened = inv.on_open in
      let allowed = inv.allows_remove in
      search (check_rules, opened, allowed, deposit_event-Keeps) depth 30

  pub propose_to_get_loan-Keeps :
      (r : Runtime C) (o : Origin) (id : ℕ) (description : List ℕ) (days rate token value : ℕ)
      → Keeps P (propose_to_get_loan r o id description days rate token value)
  unfolding propose_to_get_loan
  propose_to_get_loan-Keeps r o id description days rate token value =
      let opened = inv.on_open in
      let allowed = inv.allows_loan in
      search (check_rules, opened, allowed, deposit_event-Keeps) depth 30

  pub deposit-Keeps : (r : Runtime C) (o : Origin) (id value : ℕ) → Keeps P (deposit r o id value)
  unfolding deposit
  deposit-Keeps r o id value =
      search
        (
          check_rules, on_currency-Keeps, set_account_lock-Keeps, remove_account_lock-Keeps,
          deposit_event-Keeps,
        )
        depth 30

  pub on_finalize-Keeps : (r : Runtime C) → Keeps P (on_finalize r)
  unfolding on_finalize
  on_finalize-Keeps r =
      let expired = inv.on_expire in
      search (keeps_rules, expired, clear_open_proposals-Keeps) depth 20

  checked_timeout-Keeps :
      (id value : ℕ) (next : Action (Storage C) Unit)
      → (IsAllowed (Types.Action.change_timeout id value) → Keeps P next)
      → Keeps P (validate_vote_timeout value >> next)
  checked_timeout-Keeps id value next =
      Keeps-checked (validate_vote_timeout value) next _ (validate_vote_timeout-Keeps value)
        λ s h passed.
          let range = validate_vote_timeout-range value s passed in
          inv.allows_timeout id value range.0 range.1

  checked_maximum-Keeps :
      (id value : ℕ) (next : Action (Storage C) Unit)
      → (IsAllowed (Types.Action.change_maximum_number_of_members id value) → Keeps P next)
      → Keeps P (validate_number_of_members value >> next)
  checked_maximum-Keeps id value next =
      Keeps-checked (validate_number_of_members value) next _
        (validate_number_of_members-Keeps value)
        λ s h passed.
          inv.allows_maximum id value s h (validate_number_of_members-range value s passed)

  pub propose_to_change_vote_timeout-Keeps :
      (r : Runtime C) (o : Origin) (id value : ℕ)
      → Keeps P (propose_to_change_vote_timeout r o id value)
  unfolding propose_to_change_vote_timeout
  propose_to_change_vote_timeout-Keeps r o id value =
      let opened = inv.on_open in
      let checked = checked_timeout-Keeps id value in
      search (checked, check_rules, opened, deposit_event-Keeps) depth 30

  pub propose_to_change_maximum_number_of_members-Keeps :
      (r : Runtime C) (o : Origin) (id value : ℕ)
      → Keeps P (propose_to_change_maximum_number_of_members r o id value)
  unfolding propose_to_change_maximum_number_of_members
  propose_to_change_maximum_number_of_members-Keeps r o id value =
      let opened = inv.on_open in
      let checked = checked_maximum-Keeps id value in
      search (checked, check_rules, opened, deposit_event-Keeps) depth 30
