-- ===== src/Dao/Execution.antt =====
-- What the dao pallet does with an accepted proposal, and how it closes one (runtime/src/dao.rs).
use akropolis_os_chain_node.Common.{ℕ, Bool, false, List, none, ltb}
use akropolis_os_chain_node.Common.Words.{checked_sub, checked_div}
use akropolis_os_chain_node.Common.Maps.{update}
use akropolis_os_chain_node.Common.Action.{
  Action, pure, or_fail, or_panic, gets, ensure, modify, ◌>>=◌, ◌>>◌,
}
use akropolis_os_chain_node.Errors.{dao_below_existential, dao_balance_insufficient}
use akropolis_os_chain_node.Types.{Proposal}
use akropolis_os_chain_node.Types
use akropolis_os_chain_node.Token.{mint_tokens}
use akropolis_os_chain_node.Marketplace
use akropolis_os_chain_node.Dao.State.{
  Storage, Runtime, set_timeout, set_maximum_number_of_members, on_token, on_marketplace,
  set_proposal,
}
use akropolis_os_chain_node.Dao.Members.{add_member, remove_member}

module _ {C : Type 0} where
  -- The division by a price of 0 panics.
  unfoldable pub mint_loan_tokens : ℕ → ℕ → ℕ → ℕ → Action (Storage C) Unit
  unfolding ◌>>=◌
  mint_loan_tokens dao_id token_id price value = do
    address ← gets (λ s. s.address dao_id)
    tokens_amount ← or_panic (checked_div value price)
    on_token (mint_tokens token_id address tokens_amount)

  unfoldable pub propose_investment : ℕ → List ℕ → ℕ → ℕ → ℕ → ℕ → Action (Storage C) Unit
  unfolding ◌>>=◌
  propose_investment dao_id description days rate token_id value = do
    token ← gets (λ s. s.token.token_map token_id)
    point ← gets (λ s. s.prices.aggregated_prices token.symbol)
    mint_loan_tokens dao_id token_id point.1 value
    on_marketplace
        (Marketplace.propose_investment dao_id description days rate token_id point.1 value)

  unfoldable pub change_timeout : ℕ → ℕ → Action (Storage C) Unit
  unfolding set_timeout
  change_timeout dao_id timeout = set_timeout dao_id timeout

  unfoldable pub change_maximum_number_of_members : ℕ → ℕ → Action (Storage C) Unit
  unfolding set_maximum_number_of_members
  change_maximum_number_of_members dao_id number = set_maximum_number_of_members dao_id number

  unfoldable pub withdraw_from_dao_balance_is_valid : Runtime C → ℕ → ℕ → Action (Storage C) Unit
  unfolding ◌>>=◌
  withdraw_from_dao_balance_is_valid r dao_id value = do
    dao_balance ← gets (λ s. r.free_balance s.currency (s.address dao_id))
    allowed ← or_fail (checked_sub dao_balance r.existential_deposit) dao_below_existential
    ensure (ltb value allowed) dao_balance_insufficient

  -- The two removals at the end of `close_proposal`.
  unfoldable pub forget_hash : ℕ → ℕ → Action (Storage C) Unit
  forget_hash proposal_id proposal_hash = modify λ s. record s {
    open_dao_proposals_hashes = update s.open_dao_proposals_hashes proposal_hash none;
    open_dao_proposals_hashes_index = update s.open_dao_proposals_hashes_index proposal_id 0;
  }

  unfoldable pub close_proposal : ℕ → ℕ → Proposal → Bool → Action (Storage C) Unit
  unfolding ◌>>=◌ set_proposal forget_hash
  close_proposal dao_id proposal_id proposal is_accepted = do
    proposal_hash ← gets (λ s. s.open_dao_proposals_hashes_index proposal_id)
    set_proposal dao_id proposal_id (record proposal { is_open = false; accepted = is_accepted })
    forget_hash proposal_id proposal_hash

  -- The match of `execute_proposal` on the action.
  unfoldable pub execute_action : ℕ → Types.Action → Action (Storage C) Unit
  unfolding pure
  execute_action dao_id (Types.Action.add_member member) = add_member dao_id member
  execute_action dao_id (Types.Action.remove_member member) = remove_member dao_id member
  execute_action dao_id (Types.Action.get_loan description days rate token value) =
      propose_investment dao_id description days rate token value
  execute_action dao_id (Types.Action.change_timeout id value) = change_timeout id value
  execute_action dao_id (Types.Action.change_maximum_number_of_members id value) =
      change_maximum_number_of_members id value
  execute_action dao_id Types.Action.empty_action = pure tt

  unfoldable pub execute_proposal : Proposal → Action (Storage C) Unit
  unfolding execute_action
  execute_proposal proposal = execute_action proposal.dao_id proposal.action
