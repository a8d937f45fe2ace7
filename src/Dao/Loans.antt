-- ===== src/Dao/Loans.antt =====
-- Votes on proposals to get a loan.
use akropolis_os_chain_node.Common.{ℕ, ◌+◌, ◌≡◌, Bool, true, false, List, some, arith, ap, ◌∙◌}
use akropolis_os_chain_node.Common.Action.{panicked, returns}
use akropolis_os_chain_node.Origin.{signed}
use akropolis_os_chain_node.Types
use akropolis_os_chain_node.Types.{Proposal}
use akropolis_os_chain_node.Votes.{votes_are_enough}
use akropolis_os_chain_node.Dao.State.{Storage}
use akropolis_os_chain_node.Dao.Execution.{
  execute_action, execute_proposal, propose_investment, mint_loan_tokens,
}
use akropolis_os_chain_node.Dao.Calls.{vote, conclude_vote, settle_proposal, count_vote}

module _ {C : Type 0} where
  -- The oracle has no price for the token, or the price 0.
  abbrev pub HasNoPrice : ℕ → Storage C → Type 0
  HasNoPrice token_id s = (s.prices.aggregated_prices (s.token.token_map token_id).symbol).1 ≡ 0

  propose_investment-panicked :
      (dao_id days rate token_id value : ℕ) (description : List ℕ) (s : Storage C)
      → HasNoPrice token_id s
      → (propose_investment dao_id description days rate token_id value s).0 ≡ panicked
  unfolding propose_investment mint_loan_tokens
  propose_investment-panicked dao_id days rate token_id value description s h = ground arith

  execute_proposal-panicked :
      (p : Proposal) (description : List ℕ) (days rate token_id value : ℕ) (s : Storage C)
      → p.action ≡ Types.Action.get_loan description days rate token_id value
      → HasNoPrice token_id s
      → (execute_proposal p s).0 ≡ panicked
  unfolding execute_proposal execute_action
  execute_proposal-panicked p description days rate token_id value s e h =
      ap (λ a. (execute_action p.dao_id a s).0) e
      ∙ propose_investment-panicked p.dao_id days rate token_id value description s h

  conclude_vote-panicked :
      (voter dao_id proposal_id count new_count : ℕ) (v : Bool) (p : Proposal) (s : Storage C)
      → votes_are_enough p.yes_count (s.members_count dao_id) ≡ true
      → (execute_proposal p s).0 ≡ panicked
      → (conclude_vote voter dao_id proposal_id v count new_count p s).0 ≡ panicked
  unfolding conclude_vote settle_proposal
  conclude_vote-panicked voter dao_id proposal_id count new_count v p s h e = ground arith

  -- As long as the oracle has no price for the token of a loan, no vote that would accept the loan
  -- succeeds.
  pub vote-no_price :
      (voter dao_id proposal_id : ℕ) (description : List ℕ) (days rate token_id value : ℕ)
      (stored : Proposal) (s : Storage C)
      → s.dao_proposals dao_id proposal_id ≡ some stored
      → stored.action ≡ Types.Action.get_loan description days rate token_id value
      → HasNoPrice token_id s
      → votes_are_enough (count_vote stored true).yes_count (s.members_count dao_id) ≡ true
      → returns (vote (signed voter) dao_id proposal_id true s) ≡ false
  unfolding vote
  vote-no_price voter dao_id proposal_id description days rate token_id value stored s e a h n =
      let p = count_vote stored true in
      let count = s.dao_proposals_votes_count dao_id proposal_id in
      ground (
        arith,
        conclude_vote-panicked voter dao_id proposal_id count (count + 1) true p s n
            (execute_proposal-panicked p description days rate token_id value s a h),
      )
