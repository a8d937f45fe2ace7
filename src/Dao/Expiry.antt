-- ===== src/Dao/Expiry.antt =====
-- Proposals of two daos with one number, and what the end of their block does to them.
use akropolis_os_chain_node.Common.{ℕ, ◌≡◌, ◌≢◌, arith, true, false, unwrap_or}
use akropolis_os_chain_node.Common.Action.{ok}
use akropolis_os_chain_node.Types
use akropolis_os_chain_node.Types.{default_proposal, Proposal}
use akropolis_os_chain_node.Dao.State.{Storage}
use akropolis_os_chain_node.Dao.Proposals.{open_proposal}
use akropolis_os_chain_node.Dao.Calls.{expire_proposal}

module _ {C : Type 0} where
  -- When two daos each open a proposal and both get the same number, the expiry of that number
  -- closes the proposal of the second dao only: the one of the first dao stays as it is, open.
  pub expire_proposal-collision :
      (x y : ℕ) (a b : Types.Action) (deadline h k : ℕ) (s : Storage C)
      → x ≢ y
      → s.dao_proposals_count x ≡ s.dao_proposals_count y
      → (open_proposal x a deadline h s).0 ≡ ok tt
      → (open_proposal y b deadline k (open_proposal x a deadline h s).1).0 ≡ ok tt
      → let t = (open_proposal y b deadline k (open_proposal x a deadline h s).1).1 in
        let n = s.dao_proposals_count x in
        let u = (expire_proposal n t).1 in
        (u.dao_proposals x n ≡ t.dao_proposals x n)
        × ((unwrap_or (u.dao_proposals x n) default_proposal).is_open ≡ true)
        × ((unwrap_or (u.dao_proposals y n) default_proposal).is_open ≡ false)
  unfolding open_proposal expire_proposal
  expire_proposal-collision x y a b deadline h k s other same e f =
      (ground arith, ground arith, ground arith)
