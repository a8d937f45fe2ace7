-- ===== src/Dao/Run.antt =====
-- Histories of the dao pallet: calls and ends of blocks in any order and by anyone, between which
-- the other pallets may do anything. What panics leaves the state as it was.
use akropolis_os_chain_node.Common.{ℕ, Bool, List, [], ◌∷◌}
use akropolis_os_chain_node.Common.Action.{Action, Outcome, ok, err, panicked}
use akropolis_os_chain_node.Common.Keeps.{Keeps}
use akropolis_os_chain_node.Origin.{Origin}
use akropolis_os_chain_node.Types
use akropolis_os_chain_node.Token
use akropolis_os_chain_node.PriceOracle
use akropolis_os_chain_node.Marketplace
use akropolis_os_chain_node.Dao.State.{Storage, Runtime}
use akropolis_os_chain_node.Dao.Proposals
use akropolis_os_chain_node.Dao.Calls
use akropolis_os_chain_node.Dao.Invariant
use akropolis_os_chain_node.Dao.Invariant.{Invariant}

-- `Call` of the pallet, and the hook at the end of a block.
pub data Call (C : Type 0) : Type 0 where
  create : ℕ → List ℕ → List ℕ → Call C
  propose_to_add_member : ℕ → Call C
  propose_to_remove_member : ℕ → Call C
  propose_to_get_loan : ℕ → List ℕ → ℕ → ℕ → ℕ → ℕ → Call C
  propose_to_change_vote_timeout : ℕ → ℕ → Call C
  propose_to_change_maximum_number_of_members : ℕ → ℕ → Call C
  vote : ℕ → ℕ → Bool → Call C
  deposit : ℕ → ℕ → Call C
  on_finalize : Call C

-- A call, or what other pallets do to their own storage.
pub data Step (C : Type 0) : Type 0 where
  call : Runtime C → Origin → Call C → Step C
  outside : C → Token.Storage → PriceOracle.Storage → Marketplace.Storage → Step C

module _ {C : Type 0} where
  unfoldable pub dispatch : Runtime C → Origin → Call C → Action (Storage C) Unit
  dispatch r o (create address name description) = Calls.create r o address name description
  dispatch r o (propose_to_add_member id) = Proposals.propose_to_add_member r o id
  dispatch r o (propose_to_remove_member id) = Proposals.propose_to_remove_member r o id
  dispatch r o (propose_to_get_loan id description days rate token_id value) =
      Proposals.propose_to_get_loan r o id description days rate token_id value
  dispatch r o (propose_to_change_vote_timeout id value) =
      Proposals.propose_to_change_vote_timeout r o id value
  dispatch r o (propose_to_change_maximum_number_of_members id value) =
      Proposals.propose_to_change_maximum_number_of_members r o id value
  dispatch r o (vote id proposal_id v) = Calls.vote o id proposal_id v
  dispatch r o (deposit id value) = Calls.deposit r o id value
  dispatch r o on_finalize = Calls.on_finalize r

  abbrev pub after : Storage C → Outcome (Unit {0}) × Storage C → Storage C
  after s (panicked, _) = s
  after _ (_, t) = t

  abbrev pub step : Step C → Storage C → Storage C
  step (Step.call r o c) s = after s (dispatch r o c s)
  step (outside c t p m) s = record s { currency = c; token = t; prices = p; marketplace = m }

  unfoldable pub run : List (Step C) → Storage C → Storage C
  run [] s = s
  run (x ∷ rest) s = run rest (step x s)

module _ {C : Type 0} {IsAllowed : Types.Action → Type 0} {P : Storage C → Type 0}
    (inv : Invariant IsAllowed P) where
  pub dispatch-Keeps : (r : Runtime C) (o : Origin) (c : Call C) → Keeps P (dispatch r o c)
  unfolding dispatch
  dispatch-Keeps r o (create address name description) =
      Invariant.create-Keeps inv r o address name description
  dispatch-Keeps r o (propose_to_add_member id) = Invariant.propose_to_add_member-Keeps inv r o id
  dispatch-Keeps r o (propose_to_remove_member id) =
      Invariant.propose_to_remove_member-Keeps inv r o id
  dispatch-Keeps r o (propose_to_get_loan id description days rate token_id value) =
      Invariant.propose_to_get_loan-Keeps inv r o id description days rate token_id value
  dispatch-Keeps r o (propose_to_change_vote_timeout id value) =
      Invariant.propose_to_change_vote_timeout-Keeps inv r o id value
  dispatch-Keeps r o (propose_to_change_maximum_number_of_members id value) =
      Invariant.propose_to_change_maximum_number_of_members-Keeps inv r o id value
  dispatch-Keeps r o (vote id proposal_id v) = inv.on_vote o id proposal_id v
  dispatch-Keeps r o (deposit id value) = Invariant.deposit-Keeps inv r o id value
  dispatch-Keeps r o on_finalize = Invariant.on_finalize-Keeps inv r

  after_keeps : (s : Storage C) (r : Outcome (Unit {0}) × Storage C) → P s → P r.1 → P (after s r)
  after_keeps s (ok _, t) h k = k
  after_keeps s (err e, t) h k = k
  after_keeps s (panicked, t) h k = h

  pub step_keeps : (x : Step C) (s : Storage C) → P s → P (step x s)
  step_keeps (Step.call r o c) s h =
      after_keeps s (dispatch r o c s) h ((dispatch-Keeps r o c).at s h)
  step_keeps (outside c t p m) s h = inv.on_outside c t p m s h

  pub run_keeps : (steps : List (Step C)) (s : Storage C) → P s → P (run steps s)
  unfolding run
  run_keeps [] s h = h
  run_keeps (x ∷ rest) s h = run_keeps rest _ (step_keeps x s h)
