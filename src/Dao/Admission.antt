-- ===== src/Dao/Admission.antt =====
-- A vote in the dao pallet either fails its checks and changes nothing, or is concluded.
use akropolis_os_chain_node.Common.{
  ℕ, ◌+◌, ◌<◌, ◌≡◌, Bool, true, false, not, ◌&&◌, none, some, Option-cases, Bool-cases, ◌⊎◌, inl,
  inr, arith, refl, is_some, ltb,
}
use akropolis_os_chain_node.Common.Words.{u64_mod}
use akropolis_os_chain_node.Origin.{Origin, signed}
use akropolis_os_chain_node.Types.{Proposal}
use akropolis_os_chain_node.Dao.State.{Storage}
use akropolis_os_chain_node.Dao.Calls.{count_vote, conclude_vote, vote}

module _ {C : Type 0} where
  -- The voter and the proposal pass the checks of `vote`, which goes on to conclude.
  abbrev pub Admitted : Origin → ℕ → ℕ → Bool → Storage C → Type 0
  Admitted o dao_id proposal_id v s =
      let count = s.dao_proposals_votes_count dao_id proposal_id in
      (voter : ℕ) × (stored : Proposal) × (s.dao_proposals dao_id proposal_id ≡ some stored)
      × (stored.is_open ≡ true)
      × (s.dao_proposals_votes_index dao_id proposal_id voter ≡ none)
      × (count + 1 < u64_mod)
      × (vote o dao_id proposal_id v s
          ≡ conclude_vote voter dao_id proposal_id v count (count + 1) (count_vote stored v) s)

  admitted :
      (voter dao_id proposal_id : ℕ) (v : Bool) (s : Storage C) (stored : Proposal)
      → s.dao_proposals dao_id proposal_id ≡ some stored
      → (is_some (s.dao_members dao_id voter)
          && (not (is_some (s.dao_proposals_votes_index dao_id proposal_id voter))
              && (stored.is_open
                  && ltb (s.dao_proposals_votes_count dao_id proposal_id + 1) u64_mod)))
        ≡ true
      → Admitted (signed voter) dao_id proposal_id v s
  unfolding vote
  admitted voter dao_id proposal_id v s stored e h =
      (voter, stored, e, ground arith, ground arith, ground arith, ground arith)

  refused :
      (voter dao_id proposal_id : ℕ) (v : Bool) (s : Storage C) (stored : Proposal)
      → s.dao_proposals dao_id proposal_id ≡ some stored
      → (is_some (s.dao_members dao_id voter)
          && (not (is_some (s.dao_proposals_votes_index dao_id proposal_id voter))
              && (stored.is_open
                  && ltb (s.dao_proposals_votes_count dao_id proposal_id + 1) u64_mod)))
        ≡ false
      → (vote (signed voter) dao_id proposal_id v s).1 ≡ s
  unfolding vote
  refused voter dao_id proposal_id v s stored e h = ground arith

  missing :
      (voter dao_id proposal_id : ℕ) (v : Bool) (s : Storage C)
      → s.dao_proposals dao_id proposal_id ≡ none
      → (vote (signed voter) dao_id proposal_id v s).1 ≡ s
  unfolding vote
  missing voter dao_id proposal_id v s e = ground arith

  pub vote_cases :
      (o : Origin) (dao_id proposal_id : ℕ) (v : Bool) (s : Storage C)
      → ((vote o dao_id proposal_id v s).1 ≡ s) ⊎ Admitted o dao_id proposal_id v s
  unfolding vote
  vote_cases Origin.root dao_id proposal_id v s = inl refl
  vote_cases Origin.unsigned dao_id proposal_id v s = inl refl
  vote_cases (Origin.signed voter) dao_id proposal_id v s =
      elim (Option-cases (s.dao_proposals dao_id proposal_id)) [
        | inl e ↦ inl (missing voter dao_id proposal_id v s e)
        | inr (stored, e) ↦
            elim (Bool-cases (
              is_some (s.dao_members dao_id voter)
              && (not (is_some (s.dao_proposals_votes_index dao_id proposal_id voter))
                  && (stored.is_open
                      && ltb (s.dao_proposals_votes_count dao_id proposal_id + 1) u64_mod)))) [
                        | inl passed ↦ inr (admitted voter dao_id proposal_id v s stored e passed)
                        | inr failed ↦ inl (refused voter dao_id proposal_id v s stored e failed)
                      ]
      ]
