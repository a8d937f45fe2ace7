-- ===== src/Dao/Ballots.antt =====
-- Votes on the proposals of daos.
use akropolis_os_chain_node.Common.{
  ℕ, ◌+◌, ◌≡◌, Bool, true, false, not, ◌||◌, List, none, some, Option-cases, inl, inr, arith, refl,
  sym, ap, ◌∙◌, is_some, leb, if◌then◌else◌,
}
use akropolis_os_chain_node.Common.Words.{u64_mod, wrapping_add}
use akropolis_os_chain_node.Common.Action.{Action, ok, returns}
use akropolis_os_chain_node.Common.Keeps.{Keeps, Keeps-zoom, keeps_rules}
use akropolis_os_chain_node.Token
use akropolis_os_chain_node.Marketplace
use akropolis_os_chain_node.Origin.{signed}
use akropolis_os_chain_node.Types
use akropolis_os_chain_node.Types.{Proposal}
use akropolis_os_chain_node.Votes.{votes_are_enough}
use akropolis_os_chain_node.Dao.State.{
  Storage, Event, deposit_event, add_vote, on_token, on_marketplace,
}
use akropolis_os_chain_node.Dao.Execution.{
  execute_action, execute_proposal, propose_investment, mint_loan_tokens, change_timeout,
  change_maximum_number_of_members,
}
use akropolis_os_chain_node.Dao.Members.{add_member, remove_member}
use akropolis_os_chain_node.Dao.Calls.{count_vote, settle_proposal, announce, conclude_vote, vote}

-- What `vote` leaves of the proposal: it is closed when it is decided, and then accepted or not.
abbrev pub decided : Proposal → Bool → Bool → Proposal
decided p is_accepted is_decided =
    if is_decided then record p { is_open = false; accepted = is_accepted } else p

-- Whether the members who voted for, or against, or all who voted, decide a proposal.
abbrev pub is_decided : Proposal → ℕ → Bool
is_decided p members_count =
    votes_are_enough p.yes_count members_count
    || (votes_are_enough p.no_count members_count
        || leb members_count (wrapping_add u64_mod p.yes_count p.no_count))

-- How a vote and its decision are written into the proposal.
decided_count :
    (p : Proposal) (v : Bool) (n : ℕ)
    → let yes = if v then wrapping_add u64_mod p.yes_count 1 else p.yes_count in
      let no = if v then p.no_count else wrapping_add u64_mod p.no_count 1 in
      let accepts = votes_are_enough yes n in
      let closes = accepts || (votes_are_enough no n || leb n (wrapping_add u64_mod yes no)) in
      let q = count_vote p v in
      p.is_open ≡ true
      → decided q (votes_are_enough q.yes_count n) (is_decided q n) ≡ record p {
        yes_count = yes;
        no_count = no;
        is_open = not closes;
        accepted = if closes then accepts else p.accepted;
      }
decided_count p true n is_open = ground (arith, is_open)
decided_count p false n is_open = ground (arith, is_open)

module _ {C : Type 0} where
  -- The state agrees with `s` on proposals and on votes.
  abbrev pub SameBallots : Storage C → Storage C → Type 0
  SameBallots s t =
      (t.dao_proposals ≡ s.dao_proposals)
      × (t.dao_proposals_votes_count ≡ s.dao_proposals_votes_count)
      × (t.dao_proposals_votes_index ≡ s.dao_proposals_votes_index)
      × (t.dao_proposals_votes ≡ s.dao_proposals_votes)
      × (t.dao_proposals_count ≡ s.dao_proposals_count)

  on_token-SameBallots :
      (s : Storage C) {A : Type 0} (m : Action Token.Storage A) → Keeps (SameBallots s) (on_token m)
  unfolding on_token
  on_token-SameBallots s m = Keeps-zoom _ _ m (λ t u h. h)

  on_marketplace-SameBallots :
      (s : Storage C) {A : Type 0} (m : Action Marketplace.Storage A)
      → Keeps (SameBallots s) (on_marketplace m)
  unfolding on_marketplace
  on_marketplace-SameBallots s m = Keeps-zoom _ _ m (λ t u h. h)

  propose_investment-SameBallots :
      (dao_id : ℕ) (description : List ℕ) (days rate token_id v : ℕ) (s : Storage C)
      → SameBallots s (propose_investment dao_id description days rate token_id v s).1
  unfolding propose_investment mint_loan_tokens
  propose_investment-SameBallots dao_id description days rate token_id v s =
      let kept : Keeps (SameBallots s)
          (propose_investment dao_id description days rate token_id v) =
        search (keeps_rules, on_token-SameBallots, on_marketplace-SameBallots) depth 20 in
      kept.at s (refl, refl, refl, refl, refl)

  execute_action-SameBallots :
      (dao_id : ℕ) (a : Types.Action) (s : Storage C) → SameBallots s (execute_action dao_id a s).1
  unfolding execute_action add_member remove_member change_timeout change_maximum_number_of_members
  execute_action-SameBallots dao_id Types.Action.empty_action s = ground arith
  execute_action-SameBallots dao_id (Types.Action.add_member member) s = ground arith
  execute_action-SameBallots dao_id (Types.Action.remove_member member) s = ground arith
  execute_action-SameBallots dao_id (Types.Action.get_loan d days rate token v) s =
      propose_investment-SameBallots dao_id d days rate token v s
  execute_action-SameBallots dao_id (Types.Action.change_timeout id v) s = ground arith
  execute_action-SameBallots dao_id (Types.Action.change_maximum_number_of_members id v) s =
      ground arith

  pub execute_proposal-SameBallots :
      (p : Proposal) (s : Storage C) → SameBallots s (execute_proposal p s).1
  unfolding execute_proposal
  execute_proposal-SameBallots p s = execute_action-SameBallots p.dao_id p.action s

  pub announce-SameBallots :
      (dao_id proposal_id : ℕ) (a b c : Bool) (s : Storage C)
      → ((announce dao_id proposal_id a b c s).0 ≡ ok tt)
        × SameBallots s (announce dao_id proposal_id a b c s).1
  unfolding announce
  announce-SameBallots dao_id proposal_id true b c s = ground arith
  announce-SameBallots dao_id proposal_id false true c s = ground arith
  announce-SameBallots dao_id proposal_id false false true s = ground arith
  announce-SameBallots dao_id proposal_id false false false s = ground arith

  settle_proposal-ok :
      (dao_id proposal_id : ℕ) (p : Proposal) (a b : Bool) (s : Storage C)
      → (settle_proposal dao_id proposal_id p a b s).0 ≡ ok tt
      → let t = (settle_proposal dao_id proposal_id p a b s).1 in
        (t.dao_proposals dao_id proposal_id ≡ some (decided p a b))
        × (t.dao_proposals_votes_count ≡ s.dao_proposals_votes_count)
  unfolding settle_proposal
  settle_proposal-ok dao_id proposal_id p true true s h =
      ground (arith, execute_proposal-SameBallots p s)
  settle_proposal-ok dao_id proposal_id p true false s h =
      ground (arith, execute_proposal-SameBallots p s)
  settle_proposal-ok dao_id proposal_id p false true s h = ground arith
  settle_proposal-ok dao_id proposal_id p false false s h = ground arith

  conclude_vote-ok :
      (voter dao_id proposal_id : ℕ) (v : Bool) (count new_count : ℕ) (p : Proposal) (s : Storage C)
      → (conclude_vote voter dao_id proposal_id v count new_count p s).0 ≡ ok tt
      → let t = (conclude_vote voter dao_id proposal_id v count new_count p s).1 in
        let n = s.members_count dao_id in
        (t.dao_proposals dao_id proposal_id
          ≡ some (decided p (votes_are_enough p.yes_count n) (is_decided p n)))
        × (t.dao_proposals_votes_count dao_id proposal_id ≡ new_count)
        × (t.dao_proposals_votes_index dao_id proposal_id voter ≡ some count)
  unfolding conclude_vote
  conclude_vote-ok voter dao_id proposal_id v count new_count p s h =
      let n = s.members_count dao_id in
      let yes = votes_are_enough p.yes_count n in
      let t = (settle_proposal dao_id proposal_id p yes (is_decided p n) s).1 in
      let u =
        (deposit_event (Event.new_vote dao_id proposal_id voter v)
          (add_vote dao_id proposal_id count voter new_count t).1).1 in
      ground (
        arith,
        settle_proposal-ok dao_id proposal_id p yes (is_decided p n) s,
        announce-SameBallots dao_id proposal_id yes (votes_are_enough p.no_count n)
            (leb n (wrapping_add u64_mod p.yes_count p.no_count)) u,
      )

  -- Who is on record for a proposal cannot vote on it.
  vote_on_record :
      (voter dao_id proposal_id : ℕ) {count : ℕ} (w : Bool) (t : Storage C)
      → t.dao_proposals_votes_index dao_id proposal_id voter ≡ some count
      → (returns (vote (signed voter) dao_id proposal_id w t) ≡ false)
        × ((vote (signed voter) dao_id proposal_id w t).1 ≡ t)
  unfolding vote
  vote_on_record voter dao_id proposal_id w t h = ground arith

  vote_stored :
      (voter dao_id proposal_id : ℕ) (v : Bool) (s : Storage C)
      → (vote (signed voter) dao_id proposal_id v s).0 ≡ ok tt
      → (stored : Proposal) × (s.dao_proposals dao_id proposal_id ≡ some stored)
  unfolding vote
  vote_stored voter dao_id proposal_id v s h =
      elim (Option-cases (s.dao_proposals dao_id proposal_id)) [
        | inl missing ↦ absurd (ground arith)
        | inr found ↦ found
      ]

  vote_checks :
      (voter dao_id proposal_id : ℕ) (v : Bool) (s : Storage C) (stored : Proposal)
      → s.dao_proposals dao_id proposal_id ≡ some stored
      → (vote (signed voter) dao_id proposal_id v s).0 ≡ ok tt
      → let count = s.dao_proposals_votes_count dao_id proposal_id in
        (stored.is_open ≡ true)
        × (is_some (s.dao_members dao_id voter) ≡ true)
        × (s.dao_proposals_votes_index dao_id proposal_id voter ≡ none)
        × (vote (signed voter) dao_id proposal_id v s
            ≡ conclude_vote voter dao_id proposal_id v count (count + 1) (count_vote stored v) s)
  unfolding vote
  vote_checks voter dao_id proposal_id v s stored e h = ground arith

  -- A vote that is counted was on an open proposal, by a member who had not voted on it. It adds one
  -- to the votes for the proposal, or to those against it. The proposal is closed exactly when the
  -- votes for it or those against it are enough of the members, or as many as the members voted; then
  -- it is accepted exactly when those for it are enough. Nothing else of it changes, and the voter is
  -- on record. Counts wrap around as a `u64`.
  pub vote-ok :
      (voter dao_id proposal_id : ℕ) (v : Bool) (s : Storage C)
      → (vote (signed voter) dao_id proposal_id v s).0 ≡ ok tt
      → let t = (vote (signed voter) dao_id proposal_id v s).1 in
        let n = s.members_count dao_id in
        let count = s.dao_proposals_votes_count dao_id proposal_id in
        (stored : Proposal) × (s.dao_proposals dao_id proposal_id ≡ some stored)
        × (stored.is_open ≡ true)
        × (is_some (s.dao_members dao_id voter) ≡ true)
        × (s.dao_proposals_votes_index dao_id proposal_id voter ≡ none)
        × (t.dao_proposals dao_id proposal_id ≡ (
            let yes = if v then wrapping_add u64_mod stored.yes_count 1 else stored.yes_count in
            let no = if v then stored.no_count else wrapping_add u64_mod stored.no_count 1 in
            let accepts = votes_are_enough yes n in
            let closes =
              accepts || (votes_are_enough no n || leb n (wrapping_add u64_mod yes no)) in
            some (record stored {
              yes_count = yes;
              no_count = no;
              is_open = not closes;
              accepted = if closes then accepts else stored.accepted;
            })))
        × (t.dao_proposals_votes_count dao_id proposal_id ≡ count + 1)
        × (t.dao_proposals_votes_index dao_id proposal_id voter ≡ some count)
  vote-ok voter dao_id proposal_id v s h =
      let (stored, e) = vote_stored voter dao_id proposal_id v s h in
      let (is_open, member, fresh, same) = vote_checks voter dao_id proposal_id v s stored e h in
      let count = s.dao_proposals_votes_count dao_id proposal_id in
      let done =
        conclude_vote-ok voter dao_id proposal_id v count (count + 1) (count_vote stored v) s
          (sym (ap (λ r. r.0) same) ∙ h) in
      let state = ap (λ r. r.1) same in
      (
        stored,
        e,
        is_open,
        member,
        fresh,
        ap (λ t. t.dao_proposals dao_id proposal_id) state
            ∙ done.0
            ∙ ap (λ p. some p) (decided_count stored v (s.members_count dao_id) is_open),
        ap (λ t. t.dao_proposals_votes_count dao_id proposal_id) state ∙ done.1,
        ap (λ t. t.dao_proposals_votes_index dao_id proposal_id voter) state ∙ done.2,
      )

  -- After a vote that is counted the voter cannot vote on the proposal again: the call fails and
  -- changes nothing.
  pub vote-vote :
      (voter dao_id proposal_id : ℕ) (v w : Bool) (s : Storage C)
      → (vote (signed voter) dao_id proposal_id v s).0 ≡ ok tt
      → let t = (vote (signed voter) dao_id proposal_id v s).1 in
        (returns (vote (signed voter) dao_id proposal_id w t) ≡ false)
        × ((vote (signed voter) dao_id proposal_id w t).1 ≡ t)
  vote-vote voter dao_id proposal_id v w s h =
      let (stored, _, _, _, _, _, _, index) = vote-ok voter dao_id proposal_id v s h in
      vote_on_record voter dao_id proposal_id w (vote (signed voter) dao_id proposal_id v s).1 index
