-- ===== src/Dao/Tally.antt =====
-- Every vote on a proposal of a dao is counted once: the counts of a proposal and the voters on
-- record agree over any history.
use akropolis_os_chain_node.Common.{
  ℕ, ◌+◌, ◌≤◌, ◌<◌, ◌≡◌, Bool, true, false, none, some, List, arith, ◌⊎◌, inl, inr, unwrap_or, sym,
  refl, ap, subst, leb,
}
use akropolis_os_chain_node.Common.Words.{u64_mod, wrapping_add}
use akropolis_os_chain_node.Common.Maps.{update₂, update₃}
use akropolis_os_chain_node.Common.Action.{ok, returns}
use akropolis_os_chain_node.Common.Keeps.{Keeps, Keeps-modify}
use akropolis_os_chain_node.Origin.{Origin}
use akropolis_os_chain_node.Types
use akropolis_os_chain_node.Types.{Proposal, Dao, default_proposal}
use akropolis_os_chain_node.Votes.{votes_are_enough}
use akropolis_os_chain_node.Dao.State.{Storage, Event, add_vote, deposit_event}
use akropolis_os_chain_node.Dao.Proposals.{open_proposal}
use akropolis_os_chain_node.Dao.Calls.{
  store_dao, count_vote, settle_proposal, conclude_vote, vote, expire_proposal,
}
use akropolis_os_chain_node.Dao.Ballots.{
  SameBallots, decided, is_decided, execute_proposal-SameBallots, announce-SameBallots,
}
use akropolis_os_chain_node.Dao.Admission.{vote_cases}
use akropolis_os_chain_node.Dao.Invariant.{Invariant}
use akropolis_os_chain_node.Dao.Run.{Step, run, run_keeps}

decided-yes : (p : Proposal) (a b : Bool) → (decided p a b).yes_count ≡ p.yes_count
decided-yes p a true = refl
decided-yes p a false = refl

decided-no : (p : Proposal) (a b : Bool) → (decided p a b).no_count ≡ p.no_count
decided-no p a true = refl
decided-no p a false = refl

module _ {C : Type 0} where
  -- The votes for and against a proposal are the voters on record, who are numbered below their
  -- count, each once. A proposal that was not opened has no votes and is not open.
  abbrev pub IsTally : Storage C → ℕ → ℕ → Type 0
  IsTally s d n =
      let count = s.dao_proposals_votes_count d n in
      let p = unwrap_or (s.dao_proposals d n) default_proposal in
      (p.yes_count + p.no_count ≡ count)
      × ((i : ℕ)
          → i < count
          → s.dao_proposals_votes_index d n (s.dao_proposals_votes d n i) ≡ some i)
      × ((voter i : ℕ)
          → s.dao_proposals_votes_index d n voter ≡ some i
          → (i < count) × (s.dao_proposals_votes d n i ≡ voter))
      × (s.dao_proposals_count d ≤ n → count ≡ 0)
      × ((q : Proposal)
          → s.dao_proposals_count d ≤ n
          → s.dao_proposals d n ≡ some q
          → q.is_open ≡ false)

  abbrev pub IsTallied : Storage C → Type 0
  IsTallied s = (d n : ℕ) → IsTally s d n

  open_proposal-IsTallied :
      (dao_id : ℕ) (a : Types.Action) (deadline hash : ℕ)
      → Keeps IsTallied (open_proposal dao_id a deadline hash)
  unfolding open_proposal
  open_proposal-IsTallied dao_id a deadline hash = record {
    at = λ s h d n.
        let (counts, numbered, back, unopened, shut) = h d n in
        (
          ground (arith, counts, unopened),
          λ i l. ground (arith, numbered i),
          λ voter i e. ground (arith, back voter i),
          λ l. ground (arith, unopened),
          λ q l e. ground (arith, shut q),
        );
  }

  store_dao-IsTallied :
      (id hash count : ℕ) (dao : Dao) → Keeps IsTallied (store_dao id count hash dao)
  unfolding store_dao
  store_dao-IsTallied id hash count dao = Keeps-modify _ λ s h. h

  expire_proposal-IsTallied : (proposal_id : ℕ) → Keeps IsTallied (expire_proposal proposal_id)
  unfolding expire_proposal
  expire_proposal-IsTallied proposal_id = record {
    at = λ s h d n.
        let (counts, numbered, back, unopened, shut) = h d n in
        (
          ground (arith, counts),
          λ i l. ground (arith, numbered i),
          λ voter i e. ground (arith, back voter i),
          λ l. ground (arith, unopened),
          λ q l e. ground (arith, shut q),
        );
  }

  -- What is stored of the ballots once the proposal `q` is stored after a vote.
  abbrev Cast : ℕ → ℕ → ℕ → ℕ → Proposal → Storage C → Storage C → Type 0
  Cast voter d n count q s t =
      (t.dao_proposals ≡ update₂ s.dao_proposals d n (some q))
      × (t.dao_proposals_votes_count ≡ update₂ s.dao_proposals_votes_count d n (count + 1))
      × (t.dao_proposals_votes_index ≡ update₃ s.dao_proposals_votes_index d n voter (some count))
      × (t.dao_proposals_votes ≡ update₃ s.dao_proposals_votes d n count voter)
      × (t.dao_proposals_count ≡ s.dao_proposals_count)

  -- What settling a proposal stores of the ballots.
  abbrev Settled : ℕ → ℕ → Proposal → Storage C → Storage C → Type 0
  Settled d n q s t =
      (t.dao_proposals ≡ update₂ s.dao_proposals d n (some q))
      × (t.dao_proposals_votes_count ≡ s.dao_proposals_votes_count)
      × (t.dao_proposals_votes_index ≡ s.dao_proposals_votes_index)
      × (t.dao_proposals_votes ≡ s.dao_proposals_votes)
      × (t.dao_proposals_count ≡ s.dao_proposals_count)

  settle_proposal_cases :
      (d n : ℕ) (p : Proposal) (a b : Bool) (s : Storage C)
      → let r = settle_proposal d n p a b s in
        ((returns r ≡ false) × SameBallots s r.1)
        ⊎ ((r.0 ≡ ok tt) × Settled d n (decided p a b) s r.1)
  unfolding settle_proposal
  settle_proposal_cases d n p true true s = ground (arith, execute_proposal-SameBallots p s)
  settle_proposal_cases d n p true false s = ground (arith, execute_proposal-SameBallots p s)
  settle_proposal_cases d n p false true s = ground arith
  settle_proposal_cases d n p false false s = ground arith

  conclude_vote_cases :
      (voter d n : ℕ) (v : Bool) (count : ℕ) (p : Proposal) (s : Storage C)
      → let t = (conclude_vote voter d n v count (count + 1) p s).1 in
        let m = s.members_count d in
        SameBallots s t
        ⊎ Cast voter d n count (decided p (votes_are_enough p.yes_count m) (is_decided p m)) s t
  unfolding conclude_vote
  conclude_vote_cases voter d n v count p s =
      let m = s.members_count d in
      let yes = votes_are_enough p.yes_count m in
      let t = (settle_proposal d n p yes (is_decided p m) s).1 in
      let u =
        (deposit_event (Event.new_vote d n voter v) (add_vote d n count voter (count + 1) t).1).1 in
      ground (
        arith,
        settle_proposal_cases d n p yes (is_decided p m) s,
        announce-SameBallots d n yes (votes_are_enough p.no_count m)
            (leb m (wrapping_add u64_mod p.yes_count p.no_count)) u,
      )

  same_keeps : (s t : Storage C) → SameBallots s t → IsTallied s → IsTallied t
  same_keeps s t (proposals, count, index, voters, opened) h d n =
      let (counts, numbered, back, unopened, shut) = h d n in
      (
        ground (arith, ap (λ f. f d n) proposals, ap (λ f. f d n) count, counts),
        λ i l. ground (
          arith,
          ap (λ f. f d n) count,
          ap (λ f. f d n i) voters,
          ap (λ f. f d n (s.dao_proposals_votes d n i)) index,
          numbered i,
        ),
        λ a i x. ground (
          arith,
          ap (λ f. f d n) count,
          ap (λ f. f d n i) voters,
          ap (λ f. f d n a) index,
          back a i,
        ),
        λ l. ground (arith, ap (λ f. f d) opened, ap (λ f. f d n) count, unopened),
        λ p l x. ground (arith, ap (λ f. f d) opened, ap (λ f. f d n) proposals, shut p),
      )

  -- A first vote of the voter on an open proposal, when it is stored, keeps the tally.
  Cast-keeps :
      (voter dao_id proposal_id : ℕ) (v : Bool) (stored q : Proposal) (s t : Storage C)
      → IsTallied s
      → s.dao_proposals dao_id proposal_id ≡ some stored
      → stored.is_open ≡ true
      → s.dao_proposals_votes_index dao_id proposal_id voter ≡ none
      → s.dao_proposals_votes_count dao_id proposal_id + 1 < u64_mod
      → q.yes_count ≡ (count_vote stored v).yes_count
      → q.no_count ≡ (count_vote stored v).no_count
      → Cast voter dao_id proposal_id (s.dao_proposals_votes_count dao_id proposal_id) q s t
      → IsTallied t
  Cast-keeps voter dao_id proposal_id v stored q s t h e o fresh fits for against cast d n =
      let (counts, numbered, back, unopened, shut) = h d n in
      let proposal = ap (λ f. f d n) cast.0 in
      let count = ap (λ f. f d n) cast.1 in
      let index = λ (a : ℕ). ap (λ f. f d n a) cast.2 in
      let voters = λ (i : ℕ). ap (λ f. f d n i) cast.3 in
      let opened = ap (λ f. f d) cast.4 in
      (
        ground (arith, proposal, count, counts),
        λ i l.
            ground (
              arith,
              count,
              voters i,
              index (t.dao_proposals_votes d n i),
              numbered i,
              back voter i,
            ),
        λ a i x. ground (arith, count, index a, voters i, back a i),
        λ l. ground (arith, opened, count, unopened, shut stored),
        λ p l x. ground (arith, opened, proposal, shut p, shut stored),
      )

  vote-IsTallied : (o : Origin) (d n : ℕ) (v : Bool) → Keeps IsTallied (vote o d n v)
  vote-IsTallied o d n v = record {
    at = λ s h. elim (vote_cases o d n v s) [
      | inl same ↦ subst IsTallied (sym same) h
      | inr (voter, stored, e, is_open, fresh, fits, same) ↦
          let count = s.dao_proposals_votes_count d n in
          subst (λ x. IsTallied x.1) (sym same)
            (concluded voter d n v stored s h e is_open fresh fits)
    ];
  }
    where
      concluded :
          (voter d n : ℕ) (v : Bool) (stored : Proposal) (s : Storage C)
          → IsTallied s
          → s.dao_proposals d n ≡ some stored
          → stored.is_open ≡ true
          → s.dao_proposals_votes_index d n voter ≡ none
          → s.dao_proposals_votes_count d n + 1 < u64_mod
          → let count = s.dao_proposals_votes_count d n in
            IsTallied (conclude_vote voter d n v count (count + 1) (count_vote stored v) s).1
      concluded voter d n v stored s h e is_open fresh fits =
          let count = s.dao_proposals_votes_count d n in
          let p = count_vote stored v in
          let m = s.members_count d in
          let accepted = votes_are_enough p.yes_count m in
          let q = decided p accepted (is_decided p m) in
          let t = (conclude_vote voter d n v count (count + 1) p s).1 in
          elim (conclude_vote_cases voter d n v count p s) [
            | inl same ↦ same_keeps s t same h
            | inr cast ↦
                Cast-keeps voter d n v stored q s t h e is_open fresh fits
                  (decided-yes p accepted (is_decided p m)) (decided-no p accepted (is_decided p m))
                  cast
          ]

  pub IsTallied-Invariant : Invariant (λ _. Unit) IsTallied
  IsTallied-Invariant = record {
    on_outside = λ c t p m s h. h;
    on_events = λ x s h. h;
    on_open_dao_proposals = λ x s h. h;
    on_store_dao = store_dao-IsTallied;
    on_open = λ d a deadline hash _. open_proposal-IsTallied d a deadline hash;
    on_vote = vote-IsTallied;
    on_expire = expire_proposal-IsTallied;
    allows_add = λ member. tt;
    allows_remove = λ member. tt;
    allows_loan = λ d days rate token v. tt;
    allows_timeout = λ id v least greatest. tt;
    allows_maximum = λ id v s h fits. tt;
  }

-- Over any history, from a state in which it holds, the votes for and against each proposal make up
-- the number of voters on record, who are numbered, each once; and a proposal that was not opened
-- has no votes.
pub run-IsTally :
    {C : Type 0} (steps : List (Step C)) (s : Storage C)
    → ((d n : ℕ) → IsTally s d n)
    → (d n : ℕ) → IsTally (run steps s) d n
run-IsTally steps s h = run_keeps IsTallied-Invariant steps s h
