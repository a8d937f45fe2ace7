-- ===== src/Dao/Bounds.antt =====
-- The sizes and the timeouts of daos stay in range over any history.
use akropolis_os_chain_node.Common.{
  ℕ, ◌+◌, ◌≤◌, ◌≡◌, Bool, true, Option, none, some, List, arith, inl, inr, unwrap_or, sym, refl,
  subst, Bool-cases, ◌==◌, ◌&&◌, false,
}
use akropolis_os_chain_node.Common.Maps.{update₂}
use akropolis_os_chain_node.Common.Action.{Action, gets, ◌>>=◌}
use akropolis_os_chain_node.Common.Keeps.{
  Keeps, Keeps-zoom, Keeps-bind, Keeps-modify, Keeps-pure, Keeps-read, Keeps-if, keeps_rules,
}
use akropolis_os_chain_node.Origin.{Origin}
use akropolis_os_chain_node.Types
use akropolis_os_chain_node.Types.{Proposal, Dao, default_proposal}
use akropolis_os_chain_node.Token
use akropolis_os_chain_node.Marketplace
use akropolis_os_chain_node.Dao.State.{
  Storage, Event, deposit_event, set_proposal, add_vote, on_token, on_marketplace,
  minimum_vote_timeout, maximum_vote_timeout,
}
use akropolis_os_chain_node.Dao.Members.{add_member, remove_member}
use akropolis_os_chain_node.Dao.Execution.{
  execute_action, execute_proposal, propose_investment, mint_loan_tokens, change_timeout,
  change_maximum_number_of_members, close_proposal,
}
use akropolis_os_chain_node.Dao.Proposals.{open_proposal, store_proposal}
use akropolis_os_chain_node.Dao.Calls.{
  store_dao, count_vote, announce, settle_proposal, conclude_vote, vote, expire_proposal,
}
use akropolis_os_chain_node.Dao.Admission.{vote_cases}
use akropolis_os_chain_node.Dao.Invariant.{Invariant}
use akropolis_os_chain_node.Dao.Run.{Step, run, run_keeps}

-- A proposal asks for no timeout out of range, and for no more members than `maximum`.
abbrev pub IsAllowed : ℕ → Types.Action → Type 0
IsAllowed maximum (Types.Action.change_timeout id v) =
    (minimum_vote_timeout ≤ v) × (v ≤ maximum_vote_timeout)
IsAllowed maximum (Types.Action.change_maximum_number_of_members id v) = v ≤ maximum
IsAllowed maximum _ = Unit

update₂-IsAllowed :
    (maximum : ℕ) (proposals : ℕ → ℕ → Option Proposal) (d n : ℕ) (p : Proposal)
    → IsAllowed maximum p.action
    → ((i j : ℕ) (q : Proposal) → proposals i j ≡ some q → IsAllowed maximum q.action)
    → (i j : ℕ) (q : Proposal) → update₂ proposals d n (some p) i j ≡ some q
    → IsAllowed maximum q.action
update₂-IsAllowed maximum proposals d n p allowed asked i j q e =
    elim (Bool-cases (d == i && n == j)) [
      | inl here ↦
          let same : p ≡ q = ground arith in
          subst (λ (x : Proposal). IsAllowed maximum x.action) same allowed
      | inr elsewhere ↦ asked i j q (ground arith)
    ]

module _ {C : Type 0} (maximum : ℕ) where
  -- No dao has, or allows, more than `maximum` members, the timeout of each dao is in range, and
  -- no stored proposal would change that.
  abbrev pub IsBounded : Storage C → Type 0
  IsBounded s =
      (s.maximum_number_of_members ≡ maximum)
      × ((d : ℕ) → s.members_count d ≤ maximum)
      × ((d : ℕ) → s.dao_maximum_number_of_members d ≤ maximum)
      × ((d : ℕ) (dao : Dao)
          → s.daos d ≡ some dao
          → (minimum_vote_timeout ≤ s.dao_timeouts d) × (s.dao_timeouts d ≤ maximum_vote_timeout))
      × ((d n : ℕ) (p : Proposal) → s.dao_proposals d n ≡ some p → IsAllowed maximum p.action)

  add_member-IsBounded : (d account : ℕ) → Keeps IsBounded (add_member d account)
  unfolding add_member
  add_member-IsBounded d account = record {
    at = λ s (m, size, most, time, asked). (
      ground arith,
      λ i. ground (arith, size i, most i),
      λ i. ground (arith, most i),
      λ i dao e. ground (arith, time i dao),
      λ i n p e. asked i n p (ground arith),
    );
  }

  remove_member-IsBounded : (d account : ℕ) → Keeps IsBounded (remove_member d account)
  unfolding remove_member
  remove_member-IsBounded d account = record {
    at = λ s (m, size, most, time, asked). (
      ground arith,
      λ i. ground (arith, size i),
      λ i. ground (arith, most i),
      λ i dao e. ground (arith, time i dao),
      λ i n p e. asked i n p (ground arith),
    );
  }

  change_timeout-IsBounded :
      (d v : ℕ)
      → (minimum_vote_timeout ≤ v) × (v ≤ maximum_vote_timeout)
      → Keeps IsBounded (change_timeout d v)
  unfolding change_timeout
  change_timeout-IsBounded d v range = Keeps-modify _ λ s (m, size, most, time, asked).
      (m, size, most, λ i dao e. ground (arith, time i dao), asked)

  change_maximum-IsBounded :
      (d v : ℕ) → v ≤ maximum → Keeps IsBounded (change_maximum_number_of_members d v)
  unfolding change_maximum_number_of_members
  change_maximum-IsBounded d v fits =
      Keeps-modify _
        λ s (m, size, most, time, asked). (m, size, λ i. ground (arith, most i), time, asked)

  set_proposal-IsBounded :
      (d n : ℕ) (p : Proposal) → IsAllowed maximum p.action → Keeps IsBounded (set_proposal d n p)
  unfolding set_proposal
  set_proposal-IsBounded d n p allowed = Keeps-modify _ λ s (m, size, most, time, asked).
      (m, size, most, time, update₂-IsAllowed maximum s.dao_proposals d n p allowed asked)

  add_vote-IsBounded : (d n i voter count : ℕ) → Keeps IsBounded (add_vote d n i voter count)
  unfolding add_vote
  add_vote-IsBounded d n i voter count = Keeps-modify _ λ s h. h

  deposit_event-IsBounded : (e : Event) → Keeps IsBounded (deposit_event e)
  unfolding deposit_event
  deposit_event-IsBounded e = Keeps-modify _ λ s h. h

  close_proposal-IsBounded :
      (d n : ℕ) (p : Proposal) (accepted : Bool)
      → IsAllowed maximum p.action
      → Keeps IsBounded (close_proposal d n p accepted)
  unfolding close_proposal
  close_proposal-IsBounded d n p accepted allowed =
      let closed : Proposal = record p { is_open = false; accepted = accepted } in
      let stored = set_proposal-IsBounded d n closed allowed in
      search (keeps_rules, stored) depth 20

  store_proposal-IsBounded :
      (d n count : ℕ) (a : Types.Action) (deadline hash : ℕ)
      → IsAllowed maximum a
      → Keeps IsBounded (store_proposal d n count a deadline hash)
  unfolding store_proposal
  store_proposal-IsBounded d n count a deadline hash allowed =
      Keeps-modify _ λ s (m, size, most, time, asked).
        (m, size, most, time, update₂-IsAllowed maximum s.dao_proposals d n _ allowed asked)

  open_proposal-IsBounded :
      (d : ℕ) (a : Types.Action) (deadline hash : ℕ)
      → IsAllowed maximum a
      → Keeps IsBounded (open_proposal d a deadline hash)
  unfolding open_proposal
  open_proposal-IsBounded d a deadline hash allowed =
      search (keeps_rules, store_proposal-IsBounded) depth 20

  store_dao-IsBounded :
      (id hash count : ℕ) (dao : Dao) → 1 ≤ maximum → Keeps IsBounded (store_dao id count hash dao)
  unfolding store_dao
  store_dao-IsBounded id hash count dao some_member =
      Keeps-modify _ λ s (m, size, most, time, asked). (
        m,
        λ i. ground (arith, size i),
        λ i. ground (arith, most i),
        λ i found e. ground (arith, time i found),
        asked,
      )

  on_token-IsBounded : {A : Type 0} (m : Action Token.Storage A) → Keeps IsBounded (on_token m)
  unfolding on_token
  on_token-IsBounded m = Keeps-zoom _ _ m (λ t s h. h)

  on_marketplace-IsBounded :
      {A : Type 0} (m : Action Marketplace.Storage A) → Keeps IsBounded (on_marketplace m)
  unfolding on_marketplace
  on_marketplace-IsBounded m = Keeps-zoom _ _ m (λ t s h. h)

  propose_investment-IsBounded :
      (d : ℕ) (description : List ℕ) (days rate token_id v : ℕ)
      → Keeps IsBounded (propose_investment d description days rate token_id v)
  unfolding propose_investment mint_loan_tokens
  propose_investment-IsBounded d description days rate token_id v =
      search (keeps_rules, on_token-IsBounded, on_marketplace-IsBounded) depth 20

  execute_action-IsBounded :
      (d : ℕ) (a : Types.Action) → IsAllowed maximum a → Keeps IsBounded (execute_action d a)
  unfolding execute_action
  execute_action-IsBounded d Types.Action.empty_action allowed = Keeps-pure tt
  execute_action-IsBounded d (Types.Action.add_member m) allowed = add_member-IsBounded d m
  execute_action-IsBounded d (Types.Action.remove_member m) allowed = remove_member-IsBounded d m
  execute_action-IsBounded d (Types.Action.get_loan text days rate token v) allowed =
      propose_investment-IsBounded d text days rate token v
  execute_action-IsBounded d (Types.Action.change_timeout id v) allowed =
      change_timeout-IsBounded id v allowed
  execute_action-IsBounded d (Types.Action.change_maximum_number_of_members id v) allowed =
      change_maximum-IsBounded id v allowed

  execute_proposal-IsBounded :
      (p : Proposal) → IsAllowed maximum p.action → Keeps IsBounded (execute_proposal p)
  unfolding execute_proposal
  execute_proposal-IsBounded p allowed = execute_action-IsBounded p.dao_id p.action allowed

  settle_proposal-IsBounded :
      (d n : ℕ) (p : Proposal) (accepted is_decided : Bool)
      → IsAllowed maximum p.action
      → Keeps IsBounded (settle_proposal d n p accepted is_decided)
  unfolding settle_proposal
  settle_proposal-IsBounded d n p accepted is_decided allowed =
      let executed = execute_proposal-IsBounded p allowed in
      let stored = set_proposal-IsBounded d n p allowed in
      let closed = close_proposal-IsBounded d n p accepted allowed in
      Keeps-bind _ _ (Keeps-if accepted _ _ executed (Keeps-pure tt))
        λ _. Keeps-if is_decided _ _ closed stored

  announce-IsBounded : (d n : ℕ) (a b c : Bool) → Keeps IsBounded (announce d n a b c)
  unfolding announce
  announce-IsBounded d n a b c = search (keeps_rules, deposit_event-IsBounded) depth 20

  conclude_vote-IsBounded :
      (voter d n : ℕ) (v : Bool) (count new_count : ℕ) (p : Proposal)
      → IsAllowed maximum p.action
      → Keeps IsBounded (conclude_vote voter d n v count new_count p)
  unfolding conclude_vote
  conclude_vote-IsBounded voter d n v count new_count p allowed =
      search
        (
          keeps_rules, settle_proposal-IsBounded, announce-IsBounded, add_vote-IsBounded,
          deposit_event-IsBounded,
        )
        depth 30

  vote-IsBounded : (o : Origin) (d n : ℕ) (v : Bool) → Keeps IsBounded (vote o d n v)
  vote-IsBounded o d n v = record {
    at = λ s h. elim (vote_cases o d n v s) [
      | inl same ↦ subst IsBounded (sym same) h
      | inr (voter, stored, e, _, _, _, same) ↦
          let count = s.dao_proposals_votes_count d n in
          let allowed = h.4 d n stored e in
          subst (λ x. IsBounded x.1) (sym same)
            ((conclude_vote-IsBounded voter d n v count (count + 1) (count_vote stored v)
                (counted v stored allowed)).at
              s h)
    ];
  }
    where
      counted :
          (v : Bool) (p : Proposal)
          → IsAllowed maximum p.action
          → IsAllowed maximum (count_vote p v).action
      counted true p allowed = allowed
      counted false p allowed = allowed

  read_proposal-IsBounded :
      (d n : ℕ) (next : Proposal → Action (Storage C) Unit)
      → ((p : Proposal) → IsAllowed maximum p.action → Keeps IsBounded (next p))
      → Keeps IsBounded (gets (λ s. unwrap_or (s.dao_proposals d n) default_proposal) >>= next)
  read_proposal-IsBounded d n next kept =
      Keeps-read _ next λ s h. kept _ (stored (s.dao_proposals d n) (h.4 d n))
    where
      stored :
          (found : Option Proposal)
          → ((p : Proposal) → found ≡ some p → IsAllowed maximum p.action)
          → IsAllowed maximum (unwrap_or found default_proposal).action
      stored none asked = tt
      stored (some p) asked = asked p refl

  expire_proposal-IsBounded : (n : ℕ) → Keeps IsBounded (expire_proposal n)
  unfolding expire_proposal
  expire_proposal-IsBounded n =
      search
        (read_proposal-IsBounded, keeps_rules, close_proposal-IsBounded, deposit_event-IsBounded)
        depth 30

  pub IsBounded-Invariant : 1 ≤ maximum → Invariant (IsAllowed maximum) IsBounded
  IsBounded-Invariant some_member = record {
    on_outside = λ c t p m s h. h;
    on_events = λ x s h. h;
    on_open_dao_proposals = λ x s h. h;
    on_store_dao = λ id hash count dao. store_dao-IsBounded id hash count dao some_member;
    on_open = open_proposal-IsBounded;
    on_vote = vote-IsBounded;
    on_expire = expire_proposal-IsBounded;
    allows_add = λ member. tt;
    allows_remove = λ member. tt;
    allows_loan = λ d days rate token v. tt;
    allows_timeout = λ id v least greatest. (least, greatest);
    allows_maximum = λ id v s h fits. rw (← h.0) fits;
  }

-- Over any history, from a state in which sizes and timeouts are in range, no dao ever has more
-- members than the configured maximum, none allows more, and the timeout of each dao stays between
-- the least and the greatest one.
pub run-IsBounded :
    {C : Type 0} (maximum : ℕ) (steps : List (Step C)) (s : Storage C)
    → 1 ≤ maximum
    → IsBounded maximum s
    → IsBounded maximum (run steps s)
run-IsBounded maximum steps s some_member h =
    run_keeps (IsBounded-Invariant maximum some_member) steps s h
