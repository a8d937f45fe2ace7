-- ===== src/Bridge/Voters.antt =====
-- Who voted on a transfer: the votes that are counted are those of validators on record.
use akropolis_os_chain_node.Common.{
  ℕ, take, length-take, ◌≡◌, Bool, true, false, List, [], ◌∷◌, arith, contains, refl, length, ap,
  ◌∙◌, sym, subst, ◌==◌, Bool-cases, inl, inr, ◌⊎◌,
}
use akropolis_os_chain_node.Common.Words.{u64_mod, wrapping_add}
use akropolis_os_chain_node.Common.Action.{Outcome, for_each, ◌>>=◌, proceed, ok, err, panicked}
use akropolis_os_chain_node.Common.Keeps.{Keeps, keeps_rules}
use akropolis_os_chain_node.Origin.{Origin}
use akropolis_os_chain_node.Types.{Kind, BridgeTransfer}
use akropolis_os_chain_node.Votes.{votes_are_enough}
use akropolis_os_chain_node.Bridge.State.{Storage, Env, set_validator_vote, set_bridge_transfer}
use akropolis_os_chain_node.Bridge.Messages.{
  create_transfer, reopen_for_burn_confirmation, reopen_if_final, reopen_transfer,
}
use akropolis_os_chain_node.Bridge.Sign.{sign, sign_transfer, decide, record_vote}
use akropolis_os_chain_node.Bridge.Invariant.{Frame}
use akropolis_os_chain_node.Bridge.Invariant.Calls.{Rules, decide-Keeps}
use akropolis_os_chain_node.Bridge.Trust.{AreTrusted, AreTrusted-IsKept, sign-AreTrusted}
use akropolis_os_chain_node.Bridge.Run.{Call, IsTrusted, run, run_keeps, dispatch_kept}
use akropolis_os_chain_node.Bridge.Counted.{
  AllVoted, Counted, Counted-less, Counted-zero, Counted-suc, AllVoted-take, AllVoted-contains,
}
use akropolis_os_chain_node.Bridge.Quorum.{sign-ok}

abbrev pub IsCounted : Storage → Type 0
IsCounted s = (id : ℕ) → Counted (s.validator_votes id) (s.bridge_transfers id).votes

-- What no step before the vote itself writes.
abbrev SameVotes : Storage → Storage → Type 0
SameVotes s t = (t.validator_votes ≡ s.validator_votes) × (t.bridge_transfers ≡ s.bridge_transfers)

SameVotes-Frame : (s : Storage) → Frame (SameVotes s)
SameVotes-Frame s = record {
  on_token = λ t x h. h;
  on_bridge_is_operational = λ t x h. h;
  on_bridge_messages = λ t x h. h;
  on_limit_messages = λ t x h. h;
  on_current_limits = λ t x h. h;
  on_current_pending_burn = λ t x h. h;
  on_current_pending_mint = λ t x h. h;
  on_transfer_messages = λ t x h. h;
  on_daily_holds = λ t x h. h;
  on_daily_limits = λ t x h. h;
  on_daily_blocked = λ t x h. h;
  on_quorum = λ t x h. h;
  on_validators_count = λ t x h. h;
  on_validator_history = λ t x h. h;
  on_events = λ t x h. h;
  on_validators = λ t a h. h;
}

IsCounted-Frame : Frame IsCounted
IsCounted-Frame = record {
  on_token = λ t x h. h;
  on_bridge_is_operational = λ t x h. h;
  on_bridge_messages = λ t x h. h;
  on_limit_messages = λ t x h. h;
  on_current_limits = λ t x h. h;
  on_current_pending_burn = λ t x h. h;
  on_current_pending_mint = λ t x h. h;
  on_transfer_messages = λ t x h. h;
  on_daily_holds = λ t x h. h;
  on_daily_limits = λ t x h. h;
  on_daily_blocked = λ t x h. h;
  on_quorum = λ t x h. h;
  on_validators_count = λ t x h. h;
  on_validator_history = λ t x h. h;
  on_events = λ t x h. h;
  on_validators = λ t a h. h;
}

create_transfer-IsCounted : (hash : ℕ) (kind : Kind) → Keeps IsCounted (create_transfer hash kind)
unfolding create_transfer
create_transfer-IsCounted hash kind = record {
  at = λ s h id.
      let t = (create_transfer hash kind s).1 in
      Counted-less (s.validator_votes id) (t.validator_votes id) _ _ (λ a v. ground arith)
        (ground arith) (h id);
}

for_each_cleared :
    (accounts : List ℕ) (id : ℕ) (s : Storage)
    → let t = (for_each accounts (λ a. set_validator_vote id a false) s).1 in
      (t.bridge_transfers ≡ s.bridge_transfers)
      × ((i a : ℕ) → (i == id) ≡ false → t.validator_votes i a ≡ s.validator_votes i a)
unfolding for_each set_validator_vote
for_each_cleared [] id s = (refl, λ i a h. refl)
for_each_cleared (x ∷ accounts) id s =
    let t = (set_validator_vote id x false s).1 in
    let (transfers, votes) = for_each_cleared accounts id t in
    (transfers, λ i a h. ground (arith, votes i a h))

reopen_transfer-IsCounted : (id : ℕ) (t : BridgeTransfer) → Keeps IsCounted (reopen_transfer id t)
unfolding reopen_transfer set_bridge_transfer ◌>>=◌
reopen_transfer-IsCounted id t = record {
  at = λ s h i.
      let u = (set_bridge_transfer id (record t { votes = 0; is_open = true }) s).1 in
      let (transfers, votes) = for_each_cleared s.validator_accounts id u in
      let w = (for_each s.validator_accounts (λ a. set_validator_vote id a false) u).1 in
      elim (Bool-cases (i == id)) [
        | inl same ↦ Counted-zero (w.validator_votes i) _ (ground (arith, transfers))
        | inr other ↦
            Counted-less (s.validator_votes i) (w.validator_votes i) _ _
              (λ a v. votes i a other ∙ v) (ground (arith, transfers)) (h i)
      ];
}

reopen-IsCounted : (hash : ℕ) → Keeps IsCounted (reopen_for_burn_confirmation hash)
unfolding reopen_for_burn_confirmation reopen_if_final
reopen-IsCounted hash = search (keeps_rules, reopen_transfer-IsCounted) depth 20

record_vote-IsCounted :
    (who id : ℕ) (stays_open : Bool) (s u : Storage)
    → IsCounted s
    → SameVotes s u
    → s.validator_votes id who ≡ false
    → let t = s.bridge_transfers id in
      let v = wrapping_add u64_mod t.votes 1 in
      IsCounted (record_vote who id (record t { votes = v; is_open = stays_open }) u).1
unfolding record_vote set_validator_vote set_bridge_transfer
record_vote-IsCounted who id stays_open s u counted (votes, transfers) missing i =
    let t = s.bridge_transfers id in
    let v = wrapping_add u64_mod t.votes 1 in
    let w = (record_vote who id (record t { votes = v; is_open = stays_open }) u).1 in
    elim (Bool-cases (i == id)) [
      | inl same ↦
          Counted-suc (s.validator_votes id) (w.validator_votes i) who t.votes _ missing
            (ground arith) (λ a y. ground (arith, votes)) (ground arith) (counted id)
      | inr other ↦
          Counted-less (s.validator_votes i) (w.validator_votes i) _ _
            (λ a y. ground (arith, votes)) (ground (arith, transfers)) (counted i)
    ]

SameVotes-IsCounted : (s u : Storage) → SameVotes s u → IsCounted s → IsCounted u
SameVotes-IsCounted s u (votes, transfers) counted id =
    Counted-less (s.validator_votes id) (u.validator_votes id) _ _ (λ a y. ground (arith, votes))
      (ground (arith, transfers)) (counted id)

proceed-record_vote :
    (who id : ℕ) (s : Storage) (decided : Outcome Bool) (u : Storage)
    → IsCounted s
    → SameVotes s u
    → s.validator_votes id who ≡ false
    → let t = s.bridge_transfers id in
      let v = wrapping_add u64_mod t.votes 1 in
      IsCounted
        (proceed decided (λ b. record_vote who id (record t { votes = v; is_open = b })) u).1
proceed-record_vote who id s (ok b) u counted same missing =
    record_vote-IsCounted who id b s u counted same missing
proceed-record_vote who id s (err e) u counted same missing = SameVotes-IsCounted s u same counted
proceed-record_vote who id s panicked u counted same missing = SameVotes-IsCounted s u same counted

sign_cases :
    (who id : ℕ) (s : Storage)
    → let t = s.bridge_transfers id in
      let v = wrapping_add u64_mod t.votes 1 in
      let (r, u) = decide id t (votes_are_enough v s.validators_count) s in
      ((sign who id s).1 ≡ s)
      ⊎ ((s.validator_votes id who ≡ false)
          × ((sign who id s).1
              ≡ (proceed r (λ b. record_vote who id (record t { votes = v; is_open = b })) u).1))
unfolding sign sign_transfer ◌>>=◌
sign_cases who id s = ground arith

sign-IsCounted : (who id : ℕ) → Keeps IsCounted (sign who id)
sign-IsCounted who id = record {
  at = λ s h.
      let t = s.bridge_transfers id in
      let enough = votes_are_enough (wrapping_add u64_mod t.votes 1) s.validators_count in
      elim (sign_cases who id s) [
        | inl same ↦ subst IsCounted (sym same) h
        | inr (missing, same) ↦ subst IsCounted (sym same) (
            proceed-record_vote who id s (decide id t enough s).0 (decide id t enough s).1 h
              ((decide-Keeps (SameVotes-Frame s) id t enough).at s (refl, refl)) missing)
      ];
}

pub IsCounted-Rules : Rules IsCounted (λ _. Unit)
IsCounted-Rules = record {
  frame = IsCounted-Frame;
  on_sign = λ validator id _. sign-IsCounted validator id;
  on_reopen = reopen-IsCounted;
  on_create = create_transfer-IsCounted;
}

-- After any history from a state in which the votes are counted and are those of validators, a vote
-- of a validator that succeeds and closes a transfer leaves the votes of different validators on
-- record for it, which are enough for the number of validators at that time.
pub run-sign-voters :
    (calls : List (Env × Origin × Call)) (who id : ℕ) (s : Storage)
    → IsCounted s
    → AreTrusted s
    → let t = run calls s in
      let u = (sign who id t).1 in
      IsTrusted who t
      → (sign who id t).0 ≡ ok tt
      → (u.bridge_transfers id).is_open ≡ false
      → (voters : List ℕ) × AllVoted (u.validator_votes id) voters
        × ((a : ℕ) → contains voters a ≡ true → IsTrusted a u)
        × (votes_are_enough (length voters) t.validators_count ≡ true)
run-sign-voters calls who id s h trusted member succeeds closes =
    let t = run calls s in
    let u = (sign who id t).1 in
    let counted = run_keeps (dispatch_kept IsCounted-Rules) calls s h in
    let (voters, all, few) = (sign-IsCounted who id).at t counted id in
    let n = (u.bridge_transfers id).votes in
    let (was_open, first_vote, votes, recorded, closed) = sign-ok who id t succeeds in
    let exact : length (take n voters) ≡ n = length-take n voters few in
    let enough : votes_are_enough n t.validators_count ≡ true =
      ground (arith, closed, closes, votes) in
    let some_voted = AllVoted-take (u.validator_votes id) n voters all in
    let still = sign-AreTrusted who id t member (run_keeps AreTrusted-IsKept calls s trusted) in
    (
      take n voters,
      some_voted,
      λ a found. still id a (AllVoted-contains (u.validator_votes id) _ a some_voted found),
      ap (λ x. votes_are_enough x t.validators_count) exact ∙ enough,
    )
