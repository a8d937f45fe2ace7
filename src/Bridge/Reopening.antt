-- ===== src/Bridge/Reopening.antt =====
-- Votes on a transfer that Ethereum has answered: the votes of which validators are cleared when
-- the transfer is opened again.
use akropolis_os_chain_node.Common.{
  ℕ, ◌≡◌, true, false, List, [], ◌∷◌, some, arith, contains, refl, ap, ◌∙◌,
}
use akropolis_os_chain_node.Common.Action.{ok, returns, for_each, ◌>>=◌}
use akropolis_os_chain_node.Common.Keeps.{Keeps, keeps_rules}
use akropolis_os_chain_node.Origin.{Origin, signed}
use akropolis_os_chain_node.Types.{Kind, Status, BridgeTransfer}
use akropolis_os_chain_node.Bridge.State.{Storage, Env, set_validator_vote, set_bridge_transfer}
use akropolis_os_chain_node.Bridge.Messages.{
  create_transfer, reopen_for_burn_confirmation, reopen_if_final, reopen_transfer, update_status,
}
use akropolis_os_chain_node.Bridge.Sign.{sign, sign_transfer, record_vote}
use akropolis_os_chain_node.Bridge.Quorum.{sign-ok}
use akropolis_os_chain_node.Bridge.Calls.{confirm_transfer}
use akropolis_os_chain_node.Bridge.Invariant.{Frame, Invariant}
use akropolis_os_chain_node.Bridge.Invariant.Calls.{Rules, decide-Keeps, sign-Keeps}
use akropolis_os_chain_node.Bridge.Run.{Call, run, run_keeps, dispatch_kept}

for_each-set_validator_vote :
    (accounts : List ℕ) (i id who : ℕ) (s : Storage)
    → contains accounts who ≡ false
    → let t = (for_each accounts (λ a. set_validator_vote i a false) s).1 in
      (t.validator_votes id who ≡ s.validator_votes id who)
      × (t.validator_accounts ≡ s.validator_accounts)
      × (t.transfer_id ≡ s.transfer_id)
unfolding for_each set_validator_vote
for_each-set_validator_vote [] i id who s h = (refl, refl, refl)
for_each-set_validator_vote (a ∷ accounts) i id who s h =
    let t = (set_validator_vote i a false s).1 in
    let (votes, listed, ids) = for_each-set_validator_vote accounts i id who t (ground arith) in
    (ground (arith, votes), listed, ids)

-- The transfer with the hash has the vote of `who`, and the listed accounts are the ones whose votes
-- are cleared.
abbrev HasVoted : List ℕ → ℕ → ℕ → ℕ → Storage → Type 0
HasVoted accounts who id hash s =
    (s.validator_accounts ≡ accounts)
    × (s.transfer_id hash ≡ some id)
    × (s.validator_votes id who ≡ true)

module _ (accounts : List ℕ) (who id hash : ℕ) where
  HasVoted-Frame : Frame (HasVoted accounts who id hash)
  HasVoted-Frame = record {
    on_token = λ s x h. h;
    on_bridge_is_operational = λ s x h. h;
    on_bridge_messages = λ s x h. h;
    on_limit_messages = λ s x h. h;
    on_current_limits = λ s x h. h;
    on_current_pending_burn = λ s x h. h;
    on_current_pending_mint = λ s x h. h;
    on_transfer_messages = λ s x h. h;
    on_daily_holds = λ s x h. h;
    on_daily_limits = λ s x h. h;
    on_daily_blocked = λ s x h. h;
    on_quorum = λ s x h. h;
    on_validators_count = λ s x h. h;
    on_validator_history = λ s x h. h;
    on_events = λ s x h. h;
    on_validators = λ s a h. h;
  }

  record_vote-HasVoted :
      (validator i : ℕ) (t : BridgeTransfer)
      → Keeps (HasVoted accounts who id hash) (record_vote validator i t)
  unfolding record_vote set_validator_vote set_bridge_transfer
  record_vote-HasVoted validator i t = record {
    at = λ s (listed, known, voted). (listed, known, ground (arith, voted));
  }

  sign-HasVoted : (validator i : ℕ) → Keeps (HasVoted accounts who id hash) (sign validator i)
  unfolding sign sign_transfer
  sign-HasVoted validator i =
      search (keeps_rules, decide-Keeps HasVoted-Frame, record_vote-HasVoted) depth 20

  create_transfer-HasVoted :
      (h : ℕ) (kind : Kind) → Keeps (HasVoted accounts who id hash) (create_transfer h kind)
  unfolding create_transfer
  create_transfer-HasVoted h kind = record {
    at = λ s (listed, known, voted).
        (ground (arith, listed), ground (arith, known), ground (arith, voted));
  }

  module _ (absent : contains accounts who ≡ false) where
    reopen_transfer-HasVoted :
        (i : ℕ) (t : BridgeTransfer) → Keeps (HasVoted accounts who id hash) (reopen_transfer i t)
    unfolding reopen_transfer set_bridge_transfer ◌>>=◌
    reopen_transfer-HasVoted i t = record {
      at = λ s (listed, known, voted).
          let u = (set_bridge_transfer i (record t { votes = 0; is_open = true }) s).1 in
          let (votes, same, ids) =
            for_each-set_validator_vote s.validator_accounts i id who u
              (ap (λ x. contains x who) listed ∙ absent) in
          (same ∙ listed, ap (λ f. f hash) ids ∙ known, votes ∙ voted);
    }

    reopen-HasVoted :
        (h : ℕ) → Keeps (HasVoted accounts who id hash) (reopen_for_burn_confirmation h)
    unfolding reopen_for_burn_confirmation reopen_if_final
    reopen-HasVoted h = search (keeps_rules, reopen_transfer-HasVoted) depth 20

    pub HasVoted-Rules : Rules (HasVoted accounts who id hash) (λ _. Unit)
    HasVoted-Rules = record {
      frame = HasVoted-Frame;
      on_sign = λ validator i _. sign-HasVoted validator i;
      on_reopen = reopen-HasVoted;
      on_create = create_transfer-HasVoted;
    }

sign-voted :
    (who id : ℕ) (s : Storage) → s.validator_votes id who ≡ true → returns (sign who id s) ≡ false
unfolding sign
sign-voted who id s h = ground arith

-- What `confirm_transfer` ends with, after the message has its new status.
reopen_and_sign :
    (accounts : List ℕ) (who id hash : ℕ) (st : Status) (s : Storage)
    → contains accounts who ≡ false
    → HasVoted accounts who id hash s
    → let t = (update_status hash st Kind.transfer s).1 in
      returns (sign who id (reopen_for_burn_confirmation hash t).1) ≡ false
unfolding update_status
reopen_and_sign accounts who id hash st s absent voted =
    let t = (update_status hash st Kind.transfer s).1 in
    let (_, _, still) = (reopen-HasVoted accounts who id hash absent hash).at t voted in
    sign-voted who id _ still

confirm_transfer-voted :
    (accounts : List ℕ) (who id hash : ℕ) (s : Storage)
    → contains accounts who ≡ false
    → HasVoted accounts who id hash s
    → returns (confirm_transfer (signed who) hash s) ≡ false
unfolding confirm_transfer
confirm_transfer-voted accounts who id hash s absent voted =
    let (_, known, _) = voted in
    ground (arith, known, reopen_and_sign accounts who id hash Status.confirmed s absent voted)

-- Votes change neither the list of accounts nor the ids of transfers.
IsKnown-Invariant :
    (accounts : List ℕ) (hash id : ℕ)
    → Invariant (λ s. (s.validator_accounts ≡ accounts) × (s.transfer_id hash ≡ some id))
IsKnown-Invariant accounts hash id = record {
  frame = record {
    on_token = λ s x h. h;
    on_bridge_is_operational = λ s x h. h;
    on_bridge_messages = λ s x h. h;
    on_limit_messages = λ s x h. h;
    on_current_limits = λ s x h. h;
    on_current_pending_burn = λ s x h. h;
    on_current_pending_mint = λ s x h. h;
    on_transfer_messages = λ s x h. h;
    on_daily_holds = λ s x h. h;
    on_daily_limits = λ s x h. h;
    on_daily_blocked = λ s x h. h;
    on_quorum = λ s x h. h;
    on_validators_count = λ s x h. h;
    on_validator_history = λ s x h. h;
    on_events = λ s x h. h;
    on_validators = λ s a h. h;
  };
  on_validator_votes = λ s x h. h;
  on_bridge_transfers = λ s id t e h. h;
}

-- A vote that succeeds is on record.
voted_at :
    (who id hash : ℕ) (s : Storage)
    → s.transfer_id hash ≡ some id
    → (sign who id s).0 ≡ ok tt
    → HasVoted s.validator_accounts who id hash (sign who id s).1
voted_at who id hash s known done =
    let (_, _, _, recorded, _) = sign-ok who id s done in
    let (listed, still) =
      (sign-Keeps (IsKnown-Invariant s.validator_accounts hash id) who id).at s (refl, known) in
    (listed, still, recorded)

-- The list of accounts whose votes are cleared never changes. So a validator who is not in it, and
-- whose vote on a transfer succeeds, has that vote on record after any later history, and cannot
-- confirm the transfer then.
pub run-confirm_transfer :
    (calls : List (Env × Origin × Call)) (who id hash : ℕ) (s : Storage)
    → contains s.validator_accounts who ≡ false
    → s.transfer_id hash ≡ some id
    → (sign who id s).0 ≡ ok tt
    → let t = run calls (sign who id s).1 in
      (t.validator_accounts ≡ s.validator_accounts)
      × (t.validator_votes id who ≡ true)
      × (returns (confirm_transfer (signed who) hash t) ≡ false)
run-confirm_transfer calls who id hash s absent known done =
    let accounts = s.validator_accounts in
    let voted =
      run_keeps (dispatch_kept (HasVoted-Rules accounts who id hash absent)) calls (sign who id s).1
        (voted_at who id hash s known done) in
    (
      voted.0,
      voted.2,
      confirm_transfer-voted accounts who id hash (run calls (sign who id s).1) absent voted,
    )
