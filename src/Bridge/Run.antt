-- ===== src/Bridge/Run.antt =====
-- Histories of the bridge pallet: calls and ends of blocks, in any order and by anyone. What
-- panics leaves the state as it was.
use akropolis_os_chain_node.Common.{ℕ, ◌≡◌, true, List, [], ◌∷◌, some, arith, is_some, sym, ◌∙◌}
use akropolis_os_chain_node.Common.Action.{Action, Outcome, ok, err, panicked}
use akropolis_os_chain_node.Common.Keeps.{Keeps}
use akropolis_os_chain_node.Origin.{Origin, signed}
use akropolis_os_chain_node.Types.{Limits, Kind}
use akropolis_os_chain_node.Bridge.State.{Storage, Env}
use akropolis_os_chain_node.Bridge.Messages.{create_transfer}
use akropolis_os_chain_node.Bridge.Calls
use akropolis_os_chain_node.Bridge.Invariant.{Invariant}
use akropolis_os_chain_node.Bridge.Invariant.Calls.{
  Rules, Rules-of_Invariant, set_transfer-Keeps, multi_signed_mint-Keeps, update_limits-Keeps,
  approve_transfer-Keeps, update_validator_list-Keeps, pause_bridge-Keeps, resume_bridge-Keeps,
  confirm_transfer-Keeps, cancel_transfer-Keeps, on_finalize-Keeps,
}
use akropolis_os_chain_node.Bridge.Index.{IsIndexed, IsIndexed-Invariant, create_transfer-IsIndexed}

-- `Call` of the pallet, and the hook at the end of a block.
pub data Call : Type 0 where
  set_transfer : ℕ → ℕ → ℕ → Call
  multi_signed_mint : ℕ → ℕ → ℕ → ℕ → ℕ → Call
  update_limits : Limits → Call
  approve_transfer : ℕ → Call
  update_validator_list : ℕ → ℕ → List ℕ → Call
  pause_bridge : Call
  resume_bridge : Call
  confirm_transfer : ℕ → Call
  cancel_transfer : ℕ → Call
  on_finalize : Call

unfoldable pub dispatch : Env → Origin → Call → Action Storage Unit
dispatch env o (set_transfer to token_id amount) = Calls.set_transfer env o to token_id amount
dispatch env o (multi_signed_mint id from to token_id amount) =
    Calls.multi_signed_mint o id from to token_id amount
dispatch env o (update_limits l) = Calls.update_limits env o l
dispatch env o (approve_transfer id) = Calls.approve_transfer o id
dispatch env o (update_validator_list id quorum accounts) =
    Calls.update_validator_list o id quorum accounts
dispatch env o pause_bridge = Calls.pause_bridge env o
dispatch env o resume_bridge = Calls.resume_bridge env o
dispatch env o (confirm_transfer id) = Calls.confirm_transfer o id
dispatch env o (cancel_transfer id) = Calls.cancel_transfer o id
dispatch env o on_finalize = Calls.on_finalize env

abbrev pub after : Storage → Outcome (Unit {0}) × Storage → Storage
after s (panicked, _) = s
after _ (_, t) = t

unfoldable pub run : List (Env × Origin × Call) → Storage → Storage
run [] s = s
run ((env, o, c) ∷ rest) s = run rest (after s (dispatch env o c s))

module _ {P : Storage → Type 0} {IsVoter : ℕ → Type 0} (rules : Rules P IsVoter) where
  -- By an origin that is a voter if it signs.
  pub dispatch-Keeps :
      (env : Env) (o : Origin) (c : Call)
      → ((who : ℕ) → o ≡ signed who → IsVoter who)
      → Keeps P (dispatch env o c)
  unfolding dispatch
  dispatch-Keeps env o (set_transfer to token_id amount) v =
      set_transfer-Keeps rules env o to token_id amount
  dispatch-Keeps env o (multi_signed_mint id from to token_id amount) v =
      multi_signed_mint-Keeps rules o v id from to token_id amount
  dispatch-Keeps env o (update_limits l) v = update_limits-Keeps rules o v env l
  dispatch-Keeps env o (approve_transfer id) v = approve_transfer-Keeps rules o v id
  dispatch-Keeps env o (update_validator_list id quorum accounts) v =
      update_validator_list-Keeps rules o v id quorum accounts
  dispatch-Keeps env o pause_bridge v = pause_bridge-Keeps rules o v env
  dispatch-Keeps env o resume_bridge v = resume_bridge-Keeps rules o v env
  dispatch-Keeps env o (confirm_transfer id) v = confirm_transfer-Keeps rules o v id
  dispatch-Keeps env o (cancel_transfer id) v = cancel_transfer-Keeps rules o v id
  dispatch-Keeps env o on_finalize v = on_finalize-Keeps rules env

-- What every call and every end of a block keeps.
abbrev pub IsKept : (Storage → Type 0) → Type 0
IsKept P = (env : Env) (o : Origin) (c : Call) → Keeps P (dispatch env o c)

pub dispatch_kept : {P : Storage → Type 0} → Rules P (λ _. Unit) → IsKept P
dispatch_kept rules env o c = dispatch-Keeps rules env o c (λ who e. tt)

module _ {P : Storage → Type 0} (kept : IsKept P) where
  after_keeps : (s : Storage) (r : Outcome (Unit {0}) × Storage) → P s → P r.1 → P (after s r)
  after_keeps s (ok _, t) h k = k
  after_keeps s (err e, t) h k = k
  after_keeps s (panicked, t) h k = h

  pub run_keeps : (calls : List (Env × Origin × Call)) (s : Storage) → P s → P (run calls s)
  unfolding run
  run_keeps [] s h = h
  run_keeps ((env, o, c) ∷ rest) s h =
      run_keeps rest _ (after_keeps s (dispatch env o c s) h ((kept env o c).at s h))

-- After any history from a state with a sound index, in an empty one for example, the index is
-- sound: each known hash has an id that was given out, and both the map back and the stored
-- transfer have that hash. So no two hashes share an id.
pub run-IsIndexed :
    (calls : List (Env × Origin × Call)) (s : Storage)
    → IsIndexed s
    → IsIndexed (run calls s)
      × ((h k id : ℕ)
          → (run calls s).transfer_id h ≡ some id
          → (run calls s).transfer_id k ≡ some id
          → h ≡ k)
run-IsIndexed calls s v =
    let w =
      run_keeps (dispatch_kept (Rules-of_Invariant IsIndexed-Invariant create_transfer-IsIndexed))
        calls s v in
    (w, λ h k id p q. sym (w h id p).1 ∙ (w k id q).1)

-- The account may call what only validators may.
abbrev pub IsTrusted : ℕ → Storage → Type 0
IsTrusted account s = is_some (s.validators account) ≡ true

pub IsTrusted-Invariant : (account : ℕ) → Invariant (IsTrusted account)
IsTrusted-Invariant account = record {
  frame = record {
    on_token = λ s x h. h;
    on_bridge_is_operational = λ s x h. h;
    on_bridge_messages = λ s x h. h;
    on_limit_messages = λ s x h. h;
    on_current_limits = λ s x h. h;
    on_current_pending_burn = λ s x h. h;
    on_current_pending_mint = λ s x h. h;
    on_transfer_messages = λ s x h. h;
    on_daily_holds = λ s x h. h;
    on_daily_limits = λ s x h. h;
    on_daily_blocked = λ s x h. h;
    on_quorum = λ s x h. h;
    on_validators_count = λ s x h. h;
    on_validator_history = λ s x h. h;
    on_events = λ s x h. h;
    on_validators = λ s a h. ground arith;
  };
  on_validator_votes = λ s x h. h;
  on_bridge_transfers = λ s id t e h. h;
}

pub create_transfer-IsTrusted :
    (account hash : ℕ) (kind : Kind) → Keeps (IsTrusted account) (create_transfer hash kind)
unfolding create_transfer
create_transfer-IsTrusted account hash kind = record { at = λ s h. ground arith }

-- Whoever is a validator once stays one: no history takes an account off, not even one in which the
-- validators agree on a list without it.
pub run-IsTrusted :
    (account : ℕ) (calls : List (Env × Origin × Call)) (s : Storage)
    → IsTrusted account s
    → IsTrusted account (run calls s)
run-IsTrusted account calls s h =
    run_keeps
      (dispatch_kept
        (Rules-of_Invariant (IsTrusted-Invariant account) (create_transfer-IsTrusted account)))
      calls s h
