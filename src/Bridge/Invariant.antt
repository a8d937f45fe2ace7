-- ===== src/Bridge/Invariant.antt =====
-- Invariants of the bridge pallet: what a predicate on the storage must survive to be kept by every
-- action and every call.
pub mod Messages
pub mod Calls
pub mod Execute
use akropolis_os_chain_node.Common.{
  ℕ, ◌≡◌, refl, sym, ◌∙◌, arith, Bool, true, false, List, Option, some,
}
use akropolis_os_chain_node.Common.Maps.{update}
use akropolis_os_chain_node.Common.Action.{Action, gets, ◌>>=◌}
use akropolis_os_chain_node.Common.Keeps.{Keeps, Keeps-modify, Keeps-zoom, Keeps-read}
use akropolis_os_chain_node.Types.{
  Limits, BridgeTransfer, TransferMessage, LimitMessage, BridgeMessage, ValidatorMessage, Kind,
  Status,
}
use akropolis_os_chain_node.Token
use akropolis_os_chain_node.Bridge.State.{
  Storage, Event, on_token, set_bridge_transfer, trust_validator, deposit_event, set_bridge_message,
  set_limit_message, set_validator_message, set_transfer_message, set_validator_vote,
  set_operational, set_limits, set_pending_burn, set_pending_mint, set_daily_limit, set_daily_hold,
  set_daily_blocked, set_quorum, set_validators_count,
}
use akropolis_os_chain_node.Bridge.Messages.{create_transfer}

-- `P` survives each write of the pallet, but for those to stored transfers and to votes.
pub record Frame (P : Storage → Type 0) : Type 0 where
  pub on_token : (s : Storage) (x : Token.Storage) → P s → P (record s { token = x })
  pub on_bridge_is_operational :
      (s : Storage) (x : Bool) → P s → P (record s { bridge_is_operational = x })
  pub on_bridge_messages :
      (s : Storage) (x : ℕ → Option BridgeMessage) → P s → P (record s { bridge_messages = x })
  pub on_limit_messages :
      (s : Storage) (x : ℕ → Option LimitMessage) → P s → P (record s { limit_messages = x })
  pub on_current_limits : (s : Storage) (x : Limits) → P s → P (record s { current_limits = x })
  pub on_current_pending_burn :
      (s : Storage) (x : ℕ) → P s → P (record s { current_pending_burn = x })
  pub on_current_pending_mint :
      (s : Storage) (x : ℕ) → P s → P (record s { current_pending_mint = x })
  pub on_transfer_messages :
      (s : Storage) (x : ℕ → Option TransferMessage) → P s → P (record s { transfer_messages = x })
  pub on_daily_holds :
      (s : Storage) (x : ℕ → Option (ℕ × ℕ)) → P s → P (record s { daily_holds = x })
  pub on_daily_limits : (s : Storage) (x : ℕ → ℕ → ℕ) → P s → P (record s { daily_limits = x })
  pub on_daily_blocked :
      (s : Storage) (x : ℕ → ℕ → Option (List ℕ)) → P s → P (record s { daily_blocked = x })
  pub on_quorum : (s : Storage) (x : ℕ) → P s → P (record s { quorum = x })
  pub on_validators_count : (s : Storage) (x : ℕ) → P s → P (record s { validators_count = x })
  pub on_validator_history :
      (s : Storage) (x : ℕ → Option ValidatorMessage) → P s → P (record s { validator_history = x })
  pub on_events : (s : Storage) (x : List Event) → P s → P (record s { events = x })
  pub on_validators :
      (s : Storage) (a : ℕ) → P s → P (record s { validators = update s.validators a (some true) })

-- `P` survives every write. A stored transfer may change, but not its hash.
pub record Invariant (P : Storage → Type 0) : Type 0 where
  pub frame : Frame P
  pub on_validator_votes :
      (s : Storage) (x : ℕ → ℕ → Bool) → P s → P (record s { validator_votes = x })
  pub on_bridge_transfers :
      (s : Storage) (id : ℕ) (t : BridgeTransfer)
      → t.message_id ≡ (s.bridge_transfers id).message_id
      → P s
      → P (record s { bridge_transfers = update s.bridge_transfers id t })

module _ {P : Storage → Type 0} (inv : Frame P) where
  pub deposit_event-Keeps : (e : Event) → Keeps P (deposit_event e)
  unfolding deposit_event
  deposit_event-Keeps e = Keeps-modify _ (λ s h. inv.on_events s _ h)

  pub set_bridge_message-Keeps : (id : ℕ) (m : BridgeMessage) → Keeps P (set_bridge_message id m)
  unfolding set_bridge_message
  set_bridge_message-Keeps id m = Keeps-modify _ (λ s h. inv.on_bridge_messages s _ h)

  pub set_limit_message-Keeps : (id : ℕ) (m : LimitMessage) → Keeps P (set_limit_message id m)
  unfolding set_limit_message
  set_limit_message-Keeps id m = Keeps-modify _ (λ s h. inv.on_limit_messages s _ h)

  pub set_validator_message-Keeps :
      (id : ℕ) (m : ValidatorMessage) → Keeps P (set_validator_message id m)
  unfolding set_validator_message
  set_validator_message-Keeps id m = Keeps-modify _ (λ s h. inv.on_validator_history s _ h)

  pub set_transfer_message-Keeps :
      (id : ℕ) (m : TransferMessage) → Keeps P (set_transfer_message id m)
  unfolding set_transfer_message
  set_transfer_message-Keeps id m = Keeps-modify _ (λ s h. inv.on_transfer_messages s _ h)

  pub set_operational-Keeps : (b : Bool) → Keeps P (set_operational b)
  unfolding set_operational
  set_operational-Keeps b = Keeps-modify _ (λ s h. inv.on_bridge_is_operational s _ h)

  pub set_limits-Keeps : (l : Limits) → Keeps P (set_limits l)
  unfolding set_limits
  set_limits-Keeps l = Keeps-modify _ (λ s h. inv.on_current_limits s _ h)

  pub set_pending_burn-Keeps : (v : ℕ) → Keeps P (set_pending_burn v)
  unfolding set_pending_burn
  set_pending_burn-Keeps v = Keeps-modify _ (λ s h. inv.on_current_pending_burn s _ h)

  pub set_pending_mint-Keeps : (v : ℕ) → Keeps P (set_pending_mint v)
  unfolding set_pending_mint
  set_pending_mint-Keeps v = Keeps-modify _ (λ s h. inv.on_current_pending_mint s _ h)

  pub set_daily_limit-Keeps :
      (token_id account v : ℕ) → Keeps P (set_daily_limit token_id account v)
  unfolding set_daily_limit
  set_daily_limit-Keeps token_id account v = Keeps-modify _ (λ s h. inv.on_daily_limits s _ h)

  pub set_daily_hold-Keeps : (account : ℕ) (v : ℕ × ℕ) → Keeps P (set_daily_hold account v)
  unfolding set_daily_hold
  set_daily_hold-Keeps account v = Keeps-modify _ (λ s h. inv.on_daily_holds s _ h)

  pub set_daily_blocked-Keeps :
      (token_id moment : ℕ) (v : Option (List ℕ)) → Keeps P (set_daily_blocked token_id moment v)
  unfolding set_daily_blocked
  set_daily_blocked-Keeps token_id moment v = Keeps-modify _ (λ s h. inv.on_daily_blocked s _ h)

  pub set_quorum-Keeps : (v : ℕ) → Keeps P (set_quorum v)
  unfolding set_quorum
  set_quorum-Keeps v = Keeps-modify _ (λ s h. inv.on_quorum s _ h)

  pub set_validators_count-Keeps : (v : ℕ) → Keeps P (set_validators_count v)
  unfolding set_validators_count
  set_validators_count-Keeps v = Keeps-modify _ (λ s h. inv.on_validators_count s _ h)

  pub trust_validator-Keeps : (a : ℕ) → Keeps P (trust_validator a)
  unfolding trust_validator
  trust_validator-Keeps a = Keeps-modify _ (λ s h. inv.on_validators s a h)

  pub on_token-Keeps : {A : Type 0} (m : Action Token.Storage A) → Keeps P (on_token m)
  unfolding on_token
  on_token-Keeps m = Keeps-zoom _ _ m (λ t s h. inv.on_token s t h)

-- `P`, and the transfer under `id` has the hash `c`.
abbrev pub Pinned : (Storage → Type 0) → ℕ → ℕ → Storage → Type 0
Pinned P id c s = P s × ((s.bridge_transfers id).message_id ≡ c)

module _ {P : Storage → Type 0} (inv : Frame P) (id : ℕ) where
  pub Pinned-Frame : (c : ℕ) → Frame (Pinned P id c)
  Pinned-Frame c = record {
    on_token = λ s x h. (inv.on_token s x h.0, h.1);
    on_bridge_is_operational = λ s x h. (inv.on_bridge_is_operational s x h.0, h.1);
    on_bridge_messages = λ s x h. (inv.on_bridge_messages s x h.0, h.1);
    on_limit_messages = λ s x h. (inv.on_limit_messages s x h.0, h.1);
    on_current_limits = λ s x h. (inv.on_current_limits s x h.0, h.1);
    on_current_pending_burn = λ s x h. (inv.on_current_pending_burn s x h.0, h.1);
    on_current_pending_mint = λ s x h. (inv.on_current_pending_mint s x h.0, h.1);
    on_transfer_messages = λ s x h. (inv.on_transfer_messages s x h.0, h.1);
    on_daily_holds = λ s x h. (inv.on_daily_holds s x h.0, h.1);
    on_daily_limits = λ s x h. (inv.on_daily_limits s x h.0, h.1);
    on_daily_blocked = λ s x h. (inv.on_daily_blocked s x h.0, h.1);
    on_quorum = λ s x h. (inv.on_quorum s x h.0, h.1);
    on_validators_count = λ s x h. (inv.on_validators_count s x h.0, h.1);
    on_validator_history = λ s x h. (inv.on_validator_history s x h.0, h.1);
    on_events = λ s x h. (inv.on_events s x h.0, h.1);
    on_validators = λ s a h. (inv.on_validators s a h.0, h.1);
  }

module _ {P : Storage → Type 0} (inv : Invariant P) where
  pub set_validator_vote-Keeps :
      (id account : ℕ) (b : Bool) → Keeps P (set_validator_vote id account b)
  unfolding set_validator_vote
  set_validator_vote-Keeps id account b = Keeps-modify _ (λ s h. inv.on_validator_votes s _ h)

module _ {P : Storage → Type 0} (inv : Invariant P) (id : ℕ) where
  pub Pinned-Invariant : (c : ℕ) → Invariant (Pinned P id c)
  Pinned-Invariant c = record {
    frame = Pinned-Frame inv.frame id c;
    on_validator_votes = λ s x h. (inv.on_validator_votes s x h.0, h.1);
    on_bridge_transfers = λ s i t e h. (inv.on_bridge_transfers s i t e h.0, ground arith);
  }

  -- To keep `P` it is enough to keep it whatever the hash is.
  pub Keeps-of_Pinned :
      {A : Type 0} (m : Action Storage A) → ((c : ℕ) → Keeps (Pinned P id c) m) → Keeps P m
  Keeps-of_Pinned m kept = record {
    at = λ s h. ((kept (s.bridge_transfers id).message_id).at s (h, refl)).0;
  }

  pub set_bridge_transfer-Keeps :
      (c : ℕ) (t : BridgeTransfer)
      → t.message_id ≡ c
      → Keeps (Pinned P id c) (set_bridge_transfer id t)
  unfolding set_bridge_transfer
  set_bridge_transfer-Keeps c t e =
      Keeps-modify _ λ s h. (inv.on_bridge_transfers s id t (e ∙ sym h.1) h.0, ground arith)

  pub Keeps-transfer :
      {A : Type 0} (g : BridgeTransfer → Action Storage A)
      → ((c : ℕ) (t : BridgeTransfer) → t.message_id ≡ c → Keeps (Pinned P id c) (g t))
      → Keeps P (gets (λ s. s.bridge_transfers id) >>= g)
  Keeps-transfer g kept =
      Keeps-of_Pinned _ λ c. Keeps-read _ g λ s h. kept c (s.bridge_transfers id) h.1
