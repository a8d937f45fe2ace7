-- ===== src/Bridge/Trust.antt =====
-- Whose votes are on record: those of validators only.
use akropolis_os_chain_node.Common.{
  ℕ, ◌≡◌, true, false, arith, refl, sym, subst, is_some, Bool-cases, inl, inr, ◌⊎◌,
}
use akropolis_os_chain_node.Common.Keeps.{Keeps, Keeps-modify, keeps_rules}
use akropolis_os_chain_node.Origin.{Origin, root, signed, unsigned}
use akropolis_os_chain_node.Types.{Kind, BridgeTransfer}
use akropolis_os_chain_node.Bridge.State.{Storage, Env, set_validator_vote, set_bridge_transfer}
use akropolis_os_chain_node.Bridge.Messages.{
  create_transfer, reopen_for_burn_confirmation, reopen_if_final, reopen_transfer,
}
use akropolis_os_chain_node.Bridge.Sign.{sign, sign_transfer, record_vote}
use akropolis_os_chain_node.Bridge.Calls
use akropolis_os_chain_node.Bridge.Invariant.{Frame}
use akropolis_os_chain_node.Bridge.Invariant.Calls.{
  Rules, decide-Keeps, set_transfer-Keeps, on_finalize-Keeps,
}
use akropolis_os_chain_node.Bridge.Run.{Call, dispatch, dispatch-Keeps, IsKept, IsTrusted}

-- Each vote on record is one of a validator.
abbrev pub AreTrusted : Storage → Type 0
AreTrusted s = (id a : ℕ) → s.validator_votes id a ≡ true → IsTrusted a s

-- And so are the voters `V`.
abbrev TrustedWith : (ℕ → Type 0) → Storage → Type 0
TrustedWith V s = AreTrusted s × ((v : ℕ) → V v → IsTrusted v s)

module _ (V : ℕ → Type 0) where
  TrustedWith-Frame : Frame (TrustedWith V)
  TrustedWith-Frame = record {
    on_token = λ t x h. h;
    on_bridge_is_operational = λ t x h. h;
    on_bridge_messages = λ t x h. h;
    on_limit_messages = λ t x h. h;
    on_current_limits = λ t x h. h;
    on_current_pending_burn = λ t x h. h;
    on_current_pending_mint = λ t x h. h;
    on_transfer_messages = λ t x h. h;
    on_daily_holds = λ t x h. h;
    on_daily_limits = λ t x h. h;
    on_daily_blocked = λ t x h. h;
    on_quorum = λ t x h. h;
    on_validators_count = λ t x h. h;
    on_validator_history = λ t x h. h;
    on_events = λ t x h. h;
    on_validators =
        λ t a (h, k). (λ id b v. ground (arith, h id b v), λ v w. ground (arith, k v w));
  }

  set_bridge_transfer-Trusted :
      (id : ℕ) (t : BridgeTransfer) → Keeps (TrustedWith V) (set_bridge_transfer id t)
  unfolding set_bridge_transfer
  set_bridge_transfer-Trusted id t = Keeps-modify _ (λ s h. h)

  clear_vote-Trusted : (id a : ℕ) → Keeps (TrustedWith V) (set_validator_vote id a false)
  unfolding set_validator_vote
  clear_vote-Trusted id a = Keeps-modify _ (λ s (h, k). (λ i b v. ground (arith, h i b), k))

  set_vote-Trusted : (id a : ℕ) → V a → Keeps (TrustedWith V) (set_validator_vote id a true)
  unfolding set_validator_vote
  set_vote-Trusted id a member =
      Keeps-modify _ (λ s (h, k). (λ i b v. ground (arith, h i b, k a member), k))

  reopen_transfer-Trusted :
      (id : ℕ) (t : BridgeTransfer) → Keeps (TrustedWith V) (reopen_transfer id t)
  unfolding reopen_transfer
  reopen_transfer-Trusted id t =
      search (keeps_rules, set_bridge_transfer-Trusted, clear_vote-Trusted) depth 20

  reopen-Trusted : (hash : ℕ) → Keeps (TrustedWith V) (reopen_for_burn_confirmation hash)
  unfolding reopen_for_burn_confirmation reopen_if_final
  reopen-Trusted hash = search (keeps_rules, reopen_transfer-Trusted) depth 20

  create_transfer-Trusted :
      (hash : ℕ) (kind : Kind) → Keeps (TrustedWith V) (create_transfer hash kind)
  unfolding create_transfer
  create_transfer-Trusted hash kind = record {
    at = λ s (h, k). (λ id b v. ground (arith, h id b), λ v w. ground (arith, k v w));
  }

  sign-Trusted : (who id : ℕ) → V who → Keeps (TrustedWith V) (sign who id)
  unfolding sign sign_transfer record_vote
  sign-Trusted who id member =
      search
        (keeps_rules, decide-Keeps TrustedWith-Frame, set_vote-Trusted, set_bridge_transfer-Trusted)
        depth 20

  TrustedWith-Rules : Rules (TrustedWith V) V
  TrustedWith-Rules = record {
    frame = TrustedWith-Frame;
    on_sign = sign-Trusted;
    on_reopen = reopen-Trusted;
    on_create = create_transfer-Trusted;
  }

-- The calls that anyone may make vote for nobody; the others do nothing for a stranger.
stranger_cases :
    (env : Env) (who : ℕ) (c : Call) (s : Storage)
    → is_some (s.validators who) ≡ false
    → ((dispatch env (signed who) c s).1 ≡ s)
      ⊎ Keeps (TrustedWith (λ _. ⊥)) (dispatch env (signed who) c)
unfolding dispatch Calls.multi_signed_mint Calls.update_limits Calls.approve_transfer
    Calls.update_validator_list Calls.pause_bridge Calls.resume_bridge Calls.confirm_transfer
    Calls.cancel_transfer
stranger_cases env who (Call.set_transfer to token_id amount) s stranger =
    inr (set_transfer-Keeps (TrustedWith-Rules (λ _. ⊥)) env (signed who) to token_id amount)
stranger_cases env who (Call.multi_signed_mint id from to token_id amount) s stranger =
    inl (ground arith)
stranger_cases env who (Call.update_limits l) s stranger = inl (ground arith)
stranger_cases env who (Call.approve_transfer id) s stranger = inl (ground arith)
stranger_cases env who (Call.update_validator_list id quorum accounts) s stranger =
    inl (ground arith)
stranger_cases env who Call.pause_bridge s stranger = inl (ground arith)
stranger_cases env who Call.resume_bridge s stranger = inl (ground arith)
stranger_cases env who (Call.confirm_transfer id) s stranger = inl (ground arith)
stranger_cases env who (Call.cancel_transfer id) s stranger = inl (ground arith)
stranger_cases env who Call.on_finalize s stranger =
    inr (on_finalize-Keeps (TrustedWith-Rules (λ _. ⊥)) env)

-- If whoever signs is a validator.
dispatch_by_member :
    (env : Env) (o : Origin) (c : Call) (s : Storage)
    → AreTrusted s
    → ((v : ℕ) → o ≡ signed v → IsTrusted v s)
    → AreTrusted (dispatch env o c s).1
dispatch_by_member env o c s h members =
    ((dispatch-Keeps (TrustedWith-Rules (λ v. o ≡ signed v)) env o c (λ v e. e)).at s
      (h, members)).0

dispatch-AreTrusted :
    (env : Env) (o : Origin) (c : Call) (s : Storage)
    → AreTrusted s
    → AreTrusted (dispatch env o c s).1
dispatch-AreTrusted env (signed who) c s h = elim (Bool-cases (is_some (s.validators who))) [
  | inl member ↦ dispatch_by_member env (signed who) c s h (λ v e. ground (arith, member))
  | inr stranger ↦ elim (stranger_cases env who c s stranger) [
    | inl same ↦ subst AreTrusted (sym same) h
    | inr kept ↦ (kept.at s (h, λ v e. elim e [ ])).0
  ]
]
dispatch-AreTrusted env root c s h = dispatch_by_member env root c s h (λ v e. ground arith)
dispatch-AreTrusted env unsigned c s h = dispatch_by_member env unsigned c s h (λ v e. ground arith)

pub AreTrusted-IsKept : IsKept AreTrusted
AreTrusted-IsKept env o c = record { at = dispatch-AreTrusted env o c }

pub sign-AreTrusted :
    (who id : ℕ) (s : Storage) → IsTrusted who s → AreTrusted s → AreTrusted (sign who id s).1
sign-AreTrusted who id s member h =
    ((sign-Trusted (λ v. v ≡ who) who id refl).at s
      (h, λ v e. subst (λ a. IsTrusted a s) (sym e) member)).0
