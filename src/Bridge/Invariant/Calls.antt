-- ===== src/Bridge/Invariant/Calls.antt =====
-- An invariant of the bridge pallet is kept by votes, by every call and by `on_finalize`.
use akropolis_os_chain_node.Common.{ℕ, Bool, ◌≡◌, List}
use akropolis_os_chain_node.Common.Keeps.{Keeps, keeps_rules}
use akropolis_os_chain_node.Origin.{Origin, signed, Keeps-ensure_signed, Keeps-signed}
use akropolis_os_chain_node.Types.{Kind, Limits, BridgeTransfer, Status, Token}
use akropolis_os_chain_node.Bridge.State.{Storage, Env}
use akropolis_os_chain_node.Bridge.Messages.{create_transfer, reopen_for_burn_confirmation}
use akropolis_os_chain_node.Bridge.Sign.{execute, decide, record_vote, sign_transfer, sign}
use akropolis_os_chain_node.Bridge.Calls.{
  sign_hash, set_transfer, multi_signed_mint, update_limits, approve_transfer,
  update_validator_list, vote_on_bridge, pause_bridge, resume_bridge, confirm_transfer,
  cancel_transfer, clear_token, on_finalize,
}
use akropolis_os_chain_node.Bridge.Invariant.{
  Frame, Invariant, Pinned-Frame, deposit_event-Keeps, set_bridge_message-Keeps,
  set_limit_message-Keeps, set_validator_message-Keeps, set_transfer_message-Keeps,
  set_validator_vote-Keeps, set_daily_limit-Keeps, set_daily_blocked-Keeps, Pinned,
  Pinned-Invariant, Keeps-transfer, set_bridge_transfer-Keeps,
}
use akropolis_os_chain_node.Bridge.Invariant.Messages.{
  update_status-Keeps, get_transfer_id_checked-Keeps, set_pending-Keeps, check_operational-Keeps,
  check_validator-Keeps, check_amount-Keeps, check_pending_burn-Keeps, check_pending_mint-Keeps,
  check_limits-Keeps, check_daily_account_volume-Keeps, reopen-Keeps,
}
use akropolis_os_chain_node.Bridge.Invariant.Execute.{
  execute_transfer-Keeps, put_limits-Keeps, manage_validator_list-Keeps, manage_bridge-Keeps,
}

module _ {P : Storage → Type 0} (inv : Frame P) where
  pub execute-Keeps : (kind : Kind) (hash : ℕ) → Keeps P (execute kind hash)
  unfolding execute
  execute-Keeps Kind.transfer hash = search (keeps_rules, execute_transfer-Keeps inv) depth 20
  execute-Keeps Kind.limits hash = search (keeps_rules, put_limits-Keeps inv) depth 20
  execute-Keeps Kind.validator hash = search (keeps_rules, manage_validator_list-Keeps inv) depth 20
  execute-Keeps Kind.bridge hash = search (keeps_rules, manage_bridge-Keeps inv) depth 20

  pub decide-Keeps : (id : ℕ) (t : BridgeTransfer) (enough : Bool) → Keeps P (decide id t enough)
  unfolding decide
  decide-Keeps id t enough = search (keeps_rules, execute-Keeps, set_pending-Keeps inv) depth 20

module _ {P : Storage → Type 0} (inv : Invariant P) (id c : ℕ) where
  record_vote-Keeps :
      (validator : ℕ) (t : BridgeTransfer)
      → t.message_id ≡ c
      → Keeps (Pinned P id c) (record_vote validator id t)
  unfolding record_vote
  record_vote-Keeps validator t e =
      let inv' = Pinned-Invariant inv id c in
      search (keeps_rules, set_bridge_transfer-Keeps inv id c, set_validator_vote-Keeps inv') depth
        20

  sign_transfer-Keeps :
      (validator : ℕ) (t : BridgeTransfer)
      → t.message_id ≡ c
      → Keeps (Pinned P id c) (sign_transfer validator id t)
  unfolding sign_transfer
  sign_transfer-Keeps validator t e =
      search (keeps_rules, decide-Keeps (Pinned-Frame inv.frame id c), record_vote-Keeps) depth 20

module _ {P : Storage → Type 0} (inv : Invariant P) where
  pub sign-Keeps : (validator id : ℕ) → Keeps P (sign validator id)
  unfolding sign
  sign-Keeps validator id =
      Keeps-transfer inv id _ (λ c t e. sign_transfer-Keeps inv id c validator t e)

-- What the calls do to `P`: what they write themselves, what the voters vote, and what is opened
-- again and created.
pub record Rules (P : Storage → Type 0) (IsVoter : ℕ → Type 0) : Type 0 where
  pub frame : Frame P
  pub on_sign : (validator id : ℕ) → IsVoter validator → Keeps P (sign validator id)
  pub on_reopen : (hash : ℕ) → Keeps P (reopen_for_burn_confirmation hash)
  pub on_create : (hash : ℕ) (kind : Kind) → Keeps P (create_transfer hash kind)

pub Rules-of_Invariant :
    {P : Storage → Type 0}
    → Invariant P
    → ((hash : ℕ) (kind : Kind) → Keeps P (create_transfer hash kind))
    → Rules P (λ _. Unit)
Rules-of_Invariant inv created = record {
  frame = inv.frame;
  on_sign = λ validator id _. sign-Keeps inv validator id;
  on_reopen = reopen-Keeps inv;
  on_create = created;
}

module _ {P : Storage → Type 0} {IsVoter : ℕ → Type 0} (rules : Rules P IsVoter) where
  sign_hash-Keeps : (validator hash : ℕ) → IsVoter validator → Keeps P (sign_hash validator hash)
  unfolding sign_hash
  sign_hash-Keeps validator hash v = search (keeps_rules, rules.on_sign) depth 20

  vote_on_bridge-Keeps :
      (validator hash : ℕ) (st : Status)
      → IsVoter validator
      → Keeps P (vote_on_bridge validator hash st)
  unfolding vote_on_bridge
  vote_on_bridge-Keeps validator hash st v =
      search
        (
          keeps_rules,
          set_bridge_message-Keeps rules.frame,
          get_transfer_id_checked-Keeps rules.frame rules.on_create,
          sign_hash-Keeps,
        )
        depth 30

  clear_token-Keeps : (env : Env) (t : Token) → Keeps P (clear_token env t)
  unfolding clear_token
  clear_token-Keeps env t =
      search
        (
          keeps_rules,
          set_daily_limit-Keeps rules.frame,
          deposit_event-Keeps rules.frame,
          set_daily_blocked-Keeps rules.frame,
        )
        depth 20

  pub on_finalize-Keeps : (env : Env) → Keeps P (on_finalize env)
  unfolding on_finalize
  on_finalize-Keeps env = search (keeps_rules, clear_token-Keeps) depth 20

  pub set_transfer-Keeps :
      (env : Env) (o : Origin) (to token_id amount : ℕ)
      → Keeps P (set_transfer env o to token_id amount)
  unfolding set_transfer
  set_transfer-Keeps env o to token_id amount =
      search
        (
          keeps_rules,
          Keeps-ensure_signed,
          check_operational-Keeps rules.frame,
          check_amount-Keeps rules.frame,
          check_pending_burn-Keeps rules.frame,
          check_daily_account_volume-Keeps rules.frame,
          get_transfer_id_checked-Keeps rules.frame rules.on_create,
          deposit_event-Keeps rules.frame,
          set_daily_limit-Keeps rules.frame,
          set_transfer_message-Keeps rules.frame,
        )
        depth 30

-- The calls that may vote.
module _ {P : Storage → Type 0} {IsVoter : ℕ → Type 0} (rules : Rules P IsVoter) (o : Origin)
    (voters : (who : ℕ) → o ≡ signed who → IsVoter who) where
  pub approve_transfer-Keeps : (id : ℕ) → Keeps P (approve_transfer o id)
  unfolding approve_transfer
  approve_transfer-Keeps id =
      search
        (
          Keeps-signed,
          keeps_rules,
          voters,
          check_operational-Keeps rules.frame,
          check_validator-Keeps rules.frame,
          sign_hash-Keeps rules,
        )
        depth 20

  pub confirm_transfer-Keeps : (id : ℕ) → Keeps P (confirm_transfer o id)
  unfolding confirm_transfer
  confirm_transfer-Keeps id =
      search
        (
          Keeps-signed,
          keeps_rules,
          voters,
          check_operational-Keeps rules.frame,
          check_validator-Keeps rules.frame,
          update_status-Keeps rules.frame,
          rules.on_reopen,
          rules.on_sign,
        )
        depth 20

  pub cancel_transfer-Keeps : (id : ℕ) → Keeps P (cancel_transfer o id)
  unfolding cancel_transfer
  cancel_transfer-Keeps id =
      search
        (
          Keeps-signed,
          keeps_rules,
          voters,
          check_validator-Keeps rules.frame,
          update_status-Keeps rules.frame,
          rules.on_reopen,
          rules.on_sign,
        )
        depth 20

  pub multi_signed_mint-Keeps :
      (id from to token_id amount : ℕ) → Keeps P (multi_signed_mint o id from to token_id amount)
  unfolding multi_signed_mint
  multi_signed_mint-Keeps id from to token_id amount =
      search
        (
          Keeps-signed,
          keeps_rules,
          voters,
          check_operational-Keeps rules.frame,
          check_validator-Keeps rules.frame,
          check_pending_mint-Keeps rules.frame,
          check_amount-Keeps rules.frame,
          set_transfer_message-Keeps rules.frame,
          get_transfer_id_checked-Keeps rules.frame rules.on_create,
          sign_hash-Keeps rules,
        )
        depth 30

  pub update_limits-Keeps : (env : Env) (l : Limits) → Keeps P (update_limits env o l)
  unfolding update_limits
  update_limits-Keeps env l =
      search
        (
          Keeps-signed,
          keeps_rules,
          voters,
          check_validator-Keeps rules.frame,
          check_limits-Keeps rules.frame,
          set_limit_message-Keeps rules.frame,
          get_transfer_id_checked-Keeps rules.frame rules.on_create,
          sign_hash-Keeps rules,
        )
        depth 30

  pub update_validator_list-Keeps :
      (id quorum : ℕ) (accounts : List ℕ) → Keeps P (update_validator_list o id quorum accounts)
  unfolding update_validator_list
  update_validator_list-Keeps id quorum accounts =
      search
        (
          Keeps-signed,
          keeps_rules,
          voters,
          check_validator-Keeps rules.frame,
          set_validator_message-Keeps rules.frame,
          get_transfer_id_checked-Keeps rules.frame rules.on_create,
          sign_hash-Keeps rules,
        )
        depth 30

  pub pause_bridge-Keeps : (env : Env) → Keeps P (pause_bridge env o)
  unfolding pause_bridge
  pause_bridge-Keeps env =
      search
        (
          Keeps-signed,
          keeps_rules,
          voters,
          check_validator-Keeps rules.frame,
          check_operational-Keeps rules.frame,
          vote_on_bridge-Keeps rules,
        )
        depth 30

  pub resume_bridge-Keeps : (env : Env) → Keeps P (resume_bridge env o)
  unfolding resume_bridge
  resume_bridge-Keeps env =
      search
        (
          Keeps-signed,
          keeps_rules,
          voters,
          check_validator-Keeps rules.frame,
          vote_on_bridge-Keeps rules,
        )
        depth 30
