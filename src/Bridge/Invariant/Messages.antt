-- ===== src/Bridge/Invariant/Messages.antt =====
-- An invariant of the bridge pallet is kept by the checks and by the functions on messages.
use akropolis_os_chain_node.Common.{ℕ, if◌then◌else◌, not, ◌&&◌, ◌≡◌}
use akropolis_os_chain_node.Common.Action.{pure}
use akropolis_os_chain_node.Common.Keeps.{Keeps, Keeps-gets, Keeps-if, Keeps-pure, keeps_rules}
use akropolis_os_chain_node.Errors.{Error}
use akropolis_os_chain_node.Types.{
  Status, Kind, transfer, limits, validator, bridge, TransferMessage, Limits, BridgeTransfer,
}
use akropolis_os_chain_node.Bridge.State.{Storage, Env}
use akropolis_os_chain_node.Bridge.Limits.{
  check_validator, check_operational, check_amount, check_pending_burn, check_pending_mint,
  block_account, check_daily_account_volume, check_limits, allowed_amount,
}
use akropolis_os_chain_node.Bridge.Messages.{
  get_transfer_message, update_status, get_transfer_id_checked, add_pending_burn, add_pending_mint,
  sub_pending_burn, sub_pending_mint, add_pending, set_pending, reopen_for_burn_confirmation,
  reopen_transfer, reopen_if_final, is_final, create_transfer,
}
use akropolis_os_chain_node.Bridge.Invariant.{
  Frame, Invariant, deposit_event-Keeps, set_bridge_message-Keeps, set_limit_message-Keeps,
  set_validator_message-Keeps, set_transfer_message-Keeps, set_validator_vote-Keeps,
  set_pending_burn-Keeps, set_pending_mint-Keeps, set_daily_blocked-Keeps, Pinned, Pinned-Invariant,
  Keeps-transfer, set_bridge_transfer-Keeps,
}

module _ {P : Storage → Type 0} (inv : Frame P) where
  pub get_transfer_message-Keeps : (id : ℕ) → Keeps P (get_transfer_message id)
  unfolding get_transfer_message
  get_transfer_message-Keeps id = Keeps-gets _

  pub update_status-Keeps :
      (id : ℕ) (st : Status) (kind : Kind) → Keeps P (update_status id st kind)
  unfolding update_status
  update_status-Keeps id st transfer = search (keeps_rules, set_transfer_message-Keeps inv)
  update_status-Keeps id st validator = search (keeps_rules, set_validator_message-Keeps inv)
  update_status-Keeps id st bridge = search (keeps_rules, set_bridge_message-Keeps inv)
  update_status-Keeps id st limits = search (keeps_rules, set_limit_message-Keeps inv)

  pub get_transfer_id_checked-Keeps :
      ((hash : ℕ) (kind : Kind) → Keeps P (create_transfer hash kind))
      → (hash : ℕ) (kind : Kind) → Keeps P (get_transfer_id_checked hash kind)
  unfolding get_transfer_id_checked
  get_transfer_id_checked-Keeps created hash kind = search (keeps_rules, created)

  pub sub_pending_burn-Keeps : (m : TransferMessage) → Keeps P (sub_pending_burn m)
  unfolding sub_pending_burn
  sub_pending_burn-Keeps m = search (keeps_rules, set_pending_burn-Keeps inv)

  pub sub_pending_mint-Keeps : (m : TransferMessage) → Keeps P (sub_pending_mint m)
  unfolding sub_pending_mint
  sub_pending_mint-Keeps m = search (keeps_rules, set_pending_mint-Keeps inv)

  add_pending-Keeps : (st : Status) (m : TransferMessage) → Keeps P (add_pending st m)
  unfolding add_pending add_pending_burn add_pending_mint
  add_pending-Keeps Status.withdraw m = search (keeps_rules, set_pending_burn-Keeps inv)
  add_pending-Keeps Status.deposit m = search (keeps_rules, set_pending_mint-Keeps inv)
  add_pending-Keeps _ m = search keeps_rules

  pub set_pending-Keeps : (id : ℕ) (kind : Kind) → Keeps P (set_pending id kind)
  unfolding set_pending
  set_pending-Keeps id transfer = search (keeps_rules, add_pending-Keeps, update_status-Keeps)
  set_pending-Keeps id _ = search (keeps_rules, update_status-Keeps)

  pub check_operational-Keeps : (e : Error) → Keeps P (check_operational e)
  unfolding check_operational
  check_operational-Keeps e = search keeps_rules

  pub check_validator-Keeps : (a : ℕ) → Keeps P (check_validator a)
  unfolding check_validator
  check_validator-Keeps a = search keeps_rules

  pub check_amount-Keeps : (amount : ℕ) → Keeps P (check_amount amount)
  unfolding check_amount
  check_amount-Keeps amount = search keeps_rules

  pub check_pending_burn-Keeps : (amount : ℕ) → Keeps P (check_pending_burn amount)
  unfolding check_pending_burn
  check_pending_burn-Keeps amount = search keeps_rules

  pub check_pending_mint-Keeps : (amount : ℕ) → Keeps P (check_pending_mint amount)
  unfolding check_pending_mint
  check_pending_mint-Keeps amount = search keeps_rules

  pub check_limits-Keeps : (l : Limits) → Keeps P (check_limits l)
  unfolding check_limits
  check_limits-Keeps l = search keeps_rules

  pub allowed_amount-Keeps : (balance : ℕ) → Keeps P (allowed_amount balance)
  unfolding allowed_amount
  allowed_amount-Keeps balance = search keeps_rules

  block_account-Keeps :
      (env : Env) (token_id today account : ℕ) → Keeps P (block_account env token_id today account)
  unfolding block_account
  block_account-Keeps env token_id today account =
      search (keeps_rules, set_daily_blocked-Keeps inv, deposit_event-Keeps inv)

  pub check_daily_account_volume-Keeps :
      (env : Env) (token_id account amount : ℕ)
      → Keeps P (check_daily_account_volume env token_id account amount)
  unfolding check_daily_account_volume
  check_daily_account_volume-Keeps env token_id account amount =
      search (keeps_rules, block_account-Keeps) depth 20

module _ {P : Storage → Type 0} (inv : Invariant P) (id c : ℕ) where
  reopen_transfer-Keeps :
      (t : BridgeTransfer) → t.message_id ≡ c → Keeps (Pinned P id c) (reopen_transfer id t)
  unfolding reopen_transfer
  reopen_transfer-Keeps t e =
      let inv' = Pinned-Invariant inv id c in
      search (keeps_rules, set_bridge_transfer-Keeps inv id c, set_validator_vote-Keeps inv') depth
        20

module _ {P : Storage → Type 0} (inv : Invariant P) where
  reopen_if_final-Keeps : (id : ℕ) (m : TransferMessage) → Keeps P (reopen_if_final id m)
  unfolding reopen_if_final
  reopen_if_final-Keeps id m =
      Keeps-transfer inv id
        (λ t. if not t.is_open && is_final m.status then reopen_transfer id t else pure tt)
        (λ c t e. Keeps-if _ _ _ (reopen_transfer-Keeps inv id c t e) (Keeps-pure tt))

  pub reopen-Keeps : (hash : ℕ) → Keeps P (reopen_for_burn_confirmation hash)
  unfolding reopen_for_burn_confirmation
  reopen-Keeps hash = search (keeps_rules, reopen_if_final-Keeps) depth 20
