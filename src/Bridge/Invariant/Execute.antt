-- ===== src/Bridge/Invariant/Execute.antt =====
-- An invariant of the bridge pallet is kept by the execution of agreed messages.
use akropolis_os_chain_node.Common.{ℕ}
use akropolis_os_chain_node.Common.Keeps.{Keeps, keeps_rules}
use akropolis_os_chain_node.Types.{
  Status, TransferMessage, LimitMessage, BridgeMessage, ValidatorMessage,
}
use akropolis_os_chain_node.Bridge.State.{Storage}
use akropolis_os_chain_node.Bridge.Execute.{
  check_daily_holds, deposit, withdraw, unlock_canceled, pause_the_bridge, resume_the_bridge,
  put_limits, manage_validator_list, execute_burn, execute_deposit, execute_withdraw,
  execute_by_action, execute_transfer, execute_pause, execute_resume, manage_by_action,
  manage_bridge,
}
use akropolis_os_chain_node.Bridge.Invariant.{
  Frame, deposit_event-Keeps, set_operational-Keeps, set_limits-Keeps, set_daily_limit-Keeps,
  set_daily_hold-Keeps, set_quorum-Keeps, set_validators_count-Keeps, trust_validator-Keeps,
  on_token-Keeps,
}
use akropolis_os_chain_node.Bridge.Invariant.Messages.{
  update_status-Keeps, sub_pending_burn-Keeps, sub_pending_mint-Keeps, check_limits-Keeps,
  allowed_amount-Keeps,
}

module _ {P : Storage → Type 0} (inv : Frame P) where
  check_daily_holds-Keeps : (m : TransferMessage) → Keeps P (check_daily_holds m)
  unfolding check_daily_holds
  check_daily_holds-Keeps m =
      search (keeps_rules, allowed_amount-Keeps inv, update_status-Keeps inv) depth 20

  deposit-Keeps : (m : TransferMessage) → Keeps P (deposit m)
  unfolding deposit
  deposit-Keeps m =
      search
        (
          keeps_rules,
          sub_pending_mint-Keeps inv,
          set_daily_hold-Keeps inv,
          on_token-Keeps inv,
          deposit_event-Keeps inv,
          update_status-Keeps inv,
        )
        depth 20

  withdraw-Keeps : (m : TransferMessage) → Keeps P (withdraw m)
  unfolding withdraw
  withdraw-Keeps m =
      search
        (
          keeps_rules,
          check_daily_holds-Keeps,
          sub_pending_burn-Keeps inv,
          on_token-Keeps inv,
          deposit_event-Keeps inv,
          update_status-Keeps inv,
        )
        depth 20

  unlock_canceled-Keeps : (m : TransferMessage) → Keeps P (unlock_canceled m)
  unfolding unlock_canceled
  unlock_canceled-Keeps m =
      search (keeps_rules, on_token-Keeps inv, update_status-Keeps inv) depth 20

  execute_burn-Keeps : (id : ℕ) → Keeps P (execute_burn id)
  unfolding execute_burn
  execute_burn-Keeps id =
      search (keeps_rules, on_token-Keeps inv, set_daily_limit-Keeps inv, deposit_event-Keeps inv)
        depth 20

  execute_deposit-Keeps : (st : Status) (m : TransferMessage) → Keeps P (execute_deposit st m)
  unfolding execute_deposit
  execute_deposit-Keeps Status.approved m = deposit-Keeps m
  execute_deposit-Keeps Status.canceled m = unlock_canceled-Keeps m
  execute_deposit-Keeps _ m = search keeps_rules

  execute_withdraw-Keeps : (st : Status) (m : TransferMessage) → Keeps P (execute_withdraw st m)
  unfolding execute_withdraw
  execute_withdraw-Keeps Status.confirmed m = execute_burn-Keeps m.message_id
  execute_withdraw-Keeps Status.approved m = withdraw-Keeps m
  execute_withdraw-Keeps Status.canceled m = unlock_canceled-Keeps m
  execute_withdraw-Keeps _ m = search keeps_rules

  execute_by_action-Keeps : (st : Status) (m : TransferMessage) → Keeps P (execute_by_action st m)
  unfolding execute_by_action
  execute_by_action-Keeps Status.deposit m = execute_deposit-Keeps m.status m
  execute_by_action-Keeps Status.withdraw m = execute_withdraw-Keeps m.status m
  execute_by_action-Keeps _ m = search keeps_rules

  pub execute_transfer-Keeps : (m : TransferMessage) → Keeps P (execute_transfer m)
  unfolding execute_transfer
  execute_transfer-Keeps m = execute_by_action-Keeps m.action m

  pub put_limits-Keeps : (m : LimitMessage) → Keeps P (put_limits m)
  unfolding put_limits
  put_limits-Keeps m =
      search (keeps_rules, check_limits-Keeps inv, set_limits-Keeps inv, update_status-Keeps inv)
        depth 20

  pub manage_validator_list-Keeps : (m : ValidatorMessage) → Keeps P (manage_validator_list m)
  unfolding manage_validator_list
  manage_validator_list-Keeps m =
      search
        (
          keeps_rules,
          set_quorum-Keeps inv,
          set_validators_count-Keeps inv,
          trust_validator-Keeps inv,
          update_status-Keeps inv,
        )
        depth 20

  execute_pause-Keeps : (st : Status) (m : BridgeMessage) → Keeps P (execute_pause st m)
  unfolding execute_pause pause_the_bridge
  execute_pause-Keeps Status.approved m =
      search (keeps_rules, set_operational-Keeps inv, update_status-Keeps inv) depth 20
  execute_pause-Keeps _ m = search keeps_rules

  execute_resume-Keeps : (st : Status) (m : BridgeMessage) → Keeps P (execute_resume st m)
  unfolding execute_resume resume_the_bridge
  execute_resume-Keeps Status.approved m =
      search (keeps_rules, set_operational-Keeps inv, update_status-Keeps inv) depth 20
  execute_resume-Keeps _ m = search keeps_rules

  manage_by_action-Keeps : (st : Status) (m : BridgeMessage) → Keeps P (manage_by_action st m)
  unfolding manage_by_action
  manage_by_action-Keeps Status.pause_the_bridge m = execute_pause-Keeps m.status m
  manage_by_action-Keeps Status.resume_the_bridge m = execute_resume-Keeps m.status m
  manage_by_action-Keeps _ m = search keeps_rules

  pub manage_bridge-Keeps : (m : BridgeMessage) → Keeps P (manage_bridge m)
  unfolding manage_bridge
  manage_bridge-Keeps m = manage_by_action-Keeps m.action m
