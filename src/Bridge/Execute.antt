-- ===== src/Bridge/Execute.antt =====
-- What the bridge pallet does once enough validators agree, runtime/src/bridge.rs: mint, lock,
-- burn, cancel, new limits, new validators, pause and resume.
use akropolis_os_chain_node.Common.{
  ℕ, ◌%◌, true, false, not, ltb, if◌then◌else◌, is_some, unwrap_or, length,
}
use akropolis_os_chain_node.Common.Words.{u32_mod, u128_mod, wrapping_sub}
use akropolis_os_chain_node.Common.Action.{Action, pure, fail, gets, ensure, ◌>>=◌, ◌>>◌, for_each}
use akropolis_os_chain_node.Errors.{
  too_many_validators, bad_deposit_status, bad_withdraw_status, bad_transfer_action,
  bad_pause_status, bad_resume_status, bad_bridge_action, daily_hold,
}
use akropolis_os_chain_node.Types.{
  Status, Kind, TransferMessage, LimitMessage, BridgeMessage, ValidatorMessage,
}
use akropolis_os_chain_node.Token.{mint_tokens, burn_tokens, lock, unlock}
use akropolis_os_chain_node.Bridge.State.{
  Storage, Event, max_validators, deposit_event, set_operational, set_limits, set_daily_hold,
  set_daily_limit, set_quorum, set_validators_count, trust_validator, on_token,
}
use akropolis_os_chain_node.Bridge.Limits.{check_limits, day_passed, allowed_amount}
use akropolis_os_chain_node.Bridge.Messages.{
  get_transfer_message, update_status, sub_pending_burn, sub_pending_mint,
}

unfoldable pub check_daily_holds : TransferMessage → Action Storage Unit
unfolding ◌>>=◌ day_passed allowed_amount update_status
check_daily_holds message = do
  first_tx ← gets (λ s. unwrap_or (s.daily_holds message.substrate_address) (0, 0))
  if not (day_passed first_tx.0)
      then (do
        balance ← gets (λ s. s.token.balance message.token message.substrate_address)
        allowed ← allowed_amount balance
        if ltb allowed message.amount
            then (do
              update_status message.message_id Status.canceled Kind.transfer
              fail daily_hold)
            else pure tt)
      else pure tt

-- execute actual mint
unfoldable pub deposit : TransferMessage → Action Storage Unit
unfolding ◌>>=◌ sub_pending_mint set_daily_hold on_token mint_tokens deposit_event update_status
deposit message = do
  sub_pending_mint message
  held ← gets (λ s. is_some (s.daily_holds message.substrate_address))
  if not held then set_daily_hold message.substrate_address (0, message.message_id) else pure tt
  on_token (mint_tokens message.token message.substrate_address message.amount)
  deposit_event (Event.minted_message message.message_id message.token)
  update_status message.message_id Status.confirmed Kind.transfer

unfoldable pub lock_for_burn : TransferMessage → ℕ → Action Storage Unit
unfolding on_token
lock_for_burn message account = on_token (lock message.token account message.amount)

unfoldable pub withdraw : TransferMessage → Action Storage Unit
unfolding ◌>>=◌ check_daily_holds sub_pending_burn lock_for_burn deposit_event update_status
withdraw message = do
  check_daily_holds message
  sub_pending_burn message
  lock_for_burn message message.substrate_address
  deposit_event (
      Event.approved_relay_message message.message_id message.token message.substrate_address
        message.eth_address message.amount)
  update_status message.message_id Status.approved Kind.transfer

-- `_cancel_transfer`
unfoldable pub unlock_canceled : TransferMessage → Action Storage Unit
unfolding ◌>>=◌ on_token unlock update_status
unlock_canceled message = do
  on_token (unlock message.token message.substrate_address message.amount)
  update_status message.message_id Status.canceled Kind.transfer

unfoldable pub pause_the_bridge : BridgeMessage → Action Storage Unit
unfolding ◌>>=◌ set_operational update_status
pause_the_bridge message = do
  set_operational false
  update_status message.message_id Status.confirmed Kind.bridge

unfoldable pub resume_the_bridge : BridgeMessage → Action Storage Unit
unfolding ◌>>=◌ set_operational update_status
resume_the_bridge message = do
  set_operational true
  update_status message.message_id Status.confirmed Kind.bridge

-- `_update_limits`
unfoldable pub put_limits : LimitMessage → Action Storage Unit
unfolding ◌>>=◌ check_limits set_limits update_status
put_limits message = do
  check_limits message.limits
  set_limits message.limits
  update_status message.id Status.confirmed Kind.limits

unfoldable pub manage_validator_list : ValidatorMessage → Action Storage Unit
unfolding ◌>>=◌ set_quorum set_validators_count for_each trust_validator update_status
manage_validator_list info = do
  let new_count = length info.accounts % u32_mod
  ensure (ltb new_count max_validators) too_many_validators
  set_quorum info.quorum
  set_validators_count new_count
  for_each info.accounts trust_validator
  update_status info.message_id Status.confirmed Kind.validator

unfoldable pub execute_burn : ℕ → Action Storage Unit
unfolding ◌>>=◌ get_transfer_message on_token unlock burn_tokens set_daily_limit deposit_event
execute_burn message_id = do
  message ← get_transfer_message message_id
  on_token (unlock message.token message.substrate_address message.amount)
  on_token (burn_tokens message.token message.substrate_address message.amount)
  spent ← gets (λ s. s.daily_limits message.token message.substrate_address)
  set_daily_limit message.token message.substrate_address
      (wrapping_sub u128_mod spent message.amount)
  deposit_event (
      Event.burned_message message_id message.token message.substrate_address message.eth_address
        message.amount)

-- The match on the status of a deposit in `execute_transfer`.
unfoldable pub execute_deposit : Status → TransferMessage → Action Storage Unit
unfolding fail deposit unlock_canceled
execute_deposit Status.approved message = deposit message
execute_deposit Status.canceled message = unlock_canceled message
execute_deposit _ message = fail bad_deposit_status

-- The match on the status of a withdrawal.
unfoldable pub execute_withdraw : Status → TransferMessage → Action Storage Unit
unfolding fail execute_burn withdraw unlock_canceled
execute_withdraw Status.confirmed message = execute_burn message.message_id
execute_withdraw Status.approved message = withdraw message
execute_withdraw Status.canceled message = unlock_canceled message
execute_withdraw _ message = fail bad_withdraw_status

unfoldable pub execute_by_action : Status → TransferMessage → Action Storage Unit
unfolding fail execute_deposit execute_withdraw
execute_by_action Status.deposit message = execute_deposit message.status message
execute_by_action Status.withdraw message = execute_withdraw message.status message
execute_by_action _ message = fail bad_transfer_action

unfoldable pub execute_transfer : TransferMessage → Action Storage Unit
unfolding execute_by_action
execute_transfer message = execute_by_action message.action message

unfoldable pub execute_pause : Status → BridgeMessage → Action Storage Unit
unfolding fail pause_the_bridge
execute_pause Status.approved message = pause_the_bridge message
execute_pause _ message = fail bad_pause_status

unfoldable pub execute_resume : Status → BridgeMessage → Action Storage Unit
unfolding fail resume_the_bridge
execute_resume Status.approved message = resume_the_bridge message
execute_resume _ message = fail bad_resume_status

unfoldable pub manage_by_action : Status → BridgeMessage → Action Storage Unit
unfolding fail execute_pause execute_resume
manage_by_action Status.pause_the_bridge message = execute_pause message.status message
manage_by_action Status.resume_the_bridge message = execute_resume message.status message
manage_by_action _ message = fail bad_bridge_action

unfoldable pub manage_bridge : BridgeMessage → Action Storage Unit
unfolding manage_by_action
manage_bridge message = manage_by_action message.action message
