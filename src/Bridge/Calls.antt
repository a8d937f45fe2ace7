-- ===== src/Bridge/Calls.antt =====
-- The dispatchable calls of the bridge pallet and its `on_finalize`, the `decl_module!` block of
-- runtime/src/bridge.rs.
use akropolis_os_chain_node.Common.{
  ℕ, not, ◌&&◌, ◌||◌, List, none, ◌==◌, if◌then◌else◌, is_some, unwrap_or,
}
use akropolis_os_chain_node.Common.Words.{u128_mod, wrapping_add}
use akropolis_os_chain_node.Common.Action.{Action, pure, gets, ensure, ◌>>=◌, ◌>>◌, for_each}
use akropolis_os_chain_node.Errors.{
  bridge_not_operational, bridge_not_operational_already, transfer_not_approved,
  transfer_already_executed,
}
use akropolis_os_chain_node.Origin.{Origin, ensure_signed}
use akropolis_os_chain_node.Types.{Status, Kind, Limits, Token, TransferMessage}
use akropolis_os_chain_node.Bridge.State.{
  Storage, Env, Event, Preimage, deposit_event, set_transfer_message, set_limit_message,
  set_validator_message, set_bridge_message, set_daily_limit, set_daily_blocked,
}
use akropolis_os_chain_node.Bridge.Limits.{
  get_day_pair, check_validator, check_operational, check_amount, check_pending_burn,
  check_pending_mint, check_daily_account_volume, check_limits,
}
use akropolis_os_chain_node.Bridge.Messages.{
  get_transfer_message, get_transfer_id_checked, transfer_id_of, update_status,
  reopen_for_burn_confirmation, is_approved, is_confirmed,
}
use akropolis_os_chain_node.Bridge.Sign.{sign}

-- `let id = TransferId::get(hash); Self::_sign(validator, id)`
unfoldable pub sign_hash : ℕ → ℕ → Action Storage Unit
unfolding ◌>>=◌
sign_hash validator hash = do id ← gets (λ s. transfer_id_of s hash); sign validator id

unfoldable pub set_transfer : Env → Origin → ℕ → ℕ → ℕ → Action Storage Unit
unfolding ◌>>=◌ ensure_signed check_operational check_amount check_pending_burn deposit_event
    set_daily_limit set_transfer_message
set_transfer env origin to token_id amount = do
  from ← ensure_signed origin
  check_operational bridge_not_operational
  check_amount amount
  check_pending_burn amount
  check_daily_account_volume env token_id from amount
  let transfer_hash = env.hash (Preimage.transfer from to amount env.now)
  let message : TransferMessage = record {
    message_id = transfer_hash;
    eth_address = to;
    substrate_address = from;
    amount = amount;
    token = token_id;
    status = Status.withdraw;
    action = Status.withdraw;
  }
  get_transfer_id_checked transfer_hash Kind.transfer
  deposit_event (Event.relay_message transfer_hash)
  spent ← gets (λ s. s.daily_limits token_id from)
  set_daily_limit token_id from (wrapping_add u128_mod spent amount)
  set_transfer_message transfer_hash message

unfoldable pub multi_signed_mint : Origin → ℕ → ℕ → ℕ → ℕ → ℕ → Action Storage Unit
unfolding ◌>>=◌ ensure_signed check_operational check_validator check_pending_mint check_amount
    set_transfer_message get_transfer_id_checked sign_hash
multi_signed_mint origin message_id from to token_id amount = do
  validator ← ensure_signed origin
  check_operational bridge_not_operational
  check_validator validator
  check_pending_mint amount
  check_amount amount
  known ← gets (λ s. is_some (s.transfer_messages message_id))
  if not known
      then (do
        set_transfer_message message_id (record {
          message_id = message_id;
          eth_address = from;
          substrate_address = to;
          amount = amount;
          token = token_id;
          status = Status.deposit;
          action = Status.deposit;
        })
        get_transfer_id_checked message_id Kind.transfer)
      else pure tt
  sign_hash validator message_id

unfoldable pub update_limits : Env → Origin → Limits → Action Storage Unit
unfolding ◌>>=◌ ensure_signed check_validator check_limits set_limit_message get_transfer_id_checked
    sign_hash
update_limits env origin limits = do
  validator ← ensure_signed origin
  check_validator validator
  check_limits limits
  let id = env.hash (Preimage.limits limits)
  known ← gets (λ s. is_some (s.limit_messages id))
  if not known
      then (do
        set_limit_message id (record { id = id; limits = limits; status = Status.update_limits })
        get_transfer_id_checked id Kind.limits)
      else pure tt
  sign_hash validator id

unfoldable pub approve_transfer : Origin → ℕ → Action Storage Unit
unfolding ◌>>=◌ ensure_signed check_operational check_validator sign_hash
approve_transfer origin message_id = do
  validator ← ensure_signed origin
  check_operational bridge_not_operational
  check_validator validator
  sign_hash validator message_id

unfoldable pub update_validator_list : Origin → ℕ → ℕ → List ℕ → Action Storage Unit
unfolding ◌>>=◌ ensure_signed check_validator set_validator_message get_transfer_id_checked
    sign_hash
update_validator_list origin message_id quorum new_validator_list = do
  validator ← ensure_signed origin
  check_validator validator
  known ← gets (λ s. is_some (s.validator_history message_id))
  if not known
      then (do
        set_validator_message message_id (record {
          message_id = message_id;
          quorum = quorum;
          accounts = new_validator_list;
          action = Status.update_validator_set;
          status = Status.update_validator_set;
        })
        get_transfer_id_checked message_id Kind.validator)
      else pure tt
  sign_hash validator message_id

-- The part that `pause_bridge` and `resume_bridge` share: the message, and the vote.
unfoldable pub vote_on_bridge : ℕ → ℕ → Status → Action Storage Unit
unfolding ◌>>=◌ set_bridge_message get_transfer_id_checked sign_hash
vote_on_bridge validator hash st = do
  known ← gets (λ s. is_some (s.bridge_messages hash))
  if not known
      then (do
        set_bridge_message hash
            (record { message_id = hash; account = validator; action = st; status = st })
        get_transfer_id_checked hash Kind.bridge)
      else pure tt
  sign_hash validator hash

unfoldable pub pause_bridge : Env → Origin → Action Storage Unit
unfolding ◌>>=◌ ensure_signed check_validator check_operational vote_on_bridge
pause_bridge env origin = do
  validator ← ensure_signed origin
  check_validator validator
  check_operational bridge_not_operational_already
  vote_on_bridge validator (env.hash Preimage.pause) Status.pause_the_bridge

unfoldable pub resume_bridge : Env → Origin → Action Storage Unit
unfolding ◌>>=◌ ensure_signed check_validator vote_on_bridge
resume_bridge env origin = do
  validator ← ensure_signed origin
  check_validator validator
  vote_on_bridge validator (env.hash Preimage.resume) Status.resume_the_bridge

unfoldable pub confirm_transfer : Origin → ℕ → Action Storage Unit
unfolding ◌>>=◌ ensure_signed check_operational check_validator get_transfer_message
confirm_transfer origin message_id = do
  validator ← ensure_signed origin
  check_operational bridge_not_operational
  check_validator validator
  id ← gets (λ s. transfer_id_of s message_id)
  message ← get_transfer_message message_id
  ensure (is_approved message.status || is_confirmed message.status) transfer_not_approved
  update_status message_id Status.confirmed Kind.transfer
  reopen_for_burn_confirmation message_id
  sign validator id

unfoldable pub cancel_transfer : Origin → ℕ → Action Storage Unit
unfolding ◌>>=◌ ensure_signed check_validator get_transfer_message
cancel_transfer origin message_id = do
  validator ← ensure_signed origin
  check_validator validator
  known ← gets (λ s. is_some (s.transfer_messages message_id))
  message ← get_transfer_message message_id
  ensure (not (known && is_confirmed message.status)) transfer_already_executed
  id ← gets (λ s. transfer_id_of s message_id)
  update_status message_id Status.canceled Kind.transfer
  reopen_for_burn_confirmation message_id
  sign validator id

-- The body of the loop of `on_finalize` for one token.
unfoldable pub clear_token : Env → Token → Action Storage Unit
unfolding ◌>>=◌ get_day_pair for_each set_daily_limit deposit_event set_daily_blocked
clear_token env token = do
  let (yesterday, today) = get_day_pair env.now
  found ← gets (λ s. s.daily_blocked token.id yesterday)
  if is_some found && not (today == yesterday)
      then (do
        for_each (unwrap_or found List.[]) (λ a. set_daily_limit token.id a 0)
        for_each (unwrap_or found List.[]) (λ a. deposit_event (
            Event.account_resumed_message (env.hash (Preimage.account_at env.now a)) a env.now
              token.id))
        set_daily_blocked token.id yesterday none)
      else pure tt

unfoldable pub on_finalize : Env → Action Storage Unit
unfolding ◌>>=◌ for_each clear_token
on_finalize env = do tokens ← gets (λ s. s.token.tokens); for_each tokens (clear_token env)
