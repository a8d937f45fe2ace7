-- ===== src/Bridge/Sign.antt =====
-- The vote of a validator, `_sign` of runtime/src/bridge.rs.
use akropolis_os_chain_node.Common.{ℕ, Bool, true, false, not, if◌then◌else◌, unwrap_or}
use akropolis_os_chain_node.Common.Words.{u64_mod, wrapping_add}
use akropolis_os_chain_node.Common.Action.{Action, pure, gets, ensure, ◌>>=◌, ◌>>◌}
use akropolis_os_chain_node.Errors.{already_voted, transfer_not_open}
use akropolis_os_chain_node.Votes.{votes_are_enough}
use akropolis_os_chain_node.Types.{
  Status, Kind, BridgeTransfer, default_limit_message, default_bridge_message,
  default_validator_message,
}
use akropolis_os_chain_node.Bridge.State.{Storage, set_validator_vote, set_bridge_transfer}
use akropolis_os_chain_node.Bridge.Messages.{get_transfer_message, is_final, set_pending}
use akropolis_os_chain_node.Bridge.Execute.{
  execute_transfer, put_limits, manage_validator_list, manage_bridge,
}

-- The status of the message of the transfer's kind, once enough validators agree: approved, unless
-- the status `of` the transfer message says that a burn was confirmed or canceled.
abbrev pub settle : Status → Status → Status
settle of st = if is_final of then st else Status.approved

-- The match on the kind of the transfer, with the messages of all kinds under its hash.
unfoldable pub execute : Kind → ℕ → Action Storage Unit
unfolding ◌>>=◌ get_transfer_message
execute Kind.transfer hash = do
  message ← get_transfer_message hash
  execute_transfer (record message { status = settle message.status message.status })
execute Kind.limits hash = do
  message ← get_transfer_message hash
  limit_message ← gets (λ s. unwrap_or (s.limit_messages hash) default_limit_message)
  put_limits (record limit_message { status = settle message.status limit_message.status })
execute Kind.validator hash = do
  message ← get_transfer_message hash
  info ← gets (λ s. unwrap_or (s.validator_history hash) default_validator_message)
  manage_validator_list (record info { status = settle message.status info.status })
execute Kind.bridge hash = do
  message ← get_transfer_message hash
  bridge_message ← gets (λ s. unwrap_or (s.bridge_messages hash) default_bridge_message)
  manage_bridge (record bridge_message { status = settle message.status bridge_message.status })

-- The branch of `_sign` on the votes: execute, or leave the transfer open. It returns whether the
-- transfer stays open.
unfoldable pub decide : ℕ → BridgeTransfer → Bool → Action Storage Bool
unfolding ◌>>=◌ get_transfer_message
decide transfer_id t enough = if enough then (do execute t.kind t.message_id; pure false) else (do
  message ← get_transfer_message t.message_id
  if is_final message.status then pure tt else set_pending transfer_id t.kind
  pure t.is_open)

-- The writes at the end of `_sign`.
unfoldable pub record_vote : ℕ → ℕ → BridgeTransfer → Action Storage Unit
unfolding ◌>>=◌ set_validator_vote set_bridge_transfer
record_vote validator transfer_id t = do
  set_validator_vote transfer_id validator true
  set_bridge_transfer transfer_id t

-- `_sign` once it has read the transfer.
unfoldable pub sign_transfer : ℕ → ℕ → BridgeTransfer → Action Storage Unit
unfolding ◌>>=◌ record_vote
sign_transfer validator transfer_id t = do
  voted ← gets (λ s. s.validator_votes transfer_id validator)
  ensure (not voted) already_voted
  ensure t.is_open transfer_not_open
  let votes = wrapping_add u64_mod t.votes 1
  enough ← gets (λ s. votes_are_enough votes s.validators_count)
  stays_open ← decide transfer_id t enough
  record_vote validator transfer_id (record t { votes = votes; is_open = stays_open })

unfoldable pub sign : ℕ → ℕ → Action Storage Unit
unfolding ◌>>=◌ sign_transfer
sign validator transfer_id = do
  t ← gets (λ s. s.bridge_transfers transfer_id)
  sign_transfer validator transfer_id t
