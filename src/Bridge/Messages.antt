-- ===== src/Bridge/Messages.antt =====
-- The index of transfers and the status of messages in the bridge pallet, runtime/src/bridge.rs:
-- `create_transfer`, `update_status`, `set_pending` and `reopen_for_burn_confirmation`.
use akropolis_os_chain_node.Common.{
  ℕ, Bool, true, false, not, ◌&&◌, ◌||◌, some, if◌then◌else◌, is_some, unwrap_or,
}
use akropolis_os_chain_node.Common.Words.{u64_mod, u128_mod, checked_add, checked_sub}
use akropolis_os_chain_node.Common.Maps.{update}
use akropolis_os_chain_node.Common.Action.{
  Action, pure, or_fail, gets, ensure, modify, ◌>>=◌, ◌>>◌, for_each,
}
use akropolis_os_chain_node.Errors.{
  transfer_already_open, transfer_count_overflow, pending_burn_overflow, pending_mint_overflow,
  pending_burn_underflow, pending_mint_underflow,
}
use akropolis_os_chain_node.Types.{
  Status, confirmed, canceled, approved, pending, withdraw, deposit, Kind, transfer, limits,
  validator, bridge, BridgeTransfer, TransferMessage, default_transfer_message,
  default_limit_message, default_bridge_message, default_validator_message,
}
use akropolis_os_chain_node.Bridge.State.{
  Storage, set_bridge_message, set_limit_message, set_validator_message, set_transfer_message,
  set_bridge_transfer, set_validator_vote, set_pending_burn, set_pending_mint,
}

abbrev pub is_confirmed : Status → Bool
is_confirmed confirmed = true
is_confirmed _ = false

abbrev pub is_canceled : Status → Bool
is_canceled canceled = true
is_canceled _ = false

abbrev pub is_approved : Status → Bool
is_approved approved = true
is_approved _ = false

-- `Status::Confirmed | Status::Canceled`
abbrev pub is_final : Status → Bool
is_final st = is_confirmed st || is_canceled st

unfoldable pub get_transfer_message : ℕ → Action Storage TransferMessage
get_transfer_message id = gets λ s. unwrap_or (s.transfer_messages id) default_transfer_message

-- `TransferId::get`: the id of an unknown hash reads as 0.
abbrev pub transfer_id_of : Storage → ℕ → ℕ
transfer_id_of s hash = unwrap_or (s.transfer_id hash) 0

unfoldable pub update_status : ℕ → Status → Kind → Action Storage Unit
unfolding ◌>>=◌ get_transfer_message set_transfer_message set_validator_message set_bridge_message
    set_limit_message
update_status id st transfer = do
  message ← get_transfer_message id
  set_transfer_message id (record message { status = st })
update_status id st validator = do
  message ← gets (λ s. unwrap_or (s.validator_history id) default_validator_message)
  set_validator_message id (record message { status = st })
update_status id st bridge = do
  message ← gets (λ s. unwrap_or (s.bridge_messages id) default_bridge_message)
  set_bridge_message id (record message { status = st })
update_status id st limits = do
  message ← gets (λ s. unwrap_or (s.limit_messages id) default_limit_message)
  set_limit_message id (record message { status = st })

-- The four writes at the end of `create_transfer`.
unfoldable pub index_transfer : ℕ → ℕ → Kind → ℕ → Action Storage Unit
index_transfer id hash kind count = modify λ s. record s {
  bridge_transfers =
      update s.bridge_transfers id
        (record { transfer_id = id; message_id = hash; is_open = true; votes = 0; kind = kind });
  bridge_transfers_count = count;
  transfer_id = update s.transfer_id hash (some id);
  message_id = update s.message_id id hash;
}

unfoldable pub create_transfer : ℕ → Kind → Action Storage Unit
unfolding ◌>>=◌ index_transfer
create_transfer transfer_hash kind = do
  known ← gets (λ s. is_some (s.transfer_id transfer_hash))
  ensure (not known) transfer_already_open
  transfer_id ← gets (λ s. s.bridge_transfers_count)
  new_count ← or_fail (checked_add u64_mod transfer_id 1) transfer_count_overflow
  index_transfer transfer_id transfer_hash kind new_count

unfoldable pub get_transfer_id_checked : ℕ → Kind → Action Storage Unit
unfolding ◌>>=◌ create_transfer
get_transfer_id_checked transfer_hash kind = do
  known ← gets (λ s. is_some (s.transfer_id transfer_hash))
  if not known then create_transfer transfer_hash kind else pure tt

unfoldable pub add_pending_burn : TransferMessage → Action Storage Unit
unfolding ◌>>=◌ set_pending_burn
add_pending_burn message = do
  current ← gets (λ s. s.current_pending_burn)
  next ← or_fail (checked_add u128_mod current message.amount) pending_burn_overflow
  set_pending_burn next

unfoldable pub add_pending_mint : TransferMessage → Action Storage Unit
unfolding ◌>>=◌ set_pending_mint
add_pending_mint message = do
  current ← gets (λ s. s.current_pending_mint)
  next ← or_fail (checked_add u128_mod current message.amount) pending_mint_overflow
  set_pending_mint next

unfoldable pub sub_pending_burn : TransferMessage → Action Storage Unit
unfolding ◌>>=◌ set_pending_burn
sub_pending_burn message = do
  current ← gets (λ s. s.current_pending_burn)
  next ← or_fail (checked_sub current message.amount) pending_burn_underflow
  set_pending_burn next

unfoldable pub sub_pending_mint : TransferMessage → Action Storage Unit
unfolding ◌>>=◌ set_pending_mint
sub_pending_mint message = do
  current ← gets (λ s. s.current_pending_mint)
  next ← or_fail (checked_sub current message.amount) pending_mint_underflow
  set_pending_mint next

-- The match on the action of the message in `set_pending`.
unfoldable pub add_pending : Status → TransferMessage → Action Storage Unit
unfolding pure add_pending_burn add_pending_mint
add_pending withdraw message = add_pending_burn message
add_pending deposit message = add_pending_mint message
add_pending _ message = pure tt

unfoldable pub set_pending : ℕ → Kind → Action Storage Unit
unfolding ◌>>=◌ get_transfer_message
set_pending transfer_id transfer = do
  message_id ← gets (λ s. s.message_id transfer_id)
  message ← get_transfer_message message_id
  add_pending message.action message
  update_status message_id pending transfer
set_pending transfer_id kind = do
  message_id ← gets (λ s. s.message_id transfer_id)
  update_status message_id pending kind

-- The body of `if !transfer.open && is_eth_response`.
unfoldable pub reopen_transfer : ℕ → BridgeTransfer → Action Storage Unit
unfolding ◌>>=◌ set_bridge_transfer for_each set_validator_vote
reopen_transfer id t = do
  set_bridge_transfer id (record t { votes = 0; is_open = true })
  validators ← gets (λ s. s.validator_accounts)
  for_each validators (λ a. set_validator_vote id a false)

unfoldable pub reopen_if_final : ℕ → TransferMessage → Action Storage Unit
unfolding ◌>>=◌ reopen_transfer
reopen_if_final id message = do
  t ← gets (λ s. s.bridge_transfers id)
  if not t.is_open && is_final message.status then reopen_transfer id t else pure tt

unfoldable pub reopen_for_burn_confirmation : ℕ → Action Storage Unit
unfolding ◌>>=◌ get_transfer_message reopen_if_final
reopen_for_burn_confirmation message_id = do
  message ← get_transfer_message message_id
  id ← gets (λ s. transfer_id_of s message_id)
  reopen_if_final id message
