-- ===== src/Bridge/State.antt =====
-- The storage and the events of the bridge pallet (`decl_storage!` and `decl_event!` of
-- runtime/src/bridge.rs), what a call reads from other pallets, and one writer for each map.
use akropolis_os_chain_node.Common.{ℕ, Bool, List, [], ◌∷◌, ◌++◌, Option, some}
use akropolis_os_chain_node.Common.Maps.{update, update₂}
use akropolis_os_chain_node.Common.Action.{Action, modify, zoom}
use akropolis_os_chain_node.Types.{
  Limits, BridgeTransfer, TransferMessage, LimitMessage, BridgeMessage, ValidatorMessage,
}
use akropolis_os_chain_node.Token

abbrev pub max_validators : ℕ
max_validators = 100_000

abbrev pub day_in_blocks : ℕ
day_in_blocks = 14_400

abbrev pub day : ℕ
day = 86_400

-- What the pallet encodes and hashes.
pub data Preimage : Type 0 where
  transfer : ℕ → ℕ → ℕ → ℕ → Preimage
  limits : Limits → Preimage
  pause : Preimage
  resume : Preimage
  account_at : ℕ → ℕ → Preimage

-- `T::Hashing::hash` of the encoding of a value, and the time of the timestamp pallet.
pub record Env : Type 0 where
  pub hash : Preimage → ℕ
  pub now : ℕ

pub data Event : Type 0 where
  relay_message : ℕ → Event
  approved_relay_message : ℕ → ℕ → ℕ → ℕ → ℕ → Event
  cancellation_confirmed_message : ℕ → ℕ → Event
  minted_message : ℕ → ℕ → Event
  burned_message : ℕ → ℕ → ℕ → ℕ → ℕ → Event
  account_paused_message : ℕ → ℕ → ℕ → ℕ → Event
  account_resumed_message : ℕ → ℕ → ℕ → ℕ → Event

-- The storage of the pallet beside that of the token pallet, which it calls.
pub record Storage : Type 0 where
  pub token : Token.Storage
  pub bridge_is_operational : Bool
  pub bridge_messages : ℕ → Option BridgeMessage
  pub limit_messages : ℕ → Option LimitMessage
  pub current_limits : Limits
  pub current_pending_burn : ℕ
  pub current_pending_mint : ℕ
  pub bridge_transfers : ℕ → BridgeTransfer
  pub bridge_transfers_count : ℕ
  pub transfer_messages : ℕ → Option TransferMessage
  pub transfer_id : ℕ → Option ℕ
  pub message_id : ℕ → ℕ
  pub daily_holds : ℕ → Option (ℕ × ℕ)
  pub daily_limits : ℕ → ℕ → ℕ
  pub daily_blocked : ℕ → ℕ → Option (List ℕ)
  pub quorum : ℕ
  pub validators_count : ℕ
  pub validator_votes : ℕ → ℕ → Bool
  pub validator_history : ℕ → Option ValidatorMessage
  pub validators : ℕ → Option Bool
  pub validator_accounts : List ℕ
  pub events : List Event

unfoldable pub deposit_event : Event → Action Storage Unit
deposit_event e = modify λ s. record s { events = s.events ++ e ∷ [] }

unfoldable pub set_bridge_message : ℕ → BridgeMessage → Action Storage Unit
set_bridge_message id m =
    modify λ s. record s { bridge_messages = update s.bridge_messages id (some m) }

unfoldable pub set_limit_message : ℕ → LimitMessage → Action Storage Unit
set_limit_message id m =
    modify λ s. record s { limit_messages = update s.limit_messages id (some m) }

unfoldable pub set_validator_message : ℕ → ValidatorMessage → Action Storage Unit
set_validator_message id m =
    modify λ s. record s { validator_history = update s.validator_history id (some m) }

unfoldable pub set_transfer_message : ℕ → TransferMessage → Action Storage Unit
set_transfer_message id m =
    modify λ s. record s { transfer_messages = update s.transfer_messages id (some m) }

unfoldable pub set_bridge_transfer : ℕ → BridgeTransfer → Action Storage Unit
set_bridge_transfer id t =
    modify λ s. record s { bridge_transfers = update s.bridge_transfers id t }

unfoldable pub set_validator_vote : ℕ → ℕ → Bool → Action Storage Unit
set_validator_vote id validator v =
    modify λ s. record s { validator_votes = update₂ s.validator_votes id validator v }

unfoldable pub set_operational : Bool → Action Storage Unit
set_operational b = modify λ s. record s { bridge_is_operational = b }

unfoldable pub set_limits : Limits → Action Storage Unit
set_limits l = modify λ s. record s { current_limits = l }

unfoldable pub set_pending_burn : ℕ → Action Storage Unit
set_pending_burn v = modify λ s. record s { current_pending_burn = v }

unfoldable pub set_pending_mint : ℕ → Action Storage Unit
set_pending_mint v = modify λ s. record s { current_pending_mint = v }

unfoldable pub set_daily_limit : ℕ → ℕ → ℕ → Action Storage Unit
set_daily_limit token_id account v =
    modify λ s. record s { daily_limits = update₂ s.daily_limits token_id account v }

unfoldable pub set_daily_hold : ℕ → ℕ × ℕ → Action Storage Unit
set_daily_hold account v =
    modify λ s. record s { daily_holds = update s.daily_holds account (some v) }

unfoldable pub set_daily_blocked : ℕ → ℕ → Option (List ℕ) → Action Storage Unit
set_daily_blocked token_id moment v =
    modify λ s. record s { daily_blocked = update₂ s.daily_blocked token_id moment v }

unfoldable pub set_quorum : ℕ → Action Storage Unit
set_quorum v = modify λ s. record s { quorum = v }

unfoldable pub set_validators_count : ℕ → Action Storage Unit
set_validators_count v = modify λ s. record s { validators_count = v }

unfoldable pub trust_validator : ℕ → Action Storage Unit
trust_validator account =
    modify λ s. record s { validators = update s.validators account (some Bool.true) }

-- A call of the token pallet.
unfoldable pub on_token : {A : Type 0} → Action Token.Storage A → Action Storage A
on_token m = zoom (λ s. s.token) (λ t s. record s { token = t }) m
