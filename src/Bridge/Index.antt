-- ===== src/Bridge/Index.antt =====
-- The index of transfers: a hash has one id, an id has one hash, and ids are given out in order.
use akropolis_os_chain_node.Common.{ℕ, ◌<◌, ◌≡◌, some, arith}
use akropolis_os_chain_node.Common.Keeps.{Keeps}
use akropolis_os_chain_node.Types.{Kind}
use akropolis_os_chain_node.Bridge.State.{Storage}
use akropolis_os_chain_node.Bridge.Messages.{create_transfer}
use akropolis_os_chain_node.Bridge.Invariant.{Invariant}

-- Each known hash has an id that was given out, and both the map back from the id and the stored
-- transfer have the hash.
abbrev pub IsIndexed : Storage → Type 0
IsIndexed s =
    (h id : ℕ)
    → s.transfer_id h ≡ some id
    → (id < s.bridge_transfers_count)
      × (s.message_id id ≡ h)
      × ((s.bridge_transfers id).message_id ≡ h)

pub create_transfer-IsIndexed :
    (hash : ℕ) (kind : Kind) → Keeps IsIndexed (create_transfer hash kind)
unfolding create_transfer
create_transfer-IsIndexed hash kind = record { at = λ s v h id e. ground (arith, v h id) }

pub IsIndexed-Invariant : Invariant IsIndexed
IsIndexed-Invariant = record {
  frame = record {
    on_token = λ s x h. h;
    on_bridge_is_operational = λ s x h. h;
    on_bridge_messages = λ s x h. h;
    on_limit_messages = λ s x h. h;
    on_current_limits = λ s x h. h;
    on_current_pending_burn = λ s x h. h;
    on_current_pending_mint = λ s x h. h;
    on_transfer_messages = λ s x h. h;
    on_daily_holds = λ s x h. h;
    on_daily_limits = λ s x h. h;
    on_daily_blocked = λ s x h. h;
    on_quorum = λ s x h. h;
    on_validators_count = λ s x h. h;
    on_validator_history = λ s x h. h;
    on_events = λ s x h. h;
    on_validators = λ s a h. h;
  };
  on_validator_votes = λ s x h. h;
  on_bridge_transfers = λ s id t e v h i k. ground (arith, v h i);
}
