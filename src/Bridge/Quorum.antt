-- ===== src/Bridge/Quorum.antt =====
-- Votes in the bridge pallet: one for each validator, and nothing is carried out without enough.
use akropolis_os_chain_node.Common.{ℕ, ◌+◌, ◌<◌, ◌≡◌, Bool, true, not, ◌⊎◌, false, arith, unwrap_or}
use akropolis_os_chain_node.Common.Words.{u64_mod, u128_mod, wrapping_add}
use akropolis_os_chain_node.Common.Action.{ok, err, returns}
use akropolis_os_chain_node.Errors.{already_voted}
use akropolis_os_chain_node.Votes.{votes_are_enough}
use akropolis_os_chain_node.Types.{
  Status, Kind, transfer, limits, validator, bridge, BridgeTransfer, TransferMessage,
  default_transfer_message,
}
use akropolis_os_chain_node.Bridge.State.{Storage}
use akropolis_os_chain_node.Bridge.Messages.{
  set_pending, add_pending, add_pending_mint, update_status, is_final,
}
use akropolis_os_chain_node.Bridge.Sign.{decide, sign}

-- What is at stake in a vote: tokens, limits, validators, and whether the bridge runs.
abbrev pub SameAssets : Storage → Storage → Type 0
SameAssets s t =
    (t.token ≡ s.token)
    × (t.current_limits ≡ s.current_limits)
    × (t.bridge_is_operational ≡ s.bridge_is_operational)
    × (t.validators ≡ s.validators)
    × (t.validators_count ≡ s.validators_count)
    × (t.daily_limits ≡ s.daily_limits)

update_status-SameAssets :
    (id : ℕ) (st : Status) (kind : Kind) (s : Storage) → SameAssets s (update_status id st kind s).1
unfolding update_status
update_status-SameAssets id st transfer s = ground arith
update_status-SameAssets id st validator s = ground arith
update_status-SameAssets id st bridge s = ground arith
update_status-SameAssets id st limits s = ground arith

add_pending-SameAssets :
    (st : Status) (m : TransferMessage) (s : Storage) → SameAssets s (add_pending st m s).1
unfolding add_pending
add_pending-SameAssets Status.withdraw m s = ground arith
add_pending-SameAssets Status.deposit m s = ground arith
add_pending-SameAssets _ m s = ground arith

set_pending-SameAssets :
    (id : ℕ) (kind : Kind) (s : Storage) → SameAssets s (set_pending id kind s).1
unfolding set_pending
set_pending-SameAssets id transfer s =
    let h = s.message_id id in
    let m = unwrap_or (s.transfer_messages h) default_transfer_message in
    ground (
      arith,
      add_pending-SameAssets m.action m s,
      update_status-SameAssets h Status.pending transfer (add_pending m.action m s).1,
    )
set_pending-SameAssets id limits s =
    update_status-SameAssets (s.message_id id) Status.pending limits s
set_pending-SameAssets id validator s =
    update_status-SameAssets (s.message_id id) Status.pending validator s
set_pending-SameAssets id bridge s =
    update_status-SameAssets (s.message_id id) Status.pending bridge s

decide-SameAssets :
    (id : ℕ) (t : BridgeTransfer) (s : Storage) → SameAssets s (decide id t false s).1
unfolding decide
decide-SameAssets id t s = ground (arith, set_pending-SameAssets id t.kind s)

-- Without enough votes a vote moves no token and changes no limit, no validator and no switch,
-- whether it is counted or refused.
pub sign-SameAssets :
    (who id : ℕ) (s : Storage)
    → votes_are_enough (wrapping_add u64_mod (s.bridge_transfers id).votes 1) s.validators_count
      ≡ false
    → SameAssets s (sign who id s).1
unfolding sign
sign-SameAssets who id s h = ground (arith, decide-SameAssets id (s.bridge_transfers id) s)

-- A validator whose vote was counted cannot vote again: the second vote is refused and changes
-- nothing.
pub sign-sign :
    (who id : ℕ) (s : Storage)
    → (sign who id s).0 ≡ ok tt
    → let t = (sign who id s).1 in sign who id t ≡ (err already_voted, t)
unfolding sign
sign-sign who id s h = ground arith

-- A vote on a transfer that is closed is refused, and changes nothing.
pub sign-closed :
    (who id : ℕ) (s : Storage)
    → (s.bridge_transfers id).is_open ≡ false
    → (returns (sign who id s) ≡ false) × ((sign who id s).1 ≡ s)
unfolding sign
sign-closed who id s h = ground arith

decide-is_open :
    (id : ℕ) (t : BridgeTransfer) (enough : Bool) (s : Storage)
    → t.is_open ≡ true
    → ((decide id t enough s).0 ≡ ok (not enough)) ⊎ (returns (decide id t enough s) ≡ false)
unfolding decide
decide-is_open id t true s h = ground arith
decide-is_open id t false s h = ground arith

-- A vote that succeeds was the first one of its validator, on an open transfer. It is counted and
-- on record, and the transfer is closed exactly when the votes are enough.
pub sign-ok :
    (who id : ℕ) (s : Storage)
    → (sign who id s).0 ≡ ok tt
    → let t = (sign who id s).1 in
      let votes = wrapping_add u64_mod (s.bridge_transfers id).votes 1 in
      ((s.bridge_transfers id).is_open ≡ true)
      × (s.validator_votes id who ≡ false)
      × ((t.bridge_transfers id).votes ≡ votes)
      × (t.validator_votes id who ≡ true)
      × ((t.bridge_transfers id).is_open ≡ not (votes_are_enough votes s.validators_count))
unfolding sign
sign-ok who id s h =
    let stored = s.bridge_transfers id in
    let enough = votes_are_enough (wrapping_add u64_mod stored.votes 1) s.validators_count in
    (
      ground arith,
      ground arith,
      ground arith,
      ground arith,
      ground (arith, decide-is_open id stored enough s),
    )

-- A first vote of a validator on an open mint whose message is not settled, which is not yet enough,
-- succeeds and adds the whole amount to the pending mints, as long as they stay a `u128`.
sign-pending :
    (who id : ℕ) (s : Storage)
    → let stored = s.bridge_transfers id in
      let m = unwrap_or (s.transfer_messages stored.message_id) default_transfer_message in
      stored.is_open ≡ true
      → stored.kind ≡ transfer
      → s.message_id id ≡ stored.message_id
      → s.validator_votes id who ≡ false
      → m.action ≡ Status.deposit
      → is_final m.status ≡ false
      → votes_are_enough (wrapping_add u64_mod stored.votes 1) s.validators_count ≡ false
      → s.current_pending_mint + m.amount < u128_mod
      → ((sign who id s).0 ≡ ok tt)
        × ((sign who id s).1.current_pending_mint ≡ s.current_pending_mint + m.amount)
unfolding sign decide set_pending add_pending add_pending_mint update_status
sign-pending who id s o k i v a f n b = ground arith
