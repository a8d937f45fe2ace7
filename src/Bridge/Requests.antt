-- ===== src/Bridge/Requests.antt =====
-- What a request of a user or a validator asks for and leaves behind in the bridge pallet.
use akropolis_os_chain_node.Common.{
  ℕ, ◌+◌, ◌%◌, ◌<◌, ◌≡◌, true, false, none, some, arith, is_some, refl, contains, unwrap_or, [],
}
use akropolis_os_chain_node.Common.Words.{u128_mod}
use akropolis_os_chain_node.Common.Action.{ok, returns}
use akropolis_os_chain_node.Origin.{Origin, signed, root, unsigned}
use akropolis_os_chain_node.Types.{Status, Kind}
use akropolis_os_chain_node.Bridge.State.{Storage, Env, Preimage}
use akropolis_os_chain_node.Bridge.Limits.{get_day_pair, check_daily_account_volume}
use akropolis_os_chain_node.Bridge.Messages.{get_transfer_id_checked}
use akropolis_os_chain_node.Bridge.Calls.{
  set_transfer, multi_signed_mint, approve_transfer, confirm_transfer, pause_bridge,
}
use akropolis_os_chain_node.Bridge.Quorum.{sign-closed}

-- The volume check lets an account pass without a change, if it is not blocked and stays below.
check_daily_account_volume-ok :
    (env : Env) (token_id account amount : ℕ) (s : Storage)
    → (check_daily_account_volume env token_id account amount s).0 ≡ ok tt
    → ((check_daily_account_volume env token_id account amount s).1 ≡ s)
      × ((s.daily_limits token_id account + amount) % u128_mod
          < s.current_limits.day_max_limit_for_one_address)
      × (contains (unwrap_or (s.daily_blocked token_id (get_day_pair env.now).1) []) account
          ≡ false)
unfolding check_daily_account_volume
check_daily_account_volume-ok env token_id account amount s h = ground arith

get_transfer_id_checked-frame :
    (hash : ℕ) (kind : Kind) (s : Storage)
    → let t = (get_transfer_id_checked hash kind s).1 in
      (t.daily_limits ≡ s.daily_limits)
      × (t.transfer_messages ≡ s.transfer_messages)
      × (t.token ≡ s.token)
unfolding get_transfer_id_checked
get_transfer_id_checked-frame hash kind s = ground arith

-- A transfer to Ethereum that is accepted was asked for while the bridge ran, for an amount strictly
-- between the limits, which the pending burns leave room for, by an account that is not blocked
-- today and whose volume of the day stays below its limit. It is stored as a withdrawal under its
-- hash, its amount is added to that volume, and no token moves.
pub set_transfer-ok :
    (env : Env) (from to token_id amount : ℕ) (s : Storage)
    → (set_transfer env (signed from) to token_id amount s).0 ≡ ok tt
    → let t = (set_transfer env (signed from) to token_id amount s).1 in
      let hash = env.hash (Preimage.transfer from to amount env.now) in
      let volume = (s.daily_limits token_id from + amount) % u128_mod in
      (s.bridge_is_operational ≡ true)
      × (s.current_limits.min_tx_value < amount)
      × (amount < s.current_limits.max_tx_value)
      × (s.current_pending_burn + amount < s.current_limits.max_pending_tx_limit)
      × (volume < s.current_limits.day_max_limit_for_one_address)
      × (contains (unwrap_or (s.daily_blocked token_id (get_day_pair env.now).1) []) from ≡ false)
      × (t.daily_limits token_id from ≡ volume)
      × (t.transfer_messages hash
          ≡ some (record {
            message_id = hash;
            token = token_id;
            eth_address = to;
            substrate_address = from;
            amount = amount;
            status = Status.withdraw;
            action = Status.withdraw;
          }))
      × (t.token ≡ s.token)
unfolding set_transfer
set_transfer-ok env from to token_id amount s h = ground (
  arith,
  check_daily_account_volume-ok env token_id from amount s,
  get_transfer_id_checked-frame (env.hash (Preimage.transfer from to amount env.now)) Kind.transfer
      s,
)

-- While the bridge is paused, nobody can ask for a transfer, vote to mint, approve or confirm: each
-- of these calls fails for any origin and changes nothing.
pub paused :
    (env : Env) (o : Origin) (hash from to token_id amount : ℕ) (s : Storage)
    → s.bridge_is_operational ≡ false
    → (returns (set_transfer env o to token_id amount s) ≡ false)
      × ((set_transfer env o to token_id amount s).1 ≡ s)
      × (returns (multi_signed_mint o hash from to token_id amount s) ≡ false)
      × ((multi_signed_mint o hash from to token_id amount s).1 ≡ s)
      × (returns (approve_transfer o hash s) ≡ false)
      × ((approve_transfer o hash s).1 ≡ s)
      × (returns (confirm_transfer o hash s) ≡ false)
      × ((confirm_transfer o hash s).1 ≡ s)
unfolding set_transfer multi_signed_mint approve_transfer confirm_transfer
paused env root hash from to token_id amount s h = (refl, refl, refl, refl, refl, refl, refl, refl)
paused env (signed who) hash from to token_id amount s h = ground arith
paused env unsigned hash from to token_id amount s h =
    (refl, refl, refl, refl, refl, refl, refl, refl)

-- An approval of a message that was never announced is an approval of the message whose transfer
-- has the id 0.
pub approve_transfer-unknown :
    (o : Origin) (unknown first : ℕ) (s : Storage)
    → s.transfer_id unknown ≡ none
    → s.transfer_id first ≡ some 0
    → approve_transfer o unknown s ≡ approve_transfer o first s
unfolding approve_transfer
approve_transfer-unknown root unknown first s h k = refl
approve_transfer-unknown (signed who) unknown first s h k = ground arith
approve_transfer-unknown unsigned unknown first s h k = refl

-- Once the vote to pause is closed, the bridge cannot be paused again while that vote stays closed:
-- each request fails, whoever makes it, and changes nothing.
pub pause_bridge-closed :
    (env : Env) (o : Origin) (id : ℕ) (s : Storage)
    → is_some (s.bridge_messages (env.hash Preimage.pause)) ≡ true
    → s.transfer_id (env.hash Preimage.pause) ≡ some id
    → (s.bridge_transfers id).is_open ≡ false
    → (returns (pause_bridge env o s) ≡ false) × ((pause_bridge env o s).1 ≡ s)
unfolding pause_bridge
pause_bridge-closed env root id s h k c = (refl, refl)
pause_bridge-closed env (signed who) id s h k c = ground (arith, sign-closed who id s c)
pause_bridge-closed env unsigned id s h k c = (refl, refl)
