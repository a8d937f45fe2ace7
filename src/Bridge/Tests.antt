-- ===== src/Bridge/Tests.antt =====
-- The theorems on the bridge pallet at concrete states.
use akropolis_os_chain_node.Common.{
  ℕ, length, ◌+◌, ◌*◌, ◌%◌, ◌<◌, ◌≡◌, Bool, true, false, not, List, [], ◌∷◌, none, some, Option,
  arith, refl, contains, unwrap_or, if◌then◌else◌, ltb,
}
use akropolis_os_chain_node.Common.Words.{u64_mod, u128_mod, wrapping_add}
use akropolis_os_chain_node.Common.Maps.{update, update₂}
use akropolis_os_chain_node.Common.Action.{ok, panicked, err, returns, zoom}
use akropolis_os_chain_node.Errors.{daily_hold}
use akropolis_os_chain_node.Origin.{Origin, signed}
use akropolis_os_chain_node.Types.{Status, Kind, Limits, TransferMessage, default_bridge_transfer}
use akropolis_os_chain_node.Votes.{votes_are_enough}
use akropolis_os_chain_node.Token.{lock}
use akropolis_os_chain_node.Token.Tests.{no_tokens}
use akropolis_os_chain_node.Bridge.State.{Storage, Env, Preimage, day}
use akropolis_os_chain_node.Bridge.Limits.{get_day_pair, check_daily_account_volume}
use akropolis_os_chain_node.Bridge.Execute.{
  execute_transfer, withdraw, execute_burn, unlock_canceled, check_daily_holds,
}
use akropolis_os_chain_node.Bridge.Messages.{
  set_pending, add_pending, update_status, get_transfer_id_checked,
}
use akropolis_os_chain_node.Bridge.Sign.{sign, decide, execute}
use akropolis_os_chain_node.Bridge.Calls.{
  set_transfer, multi_signed_mint, confirm_transfer, update_limits,
}
use akropolis_os_chain_node.Bridge.Index.{IsIndexed}
use akropolis_os_chain_node.Bridge.Run.{
  Call, dispatch, run, run-IsIndexed, IsTrusted, run-IsTrusted,
}
use akropolis_os_chain_node.Bridge.Quorum.{SameAssets, sign-SameAssets, sign-ok}
use akropolis_os_chain_node.Bridge.Bounds.{check_daily_holds-refused}
use akropolis_os_chain_node.Bridge.Requests.{set_transfer-ok}
use akropolis_os_chain_node.Bridge.Decisions.{update_limits-decided, multi_signed_mint-decided}
use akropolis_os_chain_node.Bridge.Reopening.{run-confirm_transfer}
use akropolis_os_chain_node.Bridge.Counted.{AllVoted}
use akropolis_os_chain_node.Bridge.Voters.{IsCounted, run-sign-voters}
use akropolis_os_chain_node.Bridge.Trust.{AreTrusted}
use akropolis_os_chain_node.Bridge.Withdrawals.{execute_burn-withdraw, unlock_canceled-withdraw}

abbrev hash : Preimage → ℕ
hash (Preimage.transfer _ _ _ _) = 7
hash (Preimage.limits _) = 8
hash Preimage.pause = 9
hash Preimage.resume = 10
hash (Preimage.account_at _ _) = 11

abbrev env : Env
env = record { hash = hash; now = 3 * day + 5 }

abbrev sound : Limits
sound = record {
  max_tx_value = 1_000;
  day_max_limit = 10_000;
  day_max_limit_for_one_address = 1_000;
  max_pending_tx_limit = 5_000;
  min_tx_value = 1;
}

abbrev is_validator : ℕ → Option Bool
is_validator a = if ltb a 4 then some true else none

-- A bridge with three validators, on which nothing happened.
abbrev start : Storage
start = record {
  token = record no_tokens { balance = λ _ _. 100; total_supply = λ _. 100 };
  bridge_is_operational = true;
  bridge_messages = λ _. none;
  limit_messages = λ _. none;
  current_limits = sound;
  current_pending_burn = 0;
  current_pending_mint = 0;
  bridge_transfers = λ _. default_bridge_transfer;
  bridge_transfers_count = 0;
  transfer_messages = λ _. none;
  transfer_id = λ _. none;
  message_id = λ _. 0;
  daily_holds = λ _. none;
  daily_limits = λ _ _. 0;
  daily_blocked = λ _ _. none;
  quorum = 2;
  validators_count = 3;
  validator_votes = λ _ _. false;
  validator_history = λ _. none;
  validators = is_validator;
  validator_accounts = 1 ∷ 2 ∷ 3 ∷ [];
  events = [];
}

-- A mint of 30 for account 5.
abbrev mint_message : TransferMessage
mint_message = record {
  message_id = 7;
  token = 0;
  eth_address = 6;
  substrate_address = 5;
  amount = 30;
  status = Status.deposit;
  action = Status.deposit;
}

-- The mint is announced as transfer 0.
abbrev announced : Storage
announced = record start {
  transfer_messages = update start.transfer_messages 7 (some mint_message);
  bridge_transfers =
      update start.bridge_transfers 0 (record default_bridge_transfer { message_id = 7 });
  transfer_id = update start.transfer_id 7 (some 0);
  message_id = update start.message_id 0 7;
  bridge_transfers_count = 1;
}

abbrev calls : List (Env × Origin × Call)
calls =
    (env, signed 1, Call.multi_signed_mint 7 6 5 0 30)
    ∷ (env, signed 2, Call.multi_signed_mint 7 6 5 0 30)
    ∷ (env, signed 5, Call.set_transfer 6 0 20)
    ∷ (env, signed 3, Call.update_validator_list 12 1 (2 ∷ []))
    ∷ []

run-IsIndexed_example :
    IsIndexed (run calls start)
    × ((h k id : ℕ)
        → (run calls start).transfer_id h ≡ some id
        → (run calls start).transfer_id k ≡ some id
        → h ≡ k)
run-IsIndexed_example = run-IsIndexed calls start (λ h id e. ground arith)

run-IsTrusted_example : IsTrusted 1 (run calls start)
run-IsTrusted_example = run-IsTrusted 1 calls start refl

sign-ok_example :
    let t = (sign 1 0 announced).1 in
    let votes = wrapping_add u64_mod (announced.bridge_transfers 0).votes 1 in
    ((announced.bridge_transfers 0).is_open ≡ true)
    × (announced.validator_votes 0 1 ≡ false)
    × ((t.bridge_transfers 0).votes ≡ votes)
    × (t.validator_votes 0 1 ≡ true)
    × ((t.bridge_transfers 0).is_open ≡ not (votes_are_enough votes announced.validators_count))
unfolding sign decide votes_are_enough set_pending add_pending update_status
sign-ok_example = sign-ok 1 0 announced refl

sign-SameAssets_example : SameAssets announced (sign 1 0 announced).1
unfolding votes_are_enough
sign-SameAssets_example = sign-SameAssets 1 0 announced refl

abbrev closed : Storage
closed = record announced {
  bridge_transfers =
      update announced.bridge_transfers 0
        (record default_bridge_transfer { message_id = 7; is_open = false });
}

-- Account 5 asks for 76 of its 100 tokens.
abbrev great : TransferMessage
great = record mint_message { amount = 76; action = Status.withdraw; status = Status.approved }

check_daily_holds-refused_example : (check_daily_holds great start).0 ≡ err daily_hold
check_daily_holds-refused_example =
    check_daily_holds-refused great start (omega arith) (omega arith)

set_transfer-ok_example :
    let t = (set_transfer env (signed 5) 6 0 20 start).1 in
    let volume = (start.daily_limits 0 5 + 20) % u128_mod in
    (start.bridge_is_operational ≡ true)
    × (start.current_limits.min_tx_value < 20)
    × (20 < start.current_limits.max_tx_value)
    × (start.current_pending_burn + 20 < start.current_limits.max_pending_tx_limit)
    × (volume < start.current_limits.day_max_limit_for_one_address)
    × (contains (unwrap_or (start.daily_blocked 0 (get_day_pair env.now).1) []) 5 ≡ false)
    × (t.daily_limits 0 5 ≡ volume)
    × (t.transfer_messages 7
        ≡ some (record {
          message_id = 7;
          token = 0;
          eth_address = 6;
          substrate_address = 5;
          amount = 20;
          status = Status.withdraw;
          action = Status.withdraw;
        }))
    × (t.token ≡ start.token)
unfolding set_transfer check_daily_account_volume get_transfer_id_checked
set_transfer-ok_example = set_transfer-ok env 5 6 0 20 start refl

-- Account 5 takes 30 of its 100 tokens to Ethereum.
abbrev request : TransferMessage
request = record mint_message { action = Status.withdraw; status = Status.approved }

abbrev requested : Storage
requested = record announced {
  transfer_messages = update start.transfer_messages 7 (some request);
  current_pending_burn = 40;
}

-- After the withdrawal account 5 has got 10 more.
abbrev richer : Storage
richer =
    let t = (withdraw request requested).1 in
    record t { token = record t.token { balance = update₂ t.token.balance 0 5 110 } }

execute_burn-withdraw_example :
    let u = (execute_burn 7 richer).1 in
    (u.token.balance 0 5 + 30 ≡ richer.token.balance 0 5) × (u.token.locked 0 5 ≡ 0)
unfolding execute_burn withdraw check_daily_holds zoom lock
execute_burn-withdraw_example =
    execute_burn-withdraw request request requested richer refl refl refl refl refl (omega arith)
      refl refl

-- A second withdrawal, of 10.
abbrev smaller : TransferMessage
smaller = record request { amount = 10 }

unlock_canceled-withdraw_example :
    (richer.token.locked 0 5 ≡ (withdraw request requested).1.token.locked 0 5
      → let (r, u) = unlock_canceled request richer in
        (r ≡ ok tt) × (u.token.balance ≡ richer.token.balance) × (u.token.locked 0 5 ≡ 0))
    × ((withdraw smaller richer).0 ≡ ok tt
        → (unlock_canceled request (withdraw smaller richer).1).0 ≡ panicked)
unfolding withdraw check_daily_holds zoom lock
unlock_canceled-withdraw_example =
    unlock_canceled-withdraw request smaller requested richer refl refl refl (omega arith)

-- Both of these hypotheses hold.
smaller_done :
    (richer.token.locked 0 5 ≡ (withdraw request requested).1.token.locked 0 5)
    × ((withdraw smaller richer).0 ≡ ok tt)
unfolding withdraw check_daily_holds zoom lock
smaller_done = (refl, refl)

-- New limits were asked for as transfer 0, and have one vote.
abbrev asked : Storage
asked = record start {
  limit_messages =
      update start.limit_messages 8
        (some (record { id = 8; limits = sound; status = Status.update_limits }));
  bridge_transfers =
      update start.bridge_transfers 0
        (record default_bridge_transfer { message_id = 8; kind = Kind.limits; votes = 1 });
  transfer_id = update start.transfer_id 8 (some 0);
}

update_limits-decided_example :
    let (r, t) = update_limits env (signed 1) sound asked in
    (r ≡ ok tt) × (t.current_limits ≡ sound)
unfolding votes_are_enough
update_limits-decided_example =
    update_limits-decided env 1 0 sound
      (record { id = 8; limits = sound; status = Status.update_limits }) asked refl
      (
        (omega arith, omega arith),
        (omega arith, omega arith),
        (omega arith, omega arith),
        (omega arith, omega arith),
        (omega arith, omega arith),
      )
      refl refl refl refl refl (refl, refl, refl)

-- The announced mint has one vote, and its amount is pending.
abbrev voted : Storage
voted = record announced {
  bridge_transfers =
      update start.bridge_transfers 0
        (record default_bridge_transfer { message_id = 7; votes = 1 });
  current_pending_mint = 30;
}

multi_signed_mint-decided_example :
    let (r, t) = multi_signed_mint (signed 2) 7 6 5 0 30 voted in
    (r ≡ ok tt) × (t.token.balance 0 5 ≡ 100 + 30)
unfolding votes_are_enough
multi_signed_mint-decided_example =
    multi_signed_mint-decided 2 0 7 6 mint_message voted refl refl (omega arith) (omega arith)
      (omega arith) (omega arith) refl refl refl refl refl refl (refl, refl, refl) (omega arith)
      (omega arith) (omega arith)

-- A bridge that does not list validator 3, who votes to mint before validator 1 does.
abbrev later : Storage
later = record announced { validator_accounts = 1 ∷ 2 ∷ [] }

run-confirm_transfer_example :
    let t = run ((env, signed 1, Call.multi_signed_mint 7 6 5 0 30) ∷ []) (sign 3 0 later).1 in
    (t.validator_accounts ≡ 1 ∷ 2 ∷ [])
    × (t.validator_votes 0 3 ≡ true)
    × (returns (confirm_transfer (signed 3) 7 t) ≡ false)
unfolding sign decide votes_are_enough set_pending add_pending update_status
run-confirm_transfer_example =
    run-confirm_transfer ((env, signed 1, Call.multi_signed_mint 7 6 5 0 30) ∷ []) 3 0 7 later refl
      refl refl

start-IsCounted : (s : Storage) → s ≡ start → IsCounted s
start-IsCounted s e id = ([], tt, ground (arith, e))

-- Validator 2 follows validator 1, and closes the mint.
abbrev one_vote : List (Env × Origin × Call)
one_vote = (env, signed 1, Call.multi_signed_mint 7 6 5 0 30) ∷ []

start-AreTrusted : AreTrusted start
start-AreTrusted id a v = ground (arith, v)

run-sign-voters_example :
    let t = run one_vote start in
    let u = (sign 2 0 t).1 in
    (voters : List ℕ) × AllVoted (u.validator_votes 0) voters
    × ((a : ℕ) → contains voters a ≡ true → IsTrusted a u)
    × (votes_are_enough (length voters) t.validators_count ≡ true)
unfolding sign run dispatch multi_signed_mint decide votes_are_enough set_pending add_pending
    update_status execute execute_transfer zoom
run-sign-voters_example =
    run-sign-voters one_vote 2 0 start (start-IsCounted start refl) start-AreTrusted refl refl refl
