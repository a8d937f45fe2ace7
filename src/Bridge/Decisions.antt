-- ===== src/Bridge/Decisions.antt =====
-- The vote that makes the votes enough: what was asked for is done.
use akropolis_os_chain_node.Common.{
  ℕ, ◌+◌, ◌≤◌, ◌<◌, ◌≡◌, ◌≢◌, true, false, some, arith, is_some, ap, sym, ◌∙◌, subst, unwrap_or,
}
use akropolis_os_chain_node.Common.Words.{u64_mod, u128_mod, wrapping_add}
use akropolis_os_chain_node.Common.Action.{ok, zoom}
use akropolis_os_chain_node.Origin.{signed}
use akropolis_os_chain_node.Votes.{votes_are_enough}
use akropolis_os_chain_node.Types.{
  Status, Kind, Limits, LimitMessage, TransferMessage, default_transfer_message,
}
use akropolis_os_chain_node.Token.Effects.{mint_tokens-ok}
use akropolis_os_chain_node.Bridge.State.{Storage, Env, Preimage}
use akropolis_os_chain_node.Bridge.Limits.{
  check_limits, check_amount, check_pending_mint, check_validator, check_operational,
}
use akropolis_os_chain_node.Bridge.Messages.{update_status, is_final}
use akropolis_os_chain_node.Bridge.Execute.{
  put_limits, deposit, execute_transfer, execute_deposit, execute_by_action,
}
use akropolis_os_chain_node.Bridge.Sign.{execute, decide, sign, settle}
use akropolis_os_chain_node.Bridge.Calls.{update_limits, multi_signed_mint}
use akropolis_os_chain_node.Bridge.Bounds.{InRange, check_limits_iff}

-- The vote of `who` on the open transfer `id` is its first, and makes the votes enough.
abbrev pub IsDeciding : ℕ → ℕ → Storage → Type 0
IsDeciding who id s =
    ((s.bridge_transfers id).is_open ≡ true)
    × (s.validator_votes id who ≡ false)
    × (votes_are_enough (wrapping_add u64_mod (s.bridge_transfers id).votes 1) s.validators_count
        ≡ true)

sign-decided :
    (who id : ℕ) (s : Storage)
    → IsDeciding who id s
    → let t = s.bridge_transfers id in
      (execute t.kind t.message_id s).0 ≡ ok tt
      → let (r, u) = sign who id s in
        (r ≡ ok tt)
        × (u.current_limits ≡ (execute t.kind t.message_id s).1.current_limits)
        × (u.token ≡ (execute t.kind t.message_id s).1.token)
        × (u.transfer_messages ≡ (execute t.kind t.message_id s).1.transfer_messages)
unfolding sign decide
sign-decided who id s (o, v, n) h = ground arith

put_limits-ok :
    (m : LimitMessage) (s : Storage)
    → (check_limits m.limits s ≡ (ok tt, s))
    → ((put_limits m s).0 ≡ ok tt) × ((put_limits m s).1.current_limits ≡ m.limits)
unfolding put_limits update_status
put_limits-ok m s h = ground arith

execute-limits :
    (hash : ℕ) (m : LimitMessage) (s : Storage)
    → s.limit_messages hash ≡ some m
    → check_limits m.limits s ≡ (ok tt, s)
    → ((execute Kind.limits hash s).0 ≡ ok tt)
      × ((execute Kind.limits hash s).1.current_limits ≡ m.limits)
unfolding execute
execute-limits hash m s e h =
    let st = (unwrap_or (s.transfer_messages hash) default_transfer_message).status in
    ground (arith, put_limits-ok (record m { status = settle st m.status }) s h)

-- A validator who asks for limits that can be set, which were asked for before and lack one vote,
-- sets them: the call succeeds, and these are the limits of the bridge.
pub update_limits-decided :
    (env : Env) (who id : ℕ) (l : Limits) (m : LimitMessage) (s : Storage)
    → let hash = env.hash (Preimage.limits l) in
      is_some (s.validators who) ≡ true
      → InRange l.max_tx_value
        × InRange l.day_max_limit
        × InRange l.day_max_limit_for_one_address
        × InRange l.max_pending_tx_limit
        × InRange l.min_tx_value
      → s.limit_messages hash ≡ some m
      → m.limits ≡ l
      → s.transfer_id hash ≡ some id
      → (s.bridge_transfers id).message_id ≡ hash
      → (s.bridge_transfers id).kind ≡ Kind.limits
      → IsDeciding who id s
      → let (r, t) = update_limits env (signed who) l s in (r ≡ ok tt) × (t.current_limits ≡ l)
unfolding update_limits check_validator
update_limits-decided env who id l m s trusted range e same i hash kind deciding =
    let checked = (check_limits_iff l s).1 range in
    let done =
      execute-limits (env.hash (Preimage.limits l)) m s e
        (subst (λ x. check_limits x s ≡ (ok tt, s)) (sym same) checked) in
    let executed =
      ap (λ k. execute k (s.bridge_transfers id).message_id s) kind
      ∙ ap (λ h. execute Kind.limits h s) hash in
    ground (
      arith,
      checked,
      done,
      executed,
      sign-decided who id s deciding (ap (λ x. x.0) executed ∙ done.0),
    )

deposit-ok :
    (m : TransferMessage) (s : Storage)
    → m.amount ≢ 0
    → m.amount ≤ s.current_pending_mint
    → s.token.balance m.token m.substrate_address + m.amount < u128_mod
    → s.token.total_supply 0 + m.amount < u128_mod
    → ((deposit m s).0 ≡ ok tt)
      × ((deposit m s).1.token.balance m.token m.substrate_address
          ≡ s.token.balance m.token m.substrate_address + m.amount)
unfolding deposit zoom update_status
deposit-ok m s nonzero pending small supply =
    ground (arith, mint_tokens-ok m.token m.substrate_address m.amount s.token nonzero small supply)

execute-deposit :
    (hash : ℕ) (m : TransferMessage) (s : Storage)
    → s.transfer_messages hash ≡ some m
    → m.action ≡ Status.deposit
    → is_final m.status ≡ false
    → m.amount ≢ 0
    → m.amount ≤ s.current_pending_mint
    → s.token.balance m.token m.substrate_address + m.amount < u128_mod
    → s.token.total_supply 0 + m.amount < u128_mod
    → ((execute Kind.transfer hash s).0 ≡ ok tt)
      × ((execute Kind.transfer hash s).1.token.balance m.token m.substrate_address
          ≡ s.token.balance m.token m.substrate_address + m.amount)
unfolding execute execute_transfer execute_by_action execute_deposit
execute-deposit hash m s e a f nonzero pending small supply =
    ground
      (arith, deposit-ok (record m { status = Status.approved }) s nonzero pending small supply)

-- A validator who asks for a mint that was asked for before, is neither canceled nor confirmed and
-- lacks one vote carries it out, while the bridge runs and the amount is within the limits: the call
-- succeeds, and the receiver holds the amount more. The amount is counted as pending, and neither the
-- balance nor the supply overflows.
pub multi_signed_mint-decided :
    (who id hash from : ℕ) (m : TransferMessage) (s : Storage)
    → is_some (s.validators who) ≡ true
    → s.bridge_is_operational ≡ true
    → s.current_limits.min_tx_value < m.amount
    → m.amount < s.current_limits.max_tx_value
    → s.current_pending_mint + m.amount < s.current_limits.max_pending_tx_limit
    → s.current_limits.max_pending_tx_limit < u128_mod
    → s.transfer_messages hash ≡ some m
    → m.action ≡ Status.deposit
    → is_final m.status ≡ false
    → s.transfer_id hash ≡ some id
    → (s.bridge_transfers id).message_id ≡ hash
    → (s.bridge_transfers id).kind ≡ Kind.transfer
    → IsDeciding who id s
    → m.amount ≤ s.current_pending_mint
    → s.token.balance m.token m.substrate_address + m.amount < u128_mod
    → s.token.total_supply 0 + m.amount < u128_mod
    → let (r, t) =
        multi_signed_mint (signed who) hash from m.substrate_address m.token m.amount s in
      (r ≡ ok tt)
      × (t.token.balance m.token m.substrate_address
          ≡ s.token.balance m.token m.substrate_address + m.amount)
unfolding multi_signed_mint check_validator check_operational check_amount check_pending_mint
multi_signed_mint-decided who id hash from m s trusted runs least most room bound e a f i h k
      deciding pending small supply =
    let done = execute-deposit hash m s e a f (omega arith) pending small supply in
    let executed =
      ap (λ x. execute x (s.bridge_transfers id).message_id s) k
      ∙ ap (λ x. execute Kind.transfer x s) h in
    ground (arith, done, executed, sign-decided who id s deciding (ap (λ x. x.0) executed ∙ done.0))
