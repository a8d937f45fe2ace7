-- ===== src/Runtime/Histories.antt =====
-- A history of a test network (runtime/src/lib.rs) in which an account with a withdrawal that the
-- validators approved gets nearly 2 ^ 128 tokens from two burns.
use akropolis_os_chain_node.Common.{ℕ, ◌≡◌, List, [], ◌∷◌, map, refl, ◌*◌, ◌^◌, ◌-◌}
use akropolis_os_chain_node.Origin.{signed}
use akropolis_os_chain_node.Token.Refinement as TokenCalls
use akropolis_os_chain_node.Bridge.Run as BridgeRun
use akropolis_os_chain_node.Token.Calls as TokenPallet
use akropolis_os_chain_node.Token.Genesis.{genesis}
use akropolis_os_chain_node.Token.{lock, burn_tokens, deposit_event, check_token_exist}
use akropolis_os_chain_node.Bridge.Calls
use akropolis_os_chain_node.Bridge.Limits.{check_daily_account_volume}
use akropolis_os_chain_node.Bridge.Messages.{
  get_transfer_id_checked, set_pending, add_pending, update_status,
}
use akropolis_os_chain_node.Bridge.Sign.{sign, decide, execute}
use akropolis_os_chain_node.Bridge.Execute.{execute_transfer}
use akropolis_os_chain_node.Votes.{votes_are_enough}
use akropolis_os_chain_node.Common.Action.{zoom}
use akropolis_os_chain_node.ChainSpec.{bridge_validators}
use akropolis_os_chain_node.Runtime.{Call, Step, run, dispatch}
use akropolis_os_chain_node.Runtime.Tests.{start, context}

abbrev unit : ℕ
unit = 10 ^ 18

abbrev withdrawal : List (Step ℕ)
withdrawal =
    Step.call context (signed 5) (Call.token (TokenCalls.Call.mint 5 0 (40 * unit)))
    ∷ Step.call context (signed 5) (Call.bridge (BridgeRun.Call.set_transfer 6 0 (24 * unit)))
    ∷ map (λ v. Step.call context (signed v) (Call.bridge (BridgeRun.Call.approve_transfer 7)))
        bridge_validators

abbrev burns : List (Step ℕ)
burns =
    Step.call context (signed 5) (Call.token (TokenCalls.Call.burn 5 0 (12 * unit)))
    ∷ Step.call context (signed 5) (Call.token (TokenCalls.Call.burn 5 0 1))
    ∷ []

-- Account 5 holds 40 units, of which 24 are locked. The burns destroy 12 units and one token.
overdrawn :
    let s = run withdrawal start in
    let t = run burns s in
    (s.token.balance 0 5 ≡ 40 * unit)
    × (s.token.locked 0 5 ≡ 24 * unit)
    × (t.token.balance 0 5 ≡ 2 ^ 128 - 20 * unit - 1)
unfolding run dispatch BridgeRun.dispatch Calls.approve_transfer Calls.set_transfer
    TokenCalls.dispatch TokenPallet.mint TokenPallet.burn genesis check_daily_account_volume
    get_transfer_id_checked sign decide votes_are_enough set_pending add_pending update_status
    execute execute_transfer lock burn_tokens deposit_event check_token_exist zoom
overdrawn = (refl, refl, refl)
