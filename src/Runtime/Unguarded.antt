-- ===== src/Runtime/Unguarded.antt =====
-- What the calls of the token pallet do beside the bridge (runtime/src/token.rs,
-- runtime/src/lib.rs).
use akropolis_os_chain_node.Common.{ℕ, ◌+◌, ◌<◌, ◌≡◌, ◌≢◌, true, arith, refl}
use akropolis_os_chain_node.Common.Words.{u128_mod}
use akropolis_os_chain_node.Common.Action.{ok, returns, zoom}
use akropolis_os_chain_node.Origin.{signed}
use akropolis_os_chain_node.Token
use akropolis_os_chain_node.Token.Calls as Calls
use akropolis_os_chain_node.Token.Effects.{mint_tokens-ok}
use akropolis_os_chain_node.Token.Ledger.{check_token_exist-frame}
use akropolis_os_chain_node.Token.Refinement as TokenCalls
use akropolis_os_chain_node.Runtime.{State, Call, Context, dispatch}

mint-done :
    (who to token_id amount : ℕ) (s : Token.Storage)
    → let token = s.token_map token_id in
      returns (Token.check_token_exist token.symbol s) ≡ true
      → amount ≢ 0
      → s.balance token.id to + amount < u128_mod
      → s.total_supply 0 + amount < u128_mod
      → let (r, t) = Calls.mint (signed who) to token_id amount s in
        (r ≡ ok tt) × (t.balance token.id to ≡ s.balance token.id to + amount)
unfolding Calls.mint
mint-done who to token_id amount s known nonzero small supply =
    let token = s.token_map token_id in
    ground (
      arith,
      check_token_exist-frame token.symbol s,
      mint_tokens-ok token.id to amount s nonzero small supply,
    )

-- Whoever signs can mint a token with a symbol of a good length, for anyone, without a vote of the
-- bridge and while it is paused: the call succeeds, the receiver holds the amount more, and the
-- storage of the bridge stays as it is. The amount is not zero, and the balance and the supply do
-- not overflow.
pub dispatch-mint :
    {C : Type 0} (x : Context C) (who to token_id amount : ℕ) (s : State C)
    → let token = s.token.token_map token_id in
      returns (Token.check_token_exist token.symbol s.token) ≡ true
      → amount ≢ 0
      → s.token.balance token.id to + amount < u128_mod
      → s.token.total_supply 0 + amount < u128_mod
      → let (r, t) =
          dispatch x (signed who) (Call.token (TokenCalls.Call.mint to token_id amount)) s in
        (r ≡ ok tt)
        × (t.token.balance token.id to ≡ s.token.balance token.id to + amount)
        × (t.bridge ≡ s.bridge)
unfolding dispatch zoom TokenCalls.dispatch
dispatch-mint x who to token_id amount s known nonzero small supply =
    let (done, holds) = mint-done who to token_id amount s.token known nonzero small supply in
    (done, holds, refl)
