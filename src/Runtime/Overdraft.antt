-- ===== src/Runtime/Overdraft.antt =====
-- What two burns do to an account with locked tokens (runtime/src/token.rs, runtime/src/lib.rs): the
-- free balance is a difference of balances that wraps around.
use akropolis_os_chain_node.Common.{
  ℕ, ◌+◌, ◌-◌, ◌<◌, ◌≤◌, ◌≡◌, ◌++◌, [], ◌∷◌, true, arith, refl, ap, ◌∙◌,
}
use akropolis_os_chain_node.Common.Words.{u128_mod, wrapping_sub}
use akropolis_os_chain_node.Common.Maps.{update, update₂}
use akropolis_os_chain_node.Common.Action.{ok, returns, zoom}
use akropolis_os_chain_node.Origin.{signed}
use akropolis_os_chain_node.Token
use akropolis_os_chain_node.Token.Calls as Calls
use akropolis_os_chain_node.Token.Ledger.{check_token_exist-frame}
use akropolis_os_chain_node.Token.Refinement as TokenCalls
use akropolis_os_chain_node.Runtime.{State, Call, Context, dispatch}

-- The storage after a burn of token 0.
abbrev burned : ℕ → ℕ → Token.Storage → Token.Storage
burned from amount s =
    let free = wrapping_sub u128_mod (s.balance 0 from) (s.locked 0 from) in
    record s {
      balance = update₂ s.balance 0 from (free - amount);
      total_supply = update s.total_supply 0 (s.total_supply 0 - amount);
      events = s.events ++ Token.Event.burn from amount ∷ [];
    }

burn-done :
    (who from token_id amount : ℕ) (s : Token.Storage)
    → let free = wrapping_sub u128_mod (s.balance 0 from) (s.locked 0 from) in
      returns (Token.check_token_exist (s.token_map token_id).symbol s) ≡ true
      → amount ≤ s.total_supply 0
      → 0 < free
      → amount ≤ free
      → Calls.burn (signed who) from token_id amount s ≡ (ok tt, burned from amount s)
unfolding Calls.burn Token.burn_tokens Token.deposit_event
burn-done who from token_id amount s known issued some_free enough =
    ground (arith, check_token_exist-frame (s.token_map token_id).symbol s)

known_burned :
    (from token_id amount : ℕ) (s : Token.Storage)
    → returns (Token.check_token_exist (s.token_map token_id).symbol s) ≡ true
    → returns (Token.check_token_exist (s.token_map token_id).symbol (burned from amount s)) ≡ true
unfolding Token.check_token_exist Token.validate_name
known_burned from token_id amount s known = ground (arith, known)

burn_twice-done :
    (who from token_id amount again : ℕ) (s : Token.Storage)
    → let held = s.balance 0 from in
      let locked = s.locked 0 from in
      returns (Token.check_token_exist (s.token_map token_id).symbol s) ≡ true
      → held < u128_mod
      → locked < held
      → amount + locked ≤ held
      → held < amount + locked + locked
      → amount + again ≤ s.total_supply 0
      → amount + again + locked + locked ≤ held + u128_mod
      → let (first, s') = Calls.burn (signed who) from token_id amount s in
        let (second, t) = Calls.burn (signed who) from token_id again s' in
        (first ≡ ok tt)
        × (second ≡ ok tt)
        × (t.balance 0 from + (amount + again + locked + locked) ≡ held + u128_mod)
burn_twice-done who from token_id amount again s known small some_free covered less issued fits =
    let e =
      burn-done who from token_id amount s known (omega (arith, issued)) (ground arith)
        (ground arith) in
    let f =
      burn-done who from token_id again (burned from amount s)
        (known_burned from token_id amount s known) (ground (arith, issued)) (ground arith)
        (ground arith) in
    let g = ap (λ r. Calls.burn (signed who) from token_id again r.1) e ∙ f in
    (
      ap (λ r. r.0) e,
      ap (λ r. r.0) g,
      ap (λ r. r.1.balance 0 from + (amount + again + s.locked 0 from + s.locked 0 from)) g
          ∙ ground arith,
    )

-- Whoever signs can burn tokens of an account twice, and the second burn makes tokens: when the
-- first leaves less than what is locked, the account holds 2 ^ 128 more after the second than both
-- amounts and twice the locked tokens leave of its balance. The first amount is of its free tokens,
-- both are covered by the supply, both and twice the locked tokens are at most 2 ^ 128 more than the
-- balance, and the symbol of the token has a good length.
pub dispatch-burn_twice :
    {C : Type 0} (x : Context C) (who from token_id amount again : ℕ) (s : State C)
    → let held = s.token.balance 0 from in
      let locked = s.token.locked 0 from in
      let burn =
        λ (n : ℕ). dispatch x (signed who) (Call.token (TokenCalls.Call.burn from token_id n)) in
      returns (Token.check_token_exist (s.token.token_map token_id).symbol s.token) ≡ true
      → held < u128_mod
      → locked < held
      → amount + locked ≤ held
      → held < amount + locked + locked
      → amount + again ≤ s.token.total_supply 0
      → amount + again + locked + locked ≤ held + u128_mod
      → let (first, s') = burn amount s in
        let (second, t) = burn again s' in
        (first ≡ ok tt)
        × (second ≡ ok tt)
        × (t.token.balance 0 from + (amount + again + locked + locked) ≡ held + u128_mod)
        × (t.bridge ≡ s.bridge)
unfolding dispatch zoom TokenCalls.dispatch
dispatch-burn_twice x who from token_id amount again s known small some_free covered less issued
      fits =
    let (first, second, holds) =
      burn_twice-done who from token_id amount again s.token known small some_free covered less
        issued fits in
    (first, second, holds, refl)
