-- ===== src/Runtime/Composition.antt =====
-- What holds of each pallet alone holds of the pallets together.
use akropolis_os_chain_node.Common.{List, [], ◌∷◌}
use akropolis_os_chain_node.Common.Action.{Outcome, ok, err, panicked, zoom}
use akropolis_os_chain_node.Origin.{Origin}
use akropolis_os_chain_node.Types
use akropolis_os_chain_node.Token
use akropolis_os_chain_node.Token.Refinement as TokenCalls
use akropolis_os_chain_node.Bridge.State as BridgeState
use akropolis_os_chain_node.Bridge.Run as BridgeRun
use akropolis_os_chain_node.Dao.State as DaoState
use akropolis_os_chain_node.Dao.Run as DaoRun
use akropolis_os_chain_node.Dao.Invariant.{Invariant}
use akropolis_os_chain_node.Runtime.{
  State, Call, Context, Step, view_bridge, view_dao, dispatch, after, step, run,
}

module _ {C : Type 0} {P : BridgeState.Storage → Type 0} {IsAllowed : Types.Action → Type 0}
    {Q : DaoState.Storage C → Type 0}
    (on_token : (s : BridgeState.Storage) (t : Token.Storage) → P s → P (record s { token = t }))
    (kept : BridgeRun.IsKept P) (inv : Invariant IsAllowed Q) where
  -- An invariant of the bridge and one of the daos, each about what its pallet sees.
  Both : State C → Type 0
  Both s = P (view_bridge s) × Q (view_dao s)

  dispatch-Both :
      (x : Context C) (o : Origin) (c : Call C) (s : State C) → Both s → Both (dispatch x o c s).1
  unfolding Both dispatch zoom
  dispatch-Both x o (Call.token c) s (p, q) =
      let t = (TokenCalls.dispatch x.lookup o c s.token).1 in
      (
        on_token (view_bridge s) t p,
        inv.on_outside s.currency t s.price_oracle s.marketplace (view_dao s) q,
      )
  dispatch-Both x o (Call.bridge c) s (p, q) =
      let t = (BridgeRun.dispatch x.env o c (view_bridge s)).1 in
      (
        (kept x.env o c).at (view_bridge s) p,
        inv.on_outside s.currency t.token s.price_oracle s.marketplace (view_dao s) q,
      )
  dispatch-Both x o (Call.dao c) s (p, q) =
      let t = (DaoRun.dispatch x.balances o c (view_dao s)).1 in
      (
        on_token (view_bridge s) t.token p,
        (DaoRun.dispatch-Keeps inv x.balances o c).at (view_dao s) q,
      )
  dispatch-Both x o (Call.marketplace proposal_id) s (p, q) =
      (p, inv.on_outside s.currency s.token s.price_oracle _ (view_dao s) q)
  dispatch-Both x o (Call.price_oracle c) s (p, q) =
      (p, inv.on_outside s.currency s.token _ s.marketplace (view_dao s) q)

  after-Both :
      (s : State C) (r : Outcome (Unit {0}) × State C) → Both s → Both r.1 → Both (after s r)
  after-Both s (ok _, t) h k = k
  after-Both s (err e, t) h k = k
  after-Both s (panicked, t) h k = h

  step-Both : (x : Step C) (s : State C) → Both s → Both (step x s)
  unfolding Both
  step-Both (Step.call x o c) s h = after-Both s (dispatch x o c s) h (dispatch-Both x o c s h)
  step-Both (Step.outside c) s (p, q) =
      (p, inv.on_outside c s.token s.price_oracle s.marketplace (view_dao s) q)

  pub run-Both :
      (steps : List (Step C)) (s : State C)
      → P (view_bridge s)
      → Q (view_dao s)
      → P (view_bridge (run steps s)) × Q (view_dao (run steps s))
  unfolding Both run
  run-Both [] s p q = (p, q)
  run-Both (x ∷ rest) s p q = let (p', q') = step-Both x s (p, q) in run-Both rest (step x s) p' q'
