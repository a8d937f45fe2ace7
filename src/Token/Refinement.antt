-- ===== src/Token/Refinement.antt =====
-- The calls of the token pallet as steps of a ledger (runtime/src/token.rs).
use akropolis_os_chain_node.Common.{
  ℕ, ◌≡◌, ◌≢◌, leb, ◌==◌, Option, arith, refl, ap, Bool-cases, Option-cases, inl, inr,
}
use akropolis_os_chain_node.Common.Action.{Action, returns}
use akropolis_os_chain_node.Origin.{Origin, signed, root, unsigned}
use akropolis_os_chain_node.Token.{Storage, check_token_exist}
use akropolis_os_chain_node.Token.Calls
use akropolis_os_chain_node.Token.Ledger.{
  Step, view, IsSound, make_transfer-moved, burn_tokens-destroyed, mint_tokens-issued,
  check_token_exist-frame, ledger_eq,
}

transfer-Step :
    (lookup : ℕ → Option ℕ) (who to token_id amount : ℕ) (s : Storage)
    → IsSound s
    → Step (signed who) (view s) (view (Calls.transfer lookup (signed who) to token_id amount s).1)
unfolding Calls.transfer
transfer-Step lookup who to token_id amount s sound = elim (Option-cases (lookup to)) [
  | inl unknown ↦ Step.stay (ground arith)
  | inr (target, found) ↦ elim (make_transfer-moved token_id who target amount s sound) [
    | inl (fails, same) ↦ Step.stay (ground arith)
    | inr (done, covered, holding, permitted) ↦ elim (Bool-cases (amount == 0)) [
      | inl nothing ↦ Step.stay (ground arith)
      | inr something ↦
          Step.move who token_id target amount refl covered
            (ledger_eq (ground arith) (ground arith))
    ]
  ]
]

transfer_from-Step :
    (who from to token_id amount : ℕ) (s : Storage)
    → IsSound s
    → Step
        (signed who)
        (view s)
        (view (Calls.transfer_from (signed who) from to token_id amount s).1)
unfolding Calls.transfer_from
transfer_from-Step who from to token_id amount s sound =
    elim (make_transfer-moved token_id from to amount s sound) [
      | inl (fails, same) ↦ Step.stay (ground arith)
      | inr (done, covered, holding, permitted) ↦
          elim (Bool-cases (leb amount (s.allowance token_id from who))) [
            | inl allowed ↦
                Step.spend who token_id from to amount refl covered (ground arith)
                  (ledger_eq (ground arith) (ground arith))
            | inr refused ↦ Step.stay (ground arith)
          ]
    ]

approve-Step :
    (lookup : ℕ → Option ℕ) (who spender token_id v : ℕ) (s : Storage)
    → Step (signed who) (view s) (view (Calls.approve lookup (signed who) spender token_id v s).1)
unfolding Calls.approve
approve-Step lookup who spender token_id v s = elim (Option-cases (lookup spender)) [
  | inl unknown ↦ Step.stay (ground arith)
  | inr (target, found) ↦ Step.permit who token_id target v refl (ground arith)
]

burn-Step :
    (who from token_id amount : ℕ) (s : Storage)
    → IsSound s
    → Step (signed who) (view s) (view (Calls.burn (signed who) from token_id amount s).1)
unfolding Calls.burn
burn-Step who from token_id amount s sound =
    let frame = check_token_exist-frame (s.token_map token_id).symbol s in
    elim (burn_tokens-destroyed 0 from amount s sound) [
      | inl (fails, same) ↦ Step.stay (ground (arith, frame))
      | inr (done, covered, holding, permitted) ↦
          elim (Bool-cases (returns (check_token_exist (s.token_map token_id).symbol s))) [
            | inl known ↦
                Step.destroy who 0 from amount (s.locked 0 from) refl covered
                  (ledger_eq (ground (arith, frame)) (ground (arith, frame)))
            | inr unknown ↦ Step.stay (ground (arith, frame))
          ]
    ]

mint-Step :
    (who to token_id amount : ℕ) (s : Storage)
    → Step (signed who) (view s) (view (Calls.mint (signed who) to token_id amount s).1)
unfolding Calls.mint
mint-Step who to token_id amount s =
    let token = s.token_map token_id in
    let frame = check_token_exist-frame token.symbol s in
    elim (mint_tokens-issued token.id to amount s) [
      | inl (fails, same) ↦ Step.stay (ground (arith, frame))
      | inr (done, something, holding, permitted) ↦
          elim (Bool-cases (returns (check_token_exist token.symbol s))) [
            | inl known ↦
                Step.issue who token.id to amount refl something
                  (ledger_eq (ground (arith, frame)) (ground (arith, frame)))
            | inr unknown ↦ Step.stay (ground (arith, frame))
          ]
    ]

-- `Call` of the pallet.
pub data Call : Type 0 where
  burn : ℕ → ℕ → ℕ → Call
  mint : ℕ → ℕ → ℕ → Call
  transfer : ℕ → ℕ → ℕ → Call
  approve : ℕ → ℕ → ℕ → Call
  transfer_from : ℕ → ℕ → ℕ → ℕ → Call

unfoldable pub dispatch : (ℕ → Option ℕ) → Origin → Call → Action Storage Unit
dispatch lookup o (burn from token_id amount) = Calls.burn o from token_id amount
dispatch lookup o (mint to token_id amount) = Calls.mint o to token_id amount
dispatch lookup o (transfer to token_id amount) = Calls.transfer lookup o to token_id amount
dispatch lookup o (approve spender token_id v) = Calls.approve lookup o spender token_id v
dispatch lookup o (transfer_from from to token_id v) = Calls.transfer_from o from to token_id v

pub unsigned_stays :
    (lookup : ℕ → Option ℕ) (o : Origin) (c : Call) (s : Storage)
    → ((who : ℕ) → o ≢ signed who)
    → (dispatch lookup o c s).1 ≡ s
unfolding dispatch Calls.burn Calls.mint Calls.transfer Calls.approve Calls.transfer_from
unsigned_stays lookup (Origin.signed who) c s other = absurd (other who refl)
unsigned_stays lookup Origin.root (burn from token_id amount) s other = refl
unsigned_stays lookup Origin.root (mint to token_id amount) s other = refl
unsigned_stays lookup Origin.root (transfer to token_id amount) s other = refl
unsigned_stays lookup Origin.root (approve spender token_id v) s other = refl
unsigned_stays lookup Origin.root (transfer_from from to token_id v) s other = refl
unsigned_stays lookup Origin.unsigned (burn from token_id amount) s other = refl
unsigned_stays lookup Origin.unsigned (mint to token_id amount) s other = refl
unsigned_stays lookup Origin.unsigned (transfer to token_id amount) s other = refl
unsigned_stays lookup Origin.unsigned (approve spender token_id v) s other = refl
unsigned_stays lookup Origin.unsigned (transfer_from from to token_id v) s other = refl

-- Every call of the pallet, whether it succeeds or fails, is one step of a ledger on unbounded
-- numbers by its origin: it changes nothing, or its origin has signed and moves tokens that it
-- holds, permits others to take its tokens, spends what is permitted to it, issues or destroys.
-- Before the call the balances of a token, taken two by two, are a `u128` and each covers what is
-- locked of it.
pub dispatch-Step :
    (lookup : ℕ → Option ℕ) (o : Origin) (c : Call) (s : Storage)
    → IsSound s
    → Step o (view s) (view (dispatch lookup o c s).1)
unfolding dispatch
dispatch-Step lookup Origin.root c s sound =
    Step.stay (ap view (unsigned_stays lookup root c s λ who e. cc))
dispatch-Step lookup Origin.unsigned c s sound =
    Step.stay (ap view (unsigned_stays lookup unsigned c s λ who e. cc))
dispatch-Step lookup (Origin.signed who) (burn from token_id amount) s sound =
    burn-Step who from token_id amount s sound
dispatch-Step lookup (Origin.signed who) (mint to token_id amount) s sound =
    mint-Step who to token_id amount s
dispatch-Step lookup (Origin.signed who) (transfer to token_id amount) s sound =
    transfer-Step lookup who to token_id amount s sound
dispatch-Step lookup (Origin.signed who) (approve spender token_id v) s sound =
    approve-Step lookup who spender token_id v s
dispatch-Step lookup (Origin.signed who) (transfer_from from to token_id v) s sound =
    transfer_from-Step who from to token_id v s sound
