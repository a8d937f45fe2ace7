-- ===== src/Token/Solvency/Runs.antt =====
-- Histories of the token pallet (runtime/src/token.rs): its calls, by anyone and in any order.
use akropolis_os_chain_node.Common.{
  ℕ, ◌≤◌, ◌<◌, ◌≡◌, List, [], ◌∷◌, Option, arith, sym, subst, ◌⊎◌, inl, inr, Option-cases, ap,
}
use akropolis_os_chain_node.Common.Words.{u128_mod}
use akropolis_os_chain_node.Origin.{Origin, signed, root, unsigned}
use akropolis_os_chain_node.Token.{Storage, make_transfer, burn_tokens, mint_tokens}
use akropolis_os_chain_node.Token.Calls
use akropolis_os_chain_node.Token.Backing.{IsBacked-le}
use akropolis_os_chain_node.Token.Ledger.{check_token_exist-frame}
use akropolis_os_chain_node.Token.Refinement.{Call, dispatch, unsigned_stays}
use akropolis_os_chain_node.Token.Solvency.{
  IsSolvent, backed, make_transfer-IsSolvent, burn_tokens-IsSolvent, mint_tokens-IsSolvent,
}

-- The same balances, supplies and locks.
abbrev SameBooks : Storage → Storage → Type 0
SameBooks s t = (t.balance ≡ s.balance) × (t.total_supply ≡ s.total_supply) × (t.locked ≡ s.locked)

IsSolvent-same : (s t : Storage) → SameBooks s t → IsSolvent s → IsSolvent t
IsSolvent-same s t (balance, supply, locked) solvent = record {
  backing = backed (ap (λ f. f 0) balance) (ap (λ f. f 0) supply) solvent.backing;
  bound = subst (λ f. f 0 < u128_mod) (sym supply) solvent.bound;
  free = subst (λ f. (a : ℕ) → f 0 a ≡ 0) (sym locked) solvent.free;
}

IsSolvent-either :
    (s r t : Storage) → SameBooks s t ⊎ SameBooks r t → IsSolvent s → IsSolvent r → IsSolvent t
IsSolvent-either s r t (inl same) h k = IsSolvent-same s t same h
IsSolvent-either s r t (inr same) h k = IsSolvent-same r t same k

module _ (lookup : ℕ → Option ℕ) (who : ℕ) (s : Storage) where
  burn-books :
      (from token_id amount : ℕ)
      → let t = (Calls.burn (signed who) from token_id amount s).1 in
        SameBooks s t ⊎ SameBooks (burn_tokens 0 from amount s).1 t
  unfolding Calls.burn
  burn-books from token_id amount =
      ground (arith, check_token_exist-frame (s.token_map token_id).symbol s)

  mint-books :
      (to token_id amount : ℕ)
      → let t = (Calls.mint (signed who) to token_id amount s).1 in
        SameBooks s t ⊎ SameBooks (mint_tokens (s.token_map token_id).id to amount s).1 t
  unfolding Calls.mint
  mint-books to token_id amount =
      ground (arith, check_token_exist-frame (s.token_map token_id).symbol s)

  transfer_from-books :
      (from to token_id amount : ℕ)
      → let t = (Calls.transfer_from (signed who) from to token_id amount s).1 in
        SameBooks s t ⊎ SameBooks (make_transfer token_id from to amount s).1 t
  unfolding Calls.transfer_from
  transfer_from-books from to token_id amount = ground arith

  transfer-IsSolvent :
      (to token_id amount : ℕ)
      → IsSolvent s
      → IsSolvent (Calls.transfer lookup (signed who) to token_id amount s).1
  unfolding Calls.transfer
  transfer-IsSolvent to token_id amount solvent = elim (Option-cases (lookup to)) [
    | inl unknown ↦ IsSolvent-same s _ (ground arith) solvent
    | inr (target, found) ↦
        IsSolvent-either s (make_transfer token_id who target amount s).1 _ (ground arith) solvent
          (make_transfer-IsSolvent s solvent token_id who target amount)
  ]

  approve-books :
      (spender token_id v : ℕ)
      → SameBooks s (Calls.approve lookup (signed who) spender token_id v s).1
  unfolding Calls.approve
  approve-books spender token_id v = ground arith

dispatch-IsSolvent :
    (lookup : ℕ → Option ℕ) (o : Origin) (c : Call) (s : Storage)
    → IsSolvent s
    → IsSolvent (dispatch lookup o c s).1
unfolding dispatch
dispatch-IsSolvent lookup Origin.root c s solvent =
    subst IsSolvent (sym (unsigned_stays lookup root c s λ who e. cc)) solvent
dispatch-IsSolvent lookup Origin.unsigned c s solvent =
    subst IsSolvent (sym (unsigned_stays lookup unsigned c s λ who e. cc)) solvent
dispatch-IsSolvent lookup (Origin.signed who) (Call.burn from token_id amount) s solvent =
    IsSolvent-either s _ _ (burn-books lookup who s from token_id amount) solvent
      (burn_tokens-IsSolvent s solvent from amount)
dispatch-IsSolvent lookup (Origin.signed who) (Call.mint to token_id amount) s solvent =
    IsSolvent-either s _ _ (mint-books lookup who s to token_id amount) solvent
      (mint_tokens-IsSolvent s solvent (s.token_map token_id).id to amount)
dispatch-IsSolvent lookup (Origin.signed who) (Call.transfer to token_id amount) s solvent =
    transfer-IsSolvent lookup who s to token_id amount solvent
dispatch-IsSolvent lookup (Origin.signed who) (Call.approve spender token_id v) s solvent =
    IsSolvent-same s _ (approve-books lookup who s spender token_id v) solvent
dispatch-IsSolvent lookup (Origin.signed who) (Call.transfer_from from to token_id v) s solvent =
    IsSolvent-either s _ _ (transfer_from-books lookup who s from to token_id v) solvent
      (make_transfer-IsSolvent s solvent token_id from to v)

-- Calls in order, each with the accounts that the runtime looks up and with its origin. None of the
-- calls panics.
unfoldable pub run : List ((ℕ → Option ℕ) × Origin × Call) → Storage → Storage
run [] s = s
run ((lookup, o, c) ∷ calls) s = run calls (dispatch lookup o c s).1

-- After any calls of the token pallet, by anyone and in any order, from a state in which the accounts
-- hold the supply of token 0, a `u128`, and nothing of it is locked, it is so again: finitely many
-- accounts hold exactly the supply, and each of them holds no more than that.
pub run-IsSolvent :
    (calls : List ((ℕ → Option ℕ) × Origin × Call)) (s : Storage)
    → IsSolvent s
    → IsSolvent (run calls s) × ((a : ℕ) → (run calls s).balance 0 a ≤ (run calls s).total_supply 0)
unfolding run
run-IsSolvent [] s solvent = (solvent, IsBacked-le solvent.backing)
run-IsSolvent ((lookup, o, c) ∷ calls) s solvent =
    run-IsSolvent calls _ (dispatch-IsSolvent lookup o c s solvent)
