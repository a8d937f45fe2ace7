-- ===== src/Token/Allowances.antt =====
-- What a spender can take with `transfer_from`.
use akropolis_os_chain_node.Common.{ℕ, ◌+◌, ◌≡◌, false, if◌then◌else◌, List, [], ◌∷◌, arith, refl}
use akropolis_os_chain_node.Common.Action.{returns}
use akropolis_os_chain_node.Origin.{Origin, signed}
use akropolis_os_chain_node.Token.{Storage}
use akropolis_os_chain_node.Token.Calls.{transfer_from}

module _ (spender from token_id : ℕ) where
  -- The calls of one spender from one account, each with a receiver and a value, in order.
  pub run : List (ℕ × ℕ) → Storage → Storage
  run [] s = s
  run ((to, value) ∷ calls) s =
      run calls (transfer_from (signed spender) from to token_id value s).1

  -- What the successful ones of these calls took.
  pub taken : List (ℕ × ℕ) → Storage → ℕ
  taken [] s = 0
  taken ((to, value) ∷ calls) s =
      let result = transfer_from (signed spender) from to token_id value s in
      (if returns result then value else 0) + taken calls result.1

  pub transfer_from-allowance :
      (to value : ℕ) (s : Storage)
      → let result = transfer_from (signed spender) from to token_id value s in
        (if returns result then value else 0) + result.1.allowance token_id from spender
        ≡ s.allowance token_id from spender
  unfolding transfer_from
  transfer_from-allowance to value s = ground arith

-- A call of `transfer_from` that does not succeed leaves the storage of the pallet as it was.
pub transfer_from-atomic :
    (origin : Origin) (from to token_id value : ℕ) (s : Storage)
    → returns (transfer_from origin from to token_id value s) ≡ false
    → (transfer_from origin from to token_id value s).1 ≡ s
unfolding transfer_from
transfer_from-atomic Origin.root from to token_id value s h = refl
transfer_from-atomic (Origin.signed who) from to token_id value s h = ground arith
transfer_from-atomic Origin.unsigned from to token_id value s h = refl
