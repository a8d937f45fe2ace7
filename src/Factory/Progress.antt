-- ===== src/Factory/Progress.antt =====
-- How far the factory is: its state after some transfers or blocks, and what it may fail of
-- (transaction-factory/src/lib.rs).
use native.Mathlib.Nat.{suc-mul}
use akropolis_os_chain_node.Common.{
  ℕ, zero, suc, ◌+◌, ◌*◌, ◌%◌, ◌<◌, ◌≡◌, none, some, arith, refl, length,
}
use akropolis_os_chain_node.Common.Words.{u32_mod, wrapping_add}
use akropolis_os_chain_node.Factory.{
  FactoryState, CheckedExtrinsic, UncheckedExtrinsic, AdditionalSigned, InherentData, Crypto,
  Client, range, sign,
}

-- What follows if the client or the encoding fails.
pub record Failures {G K D B X : Type 0} (crypto : Crypto G) (client : Client G K D B X)
    (Fail : Type 0) : Type 0 where
  pub on_best_chain : (k : K) → client.best_chain k ≡ none → Fail
  pub on_version : (k : K) (hash : ℕ) → client.runtime_version_at k hash ≡ none → Fail
  pub on_genesis_hash : (k : K) → client.genesis_hash k ≡ none → Fail
  pub on_genesis : (k : K) → client.genesis_hash k ≡ some none → Fail
  pub on_sign :
      (xt : CheckedExtrinsic) (key : ℕ) (more : AdditionalSigned)
      → sign crypto xt key more ≡ none
      → Fail
  pub on_transfer : (u : UncheckedExtrinsic G) → client.of_transfer u ≡ none → Fail
  pub on_push : (d : D) (x : X) → client.push d x ≡ none → Fail
  pub on_inherents :
      (k : K) (hash : ℕ) (d : InherentData) → client.inherent_extrinsics k hash d ≡ none → Fail
  pub on_new_block : (k : K) → client.new_block k ≡ none → Fail
  pub on_build : (d : D) → client.build d ≡ none → Fail
  pub on_import : (k : K) (b : B) → client.import_block k b ≡ none → Fail

-- The factory `f` after `n` more transfers, and after one more block.
abbrev pub advanced : FactoryState → ℕ → FactoryState
advanced f n = record f { index = (f.index + n) % u32_mod }

abbrev pub made : FactoryState → FactoryState
made f = record (advanced f f.transactions) { block_number = wrapping_add u32_mod f.block_number 1 }

-- The factory `f` after `k` more blocks.
abbrev pub finished : FactoryState → ℕ → FactoryState
finished f k = record f {
  block_number = f.block_number + k;
  index = (f.index + k * f.transactions) % u32_mod;
}

pub state_eq :
    (f : FactoryState) {a b c d : ℕ}
    → a ≡ b
    → c ≡ d
    → Path FactoryState
        (record f { block_number = a; index = c })
        (record f { block_number = b; index = d })
state_eq f p q = cc

pub finished-zero : (f : FactoryState) → f.index < u32_mod → f ≡ finished f 0
finished-zero f small = state_eq f (omega arith) (omega arith)

pub finished-suc :
    (f : FactoryState) (k : ℕ)
    → f.block_number + 1 < u32_mod
    → finished (made f) k ≡ finished f (suc k)
finished-suc f k small =
    let more : suc k * f.transactions ≡ k * f.transactions + f.transactions =
      suc-mul k f.transactions in
    state_eq f (omega arith) (omega (arith, more))

pub length-range : (a n : ℕ) → length (range a n) ≡ n
length-range a zero = refl
length-range a (suc n) = omega (arith, length-range (a + 1) n)
