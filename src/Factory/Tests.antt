-- ===== src/Factory/Tests.antt =====
-- The theorem on the transaction factory at a client that counts the blocks it imports.
use akropolis_os_chain_node.Common.{
  ℕ, suc, ◌*◌, ◌%◌, ◌≡◌, true, List, [], ◌∷◌, some, arith, refl, length,
}
use akropolis_os_chain_node.Common.Words.{u32_mod}
use akropolis_os_chain_node.Factory.{Crypto, Client, World, UncheckedExtrinsic, sign, factory, new}
use akropolis_os_chain_node.Factory.Progress.{Failures}
use akropolis_os_chain_node.Factory.Termination.{factory-finished}
use akropolis_os_chain_node.Common.Holds.{Holds}

abbrev crypto : Crypto ℕ
crypto = record {
  encode = λ p. p.function.destination ∷ p.function.amount ∷ p.extra.nonce ∷ [];
  blake2_256 = λ b. b;
  sign_with = λ key b. key;
  recode = λ u. some u;
  account_of_seed = λ seed. seed;
  alice = 1;
  alice_pair = 2;
}

-- A block is the list of its extrinsics, and the chain is how many blocks were imported.
abbrev Block : Type 0
Block = List (UncheckedExtrinsic ℕ)

abbrev client : Client ℕ ℕ Block Block (UncheckedExtrinsic ℕ)
client = record {
  best_chain = λ k. some k;
  runtime_version_at = λ k hash. some 2;
  genesis_hash = λ k. some (some 0);
  inherent_extrinsics = λ k hash d. some [];
  new_block = λ k. some [];
  of_transfer = λ u. some u;
  push = λ d x. some (x ∷ d);
  build = λ d. some d;
  hash_of = λ b. length b;
  import_block = λ k b. some (suc k);
}

reliable : Failures crypto client ⊥
unfolding sign
reliable = record {
  on_best_chain = λ k e. ground arith;
  on_version = λ k hash e. ground arith;
  on_genesis_hash = λ k e. ground arith;
  on_genesis = λ k e. ground arith;
  on_sign = λ xt key more e. ground arith;
  on_transfer = λ u e. ground arith;
  on_push = λ d x e. ground arith;
  on_inherents = λ k hash d e. ground arith;
  on_new_block = λ k e. ground arith;
  on_build = λ d e. ground arith;
  on_import = λ k b e. ground arith;
}

abbrev world : World ℕ
world = record {
  factory = record { blocks = 3; transactions = 4; block_number = 0; index = 0 };
  chain = 0;
  best_hash = 0;
}

factory-finished_example :
    Holds ⊥
      (λ finishes u.
        (finishes ≡ true) × (u.factory.block_number ≡ 3) × (u.factory.index ≡ 3 * 4 % u32_mod))
      (factory crypto client 4 world)
unfolding new
factory-finished_example = factory-finished crypto client reliable 3 4 world refl (omega arith)
