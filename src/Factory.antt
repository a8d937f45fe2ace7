-- ===== src/Factory.antt =====
-- The transaction factory (transaction-factory/src/lib.rs) with the adapter of the node
-- (cli/src/factory_impl.rs): it fills blocks with transfers and imports them. The client of the
-- framework, the encoding, the hashes and the keys are parameters.
pub mod Progress
pub mod Termination
pub mod Contents
mod Tests
use akropolis_os_chain_node.Common.{
  ℕ, zero, suc, ◌+◌, ◌*◌, ◌/◌, ◌%◌, List, [], ◌∷◌, Option, none, some, Bool, true, false, ltb,
  if◌then◌else◌, length,
}
use akropolis_os_chain_node.Common.Words.{u32_mod, u64_mod, wrapping_add}
use akropolis_os_chain_node.Common.Action.{
  Action, pure, gets, modify, or_fail, or_panic, ◌>>=◌, ◌>>◌, for_each,
}
use akropolis_os_chain_node.Errors.{client_error}

-- `MinimumPeriod` and `ExistentialDeposit` of runtime/src/lib.rs.
abbrev pub slot_duration : ℕ
slot_duration = 3_000

abbrev pub minimum_period : ℕ
minimum_period = slot_duration / 2

abbrev pub existential_deposit : ℕ
existential_deposit = 1 * 100 * 1_000 * 1_000_000_000

pub record FactoryState : Type 0 where
  pub blocks : ℕ
  pub transactions : ℕ
  pub block_number : ℕ
  pub index : ℕ

unfoldable pub new : ℕ → ℕ → FactoryState
new blocks transactions = record {
  blocks = blocks;
  transactions = transactions;
  block_number = 0;
  index = 0;
}

-- `SignedExtra`: the period and the phase of the era, the nonce and the tip.
pub record SignedExtra : Type 0 where
  pub era : ℕ × ℕ
  pub nonce : ℕ
  pub tip : ℕ

abbrev pub build_extra : ℕ → ℕ → SignedExtra
build_extra index phase = record { era = (256, phase); nonce = index; tip = 0 }

-- `BalancesCall::transfer`
pub record Transfer : Type 0 where
  pub destination : ℕ
  pub amount : ℕ

pub record CheckedExtrinsic : Type 0 where
  pub signed_by : Option (ℕ × SignedExtra)
  pub function : Transfer

-- The version, the hash of the first block and that of the block before.
abbrev pub AdditionalSigned : Type 0
AdditionalSigned = ℕ × ℕ × ℕ

pub record UncheckedExtrinsic (G : Type 0) : Type 0 where
  pub signature : Option (ℕ × G × SignedExtra)
  pub function : Transfer

-- What is signed.
pub record Payload : Type 0 where
  pub function : Transfer
  pub extra : SignedExtra
  pub additional : AdditionalSigned

-- The timestamp and the finalized number.
pub record InherentData : Type 0 where
  pub timestamp : ℕ
  pub finalized : ℕ

-- The encoding of a payload, a hash and a signature; `recode` encodes an extrinsic and decodes it.
-- `key_of_seed` is the account of the key that the random bytes of a seed give.
pub record Crypto (G : Type 0) : Type 0 where
  pub encode : Payload → List ℕ
  pub blake2_256 : List ℕ → List ℕ
  pub sign_with : ℕ → List ℕ → G
  pub recode : UncheckedExtrinsic G → Option (UncheckedExtrinsic G)
  pub account_of_seed : ℕ → ℕ
  pub alice : ℕ
  pub alice_pair : ℕ

-- The client, over states `K`, block builders `D`, blocks `B` and extrinsics `X` of its own. `none` is
-- an error.
pub record Client (G K D B X : Type 0) : Type 0 where
  pub best_chain : K → Option ℕ
  pub runtime_version_at : K → ℕ → Option ℕ
  pub genesis_hash : K → Option (Option ℕ)
  pub inherent_extrinsics : K → ℕ → InherentData → Option (List X)
  pub new_block : K → Option D
  pub of_transfer : UncheckedExtrinsic G → Option X
  pub push : D → X → Option D
  pub build : D → Option B
  pub hash_of : B → ℕ
  pub import_block : K → B → Option K

-- What the factory changes: its state, the client and the hash of the best block.
pub record World (K : Type 0) : Type 0 where
  pub factory : FactoryState
  pub chain : K
  pub best_hash : ℕ

module _ {K : Type 0} where
  unfoldable pub set_factory : FactoryState → Action (World K) Unit
  set_factory f = modify λ w. record w { factory = f }

  unfoldable pub set_block_number : ℕ → Action (World K) Unit
  set_block_number value =
      modify λ w. record w { factory = record w.factory { block_number = value } }

  unfoldable pub set_best_hash : ℕ → Action (World K) Unit
  set_best_hash hash = modify λ w. record w { best_hash = hash }

  unfoldable pub set_chain : K → Action (World K) Unit
  set_chain k = modify λ w. record w { chain = k }

module _ {G : Type 0} (crypto : Crypto G) where
  -- `none` is the failure of an `expect`.
  unfoldable pub sign : CheckedExtrinsic → ℕ → AdditionalSigned → Option (UncheckedExtrinsic G)
  sign xt key additional_signed = elim xt.signed_by [
    | some (signed, extra) ↦
        let b =
          crypto.encode
            (record { function = xt.function; extra = extra; additional = additional_signed }) in
        let signature =
          if ltb 256 (length b)
          then crypto.sign_with key (crypto.blake2_256 b)
          else crypto.sign_with key b in
        crypto.recode
          (record { signature = some (signed, signature, extra); function = xt.function })
    | none ↦ crypto.recode (record { signature = none; function = xt.function })
  ]

  unfoldable pub transfer_extrinsic :
      {K : Type 0} → ℕ → ℕ → ℕ → ℕ → ℕ → ℕ → ℕ → Action (World K) (UncheckedExtrinsic G)
  unfolding ◌>>=◌ set_factory
  transfer_extrinsic sender key destination amount version genesis_hash prior_block_hash = do
    f ← gets (λ w. w.factory)
    set_factory (record f { index = wrapping_add u32_mod f.index 1 })
    or_panic (
        sign
          (record {
            signed_by = some (sender, build_extra f.index f.block_number);
            function = record { destination = destination; amount = amount };
          })
          key (version, genesis_hash, prior_block_hash))

abbrev pub inherent_data : FactoryState → InherentData
inherent_data f = record {
  timestamp = (f.block_number + 1) * minimum_period % u64_mod;
  finalized = f.block_number;
}

-- `a..b`
abbrev pub range : ℕ → ℕ → List ℕ
range a zero = []
range a (suc n) = a ∷ range (a + 1) n

module _ {G K D B X : Type 0} (crypto : Crypto G) (client : Client G K D B X) where
  -- The body of `for tx_num in 0..tx_per_block`.
  unfoldable pub push_transfer : ℕ → ℕ → ℕ → D → ℕ → Action (World K) D
  unfolding ◌>>=◌ transfer_extrinsic
  push_transfer amount version genesis_hash block tx_num = do
    number ← gets (λ w. w.factory.block_number)
    best_hash ← gets (λ w. w.best_hash)
    let seed = tx_num * (number + 1) % u32_mod
    let to = crypto.account_of_seed seed
    transfer ←
        transfer_extrinsic crypto crypto.alice crypto.alice_pair to amount version genesis_hash
          best_hash
    extrinsic ← or_panic (client.of_transfer transfer)
    or_panic (client.push block extrinsic)

  unfoldable pub push_transfers : ℕ → ℕ → ℕ → List ℕ → D → Action (World K) D
  unfolding ◌>>=◌ push_transfer
  push_transfers amount version genesis_hash [] block = pure block
  push_transfers amount version genesis_hash (tx_num ∷ rest) block = do
    more ← push_transfer amount version genesis_hash block tx_num
    push_transfers amount version genesis_hash rest more

  unfoldable pub push_inherents : List X → D → Action (World K) D
  unfolding ◌>>=◌
  push_inherents [] block = pure block
  push_inherents (inherent ∷ rest) block = do
    more ← or_panic (client.push block inherent)
    push_inherents rest more

  -- The body of the loop from `block.build()` on.
  unfoldable pub finish_block : ℕ → K → D → Action (World K) Unit
  unfolding ◌>>=◌ set_block_number set_best_hash set_chain
  finish_block block_number chain full = do
    block ← or_panic (client.build full)
    set_block_number (wrapping_add u32_mod block_number 1)
    set_best_hash (client.hash_of block)
    imported ← or_panic (client.import_block chain block)
    set_chain imported

  -- The body of the loop.
  unfoldable pub make_block : ℕ → ℕ → Action (World K) Unit
  unfolding ◌>>=◌ push_transfers push_inherents finish_block
  make_block version genesis_hash = do
    f ← gets (λ w. w.factory)
    best_hash ← gets (λ w. w.best_hash)
    chain ← gets (λ w. w.chain)
    inherents ← or_panic (client.inherent_extrinsics chain best_hash (inherent_data f))
    empty ← or_panic (client.new_block chain)
    filled ← push_transfers existential_deposit version genesis_hash (range 0 f.transactions) empty
    full ← push_inherents inherents filled
    finish_block f.block_number chain full

  -- `while block_number() < blocks()`; it returns whether the loop came to its end before the fuel did.
  unfoldable pub make_blocks : ℕ → ℕ → ℕ → Action (World K) Bool
  unfolding ◌>>=◌ make_block
  make_blocks zero version genesis_hash = pure false
  make_blocks (suc fuel) version genesis_hash = do
    f ← gets (λ w. w.factory)
    let rest = make_blocks fuel version genesis_hash
    if ltb f.block_number f.blocks then (do make_block version genesis_hash; rest) else pure true

  unfoldable pub factory : ℕ → Action (World K) Bool
  unfolding ◌>>=◌ set_best_hash make_blocks
  factory fuel = do
    chain ← gets (λ w. w.chain)
    best_hash ← or_fail (client.best_chain chain) client_error
    set_best_hash best_hash
    version ← or_fail (client.runtime_version_at chain best_hash) client_error
    found ← or_fail (client.genesis_hash chain) client_error
    genesis_hash ← or_panic found
    make_blocks fuel version genesis_hash
