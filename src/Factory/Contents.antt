-- ===== src/Factory/Contents.antt =====
-- What the factory puts into the chain: the blocks that it imports, and the transfers in them
-- (transaction-factory/src/lib.rs, cli/src/factory_impl.rs).
use mathlib.Core.List.{append-nil}
use akropolis_os_chain_node.Common.{
  ℕ, zero, suc, ◌+◌, ◌*◌, ◌%◌, ◌<◌, ◌≡◌, List, [], ◌∷◌, ◌++◌, some, true, false, ltb, arith, refl,
  length, ap, ◌∙◌, sym, subst,
}
use akropolis_os_chain_node.Common.Words.{u32_mod}
use akropolis_os_chain_node.Common.Action.{◌>>=◌}
use akropolis_os_chain_node.Common.Holds.{
  Holds, Holds-bind, Holds-map, Holds-both, or_panic-Holds, or_panic-Holds-some, or_fail-Holds,
}
use akropolis_os_chain_node.Errors.{client_error}
use akropolis_os_chain_node.Factory.{
  UncheckedExtrinsic, AdditionalSigned, Crypto, Client, World, range, set_factory, set_block_number,
  set_best_hash, set_chain, sign, transfer_extrinsic, push_transfer, push_transfers, push_inherents,
  finish_block, make_block, make_blocks, factory, new, inherent_data, existential_deposit,
}
use akropolis_os_chain_node.Factory.Progress.{Failures, advanced, made}
use akropolis_os_chain_node.Factory.Termination.{push_transfer-advanced, make_block-advanced}

-- What a client keeps: the blocks that were imported, the extrinsics in a block, and those pushed to
-- a builder, each in order.
pub record Ledger {G K D B X : Type 0} (client : Client G K D B X) : Type 0 where
  pub imported : K → List B
  pub contents : B → List X
  pub pushed : D → List X
  pub on_new_block : (k : K) (d : D) → client.new_block k ≡ some d → pushed d ≡ []
  pub on_push : (d e : D) (x : X) → client.push d x ≡ some e → pushed e ≡ pushed d ++ x ∷ []
  pub on_build : (d : D) (b : B) → client.build d ≡ some b → contents b ≡ pushed d
  pub on_import :
      (k l : K) (b : B) → client.import_block k b ≡ some l → imported l ≡ imported k ++ b ∷ []

append_assoc : {A : Type 0} (xs ys zs : List A) → (xs ++ ys) ++ zs ≡ xs ++ (ys ++ zs)
append_assoc [] ys zs = refl
append_assoc (x ∷ xs) ys zs = ap (λ l. x ∷ l) (append_assoc xs ys zs)

module _ {G K D B X : Type 0} (crypto : Crypto G) (client : Client G K D B X) where
  -- The transfer of the existential deposit from Alice to the account of a seed, signed by her.
  abbrev pub IsTransfer : ℕ → ℕ → ℕ → X → Type 0
  IsTransfer number nonce tx x =
      (more : AdditionalSigned) × (u : UncheckedExtrinsic G) × (sign crypto
          (record {
            signed_by = some (crypto.alice, record { era = (256, number); nonce = nonce; tip = 0 });
            function = record {
              destination = crypto.account_of_seed (tx * (number + 1) % u32_mod);
              amount = existential_deposit;
            };
          })
          crypto.alice_pair more
        ≡ some u)
      × (client.of_transfer u ≡ some x)

  -- Transfers with nonces and seeds that follow one another, in the block with the number.
  abbrev pub AreTransfers : ℕ → ℕ → ℕ → List X → Type 0
  AreTransfers number nonce tx [] = Unit
  AreTransfers number nonce tx (x ∷ xs) =
      IsTransfer number nonce tx x × AreTransfers number ((nonce + 1) % u32_mod) (tx + 1) xs

  module _ (ledger : Ledger client) where
    -- A block has as many transfers as asked for, and then inherents.
    abbrev pub IsBlock : ℕ → ℕ → ℕ → B → Type 0
    IsBlock transactions number nonce b =
        (xs : List X) × (inherents : List X) × (ledger.contents b ≡ xs ++ inherents)
        × (length xs ≡ transactions)
        × AreTransfers number nonce 0 xs

    abbrev pub AreBlocks : ℕ → ℕ → ℕ → List B → Type 0
    AreBlocks transactions number nonce [] = Unit
    AreBlocks transactions number nonce (b ∷ bs) =
        IsBlock transactions number nonce b
        × AreBlocks transactions (number + 1) ((nonce + transactions) % u32_mod) bs

    -- What pushing one transfer, or some, leaves in the builder.
    abbrev HasOne : ℕ → D → World K → D → Type 0
    HasOne tx block w d =
        (x : X) × (ledger.pushed d ≡ ledger.pushed block ++ x ∷ [])
        × IsTransfer w.factory.block_number w.factory.index tx x

    abbrev HasSome : ℕ → ℕ → D → World K → D → Type 0
    HasSome tx n block w d =
        (xs : List X) × (ledger.pushed d ≡ ledger.pushed block ++ xs)
        × (length xs ≡ n)
        × AreTransfers w.factory.block_number w.factory.index tx xs

    -- The chain after one block, or some, of as many transfers as the factory makes.
    abbrev HasBlock : World K → World K → Type 0
    HasBlock w u =
        (b : B) × (ledger.imported u.chain ≡ ledger.imported w.chain ++ b ∷ [])
        × IsBlock w.factory.transactions w.factory.block_number w.factory.index b

    abbrev pub HasBlocks : ℕ → World K → World K → Type 0
    HasBlocks k w u =
        (bs : List B) × (ledger.imported u.chain ≡ ledger.imported w.chain ++ bs)
        × (length bs ≡ k)
        × AreBlocks w.factory.transactions w.factory.block_number w.factory.index bs

    module _ {Fail : Type 0} (failures : Failures crypto client Fail) where
      push_transfer-pushed :
          (version genesis_hash : ℕ) (block : D) (tx : ℕ) (w : World K)
          → Holds Fail
              (λ d u. HasOne tx block w d)
              (push_transfer crypto client existential_deposit version genesis_hash block tx w)
      unfolding push_transfer transfer_extrinsic set_factory ◌>>=◌
      push_transfer-pushed version genesis_hash block tx w =
          let more : AdditionalSigned = (version, genesis_hash, w.best_hash) in
          Holds-bind Fail _ _ _ _
            (or_panic-Holds-some Fail (λ t u. sign crypto _ crypto.alice_pair more ≡ some t) _ _
              (failures.on_sign _ crypto.alice_pair more) (λ t e. e))
            λ t u signed.
              Holds-bind Fail (λ x v. client.of_transfer t ≡ some x) _ _ _
                (or_panic-Holds-some Fail _ (client.of_transfer t) u (failures.on_transfer t)
                  (λ x e. e))
                λ x v encoded.
                  or_panic-Holds-some Fail (λ d u. HasOne tx block w d) (client.push block x) v
                    (failures.on_push block x)
                    (λ d e. (x, ledger.on_push block d x e, (more, t, signed, encoded)))

      push_transfer-filled :
          (version genesis_hash : ℕ) (block : D) (tx : ℕ) (w : World K)
          → Holds Fail
              (λ d u. HasOne tx block w d × (u.factory ≡ advanced w.factory 1))
              (push_transfer crypto client existential_deposit version genesis_hash block tx w)
      push_transfer-filled version genesis_hash block tx w =
          Holds-both Fail _ _ _ (push_transfer-pushed version genesis_hash block tx w) (
            push_transfer-advanced crypto client failures existential_deposit version genesis_hash
              block tx w)

      push_transfers-filled :
          (version genesis_hash tx n : ℕ) (block : D) (w : World K)
          → Holds Fail
              (λ d u. HasSome tx n block w d)
              (push_transfers crypto client existential_deposit version genesis_hash
                (range tx n)
                block
                w)
      unfolding push_transfers ◌>>=◌
      push_transfers-filled version genesis_hash tx zero block w =
          ([], sym (append-nil (ledger.pushed block)), refl, tt)
      push_transfers-filled version genesis_hash tx (suc n) block w =
          Holds-bind Fail (λ d u. HasOne tx block w d × (u.factory ≡ advanced w.factory 1)) _
            (push_transfer crypto client existential_deposit version genesis_hash block tx w) _
            (push_transfer-filled version genesis_hash block tx w)
            λ more u ((x, first, one), step).
              Holds-map Fail (λ d v. HasSome (tx + 1) n more u d)
                (λ d v. HasSome tx (suc n) block w d)
                (push_transfers crypto client existential_deposit version genesis_hash
                  (range (tx + 1) n) more u)
                (λ d v (xs, rest, many, all). (
                  x ∷ xs,
                  rest ∙ ap (λ l. l ++ xs) first ∙ append_assoc (ledger.pushed block) (x ∷ []) xs,
                  omega (arith, many),
                  (one, subst (λ f. AreTransfers f.block_number f.index (tx + 1) xs) step all),
                ))
                (push_transfers-filled version genesis_hash (tx + 1) n more u)

      push_inherents-filled :
          (inherents : List X) (block : D) (w : World K)
          → Holds Fail
              (λ d u. (ys : List X) × (ledger.pushed d ≡ ledger.pushed block ++ ys))
              (push_inherents crypto client inherents block w)
      unfolding push_inherents ◌>>=◌
      push_inherents-filled [] block w = ([], sym (append-nil (ledger.pushed block)))
      push_inherents-filled (x ∷ rest) block w =
          Holds-bind Fail (λ d u. ledger.pushed d ≡ ledger.pushed block ++ x ∷ []) _ _
            (λ more. push_inherents crypto client rest more)
            (or_panic-Holds-some Fail _ (client.push block x) w (failures.on_push block x)
              (λ d e. ledger.on_push block d x e))
            λ more u first.
              Holds-map Fail (λ d v. (ys : List X) × (ledger.pushed d ≡ ledger.pushed more ++ ys))
                (λ d v. (ys : List X) × (ledger.pushed d ≡ ledger.pushed block ++ ys))
                (push_inherents crypto client rest more u)
                (λ d v (ys, e). (
                  x ∷ ys,
                  e ∙ ap (λ l. l ++ ys) first ∙ append_assoc (ledger.pushed block) (x ∷ []) ys,
                ))
                (push_inherents-filled rest more u)

      finish_block-filled :
          (number : ℕ) (chain : K) (full : D) (w : World K)
          → Holds Fail
              (λ _ u.
                (b : B) × (ledger.contents b ≡ ledger.pushed full)
                × (ledger.imported u.chain ≡ ledger.imported chain ++ b ∷ []))
              (finish_block crypto client number chain full w)
      unfolding finish_block set_block_number set_best_hash set_chain ◌>>=◌
      finish_block-filled number chain full w =
          Holds-bind Fail (λ b v. ledger.contents b ≡ ledger.pushed full) _ _ _
            (or_panic-Holds-some Fail _ (client.build full) w (failures.on_build full)
              (λ b e. ledger.on_build full b e))
            λ b v built.
              Holds-bind Fail (λ k u. ledger.imported k ≡ ledger.imported chain ++ b ∷ []) _ _ _
                (or_panic-Holds-some Fail _ (client.import_block chain b) _
                  (failures.on_import chain b) (λ k e. ledger.on_import chain k b e))
                λ k u e. (b, built, e)

      make_block-filled :
          (version genesis_hash : ℕ) (w : World K)
          → Holds Fail (λ _ u. HasBlock w u) (make_block crypto client version genesis_hash w)
      unfolding make_block ◌>>=◌
      make_block-filled version genesis_hash w =
          let f = w.factory in
          Holds-bind Fail (λ i u. u ≡ w) _ _ _
            (or_panic-Holds Fail _
              (client.inherent_extrinsics w.chain w.best_hash (inherent_data f)) w
              (failures.on_inherents w.chain w.best_hash (inherent_data f)) (λ i. refl))
            λ inherents u same.
              Holds-bind Fail (λ d v. (v ≡ w) × (ledger.pushed d ≡ [])) _ _ _
                (or_panic-Holds-some Fail _ (client.new_block w.chain) u
                  (failures.on_new_block w.chain) (λ d e. (same, ledger.on_new_block w.chain d e)))
                λ empty v (still, nothing).
                  Holds-bind Fail (λ d x. HasSome 0 f.transactions empty v d) _ _ _
                    (push_transfers-filled version genesis_hash 0 f.transactions empty v)
                    λ filled x (xs, first, many, all).
                      Holds-bind Fail
                        (λ d y. (ys : List X) × (ledger.pushed d ≡ ledger.pushed filled ++ ys)) _ _
                        _ (push_inherents-filled inherents filled x)
                        λ full y (ys, second).
                          Holds-map Fail
                            (λ _ u.
                              (b : B) × (ledger.contents b ≡ ledger.pushed full)
                              × (ledger.imported u.chain ≡ ledger.imported w.chain ++ b ∷ []))
                            (λ _ u. HasBlock w u)
                            (finish_block crypto client f.block_number w.chain full y)
                            (λ _ z (b, built, added). (
                              b,
                              added,
                              (
                                xs,
                                ys,
                                built
                                    ∙ second
                                    ∙ ap (λ l. l ++ ys) first
                                    ∙ ap (λ l. (l ++ xs) ++ ys) nothing,
                                many,
                                subst
                                    (λ a. AreTransfers a.factory.block_number a.factory.index 0 xs)
                                    still all,
                              ),
                            ))
                            (finish_block-filled f.block_number w.chain full y)

      -- One block, and then `k` more.
      more_blocks :
          (k : ℕ) (w u v : World K)
          → w.factory.block_number + 1 < u32_mod
          → HasBlock w u
          → u.factory ≡ made w.factory
          → HasBlocks k u v
          → HasBlocks (suc k) w v
      more_blocks k w u v small (b, first, one) step (bs, rest, many, all) = (
        b ∷ bs,
        rest ∙ ap (λ l. l ++ bs) first ∙ append_assoc (ledger.imported w.chain) (b ∷ []) bs,
        omega (arith, many),
        (
          one,
          subst (λ n. AreBlocks w.factory.transactions n (made w.factory).index bs) (omega arith)
              (subst (λ f. AreBlocks f.transactions f.block_number f.index bs) step all),
        ),
      )

      make_blocks-filled :
          (k fuel version genesis_hash : ℕ) (w : World K)
          → k < fuel
          → w.factory.blocks ≡ w.factory.block_number + k
          → w.factory.blocks < u32_mod
          → w.factory.index < u32_mod
          → Holds Fail
              (λ b u. HasBlocks k w u)
              (make_blocks crypto client fuel version genesis_hash w)
      unfolding make_blocks ◌>>=◌
      make_blocks-filled k zero version genesis_hash w h e small index = absurd (omega arith)
      make_blocks-filled zero (suc fuel) version genesis_hash w h e small index =
          let stops : ltb w.factory.block_number w.factory.blocks ≡ false = ground arith in
          rw stops ([], sym (append-nil (ledger.imported w.chain)), refl, tt)
      make_blocks-filled (suc k) (suc fuel) version genesis_hash w h e small index =
          let goes_on : ltb w.factory.block_number w.factory.blocks ≡ true = ground arith in
          rw goes_on (
            Holds-bind Fail (λ _ u. HasBlock w u × (u.factory ≡ made w.factory)) _
              (make_block crypto client version genesis_hash w) _
              (Holds-both Fail _ _ _ (make_block-filled version genesis_hash w)
                (make_block-advanced crypto client failures version genesis_hash w index))
              λ _ u (one, step).
                Holds-map Fail (λ _ v. HasBlocks k u v) (λ _ v. HasBlocks (suc k) w v)
                  (make_blocks crypto client fuel version genesis_hash u)
                  (λ b v rest. more_blocks k w u v (omega arith) one step rest)
                  (make_blocks-filled k fuel version genesis_hash u (omega arith)
                    (ground (arith, step)) (ground (arith, step)) (ground (arith, step))))

      -- Only the chain and the state of the factory matter.
      same_blocks :
          (k : ℕ) (w z u : World K)
          → z.factory ≡ w.factory
          → z.chain ≡ w.chain
          → HasBlocks k z u
          → HasBlocks k w u
      same_blocks k w z u f c (bs, added, many, all) = (
        bs,
        added ∙ ap (λ x. ledger.imported x ++ bs) c,
        many,
        subst (λ g. AreBlocks g.transactions g.block_number g.index bs) f all,
      )

      -- The blocks that the factory imports, unless the client or the encoding fails.
      pub factory-filled :
          (blocks transactions : ℕ) (w : World K)
          → w.factory ≡ new blocks transactions
          → blocks < u32_mod
          → Holds Fail (λ b u. HasBlocks blocks w u) (factory crypto client (blocks + 1) w)
      unfolding factory new set_best_hash ◌>>=◌
      factory-filled blocks transactions w e small =
          let chain = w.chain in
          Holds-bind Fail (λ h u. u ≡ w) _ _ _
            (or_fail-Holds Fail _ (client.best_chain chain) client_error w
              (failures.on_best_chain chain) (λ h q. refl))
            λ h u e1.
              Holds-bind Fail (λ v x. (x.factory ≡ w.factory) × (x.chain ≡ w.chain)) _ _ _
                (or_fail-Holds Fail _ (client.runtime_version_at chain h) client_error _
                  (failures.on_version chain h)
                  (λ v q. (ap (λ x. x.factory) e1, ap (λ x. x.chain) e1)))
                λ v x e2.
                  Holds-bind Fail
                    (λ found y.
                      ((y.factory ≡ w.factory) × (y.chain ≡ w.chain))
                      × (client.genesis_hash chain ≡ some found))
                    _ _ _
                    (or_fail-Holds Fail _ (client.genesis_hash chain) client_error x
                      (failures.on_genesis_hash chain) (λ found q. (e2, q)))
                    λ found y (e3, q).
                      Holds-bind Fail (λ g z. (z.factory ≡ w.factory) × (z.chain ≡ w.chain)) _ _ _
                        (or_panic-Holds Fail _ found y
                          (λ missing. failures.on_genesis chain (q ∙ ap some missing)) (λ g. e3))
                        λ g z (f, c).
                          let same = f ∙ e in
                          Holds-map Fail _ (λ b u. HasBlocks blocks w u)
                            (make_blocks crypto client (blocks + 1) v g z)
                            (λ b u k. same_blocks blocks w z u f c k)
                            (make_blocks-filled blocks (blocks + 1) v g z (omega arith)
                              (ground (arith, same)) (ground (arith, same)) (ground (arith, same)))
