-- ===== src/Factory/Termination.antt =====
-- The loop of the factory ends: how many blocks and transfers it makes
-- (transaction-factory/src/lib.rs).
use akropolis_os_chain_node.Common.{
  ℕ, zero, suc, ◌+◌, ◌*◌, ◌%◌, ◌<◌, ◌≡◌, List, [], ◌∷◌, some, true, false, ltb, arith, refl, length,
  ap, ◌∙◌,
}
use akropolis_os_chain_node.Common.Words.{u32_mod, wrapping_add}
use akropolis_os_chain_node.Common.Action.{◌>>=◌}
use akropolis_os_chain_node.Common.Holds.{
  Holds, Holds-bind, Holds-map, or_panic-Holds, or_fail-Holds,
}
use akropolis_os_chain_node.Errors.{client_error}
use akropolis_os_chain_node.Factory.{
  FactoryState, Crypto, Client, World, range, set_factory, set_block_number, set_best_hash,
  set_chain, transfer_extrinsic, push_transfer, push_transfers, push_inherents, finish_block,
  make_block, make_blocks, factory, new, inherent_data, existential_deposit,
}
use akropolis_os_chain_node.Factory.Progress.{
  Failures, advanced, made, finished, finished-zero, finished-suc, length-range,
}

module _ {G K D B X Fail : Type 0} (crypto : Crypto G) (client : Client G K D B X)
    (failures : Failures crypto client Fail) where
  transfer_extrinsic-advanced :
      (sender key to amount version genesis_hash prior : ℕ) (w : World K)
      → Holds Fail
          (λ t u. u.factory ≡ advanced w.factory 1)
          (transfer_extrinsic crypto sender key to amount version genesis_hash prior w)
  unfolding transfer_extrinsic set_factory ◌>>=◌
  transfer_extrinsic-advanced sender key to amount version genesis_hash prior w =
      or_panic-Holds Fail _ _ _ (failures.on_sign _ key (version, genesis_hash, prior)) (λ a. refl)

  pub push_transfer-advanced :
      (amount version genesis_hash : ℕ) (block : D) (tx_num : ℕ) (w : World K)
      → Holds Fail
          (λ d u. u.factory ≡ advanced w.factory 1)
          (push_transfer crypto client amount version genesis_hash block tx_num w)
  unfolding push_transfer ◌>>=◌
  push_transfer-advanced amount version genesis_hash block tx_num w =
      let to = crypto.account_of_seed (tx_num * (w.factory.block_number + 1) % u32_mod) in
      Holds-bind Fail (λ t u. u.factory ≡ advanced w.factory 1) _ _ _
        (transfer_extrinsic-advanced crypto.alice crypto.alice_pair to amount version genesis_hash
          w.best_hash w)
        λ t u e.
          Holds-bind Fail (λ x v. v.factory ≡ advanced w.factory 1) _ _ _
            (or_panic-Holds Fail _ (client.of_transfer t) u (failures.on_transfer t) (λ x. e))
            λ x v e'.
              or_panic-Holds Fail _ (client.push block x) v (failures.on_push block x) (λ d. e')

  push_transfers-advanced :
      (amount version genesis_hash : ℕ) (numbers : List ℕ) (block : D) (w : World K)
      → w.factory.index < u32_mod
      → Holds Fail
          (λ d u. u.factory ≡ advanced w.factory (length numbers))
          (push_transfers crypto client amount version genesis_hash numbers block w)
  unfolding push_transfers ◌>>=◌
  push_transfers-advanced amount version genesis_hash [] block w small =
      ap (λ i. record w.factory { index = i }) (omega arith)
  push_transfers-advanced amount version genesis_hash (tx_num ∷ rest) block w small =
      Holds-bind Fail (λ d u. u.factory ≡ advanced w.factory 1) _
        (push_transfer crypto client amount version genesis_hash block tx_num w)
        (λ more. push_transfers crypto client amount version genesis_hash rest more)
        (push_transfer-advanced amount version genesis_hash block tx_num w)
        λ more u e.
          let once : u.factory.index < u32_mod = ground (arith, e) in
          let twice : advanced u.factory (length rest) ≡ advanced w.factory (suc (length rest)) =
            ap (λ f. advanced f (length rest)) e
            ∙ ap (λ i. record w.factory { index = i }) (omega arith) in
          Holds-map Fail _ _ (push_transfers crypto client amount version genesis_hash rest more u)
            (λ d v k. k ∙ twice)
            (push_transfers-advanced amount version genesis_hash rest more u once)

  push_inherents-stays :
      (inherents : List X) (block : D) (w : World K)
      → Holds Fail (λ d u. u ≡ w) (push_inherents crypto client inherents block w)
  unfolding push_inherents ◌>>=◌
  push_inherents-stays [] block w = refl
  push_inherents-stays (x ∷ rest) block w =
      Holds-bind Fail (λ d u. u ≡ w) _ _ (λ more. push_inherents crypto client rest more)
        (or_panic-Holds Fail _ (client.push block x) w (failures.on_push block x) (λ d. refl))
        λ more u e.
          Holds-map Fail _ _ (push_inherents crypto client rest more u) (λ d v k. k ∙ e)
            (push_inherents-stays rest more u)

  finish_block-advanced :
      (number : ℕ) (chain : K) (full : D) (w : World K)
      → Holds Fail
          (λ _ u. u.factory ≡ record w.factory { block_number = wrapping_add u32_mod number 1 })
          (finish_block crypto client number chain full w)
  unfolding finish_block set_block_number set_best_hash set_chain ◌>>=◌
  finish_block-advanced number chain full w =
      Holds-bind Fail (λ b v. v ≡ w) _ _ _
        (or_panic-Holds Fail _ (client.build full) w (failures.on_build full) (λ b. refl))
        λ b v e.
          let built = record v.factory { block_number = wrapping_add u32_mod number 1 } in
          Holds-bind Fail (λ k u. u.factory ≡ built) _ _ _
            (or_panic-Holds Fail _ (client.import_block chain b) _ (failures.on_import chain b)
              (λ k. refl))
            λ k u e'.
              e' ∙ ap (λ x. record x.factory { block_number = wrapping_add u32_mod number 1 }) e

  pub make_block-advanced :
      (version genesis_hash : ℕ) (w : World K)
      → w.factory.index < u32_mod
      → Holds Fail
          (λ _ u. u.factory ≡ made w.factory)
          (make_block crypto client version genesis_hash w)
  unfolding make_block ◌>>=◌
  make_block-advanced version genesis_hash w small =
      let f = w.factory in
      let n = f.transactions in
      Holds-bind Fail (λ i u. u ≡ w) _ _ _
        (or_panic-Holds Fail _ (client.inherent_extrinsics w.chain w.best_hash (inherent_data f)) w
          (failures.on_inherents w.chain w.best_hash (inherent_data f)) (λ i. refl))
        λ inherents u e.
          Holds-bind Fail (λ d v. v.factory ≡ f) _ _ _
            (or_panic-Holds Fail _ (client.new_block w.chain) u (failures.on_new_block w.chain)
              (λ d. ap (λ x. x.factory) e))
            λ empty v e'.
              Holds-bind Fail (λ d x. x.factory ≡ advanced f n) _ _ _ (filled_lem empty v e')
                λ filled x e''.
                  Holds-bind Fail (λ d y. y ≡ x) _ _ _ (push_inherents-stays inherents filled x)
                    λ full y same.
                      Holds-map Fail _ _ (finish_block crypto client f.block_number w.chain full y)
                        (λ _ z k. k ∙ ap (λ g. number g) (ap (λ y. y.factory) same ∙ e''))
                        (finish_block-advanced f.block_number w.chain full y)
    where
      number : FactoryState → FactoryState
      number g = record g { block_number = wrapping_add u32_mod w.factory.block_number 1 }

      filled_lem :
          (empty : D) (v : World K)
          → v.factory ≡ w.factory
          → let n = w.factory.transactions in
            Holds Fail
              (λ d x. x.factory ≡ advanced w.factory n)
              (push_transfers crypto client existential_deposit version genesis_hash
                (range 0 n)
                empty
                v)
      filled_lem empty v e =
          let n = w.factory.transactions in
          Holds-map Fail _ _
            (push_transfers crypto client existential_deposit version genesis_hash (range 0 n) empty
              v)
            (λ d x k.
              k ∙ ap (λ m. advanced v.factory m) (length-range 0 n) ∙ ap (λ g. advanced g n) e)
            (push_transfers-advanced existential_deposit version genesis_hash (range 0 n) empty v
              (ground (arith, e)))

  make_blocks-finished :
      (k fuel version genesis_hash : ℕ) (w : World K)
      → k < fuel
      → w.factory.blocks ≡ w.factory.block_number + k
      → w.factory.blocks < u32_mod
      → w.factory.index < u32_mod
      → Holds Fail
          (λ b u. (b ≡ true) × (u.factory ≡ finished w.factory k))
          (make_blocks crypto client fuel version genesis_hash w)
  unfolding make_blocks ◌>>=◌
  make_blocks-finished k zero version genesis_hash w h e small index = absurd (omega arith)
  make_blocks-finished zero (suc fuel) version genesis_hash w h e small index =
      let stops : ltb w.factory.block_number w.factory.blocks ≡ false = ground arith in
      rw stops (refl, finished-zero w.factory index)
  make_blocks-finished (suc k) (suc fuel) version genesis_hash w h e small index =
      let goes_on : ltb w.factory.block_number w.factory.blocks ≡ true = ground arith in
      let next = finished-suc w.factory k (omega arith) in
      rw goes_on (
        Holds-bind Fail (λ _ u. u.factory ≡ made w.factory) _
          (make_block crypto client version genesis_hash w) _
          (make_block-advanced version genesis_hash w index)
          λ _ u e'.
            Holds-map Fail _ _ (make_blocks crypto client fuel version genesis_hash u)
              (λ b v (t, k'). (t, k' ∙ ap (λ f. finished f k) e' ∙ next))
              (make_blocks-finished k fuel version genesis_hash u (omega arith) (ground (arith, e'))
                (ground (arith, e')) (ground (arith, e'))))

  -- The factory ends, after one round for each block and one more. Unless the client or the encoding
  -- fails, and then what follows from a failure holds, it comes to its end with as many
  -- blocks as were asked for, and has used one nonce for each transfer of each block.
  pub factory-finished :
      (blocks transactions : ℕ) (w : World K)
      → w.factory ≡ new blocks transactions
      → blocks < u32_mod
      → Holds Fail
          (λ finishes u.
            (finishes ≡ true)
            × (u.factory.block_number ≡ blocks)
            × (u.factory.index ≡ blocks * transactions % u32_mod))
          (factory crypto client (blocks + 1) w)
  unfolding factory new set_best_hash ◌>>=◌
  factory-finished blocks transactions w e small =
      let chain = w.chain in
      Holds-bind Fail (λ h u. u ≡ w) _ _ _
        (or_fail-Holds Fail _ (client.best_chain chain) client_error w
          (failures.on_best_chain chain) (λ h q. refl))
        λ h u e1.
          Holds-bind Fail (λ v x. x.factory ≡ w.factory) _ _ _
            (or_fail-Holds Fail _ (client.runtime_version_at chain h) client_error _
              (failures.on_version chain h) (λ v q. ap (λ x. x.factory) e1))
            λ v x e2.
              Holds-bind Fail
                (λ found y. (y.factory ≡ w.factory) × (client.genesis_hash chain ≡ some found)) _ _
                _
                (or_fail-Holds Fail _ (client.genesis_hash chain) client_error x
                  (failures.on_genesis_hash chain) (λ found q. (e2, q)))
                λ found y (e3, q).
                  Holds-bind Fail (λ g z. z.factory ≡ w.factory) _ _ _
                    (or_panic-Holds Fail _ found y
                      (λ missing. failures.on_genesis chain (q ∙ ap some missing)) (λ g. e3))
                    λ g z e4.
                      let same = e4 ∙ e in
                      Holds-map Fail _ _ (make_blocks crypto client (blocks + 1) v g z)
                        (λ b u (t, k). (t, ground (arith, same, k), ground (arith, same, k)))
                        (make_blocks-finished blocks (blocks + 1) v g z (omega arith)
                          (ground (arith, same)) (ground (arith, same)) (ground (arith, same)))
