-- ===== src/Node/Tasks.antt =====
-- Which tasks a full node starts.
use akropolis_os_chain_node.Common.{
  ◌≡◌, ◌≢◌, Bool, true, false, not, ◌&&◌, List, [], ◌∷◌, ◌++◌, Option, none, some, arith, refl, ap,
  ◌∙◌, if◌then◌else◌, is_some, Bool-cases, inl, inr,
}
use akropolis_os_chain_node.Common.Result.{Result, ok, err, ◌>>=◌}
use akropolis_os_chain_node.Node.{Failure, lift}
use akropolis_os_chain_node.Node.Service.{
  Options, Library, Task, babe_proposer, authority_discovery, grandpa_voter, require_select_chain,
  participates_in_consensus, full_import_queue, queue_of, setup_of, new_full_start, start_authoring,
  start_grandpa, start_tasks, new_full,
}

-- `P` of the value, or an error that is no panic.
abbrev pub Meets : {E A : Type 0} → (A → Type 0) → Result (Failure E) A → Type 0
Meets P (ok a) = P a
Meets P (err e) = e ≢ Failure.panic

Meets-bind :
    {E A B : Type 0} (P : A → Type 0) (Q : B → Type 0) (r : Result (Failure E) A)
    (f : A → Result (Failure E) B)
    → Meets P r
    → ((a : A) → P a → Meets Q (f a))
    → Meets Q (r >>= f)
Meets-bind P Q (ok a) f h k = k a h
Meets-bind P Q (err e) f h k = h

lift-Meets : {E A : Type 0} (P : A → Type 0) (r : Result E A) → ((a : A) → P a) → Meets P (lift r)
lift-Meets P (ok a) h = h a
lift-Meets P (err e) h = λ p. ground (arith, p)

require_select_chain-Meets :
    (E : Type 0) (b : Bool) → Meets {E = E} (λ _. Unit) (require_select_chain b)
unfolding require_select_chain
require_select_chain-Meets E true = tt
require_select_chain-Meets E false = λ p. ground (arith, p)

Meets-map :
    {E A : Type 0} (P Q : A → Type 0) (r : Result (Failure E) A)
    → ((a : A) → r ≡ ok a → P a → Q a)
    → Meets P r
    → Meets Q r
Meets-map P Q (ok a) f h = f a refl h
Meets-map P Q (err e) f h = h

module _ {C D K G L A Q V F E : Type 0} (library : Library C D K G L A Q V F E) where
  -- The builder needs what its closures make, and does not panic by itself.
  pub record IsBuilder : Type 0 where
    pub pool_passes :
        (d : D) (r : Result (Failure E) Unit)
        → Meets (λ _. Unit) r
        → Meets (λ _. Unit) (library.with_transaction_pool d r)
    pub queue_passes :
        (d : D) (r : Result (Failure E) Q)
        → Meets (λ _. Unit) r
        → Meets (λ _. Unit) (library.with_import_queue d r)
    pub queue_needed : (d b : D) (e : Failure E) → library.with_import_queue d (err e) ≢ ok b

  full_import_queue-Meets : (d : D) → Meets (λ _. Unit) (full_import_queue library d)
  unfolding full_import_queue
  full_import_queue-Meets d =
      Meets-bind (λ _. Unit) _ _ _ (require_select_chain-Meets E (library.select_chain d))
        λ _ _.
          Meets-bind (λ _. Unit) _ _ _
            (lift-Meets _ (library.grandpa_block_import (library.client d)) (λ _. tt))
            λ (g, l) _.
              Meets-bind (λ _. Unit) _ _ _
                (lift-Meets _ (library.babe_config (library.client d)) (λ _. tt))
                λ _ _.
                  Meets-bind (λ _. Unit) _ _ _
                    (lift-Meets _ (library.babe_block_import g (library.client d)) (λ _. tt))
                    λ (b, a) _.
                      Meets-bind (λ _. Unit) _ _ _
                        (lift-Meets _ (library.import_queue a b true false (library.client d))
                          (λ _. tt))
                        λ _ _. tt

  -- What `import_setup` is after the closure was called, and the builder went on.
  queue_cases :
      (laws : IsBuilder) (d : D) (r : Result (Failure E) (Q × G × L × A))
      → Meets (λ _. Unit) r
      → Meets
          (λ _. is_some (setup_of library r) ≡ true)
          (library.with_import_queue d (queue_of library r))
  queue_cases laws d (ok (queue, g, l, a)) h =
      Meets-map (λ _. Unit) _ (library.with_import_queue d (ok queue)) (λ _ _ _. refl)
        (laws.queue_passes d (ok queue) tt)
  queue_cases laws d (err e) h =
      Meets-map (λ _. Unit) _ (library.with_import_queue d (err e))
        (λ b went_on _. absurd (laws.queue_needed d b e went_on)) (laws.queue_passes d (err e) h)

  new_full_start-Meets :
      IsBuilder
      → (config : C) → Meets (λ (d, setup). is_some setup ≡ true) (new_full_start library config)
  unfolding new_full_start
  new_full_start-Meets laws config =
      Meets-bind (λ _. Unit) _ _ _ (lift-Meets _ (library.new_full config) (λ _. tt))
        λ fresh _.
          Meets-bind (λ _. Unit) _ _ _ (lift-Meets _ (library.with_select_chain fresh) (λ _. tt))
            λ chosen _.
              Meets-bind (λ _. Unit) _ _ _ (laws.pool_passes chosen (ok tt) tt)
                λ pooled _.
                  let imported = full_import_queue library pooled in
                  Meets-bind {A = D} (λ _. is_some (setup_of library imported) ≡ true)
                    (λ (d, setup). is_some setup ≡ true)
                    (library.with_import_queue pooled (queue_of library imported))
                    (λ builder. ok (builder, setup_of library imported))
                    (queue_cases laws pooled (full_import_queue library pooled)
                      (full_import_queue-Meets pooled))
                    λ builder e. e

  module _ (options : Options C) where
    -- Those of a node that takes part in the consensus: an authority that is no sentry.
    abbrev pub authoring_tasks : C → V → List Task
    authoring_tasks config service =
        if options.is_authority config && not (options.sentry_mode config)
        then babe_proposer (options.force_authoring config)
          ∷ authority_discovery (options.sentry_nodes config) (library.keystore service)
          ∷ []
        else []

    -- The voter on finality, with the keys only if the node takes part.
    abbrev pub finality_tasks : C → V → List Task
    finality_tasks config service =
        if options.disable_grandpa config
        then []
        else grandpa_voter (record {
          gossip_duration = 333;
          justification_period = 512;
          name = some (options.name config);
          observer_enabled = false;
          keystore =
              if options.is_authority config && not (options.sentry_mode config)
              then some (library.keystore service)
              else none;
          is_authority = options.is_authority config;
        })
          ∷ []

    abbrev pub IsRunning : C → V × List Task → Type 0
    IsRunning config (service, tasks) =
        tasks ≡ authoring_tasks config service ++ finality_tasks config service

    start_authoring-Meets :
        (config : C) (service : V) (g : G) (a : A)
        → Meets
            (λ tasks. tasks ≡ authoring_tasks config service)
            (start_authoring library options config service g a)
    unfolding start_authoring
    start_authoring-Meets config service g a =
        elim (Bool-cases (participates_in_consensus library options config)) [
          | inl takes_part ↦ rw takes_part (
              Meets-bind (λ _. Unit) _ _ _
                (require_select_chain-Meets E (library.service_select_chain service))
                λ _ _.
                  Meets-bind (λ _. Unit) _ _ _
                    (lift-Meets _ (library.start_babe service g a _) (λ _. tt)) λ _ _. refl)
          | inr stays_out ↦ rw stays_out refl
        ]

    start_grandpa-Meets :
        (config : C) (service : V) (l : L)
        → Meets
            (λ tasks. tasks ≡ finality_tasks config service)
            (start_grandpa library options config service l)
    unfolding start_grandpa
    start_grandpa-Meets config service l = elim (Bool-cases (options.disable_grandpa config)) [
      | inl off ↦ rw off (
          Meets-bind (λ _. Unit) _ _ _
            (lift-Meets _ (library.setup_disabled_grandpa service) (λ _. tt)) λ _ _. refl)
      | inr on ↦ rw on (
          Meets-bind (λ _. Unit) _ _ _
            (lift-Meets _ (library.run_grandpa_voter service l) (λ _. tt)) λ _ _. refl)
    ]

    start_tasks-Meets :
        (config : C) (service : V) (setup : Option (G × L × A))
        → is_some setup ≡ true
        → Meets (IsRunning config) (start_tasks library options config service setup)
    unfolding start_tasks
    start_tasks-Meets config service none there = absurd (ground (arith, there))
    start_tasks-Meets config service (some (g, l, a)) there =
        Meets-bind (λ tasks. tasks ≡ authoring_tasks config service) (IsRunning config)
          (start_authoring library options config service g a) _
          (start_authoring-Meets config service g a)
          λ authoring first.
            Meets-bind (λ tasks. tasks ≡ finality_tasks config service) (IsRunning config)
              (start_grandpa library options config service l)
              (λ finality. ok (service, authoring ++ finality))
              (start_grandpa-Meets config service l)
              λ finality second.
                ap (λ t. t ++ finality) first ∙ ap (λ t. authoring_tasks config service ++ t) second

    -- The start of a full node never panics. If it succeeds, a node that is an authority and no
    -- sentry authors blocks and can be found, and no other node does; and each node votes on
    -- finality, unless that is disabled, with keys only if it is an authority and no sentry.
    pub new_full-tasks :
        IsBuilder → (config : C) → Meets (IsRunning config) (new_full library options config)
    unfolding new_full
    new_full-tasks laws config =
        Meets-bind (λ (d, setup). is_some setup ≡ true) _ (new_full_start library config) _
          (new_full_start-Meets laws config)
          λ (builder, setup) there.
            Meets-bind (λ _. Unit) _ _ _
              (lift-Meets _ (library.with_finality_proof_provider builder) (λ _. tt))
              λ proving _.
                Meets-bind (λ _. Unit) _ _ _ (lift-Meets _ (library.build proving) (λ _. tt))
                  λ service _. start_tasks-Meets config service setup there
