-- ===== src/Node/Service.antt =====
-- The services of a full and of a light node (cli/src/service.rs): the tasks that they start. The
-- builder of the framework and what it makes are parameters.
use Prim.Native.String.{String}
use akropolis_os_chain_node.Common.{
  ℕ, Bool, true, false, not, ◌&&◌, List, [], ◌∷◌, ◌++◌, Option, none, some, if◌then◌else◌,
}
use akropolis_os_chain_node.Common.Result.{Result, ok, err, ◌>>=◌, ◌>>◌}
use akropolis_os_chain_node.Node.{Failure, lift}

-- What the services read of the configuration `C`.
pub record Options (C : Type 0) : Type 0 where
  pub is_authority : C → Bool
  pub sentry_mode : C → Bool
  pub force_authoring : C → Bool
  pub disable_grandpa : C → Bool
  pub name : C → String
  pub sentry_nodes : C → List String

-- A builder `D`, a client `K`, a block import `G`, the links `L` to GRANDPA and `A` to BABE, an
-- import queue `Q` and a service `V`. Of a light node, the fetcher `F` may be missing. The closures
-- that a builder takes are given here by their results.
pub record Library (C D K G L A Q V F E : Type 0) : Type 0 where
  pub new_full : C → Result E D
  pub new_light : C → Result E D
  pub with_select_chain : D → Result E D
  pub with_transaction_pool : D → Result (Failure E) Unit → Result (Failure E) D
  pub with_import_queue : D → Result (Failure E) Q → Result (Failure E) D
  pub with_finality_proof_provider : D → Result E D
  pub build : D → Result E V
  pub client : D → K
  pub select_chain : D → Bool
  pub fetcher : D → Option F
  pub grandpa_block_import : K → Result E (G × L)
  pub light_block_import : K → F → Result E G
  pub babe_config : K → Result E Unit
  pub babe_block_import : G → K → Result E (G × A)
  pub import_queue : A → G → Bool → Bool → K → Result E Q
  pub service_client : V → K
  pub service_select_chain : V → Bool
  pub keystore : V → ℕ
  pub start_babe : V → G → A → Bool → Result E Unit
  pub run_grandpa_voter : V → L → Result E Unit
  pub setup_disabled_grandpa : V → Result E Unit

-- `grandpa::Config`; the duration is in milliseconds.
pub record GrandpaConfig : Type 0 where
  pub gossip_duration : ℕ
  pub justification_period : ℕ
  pub name : Option String
  pub observer_enabled : Bool
  pub keystore : Option ℕ
  pub is_authority : Bool

-- The tasks that are spawned, with what they are given of the configuration.
pub data Task : Type 0 where
  babe_proposer : Bool → Task
  authority_discovery : List String → ℕ → Task
  grandpa_voter : GrandpaConfig → Task

-- `.ok_or(SelectChainRequired)?`
unfoldable pub require_select_chain : {E : Type 0} → Bool → Result (Failure E) Unit
require_select_chain true = ok tt
require_select_chain false = err Failure.select_chain_required

module _ {C D K G L A Q V F E : Type 0} (library : Library C D K G L A Q V F E) where
  -- The closure of `with_import_queue` of `new_full_start`: the queue, and `import_setup`.
  unfoldable pub full_import_queue : D → Result (Failure E) (Q × G × L × A)
  unfolding require_select_chain
  full_import_queue builder = do
    let client = library.client builder
    require_select_chain (library.select_chain builder)
    (grandpa_block_import, grandpa_link) ← lift (library.grandpa_block_import client)
    lift (library.babe_config client)
    (block_import, babe_link) ← lift (library.babe_block_import grandpa_block_import client)
    queue ← lift (library.import_queue babe_link block_import true false client)
    ok (queue, block_import, grandpa_link, babe_link)

  abbrev pub queue_of : Result (Failure E) (Q × G × L × A) → Result (Failure E) Q
  queue_of (ok (queue, _, _, _)) = ok queue
  queue_of (err e) = err e

  -- `import_setup` after the closure was called.
  abbrev pub setup_of : Result (Failure E) (Q × G × L × A) → Option (G × L × A)
  setup_of (ok (_, block_import, grandpa_link, babe_link)) =
      some (block_import, grandpa_link, babe_link)
  setup_of (err e) = none

  -- `new_full_start!`
  unfoldable pub new_full_start : C → Result (Failure E) (D × Option (G × L × A))
  unfolding full_import_queue
  new_full_start config = do
    fresh ← lift (library.new_full config)
    chosen ← lift (library.with_select_chain fresh)
    pooled ← library.with_transaction_pool chosen (ok tt)
    let imported = full_import_queue pooled
    builder ← library.with_import_queue pooled (queue_of imported)
    ok (builder, setup_of imported)

  module _ (options : Options C) where
    abbrev pub participates_in_consensus : C → Bool
    participates_in_consensus config =
        options.is_authority config && not (options.sentry_mode config)

    -- The part of `new_full!` for a node that takes part in the consensus.
    unfoldable pub start_authoring : C → V → G → A → Result (Failure E) (List Task)
    unfolding require_select_chain
    start_authoring config service block_import babe_link =
        if participates_in_consensus config
        then (do
          require_select_chain (library.service_select_chain service)
          lift (library.start_babe service block_import babe_link (options.force_authoring config))
          ok (
              babe_proposer (options.force_authoring config)
              ∷ authority_discovery (options.sentry_nodes config) (library.keystore service)
              ∷ []))
        else ok []

    abbrev pub grandpa_config : C → V → GrandpaConfig
    grandpa_config config service = record {
      gossip_duration = 333;
      justification_period = 512;
      name = some (options.name config);
      observer_enabled = false;
      keystore = if participates_in_consensus config then some (library.keystore service) else none;
      is_authority = options.is_authority config;
    }

    unfoldable pub start_grandpa : C → V → L → Result (Failure E) (List Task)
    start_grandpa config service grandpa_link =
        if not (options.disable_grandpa config)
        then (do
          lift (library.run_grandpa_voter service grandpa_link)
          ok (grandpa_voter (grandpa_config config service) ∷ []))
        else (do lift (library.setup_disabled_grandpa service); ok [])

    -- What `new_full!` does with the setup, for which it has an `expect`.
    unfoldable pub start_tasks : C → V → Option (G × L × A) → Result (Failure E) (V × List Task)
    unfolding start_authoring start_grandpa
    start_tasks config service none = err Failure.panic
    start_tasks config service (some (block_import, grandpa_link, babe_link)) = do
      authoring ← start_authoring config service block_import babe_link
      finality ← start_grandpa config service grandpa_link
      ok (service, authoring ++ finality)

    -- `new_full!` without a function for the startup data: the service, and the tasks in the order in
    -- which they start.
    unfoldable pub new_full : C → Result (Failure E) (V × List Task)
    unfolding new_full_start start_tasks
    new_full config = do
      (builder, import_setup) ← new_full_start config
      proving ← lift (library.with_finality_proof_provider builder)
      service ← lift (library.build proving)
      start_tasks config service import_setup

  abbrev pub pool_message : String
  pool_message = "Trying to start light transaction pool without active fetcher"

  abbrev pub queue_message : String
  queue_message = "Trying to start light import queue without active fetch checker"

  -- `fetcher.ok_or_else(..)`
  abbrev pub fetcher_or : String → D → Result (Failure E) F
  fetcher_or text builder = elim (library.fetcher builder) [
    | none ↦ err (Failure.message text)
    | some fetcher ↦ ok fetcher
  ]

  unfoldable pub light_import_queue : D → Result (Failure E) Q
  light_import_queue builder = do
    let client = library.client builder
    fetcher ← fetcher_or queue_message builder
    grandpa_block_import ← lift (library.light_block_import client fetcher)
    lift (library.babe_config client)
    (block_import, babe_link) ← lift (library.babe_block_import grandpa_block_import client)
    lift (library.import_queue babe_link block_import false true client)

  unfoldable pub new_light : C → Result (Failure E) V
  unfolding light_import_queue
  new_light config = do
    fresh ← lift (library.new_light config)
    chosen ← lift (library.with_select_chain fresh)
    pooled ← library.with_transaction_pool chosen (do fetcher_or pool_message chosen; ok tt)
    builder ← library.with_import_queue pooled (light_import_queue pooled)
    proving ← lift (library.with_finality_proof_provider builder)
    lift (library.build proving)
