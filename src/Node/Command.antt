-- ===== src/Node/Command.antt =====
-- The commands of the node (cli/src/command.rs, cli/src/cli.rs, inspect/src/command.rs). The options
-- of the framework, what they do to a configuration, and its own commands are parameters.
use Prim.Native.String.{String}
use akropolis_os_chain_node.Common.{ℕ, ◌+◌, Bool, if◌then◌else◌, Option, none, some, List}
use akropolis_os_chain_node.Common.Result.{Result, ok, err, ◌>>=◌, ◌>>◌, map_err}
use akropolis_os_chain_node.Common.Action.{Outcome}
use akropolis_os_chain_node.Common.Action
use akropolis_os_chain_node.ChainSpec.{Keys}
use akropolis_os_chain_node.Factory.{Crypto, Client, World, new, factory}
use akropolis_os_chain_node.Inspect.{Readers}
use akropolis_os_chain_node.Inspect.Printer
use akropolis_os_chain_node.Inspect.Printer.{
  Chain, Line, InspectSubCmd, CmdError, debug_printer, debug_block,
}
use akropolis_os_chain_node.Node.{ChainSpec, Specs, Failure, lift, from, load_spec}
use akropolis_os_chain_node.Node.Service.{Options, Library, new_full_start, new_full, new_light}

-- `FactoryCmd`, with options `P` and `I` of the framework.
pub record FactoryCmd (P I : Type 0) : Type 0 where
  pub blocks : ℕ
  pub transactions : ℕ
  pub shared_params : P
  pub import_params : I

-- `InspectCmd`
pub record InspectCmd (P I : Type 0) : Type 0 where
  pub command : InspectSubCmd
  pub shared_params : P
  pub import_params : I

-- `Subcommand`; the base and benchmark commands have options of their own.
pub data Subcommand (P I B M : Type 0) : Type 0 where
  base : B → Subcommand P I B M
  manufacture : FactoryCmd P I → Subcommand P I B M
  inspect : InspectCmd P I → Subcommand P I B M
  benchmark : M → Subcommand P I B M

-- `Cli`, with the options `R` of a node that runs.
pub record Cli (P I B M R : Type 0) : Type 0 where
  pub subcommand : Option (Subcommand P I B M)
  pub run : R

-- What the framework does: options complete a configuration `C`, for which a function is given that
-- loads the specification of a network; other calls run a command, with an output `O`.
pub record Framework (S E P I B M R C D K V O : Type 0) : Type 0 where
  pub init : R → Result E Unit
  pub update_config : R → C → (String → Result E S) → Result E C
  pub run : R → C → (C → Result (Failure E) V) → (C → Result (Failure E) V) → Result (Failure E) O
  pub shared_init : P → Result E Unit
  pub shared_config : P → C → (String → Result E S) → Result E C
  -- For a full node; the first argument tells whether it is for development.
  pub import_config : P → I → C → Result E C
  pub use_in_memory_keystore : C → Result E C
  pub chain_spec : C → Option S
  pub tracing_targets : I → Option String
  pub set_global_default : I → String → Result E Unit
  pub new_full_client : C → Result E K
  pub benchmark_init : M → Result E Unit
  pub benchmark_config : M → C → (String → Result E S) → Result E C
  pub run_benchmark : M → C → Result E O
  pub base_init : B → Result E Unit
  pub base_config : B → C → (String → Result E S) → Result E C
  pub run_base : B → C → (C → Result (Failure E) D) → Result (Failure E) O

-- What a command that succeeds leaves: an output of the framework, the lines that are printed, or
-- the blocks that the factory made, and whether it came to its end.
pub data Report (O Lines K : Type 0) : Type 0 where
  done : O → Report O Lines K
  printed : Lines → Report O Lines K
  made : Bool → World K → Report O Lines K

abbrev pub not_supported : String
not_supported = "Factory is only supported for development and local testnet."

-- The match of the factory command on the network.
unfoldable pub check_network : {E : Type 0} → Option ChainSpec → Result (Failure E) Unit
check_network (some ChainSpec.development) = ok tt
check_network (some ChainSpec.local_testnet) = ok tt
check_network (some ChainSpec.akropolisos_staging) = err (Failure.message not_supported)
check_network (some ChainSpec.akropolisos_syracuse) = err (Failure.message not_supported)
check_network (some ChainSpec.akropolisos) = err (Failure.message not_supported)
check_network none = err (Failure.message not_supported)

-- `.expect(..)`
abbrev pub expect : {E A : Type 0} → Option A → Result (Failure E) A
expect none = err Failure.panic
expect (some a) = ok a

-- What the factory returned, as the result of the command.
abbrev pub made_of :
    {E O Lines K : Type 0} → Outcome Bool × World K → Result (Failure E) (Report O Lines K)
made_of (Action.ok finishes, w) = ok (Report.made finishes w)
made_of (Action.err e, w) = err (Failure.factory_error e)
made_of (Action.panicked, w) = err Failure.panic

module _ {S E P I B M R C O : Type 0} {D K G L A Q V F : Type 0} (keys : Keys) (specs : Specs S E)
    (framework : Framework S E P I B M R C D K V O) (options : Options C)
    (library : Library C D K G L A Q V F E) where
  -- The setup of tracing, if the options ask for it.
  unfoldable pub setup_tracing : I → Result (Failure E) Unit
  setup_tracing import_params = elim (framework.tracing_targets import_params) [
    | none ↦ ok tt
    | some targets ↦ elim (framework.set_global_default import_params targets) [
      | ok _ ↦ ok tt
      | err e ↦ err (Failure.no_subscriber e)
    ]
  ]

  -- The configuration of the factory command.
  unfoldable pub factory_config : FactoryCmd P I → C → Result (Failure E) C
  factory_config cmd config = do
    lift (framework.shared_init cmd.shared_params)
    loaded ← lift (framework.shared_config cmd.shared_params config (load_spec keys specs))
    importing ← lift (framework.import_config cmd.shared_params cmd.import_params loaded)
    lift (framework.use_in_memory_keystore importing)

  unfoldable pub inspect_config : InspectCmd P I → C → Result (Failure E) C
  inspect_config cmd config = do
    lift (framework.shared_init cmd.shared_params)
    loaded ← lift (framework.shared_config cmd.shared_params config (load_spec keys specs))
    in_memory ← lift (framework.use_in_memory_keystore loaded)
    lift (framework.import_config cmd.shared_params cmd.import_params in_memory)

  module _ {Signature DD Blk X Hash Number H Header Extrinsic Block Fault : Type 0}
      (crypto : Crypto Signature) (client : Client Signature K DD Blk X)
      (chain_of : K → Chain Hash Number Header Extrinsic Block Fault)
      (readers : Readers Hash Number H)
      (display : CmdError H (Printer.Error Hash Number Block Fault) → String) where
    -- The factory command, with the fuel that its loop needs.
    unfoldable pub run_factory :
        FactoryCmd P I → C → Result (Failure E) (Report O (List (Line Header Extrinsic)) K)
    unfolding factory_config check_network setup_tracing
    run_factory cmd config = do
      complete ← factory_config cmd config
      spec ← expect (framework.chain_spec complete)
      check_network (from (specs.id spec))
      setup_tracing cmd.import_params
      (builder, _) ← new_full_start library complete
      if library.select_chain builder
          then made_of (
              factory crypto client (cmd.blocks + 1) (record {
                factory = new cmd.blocks cmd.transactions;
                chain = library.client builder;
                best_hash = 0;
              }))
          else err Failure.panic

    -- The inspect command, with the text that its error is shown as.
    unfoldable pub run_inspect :
        InspectCmd P I → C → Result (Failure E) (Report O (List (Line Header Extrinsic)) K)
    unfolding inspect_config debug_block
    run_inspect cmd config = do
      complete ← inspect_config cmd config
      k ← lift (framework.new_full_client complete)
      let printer = debug_printer (chain_of k)
      lines ←
          map_err (λ e. Failure.message (display e))
            (Printer.run (chain_of k) printer readers cmd.command)
      ok (Report.printed lines)

    unfoldable pub run :
        Cli P I B M R → C → Result (Failure E) (Report O (List (Line Header Extrinsic)) K)
    unfolding run_factory run_inspect new_full new_light
    run cli config = elim cli.subcommand [
      | none ↦ (do
        lift (framework.init cli.run)
        complete ← lift (framework.update_config cli.run config (load_spec keys specs))
        output ←
            framework.run cli.run complete (new_light library)
              (λ c. do (service, _) ← new_full library options c; ok service)
        ok (Report.done output))
      | some (inspect cmd) ↦ run_inspect cmd config
      | some (benchmark cmd) ↦ (do
        lift (framework.benchmark_init cmd)
        complete ← lift (framework.benchmark_config cmd config (load_spec keys specs))
        output ← lift (framework.run_benchmark cmd complete)
        ok (Report.done output))
      | some (manufacture cmd) ↦ run_factory cmd config
      | some (base cmd) ↦ (do
        lift (framework.base_init cmd)
        complete ← lift (framework.base_config cmd config (load_spec keys specs))
        output ←
            framework.run_base cmd complete
              (λ c. do (builder, _) ← new_full_start library c; ok builder)
        ok (Report.done output))
    ]
