-- ===== src/Node/Manufacture.antt =====
-- On which networks the factory runs, and what it leaves.
use Prim.Native.String.{String}
use akropolis_os_chain_node.Common.{
  ◌≡◌, ◌≢◌, ◌⊎◌, inl, inr, List, Option, none, some, arith, refl, ap, ◌∙◌, subst, Option-cases,
}
use akropolis_os_chain_node.Common.Result.{Result, ok, bind_ok, map_err_ok, ok_eq}
use akropolis_os_chain_node.ChainSpec.{Keys}
use akropolis_os_chain_node.Factory.{Crypto, Client}
use akropolis_os_chain_node.Inspect.{Readers}
use akropolis_os_chain_node.Inspect.Printer
use akropolis_os_chain_node.Inspect.Printer.{Chain, Line, CmdError}
use akropolis_os_chain_node.Node.{
  ChainSpec, Specs, Failure, FromGenesis, Resource, lift, from, load, load_spec, development_config,
  local_testnet_config, staging_testnet_config, syracuse_testnet_config, akropolisos_config,
}
use akropolis_os_chain_node.Node.Service.{Options, Library}
use akropolis_os_chain_node.Node.Command.{
  FactoryCmd, Framework, Report, Subcommand, run, check_network, expect, factory_config,
  run_factory,
}

-- The ids in the two files that are built into the node.
abbrev pub resource_id : Resource → String
resource_id Resource.akropolisos_json = "akropolisos_testnet"
resource_id Resource.akropolisos_syracuse_json = "akropolisos_syracuse_testnet"

-- A specification has the id that it was made with.
pub record IsSpecs {S E : Type 0} (specs : Specs S E) : Type 0 where
  pub made_with : (g : FromGenesis) → specs.id (specs.from_genesis g) ≡ g.id
  pub read_with :
      (r : Resource) (s : S) → specs.from_json_bytes r ≡ ok s → specs.id s ≡ resource_id r

-- The options complete a configuration with a network that the given function loads, and then leave
-- it.
pub record IsFramework {S E P I B M R C D K V O : Type 0}
    (framework : Framework S E P I B M R C D K V O) : Type 0 where
  pub loads :
      (p : P) (c c' : C) (l : String → Result E S)
      → framework.shared_config p c l ≡ ok c'
      → (id : String) × (s : S) × (l id ≡ ok s) × (framework.chain_spec c' ≡ some s)
  pub importing :
      (p : P) (i : I) (c c' : C)
      → framework.import_config p i c ≡ ok c'
      → framework.chain_spec c' ≡ framework.chain_spec c
  pub in_memory :
      (c c' : C)
      → framework.use_in_memory_keystore c ≡ ok c'
      → framework.chain_spec c' ≡ framework.chain_spec c

module _ {S E : Type 0} (keys : Keys) (specs : Specs S E) (laws : IsSpecs specs) where
  genesis_id :
      (g : FromGenesis) (s : S)
      → specs.from_genesis g ≡ s
      → from g.id ≡ none
      → from (specs.id s) ≡ none
  genesis_id g s e unknown =
      subst (λ t. from (specs.id t) ≡ none) e (ap from (laws.made_with g) ∙ unknown)

  -- No network of the node's own has an id that the node knows.
  load-from : (spec : ChainSpec) (s : S) → load keys specs spec ≡ ok s → from (specs.id s) ≡ none
  unfolding load development_config local_testnet_config staging_testnet_config
      syracuse_testnet_config akropolisos_config from
  load-from ChainSpec.development s e =
      genesis_id _ s (ok_eq (load keys specs ChainSpec.development) _ s refl e) refl
  load-from ChainSpec.local_testnet s e =
      genesis_id _ s (ok_eq (load keys specs ChainSpec.local_testnet) _ s refl e) refl
  load-from ChainSpec.akropolisos_staging s e =
      genesis_id _ s (ok_eq (load keys specs ChainSpec.akropolisos_staging) _ s refl e) refl
  load-from ChainSpec.akropolisos_syracuse s e =
      ap from (laws.read_with Resource.akropolisos_syracuse_json s e)
  load-from ChainSpec.akropolisos s e = ap from (laws.read_with Resource.akropolisos_json s e)

  -- What is loaded and has an id that the node knows was read from a file.
  load_spec-from :
      (id : String) (s : S)
      → load_spec keys specs id ≡ ok s
      → from (specs.id s) ≢ none
      → (from id ≡ none) × (specs.from_json_file id ≡ ok s)
  unfolding load_spec
  load_spec-from id s e known = elim (Option-cases (from id)) [
    | inl unknown ↦ (unknown, ground (arith, e, unknown))
    | inr (spec, named) ↦ absurd (known (load-from spec s (ground (arith, e, named))))
  ]

check_network-ok :
    {E : Type 0} (o : Option ChainSpec)
    → let checked : Result (Failure E) Unit = check_network o in
      checked ≡ ok tt → (o ≡ some ChainSpec.development) ⊎ (o ≡ some ChainSpec.local_testnet)
unfolding check_network
check_network-ok none e = absurd (ground (arith, e))
check_network-ok (some ChainSpec.development) e = inl refl
check_network-ok (some ChainSpec.local_testnet) e = inr refl
check_network-ok (some ChainSpec.akropolisos_staging) e = absurd (ground (arith, e))
check_network-ok (some ChainSpec.akropolisos_syracuse) e = absurd (ground (arith, e))
check_network-ok (some ChainSpec.akropolisos) e = absurd (ground (arith, e))

known-some :
    (o : Option ChainSpec)
    → (o ≡ some ChainSpec.development) ⊎ (o ≡ some ChainSpec.local_testnet)
    → o ≢ none
known-some o (inl e) h = ground (arith, e, h)
known-some o (inr e) h = ground (arith, e, h)

expect-ok :
    {E S : Type 0} (o : Option S) (s spec : S)
    → o ≡ some s
    → let expected : Result (Failure E) S = expect o in expected ≡ ok spec → spec ≡ s
expect-ok none s spec e h = absurd (ground (arith, e))
expect-ok (some t) s spec e h = ground (arith, e, h)

module _ {S E P I B M R C O D K G L A Q V F : Type 0}
    {Signature DD Blk X Hash Number H Header Extrinsic Block Fault : Type 0} (keys : Keys)
    (specs : Specs S E) (framework : Framework S E P I B M R C D K V O) (options : Options C)
    (library : Library C D K G L A Q V F E) (crypto : Crypto Signature)
    (client : Client Signature K DD Blk X)
    (chain_of : K → Chain Hash Number Header Extrinsic Block Fault)
    (readers : Readers Hash Number H)
    (display : CmdError H (Printer.Error Hash Number Block Fault) → String) where
  -- The network of a complete configuration.
  factory_config-loads :
      IsFramework framework
      → (cmd : FactoryCmd P I) (config complete : C)
      → factory_config keys specs framework options library cmd config ≡ ok complete
      → (id : String) × (s : S) × (load_spec keys specs id ≡ ok s)
        × (framework.chain_spec complete ≡ some s)
  unfolding factory_config
  factory_config-loads laws cmd config complete e =
      let (_, _, e1) = bind_ok (lift (framework.shared_init cmd.shared_params)) _ complete e in
      let first = framework.shared_config cmd.shared_params config (load_spec keys specs) in
      let (loaded, f1, e2) = bind_ok (lift first) _ complete e1 in
      let second = framework.import_config cmd.shared_params cmd.import_params loaded in
      let (importing, f2, e3) = bind_ok (lift second) _ complete e2 in
      let (id, s, f, g) =
        laws.loads cmd.shared_params config loaded (load_spec keys specs)
          (map_err_ok Failure.error first loaded f1) in
      (
        id,
        s,
        f,
        laws.in_memory importing complete (map_err_ok Failure.error _ complete e3)
            ∙ laws.importing cmd.shared_params cmd.import_params loaded importing
                (map_err_ok Failure.error second importing f2)
            ∙ g,
      )

  -- The factory makes no blocks on a network that the node knows by name, whatever the message says:
  -- if the command succeeds, its network was read from a file, and has the id "dev" or "local".
  pub run-named :
      IsSpecs specs
      → IsFramework framework
      → (cmd : FactoryCmd P I) (node : R) (config : C)
        (report : Report O (List (Line Header Extrinsic)) K)
      → run keys specs framework options library crypto client chain_of readers display
          (record { subcommand = some (Subcommand.manufacture cmd); run = node })
          config
        ≡ ok report
      → (id : String) × (s : S) × (from id ≡ none)
        × (specs.from_json_file id ≡ ok s)
        × ((from (specs.id s) ≡ some ChainSpec.development)
            ⊎ (from (specs.id s) ≡ some ChainSpec.local_testnet))
  unfolding run run_factory
  run-named ids laws cmd node config report e =
      let configured = factory_config keys specs framework options library cmd config in
      let (complete, f, e1) = bind_ok configured _ report e in
      let (spec, g, e2) = bind_ok (expect (framework.chain_spec complete)) _ report e1 in
      let (_, h, e3) = bind_ok (check_network (from (specs.id spec))) _ report e2 in
      let (id, s, loaded, there) = factory_config-loads laws cmd config complete f in
      let known = check_network-ok (from (specs.id spec)) h in
      let same : spec ≡ s = expect-ok (framework.chain_spec complete) s spec there g in
      let (unknown, from_file) =
        load_spec-from keys specs ids id s loaded
          (subst (λ t. from (specs.id t) ≢ none) same (known-some (from (specs.id spec)) known)) in
      (
        id,
        s,
        unknown,
        from_file,
        subst
            (λ t.
              (from (specs.id t) ≡ some ChainSpec.development)
              ⊎ (from (specs.id t) ≡ some ChainSpec.local_testnet))
            same known,
      )
