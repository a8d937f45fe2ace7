-- ===== src/Node.antt =====
-- The networks that the node knows by name, and how it loads the specification of one
-- (cli/src/lib.rs, cli/src/chain_spec.rs). The specifications of the framework, and how it reads one
-- from JSON, are parameters.
pub mod Service
pub mod Tasks
pub mod Command
pub mod Manufacture
mod Tests
use Prim.Native.String.{String}
use text.Mathlib.Text.{◌==◌}
use akropolis_os_chain_node.Common.{
  ℕ, Bool, true, false, ◌||◌, List, [], ◌∷◌, Option, none, some, if◌then◌else◌,
}
use akropolis_os_chain_node.Common.Result.{Result, ok, err, map_err}
use akropolis_os_chain_node.Errors
use akropolis_os_chain_node.ChainSpec.{
  Keys, GenesisConfig, development_config_genesis, local_testnet_genesis,
}
use akropolis_os_chain_node.ChainSpec.Staging.{akropolisos_staging_genesis}

-- `ChainSpec` of cli/src/lib.rs
pub data ChainSpec : Type 0 where
  development : ChainSpec
  local_testnet : ChainSpec
  akropolisos_staging : ChainSpec
  akropolisos_syracuse : ChainSpec
  akropolisos : ChainSpec

-- `ChainSpec::from`
unfoldable pub from : String → Option ChainSpec
from s =
    if s == "dev"
    then some development
    else if s == "local"
    then some local_testnet
    else if s == "syracuse"
    then some akropolisos_syracuse
    else if (s == "") || ((s == "akro") || (s == "akropolisos"))
    then some akropolisos
    else if s == "staging"
    then some akropolisos_staging
    else none

-- The arguments of `from_genesis` but for the protocol, the properties and the extensions, which
-- each network leaves out.
pub record FromGenesis : Type 0 where
  pub name : String
  pub id : String
  pub constructor : GenesisConfig
  pub boot_nodes : List String
  pub telemetry_endpoints : Option (List (String × ℕ))

-- The two files that are built into the node.
pub data Resource : Type 0 where
  akropolisos_json : Resource
  akropolisos_syracuse_json : Resource

-- The specifications `S` of the framework; reading one fails with an `E`.
pub record Specs (S E : Type 0) : Type 0 where
  pub from_genesis : FromGenesis → S
  pub from_json_bytes : Resource → Result E S
  pub from_json_file : String → Result E S
  pub id : S → String

abbrev pub staging_telemetry_url : String
staging_telemetry_url = "wss://telemetry.polkadot.io/submit/"

abbrev pub akropolis_telemetry_url : String
akropolis_telemetry_url = "wss://167.99.142.212:1024"

module _ {S E : Type 0} (keys : Keys) (specs : Specs S E) where
  unfoldable pub development_config : S
  development_config = specs.from_genesis (record {
    name = "Development";
    id = "akropolisos_dev";
    constructor = development_config_genesis keys;
    boot_nodes = [];
    telemetry_endpoints = none;
  })

  unfoldable pub local_testnet_config : S
  local_testnet_config = specs.from_genesis (record {
    name = "Local Testnet";
    id = "akropolisos_local_testnet";
    constructor = local_testnet_genesis keys;
    boot_nodes = [];
    telemetry_endpoints = none;
  })

  unfoldable pub staging_testnet_config : S
  staging_testnet_config = specs.from_genesis (record {
    name = "Akropolis OS Staging Testnet";
    id = "akropolisos_staging_testnet";
    constructor = akropolisos_staging_genesis keys;
    boot_nodes = [];
    telemetry_endpoints = some ((staging_telemetry_url, 0) ∷ (akropolis_telemetry_url, 0) ∷ []);
  })

  unfoldable pub syracuse_testnet_config : Result E S
  syracuse_testnet_config = specs.from_json_bytes akropolisos_syracuse_json

  unfoldable pub akropolisos_config : Result E S
  akropolisos_config = specs.from_json_bytes akropolisos_json

  -- `ChainSpec::load`
  unfoldable pub load : ChainSpec → Result E S
  unfolding development_config local_testnet_config staging_testnet_config syracuse_testnet_config
      akropolisos_config
  load development = ok development_config
  load local_testnet = ok local_testnet_config
  load akropolisos_syracuse = syracuse_testnet_config
  load akropolisos_staging = ok staging_testnet_config
  load akropolisos = akropolisos_config

  unfoldable pub load_spec : String → Result E S
  unfolding from load
  load_spec id = elim (from id) [ some spec ↦ load spec | none ↦ specs.from_json_file id ]

-- What a command fails with: an error `E` of the framework, a text, no subscriber for tracing,
-- the error of the factory, or the panic of an `expect`.
pub data Failure (E : Type 0) : Type 0 where
  error : E → Failure E
  select_chain_required : Failure E
  message : String → Failure E
  no_subscriber : E → Failure E
  factory_error : Errors.Error → Failure E
  panic : Failure E

abbrev pub lift : {E A : Type 0} → Result E A → Result (Failure E) A
lift r = map_err Failure.error r
