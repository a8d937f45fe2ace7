-- ===== src/Node/Tests.antt =====
-- The theorems on the node at a concrete framework.
use Prim.Native.String.{String}
use akropolis_os_chain_node.Common.{
  ℕ, ◌≡◌, ◌⊎◌, inl, Bool, true, false, List, [], ◌∷◌, ◌++◌, Option, none, some, arith, refl, length,
}
use akropolis_os_chain_node.Common.Result.{Result, ok, err, ◌>>=◌, bind_ok}
use akropolis_os_chain_node.ChainSpec.{Keys}
use akropolis_os_chain_node.Node.{ChainSpec, Specs, Failure, from, load_spec}
use akropolis_os_chain_node.Factory.{Crypto, Client, World, UncheckedExtrinsic, new, sign, factory}
use akropolis_os_chain_node.Inspect.{Readers}
use akropolis_os_chain_node.Inspect.Printer
use akropolis_os_chain_node.Inspect.Printer.{Chain, CmdError}
use akropolis_os_chain_node.Node.Command.{
  Framework, FactoryCmd, Subcommand, Cli, Report, run, not_supported,
}
use akropolis_os_chain_node.Node.Manufacture.{IsSpecs, IsFramework, resource_id, run-named}
use akropolis_os_chain_node.Node.Service.{Options, Library, new_full}
use akropolis_os_chain_node.Node.Tasks.{Meets, IsBuilder, IsRunning, new_full-tasks}

-- A configuration is whether the node is an authority and whether it is a sentry, with the id of its
-- network.
abbrev Config : Type 0
Config = Bool × Bool × Option String

abbrev options : Options Config
options = record {
  is_authority = λ (a, _, _). a;
  sentry_mode = λ (_, s, _). s;
  force_authoring = λ _. false;
  disable_grandpa = λ _. false;
  name = λ _. "node";
  sentry_nodes = λ _. [];
}

-- A block is the list of its transfers, and the chain is the list of its blocks.
abbrev Block : Type 0
Block = List (UncheckedExtrinsic ℕ)

-- Each other thing is a number, and nothing fails but for what a closure fails with.
abbrev library : Library Config ℕ (List Block) ℕ ℕ ℕ ℕ ℕ ℕ String
library = record {
  new_full = λ _. ok 1;
  new_light = λ _. ok 1;
  with_select_chain = λ d. ok d;
  with_transaction_pool = λ d r. r >>= λ _. ok d;
  with_import_queue = λ d r. r >>= λ _. ok d;
  with_finality_proof_provider = λ d. ok d;
  build = λ d. ok d;
  client = λ _. [];
  select_chain = λ _. true;
  fetcher = λ _. none;
  grandpa_block_import = λ k. ok (0, 2);
  light_block_import = λ k _. ok 0;
  babe_config = λ _. ok tt;
  babe_block_import = λ g _. ok (g, 3);
  import_queue = λ _ _ _ _ _. ok 4;
  service_client = λ _. [];
  service_select_chain = λ _. true;
  keystore = λ _. 5;
  start_babe = λ _ _ _ _. ok tt;
  run_grandpa_voter = λ _ _. ok tt;
  setup_disabled_grandpa = λ _. ok tt;
}

passes :
    {A : Type 0} (d : ℕ) (r : Result (Failure String) A)
    → Meets (λ _. Unit) r
    → Meets (λ _. Unit) (r >>= λ _. ok d)
passes d (ok a) h = tt
passes d (err e) h = h

library-IsBuilder : IsBuilder library
library-IsBuilder = record {
  pool_passes = λ d r. passes d r;
  queue_passes = λ d r. passes d r;
  queue_needed = λ d b e h. ground (arith, h);
}

-- A sentry.
new_full-tasks_example :
    Meets
      (IsRunning library options (true, true, none))
      (new_full library options (true, true, none))
new_full-tasks_example = new_full-tasks library options library-IsBuilder (true, true, none)

-- A specification is its id. Any file has the network "dev".
abbrev specs : Specs String String
specs = record {
  from_genesis = λ g. g.id;
  from_json_bytes = λ r. ok (resource_id r);
  from_json_file = λ path. ok "dev";
  id = λ s. s;
}

specs-IsSpecs : IsSpecs specs
specs-IsSpecs = record { made_with = λ g. refl; read_with = λ r s e. ground (arith, e) }

-- The shared options are the network that is asked for.
abbrev framework : Framework String String String ℕ ℕ ℕ ℕ Config ℕ (List Block) ℕ ℕ
framework = record {
  init = λ _. ok tt;
  update_config = λ _ c _. ok c;
  run = λ _ _ _ _. ok 0;
  shared_init = λ _. ok tt;
  shared_config = λ p (a, b, _) load. load p >>= λ s. ok (a, b, some s);
  import_config = λ _ _ c. ok c;
  use_in_memory_keystore = λ c. ok c;
  chain_spec = λ (_, _, s). s;
  tracing_targets = λ _. none;
  set_global_default = λ _ _. ok tt;
  new_full_client = λ _. ok [];
  benchmark_init = λ _. ok tt;
  benchmark_config = λ _ c _. ok c;
  run_benchmark = λ _ _. ok 0;
  base_init = λ _. ok tt;
  base_config = λ _ c _. ok c;
  run_base = λ _ _ _. ok 0;
}

framework-IsFramework : IsFramework framework
framework-IsFramework = record {
  loads = λ p c c' load e. let (s, f, g) = bind_ok (load p) _ c' e in (p, s, f, ground (arith, g));
  importing = λ p i c c' e. ground (arith, e);
  in_memory = λ c c' e. ground (arith, e);
}

abbrev crypto : Crypto ℕ
crypto = record {
  encode = λ p. p.function.destination ∷ p.function.amount ∷ p.extra.nonce ∷ [];
  blake2_256 = λ b. b;
  sign_with = λ key b. key;
  recode = λ u. some u;
  account_of_seed = λ seed. seed;
  alice = 1;
  alice_pair = 2;
}

abbrev client : Client ℕ (List Block) Block Block (UncheckedExtrinsic ℕ)
client = record {
  best_chain = λ k. some (length k);
  runtime_version_at = λ k hash. some 2;
  genesis_hash = λ k. some (some 0);
  inherent_extrinsics = λ k hash d. some [];
  new_block = λ k. some [];
  of_transfer = λ u. some u;
  push = λ d x. some (d ++ x ∷ []);
  build = λ d. some d;
  hash_of = λ b. length b;
  import_block = λ k b. some (k ++ b ∷ []);
}

abbrev keys : Keys
keys = record {
  account = length;
  grandpa = length;
  babe = length;
  im_online = length;
  authority_discovery = length;
}

abbrev chain_of : List Block → Chain ℕ ℕ ℕ ℕ ℕ ℕ
chain_of k = record {
  block_body = λ id. ok none;
  header = λ id. ok none;
  new = λ h body. h;
  header_of = λ b. b;
  extrinsics = λ b. [];
  decode_block = λ _. err 1;
  encode_block = λ b. [];
  decode_extrinsic = λ _. err 1;
  encode_extrinsic = λ x. [];
}

abbrev readers : Readers ℕ ℕ ℕ
readers = record { hash = λ _. none; number = λ _. none; from_hex = λ _. inl 0 }

abbrev display : CmdError ℕ (Printer.Error ℕ ℕ ℕ ℕ) → String
display _ = "error"

-- Three blocks of four transfers.
abbrev cmd : String → FactoryCmd String ℕ
cmd network = record { blocks = 3; transactions = 4; shared_params = network; import_params = 0 }

abbrev started : ℕ × Option (ℕ × ℕ × ℕ)
started = (1, some (0, 2, 3))

abbrev asked : String → Cli String ℕ ℕ ℕ ℕ
asked network = record { subcommand = some (Subcommand.manufacture (cmd network)); run = 0 }

abbrev config : Config
config = (true, false, none)

-- The network of the option `--chain local` has another id.
local_testnet_refused :
    run keys specs framework options library crypto client chain_of readers display
      (asked "local")
      config
    ≡ err (Failure.message not_supported)
unfolding run load_spec
local_testnet_refused = refl

abbrev three_blocks : World (List Block)
three_blocks = (factory crypto client 4 (record { factory = new 3 4; chain = []; best_hash = 0 })).1

run-named_example :
    (id : String) × (s : String) × (from id ≡ none)
    × (specs.from_json_file id ≡ ok s)
    × ((from s ≡ some ChainSpec.development) ⊎ (from s ≡ some ChainSpec.local_testnet))
unfolding run load_spec factory new sign
run-named_example =
    run-named keys specs framework options library crypto client chain_of readers display
      specs-IsSpecs framework-IsFramework (cmd "my.json") 0 config (Report.made true three_blocks)
      refl
