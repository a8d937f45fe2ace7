-- ===== src/ChainSpec.antt =====
-- The chain specifications: the configuration that each test network starts from
-- (cli/src/chain_spec.rs, runtime/src/constants.rs). Keys and accounts are numbers; how they come
-- from a seed is a parameter.
pub mod Staging
pub mod Balances
pub mod Start
use akropolis_os_chain_node.Common.{
  ℕ, ◌+◌, ◌*◌, ◌/◌, ◌%◌, ◌^◌, ◌≤◌, ◌<◌, ◌≡◌, Bool, true, false, List, [], ◌∷◌, ◌++◌, map, Option,
  none, some, arith, refl, ap, ◌∙◌, length, take, length-take, length-append, contains, is_some,
  unwrap_or,
}
use akropolis_os_chain_node.Common.Words.{u32_mod}
use akropolis_os_chain_node.Origin.{Origin}
use akropolis_os_chain_node.Types.{Token, Limits}
use akropolis_os_chain_node.Token.Genesis as TokenGenesis
use akropolis_os_chain_node.Bridge.State.{Storage, Env}
use akropolis_os_chain_node.Bridge.Index.{IsIndexed}
use akropolis_os_chain_node.Bridge.Run.{Call, run, IsTrusted}
use akropolis_os_chain_node.Bridge.Limits.{check_limits}
use akropolis_os_chain_node.Common.Action.{returns}
use akropolis_os_chain_node.Bridge.Genesis as BridgeGenesis

abbrev pub millicents : ℕ
millicents = 1_000_000_000

abbrev pub cents : ℕ
cents = 1_000 * millicents

abbrev pub dollars : ℕ
dollars = 100 * cents

abbrev pub endowment : ℕ
endowment = 10_000_000 * dollars

abbrev pub stash_amount : ℕ
stash_amount = 100 * dollars

-- The keys of an initial authority.
pub record Authority : Type 0 where
  pub stash : ℕ
  pub controller : ℕ
  pub grandpa : ℕ
  pub babe : ℕ
  pub im_online : ℕ
  pub authority_discovery : ℕ

pub record SessionKeys : Type 0 where
  pub grandpa : ℕ
  pub babe : ℕ
  pub im_online : ℕ
  pub authority_discovery : ℕ

abbrev pub session_keys : ℕ → ℕ → ℕ → ℕ → SessionKeys
session_keys grandpa babe im_online authority_discovery = record {
  grandpa = grandpa;
  babe = babe;
  im_online = im_online;
  authority_discovery = authority_discovery;
}

-- `StakingConfig`, with the stash, the controller and the stake of each staker; all of them are
-- validators. The fraction is in hundredths.
pub record Staking : Type 0 where
  pub validator_count : ℕ
  pub minimum_validator_count : ℕ
  pub stakers : List (ℕ × ℕ × ℕ)
  pub invulnerables : List ℕ
  pub slash_reward_fraction : ℕ

-- `GenesisConfig`, without the parts that are empty, the defaults of the framework or the code of
-- the runtime.
pub record GenesisConfig : Type 0 where
  pub balances : List (ℕ × ℕ)
  pub session : List (ℕ × ℕ × SessionKeys)
  pub staking : Staking
  pub council : List ℕ
  pub technical_committee : List ℕ
  pub enable_println : Bool
  pub gas_price : ℕ
  pub sudo : ℕ
  pub society : List ℕ
  pub society_pot : ℕ
  pub society_max_members : ℕ
  pub bridge : BridgeGenesis.Config
  pub token : List Token

abbrev pub bridge_validators : List ℕ
bridge_validators =
    0x0d96d3dbdb55964e521a2f1dc1428ae55336063fd8f0e07bebbcb1becf79a67b
    ∷ 0x80133ea92f48aa928119aaaf524bc75e436a5c9eb24878a9e28ac7b0b37aa81a
    ∷ 0x3c7f612cdda6d0a3aad9da0fb6cb624721b04067f00bd0034062e6e2db2cd23e ∷ []

abbrev pub tokens : List Token
tokens =
    record { id = 0; decimals = 18; symbol = (68 ∷ 65 ∷ 73 ∷ []) }
    ∷ record { id = 1; decimals = 18; symbol = (99 ∷ 68 ∷ 65 ∷ 73 ∷ []) }
    ∷ record { id = 2; decimals = 18; symbol = (85 ∷ 83 ∷ 68 ∷ 84 ∷ []) }
    ∷ record { id = 3; decimals = 18; symbol = (85 ∷ 83 ∷ 68 ∷ 67 ∷ []) }
    ∷ []

abbrev pub initial_limits : List ℕ
initial_limits = 100 * 10 ^ 18 ∷ 200 * 10 ^ 18 ∷ 50 * 10 ^ 18 ∷ 400 * 10 ^ 18 ∷ 10 * 10 ^ 18 ∷ []

abbrev alice : List ℕ
alice = 65 ∷ 108 ∷ 105 ∷ 99 ∷ 101 ∷ []

abbrev bob : List ℕ
bob = 66 ∷ 111 ∷ 98 ∷ []

abbrev charlie : List ℕ
charlie = 67 ∷ 104 ∷ 97 ∷ 114 ∷ 108 ∷ 105 ∷ 101 ∷ []

abbrev dave : List ℕ
dave = 68 ∷ 97 ∷ 118 ∷ 101 ∷ []

abbrev eve : List ℕ
eve = 69 ∷ 118 ∷ 101 ∷ []

abbrev ferdie : List ℕ
ferdie = 70 ∷ 101 ∷ 114 ∷ 100 ∷ 105 ∷ 101 ∷ []

-- `format!("{}//stash", seed)`
abbrev pub stash_of : List ℕ → List ℕ
stash_of seed = seed ++ (47 ∷ 47 ∷ 115 ∷ 116 ∷ 97 ∷ 115 ∷ 104 ∷ [])

-- The public keys of each kind that a seed gives.
pub record Keys : Type 0 where
  pub account : List ℕ → ℕ
  pub grandpa : List ℕ → ℕ
  pub babe : List ℕ → ℕ
  pub im_online : List ℕ → ℕ
  pub authority_discovery : List ℕ → ℕ

abbrev pub get_authority_keys_from_seed : Keys → List ℕ → Authority
get_authority_keys_from_seed keys seed = record {
  stash = keys.account (stash_of seed);
  controller = keys.account seed;
  grandpa = keys.grandpa seed;
  babe = keys.babe seed;
  im_online = keys.im_online seed;
  authority_discovery = keys.authority_discovery seed;
}

unfoldable pub default_endowed : Keys → List ℕ
default_endowed keys = map keys.account (
    alice
    ∷ bob
    ∷ charlie
    ∷ dave
    ∷ eve
    ∷ ferdie
    ∷ stash_of alice
    ∷ stash_of bob
    ∷ stash_of charlie
    ∷ stash_of dave
    ∷ stash_of eve
    ∷ stash_of ferdie
    ∷ [])

-- The members of the council, of the technical committee and of the society.
abbrev pub first_half : List ℕ → List ℕ
first_half accounts = take ((length accounts + 1) / 2) accounts

unfoldable pub testnet_genesis : Keys → List Authority → ℕ → Option (List ℕ) → Bool → GenesisConfig
testnet_genesis keys authorities root_key given enable_println =
    let endowed = unwrap_or given (default_endowed keys) in
    record {
      balances =
          map (λ k. (k, endowment)) endowed ++ map (λ x. (x.stash, stash_amount)) authorities;
      session =
          map
            (λ x.
              (x.stash, x.stash, session_keys x.grandpa x.babe x.im_online x.authority_discovery))
            authorities;
      staking = record {
        validator_count = (length authorities % u32_mod) * 2 % u32_mod;
        minimum_validator_count = length authorities % u32_mod;
        stakers = map (λ x. (x.stash, x.controller, stash_amount)) authorities;
        invulnerables = map (λ x. x.stash) authorities;
        slash_reward_fraction = 10;
      };
      council = first_half endowed;
      technical_committee = first_half endowed;
      enable_println = enable_println;
      gas_price = 1 * millicents;
      sudo = root_key;
      society = first_half endowed;
      society_pot = 0;
      society_max_members = 999;
      bridge = record {
        validator_accounts = bridge_validators;
        validators_count = 3;
        current_limits = initial_limits;
      };
      token = tokens;
    }

abbrev pub development_config_genesis : Keys → GenesisConfig
development_config_genesis keys =
    testnet_genesis keys (get_authority_keys_from_seed keys alice ∷ []) (keys.account alice) none
      true

abbrev pub local_testnet_genesis : Keys → GenesisConfig
local_testnet_genesis keys =
    testnet_genesis keys
      (get_authority_keys_from_seed keys alice ∷ get_authority_keys_from_seed keys bob ∷ [])
      (keys.account alice) none false
