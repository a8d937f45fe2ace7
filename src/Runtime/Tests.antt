-- ===== src/Runtime/Tests.antt =====
-- The theorems on the runtime at concrete states. The balances pallet keeps one number.
use akropolis_os_chain_node.Common.{
  ℕ, length, ◌*◌, ◌+◌, ◌≤◌, ◌≡◌, true, List, [], ◌∷◌, none, some, arith, refl, contains, ◌-◌, ◌^◌,
  ◌%◌, ◌<◌,
}
use akropolis_os_chain_node.Common.Action.{ok, pure}
use akropolis_os_chain_node.Origin.{signed, unsigned}
use akropolis_os_chain_node.Token.{check_token_exist, validate_name}
use akropolis_os_chain_node.Token.Refinement as TokenCalls
use akropolis_os_chain_node.Bridge.State as BridgeState
use akropolis_os_chain_node.Bridge.Run as BridgeRun
use akropolis_os_chain_node.Bridge.Index.{IsIndexed}
use akropolis_os_chain_node.Bridge.Voters.{IsCounted}
use akropolis_os_chain_node.Bridge.Genesis as BridgeGenesis
use akropolis_os_chain_node.Dao.State as DaoState
use akropolis_os_chain_node.Dao.Run as DaoRun
use akropolis_os_chain_node.Dao.Tally.{IsTally}
use akropolis_os_chain_node.Dao.Genesis as DaoGenesis
use akropolis_os_chain_node.PriceOracle
use akropolis_os_chain_node.ChainSpec.{Keys, bridge_validators, tokens}
use akropolis_os_chain_node.ChainSpec.Start.{testnet_limits}
use akropolis_os_chain_node.Token.Genesis as TokenGenesis
use akropolis_os_chain_node.Runtime.{
  State, Context, Call, Step, view_bridge, view_dao, run, dispatch,
}
use akropolis_os_chain_node.Bridge.Trust.{AreTrusted}
use akropolis_os_chain_node.Runtime.Start.{genesis, genesis-run, empty_prices, empty_market}
use akropolis_os_chain_node.Factory.{SignedExtra}
use akropolis_os_chain_node.Runtime.Signing.{
  Signer, block_hash_count, create_transaction, create_transaction-ok,
}
use akropolis_os_chain_node.Runtime.Unguarded.{dispatch-mint}
use akropolis_os_chain_node.Runtime.Overdraft.{dispatch-burn_twice}
use akropolis_os_chain_node.Common.Maps.{update, update₂}
use akropolis_os_chain_node.Common.Words.{u128_mod}

-- Every key of a seed is the length of the seed.
abbrev keys : Keys
keys = record {
  account = length;
  grandpa = length;
  babe = length;
  im_online = length;
  authority_discovery = length;
}

abbrev balances : DaoState.Runtime ℕ
balances = record {
  hash = λ _. 7;
  block_number = 1;
  existential_deposit = 1;
  free_balance = λ c _. c;
  reserved_balance = λ _ _. 0;
  transfer = λ _ _ _. pure tt;
  set_lock = λ _ _ c. c;
  remove_lock = λ _ c. c;
}

abbrev pub context : Context ℕ
context = record {
  lookup = λ a. some a;
  env = record { hash = λ _. 7; now = 3 * BridgeState.day };
  balances = balances;
}

-- "aaaaaaaaaa"
abbrev name : List ℕ
name = 97 ∷ 97 ∷ 97 ∷ 97 ∷ 97 ∷ 97 ∷ 97 ∷ 97 ∷ 97 ∷ 97 ∷ []

-- Account 5 mints DAI, founds a dao and asks for a transfer; the balances change.
abbrev steps : List (Step ℕ)
steps =
    Step.call context (signed 5) (Call.token (TokenCalls.Call.mint 5 0 1_000))
    ∷ Step.call context (signed 5) (Call.dao (DaoRun.Call.create 9 name name))
    ∷ Step.outside 40
    ∷ Step.call context (signed 5) (Call.bridge (BridgeRun.Call.set_transfer 6 0 20))
    ∷ Step.call context unsigned
        (Call.price_oracle (PriceOracle.Call.record_aggregated_price_points 1 name 5))
    ∷ Step.call context (signed 5) (Call.marketplace 3)
    ∷ []

genesis-run_example :
    (start : State ℕ) × (genesis keys [] 1 none true 500 ≡ some start)
    × (let s = run steps start in
        IsIndexed (view_bridge s)
        × IsCounted (view_bridge s)
        × AreTrusted (view_bridge s)
        × (contains bridge_validators 5 ≡ true → BridgeRun.IsTrusted 5 (view_bridge s))
        × ((view_dao s).members_count 0 ≤ 4)
        × IsTally (view_dao s) 0 0)
genesis-run_example = genesis-run keys [] 1 none true 500 steps 0 0 5

abbrev pub start : State ℕ
start =
    let token = TokenGenesis.genesis tokens in
    record {
      currency = 500;
      token = token;
      bridge =
          BridgeGenesis.initial
            (record {
              validator_accounts = bridge_validators;
              validators_count = 3;
              current_limits = [];
            })
            token testnet_limits;
      dao = DaoGenesis.genesis DaoGenesis.default_config 500 token empty_prices empty_market;
      marketplace = empty_market;
      price_oracle = empty_prices;
    }

-- Account 5 gives account 8 a thousand cDAI.
dispatch-mint_example :
    let (r, t) = dispatch context (signed 5) (Call.token (TokenCalls.Call.mint 8 1 1_000)) start in
    (r ≡ ok tt) × (t.token.balance 1 8 ≡ 0 + 1_000) × (t.bridge ≡ start.bridge)
unfolding TokenGenesis.genesis check_token_exist validate_name
dispatch-mint_example =
    dispatch-mint context 5 8 1 1_000 start refl (omega arith) (omega arith) (omega arith)

-- Calls and keys are numbers, and a payload is the call with what is signed beside it.
abbrev signer : Signer ℕ ℕ ℕ (ℕ × SignedExtra)
signer = record {
  mortal = λ period current. (period, current % period);
  payload = λ c x. some (c, x);
  sign = λ public p. some (public + p.0);
  unlookup = λ account. account;
  deconstruct = λ p. p;
}

-- In block 10.
abbrev transaction : ℕ × ℕ × ℕ × SignedExtra
transaction = (7, 5, 9, record { era = (128, 9); nonce = 4; tip = 0 })

create_transaction-ok_example :
    (transaction.0 ≡ 7)
    × (transaction.1 ≡ 5)
    × ((p : ℕ × SignedExtra) × (signer.payload 7 transaction.3 ≡ some p)
        × (signer.sign 2 p ≡ some 9))
    × (transaction.3.nonce ≡ 4)
    × (transaction.3.tip ≡ 0)
    × ((j : ℕ) × (transaction.3.era ≡ signer.mortal (2 ^ j) (10 - 1))
        × (2 ^ j < block_hash_count)
        × (block_hash_count ≤ 2 * 2 ^ j))
unfolding create_transaction
create_transaction-ok_example =
    create_transaction-ok signer block_hash_count 10 7 2 5 4 transaction
      (λ c x p e. ground (arith, e)) (omega arith) (omega arith) refl

-- Account 5 holds 100 of token 0, of which 60 are locked; 150 are issued.
abbrev locked : State ℕ
locked = record start {
  token = record start.token {
    balance = update₂ start.token.balance 0 5 100;
    locked = update₂ start.token.locked 0 5 60;
    total_supply = update start.token.total_supply 0 150;
  };
}

dispatch-burn_twice_example :
    let burn = λ (n : ℕ). dispatch context (signed 8) (Call.token (TokenCalls.Call.burn 5 0 n)) in
    let (first, s') = burn 30 locked in
    let (second, t) = burn 1 s' in
    (first ≡ ok tt)
    × (second ≡ ok tt)
    × (t.token.balance 0 5 + (30 + 1 + 60 + 60) ≡ 100 + u128_mod)
    × (t.bridge ≡ locked.bridge)
unfolding TokenGenesis.genesis check_token_exist validate_name
dispatch-burn_twice_example =
    dispatch-burn_twice context 8 5 0 30 1 locked refl (omega arith) (omega arith) (omega arith)
      (omega arith) (omega arith) (omega arith)
