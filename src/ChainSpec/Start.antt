-- ===== src/ChainSpec/Start.antt =====
-- The bridge and the tokens of a test network (cli/src/chain_spec.rs).
use akropolis_os_chain_node.Common.{
  ℕ, ◌*◌, ◌^◌, ◌≡◌, Bool, true, List, [], ◌∷◌, map, Option, some, refl, ap, ◌∙◌, contains, is_some,
}
use akropolis_os_chain_node.Origin.{Origin}
use akropolis_os_chain_node.Types.{Limits}
use akropolis_os_chain_node.Token.Genesis as TokenGenesis
use akropolis_os_chain_node.Bridge.State.{Storage, Env}
use akropolis_os_chain_node.Bridge.Index.{IsIndexed}
use akropolis_os_chain_node.Bridge.Run.{Call, run, IsTrusted}
use akropolis_os_chain_node.Bridge.Limits.{check_limits}
use akropolis_os_chain_node.Common.Action.{returns}
use akropolis_os_chain_node.Bridge.Genesis as BridgeGenesis
use akropolis_os_chain_node.ChainSpec.{Authority, Keys, testnet_genesis, bridge_validators, tokens}

abbrev pub testnet_limits : Limits
testnet_limits = record {
  max_tx_value = 100 * 10 ^ 18;
  day_max_limit = 200 * 10 ^ 18;
  day_max_limit_for_one_address = 50 * 10 ^ 18;
  max_pending_tx_limit = 400 * 10 ^ 18;
  min_tx_value = 10 * 10 ^ 18;
}

testnet_limits_accepted : (s : Storage) → returns (check_limits testnet_limits s) ≡ true
unfolding check_limits
testnet_limits_accepted s = refl

-- From any configuration of a test network the bridge starts, with the three validators and no
-- other, and with limits that it would accept. After any history the three still are validators
-- and the index of transfers is sound. The pallet of tokens finds each of the four by its
-- symbol.
pub testnet_genesis-run :
    (keys : Keys) (authorities : List Authority) (root_key : ℕ) (given : Option (List ℕ))
    (enable_println : Bool) (calls : List (Env × Origin × Call))
    → let g = testnet_genesis keys authorities root_key given enable_println in
      let token = TokenGenesis.genesis g.token in
      (s : Storage) × (BridgeGenesis.genesis g.bridge token ≡ some s)
      × (returns (check_limits s.current_limits s) ≡ true)
      × ((a : ℕ) → is_some (s.validators a) ≡ contains bridge_validators a)
      × IsIndexed (run calls s)
      × ((a : ℕ) → contains bridge_validators a ≡ true → IsTrusted a (run calls s))
      × (map (λ t. token.token_ids t.symbol) tokens ≡ some 0 ∷ some 1 ∷ some 2 ∷ some 3 ∷ [])
unfolding testnet_genesis TokenGenesis.genesis
testnet_genesis-run keys authorities root_key given enable_println calls =
    let g = testnet_genesis keys authorities root_key given enable_println in
    let token = TokenGenesis.genesis tokens in
    let (s, built, limits, listed, indexed, trusted) =
      BridgeGenesis.initial-run g.bridge token testnet_limits [] calls refl in
    (
      s,
      built,
      ap (λ l. returns (check_limits l s)) limits ∙ testnet_limits_accepted s,
      listed,
      indexed,
      trusted,
      refl,
    )
