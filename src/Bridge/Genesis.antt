-- ===== src/Bridge/Genesis.antt =====
-- The first state of the bridge pallet: the `build` functions of its storage and its configuration
-- (runtime/src/bridge.rs).
use akropolis_os_chain_node.Common.{
  ℕ, ◌≡◌, Bool, true, false, List, [], ◌∷◌, ◌++◌, Option, none, some, arith, refl, contains,
  is_some, ap, ◌∙◌,
}
use akropolis_os_chain_node.Common.Maps.{update}
use akropolis_os_chain_node.Origin.{Origin}
use akropolis_os_chain_node.Types.{Limits, into_array, default_bridge_transfer}
use akropolis_os_chain_node.Token
use akropolis_os_chain_node.Bridge.State.{Storage, Env}
use akropolis_os_chain_node.Bridge.Index.{IsIndexed}
use akropolis_os_chain_node.Bridge.Run.{Call, run, run-IsIndexed, IsTrusted, run-IsTrusted}

-- `BridgeConfig`
pub record Config : Type 0 where
  pub validator_accounts : List ℕ
  pub validators_count : ℕ
  pub current_limits : List ℕ

-- `build` of CurrentLimits, which panics on fewer than five values.
unfoldable pub build_limits : List ℕ → Option Limits
build_limits (a ∷ b ∷ c ∷ d ∷ e ∷ _) = some (record {
  max_tx_value = a;
  day_max_limit = b;
  day_max_limit_for_one_address = c;
  max_pending_tx_limit = d;
  min_tx_value = e;
})
build_limits _ = none

-- `build` of Validators
abbrev pub build_validators : List ℕ → (ℕ → Option Bool) → ℕ → Option Bool
build_validators [] m = m
build_validators (a ∷ accounts) m = build_validators accounts (update m a (some true))

abbrev pub initial : Config → Token.Storage → Limits → Storage
initial config token limits = record {
  token = token;
  bridge_is_operational = true;
  bridge_messages = λ _. none;
  limit_messages = λ _. none;
  current_limits = limits;
  current_pending_burn = 0;
  current_pending_mint = 0;
  bridge_transfers = λ _. default_bridge_transfer;
  bridge_transfers_count = 0;
  transfer_messages = λ _. none;
  transfer_id = λ _. none;
  message_id = λ _. 0;
  daily_holds = λ _. none;
  daily_limits = λ _ _. 0;
  daily_blocked = λ _ _. none;
  quorum = 2;
  validators_count = config.validators_count;
  validator_votes = λ _ _. false;
  validator_history = λ _. none;
  validators = build_validators config.validator_accounts (λ _. none);
  validator_accounts = config.validator_accounts;
  events = [];
}

-- The state that the configuration builds beside that of the token pallet.
unfoldable pub genesis : Config → Token.Storage → Option Storage
genesis config token = elim (build_limits config.current_limits) [
  | none ↦ none
  | some limits ↦ some (initial config token limits)
]

-- The limits of the configuration are read in the order in which `into_array` lists them.
pub build_limits-into_array :
    (l : Limits) (rest : List ℕ) → build_limits (into_array l ++ rest) ≡ some l
unfolding build_limits
build_limits-into_array l rest = refl

build_validators-trusted :
    (accounts : List ℕ) (m : ℕ → Option Bool) (a : ℕ)
    → is_some (m a) ≡ true
    → is_some (build_validators accounts m a) ≡ true
build_validators-trusted [] m a h = h
build_validators-trusted (x ∷ accounts) m a h =
    build_validators-trusted accounts (update m x (some true)) a (ground arith)

build_validators-listed :
    (accounts : List ℕ) (m : ℕ → Option Bool) (a : ℕ)
    → is_some (m a) ≡ false
    → is_some (build_validators accounts m a) ≡ contains accounts a
build_validators-listed [] m a h = h
build_validators-listed (x ∷ accounts) m a h = ground (
  arith,
  build_validators-listed accounts (update m x (some true)) a,
  build_validators-trusted accounts (update m x (some true)) a,
)

pub initial_sound :
    (config : Config) (token : Token.Storage) (l : Limits)
    → let s = initial config token l in
      IsIndexed s × ((a : ℕ) → is_some (s.validators a) ≡ contains config.validator_accounts a)
initial_sound config token l =
    (λ h id e. ground arith, λ a. build_validators-listed config.validator_accounts _ a refl)

-- After any history from the state that five limits and a list of validators build, the index of
-- transfers is sound and every configured validator is trusted. Before the first call nobody else
-- is.
pub initial-run :
    (config : Config) (token : Token.Storage) (l : Limits) (rest : List ℕ)
    (calls : List (Env × Origin × Call))
    → config.current_limits ≡ into_array l ++ rest
    → (s : Storage) × (genesis config token ≡ some s)
      × (s.current_limits ≡ l)
      × ((a : ℕ) → is_some (s.validators a) ≡ contains config.validator_accounts a)
      × IsIndexed (run calls s)
      × ((a : ℕ) → contains config.validator_accounts a ≡ true → IsTrusted a (run calls s))
unfolding genesis
initial-run config token l rest calls e =
    let s = initial config token l in
    let (indexed, listed) = initial_sound config token l in
    let built : build_limits config.current_limits ≡ some l =
      ap build_limits e ∙ build_limits-into_array l rest in
    (
      s,
      ground (arith, built),
      refl,
      listed,
      (run-IsIndexed calls s indexed).0,
      λ a h. run-IsTrusted a calls s (listed a ∙ h),
    )
