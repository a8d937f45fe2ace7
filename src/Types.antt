-- ===== src/Types.antt =====
-- The data types that the pallets share, of runtime/src/types.rs. Accounts, hashes, Ethereum
-- addresses, ids, amounts and block numbers are natural numbers; byte strings are lists of them.
-- An amount is a `u128`, a dao, member or proposal id a `u64`, a token id, a number of days and a
-- rate a `u32`, as in the runtime.
use akropolis_os_chain_node.Common.{ℕ, Bool, true, List, [], ◌∷◌}

pub record Dao : Type 0 where
  pub address : ℕ
  pub name : List ℕ
  pub description : List ℕ
  pub founder : ℕ

pub data Action : Type 0 where
  empty_action : Action
  add_member : ℕ → Action
  remove_member : ℕ → Action
  get_loan : List ℕ → ℕ → ℕ → ℕ → ℕ → Action
  change_timeout : ℕ → ℕ → Action
  change_maximum_number_of_members : ℕ → ℕ → Action

pub record Proposal : Type 0 where
  pub dao_id : ℕ
  pub action : Action
  pub is_open : Bool
  pub accepted : Bool
  pub voting_deadline : ℕ
  pub yes_count : ℕ
  pub no_count : ℕ

-- `Proposal::default()`
abbrev pub default_proposal : Proposal
default_proposal = record {
  dao_id = 0;
  action = empty_action;
  is_open = true;
  accepted = Bool.false;
  voting_deadline = 0;
  yes_count = 0;
  no_count = 0;
}

pub record Token : Type 0 where
  pub id : ℕ
  pub decimals : ℕ
  pub symbol : List ℕ

abbrev pub default_token : Token
default_token = record { id = 0; decimals = 0; symbol = [] }

pub record Limits : Type 0 where
  pub max_tx_value : ℕ
  pub day_max_limit : ℕ
  pub day_max_limit_for_one_address : ℕ
  pub max_pending_tx_limit : ℕ
  pub min_tx_value : ℕ

abbrev pub default_limits : Limits
default_limits = record {
  max_tx_value = 0;
  day_max_limit = 0;
  day_max_limit_for_one_address = 0;
  max_pending_tx_limit = 0;
  min_tx_value = 0;
}

-- `Limits::into_array`
abbrev pub into_array : Limits → List ℕ
into_array l =
    l.max_tx_value ∷ l.day_max_limit ∷ l.day_max_limit_for_one_address ∷ l.max_pending_tx_limit
    ∷ l.min_tx_value ∷ []

pub data Status : Type 0 where
  revoked pending pause_the_bridge resume_the_bridge update_validator_set : Status
  update_limits deposit withdraw approved canceled confirmed : Status

pub data Kind : Type 0 where
  transfer limits validator bridge : Kind

pub record BridgeTransfer : Type 0 where
  pub transfer_id : ℕ
  pub message_id : ℕ
  pub is_open : Bool
  pub votes : ℕ
  pub kind : Kind

abbrev pub default_bridge_transfer : BridgeTransfer
default_bridge_transfer = record {
  transfer_id = 0;
  message_id = 0;
  is_open = true;
  votes = 0;
  kind = transfer;
}

pub record TransferMessage : Type 0 where
  pub message_id : ℕ
  pub token : ℕ
  pub eth_address : ℕ
  pub substrate_address : ℕ
  pub amount : ℕ
  pub status : Status
  pub action : Status

abbrev pub default_transfer_message : TransferMessage
default_transfer_message = record {
  message_id = 0;
  token = 0;
  eth_address = 0;
  substrate_address = 0;
  amount = 0;
  status = withdraw;
  action = withdraw;
}

pub record LimitMessage : Type 0 where
  pub id : ℕ
  pub limits : Limits
  pub status : Status

abbrev pub default_limit_message : LimitMessage
default_limit_message = record { id = 0; limits = default_limits; status = update_limits }

pub record BridgeMessage : Type 0 where
  pub message_id : ℕ
  pub account : ℕ
  pub action : Status
  pub status : Status

abbrev pub default_bridge_message : BridgeMessage
default_bridge_message = record { message_id = 0; account = 0; action = revoked; status = revoked }

pub record ValidatorMessage : Type 0 where
  pub message_id : ℕ
  pub quorum : ℕ
  pub accounts : List ℕ
  pub action : Status
  pub status : Status

abbrev pub default_validator_message : ValidatorMessage
default_validator_message = record {
  message_id = 0;
  quorum = 0;
  accounts = [];
  action = revoked;
  status = revoked;
}
