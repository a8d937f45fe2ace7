-- ===== src/Errors.antt =====
-- The error strings of the pallets under runtime/src (token.rs, bridge.rs, dao.rs), a constructor
-- for each message, with the errors of `ensure_signed`, of `T::Lookup` and of the balances pallet.
pub data Error : Type 0 where
  -- system and balances
  bad_origin : Error
  lookup_failed : Error
  balances_error : Error
  submit_failed : Error
  -- price_oracle.rs
  url_not_utf8 : Error
  http_send_error : Error
  http_wait_error : Error
  http_status_error : Error
  body_not_utf8 : Error
  json_parse_error : Error
  coingecko_error : Error
  coincap_error : Error
  cryptocompare_error : Error
  unknown_source : Error
  json_not_conforming : Error
  value_not_utf8 : Error
  value_not_number : Error
  fetch_submit_error : Error
  -- transaction-factory
  client_error : Error
  -- token.rs
  transfer_amount_zero : Error
  allowance_underflow : Error
  burn_more_than_supply : Error
  burn_zero_balance : Error
  funds_locked : Error
  burn_balance_underflow : Error
  burn_supply_underflow : Error
  mint_amount_zero : Error
  mint_balance_overflow : Error
  mint_supply_overflow : Error
  not_enough_tokens : Error
  symbol_too_long : Error
  symbol_too_short : Error
  -- bridge.rs
  bridge_not_operational : Error
  bridge_not_operational_already : Error
  already_voted : Error
  transfer_not_open : Error
  transfer_already_open : Error
  transfer_count_overflow : Error
  transfer_not_approved : Error
  transfer_already_executed : Error
  too_many_validators : Error
  bad_deposit_status : Error
  bad_withdraw_status : Error
  bad_transfer_action : Error
  bad_pause_status : Error
  bad_resume_status : Error
  bad_bridge_action : Error
  not_a_validator : Error
  user_blocked : Error
  amount_too_small : Error
  amount_too_big : Error
  pending_burn_overflow : Error
  pending_mint_overflow : Error
  pending_burn_underflow : Error
  pending_mint_underflow : Error
  too_many_pending_burns : Error
  too_many_pending_mints : Error
  limit_overflow : Error
  limit_underflow : Error
  daily_hold : Error
  -- dao.rs
  dao_count_overflow : Error
  founder_is_dao : Error
  name_too_short : Error
  name_too_long : Error
  name_bad_chars : Error
  description_too_short : Error
  description_too_long : Error
  dao_address_busy : Error
  dao_name_exists : Error
  dao_reserved_balance : Error
  dao_not_exists : Error
  already_member : Error
  dao_as_member : Error
  max_members_reached : Error
  proposal_already_open : Error
  max_open_proposals : Error
  proposal_count_overflow : Error
  not_a_member : Error
  already_not_a_member : Error
  last_member : Error
  timeout_too_small : Error
  timeout_too_big : Error
  same_timeout : Error
  max_members_too_small : Error
  max_members_too_big : Error
  same_max_members : Error
  members_over_new_max : Error
  proposal_not_exists : Error
  voted_already : Error
  votes_count_overflow : Error
  proposal_not_open : Error
  insufficient_deposit : Error
  members_overflow : Error
  members_underflow : Error
  dao_below_existential : Error
  dao_balance_insufficient : Error
