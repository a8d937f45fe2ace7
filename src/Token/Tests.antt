-- ===== src/Token/Tests.antt =====
-- The theorems on the token pallet at concrete states.
use akropolis_os_chain_node.Common.{ℕ, ◌≡◌, List, [], ◌∷◌, none, some, arith, refl, Option, ◌≤◌}
use akropolis_os_chain_node.Common.Maps.{update₂, update₃}
use akropolis_os_chain_node.Types.{default_token}
use akropolis_os_chain_node.Origin.{Origin, signed}
use akropolis_os_chain_node.Token.Ledger.{Step, view, IsSound}
use akropolis_os_chain_node.Token.Refinement.{Call, dispatch, dispatch-Step}
use akropolis_os_chain_node.Token.{
  Storage, make_transfer, mint_tokens, burn_tokens, check_token_exist, validate_name, deposit_event,
}
use akropolis_os_chain_node.Token.Calls
use akropolis_os_chain_node.Token.Solvency.{IsSolvent}
use akropolis_os_chain_node.Token.Solvency.Runs
use akropolis_os_chain_node.Token.Conservation.{total, make_transfer-total}
use akropolis_os_chain_node.Token.Allowances.{run}

abbrev pub no_tokens : Storage
no_tokens = record {
  count = 0;
  locked = λ _ _. 0;
  tokens = [];
  token_map = λ _. default_token;
  token_ids = λ _. none;
  token_symbol = λ _. [];
  total_supply = λ _. 0;
  balance = λ _ _. 0;
  allowance = λ _ _ _. 0;
  events = [];
}

-- Account 1 has 100 of token 0, of which 20 are locked, and account 2 may take 50 of them.
abbrev funded : Storage
funded = record no_tokens {
  balance = update₂ no_tokens.balance 0 1 100;
  locked = update₂ no_tokens.locked 0 1 20;
  total_supply = λ _. 100;
  allowance = update₃ no_tokens.allowance 0 1 2 50;
}

abbrev accounts : List ℕ
accounts = 1 ∷ 2 ∷ 3 ∷ []

make_transfer-total_example :
    total ((make_transfer 0 1 2 30 funded).1.balance 0) accounts ≡ total (funded.balance 0) accounts
make_transfer-total_example =
    make_transfer-total 0 1 2 30 funded accounts (refl, (refl, (refl, tt))) refl refl (omega arith)

abbrev calls : List (ℕ × ℕ)
calls = (3, 30) ∷ (2, 40) ∷ (3, 10) ∷ []

funded-IsSound : IsSound funded
funded-IsSound = (λ t a. ground arith, λ t a b h. ground arith, λ t a. ground arith)

dispatch-Step_example :
    Step
      (signed 2)
      (view funded)
      (view (dispatch (λ a. some a) (signed 2) (Call.transfer_from 1 3 0 30) funded).1)
dispatch-Step_example =
    dispatch-Step (λ a. some a) (signed 2) (Call.transfer_from 1 3 0 30) funded funded-IsSound

-- Accounts 1 and 2 hold the 100 of token 0.
abbrev shared : Storage
shared = record no_tokens {
  balance = update₂ (update₂ no_tokens.balance 0 1 60) 0 2 40;
  total_supply = λ _. 100;
  token_map = λ _. record default_token { symbol = 68 ∷ 65 ∷ 73 ∷ [] };
}

shared-IsSolvent : IsSolvent shared
shared-IsSolvent = record {
  backing = record {
    accounts = 1 ∷ 2 ∷ [];
    distinct = (refl, (refl, tt));
    all_listed = λ a h. ground (arith, h);
    sum = refl;
  };
  bound = omega arith;
  free = λ a. refl;
}

-- Account 3 is given 7 by a mint, account 1 pays 20 to account 2, and 5 of account 2 are burned.
abbrev history : List ((ℕ → Option ℕ) × Origin × Call)
history =
    ((λ a. some a), signed 9, Call.mint 3 0 7)
    ∷ ((λ a. some a), signed 1, Call.transfer 2 0 20)
    ∷ ((λ a. some a), signed 9, Call.burn 2 0 5)
    ∷ []

run-IsSolvent_example :
    IsSolvent (Runs.run history shared)
    × ((a : ℕ) → (Runs.run history shared).balance 0 a ≤ (Runs.run history shared).total_supply 0)
run-IsSolvent_example = Runs.run-IsSolvent history shared shared-IsSolvent

-- The history does what it says.
history_supply :
    ((Runs.run history shared).total_supply 0 ≡ 102)
    × ((Runs.run history shared).balance 0 2 ≡ 55)
    × ((Runs.run history shared).balance 0 3 ≡ 7)
unfolding Runs.run dispatch Calls.mint Calls.transfer Calls.burn check_token_exist validate_name
    mint_tokens burn_tokens make_transfer deposit_event
history_supply = (refl, refl, refl)
