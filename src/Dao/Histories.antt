-- ===== src/Dao/Histories.antt =====
-- A history of the dao pallet in which an account becomes a member of a dao twice: the proposals of
-- two daos with one number share an entry of the table of hashes, so that the end of one proposal
-- takes the hash of the other, which is open, out of that table.
use akropolis_os_chain_node.Common.{ℕ, ◌+◌, ◌*◌, ◌≡◌, List, [], ◌∷◌, none, refl, length, true}
use akropolis_os_chain_node.Common.Action.{pure, zoom}
use akropolis_os_chain_node.Origin.{signed}
use akropolis_os_chain_node.Token.Tests.{no_tokens}
use akropolis_os_chain_node.Dao.State.{Storage, Runtime, Preimage}
use akropolis_os_chain_node.Dao.Genesis.{default_config, genesis}
use akropolis_os_chain_node.Dao.Run.{Call, Step, run, dispatch}
use akropolis_os_chain_node.Dao.Calls
use akropolis_os_chain_node.Dao.Proposals
use akropolis_os_chain_node.Dao.Members.{validate_name, validate_description, add_member}
use akropolis_os_chain_node.Dao.Execution.{execute_proposal}
use akropolis_os_chain_node.Votes.{votes_are_enough}

abbrev hash : Preimage → ℕ
hash (Preimage.name text) = length text
hash (Preimage.add_member account id) = 100 + 10 * account + id
hash (Preimage.remove_member account id) = 200 + 10 * account + id
hash _ = 0

abbrev runtime : ℕ → Runtime ℕ
runtime block = record {
  hash = hash;
  block_number = block;
  existential_deposit = 1;
  free_balance = λ c _. c;
  reserved_balance = λ _ _. 0;
  transfer = λ _ _ _. pure tt;
  set_lock = λ _ _ c. c;
  remove_lock = λ _ c. c;
}

-- "aaaaaaaaaa"
abbrev name : List ℕ
name = 97 ∷ 97 ∷ 97 ∷ 97 ∷ 97 ∷ 97 ∷ 97 ∷ 97 ∷ 97 ∷ 97 ∷ []

abbrev by : ℕ → ℕ → Call ℕ → Step ℕ
by block who c = Step.call (runtime block) (signed who) c

-- Accounts 1 and 2 found daos 0 and 1. Account 3 asks to join dao 0, and account 4 to join dao 1.
-- In block 2, after the vote of dao 0, account 4 asks again, and dao 1 accepts both proposals.
abbrev steps : List (Step ℕ)
steps =
    by 1 1 (Call.create 8 name name)
    ∷ by 1 2 (Call.create 9 (97 ∷ name) name)
    ∷ by 1 3 (Call.propose_to_add_member 0)
    ∷ by 1 4 (Call.propose_to_add_member 1)
    ∷ by 1 1 (Call.vote 0 0 true)
    ∷ by 2 4 (Call.propose_to_add_member 1)
    ∷ by 2 2 (Call.vote 1 0 true)
    ∷ by 2 2 (Call.vote 1 1 true)
    ∷ by 2 4 (Call.vote 1 1 true)
    ∷ []

abbrev after_steps : Storage ℕ
after_steps = run steps (
    genesis default_config 500 no_tokens
      (record { token_price_history = λ _. []; aggregated_prices = λ _. (0, 0); events = [] })
      (record { something = none; events = [] }))

joined_twice :
    (after_steps.members_count 1 ≡ 3)
    × (after_steps.members 1 0 ≡ 2)
    × (after_steps.members 1 1 ≡ 4)
    × (after_steps.members 1 2 ≡ 4)
unfolding run dispatch Calls.vote Proposals.propose_to_add_member Calls.create genesis
    Calls.check_new_dao validate_name validate_description Calls.place_dao zoom Calls.conclude_vote
    Calls.settle_proposal votes_are_enough execute_proposal add_member Calls.announce
joined_twice = (refl, refl, refl, refl)
