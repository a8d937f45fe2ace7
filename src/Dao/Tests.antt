-- ===== src/Dao/Tests.antt =====
-- The theorems on the dao pallet at concrete states. The balances pallet keeps one number.
use akropolis_os_chain_node.Common.{
  ℕ, not, ◌||◌, leb, if◌then◌else◌, ◌+◌, ◌<◌, ◌≡◌, ◌≢◌, true, false, List, [], ◌∷◌, none, some,
  arith, refl, is_some, unwrap_or,
}
use akropolis_os_chain_node.Common.Words.{u64_mod, wrapping_add}
use akropolis_os_chain_node.Common.Maps.{update, update₂}
use akropolis_os_chain_node.Common.Action.{ok, pure, returns, zoom}
use akropolis_os_chain_node.Origin.{signed}
use akropolis_os_chain_node.Types
use akropolis_os_chain_node.Types.{Proposal, default_proposal}
use akropolis_os_chain_node.Votes.{votes_are_enough}
use akropolis_os_chain_node.Token.Tests.{no_tokens}
use akropolis_os_chain_node.Dao.State.{Storage, Runtime}
use akropolis_os_chain_node.Dao.Members.{
  add_member, remove_member, validate_name, validate_description,
}
use akropolis_os_chain_node.Dao.Proposals.{open_proposal}
use akropolis_os_chain_node.Dao.Calls.{
  create, check_new_dao, place_dao, vote, conclude_vote, settle_proposal, announce, expire_proposal,
}
use akropolis_os_chain_node.Dao.Roster.{
  IsRoster, remove_member-IsRoster, remove_member-add_member, remove_member-add_member_again,
}
use akropolis_os_chain_node.Dao.Founding.{create-ok}
use akropolis_os_chain_node.Dao.Expiry.{expire_proposal-collision}
use akropolis_os_chain_node.Dao.Ballots.{vote-ok}
use akropolis_os_chain_node.Dao.Run.{Call, Step, run}
use akropolis_os_chain_node.Dao.Bounds.{IsBounded, run-IsBounded}
use akropolis_os_chain_node.Dao.Tally.{IsTally, run-IsTally}
use akropolis_os_chain_node.Dao.Loans.{vote-no_price}

abbrev runtime : Runtime ℕ
runtime = record {
  hash = λ _. 7;
  block_number = 1;
  existential_deposit = 1;
  free_balance = λ c _. c;
  reserved_balance = λ _ _. 0;
  transfer = λ _ _ _. pure tt;
  set_lock = λ _ _ c. c;
  remove_lock = λ _ c. c;
}

abbrev start : Storage ℕ
start = record {
  currency = 500;
  token = no_tokens;
  prices = record { token_price_history = λ _. []; aggregated_prices = λ _. (0, 0); events = [] };
  marketplace = record { something = none; events = [] };
  daos = λ _. none;
  daos_count = 0;
  dao_names = λ _. none;
  dao_addresses = λ _. none;
  dao_timeouts = λ _. 0;
  dao_maximum_number_of_members = λ _. 4;
  address = λ _. 0;
  minimum_number_of_members = 1;
  maximum_number_of_members = 4;
  members = λ _ _. 0;
  members_count = λ _. 0;
  dao_members = λ _ _. none;
  dao_proposals = λ _ _. none;
  dao_proposals_count = λ _. 0;
  dao_proposals_index = λ _. 0;
  dao_proposals_votes = λ _ _ _. 0;
  dao_proposals_votes_count = λ _ _. 0;
  dao_proposals_votes_index = λ _ _ _. none;
  open_proposals_per_block = 2;
  open_dao_proposals = λ _. [];
  open_dao_proposals_hashes = λ _. none;
  open_dao_proposals_hashes_index = λ _. 0;
  events = [];
}

-- "aaaaaaaaaa"
abbrev name : List ℕ
name = 97 ∷ 97 ∷ 97 ∷ 97 ∷ 97 ∷ 97 ∷ 97 ∷ 97 ∷ 97 ∷ 97 ∷ []

abbrev founder : ℕ
founder = 1

create-ok_example :
    let t = (create runtime (signed founder) 9 name name start).1 in
    ((founder ≢ 9) × (start.dao_addresses 9 ≡ none) × (start.dao_names 7 ≡ none))
    × (t.daos_count ≡ start.daos_count + 1)
    × (t.dao_addresses 9 ≡ some 0)
    × (t.dao_names 7 ≡ some 0)
    × (t.members_count 0 ≡ 1)
    × (t.members 0 0 ≡ founder)
    × IsRoster t 0
unfolding create check_new_dao place_dao validate_name validate_description zoom
create-ok_example = create-ok runtime founder 9 name name start (λ a. refl) refl

abbrev named : Storage ℕ
named = record start { dao_names = update start.dao_names 7 (some 3) }

-- Dao 0 has the members 5 and 6, with the numbers 0 and 1.
abbrev peopled : Storage ℕ
peopled = record start {
  members = update₂ (update₂ start.members 0 0 5) 0 1 6;
  members_count = update start.members_count 0 2;
  dao_members = update₂ (update₂ start.dao_members 0 5 (some 0)) 0 6 (some 1);
}

peopled-IsRoster : IsRoster peopled 0
peopled-IsRoster = (λ i h. ground arith, λ a i h. ground arith)

remove_member-IsRoster_example : IsRoster (remove_member 0 5 peopled).1 0
remove_member-IsRoster_example = remove_member-IsRoster 0 5 peopled 0 refl peopled-IsRoster

-- Account 6 is added again.
remove_member-add_member_again_example :
    let t = (add_member 0 6 peopled).1 in
    let (r, u) = remove_member 0 6 t in
    ¬ IsRoster t 0
    × (r ≡ ok tt)
    × (u.dao_members 0 6 ≡ none)
    × (1 < u.members_count 0)
    × (u.members 0 1 ≡ 6)
unfolding add_member
remove_member-add_member_again_example =
    remove_member-add_member_again 0 6 peopled 1 refl peopled-IsRoster refl

remove_member-add_member_example :
    let t = (add_member 0 8 peopled).1 in
    let (r, u) = remove_member 0 8 t in
    (t.dao_members 0 8 ≡ some (peopled.members_count 0))
    × (t.members_count 0 ≡ peopled.members_count 0 + 1)
    × (r ≡ ok tt)
    × (u.members_count 0 ≡ peopled.members_count 0)
    × ((a : ℕ) → u.dao_members 0 a ≡ peopled.dao_members 0 a)
unfolding add_member
remove_member-add_member_example = remove_member-add_member 0 8 peopled refl (omega arith) refl

abbrev proposal : Proposal
proposal = record default_proposal { action = Types.Action.change_timeout 0 40 }

abbrev loan : Proposal
loan = record default_proposal { action = Types.Action.get_loan name 3 2 0 10; yes_count = 1 }

-- A proposal of dao 0 for a longer timeout, and one for a loan.
abbrev proposed : Storage ℕ
proposed = record peopled {
  dao_proposals = update₂ (update₂ peopled.dao_proposals 0 0 (some proposal)) 0 1 (some loan);
}

vote-ok_example :
    let t = (vote (signed 5) 0 0 true proposed).1 in
    let n = proposed.members_count 0 in
    (stored : Proposal) × (proposed.dao_proposals 0 0 ≡ some stored)
    × (stored.is_open ≡ true)
    × (is_some (proposed.dao_members 0 5) ≡ true)
    × (proposed.dao_proposals_votes_index 0 0 5 ≡ none)
    × (t.dao_proposals 0 0 ≡ (
        let yes = wrapping_add u64_mod stored.yes_count 1 in
        let no = stored.no_count in
        let accepts = votes_are_enough yes n in
        let closes = accepts || (votes_are_enough no n || leb n (wrapping_add u64_mod yes no)) in
        some (record stored {
          yes_count = yes;
          no_count = no;
          is_open = not closes;
          accepted = if closes then accepts else stored.accepted;
        })))
    × (t.dao_proposals_votes_count 0 0 ≡ 0 + 1)
    × (t.dao_proposals_votes_index 0 0 5 ≡ some 0)
unfolding vote conclude_vote settle_proposal announce votes_are_enough
vote-ok_example = vote-ok 5 0 0 true proposed refl

vote-no_price_example : returns (vote (signed 5) 0 1 true proposed) ≡ false
unfolding votes_are_enough
vote-no_price_example = vote-no_price 5 0 1 name 3 2 0 10 loan proposed refl refl refl refl

expire_proposal-collision_example :
    let t =
      (open_proposal 2
        (Types.Action.add_member 8)
        31
        6
        (open_proposal 1 (Types.Action.add_member 8) 31 5 start).1).1 in
    let u = (expire_proposal 0 t).1 in
    (u.dao_proposals 1 0 ≡ t.dao_proposals 1 0)
    × ((unwrap_or (u.dao_proposals 1 0) default_proposal).is_open ≡ true)
    × ((unwrap_or (u.dao_proposals 2 0) default_proposal).is_open ≡ false)
unfolding open_proposal
expire_proposal-collision_example =
    expire_proposal-collision 1 2 (Types.Action.add_member 8) (Types.Action.add_member 8) 31 5 6
      start (omega arith) refl refl refl

abbrev calls : List (Step ℕ)
calls =
    Step.call runtime (signed 1) (Call.create 9 name name)
    ∷ Step.call runtime (signed 8) (Call.propose_to_add_member 0)
    ∷ Step.call runtime (signed 1) (Call.vote 0 0 true)
    ∷ []

start-IsBounded : IsBounded 4 start
start-IsBounded = (
  refl,
  λ d. omega arith,
  λ d. omega arith,
  λ d dao e. absurd (ground arith),
  λ d n p e. absurd (ground arith),
)

run-IsBounded_example : IsBounded 4 (run calls start)
run-IsBounded_example = run-IsBounded 4 calls start (omega arith) start-IsBounded

start-IsTally : (d n : ℕ) → IsTally start d n
start-IsTally d n = (
  refl,
  λ i h. absurd (omega arith),
  λ voter i e. absurd (ground arith),
  λ h. refl,
  λ q h e. absurd (ground arith),
)

run-IsTally_example : IsTally (run calls start) 0 0
run-IsTally_example = run-IsTally calls start start-IsTally 0 0
