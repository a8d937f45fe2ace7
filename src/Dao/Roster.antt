-- ===== src/Dao/Roster.antt =====
-- The member lists of daos: the numbers of the members and the table from accounts to numbers are
-- inverse to one another.
use akropolis_os_chain_node.Common.{ℕ, ◌+◌, ◌-◌, ◌<◌, ◌≡◌, ◌≢◌, none, some, arith, sym, ap, ◌∙◌}
use akropolis_os_chain_node.Common.Action.{ok}
use akropolis_os_chain_node.Dao.State.{Storage}
use akropolis_os_chain_node.Dao.Members.{add_member, remove_member}

-- The members of the dao have the numbers below their count, each its own.
abbrev pub IsRoster : {C : Type 0} → Storage C → ℕ → Type 0
IsRoster s dao_id =
    ((i : ℕ) → i < s.members_count dao_id → s.dao_members dao_id (s.members dao_id i) ≡ some i)
    × ((account i : ℕ)
        → s.dao_members dao_id account ≡ some i
        → (i < s.members_count dao_id) × (s.members dao_id i ≡ account))

not_last : (i n : ℕ) → i < n → some n ≢ some i
not_last i n low e = ground (arith, e, low)

-- The removal of the member with the last number.
remove_last :
    {C : Type 0} (dao_id account n i : ℕ) (t : Storage C)
    → t.members_count dao_id ≡ n + 1
    → i < n
    → t.dao_members dao_id account ≡ some n
    → let (r, u) = remove_member dao_id account t in
      (r ≡ ok tt)
      × (u.dao_members dao_id account ≡ none)
      × (i < u.members_count dao_id)
      × (u.members dao_id i ≡ t.members dao_id i)
unfolding remove_member
remove_last dao_id account n i t count low number = (
  ground (arith, count, low, number),
  ground (arith, count, low, number),
  ground (arith, count, low, number),
  ground (arith, count, low, number),
)

module _ {C : Type 0} (dao_id account : ℕ) (s : Storage C) where
  -- Adding an account that is no member keeps the roster of every dao, whether it succeeds or not.
  pub add_member-IsRoster :
      (d : ℕ)
      → s.dao_members dao_id account ≡ none
      → IsRoster s d
      → IsRoster (add_member dao_id account s).1 d
  unfolding add_member
  add_member-IsRoster d new (numbered, back) =
      (λ i h. ground (arith, numbered i, back account i), λ a i h. ground (arith, back a i))

  -- A removal leaves the rosters of other daos alone.
  remove_member-IsRoster_other :
      (d : ℕ) → dao_id ≢ d → IsRoster s d → IsRoster (remove_member dao_id account s).1 d
  unfolding remove_member
  remove_member-IsRoster_other d other (numbered, back) =
      (λ i h. ground (arith, numbered i), λ a i h. ground (arith, back a i))

  module _ (k : ℕ) (old : s.dao_members dao_id account ≡ some k) (roster : IsRoster s dao_id) where
    remove_numbered :
        (i : ℕ)
        → let t = (remove_member dao_id account s).1 in
          i < t.members_count dao_id → t.dao_members dao_id (t.members dao_id i) ≡ some i
    unfolding remove_member
    remove_numbered i h =
        let last = s.members_count dao_id - 1 in
        ground (arith, roster.0 i, roster.0 last, roster.1 account k) steps 10000000

    remove_back :
        (a i : ℕ)
        → let t = (remove_member dao_id account s).1 in
          t.dao_members dao_id a ≡ some i → (i < t.members_count dao_id) × (t.members dao_id i ≡ a)
    unfolding remove_member
    remove_back a i h =
        let last = s.members_count dao_id - 1 in
        ground (arith, roster.1 a i, roster.0 last, roster.1 account k)

    -- Removing a member keeps the roster, whether it succeeds or not: the member with the last
    -- number takes the number that becomes free.
    pub remove_member-IsRoster : IsRoster (remove_member dao_id account s).1 dao_id
    remove_member-IsRoster = (remove_numbered, remove_back)

  -- In a dao with members, an account that was no member and is added is a member and counted. It
  -- can be removed, and then the count and the table of members are as before.
  pub remove_member-add_member :
      s.dao_members dao_id account ≡ none
      → 0 < s.members_count dao_id
      → (add_member dao_id account s).0 ≡ ok tt
      → let t = (add_member dao_id account s).1 in
        let (r, u) = remove_member dao_id account t in
        (t.dao_members dao_id account ≡ some (s.members_count dao_id))
        × (t.members_count dao_id ≡ s.members_count dao_id + 1)
        × (r ≡ ok tt)
        × (u.members_count dao_id ≡ s.members_count dao_id)
        × ((a : ℕ) → u.dao_members dao_id a ≡ s.dao_members dao_id a)
  unfolding add_member remove_member
  remove_member-add_member new some_member h =
      (ground arith, ground arith, ground arith, ground arith, λ a. ground arith)

  add_member_again :
      (i : ℕ)
      → (i < s.members_count dao_id) × (s.members dao_id i ≡ account)
      → (add_member dao_id account s).0 ≡ ok tt
      → let t = (add_member dao_id account s).1 in
        (i < t.members_count dao_id)
        × (t.members dao_id i ≡ account)
        × (t.dao_members dao_id account ≡ some (s.members_count dao_id))
        × (t.members_count dao_id ≡ s.members_count dao_id + 1)
  unfolding add_member
  add_member_again i here h =
      (ground (arith, here), ground (arith, here), ground arith, ground arith)

  -- An account that is a member already, and is added once more, has two numbers, so that the
  -- roster of the dao is no roster any more. Once it is removed it is no member, and still stands
  -- under a number below the count.
  pub remove_member-add_member_again :
      (i : ℕ)
      → s.dao_members dao_id account ≡ some i
      → IsRoster s dao_id
      → (add_member dao_id account s).0 ≡ ok tt
      → let t = (add_member dao_id account s).1 in
        let (r, u) = remove_member dao_id account t in
        ¬ IsRoster t dao_id
        × (r ≡ ok tt)
        × (u.dao_members dao_id account ≡ none)
        × (i < u.members_count dao_id)
        × (u.members dao_id i ≡ account)
  remove_member-add_member_again i old (numbered, back) h =
      let here = back account i old in
      let t = (add_member dao_id account s).1 in
      let (low, listed, number, count) = add_member_again i here h in
      let (done, gone, low', same) =
        remove_last dao_id account (s.members_count dao_id) i t count here.0 number in
      (
        λ roster.
            not_last i (s.members_count dao_id) here.0
              (sym (ap (t.dao_members dao_id) listed ∙ number) ∙ roster.0 i low),
        done,
        gone,
        low',
        same ∙ listed,
      )
