-- ===== src/Dao/Members.antt =====
-- The members of a dao, and the checks of names, descriptions, timeouts and sizes
-- (runtime/src/dao.rs).
use akropolis_os_chain_node.Common.{
  ℕ, Bool, not, ◌&&◌, ◌||◌, List, none, some, ltb, leb, ◌==◌, if◌then◌else◌, unwrap_or, length, all,
}
use akropolis_os_chain_node.Common.Words.{u64_mod, checked_add, checked_sub}
use akropolis_os_chain_node.Common.Action.{Action, pure, fail, or_fail, gets, ensure, ◌>>=◌, ◌>>◌}
use akropolis_os_chain_node.Errors.{
  name_too_short, name_too_long, name_bad_chars, description_too_short, description_too_long,
  timeout_too_small, timeout_too_big, max_members_too_small, max_members_too_big,
  max_members_reached, last_member, members_overflow, members_underflow,
}
use akropolis_os_chain_node.Dao.State.{
  Storage, minimum_vote_timeout, maximum_vote_timeout, set_member, set_members_count,
  set_dao_member,
}

-- 'a' to 'z', 'A' to 'Z', '0' to '9', '-', '_'
unfoldable pub is_valid_char : ℕ → Bool
is_valid_char c =
    (leb 97 c && leb c 122)
    || ((leb 65 c && leb c 90) || ((leb 48 c && leb c 57) || (c == 45 || c == 95)))

module _ {C : Type 0} where
  unfoldable pub validate_name : List ℕ → Action (Storage C) Unit
  unfolding ◌>>=◌ is_valid_char
  validate_name name =
      if ltb (length name) 10
      then fail name_too_short
      else if ltb 255 (length name)
      then fail name_too_long
      else if not (all is_valid_char name)
      then fail name_bad_chars
      else pure tt

  unfoldable pub validate_description : List ℕ → Action (Storage C) Unit
  unfolding ◌>>=◌
  validate_description description =
      if ltb (length description) 10
      then fail description_too_short
      else if ltb 4096 (length description)
      then fail description_too_long
      else pure tt

  unfoldable pub validate_vote_timeout : ℕ → Action (Storage C) Unit
  unfolding ◌>>=◌
  validate_vote_timeout timeout =
      if ltb timeout minimum_vote_timeout
      then fail timeout_too_small
      else if ltb maximum_vote_timeout timeout
      then fail timeout_too_big
      else pure tt

  unfoldable pub validate_number_of_members : ℕ → Action (Storage C) Unit
  unfolding ◌>>=◌
  validate_number_of_members number_of_members = do
    least ← gets (λ s. s.minimum_number_of_members)
    greatest ← gets (λ s. s.maximum_number_of_members)
    if ltb number_of_members least
        then fail max_members_too_small
        else if ltb greatest number_of_members
        then fail max_members_too_big
        else pure tt

  unfoldable pub add_member : ℕ → ℕ → Action (Storage C) Unit
  unfolding ◌>>=◌ set_member set_members_count set_dao_member
  add_member dao_id member = do
    members_count ← gets (λ s. s.members_count dao_id)
    maximum ← gets (λ s. s.dao_maximum_number_of_members dao_id)
    ensure (ltb members_count maximum) max_members_reached
    new_members_count ← or_fail (checked_add u64_mod members_count 1) members_overflow
    set_member dao_id members_count member
    set_members_count dao_id new_members_count
    set_dao_member dao_id member (some members_count)

  -- The last member moves into the place of the removed one.
  unfoldable pub move_latest_member : ℕ → ℕ → ℕ → Action (Storage C) Unit
  unfolding ◌>>=◌ set_member set_dao_member
  move_latest_member dao_id member_id max_member_id = do
    latest_member ← gets (λ s. s.members dao_id max_member_id)
    set_member dao_id member_id latest_member
    set_dao_member dao_id latest_member (some member_id)

  unfoldable pub remove_member : ℕ → ℕ → Action (Storage C) Unit
  unfolding ◌>>=◌ set_member set_members_count set_dao_member move_latest_member
  remove_member dao_id member = do
    members_count ← gets (λ s. s.members_count dao_id)
    ensure (ltb 1 members_count) last_member
    max_member_id ← or_fail (checked_sub members_count 1) members_underflow
    member_id ← gets (λ s. unwrap_or (s.dao_members dao_id member) 0)
    if not (member_id == max_member_id)
        then move_latest_member dao_id member_id max_member_id
        else pure tt
    set_member dao_id max_member_id 0
    set_members_count dao_id max_member_id
    set_dao_member dao_id member none
