-- ===== src/Dao/Founding.antt =====
-- New daos: what `create` of the dao pallet leaves behind.
use akropolis_os_chain_node.Common.{
  ℕ, ◌+◌, ◌≡◌, ◌≢◌, List, none, some, arith, refl, sym, ap, ◌∙◌, subst, false,
}
use akropolis_os_chain_node.Common.Action.{ok, returns, zoom}
use akropolis_os_chain_node.Origin.{Origin, signed}
use akropolis_os_chain_node.Types.{Dao}
use akropolis_os_chain_node.Dao.State.{Storage, Runtime, Preimage}
use akropolis_os_chain_node.Dao.Members.{validate_name, validate_description}
use akropolis_os_chain_node.Dao.Calls.{create, check_new_dao, place_dao}
use akropolis_os_chain_node.Dao.Roster.{IsRoster}

module _ {C : Type 0} where
  validate_name-frame : (name : List ℕ) (s : Storage C) → (validate_name name s).1 ≡ s
  unfolding validate_name
  validate_name-frame name s = ground arith

  validate_description-frame : (text : List ℕ) (s : Storage C) → (validate_description text s).1 ≡ s
  unfolding validate_description
  validate_description-frame text s = ground arith

module _ {C : Type 0} (r : Runtime C) where
  check_new_dao-frame :
      (founder address : ℕ) (name description : List ℕ) (s : Storage C)
      → (check_new_dao r founder address name description s).1 ≡ s
  unfolding check_new_dao
  check_new_dao-frame founder address name description s =
      ground (arith, validate_name-frame name s, validate_description-frame description s)

  check_new_dao-ok :
      (founder address : ℕ) (name description : List ℕ) (s : Storage C)
      → (check_new_dao r founder address name description s).0 ≡ ok tt
      → (founder ≢ address)
        × (s.dao_addresses address ≡ none)
        × (s.dao_names (r.hash (Preimage.name name)) ≡ none)
  unfolding check_new_dao
  check_new_dao-ok founder address name description s h =
      let n = validate_name-frame name s in
      let d = validate_description-frame description s in
      (ground (arith, n, d), ground (arith, n, d), ground (arith, n, d))

  -- What holds of a state `t` in which the dao was placed as the next one of `s`.
  abbrev Placed : Storage C → Storage C → Dao → Type 0
  Placed s t dao =
      (t.daos_count ≡ s.daos_count + 1)
      × (t.dao_addresses dao.address ≡ some s.daos_count)
      × (t.dao_names (r.hash (Preimage.name dao.name)) ≡ some s.daos_count)
      × (t.members_count s.daos_count ≡ 1)
      × (t.members s.daos_count 0 ≡ dao.founder)
      × IsRoster t s.daos_count

  place_dao-ok :
      (dao : Dao) (s : Storage C)
      → ((a : ℕ) → s.dao_members s.daos_count a ≡ none)
      → (place_dao r s.daos_count (s.daos_count + 1) dao s).0 ≡ ok tt
      → Placed s (place_dao r s.daos_count (s.daos_count + 1) dao s).1 dao
  unfolding place_dao zoom
  place_dao-ok dao s fresh h = (
    ground arith,
    ground arith,
    ground arith,
    ground arith,
    ground arith,
    (λ i k. ground arith, λ a i k. ground (arith, fresh a)),
  )

  create-place_dao :
      (founder address : ℕ) (name description : List ℕ) (s : Storage C)
      → (create r (signed founder) address name description s).0 ≡ ok tt
      → ((check_new_dao r founder address name description s).0 ≡ ok tt)
        × (create r (signed founder) address name description s
            ≡ place_dao r s.daos_count
                (s.daos_count + 1)
                (record {
                  address = address;
                  name = name;
                  description = description;
                  founder = founder;
                })
                s)
  unfolding create
  create-place_dao founder address name description s h =
      let f = check_new_dao-frame founder address name description s in
      (ground (arith, f), ground (arith, f))

  -- A dao that is created gets the next id and a founder who is its only member. Its name and its
  -- address were free. No account is a member of the next id before.
  pub create-ok :
      (founder address : ℕ) (name description : List ℕ) (s : Storage C)
      → ((a : ℕ) → s.dao_members s.daos_count a ≡ none)
      → (create r (signed founder) address name description s).0 ≡ ok tt
      → let t = (create r (signed founder) address name description s).1 in
        let id = s.daos_count in
        ((founder ≢ address)
          × (s.dao_addresses address ≡ none)
          × (s.dao_names (r.hash (Preimage.name name)) ≡ none))
        × (t.daos_count ≡ id + 1)
        × (t.dao_addresses address ≡ some id)
        × (t.dao_names (r.hash (Preimage.name name)) ≡ some id)
        × (t.members_count id ≡ 1)
        × (t.members id 0 ≡ founder)
        × IsRoster t id
  create-ok founder address name description s fresh h =
      let dao : Dao = record {
        address = address;
        name = name;
        description = description;
        founder = founder;
      } in
      let (passed, same) = create-place_dao founder address name description s h in
      let placed : Placed s (create r (signed founder) address name description s).1 dao =
        subst (λ x. Placed s x.1 dao) (sym same)
          (place_dao-ok dao s fresh (sym (ap (λ x. x.0) same) ∙ h)) in
      let (count, at, named, size, founded, roster) = placed in
      (
        check_new_dao-ok founder address name description s passed,
        count,
        at,
        named,
        size,
        founded,
        roster,
      )

  check_new_dao-name_taken :
      (founder address id : ℕ) (name description : List ℕ) (s : Storage C)
      → s.dao_names (r.hash (Preimage.name name)) ≡ some id
      → returns (check_new_dao r founder address name description s) ≡ false
  unfolding check_new_dao
  check_new_dao-name_taken founder address id name description s h =
      ground (arith, validate_name-frame name s, validate_description-frame description s)

  -- A name that a dao has cannot be taken again, by anyone and for any address: the call fails and
  -- changes nothing.
  pub create-name_taken :
      (o : Origin) (address id : ℕ) (name description : List ℕ) (s : Storage C)
      → s.dao_names (r.hash (Preimage.name name)) ≡ some id
      → (returns (create r o address name description s) ≡ false)
        × ((create r o address name description s).1 ≡ s)
  unfolding create
  create-name_taken Origin.root address id name description s h = (refl, refl)
  create-name_taken (Origin.signed who) address id name description s h = ground (
    arith,
    check_new_dao-frame who address name description s,
    check_new_dao-name_taken who address id name description s h,
  )
  create-name_taken Origin.unsigned address id name description s h = (refl, refl)
