-- ===== src/Bridge/Counted.antt =====
-- Votes of different accounts, at least as many as are counted.
use akropolis_os_chain_node.Common.{
  ℕ, zero, suc, take, ◌+◌, ◌≤◌, ◌≡◌, Bool, true, false, List, [], ◌∷◌, arith, contains, refl,
  length,
}

-- The accounts are different ones, and each of them has a vote.
abbrev pub AllVoted : (ℕ → Bool) → List ℕ → Type 0
AllVoted voted [] = Unit
AllVoted voted (a ∷ accounts) =
    (voted a ≡ true) × (contains accounts a ≡ false) × AllVoted voted accounts

-- Different accounts have a vote, at least as many as there are votes.
abbrev pub Counted : (ℕ → Bool) → ℕ → Type 0
Counted voted votes = (voters : List ℕ) × AllVoted voted voters × (votes ≤ length voters)

AllVoted-missing :
    (voted : ℕ → Bool) (voters : List ℕ) (a : ℕ)
    → AllVoted voted voters
    → voted a ≡ false
    → contains voters a ≡ false
AllVoted-missing voted [] a all missing = refl
AllVoted-missing voted (x ∷ voters) a (y, d, all) missing =
    ground (arith, AllVoted-missing voted voters a all missing)

AllVoted-more :
    (voted voted' : ℕ → Bool) (voters : List ℕ)
    → ((a : ℕ) → voted a ≡ true → voted' a ≡ true)
    → AllVoted voted voters
    → AllVoted voted' voters
AllVoted-more voted voted' [] more all = tt
AllVoted-more voted voted' (x ∷ voters) more (y, d, all) =
    (more x y, d, AllVoted-more voted voted' voters more all)

pub Counted-less :
    (voted voted' : ℕ → Bool) (votes votes' : ℕ)
    → ((a : ℕ) → voted a ≡ true → voted' a ≡ true)
    → votes' ≤ votes
    → Counted voted votes
    → Counted voted' votes'
Counted-less voted voted' votes votes' more less (voters, all, few) =
    (voters, AllVoted-more voted voted' voters more all, omega arith)

pub Counted-zero : (voted : ℕ → Bool) (votes : ℕ) → votes ≡ 0 → Counted voted votes
Counted-zero voted votes nothing = ([], tt, omega arith)

-- One more account has a vote.
pub Counted-suc :
    (voted voted' : ℕ → Bool) (who votes votes' : ℕ)
    → voted who ≡ false
    → voted' who ≡ true
    → ((a : ℕ) → voted a ≡ true → voted' a ≡ true)
    → votes' ≤ votes + 1
    → Counted voted votes
    → Counted voted' votes'
Counted-suc voted voted' who votes votes' missing new more less (voters, all, few) = (
  who ∷ voters,
  (new, AllVoted-missing voted voters who all missing, AllVoted-more voted voted' voters more all),
  omega arith,
)

pub AllVoted-take :
    (voted : ℕ → Bool) (n : ℕ) (voters : List ℕ)
    → AllVoted voted voters
    → AllVoted voted (take n voters)
AllVoted-take voted zero voters all = tt
AllVoted-take voted (suc n) [] all = tt
AllVoted-take voted (suc n) (x ∷ voters) (y, d, all) =
    (y, contains-take n voters x d, AllVoted-take voted n voters all)
  where
    contains-take :
        (n : ℕ) (voters : List ℕ) (a : ℕ)
        → contains voters a ≡ false
        → contains (take n voters) a ≡ false
    contains-take zero voters a d = refl
    contains-take (suc n) [] a d = refl
    contains-take (suc n) (v ∷ voters) a d = ground (arith, contains-take n voters a)

pub AllVoted-contains :
    (voted : ℕ → Bool) (voters : List ℕ) (a : ℕ)
    → AllVoted voted voters
    → contains voters a ≡ true
    → voted a ≡ true
AllVoted-contains voted [] a all found = ground (arith, found)
AllVoted-contains voted (x ∷ voters) a (y, d, all) found =
    ground (arith, AllVoted-contains voted voters a all)
