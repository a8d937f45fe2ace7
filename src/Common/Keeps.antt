-- ===== src/Common/Keeps.antt =====
-- What actions keep: a rule for each action of Common/Action, and the rules as a ruleset.
use mathlib.Core.Path.{◌≡◌, refl, sym, subst}
use mathlib.Core.Bool.{Bool, true, false}
use mathlib.Core.Option.{Option, none, some}
use mathlib.Core.List.{List, [], ◌∷◌}
use akropolis_os_chain_node.Errors.{Error}
use akropolis_os_chain_node.Common.Tests.{if◌then◌else◌}
use akropolis_os_chain_node.Common.Action.{
  Action, Outcome, ok, err, panicked, pure, fail, or_fail, or_panic, gets, ensure, modify, proceed,
  ◌>>=◌, ◌>>◌, zoom, for_each, returns,
}

-- A predicate on the state that an action keeps, also where it fails or panics.
pub record Keeps {ℓ} {S R : Type ℓ} (Inv : S → Type ℓ) (action : Action S R) : Type ℓ where
  pub at : (before : S) → Inv before → Inv (action before).1

module _ {ℓ} {S A B : Type ℓ} {P : S → Type ℓ} where
  proceed_keeps :
      (outcome : Outcome A) (next : A → Action S B) (s : S)
      → ((a : A) → Keeps P (next a))
      → P s
      → P (proceed outcome next s).1
  proceed_keeps panicked next s kept valid = valid
  proceed_keeps (err e) next s kept valid = valid
  proceed_keeps (ok a) next s kept valid = (kept a).at s valid

  pub Keeps-bind :
      (first : Action S A) (next : A → Action S B)
      → Keeps P first
      → ((a : A) → Keeps P (next a))
      → Keeps P (first >>= next)
  unfolding ◌>>=◌
  Keeps-bind first next kept_first kept_next = record {
    at = λ s valid. proceed_keeps (first s).0 next (first s).1 kept_next (kept_first.at s valid);
  }

module _ {S : Type 0} {P : S → Type 0} where
  pub Keeps-modify : (f : S → S) → ((s : S) → P s → P (f s)) → Keeps P (modify f)
  unfolding modify
  Keeps-modify f kept = record { at = kept }

  pub Keeps-ensure : (test : Bool) (e : Error) → Keeps P (ensure test e)
  unfolding ensure
  Keeps-ensure false e = record { at = λ _ valid. valid }
  Keeps-ensure true e = record { at = λ _ valid. valid }

module _ {ℓ} {S R : Type ℓ} {P : S → Type ℓ} where
  -- An action that leaves the state alone keeps everything.
  unchanged : (action : Action S R) → ((s : S) → (action s).1 ≡ s) → Keeps P action
  unchanged action same = record { at = λ s valid. subst P (sym (same s)) valid }

  pub Keeps-or_panic : (found : Option R) → Keeps P (or_panic found)
  unfolding or_panic
  Keeps-or_panic none = unchanged (or_panic none) (λ s. refl)
  Keeps-or_panic (some r) = unchanged (or_panic (some r)) (λ s. refl)

  pub Keeps-or_fail : (found : Option R) (e : Error) → Keeps P (or_fail found e)
  unfolding or_fail
  Keeps-or_fail none e = unchanged (or_fail none e) (λ s. refl)
  Keeps-or_fail (some r) e = unchanged (or_fail (some r) e) (λ s. refl)

  pub Keeps-gets : (read : S → R) → Keeps P (gets read)
  unfolding gets
  Keeps-gets read = unchanged (gets read) (λ s. refl)

  pub Keeps-fail : (e : Error) → Keeps P (fail {A = R} e)
  unfolding fail
  Keeps-fail e = unchanged (fail e) (λ s. refl)

  pub Keeps-pure : (r : R) → Keeps P (pure r)
  unfolding pure
  Keeps-pure r = unchanged (pure r) (λ s. refl)

  pub Keeps-if :
      (test : Bool) (positive negative : Action S R)
      → Keeps P positive
      → Keeps P negative
      → Keeps P (if test then positive else negative)
  Keeps-if false positive negative kept_yes kept_no = kept_no
  Keeps-if true positive negative kept_yes kept_no = kept_yes

module _ {ℓ} {S A B : Type ℓ} {P : S → Type ℓ} where
  -- What is read is known to come from a state with the invariant.
  pub Keeps-read :
      (f : S → A) (g : A → Action S B)
      → ((s : S) → P s → Keeps P (g (f s)))
      → Keeps P (gets f >>= g)
  unfolding ◌>>=◌
  Keeps-read f g kept = record { at = λ s h. (kept s h).at s h }

module _ {S A B : Type 0} {P : S → Type 0} where
  -- What follows a check may use what the check found, where it passed.
  pub Keeps-checked :
      (check : Action S A) (next : Action S B) (Passed : Type 0)
      → Keeps P check
      → ((s : S) → P s → returns (check s) ≡ true → Passed)
      → (Passed → Keeps P next)
      → Keeps P (check >> next)
  unfolding ◌>>=◌
  Keeps-checked check next Passed kept passed rest = record {
    at = λ s valid. go (check s).0 (check s).1 (kept.at s valid) (passed s valid);
  }
    where
      go :
          (outcome : Outcome A) (s : S)
          → P s
          → (returns (outcome, s) ≡ true → Passed)
          → P (proceed outcome (λ _. next) s).1
      go (ok a) s valid pass = (rest (pass refl)).at s valid
      go (err e) s valid pass = valid
      go panicked s valid pass = valid

module _ {ℓ} {S T A : Type ℓ} {P : S → Type ℓ} where
  pub Keeps-zoom :
      (read : S → T) (write : T → S → S) (m : Action T A)
      → ((t : T) (s : S) → P s → P (write t s))
      → Keeps P (zoom read write m)
  unfolding zoom
  Keeps-zoom read write m kept = record { at = λ s h. kept (m (read s)).1 s h }

module _ {S A : Type 0} {P : S → Type 0} where
  pub Keeps-for_each :
      (xs : List A) (f : A → Action S Unit) → ((a : A) → Keeps P (f a)) → Keeps P (for_each xs f)
  unfolding for_each
  Keeps-for_each [] f kf = Keeps-pure tt
  Keeps-for_each (x ∷ xs) f kf = Keeps-bind (f x) _ (kf x) (λ _. Keeps-for_each xs f kf)

pub ruleset keeps_rules = (
  Keeps-pure, Keeps-fail, Keeps-or_fail, Keeps-or_panic, Keeps-gets, Keeps-if, Keeps-ensure,
  Keeps-bind, Keeps-for_each,
)
