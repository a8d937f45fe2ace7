-- ===== src/Common/Holds.antt =====
-- What an action returns, if it does: the rules of the actions for a predicate of their result.
use mathlib.Core.Path.{◌≡◌, refl}
use mathlib.Core.Option.{Option, none, some}
use akropolis_os_chain_node.Common.Action.{Outcome, ok, err, panicked, or_panic, or_fail, proceed}
use akropolis_os_chain_node.Errors.{Error}

-- What holds of an action: `P` of what it returns and leaves, or `Fail` if it does not return.
abbrev pub Holds : {A S : Type 0} → Type 0 → (A → S → Type 0) → Outcome A × S → Type 0
Holds Fail P (ok a, s) = P a s
Holds Fail P (err _, s) = Fail
Holds Fail P (panicked, s) = Fail

pub Holds-bind :
    {A B S : Type 0} (Fail : Type 0) (P : A → S → Type 0) (Q : B → S → Type 0) (r : Outcome A × S)
    (next : A → S → Outcome B × S)
    → Holds Fail P r
    → ((a : A) (s : S) → P a s → Holds Fail Q (next a s))
    → Holds Fail Q (proceed r.0 next r.1)
Holds-bind Fail P Q (ok a, s) next h k = k a s h
Holds-bind Fail P Q (err e, s) next h k = h
Holds-bind Fail P Q (panicked, s) next h k = h

pub Holds-map :
    {A S : Type 0} (Fail : Type 0) (P Q : A → S → Type 0) (r : Outcome A × S)
    → ((a : A) (s : S) → P a s → Q a s)
    → Holds Fail P r
    → Holds Fail Q r
Holds-map Fail P Q (ok a, s) f h = f a s h
Holds-map Fail P Q (err e, s) f h = h
Holds-map Fail P Q (panicked, s) f h = h

pub or_panic-Holds :
    {A S : Type 0} (Fail : Type 0) (P : A → S → Type 0) (o : Option A) (s : S)
    → (o ≡ none → Fail)
    → ((a : A) → P a s)
    → Holds Fail P (or_panic o s)
unfolding or_panic
or_panic-Holds Fail P none s failed k = failed refl
or_panic-Holds Fail P (some a) s failed k = k a

pub or_fail-Holds :
    {A S : Type 0} (Fail : Type 0) (P : A → S → Type 0) (o : Option A) (e : Error) (s : S)
    → (o ≡ none → Fail)
    → ((a : A) → o ≡ some a → P a s)
    → Holds Fail P (or_fail o e s)
unfolding or_fail
or_fail-Holds Fail P none e s failed k = failed refl
or_fail-Holds Fail P (some a) e s failed k = k a refl

-- What cannot fail returns.
pub Holds-ok :
    {A S : Type 0} (P : A → S → Type 0) (r : Outcome A × S)
    → Holds ⊥ P r
    → (a : A) × (s : S) × (r ≡ (ok a, s)) × P a s
Holds-ok P (ok a, s) h = (a, s, refl, h)
Holds-ok P (err e, s) h = elim h [ ]
Holds-ok P (panicked, s) h = elim h [ ]

pub or_panic-Holds-some :
    {A S : Type 0} (Fail : Type 0) (P : A → S → Type 0) (o : Option A) (s : S)
    → (o ≡ none → Fail)
    → ((a : A) → o ≡ some a → P a s)
    → Holds Fail P (or_panic o s)
unfolding or_panic
or_panic-Holds-some Fail P none s failed k = failed refl
or_panic-Holds-some Fail P (some a) s failed k = k a refl

pub Holds-both :
    {A S : Type 0} (Fail : Type 0) (P Q : A → S → Type 0) (r : Outcome A × S)
    → Holds Fail P r
    → Holds Fail Q r
    → Holds Fail (λ a s. P a s × Q a s) r
Holds-both Fail P Q (ok a, s) h k = (h, k)
Holds-both Fail P Q (err e, s) h k = h
Holds-both Fail P Q (panicked, s) h k = h
