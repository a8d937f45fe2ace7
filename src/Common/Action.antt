-- ===== src/Common/Action.antt =====
-- A call of the runtime: it reads and writes storage, and returns, fails with an error or panics.
-- Storage comes back beside an error too, since what a failed call wrote before it failed stays.
use mathlib.Core.Bool.{Bool, true, false}
use mathlib.Core.Option.{Option, none, some}
use mathlib.Core.List.{List, [], ◌∷◌}
use akropolis_os_chain_node.Errors.{Error}

pub data Outcome {ℓ} (A : Type ℓ) : Type ℓ where
  ok : A → Outcome A
  err : Error → Outcome A
  panicked : Outcome A

abbrev pub Action {ℓ} : Type ℓ → Type ℓ → Type ℓ
Action S A = S → Outcome A × S

module _ {ℓ} {S A : Type ℓ} where
  unfoldable pub pure : A → Action S A
  pure a s = (ok a, s)

  -- `Err(e)?` and `fail!`
  unfoldable pub fail : Error → Action S A
  fail e s = (err e, s)

  -- `option.ok_or(e)?`
  unfoldable pub or_fail : Option A → Error → Action S A
  or_fail none e s = (err e, s)
  or_fail (some a) e s = (ok a, s)

  -- `option.expect(..)`
  unfoldable pub or_panic : Option A → Action S A
  or_panic none s = (panicked, s)
  or_panic (some a) s = (ok a, s)

  unfoldable pub gets : (S → A) → Action S A
  gets f s = (ok (f s), s)

module _ {S : Type 0} where
  -- `ensure!(test, e)`
  unfoldable pub ensure : Bool → Error → Action S Unit
  ensure true e s = (ok tt, s)
  ensure false e s = (err e, s)

  unfoldable pub modify : (S → S) → Action S Unit
  modify f s = (ok tt, f s)

module _ {ℓ} {S A B : Type ℓ} where
  abbrev pub proceed : Outcome A → (A → Action S B) → Action S B
  proceed (ok a) f s = f a s
  proceed (err e) f s = (err e, s)
  proceed panicked f s = (panicked, s)

  infixl 10 ◌>>=◌ ◌>>◌
  -- Opening this opens the actions above too.
  unfoldable pub ◌>>=◌ : Action S A → (A → Action S B) → Action S B
  unfolding pure fail or_fail or_panic gets ensure modify
  ◌>>=◌ m f s = let (r, s') = m s in proceed r f s'

  abbrev pub ◌>>◌ : Action S A → Action S B → Action S B
  m >> n = m >>= λ _. n

module _ {ℓ} {S A : Type ℓ} where
  -- `result.map_err(|_| e)`
  unfoldable pub map_err : Error → Action S A → Action S A
  map_err e m s =
      let (r, t) = m s in
      elim r [ ok a ↦ (ok a, t) | err _ ↦ (err e, t) | panicked ↦ (panicked, t) ]

  -- What another component returned, as an action that changes nothing.
  unfoldable pub returned : Outcome A → Action S A
  returned o s = (o, s)

-- An action on a part of the state.
module _ {ℓ} {S T A : Type ℓ} where
  unfoldable pub zoom : (S → T) → (T → S → S) → Action T A → Action S A
  zoom read write m s = let (r, t) = m (read s) in (r, write t s)

abbrev pub returns {ℓ} : {S A : Type ℓ} → Outcome A × S → Bool
returns (ok _, _) = true
returns (err _, _) = false
returns (panicked, _) = false

-- `items.iter().for_each(f)`
module _ {S A : Type 0} where
  unfoldable pub for_each : List A → (A → Action S Unit) → Action S Unit
  unfolding ◌>>=◌
  for_each [] f = pure tt
  for_each (x ∷ xs) f = f x >> for_each xs f
