-- ===== src/Origin.antt =====
-- The origin of a call, and the checks `ensure_signed` and `ensure_none` of the system pallet that
-- every call under runtime/src makes first.
use akropolis_os_chain_node.Common.{ℕ, ◌≡◌, refl}
use akropolis_os_chain_node.Common.Action.{Action, pure, fail, ◌>>=◌}
use akropolis_os_chain_node.Common.Keeps.{Keeps, Keeps-pure, Keeps-fail}
use akropolis_os_chain_node.Errors.{bad_origin}

pub data Origin : Type 0 where
  root : Origin
  signed : ℕ → Origin
  unsigned : Origin

unfoldable pub ensure_signed : {S : Type 0} → Origin → Action S ℕ
ensure_signed root = fail bad_origin
ensure_signed (signed who) = pure who
ensure_signed unsigned = fail bad_origin

unfoldable pub ensure_none : {S : Type 0} → Origin → Action S Unit
ensure_none root = fail bad_origin
ensure_none (signed who) = fail bad_origin
ensure_none unsigned = pure tt

module _ {S : Type 0} {P : S → Type 0} where
  pub Keeps-ensure_signed : (o : Origin) → Keeps P (ensure_signed o)
  unfolding ensure_signed
  Keeps-ensure_signed root = Keeps-fail bad_origin
  Keeps-ensure_signed (signed who) = Keeps-pure who
  Keeps-ensure_signed unsigned = Keeps-fail bad_origin

  -- What follows knows who signed.
  pub Keeps-signed :
      {A : Type 0} (o : Origin) (next : ℕ → Action S A)
      → ((who : ℕ) → o ≡ signed who → Keeps P (next who))
      → Keeps P (ensure_signed o >>= next)
  unfolding ensure_signed ◌>>=◌
  Keeps-signed root next kept = record { at = λ s h. h }
  Keeps-signed (signed who) next kept = record { at = λ s h. (kept who refl).at s h }
  Keeps-signed unsigned next kept = record { at = λ s h. h }

  pub Keeps-ensure_none : (o : Origin) → Keeps P (ensure_none o)
  unfolding ensure_none
  Keeps-ensure_none root = Keeps-fail bad_origin
  Keeps-ensure_none (signed who) = Keeps-fail bad_origin
  Keeps-ensure_none unsigned = Keeps-pure tt
