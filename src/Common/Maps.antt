-- ===== src/Common/Maps.antt =====
-- Storage maps as functions from keys: `insert` and `remove` change one key. A map whose presence
-- of keys is tested holds options, any other holds its values, the default where nothing is stored.
use Prim.Native.Nat.{ℕ}
use mathlib.Core.Bool.{◌&&◌}
use mathlib.Core.List.{List}
use akropolis_os_chain_node.Common.Lists.{bytes_eq}
use akropolis_os_chain_node.Common.Tests.{◌==◌, if◌then◌else◌}

module _ {ℓ} {V : Type ℓ} where
  abbrev pub update : (ℕ → V) → ℕ → V → ℕ → V
  update m k v j = if k == j then v else m j

  -- maps with a pair or a triple for a key
  abbrev pub update₂ : (ℕ → ℕ → V) → ℕ → ℕ → V → ℕ → ℕ → V
  update₂ m k l v i j = if k == i && l == j then v else m i j

  abbrev pub update₃ : (ℕ → ℕ → ℕ → V) → ℕ → ℕ → ℕ → V → ℕ → ℕ → ℕ → V
  update₃ m k l n v i j h = if k == i && (l == j && n == h) then v else m i j h

  -- maps with a byte string for a key
  abbrev pub update_bytes : (List ℕ → V) → List ℕ → V → List ℕ → V
  update_bytes m k v j = if bytes_eq k j then v else m j
