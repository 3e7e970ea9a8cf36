-- ===== src/Base/Dict.antt =====
-- Go's maps, as association lists in the order in which `range` visits them: every theorem is
-- stated for any such list, so for any order of iteration.
use mathlib.Core.Path.{◌≡◌, refl}
use mathlib.Core.Option.{Option, none, some}
use mathlib.Core.List.{List, [], ◌∷◌}
use native.Mathlib.Omega.{arith}
use nephio.Base.Equality.{Eq, ◌==◌, if◌then◌else◌}

abbrev pub Dict {ℓ κ} : Type ℓ → Type κ → Type (ℓ ⊔ κ)
Dict K V = List (K × V)

module _ {ℓ κ} {K : Type ℓ} {V : Type κ} ⦃e : Eq K⦄ where
  -- `v, ok := m[k]`
  unfoldable pub lookup : K → Dict K V → Option V
  lookup key [] = none
  lookup key ((key', value) ∷ rest) = if key' == key then some value else lookup key rest

  -- `m[k] = v`
  unfoldable pub insert : K → V → Dict K V → Dict K V
  insert key value [] = (key, value) ∷ []
  insert key value ((key', old) ∷ rest) =
      if key' == key then (key', value) ∷ rest else (key', old) ∷ insert key value rest

  pub lookup-insert :
      (j k : K) (v : V) (m : Dict K V)
      → lookup j (insert k v m) ≡ (if k == j then some v else lookup j m)
  unfolding lookup insert
  lookup-insert j k v [] = refl
  lookup-insert j k v ((key', old) ∷ m) = ground (arith, lookup-insert j k v m)
