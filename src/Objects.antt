-- ===== src/Objects.antt =====
-- krm-functions/lib/kubeobject/lists.go: the objects of one type among those of a package. The
-- registered group, version and kind of the type and the conversion to it are parameters.
pub mod Laws
use nephio.Base.{
  String, ◌<>◌, Bool, true, false, Option, none, some, List, [], ◌∷◌, Result, ok, err, Outcome,
  done, panic, and_then, Eq, ◌==◌, if◌then◌else◌,
}

pub record Scheme : Type 1 where
  pub Object : Type 0
  pub Gvk : Type 0
  pub Typed : Type 0
  pub Fault : Type 0
  pub gvk_eq : Eq Gvk
  pub group_version_kind : Object → Gvk
  -- `TheScheme.ObjectKinds`, of the type
  pub object_kinds : Result Fault (List Gvk)
  -- `o.As(&x)`
  pub convert : Object → Result Fault Typed
  pub wrong_number : List Typed → Fault

module _ (s : Scheme) where
  open s use {Object, Gvk, Typed, Fault}

  abbrev first_kind : Result Fault (List Gvk) → Outcome Gvk
  first_kind (err e) = panic
  first_kind (ok []) = panic
  first_kind (ok (gvk ∷ more)) = done gvk

  -- `GetGVKOrPanic`
  unfoldable pub get_gvk_or_panic : Outcome Gvk
  get_gvk_or_panic = first_kind s.object_kinds

  abbrev pub Filtered : Type 0
  Filtered = Result Fault (List Typed × List Object)

  abbrev pub with_typed : Typed → Filtered → Filtered
  with_typed x (err e) = err e
  with_typed x (ok (typed, rest)) = ok (x ∷ typed, rest)

  abbrev pub with_rest : Object → Filtered → Filtered
  with_rest o (err e) = err e
  with_rest o (ok (typed, rest)) = ok (typed, o ∷ rest)

  abbrev pub of_kind : Gvk → Object → Bool
  of_kind gvk o = ◌==◌ ⦃e = s.gvk_eq⦄ (s.group_version_kind o) gvk

  -- One round of the loop, from what the rounds behind it give: the first error ends the loop, before
  -- any panic behind it.
  abbrev pub round : Bool → Object → Result Fault Typed → Outcome Filtered → Outcome Filtered
  round false o converted rest = and_then rest (λ f. done (with_rest o f))
  round true o (err e) rest = done (err e)
  round true o (ok x) rest = and_then rest (λ f. done (with_typed x f))

  -- `FilterByType`
  unfoldable pub filter_by_type : List Object → Outcome Filtered
  unfolding get_gvk_or_panic
  filter_by_type [] = done (ok ([], []))
  filter_by_type (o ∷ os) =
      let rest = filter_by_type os in
      and_then get_gvk_or_panic (λ gvk. round (of_kind gvk o) o (s.convert o) rest)

  abbrev pub single : Filtered → Result Fault Typed
  single (err e) = err e
  single (ok (x ∷ [], rest)) = ok x
  single (ok (typed, rest)) = err (s.wrong_number typed)

  -- `GetSingleton`
  unfoldable pub get_singleton : List Object → Outcome (Result Fault Typed)
  unfolding filter_by_type
  get_singleton os = and_then (filter_by_type os) (λ f. done (single f))
