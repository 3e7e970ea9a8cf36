-- ===== src/Porch/Laws.antt =====
-- Readiness by the owning package variants, and the approval call.
use nephio.Base.{
  String, ◌≡◌, refl, Bool, true, false, not, ◌&&◌, Option, none, some, List, [], ◌∷◌, Result, ok,
  err, ◌==◌, string_eq, if◌then◌else◌, arith, any, ◌||◌,
}
use nephio.Porch.{
  World, PackageRevision, OwnerReference, Condition, is_controller, ready_condition, by_variant,
  owners_ready, package_variant_ready,
}

module _ (w : World) where
  open w use {Fault}

  -- The owner is a controlling package variant.
  abbrev pub is_variant : OwnerReference → Bool
  is_variant o =
      is_controller w o.controller
      && (w.variant_version == o.api_version && o.kind == "PackageVariant")

  -- What the owner's variant says, where the owner is one.
  abbrev pub answer : Result Fault (List Condition) → Result Fault (Option Bool)
  answer (err e) = err e
  answer (ok cs) = ok (ready_condition w cs)

  -- The first variant that cannot be read or has a Ready condition decides.
  abbrev take_answer :
      Result Fault (Option Bool) → Result Fault (Option Bool) → Result Fault (Option Bool)
  take_answer (err e) later = err e
  take_answer (ok none) later = later
  take_answer (ok (some b)) later = ok (some b)

  abbrev pub first_answer : List (Result Fault (Option Bool)) → Result Fault (Option Bool)
  first_answer [] = ok none
  first_answer (a ∷ more) = let later = first_answer more in take_answer a later

  abbrev pub answers : String → List OwnerReference → List (Result Fault (Option Bool))
  answers namespace [] = []
  answers namespace (o ∷ os) =
      let rest = answers namespace os in
      if is_variant o then answer (w.get_variant namespace o.name) ∷ rest else rest

  -- Without a decision, a revision is ready exactly if no variant owns it.
  abbrev pub decided : Bool → Result Fault (Option Bool) → Result Fault Bool
  decided owned (err e) = err e
  decided owned (ok (some b)) = ok b
  decided owned (ok none) = ok (not owned)

  by_variant_lem :
      (r : Result Fault (List Condition)) (owned : Bool) (later : Result Fault (Option Bool))
      → by_variant w r (decided true later) ≡ decided (owned || true) (take_answer (answer r) later)
  unfolding by_variant
  by_variant_lem (err e) owned later = refl
  by_variant_lem (ok cs) owned later = ground arith

  owners_ready_lem :
      (namespace : String) (os : List OwnerReference) (owned : Bool)
      → owners_ready w namespace os owned
        ≡ decided (owned || any is_variant os) (first_answer (answers namespace os))
  unfolding owners_ready
  owners_ready_lem namespace [] owned = ground arith
  owners_ready_lem namespace (o ∷ os) owned = ground (
    arith,
    owners_ready_lem namespace os owned,
    owners_ready_lem namespace os true,
    by_variant_lem (w.get_variant namespace o.name) owned (first_answer (answers namespace os)),
  )

  -- A revision's readiness is decided by the first of the package variants that control it that
  -- cannot be read or has a condition of type Ready; without such a variant it is ready exactly if
  -- no package variant controls it.
  pub package_variant_ready_lem :
      (pr : PackageRevision)
      → package_variant_ready w pr
        ≡ decided
            (any is_variant pr.owner_references)
            (first_answer (answers pr.namespace pr.owner_references))
  unfolding package_variant_ready
  package_variant_ready_lem pr = owners_ready_lem pr.namespace pr.owner_references false
