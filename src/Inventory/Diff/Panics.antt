-- ===== src/Inventory/Diff/Panics.antt =====
-- When a diff dereferences the missing condition of a `for` resource.
use nephio.Base.{
  ◌≡◌, refl, Bool, true, false, not, ◌&&◌, Option, none, some, [], ◌∷◌, Outcome, done, panic,
  Outcome-cases, inl, inr, is_some, any, ok, err, ◌==◌, arith,
}
use nephio.Base.Dict.{Dict, insert}
use nephio.Ref.{ObjectReference, ref_eq, empty_ref}
use nephio.ConditionType.{Condition}
use nephio.Inventory.{for, own, resource_kind_eq, remote_condition, ResourceCtx, Inventory}
use nephio.Inventory.Tree.{inv_get}
use nephio.Api.{Api, get_spec}
use nephio.Inventory.Diff.{
  InventoryDiff, empty_diff, diff_resource, diff_child, diff_children, diff_for, diff_fors, diff,
  specializer_delete,
}

abbrev pub is_panic {ℓ} : {A : Type ℓ} → Outcome A → Bool
is_panic (done a) = false
is_panic panic = true

module _ (api : Api) where
  open api use {Object}

  abbrev readable : Object → Bool
  readable o = elim (get_spec api o) [ ok s ↦ true | err e ↦ false ]

  -- A child that is not made elsewhere, with an existing and a new object whose specs can be read,
  -- and the delete annotation on the existing one.
  abbrev pub dangling : ObjectReference × ResourceCtx Object → Bool
  dangling (ref, c) = elim c.existing_resource [
    | none ↦ false
    | some o ↦ elim c.new_resource [
      | none ↦ false
      | some n ↦
          not (c.kind_ctx.own_kind == remote_condition)
          && readable o
          && readable n
          && is_some (api.annotation o specializer_delete)
    ]
  ]

  is_panic-diff_child :
      (ready : Bool) (fc : Option Condition) (entry : ObjectReference × ResourceCtx Object)
      (d : InventoryDiff Object)
      → is_panic (diff_child api ready fc entry d) ≡ (not (is_some fc) && dangling entry)
  unfolding diff_child diff_resource
  is_panic-diff_child ready fc (ref, c) d = ground arith

  is_panic-diff_children :
      (ready : Bool) (fc : Option Condition) (owns : Dict ObjectReference (ResourceCtx Object))
      (d : InventoryDiff Object)
      → is_panic (diff_children api ready fc owns d) ≡ (not (is_some fc) && any dangling owns)
  unfolding diff_children
  is_panic-diff_children ready fc [] d = ground arith
  is_panic-diff_children ready fc (entry ∷ owns) d =
      elim (Outcome-cases (diff_child api ready fc entry d)) [
        | inl (d₁, e) ↦ rw e (
            ground (
              arith,
              is_panic-diff_child ready fc entry d,
              is_panic-diff_children ready fc owns d₁,
            ))
        | inr e ↦ rw e (ground (arith, is_panic-diff_child ready fc entry d))
      ]

  -- A `for` resource that is there, without a condition, above a dangling child.
  abbrev pub for_dangling : Inventory Object → ObjectReference × ResourceCtx Object → Bool
  for_dangling inv (for_ref, c) =
      is_some c.existing_resource
      && (not (is_some c.existing_condition)
          && any dangling (inv_get own (for_ref ∷ empty_ref ∷ []) inv))

  is_panic-diff_for :
      (inv : Inventory Object) (entry : ObjectReference × ResourceCtx Object)
      → is_panic (diff_for api inv entry) ≡ for_dangling inv entry
  unfolding diff_for
  is_panic-diff_for inv (for_ref, c) =
      let owns = inv_get own (for_ref ∷ empty_ref ∷ []) inv in
      ground (arith, is_panic-diff_children inv.ready c.existing_condition owns empty_diff)

  is_panic-diff_fors :
      (inv : Inventory Object) (fors : Dict ObjectReference (ResourceCtx Object))
      (m : Dict ObjectReference (InventoryDiff Object))
      → is_panic (diff_fors api inv fors m) ≡ any (for_dangling inv) fors
  unfolding diff_fors
  is_panic-diff_fors inv [] m = refl
  is_panic-diff_fors inv ((for_ref, c) ∷ fors) m =
      elim (Outcome-cases (diff_for api inv (for_ref, c))) [
        | inl (d, e) ↦ rw e (
            ground (
              arith,
              is_panic-diff_for inv (for_ref, c),
              is_panic-diff_fors inv fors (insert for_ref d m),
            ))
        | inr e ↦ rw e (ground (arith, is_panic-diff_for inv (for_ref, c)))
      ]

  -- The diff panics exactly when some `for` resource is there without a condition, and some child
  -- of it, not made elsewhere, has an existing object with the delete annotation and a new one, and
  -- both specs can be read.
  pub is_panic-diff :
      (inv : Inventory Object)
      → is_panic (diff api inv) ≡ any (for_dangling inv) (inv_get for (empty_ref ∷ []) inv)
  unfolding diff
  is_panic-diff inv = is_panic-diff_fors inv (inv_get for (empty_ref ∷ []) inv) []
