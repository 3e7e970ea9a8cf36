-- ===== src/Inventory/Diff.antt =====
-- krm-functions/lib/condkptsdk/inventory_diff.go: what has to change, from what is there and what
-- would be made afresh.
pub mod Content
pub mod Panics
use nephio.Base.{
  String, Bool, true, false, not, ◌&&◌, ◌||◌, Option, none, some, List, [], ◌∷◌, ◌++◌, Result, ok,
  err, Outcome, done, panic, and_then, is_some, ◌==◌, if◌then◌else◌,
}
use nephio.Base.Dict.{Dict, insert}
use nephio.Ref.{ObjectReference, ref_eq, empty_ref}
use nephio.ConditionType.{Condition}
use nephio.Kptfile.{is_false}
use nephio.Inventory.{
  for, own, ResourceKind, resource_kind_eq, initial, local, remote_condition, ResourceCtx,
  Inventory,
}
use nephio.Inventory.Tree.{inv_get}
use nephio.Api.{Api, get_spec}

-- The entries of the condition lists of an `inventoryDiff`: an `object` of which no one reads `obj`.
pub record DiffCondition : Type 0 where
  pub ref : ObjectReference
  pub own_kind : ResourceKind

-- The entries of its object lists.
pub record DiffObject (O : Type 0) : Type 0 where
  pub ref : ObjectReference
  pub obj : O
  pub own_kind : ResourceKind

-- `inventoryDiff`
pub record InventoryDiff (O : Type 0) : Type 0 where
  pub delete_for_condition : Bool
  pub update_for_condition : Bool
  pub delete_objs : List (DiffObject O)
  pub update_objs : List (DiffObject O)
  pub create_objs : List (DiffObject O)
  pub delete_conditions : List DiffCondition
  pub create_conditions : List DiffCondition
  pub update_delete_annotations : List (DiffObject O)

abbrev pub empty_diff : {O : Type 0} → InventoryDiff O
empty_diff = record {
  delete_for_condition = false;
  update_for_condition = false;
  delete_objs = [];
  update_objs = [];
  create_objs = [];
  delete_conditions = [];
  create_conditions = [];
  update_delete_annotations = [];
}

abbrev pub specializer_delete : String
specializer_delete = "specializer.nephio.org/delete"

-- `existingCondition == nil || existingCondition.Status != ConditionFalse`
abbrev pub not_false : Option Condition → Bool
not_false none = true
not_false (some c) = not (is_false c.status)

-- A kind of child that stays where no new resource stands for it.
abbrev pub stays : ResourceKind → Bool
stays k = k == initial || k == local

module _ {O : Type 0} where
  -- `updateForCondition = true` if the condition of the `for` resource is not false.
  abbrev pub mark : Option Condition → InventoryDiff O → InventoryDiff O
  mark for_condition d = record d {
    update_for_condition = not_false for_condition || d.update_for_condition;
  }

  -- The body of the loop over the children of a `for` resource that is gone.
  unfoldable pub cleanup_child : ObjectReference × ResourceCtx O → InventoryDiff O → InventoryDiff O
  cleanup_child (ref, c) d =
      let kind = c.kind_ctx.own_kind in
      let d₁ = record d { delete_for_condition = true } in
      let d₂ =
        if is_some c.existing_condition
        then record d₁ {
          delete_conditions = d₁.delete_conditions ++ record { ref = ref; own_kind = kind } ∷ [];
        }
        else d₁ in
      elim c.existing_resource [
        | none ↦ d₂
        | some o ↦ if kind == initial then d₂ else record d₂ {
          delete_objs = d₂.delete_objs ++ record { ref = ref; obj = o; own_kind = kind } ∷ [];
        }
      ]

  unfoldable pub cleanup_children :
      Dict ObjectReference (ResourceCtx O) → InventoryDiff O → InventoryDiff O
  cleanup_children [] d = d
  cleanup_children (entry ∷ owns) d = cleanup_children owns (cleanup_child entry d)

  -- The first `switch`: the new resource and the existing condition.
  unfoldable pub diff_condition :
      Bool
      → Option Condition
      → DiffCondition
      → Option O
      → Option Condition
      → InventoryDiff O
      → InventoryDiff O
  diff_condition ready for_condition x none none d =
      let d' = mark for_condition d in
      if ready then record d' { create_conditions = d'.create_conditions ++ x ∷ [] } else d'
  diff_condition ready for_condition x none (some c) d =
      let d' = mark for_condition d in
      if stays x.own_kind
      then d'
      else record d' { delete_conditions = d'.delete_conditions ++ x ∷ [] }
  diff_condition ready for_condition x (some n) none d =
      let d' = mark for_condition d in
      record d' { create_conditions = d'.create_conditions ++ x ∷ [] }
  diff_condition ready for_condition x (some n) (some c) d = d

module _ (api : Api) where
  open api use {Object}

  -- The end of the second `switch`: the delete annotation. The status of the `for` resource's
  -- condition is read through a pointer that may be nil.
  unfoldable pub diff_annotation :
      Option Condition
      → DiffObject Object
      → Option String
      → InventoryDiff Object
      → Outcome (InventoryDiff Object)
  diff_annotation for_condition x none d = done d
  diff_annotation none x (some a) d = panic
  diff_annotation (some c) x (some a) d = done (record d {
    update_for_condition = not (is_false c.status) || d.update_for_condition;
    update_delete_annotations = d.update_delete_annotations ++ x ∷ [];
  })

  -- The second `switch`: the existing and the new resource.
  unfoldable pub diff_resource :
      Option Condition
      → DiffCondition
      → Option Object
      → Option Object
      → InventoryDiff Object
      → Outcome (InventoryDiff Object)
  unfolding get_spec diff_annotation
  diff_resource for_condition x none none d = done d
  diff_resource for_condition x none (some n) d =
      let d' = mark for_condition d in
      done (record d' {
        create_objs = d'.create_objs ++ record { ref = x.ref; obj = n; own_kind = x.own_kind } ∷ [];
      })
  diff_resource for_condition x (some o) none d =
      let d' = mark for_condition d in
      done (
        if stays x.own_kind then d' else record d' {
          delete_objs =
              d'.delete_objs ++ record { ref = x.ref; obj = o; own_kind = x.own_kind } ∷ [];
        })
  diff_resource for_condition x (some o) (some n) d =
      if x.own_kind == remote_condition then done d else elim (get_spec api o) [
        | err e ↦ done d
        | ok existing_spec ↦ elim (get_spec api n) [
          | err e ↦ done d
          | ok new_spec ↦
              let new : DiffObject Object = record {
                ref = x.ref;
                obj = n;
                own_kind = x.own_kind;
              } in
              let d' = mark for_condition d in
              diff_annotation for_condition new (api.annotation o specializer_delete) (
                if api.same_spec existing_spec new_spec
                then d
                else record d' { update_objs = d'.update_objs ++ new ∷ [] })
        ]
      ]

  -- The body of the loop over the children of a `for` resource that is there.
  unfoldable pub diff_child :
      Bool
      → Option Condition
      → ObjectReference × ResourceCtx Object
      → InventoryDiff Object
      → Outcome (InventoryDiff Object)
  diff_child ready for_condition (ref, c) d =
      let x : DiffCondition = record { ref = ref; own_kind = c.kind_ctx.own_kind } in
      diff_resource for_condition x c.existing_resource c.new_resource
        (diff_condition ready for_condition x c.new_resource c.existing_condition d)

  unfoldable pub diff_children :
      Bool
      → Option Condition
      → Dict ObjectReference (ResourceCtx Object)
      → InventoryDiff Object
      → Outcome (InventoryDiff Object)
  diff_children ready for_condition [] d = done d
  diff_children ready for_condition (entry ∷ owns) d =
      and_then (diff_child ready for_condition entry d) (diff_children ready for_condition owns)

  unfoldable pub diff_for :
      Inventory Object → ObjectReference × ResourceCtx Object → Outcome (InventoryDiff Object)
  diff_for inv (for_ref, c) =
      let owns = inv_get own (for_ref ∷ empty_ref ∷ []) inv in
      if is_some c.existing_resource
      then diff_children inv.ready c.existing_condition owns empty_diff
      else done (cleanup_children owns empty_diff)

  unfoldable pub diff_fors :
      Inventory Object
      → Dict ObjectReference (ResourceCtx Object)
      → Dict ObjectReference (InventoryDiff Object)
      → Outcome (Dict ObjectReference (InventoryDiff Object))
  diff_fors inv [] diff_map = done diff_map
  diff_fors inv ((for_ref, c) ∷ fors) diff_map =
      and_then (diff_for inv (for_ref, c)) (λ d. diff_fors inv fors (insert for_ref d diff_map))

  -- `diff`
  unfoldable pub diff : Inventory Object → Outcome (Dict ObjectReference (InventoryDiff Object))
  diff inv = diff_fors inv (inv_get for (empty_ref ∷ []) inv) []
