-- ===== src/Sdk/Stage1.antt =====
-- krm-functions/lib/condkptsdk: stage 1 (sdk_stage1_populate_children.go and
-- sdk_stage1_update_children.go).
use nephio.Base.{
  String, ◌<>◌, Bool, true, false, Option, none, some, List, [], ◌∷◌, Result, ok, err, Outcome,
  and_then, ◌==◌, if◌then◌else◌, map,
}
use nephio.Base.Dict.{Dict, lookup}
use nephio.Ref.{ObjectReference, Error, ref_eq, empty_ref, get_refs_string}
use nephio.ConditionType.{ConditionStatus, condition_true, condition_false, get_condition_type}
use nephio.Inventory.{
  for, own, ResourceKind, resource_kind_eq, local, initial, ResourceCtx, GvkKindCtx, Config,
}
use nephio.Inventory.Tree.{object, inv_get}
use nephio.Inventory.Gvk.{is_gvk_match}
use nephio.Inventory.Diff.{DiffCondition, DiffObject, InventoryDiff, empty_diff, diff}
use nephio.Api.{Api, ref_of}
use nephio.Sdk.{Exec, ◌>>=◌, ◌>>◌, pure, call, get_state, report, kpt_set_failed, set_in_inventory}
use nephio.Sdk.Updates.{
  delete_child_object, upsert_child_object, delete_condition_of, set_condition,
}
use nephio.Sdk.Populate.{specializer_owner}

-- `sort.Slice` by a strict order on references: insertion sort.
module _ {ℓ} {A : Type ℓ} (less : ObjectReference → ObjectReference → Bool)
    (key : A → ObjectReference) where
  unfoldable pub insert_sorted : A → List A → List A
  insert_sorted x [] = x ∷ []
  insert_sorted x (y ∷ ys) = if less (key y) (key x) then y ∷ insert_sorted x ys else x ∷ y ∷ ys

  unfoldable pub sort : List A → List A
  unfolding insert_sorted
  sort [] = []
  sort (x ∷ xs) = insert_sorted x (sort xs)

module _ (api : Api) where
  open api use {Object}

  -- A loop whose body changes the state.
  unfoldable pub for_each {ℓ} :
      {A : Type ℓ} → (A → Exec api (Unit {0})) → List A → Exec api (Unit {0})
  for_each body [] = pure tt
  for_each body (x ∷ xs) = let rest = for_each body xs in body x >> rest

  -- What is done with the error of a change. The code joins it to `e` into a variable that shadows
  -- nothing outside, so `e` stays nil: the joined errors go to the results alone.
  unfoldable pub discard : Exec api (List Error) → Exec api (Unit {0})
  discard m = do e ← m; report api e

  -- `r.kptfile.SetConditionRefFailed(forRef, msg)`, with its own error in the results.
  unfoldable pub fail_for : ObjectReference → String → Exec api (Unit {0})
  fail_for ref msg = do e ← kpt_set_failed api ref msg; report api e

  module _ (cfg : Config Object) where
    -- The error of `inv.set` in the condition of the `for` resource.
    unfoldable pub report_set : ObjectReference → List Error → Exec api (Unit {0})
    unfolding get_refs_string
    report_set for_ref [] = pure tt
    report_set for_ref (e ∷ es) = fail_for for_ref (
        "stage1: cannot set new resource to the inventory objRef: "
        <> get_refs_string (for_ref ∷ [])
        <> ", err: "
        <> api.error_text e
        <> "\n")

    -- Put the object with its owner annotation, or the error of annotating it.
    unfoldable pub put_child :
        GvkKindCtx Object
        → ObjectReference
        → ObjectReference
        → Object × Option Error
        → Exec api (Unit {0})
    unfolding get_refs_string report_set
    put_child kc for_ref obj_ref (annotated, some e) = fail_for for_ref (
        "stage1: cannot set new annotation objRef: "
        <> get_refs_string (for_ref ∷ [])
        <> ", err: "
        <> api.error_text e)
    put_child kc for_ref obj_ref (annotated, none) = do
      e ← set_in_inventory api kc (for_ref ∷ obj_ref ∷ []) (object annotated) true false
      report_set for_ref e

    -- By the role of the new object's kind.
    unfoldable pub place_child :
        Option (GvkKindCtx Object) → ObjectReference → Object → Exec api (Unit {0})
    unfolding get_refs_string put_child
    place_child none for_ref new_obj = fail_for for_ref (
        "stage1: cannot find new resource in gvkmap: objRef: "
        <> get_refs_string (for_ref ∷ ref_of api new_obj ∷ []))
    place_child (some kc) for_ref new_obj = put_child kc for_ref (ref_of api new_obj) (
        api.set_annotation new_obj specializer_owner (get_condition_type api.group_version for_ref))

    -- The body of the loop over the new objects of one `for` resource.
    unfoldable pub add_child : ObjectReference → Object → Exec api (Unit {0})
    unfolding is_gvk_match place_child
    add_child for_ref new_obj = do
      s ← get_state api
      place_child (is_gvk_match s.inv.gvk_resources (some (ref_of api new_obj))) for_ref new_obj

    -- By the result of the function that makes the children.
    unfoldable pub take_children :
        ObjectReference → Result Error (List Object) → Exec api (Unit {0})
    unfolding add_child for_each set_condition
    take_children for_ref (ok new_objs) = for_each (add_child for_ref) new_objs
    take_children for_ref (err e) = do
      e' ←
          set_condition api for (for_ref ∷ [])
            ("stage1: cannot populate new resource err: " <> api.error_text e) condition_false true
      report api e'

    -- By the function and the `for` object being there.
    unfoldable pub make_children :
        Option (Object → Outcome (Result Error (List Object)))
        → Option Object
        → ObjectReference
        → Exec api (Unit {0})
    unfolding take_children
    make_children none for_obj for_ref = pure tt
    make_children (some fn) none for_ref = pure tt
    make_children (some fn) (some for_obj) for_ref = do
      made ← call (fn for_obj)
      take_children for_ref made

    -- The body of the loop of `populateChildren`.
    unfoldable pub populate_for : ObjectReference × ResourceCtx Object → Exec api (Unit {0})
    unfolding make_children
    populate_for (for_ref, c) =
        make_children cfg.populate_own_resources_fn c.existing_resource for_ref

    -- `populateChildren`
    unfoldable pub populate_children : Exec api (Unit {0})
    unfolding populate_for for_each inv_get
    populate_children = do
      s ← get_state api
      for_each populate_for (inv_get for (empty_ref ∷ []) s.inv)

  -- The body of the loop of `updateChildren` where the inventory is not ready.
  unfoldable pub clean_for : ObjectReference × InventoryDiff Object → Exec api (Unit {0})
  unfolding for_each delete_condition_of delete_child_object
  clean_for (for_ref, d) = do
    if d.delete_for_condition then discard (delete_condition_of api for (for_ref ∷ [])) else pure tt
    for_each (λ x. discard (delete_child_object api (for_ref ∷ x.ref ∷ []) x.obj "not ready"))
        d.delete_objs

  abbrev created_status : ResourceKind → ConditionStatus
  created_status k = if k == local then condition_true else condition_false

  abbrev created_message : ResourceKind → String
  created_message k =
      if k == initial
      then "create initial resource condition"
      else if k == local
      then "child local resource -> done"
      else "create condition"

  unfoldable pub create_condition : ObjectReference → DiffCondition → Exec api (Unit {0})
  create_condition for_ref x = discard (
      set_condition api own (for_ref ∷ x.ref ∷ []) (created_message x.own_kind)
        (created_status x.own_kind) false)

  unfoldable pub delete_condition : ObjectReference → DiffCondition → Exec api (Unit {0})
  delete_condition for_ref x = discard (delete_condition_of api own (for_ref ∷ x.ref ∷ []))

  unfoldable pub create_object : ObjectReference → DiffObject Object → Exec api (Unit {0})
  create_object for_ref x = discard (
      upsert_child_object api own (for_ref ∷ x.ref ∷ []) x.obj x.own_kind none
        "create initial resource" (created_status x.own_kind) false)

  unfoldable pub update_object : ObjectReference → DiffObject Object → Exec api (Unit {0})
  update_object for_ref x = discard (
      upsert_child_object api own (for_ref ∷ x.ref ∷ []) x.obj x.own_kind none "update resource"
        condition_false false)

  unfoldable pub delete_object : ObjectReference → DiffObject Object → Exec api (Unit {0})
  delete_object for_ref x =
      discard (delete_child_object api (for_ref ∷ x.ref ∷ []) x.obj "delete resource")

  -- The body of the loop of `updateChildren` where the inventory is ready.
  unfoldable pub update_for : ObjectReference × InventoryDiff Object → Exec api (Unit {0})
  unfolding for_each set_condition delete_condition_of upsert_child_object delete_child_object sort
  update_for (for_ref, d) = do
    if d.update_for_condition
        then discard
            (set_condition api for (for_ref ∷ []) "update for condition" condition_false false)
        else pure tt
    for_each (create_condition for_ref) (sort api.ref_less (λ x. x.ref) d.create_conditions)
    for_each (delete_condition for_ref) d.delete_conditions
    for_each (create_object for_ref) (sort api.ref_less (λ x. x.ref) d.create_objs)
    for_each (update_object for_ref) (sort api.ref_less (λ x. x.ref) d.update_objs)
    for_each (delete_object for_ref) d.delete_objs
    for_each (update_object for_ref) d.update_delete_annotations

  abbrev or_empty : Option (InventoryDiff Object) → InventoryDiff Object
  or_empty none = empty_diff
  or_empty (some d) = d

  -- `diffMapKeysInDeterministicOrder`
  unfoldable pub sorted_keys : Dict ObjectReference (InventoryDiff Object) → List ObjectReference
  unfolding sort
  sorted_keys m = sort api.ref_less (λ r. r) (map (λ p. p.0) m)

  unfoldable pub apply_diff :
      Bool → Dict ObjectReference (InventoryDiff Object) → Exec api (Unit {0})
  unfolding clean_for update_for for_each sorted_keys
  apply_diff false diff_map = for_each clean_for diff_map
  apply_diff true diff_map =
      for_each (λ r. update_for (r, or_empty (lookup r diff_map))) (sorted_keys diff_map)

  -- `updateChildren`
  unfoldable pub update_children : Exec api (Unit {0})
  unfolding diff apply_diff
  update_children s = and_then (diff api s.inv) (λ diff_map. apply_diff s.inv.ready diff_map s)
