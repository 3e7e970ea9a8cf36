-- ===== src/Sdk/Updates.antt =====
-- krm-functions/lib/condkptsdk/sdk_updates.go: the changes of one condition or object in the
-- Kptfile, the resource list and the inventory.
use nephio.Base.{
  String, Bool, true, false, ◌&&◌, ◌||◌, Option, none, some, List, [], ◌∷◌, ◌++◌, Result, ok, err,
  done, and_then, ◌==◌, string_eq, if◌then◌else◌, range_delete,
}
use nephio.Ref.{ObjectReference, Error, is_refs_valid, invalid_refs}
use nephio.ConditionType.{Condition, ConditionStatus, condition_false, get_condition_by_ref}
use nephio.Inventory.{
  GvkKind, own, GvkKindCtx, ResourceKind, resource_kind_eq, remote, local, zero_kind_ctx,
}
use nephio.Inventory.Tree.{condition, object}
use nephio.Inventory.Diff.{specializer_delete}
use nephio.Api.{Api}
use nephio.Sdk.{
  Exec, error_result, ◌>>=◌, ◌>>◌, pure, add_note, errors_of, report, kpt_set_conditions,
  kpt_delete_condition, set_in_inventory, delete_in_inventory,
}

module _ (api : Api) where
  open api use {Object}

  -- `&gvkKindCtx{gvkKind: kind}`
  abbrev pub only_kind : GvkKind → GvkKindCtx Object
  only_kind k = record zero_kind_ctx { gvk_kind = k }

  unfoldable pub upsert_item : Object → Exec api (List Error)
  upsert_item o s =
      let (items, e) = api.upsert s.items o in done (errors_of api e, record s { items = items })

  -- `fn.ErrorResult`, for the error that the caller then returns.
  unfoldable pub note_result : List Error → Exec api (List Error)
  note_result [] = pure []
  note_result (e ∷ es) = do add_note api (error_result e); pure (e ∷ es)

  -- Both branches of `setObjectInResourceList`: put the object into the resource list and, unless
  -- that fails, into the inventory.
  unfoldable pub store_object : GvkKind → List ObjectReference → Object → Exec api (List Error)
  store_object k refs o = do
    e ← upsert_item o
    elim e [
      | e₁ ∷ es ↦ note_result (e₁ ∷ es)
      | [] ↦ do e' ← set_in_inventory api (only_kind k) refs (object o) false false; note_result e'
    ]

  -- `setObjectInResourceList`; valid references are one or two, and are passed on as they are.
  unfoldable pub set_object_in_resource_list :
      GvkKind → List ObjectReference → Object → Exec api (List Error)
  unfolding is_refs_valid store_object
  set_object_in_resource_list k refs o =
      if is_refs_valid refs then store_object k refs o else pure (invalid_refs refs ∷ [])

  -- `if err != nil { return err }` behind `GetConditionByRef`.
  unfoldable pub with_condition :
      Result Error Condition → (Condition → Exec api (List Error)) → Exec api (List Error)
  with_condition (err e) k = pure (e ∷ [])
  with_condition (ok c) k = k c

  -- `deleteChildObject`
  unfoldable pub delete_child_object :
      List ObjectReference → Object → String → Exec api (List Error)
  unfolding with_condition get_condition_by_ref set_object_in_resource_list
  delete_child_object refs obj msg =
      with_condition (get_condition_by_ref api.group_version refs msg condition_false) λ c. do
        e₁ ← kpt_set_conditions api (c ∷ [])
        report api e₁
        let annotated = api.set_annotation obj specializer_delete "true"
        report api (errors_of api annotated.1)
        e₃ ← set_object_in_resource_list own refs annotated.0
        report api e₃
        pure (e₁ ++ errors_of api annotated.1 ++ e₃)

  abbrev pub with_existing : Option Condition → String → ConditionStatus → Condition → Condition
  with_existing none msg status c = c
  with_existing (some ec) msg status c = record ec { message = msg; status = status }

  -- `upsertChildObject`
  unfoldable pub upsert_child_object :
      GvkKind
      → List ObjectReference
      → Object
      → ResourceKind
      → Option Condition
      → String
      → ConditionStatus
      → Bool
      → Exec api (List Error)
  unfolding with_condition get_condition_by_ref set_object_in_resource_list
  upsert_child_object k refs obj own_kind ec msg status always_update =
      with_condition (get_condition_by_ref api.group_version refs msg status) λ c. do
        e₁ ← kpt_set_conditions api (with_existing ec msg status c ∷ [])
        report api e₁
        if always_update
            then (do e₂ ← set_object_in_resource_list k refs obj; report api e₂; pure (e₁ ++ e₂))
            else if own_kind == remote || own_kind == local
            then (do e₂ ← set_object_in_resource_list own refs obj; report api e₂; pure (e₁ ++ e₂))
            else pure e₁

  -- `deleteCondition`
  unfoldable pub delete_condition_of : GvkKind → List ObjectReference → Exec api (List Error)
  unfolding with_condition get_condition_by_ref
  delete_condition_of k refs =
      with_condition (get_condition_by_ref api.group_version refs "" condition_false) λ c. do
        e₁ ← kpt_delete_condition api c.type
        report api e₁
        e₂ ← delete_in_inventory api (only_kind k) refs
        report api e₂
        pure (e₁ ++ e₂)

  -- `setCondition`
  unfoldable pub set_condition :
      GvkKind → List ObjectReference → String → ConditionStatus → Bool → Exec api (List Error)
  unfolding with_condition get_condition_by_ref
  set_condition k refs msg status failed =
      with_condition (get_condition_by_ref api.group_version refs msg status) λ c. do
        e₁ ← kpt_set_conditions api (c ∷ [])
        report api e₁
        e₂ ← set_in_inventory api (only_kind k) refs (condition c) false failed
        report api e₂
        pure (e₁ ++ e₂)

  -- `IsGVKNNEqual` (ref.go)
  unfoldable pub is_gvknn_equal : Object → Object → Bool
  is_gvknn_equal o p =
      if api.api_version o == api.api_version p
        && api.kind o == api.kind p
        && api.name o == api.name p
      then true
      else false

  -- `deleteObjFromResourceList`
  unfoldable pub delete_obj_from_resource_list : Object → Exec api (Unit {0})
  unfolding is_gvknn_equal
  delete_obj_from_resource_list obj s =
      and_then (range_delete (λ o. is_gvknn_equal o obj) s.items)
        (λ items. done (tt, record s { items = items }))
