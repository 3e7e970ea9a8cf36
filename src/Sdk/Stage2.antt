-- ===== src/Sdk/Stage2.antt =====
-- krm-functions/lib/condkptsdk/sdk_stage2.go: updating the `for` resources that are ready.
use nephio.Base.{
  String, true, not, ◌||◌, Option, none, some, List, [], ◌∷◌, ◌++◌, Result, ok, err, Outcome, ◌==◌,
  string_eq, if◌then◌else◌, map,
}
use nephio.Base.Dict.{Dict}
use nephio.Ref.{
  ObjectReference, Error, get_gvk_ref_from_gvkn_ref, unexpected_object, unexpected_watch,
}
use nephio.ConditionType.{Condition, condition_true}
use nephio.Inventory.{GvkKind, for, own, ResourceKind, GvkKindCtx, Config}
use nephio.Inventory.Gvk.{is_gvk_match}
use nephio.Inventory.Ready.{ReadyCtx, get_ready_map}
use nephio.Api.{Api, ref_of}
use nephio.Sdk.{Exec, error_e, ◌>>=◌, ◌>>◌, pure, call, add_note, get_state}
use nephio.Sdk.Updates.{upsert_child_object, delete_obj_from_resource_list}
use nephio.Sdk.Populate.{specializer_owner}
use nephio.Sdk.Stage1.{for_each, fail_for}

module _ (api : Api) where
  open api use {Object}

  -- `newObj.SetAnnotation(SpecializerOwner, reason)` on every object, up to the first error.
  unfoldable pub annotate_all : String → List Object → Result Error (List Object)
  annotate_all reason [] = ok []
  annotate_all reason (o ∷ os) =
      let rest = annotate_all reason os in
      let (o', e) = api.set_annotation o specializer_owner reason in
      elim e [ some e' ↦ err e' | none ↦ elim rest [ ok os' ↦ ok (o' ∷ os') | err e' ↦ err e' ] ]

  abbrev reason_of : Option Condition → String
  reason_of none = ""
  reason_of (some c) = c.reason

  module _ (cfg : Config Object) where
    -- The end of `handleUpdateResource`.
    unfoldable pub return_annotated :
        Result Error (List Object) → Exec api (Result Error (List Object))
    return_annotated (ok annotated) = pure (ok annotated)
    return_annotated (err e) = do add_note api (error_e (e ∷ [])); pure (err e)

    -- `handleUpdateResource`, given what the update function returns.
    unfoldable pub handle_update_resource :
        Option Condition → Result Error (List Object) → Exec api (Result Error (List Object))
    unfolding annotate_all return_annotated
    handle_update_resource for_condition (err e) = pure (err e)
    handle_update_resource for_condition (ok []) = pure (ok [])
    handle_update_resource for_condition (ok (o ∷ os)) =
        if reason_of for_condition == ""
        then pure (ok (o ∷ os))
        else return_annotated (annotate_all (reason_of for_condition) (o ∷ os))

    unfoldable pub drop_errors : Exec api (List Error) → Exec api (Unit {0})
    drop_errors m = do e ← m; pure tt

    -- The `switch` on the role of an object that the update function returns. Errors are only logged.
    unfoldable pub put_updated :
        ObjectReference → Option Condition → Object → GvkKind → Exec api (Unit {0})
    unfolding upsert_child_object
    put_updated for_ref for_condition o for = drop_errors (
        upsert_child_object api for (for_ref ∷ []) o ResourceKind.unset for_condition "update done"
          condition_true true)
    put_updated for_ref for_condition o own = drop_errors (
        upsert_child_object api own (for_ref ∷ ref_of api o ∷ []) o ResourceKind.unset for_condition
          "update done" condition_true true)
    put_updated for_ref for_condition o _ =
        add_note api (error_e (unexpected_watch (ref_of api o) ∷ []))

    unfoldable pub place_updated :
        Option (GvkKindCtx Object)
        → ObjectReference
        → Option Condition
        → Object
        → Exec api (Unit {0})
    unfolding put_updated
    place_updated none for_ref for_condition o =
        add_note api (error_e (unexpected_object (ref_of api o) ∷ []))
    place_updated (some kc) for_ref for_condition o =
        put_updated for_ref for_condition o kc.gvk_kind

    -- The body of the loop over those objects.
    unfoldable pub take_updated : ObjectReference → Option Condition → Object → Exec api (Unit {0})
    unfolding place_updated is_gvk_match get_gvk_ref_from_gvkn_ref
    take_updated for_ref for_condition o = do
      s ← get_state api
      place_updated
          (is_gvk_match s.inv.gvk_resources (some (get_gvk_ref_from_gvkn_ref (ref_of api o))))
          for_ref for_condition o

    unfoldable pub take_result :
        ObjectReference → Option Condition → Result Error (List Object) → Exec api (Unit {0})
    unfolding take_updated for_each
    take_result for_ref for_condition (err e) = fail_for api for_ref (api.error_text e)
    take_result for_ref for_condition (ok new_objs) =
        for_each api (take_updated for_ref for_condition) new_objs

    -- The call of the update function, if there is one.
    unfoldable pub call_update :
        Option (Option Object → List Object → Outcome (Result Error (List Object)))
        → ObjectReference
        → ReadyCtx Object
        → Exec api (Unit {0})
    unfolding handle_update_resource take_result
    call_update none for_ref r = pure tt
    call_update (some fn) for_ref r = do
      made ← call (fn r.for_obj (map (λ p. p.1) r.owns ++ map (λ p. p.1) r.watches))
      res ← handle_update_resource r.for_condition made
      take_result for_ref r.for_condition res

    -- The body of the loop of `updateResources` where the inventory is ready.
    unfoldable pub update_ready : ObjectReference × ReadyCtx Object → Exec api (Unit {0})
    unfolding call_update
    update_ready (for_ref, r) =
        if not r.ready || r.failed then pure tt else call_update cfg.update_resource_fn for_ref r

    -- `len(r.cfg.Owns) == 0`, where a `for` object is there.
    unfoldable pub drop_obj :
        Dict ObjectReference ResourceKind → Option Object → Exec api (Unit {0})
    unfolding delete_obj_from_resource_list
    drop_obj owns none = pure tt
    drop_obj [] (some o) = delete_obj_from_resource_list api o
    drop_obj (entry ∷ owns) (some o) = pure tt

    -- The body of the loop where it is not.
    unfoldable pub drop_for : ObjectReference × ReadyCtx Object → Exec api (Unit {0})
    unfolding drop_obj
    drop_for (for_ref, r) = drop_obj cfg.owns r.for_obj

    -- `updateResources`
    unfoldable pub update_resources : Exec api (Unit {0})
    unfolding update_ready drop_for for_each get_ready_map
    update_resources = do
      s ← get_state api
      if s.inv.ready
          then for_each api update_ready (get_ready_map api.group_version s.inv)
          else for_each api drop_for (get_ready_map api.group_version s.inv)
