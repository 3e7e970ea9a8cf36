-- ===== src/Sdk/Safety/Updates.antt =====
-- The changes of sdk_updates.go return, and keep the condition types unique.
use nephio.Base.{
  String, ◌≡◌, refl, Bool, false, Option, List, [], ◌∷◌, Result, ok, err, done, and_then-eq-done,
  done-injective,
}
use nephio.Ref.{ObjectReference, Error}
use nephio.ConditionType.{Condition, ConditionStatus, get_condition_type}
use nephio.Kptfile.{
  get_conditions, set_conditions, set_condition_ref_failed, failed_condition, get_condition,
  set_readiness_gates, delete_condition, delete_type,
}
use nephio.Kptfile.Conditions.{UniqueTypes, get_condition-set_conditions, delete_condition_unique}
use nephio.Kptfile.Gates.{has_readiness_gate-set_readiness_gates}
use nephio.Inventory.{GvkKind, GvkKindCtx, ResourceKind, resource_kind_eq}
use nephio.Inventory.Tree.{Entry, object}
use nephio.Api.{Api}
use nephio.Sdk.{
  Exec, errors_of, kpt_set_conditions, kpt_set_failed, kpt_set_gates, kpt_delete_condition,
  set_in_inventory, delete_in_inventory,
}
use nephio.Sdk.Updates.{
  with_condition, upsert_item, note_result, store_object, set_object_in_resource_list,
  delete_child_object, upsert_child_object, delete_condition_of, set_condition, only_kind,
}
use nephio.Sdk.Safety.Rules.{
  IsReliable, IsTotal, IsTotal-pure, IsTotal-bind, IsTotal-if, IsTotal-then, IsTotal-add_note,
  IsTotal-report,
}

module _ (api : Api) (R : IsReliable api.store) where
  set_conditions-UniqueTypes :
      (f : api.store.File) (ncs : List Condition)
      → UniqueTypes (get_conditions api.store f)
      → UniqueTypes (get_conditions api.store (set_conditions api.store f ncs).0)
  set_conditions-UniqueTypes f ncs u =
      (get_condition-set_conditions api.store R.lawful f ncs
          (unfold set_conditions in R.put_conditions_ok _ _)).1
        u

  -- A deletion from a Kptfile with unique types is a write that succeeds.
  delete_condition-total :
      (f : api.store.File) (ct : String)
      → UniqueTypes (get_conditions api.store f)
      → (w : api.store.File × Option Error) × (delete_condition api.store f ct ≡ done w)
        × UniqueTypes (get_conditions api.store w.0)
  unfolding delete_condition
  delete_condition-total f ct u =
      let (w, e, kept) = delete_condition_unique api.store R.lawful f ct u in
      let (cs, _, e') =
        and_then-eq-done (delete_type ct (get_conditions api.store f))
          (λ ecs. done (api.store.put_conditions f ecs)) e in
      (w, e, (kept (rw (← done-injective e') (R.put_conditions_ok f cs))).1)

  pub IsTotal-kpt_set_conditions : (ncs : List Condition) → IsTotal api (kpt_set_conditions api ncs)
  unfolding kpt_set_conditions
  IsTotal-kpt_set_conditions ncs = record {
    at = λ s u. (_, _, refl, set_conditions-UniqueTypes s.kptfile ncs u);
  }

  pub IsTotal-kpt_set_failed :
      (ref : ObjectReference) (msg : String) → IsTotal api (kpt_set_failed api ref msg)
  unfolding kpt_set_failed set_condition_ref_failed
  IsTotal-kpt_set_failed ref msg = record {
    at = λ s u.
        let ct = get_condition_type api.group_version ref in
        (
          _,
          _,
          refl,
          set_conditions-UniqueTypes s.kptfile
              (failed_condition api.store api.group_version ct msg
                  (get_condition api.store s.kptfile ct)
                ∷ [])
              u,
        );
  }

  pub IsTotal-kpt_set_gates : (cts : List String) → IsTotal api (kpt_set_gates api cts)
  unfolding kpt_set_gates
  IsTotal-kpt_set_gates cts = record {
    at = λ s u. (
      _,
      _,
      refl,
      rw
          ((has_readiness_gate-set_readiness_gates api.store R.lawful s.kptfile cts
            (unfold set_readiness_gates in R.put_gates_ok _ _)).1)
          u,
    );
  }

  pub IsTotal-kpt_delete_condition : (ct : String) → IsTotal api (kpt_delete_condition api ct)
  unfolding kpt_delete_condition
  IsTotal-kpt_delete_condition ct = record {
    at = λ s u.
        let (w, e, v) = delete_condition-total s.kptfile ct u in
        (errors_of api w.1, record s { kptfile = w.0 }, rw e refl, v);
  }

  pub IsTotal-set_in_inventory :
      (kc : GvkKindCtx api.Object) (refs : List ObjectReference) (x : Entry api.Object) (n f : Bool)
      → IsTotal api (set_in_inventory api kc refs x n f)
  unfolding set_in_inventory
  IsTotal-set_in_inventory kc refs x n f = record { at = λ s u. (_, _, refl, u) }

  IsTotal-delete_in_inventory :
      (kc : GvkKindCtx api.Object) (refs : List ObjectReference)
      → IsTotal api (delete_in_inventory api kc refs)
  unfolding delete_in_inventory
  IsTotal-delete_in_inventory kc refs = record { at = λ s u. (_, _, refl, u) }

  IsTotal-upsert_item : (o : api.Object) → IsTotal api (upsert_item api o)
  unfolding upsert_item
  IsTotal-upsert_item o = record { at = λ s u. (_, _, refl, u) }

  IsTotal-note_result : (es : List Error) → IsTotal api (note_result api es)
  unfolding note_result
  IsTotal-note_result [] = IsTotal-pure []
  IsTotal-note_result (e ∷ es) = search (IsTotal-then, IsTotal-add_note, IsTotal-pure)

  IsTotal-store_object :
      (k : GvkKind) (refs : List ObjectReference) (o : api.Object)
      → IsTotal api (store_object api k refs o)
  unfolding store_object
  IsTotal-store_object k refs o = IsTotal-bind _ _ (IsTotal-upsert_item o) (elim [
    | e ∷ es ↦ IsTotal-note_result (e ∷ es)
    | [] ↦
        IsTotal-bind _ _ (IsTotal-set_in_inventory (only_kind api k) refs (object o) false false)
          IsTotal-note_result
  ])

  ruleset rules = (
    IsTotal-pure, IsTotal-bind, IsTotal-then, IsTotal-if, IsTotal-report,
    IsTotal-kpt_set_conditions, IsTotal-kpt_delete_condition, IsTotal-set_in_inventory,
    IsTotal-delete_in_inventory, IsTotal-store_object,
  )

  IsTotal-set_object :
      (k : GvkKind) (refs : List ObjectReference) (o : api.Object)
      → IsTotal api (set_object_in_resource_list api k refs o)
  unfolding set_object_in_resource_list
  IsTotal-set_object k refs o = search (rules)

  IsTotal-with_condition :
      (r : Result Error Condition) (k : Condition → Exec api (List Error))
      → ((c : Condition) → IsTotal api (k c))
      → IsTotal api (with_condition api r k)
  unfolding with_condition
  IsTotal-with_condition (err e) k h = IsTotal-pure _
  IsTotal-with_condition (ok c) k h = h c

  ruleset change_rules = (rules, IsTotal-with_condition, IsTotal-set_object)

  pub IsTotal-delete_child_object :
      (refs : List ObjectReference) (obj : api.Object) (msg : String)
      → IsTotal api (delete_child_object api refs obj msg)
  unfolding delete_child_object
  IsTotal-delete_child_object refs obj msg = search change_rules depth 15

  pub IsTotal-upsert_child_object :
      (k : GvkKind) (refs : List ObjectReference) (obj : api.Object) (own_kind : ResourceKind)
      (ec : Option Condition) (msg : String) (status : ConditionStatus) (always : Bool)
      → IsTotal api (upsert_child_object api k refs obj own_kind ec msg status always)
  unfolding upsert_child_object
  IsTotal-upsert_child_object k refs obj own_kind ec msg status always =
      search change_rules depth 15

  pub IsTotal-delete_condition_of :
      (k : GvkKind) (refs : List ObjectReference) → IsTotal api (delete_condition_of api k refs)
  unfolding delete_condition_of
  IsTotal-delete_condition_of k refs = search change_rules depth 15

  pub IsTotal-set_condition :
      (k : GvkKind) (refs : List ObjectReference) (msg : String) (status : ConditionStatus)
      (failed : Bool)
      → IsTotal api (set_condition api k refs msg status failed)
  unfolding set_condition
  IsTotal-set_condition k refs msg status failed = search change_rules depth 15
