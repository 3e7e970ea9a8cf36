-- ===== src/Sdk/Safety/Stages.antt =====
-- The stages of the SDK's run return where no two conditions of the Kptfile have one type.
use nephio.Base.{
  String, ◌≡◌, Bool, true, false, Option, none, some, List, [], ◌∷◌, Result, ok, err, Outcome, done,
  panic, if◌then◌else◌, ◌&&◌, Outcome-cases, arith, inl, inr, refl,
}
use nephio.Base.Dict.{Dict}
use nephio.Ref.{ObjectReference, Error}
use nephio.ConditionType.{Condition}
use nephio.Inventory.{GvkKindCtx, ResourceCtx, Config}
use nephio.Inventory.Diff.{InventoryDiff, diff}
use nephio.Inventory.Diff.Panics.{is_panic}
use nephio.Api.{Api}
use nephio.Sdk.{State, Exec, ◌>>=◌, ◌>>◌, pure, call, get_state}
use nephio.Sdk.Stage1.{
  discard, fail_for, report_set, put_child, place_child, add_child, take_children, make_children,
  populate_for, populate_children, clean_for, create_condition, delete_condition, create_object,
  update_object, delete_object, update_for, apply_diff, update_children,
}
use nephio.Sdk.Stage2.{drop_errors}
use nephio.Sdk.Run.{
  fail_for_conditions, block_on, set_not_ready, set_and_report, call_global_watches, prepare,
  has_owns,
}
use nephio.Sdk.Safety.Rules.{
  IsReliable, IsUnique, IsTotal, IsTotal-pure, IsTotal-bind, IsTotal-if, IsTotal-then,
  IsTotal-add_note, IsTotal-report, IsTotal-for_each, IsTotal-get_state,
}
use nephio.Sdk.Safety.Callbacks.{PopulateReturns, Returning, watches, IsTotal-call}
use nephio.Sdk.Safety.Updates.{
  IsTotal-kpt_set_conditions, IsTotal-kpt_set_failed, IsTotal-set_in_inventory,
  IsTotal-delete_child_object, IsTotal-upsert_child_object, IsTotal-delete_condition_of,
  IsTotal-set_condition,
}

module _ (api : Api) (R : IsReliable api.store) where
  IsTotal-discard : (m : Exec api (List Error)) → IsTotal api m → IsTotal api (discard api m)
  unfolding discard
  IsTotal-discard m h = IsTotal-bind _ _ h (λ e. IsTotal-report api e)

  pub IsTotal-drop_errors :
      (cfg : Config api.Object) (m : Exec api (List Error))
      → IsTotal api m
      → IsTotal api (drop_errors api cfg m)
  unfolding drop_errors
  IsTotal-drop_errors cfg m h = IsTotal-bind _ _ h (λ e. IsTotal-pure tt)

  pub IsTotal-fail_for : (ref : ObjectReference) (msg : String) → IsTotal api (fail_for api ref msg)
  unfolding fail_for
  IsTotal-fail_for ref msg =
      IsTotal-bind _ _ (IsTotal-kpt_set_failed api R ref msg) (λ e. IsTotal-report api e)

  ruleset rules = (
    IsTotal-pure, IsTotal-bind, IsTotal-then, IsTotal-if, IsTotal-report, IsTotal-for_each,
    IsTotal-get_state, IsTotal-add_note, IsTotal-discard, IsTotal-drop_errors, IsTotal-fail_for,
    IsTotal-kpt_set_conditions, IsTotal-set_in_inventory, IsTotal-delete_child_object,
    IsTotal-upsert_child_object, IsTotal-delete_condition_of, IsTotal-set_condition,
  )

  IsTotal-clean_for :
      (x : ObjectReference × InventoryDiff api.Object) → IsTotal api (clean_for api x)
  unfolding clean_for
  IsTotal-clean_for x = search rules depth 15

  IsTotal-update_for :
      (x : ObjectReference × InventoryDiff api.Object) → IsTotal api (update_for api x)
  unfolding update_for create_condition delete_condition create_object update_object delete_object
  IsTotal-update_for x = search rules depth 15

  IsTotal-apply_diff :
      (ready : Bool) (m : Dict ObjectReference (InventoryDiff api.Object))
      → IsTotal api (apply_diff api ready m)
  unfolding apply_diff
  IsTotal-apply_diff false m = IsTotal-for_each api _ _ IsTotal-clean_for
  IsTotal-apply_diff true m = IsTotal-for_each api _ _ (λ r. search (IsTotal-update_for))

  -- The update of the children returns where the diff does not dereference a missing condition.
  pub IsTotal-update_children :
      (s : State api)
      → IsUnique api s
      → is_panic (diff api s.inv) ≡ false
      → (t : State api) × (update_children api s ≡ done (tt, t)) × IsUnique api t
  unfolding update_children
  IsTotal-update_children s u h = elim (Outcome-cases (diff api s.inv)) [
    | inl (m, e) ↦
        let (a, t, e', v) = (IsTotal-apply_diff s.inv.ready m).at s u in (t, rw (e, e') refl, v)
    | inr e ↦ ground arith
  ]

  module _ (cfg : Config api.Object) where
    IsTotal-put_child :
        (kc : GvkKindCtx api.Object) (r q : ObjectReference) (w : api.Object × Option Error)
        → IsTotal api (put_child api cfg kc r q w)
    unfolding put_child report_set
    IsTotal-put_child kc r q (o, some e) = IsTotal-fail_for _ _
    IsTotal-put_child kc r q (o, none) =
        IsTotal-bind _ _ (IsTotal-set_in_inventory api R _ _ _ _ _)
          (elim [ [] ↦ IsTotal-pure tt | e ∷ es ↦ IsTotal-fail_for _ _ ])

    IsTotal-place_child :
        (k : Option (GvkKindCtx api.Object)) (r : ObjectReference) (o : api.Object)
        → IsTotal api (place_child api cfg k r o)
    unfolding place_child
    IsTotal-place_child none r o = IsTotal-fail_for _ _
    IsTotal-place_child (some kc) r o = IsTotal-put_child _ _ _ _

    IsTotal-take_children :
        (r : ObjectReference) (w : Result Error (List api.Object))
        → IsTotal api (take_children api cfg r w)
    unfolding take_children add_child
    IsTotal-take_children r (ok os) =
        IsTotal-for_each api _ _
          (λ o. IsTotal-bind _ _ (IsTotal-get_state api) (λ s. IsTotal-place_child _ _ _))
    IsTotal-take_children r (err e) = search rules depth 15

    IsTotal-make_children :
        (f : Option (api.Object → Outcome (Result Error (List api.Object)))) (o : Option api.Object)
        (r : ObjectReference)
        → PopulateReturns f
        → IsTotal api (make_children api cfg f o r)
    unfolding make_children
    IsTotal-make_children none o r h = IsTotal-pure tt
    IsTotal-make_children (some fn) none r h = IsTotal-pure tt
    IsTotal-make_children (some fn) (some o) r h =
        IsTotal-bind _ _ (IsTotal-call (fn o) (h o)) (λ made. IsTotal-take_children r made)

    IsTotal-populate_for :
        Returning cfg
        → (x : ObjectReference × ResourceCtx api.Object) → IsTotal api (populate_for api cfg x)
    unfolding populate_for
    IsTotal-populate_for h (r, c) = IsTotal-make_children _ _ _ h.populates

    IsTotal-populate_children : Returning cfg → IsTotal api (populate_children api cfg)
    unfolding populate_children
    IsTotal-populate_children h =
        IsTotal-bind _ _ (IsTotal-get_state api)
          (λ s. IsTotal-for_each api _ _ (IsTotal-populate_for h))

    pub IsTotal-fail_for_conditions : (msg : String) → IsTotal api (fail_for_conditions api cfg msg)
    unfolding fail_for_conditions
    IsTotal-fail_for_conditions msg = search rules depth 15

    pub IsTotal-set_and_report : (c : Condition) → IsTotal api (set_and_report api c)
    unfolding set_and_report
    IsTotal-set_and_report c = search rules depth 15

    IsTotal-set_not_ready : IsTotal api (set_not_ready api cfg)
    unfolding set_not_ready
    IsTotal-set_not_ready = record { at = λ s u. (tt, _, refl, u) }

    IsTotal-block_on : (e : Option Error) → IsTotal api (block_on api cfg e)
    unfolding block_on
    IsTotal-block_on none = IsTotal-pure tt
    IsTotal-block_on (some e) =
        IsTotal-then _ _ IsTotal-set_not_ready
          (IsTotal-if _ _ _ (IsTotal-set_and_report _) (IsTotal-fail_for_conditions _))

    IsTotal-populate_if :
        Returning cfg
        → IsTotal api (do
          s ← get_state api
          if s.inv.ready && has_owns api cfg then populate_children api cfg else pure tt)
    IsTotal-populate_if h =
        IsTotal-bind _ _ (IsTotal-get_state api)
          (λ s. IsTotal-if _ _ _ (IsTotal-populate_children h) (IsTotal-pure tt))

    -- Where the watches return.
    pub prepare-returns :
        Returning cfg
        → (s : State api) → IsUnique api s
        → (e : Option Error) → watches api cfg s ≡ done e
        → (p : State api) × (prepare api cfg s ≡ done (tt, p)) × IsUnique api p
    unfolding prepare call_global_watches call get_state ◌>>=◌ ◌>>◌
    prepare-returns h s u e w =
        let (_, t, blocked, v) = (IsTotal-block_on e).at s u in
        let (_, p, populated, v') = (IsTotal-populate_if h).at t v in
        (p, rw (w, blocked) populated, v')

    pub prepare-panics : (s : State api) → watches api cfg s ≡ panic → prepare api cfg s ≡ panic
    unfolding prepare call_global_watches call get_state ◌>>=◌ ◌>>◌
    prepare-panics s w = rw w refl
