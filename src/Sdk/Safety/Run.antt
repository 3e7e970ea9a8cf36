-- ===== src/Sdk/Safety/Run.antt =====
-- The run of a function behind the population of the inventory returns.
use nephio.Base.{
  ◌≡◌, refl, Option, none, some, List, [], ◌∷◌, Result, ok, err, Outcome, done, ◌≢◌, Outcome-cases,
  inl, inr, ap, done-injective, panic,
}
use nephio.Base.Dict.{Dict}
use nephio.Ref.{ObjectReference, Error}
use nephio.ConditionType.{Condition}
use nephio.Inventory.{GvkKind, for, own, watch, unset, ResourceKind, GvkKindCtx, Config}
use nephio.Inventory.Diff.{diff}
use nephio.Inventory.Diff.Panics.{is_panic}
use nephio.Inventory.Ready.{ReadyCtx}
use nephio.Api.{Api}
use nephio.Sdk.{State, ◌>>◌}
use nephio.Sdk.Stage1.{update_children}
use nephio.Sdk.Stage2.{
  return_annotated, handle_update_resource, put_updated, place_updated, take_updated, take_result,
  call_update, update_ready, drop_obj, drop_for, update_resources,
}
use nephio.Sdk.Run.{set_readiness, prepare, stages}
use nephio.Sdk.Safety.Rules.{
  IsReliable, IsUnique, IsTotal, IsTotal-pure, IsTotal-bind, IsTotal-if, IsTotal-then,
  IsTotal-add_note, IsTotal-for_each, IsTotal-get_state,
}
use nephio.Sdk.Safety.Callbacks.{UpdateReturns, Returning, watches, IsTotal-call}
use nephio.Sdk.Safety.Updates.{IsTotal-upsert_child_object}
use nephio.Sdk.Safety.Stages.{
  IsTotal-drop_errors, IsTotal-fail_for, IsTotal-set_and_report, prepare-returns,
  IsTotal-update_children,
}

module _ (api : Api) (R : IsReliable api.store) (cfg : Config api.Object) where
  IsTotal-put_updated :
      (r : ObjectReference) (c : Option Condition) (o : api.Object) (k : GvkKind)
      → IsTotal api (put_updated api cfg r c o k)
  unfolding put_updated
  IsTotal-put_updated r c o for = search (IsTotal-drop_errors, IsTotal-upsert_child_object)
  IsTotal-put_updated r c o own = search (IsTotal-drop_errors, IsTotal-upsert_child_object)
  IsTotal-put_updated r c o watch = IsTotal-add_note api _
  IsTotal-put_updated r c o unset = IsTotal-add_note api _

  IsTotal-place_updated :
      (k : Option (GvkKindCtx api.Object)) (r : ObjectReference) (c : Option Condition)
      (o : api.Object)
      → IsTotal api (place_updated api cfg k r c o)
  unfolding place_updated
  IsTotal-place_updated none r c o = IsTotal-add_note api _
  IsTotal-place_updated (some kc) r c o = IsTotal-put_updated r c o kc.gvk_kind

  IsTotal-take_result :
      (r : ObjectReference) (c : Option Condition) (w : Result Error (List api.Object))
      → IsTotal api (take_result api cfg r c w)
  unfolding take_result take_updated
  IsTotal-take_result r c (err e) = IsTotal-fail_for api R _ _
  IsTotal-take_result r c (ok os) =
      IsTotal-for_each api _ _
        (λ o. IsTotal-bind _ _ (IsTotal-get_state api) (λ s. IsTotal-place_updated _ _ _ _))

  IsTotal-return_annotated :
      (w : Result Error (List api.Object)) → IsTotal api (return_annotated api cfg w)
  unfolding return_annotated
  IsTotal-return_annotated (ok os) = IsTotal-pure _
  IsTotal-return_annotated (err e) = IsTotal-then _ _ (IsTotal-add_note api _) (IsTotal-pure _)

  IsTotal-handle_update_resource :
      (c : Option Condition) (w : Result Error (List api.Object))
      → IsTotal api (handle_update_resource api cfg c w)
  unfolding handle_update_resource
  IsTotal-handle_update_resource c (err e) = IsTotal-pure _
  IsTotal-handle_update_resource c (ok []) = IsTotal-pure _
  IsTotal-handle_update_resource c (ok (o ∷ os)) =
      IsTotal-if _ _ _ (IsTotal-pure _) (IsTotal-return_annotated _)

  IsTotal-call_update :
      (f : Option (Option api.Object → List api.Object → Outcome (Result Error (List api.Object))))
      (r : ObjectReference) (c : ReadyCtx api.Object)
      → UpdateReturns f
      → IsTotal api (call_update api cfg f r c)
  unfolding call_update
  IsTotal-call_update none r c h = IsTotal-pure tt
  IsTotal-call_update (some fn) r c h = IsTotal-bind _ _ (IsTotal-call _ (h c.for_obj _)) (λ made.
      IsTotal-bind _ _ (IsTotal-handle_update_resource c.for_condition made)
        (λ w. IsTotal-take_result r c.for_condition w))

  IsTotal-update_ready :
      Returning cfg
      → (x : ObjectReference × ReadyCtx api.Object) → IsTotal api (update_ready api cfg x)
  unfolding update_ready
  IsTotal-update_ready returning (r, c) =
      IsTotal-if _ _ _ (IsTotal-pure tt)
        (IsTotal-call_update cfg.update_resource_fn r c returning.updates)

  IsTotal-drop_obj :
      (owns : Dict ObjectReference ResourceKind) (o : Option api.Object)
      → owns ≢ []
      → IsTotal api (drop_obj api cfg owns o)
  unfolding drop_obj
  IsTotal-drop_obj owns none h = IsTotal-pure tt
  IsTotal-drop_obj [] (some o) h = absurd (h refl)
  IsTotal-drop_obj (entry ∷ owns) (some o) h = IsTotal-pure tt

  IsTotal-update_resources : cfg.owns ≢ [] → Returning cfg → IsTotal api (update_resources api cfg)
  unfolding update_resources drop_for
  IsTotal-update_resources h returning = IsTotal-bind _ _ (IsTotal-get_state api) (λ s.
      IsTotal-if _ _ _ (IsTotal-for_each api _ _ (IsTotal-update_ready returning))
        (IsTotal-for_each api _ _ (λ x. IsTotal-drop_obj cfg.owns _ h)))

  IsTotal-set_readiness : IsTotal api (set_readiness api cfg)
  unfolding set_readiness
  IsTotal-set_readiness =
      IsTotal-bind _ _ (IsTotal-get_state api)
        (λ s. IsTotal-if _ _ _ (IsTotal-set_and_report api R cfg _) (IsTotal-pure tt))

  panic≢done : {A : Type 0} {a : A} → panic ≢ done a
  panic≢done h = cc

  -- For a function with owned kinds whose own functions to make children and to update resources
  -- return, a reliable Kptfile without duplicate types, and an inventory on which the calls of the
  -- watches return: `Run` gets to the diff of the inventory, behind it panics exactly where that
  -- diff panics, and otherwise leaves a Kptfile without duplicate types.
  pub is_panic-stages :
      cfg.owns ≢ []
      → Returning cfg
      → (s : State api) → IsUnique api s
      → (result : Option Error) → watches api cfg s ≡ done result
      → (p : State api) × (prepare api cfg s ≡ done (tt, p))
        × (is_panic (stages api cfg s) ≡ is_panic (diff api p.inv))
        × ((t : State api) → stages api cfg s ≡ done (tt, t) → IsUnique api t)
  unfolding stages ◌>>◌ update_children
  is_panic-stages h returning s u result watched =
      let (p, e, v) = prepare-returns api R cfg returning s u result watched in
      elim (Outcome-cases (diff api p.inv)) [
        | inl (m, e') ↦
            let (q, e₂, v₂) = IsTotal-update_children api R p v (rw e' refl) in
            let (_, t, e₃, v₃) =
              (IsTotal-then _ _ (IsTotal-update_resources h returning) IsTotal-set_readiness).at q
                v₂ in
            (
              p,
              e,
              rw (e, e₂, e₃, e') refl,
              λ t' h'. rw (← ap (λ w. w.1) (done-injective (rw (e, e₂, e₃) at h'))) v₃,
            )
        | inr e' ↦ (p, e, rw (e, e') refl, λ t' h'. absurd (panic≢done (rw (e, e') at h')))
      ]
