-- ===== src/Sdk/Safety/Populate.antt =====
-- The population of the inventory returns, so that the whole run of a function panics at most in
-- the diff.
use nephio.Base.{
  ◌⊎◌, inl, inr, sym, arith, Outcome-cases, ◌≡◌, ◌≢◌, refl, ◌∙◌, true, false, Option, none, some,
  List, [], ◌∷◌, done, panic, if◌then◌else◌,
}
use nephio.Ref.{ObjectReference, Error}
use nephio.ConditionType.{Condition}
use nephio.Inventory.{GvkKindCtx, Config}
use nephio.Inventory.Tree.{Entry}
use nephio.Inventory.Diff.{diff}
use nephio.Inventory.Diff.Panics.{is_panic}
use nephio.Api.{Api}
use nephio.Sdk.{State, Exec, pure, ◌>>=◌, ◌>>◌}
use nephio.Sdk.Populate.{
  Owners, put_entry, unless_failed, populate, populate_conditions, populate_items,
  populate_inventory,
}
use nephio.Sdk.Run.{
  ensure_condition, ensure_conditions_and_gates, stages_unless, populate_and_run, run_unless,
  run_with_kptfile, run, stages, prepare,
}
use nephio.Sdk.Safety.Rules.{
  IsReliable, IsUnique, IsTotal, IsTotal-pure, IsTotal-bind, IsTotal-if, IsTotal-then,
  IsTotal-add_note, IsTotal-get_state,
}
use nephio.Sdk.Safety.Callbacks.{Returning, watches}
use nephio.Sdk.Safety.Updates.{IsTotal-set_in_inventory, IsTotal-kpt_set_gates}
use nephio.Sdk.Safety.Stages.{IsTotal-fail_for_conditions, IsTotal-set_and_report}
use nephio.Sdk.Safety.Run.{is_panic-stages}

module _ (api : Api) (R : IsReliable api.store) (cfg : Config api.Object) where
  IsTotal-put_entry :
      (x : Entry api.Object) (d : Option (GvkKindCtx api.Object × List ObjectReference))
      → IsTotal api (put_entry api cfg x d)
  unfolding put_entry
  IsTotal-put_entry x none = IsTotal-pure []
  IsTotal-put_entry x (some (kc, refs)) = IsTotal-set_in_inventory api R kc refs x false false

  IsTotal-unless_failed :
      (e : List Error) (m : Exec api (List Error))
      → IsTotal api m
      → IsTotal api (unless_failed api cfg e m)
  unfolding unless_failed
  IsTotal-unless_failed [] m h = h
  IsTotal-unless_failed (e ∷ es) m h = IsTotal-pure _

  IsTotal-populate :
      (owners : Owners) (r q : ObjectReference) (x : Entry api.Object)
      → IsTotal api (populate api cfg owners r q x)
  unfolding populate
  IsTotal-populate owners r q x =
      IsTotal-bind _ _ (IsTotal-get_state api) (λ s. IsTotal-put_entry _ _)

  IsTotal-populate_conditions :
      (owners : Owners) (cs : List Condition) → IsTotal api (populate_conditions api cfg owners cs)
  unfolding populate_conditions
  IsTotal-populate_conditions owners [] = IsTotal-pure []
  IsTotal-populate_conditions owners (c ∷ cs) =
      IsTotal-bind _ _ (IsTotal-populate owners _ _ _)
        (λ e. IsTotal-unless_failed e _ (IsTotal-populate_conditions owners cs))

  IsTotal-populate_items :
      (owners : Owners) (os : List api.Object) → IsTotal api (populate_items api cfg owners os)
  unfolding populate_items
  IsTotal-populate_items owners [] = IsTotal-pure []
  IsTotal-populate_items owners (o ∷ os) =
      IsTotal-bind _ _ (IsTotal-populate owners _ _ _)
        (λ e. IsTotal-unless_failed e _ (IsTotal-populate_items owners os))

  IsTotal-populate_inventory : IsTotal api (populate_inventory api cfg)
  unfolding populate_inventory
  IsTotal-populate_inventory = IsTotal-bind _ _ (IsTotal-get_state api) (λ s.
      IsTotal-bind _ _ (IsTotal-populate_conditions _ _)
        (λ e. IsTotal-unless_failed e _ (IsTotal-populate_items _ _)))

  IsTotal-ensure_condition : (e : List Error) → IsTotal api (ensure_condition api cfg e)
  unfolding ensure_condition
  IsTotal-ensure_condition (e ∷ es) = IsTotal-pure _
  IsTotal-ensure_condition [] = IsTotal-bind _ _ (IsTotal-get_state api) (λ s.
      IsTotal-then _ _ (IsTotal-if _ _ _ (IsTotal-pure tt) (IsTotal-set_and_report api R cfg _))
        (IsTotal-pure []))

  IsTotal-ensure_conditions_and_gates : IsTotal api (ensure_conditions_and_gates api cfg)
  unfolding ensure_conditions_and_gates
  IsTotal-ensure_conditions_and_gates =
      IsTotal-bind _ _ (IsTotal-kpt_set_gates api R _) IsTotal-ensure_condition

  IsTotal-returns :
      {A : Type 0} (m : Exec api A)
      → IsTotal api m
      → (s : State api) → IsUnique api s
      → is_panic (m s) ≡ false
  IsTotal-returns m h s u = let (a, t, e, v) = h.at s u in rw e refl

  abbrev pub begin : Exec api (List Error)
  begin = if cfg.root then ensure_conditions_and_gates api cfg else pure []

  IsTotal-begin : IsTotal api begin
  IsTotal-begin = IsTotal-if cfg.root _ _ IsTotal-ensure_conditions_and_gates (IsTotal-pure [])

  -- The states that a run goes through on its way to a diff that panics.
  abbrev pub PanicsInDiff : State api → Type 0
  PanicsInDiff s =
      (q t p : State api) × (begin s ≡ done ([], q))
      × (populate_inventory api cfg q ≡ done ([], t))
      × (prepare api cfg t ≡ done (tt, p))
      × (is_panic (diff api p.inv) ≡ true)

  -- The states that a run goes through on its way to a watch that panics.
  abbrev pub PanicsInWatch : State api → Type 0
  PanicsInWatch s =
      (q t : State api) × (begin s ≡ done ([], q))
      × (populate_inventory api cfg q ≡ done ([], t))
      × (watches api cfg t ≡ panic)

  panics-stages_unless :
      cfg.owns ≢ []
      → Returning cfg
      → (es : List Error) (t : State api) → IsUnique api t
      → (is_panic (stages_unless api cfg es t) ≡ false)
        ⊎ ((es ≡ []) × (watches api cfg t ≡ panic))
        ⊎ ((es ≡ [])
            × (p : State api) × (prepare api cfg t ≡ done (tt, p))
            × (is_panic (diff api p.inv) ≡ true))
  unfolding stages_unless
  panics-stages_unless h returning (e ∷ es) t u =
      inl (IsTotal-returns _ (IsTotal-fail_for_conditions api R cfg _) t u)
  panics-stages_unless h returning [] t u = elim (Outcome-cases (watches api cfg t)) [
    | inr panics ↦ inr (inl (refl, panics))
    | inl (result, watched) ↦
        let (p, e, same, _) = is_panic-stages api R cfg h returning t u result watched in
        elim (Outcome-cases (stages api cfg t)) [
          | inl (a, done') ↦ inl (rw done' refl)
          | inr panics ↦ inr (inr (refl, p, e, sym same ∙ rw panics refl))
        ]
  ]

  is_panic-populate_and_run :
      (q t : State api) (es : List Error)
      → populate_inventory api cfg q ≡ done (es, t)
      → is_panic (populate_and_run api cfg q) ≡ is_panic (stages_unless api cfg es t)
  unfolding populate_and_run pure ◌>>=◌ ◌>>◌
  is_panic-populate_and_run q t es h = rw h (ground arith)

  is_panic-run :
      (s q : State api) (es : List Error)
      → begin s ≡ done (es, q)
      → is_panic (run api cfg s) ≡ is_panic (run_unless api cfg es q)
  unfolding run run_with_kptfile ◌>>=◌
  is_panic-run s q es h = rw h (ground arith)

  panics-run_unless :
      cfg.owns ≢ []
      → Returning cfg
      → (s q : State api) (es : List Error) → begin s ≡ done (es, q)
      → IsUnique api q
      → (is_panic (run_unless api cfg es q) ≡ false) ⊎ (PanicsInWatch s ⊎ PanicsInDiff s)
  unfolding run_unless
  panics-run_unless h returning s q (e ∷ es) b u =
      inl (IsTotal-returns _ (IsTotal-then _ _ (IsTotal-add_note api _) (IsTotal-pure _)) q u)
  panics-run_unless h returning s q [] b u =
      let (es, t, e, v) = IsTotal-populate_inventory.at q u in
      elim (panics-stages_unless h returning es t v) [
        | inl fine ↦ inl (is_panic-populate_and_run q t es e ∙ fine)
        | inr (inl (none_left, panics)) ↦ inr (inl (q, t, b, rw (← none_left) e, panics))
        | inr (inr (none_left, p, e', panics)) ↦
            inr (inr (q, t, p, b, rw (← none_left) e, e', panics))
      ]

  -- The run of a function with owned kinds whose own functions to make children and to update
  -- resources return, over a reliable Kptfile without duplicate types, returns; or else the
  -- readiness gates were set and the inventory was populated without an error, and then either a
  -- call of a watch panics, or the stages were prepared and the diff of the inventory panics.
  pub run_panics :
      cfg.owns ≢ []
      → Returning cfg
      → (s : State api) → IsUnique api s
      → (is_panic (run api cfg s) ≡ false) ⊎ (PanicsInWatch s ⊎ PanicsInDiff s)
  run_panics h returning s u =
      let (es, q, e, v) = IsTotal-begin.at s u in
      elim (panics-run_unless h returning s q es e v) [
        | inl fine ↦ inl (is_panic-run s q es e ∙ fine)
        | inr bad ↦ inr bad
      ]
