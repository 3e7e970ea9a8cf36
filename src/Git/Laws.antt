-- ===== src/Git/Laws.antt =====
-- When the reconcilers of tokens and repositories make something in the git server
-- (controllers/pkg/reconcilers/token, controllers/pkg/reconcilers/repository).
use nephio.Base.{
  String, ◌≡◌, refl, ap, ◌∙◌, Bool, true, false, not, ◌||◌, none, List, [], ◌∷◌, ◌++◌, done,
  string_eq, if◌then◌else◌, arith, inl, inr, Bool-cases, Option-cases,
}
use nephio.Finalizer.{finalizer_exists, add_finalizer, api_add_finalizer}
use nephio.Finalizer.Laws.{finalizer_exists-add_finalizer}
use nephio.Git.{
  Resource, World, Call, updated, status_updated, Step, Reconciled, update_with, store_status, fail,
  added, remotes, after_create, with_finalizer, ensure, process,
}
use nephio.Git.Calls.{is_none, remote_calls}

module _ {Spec Status Remote : Type 0} (w : World Spec Status) (finalizer : String)
    (create delete : Resource Spec Status → Step Status w.Fault Remote) where
  open w use {Fault}

  -- The finalizer is on the resource, or the update that adds it succeeds.
  abbrev pub is_held : Resource Spec Status → Bool
  is_held cr =
      finalizer_exists cr.finalizers finalizer
      || is_none (update_with w cr (add_finalizer cr.finalizers finalizer))

  abbrev pub held : Resource Spec Status → Resource Spec Status
  held cr = record cr {
    finalizers =
        if finalizer_exists cr.finalizers finalizer
        then cr.finalizers
        else add_finalizer cr.finalizers finalizer;
  }

  -- What is sent to put the finalizer on the resource, where it is not there.
  abbrev pub finalizer_update : Resource Spec Status → List (Call Spec Status Remote)
  finalizer_update cr =
      if finalizer_exists cr.finalizers finalizer then [] else updated (held cr) ∷ []

  -- The status that the creation leaves, which is the ready one where it has no error.
  abbrev pub last_status : Step Status Fault Remote → Status
  last_status step = if is_none step.error then w.set_ready step.status else step.status

  added-finalizer_update : (cr : Resource Spec Status) → added w finalizer cr ≡ finalizer_update cr
  added-finalizer_update cr = elim (Bool-cases (finalizer_exists cr.finalizers finalizer)) [
    | inl e ↦ rw e refl
    | inr e ↦ rw e refl
  ]

  add-held :
      (cr : Resource Spec Status)
      → is_held cr ≡ true
      → api_add_finalizer
          (update_with w cr)
          w.is_not_found
          (λ e. w.wrap e "cannot update object")
          cr.finalizers
          finalizer
        ≡ ((held cr).finalizers, none)
  unfolding api_add_finalizer
  add-held cr h = ground arith

  ensure-held :
      (cr : Resource Spec Status)
      → is_held cr ≡ true
      → ensure w finalizer create delete cr
        ≡ after_create w (held cr) (added w finalizer cr) (create (held cr))
  unfolding ensure with_finalizer
  ensure-held cr h = ap (with_finalizer w finalizer create delete cr) (add-held cr h)

  calls-after_create :
      (cr : Resource Spec Status) (cs : List (Call Spec Status Remote))
      (step : Step Status Fault Remote)
      → ((after_create w cr cs step).calls
          ≡ cs ++ remotes step.calls ++ status_updated (last_status step) ∷ [])
        × ((after_create w cr cs step).requeue ≡ not (is_none step.error))
  unfolding after_create store_status
  calls-after_create cr cs step = elim (Option-cases step.error) [
    | inl e ↦ (rw e refl, rw e refl)
    | inr (x, e) ↦ (rw e refl, rw e refl)
  ]

  ensure-not_held :
      (cr : Resource Spec Status)
      → is_held cr ≡ false
      → (remote_calls (ensure w finalizer create delete cr).calls ≡ [])
        × ((ensure w finalizer create delete cr).requeue ≡ true)
  unfolding ensure api_add_finalizer with_finalizer fail store_status
  ensure-not_held cr h = (ground arith, ground arith)

  held_exists : (cr : Resource Spec Status) → finalizer_exists (held cr).finalizers finalizer ≡ true
  held_exists cr = ground (arith, (finalizer_exists-add_finalizer cr.finalizers finalizer).0)

  -- For a resource that is not being deleted, with the git client initialised. Where the finalizer is
  -- neither on it nor can be put, the git server is not called and the resource is tried again.
  -- Otherwise the calls are, in this order: the update that puts the finalizer on the resource, if
  -- it is not there; those that the creation makes for the resource with the finalizer; and the
  -- write of the status, which is the ready one exactly if the creation has no error. Exactly then
  -- the resource is not tried again.
  pub process_creation :
      (cr : Resource Spec Status)
      → w.is_initialized ≡ true
      → cr.deleted ≡ false
      → (r : Reconciled Spec Status Fault Remote) × (process w finalizer create delete cr ≡ done r)
        × (is_held cr ≡ false → (remote_calls r.calls ≡ []) × (r.requeue ≡ true))
        × (is_held cr ≡ true
            → (finalizer_exists (held cr).finalizers finalizer ≡ true)
              × (r.calls
                  ≡ finalizer_update cr
                    ++ remotes (create (held cr)).calls
                    ++ status_updated (last_status (create (held cr))) ∷ [])
              × (r.requeue ≡ not (is_none (create (held cr)).error)))
  unfolding process
  process_creation cr ready alive = (
    ensure w finalizer create delete cr,
    rw (ready, alive) refl,
    λ h. ensure-not_held cr h,
    λ h.
        let (calls, again) =
          calls-after_create (held cr) (added w finalizer cr) (create (held cr)) in
        let put = added-finalizer_update cr in
        rw (ensure-held cr h) (
          held_exists cr,
          calls
              ∙ ap
                  (λ cs.
                    cs
                    ++ remotes (create (held cr)).calls
                    ++ status_updated (last_status (create (held cr))) ∷ [])
                  put,
          again,
        ),
  )
