-- ===== src/Git/Deletion.antt =====
-- When the reconcilers of tokens and repositories let a resource go
-- (controllers/pkg/reconcilers/token, controllers/pkg/reconcilers/repository).
use nephio.Base.{
  String, ◌≡◌, refl, ap, ◌∙◌, true, false, none, some, List, [], ◌∷◌, ◌++◌, done, and_then, ◌==◌,
  string_eq, if◌then◌else◌, arith, any, inl, inr, Bool-cases, AtMostOne,
}
use nephio.Finalizer.{is_finalizer, finalizer_exists, remove_finalizer, api_remove_finalizer}
use nephio.Finalizer.Laws.{remove_finalizer_lem}
use nephio.Git.{
  Resource, World, Call, updated, status_updated, Step, Reconciled, update_with, store_status, stop,
  removed, release, after_delete, handle_deletion, remotes, process,
}
use nephio.Git.Calls.{is_update}

module _ {Spec Status Remote : Type 0} (w : World Spec Status) (finalizer : String)
    (create delete : Resource Spec Status → Step Status w.Fault Remote) where
  open w use {Fault}

  -- The deletion in the git server, where the policy asks for it.
  abbrev pub remote_deletion : Resource Spec Status → Step Status Fault Remote
  remote_deletion cr =
      if cr.deletion_policy == w.deletion_delete
      then delete cr
      else record { status = cr.status; error = none; calls = [] }

  handle_deletion-after_delete :
      (cr : Resource Spec Status)
      → handle_deletion w finalizer create delete cr
        ≡ after_delete w finalizer cr (remote_deletion cr)
  unfolding handle_deletion after_delete
  handle_deletion-after_delete cr = elim (Bool-cases (cr.deletion_policy == w.deletion_delete)) [
    | inl e ↦ rw e refl
    | inr e ↦ rw e refl
  ]

  after_delete-failed :
      (cr : Resource Spec Status) (step : Step Status Fault Remote) (e : Fault)
      → step.error ≡ some e
      → after_delete w finalizer cr step
        ≡ done (store_status w (record cr { status = step.status }) true (remotes step.calls))
  unfolding after_delete
  after_delete-failed cr step e h = rw h refl

  after_delete-gone :
      (cr : Resource Spec Status) (step : Step Status Fault Remote)
      → step.error ≡ none
      → after_delete w finalizer cr step
        ≡ release w finalizer (record cr { status = step.status }) (remotes step.calls)
  unfolding after_delete
  after_delete-gone cr step h = rw h refl

  no_update-remotes :
      (rs : List Remote) (x : Status)
      → any (is_update {Spec = Spec} {Remote = Remote}) (remotes rs ++ status_updated x ∷ [])
        ≡ false
  no_update-remotes [] x = refl
  no_update-remotes (r ∷ rs) x = no_update-remotes rs x

  api_removed :
      (cr : Resource Spec Status) (g : List String)
      → finalizer_exists cr.finalizers finalizer ≡ true
      → remove_finalizer cr.finalizers finalizer ≡ done g
      → update_with w cr g ≡ none
      → api_remove_finalizer
          (update_with w cr)
          w.is_not_found
          (λ e. w.wrap e "cannot update object")
          cr.finalizers
          finalizer
        ≡ done (g, none)
  unfolding api_remove_finalizer
  api_removed cr g there gone sent = ground arith

  removed-sent :
      (cr : Resource Spec Status) (calls : List (Call Spec Status Remote)) (g : List String)
      → finalizer_exists cr.finalizers finalizer ≡ true
      → removed w finalizer cr calls (g, none) ≡ record {
        requeue = false;
        error = none;
        calls = calls ++ updated (record cr { finalizers = g }) ∷ [];
      }
  unfolding removed stop
  removed-sent cr calls g there = ground arith

  release-removed :
      (cr : Resource Spec Status) (calls : List (Call Spec Status Remote)) (g : List String)
      → finalizer_exists cr.finalizers finalizer ≡ true
      → remove_finalizer cr.finalizers finalizer ≡ done g
      → w.update (record cr { finalizers = g }) ≡ none
      → release w finalizer cr calls
        ≡ done (record {
          requeue = false;
          error = none;
          calls = calls ++ updated (record cr { finalizers = g }) ∷ [];
        })
  unfolding release
  release-removed cr calls g there gone sent =
      ap (λ o. and_then o (λ r. done (removed w finalizer cr calls r)))
        (api_removed cr g there gone sent)
      ∙ ap done (removed-sent cr calls g there)

  process-deleted :
      (cr : Resource Spec Status)
      → w.is_initialized ≡ true
      → cr.deleted ≡ true
      → process w finalizer create delete cr ≡ handle_deletion w finalizer create delete cr
  unfolding process
  process-deleted cr ready gone = ground arith

  -- A resource that is being deleted keeps its finalizer until the git server has let go of it: where
  -- the deletion there is asked for and fails, no update of the resource is sent and the
  -- resource is tried again. Where it is not asked for or succeeds, and the finalizer is there
  -- once and the update succeeds, the last call is the update that takes it off, and every
  -- other finalizer stays.
  pub process_deletion :
      (cr : Resource Spec Status)
      → w.is_initialized ≡ true
      → cr.deleted ≡ true
      → ((e : Fault)
          → (remote_deletion cr).error ≡ some e
          → (r : Reconciled Spec Status Fault Remote) × (process w finalizer create delete cr
              ≡ done r)
            × (any is_update r.calls ≡ false)
            × (r.requeue ≡ true))
        × ((remote_deletion cr).error ≡ none
            → finalizer_exists cr.finalizers finalizer ≡ true
            → AtMostOne (is_finalizer finalizer) cr.finalizers
            → ((sent : Resource Spec Status) → w.update sent ≡ none)
            → (g : List String) × (process w finalizer create delete cr
                ≡ done (record {
                  requeue = false;
                  error = none;
                  calls =
                      remotes (remote_deletion cr).calls
                      ++ updated
                          (record cr { status = (remote_deletion cr).status; finalizers = g })
                        ∷ [];
                }))
              × ((y : String)
                  → finalizer_exists g y ≡ (
                      if is_finalizer finalizer y
                      then false
                      else finalizer_exists cr.finalizers y)))
  unfolding store_status
  process_deletion cr ready gone =
      let deletion : process w finalizer create delete cr
          ≡ after_delete w finalizer cr (remote_deletion cr) =
        process-deleted cr ready gone ∙ handle_deletion-after_delete cr in
      (
        λ e h. (
          store_status w (record cr { status = (remote_deletion cr).status }) true
              (remotes (remote_deletion cr).calls),
          deletion ∙ after_delete-failed cr (remote_deletion cr) e h,
          no_update-remotes (remote_deletion cr).calls (remote_deletion cr).status,
          refl,
        ),
        λ h there once sends.
            let (g, removes, others) = (remove_finalizer_lem cr.finalizers finalizer).0 once in
            (
              g,
              deletion
                  ∙ after_delete-gone cr (remote_deletion cr) h
                  ∙ release-removed (record cr { status = (remote_deletion cr).status })
                      (remotes (remote_deletion cr).calls) g there removes (sends _),
              others,
            ),
      )
