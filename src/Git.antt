-- ===== src/Git.antt =====
-- controllers/pkg/reconcilers/token/reconciler.go and controllers/pkg/reconcilers/repository/reconciler.go:
-- the `Reconcile` that the two share, over what each makes and deletes in the git server. The
-- Kubernetes client and the git client are parameters.
pub mod Token
pub mod Repository
pub mod Calls
pub mod Made
pub mod Lost
pub mod Upserted
pub mod Deletion
pub mod Laws
use nephio.Base.{
  String, Bool, true, false, not, ◌&&◌, ◌||◌, Option, none, some, List, [], ◌∷◌, ◌++◌, Result, ok,
  err, Outcome, done, panic, and_then, ◌==◌, string_eq, if◌then◌else◌,
}
use nephio.Finalizer.{
  finalizer_exists, add_finalizer, remove_finalizer, api_add_finalizer, api_remove_finalizer,
}

-- The fields of a Token or a Repository that the controllers read or write; `Status` holds the
-- conditions.
pub record Resource (Spec Status : Type 0) : Type 0 where
  pub namespace : String
  pub name : String
  pub deleted : Bool
  pub deletion_policy : String
  pub finalizers : List String
  pub spec : Spec
  pub status : Status

-- The clients, and what the API's packages say of conditions and errors.
pub record World (Spec Status : Type 0) : Type 1 where
  pub Fault : Type 0
  pub text : Fault → String
  pub is_not_found : Fault → Bool
  pub errorf : String → Fault
  pub wrap : Fault → String → Fault
  pub deletion_delete : String
  pub set_failed : Status → String → Status
  pub set_ready : Status → Status
  pub is_initialized : Bool
  pub get : String → String → Result Fault (Resource Spec Status)
  pub update : Resource Spec Status → Option Fault
  pub update_status : Resource Spec Status → Option Fault

-- What changes the cluster or the git server, in the order of the calls; `remote` is one that the
-- git server or the cluster takes in behalf of the resource.
pub data Call (Spec Status Remote : Type 0) : Type 0 where
  updated : Resource Spec Status → Call Spec Status Remote
  status_updated : Status → Call Spec Status Remote
  remote : Remote → Call Spec Status Remote

-- What the creation or the deletion in the git server leaves: the status, the error and the calls.
pub record Step (Status Fault Remote : Type 0) : Type 0 where
  pub status : Status
  pub error : Option Fault
  pub calls : List Remote

-- `ctrl.Result`, the error and the calls of `Reconcile`.
pub record Reconciled (Spec Status Fault Remote : Type 0) : Type 0 where
  pub requeue : Bool
  pub error : Option Fault
  pub calls : List (Call Spec Status Remote)

abbrev pub err_update_status : String
err_update_status = "cannot update status"

module _ {Spec Status : Type 0} (w : World Spec Status) where
  open w use {Fault}

  -- The client's update of the object with other finalizers.
  abbrev pub update_with : Resource Spec Status → List String → Option Fault
  update_with cr f = w.update (record cr { finalizers = f })

  abbrev pub wrapped : String → Option Fault → Option Fault
  wrapped msg none = none
  wrapped msg (some e) = some (w.wrap e msg)

module _ {Spec Status Remote : Type 0} where
  abbrev pub remotes : List Remote → List (Call Spec Status Remote)
  remotes [] = []
  remotes (r ∷ rs) = remote r ∷ remotes rs

module _ {Spec Status Remote : Type 0} (w : World Spec Status) where
  open w use {Fault}

  -- `return ctrl.Result{Requeue: …}, errors.Wrap(r.Status().Update(ctx, cr), errUpdateStatus)`
  unfoldable pub store_status :
      Resource Spec Status
      → Bool
      → List (Call Spec Status Remote)
      → Reconciled Spec Status Fault Remote
  store_status cr requeue calls = record {
    requeue = requeue;
    error = wrapped w err_update_status (w.update_status cr);
    calls = calls ++ status_updated cr.status ∷ [];
  }

  -- The same, behind `cr.SetConditions(infrav1alpha1.Failed(…))`.
  unfoldable pub fail :
      Resource Spec Status
      → String
      → List (Call Spec Status Remote)
      → Reconciled Spec Status Fault Remote
  unfolding store_status
  fail cr msg calls = store_status (record cr { status = w.set_failed cr.status msg }) true calls

  unfoldable pub stop :
      Bool → Option Fault → List (Call Spec Status Remote) → Reconciled Spec Status Fault Remote
  stop requeue e calls = record { requeue = requeue; error = e; calls = calls }

  unfoldable pub after_create :
      Resource Spec Status
      → List (Call Spec Status Remote)
      → Step Status Fault Remote
      → Reconciled Spec Status Fault Remote
  unfolding store_status
  after_create cr calls step = elim step.error [
    | some e ↦ store_status (record cr { status = step.status }) true (calls ++ remotes step.calls)
    | none ↦
        store_status (record cr { status = w.set_ready step.status }) false
          (calls ++ remotes step.calls)
  ]

-- `finalizer`, by the reconciler.
module _ {Spec Status Remote : Type 0} (w : World Spec Status) (finalizer : String) where
  open w use {Fault}

  -- What `RemoveFinalizer` sends, and the end of a deletion.
  unfoldable pub removed :
      Resource Spec Status
      → List (Call Spec Status Remote)
      → List String × Option Fault
      → Reconciled Spec Status Fault Remote
  unfolding fail stop finalizer_exists
  removed cr calls (f, e) =
      let sent : List (Call Spec Status Remote) =
        if finalizer_exists cr.finalizers finalizer
        then calls ++ updated (record cr { finalizers = f }) ∷ []
        else calls in
      elim e [
        | some e ↦ fail w (record cr { finalizers = f }) (w.text e) sent
        | none ↦ stop w false none sent
      ]

  unfoldable pub release :
      Resource Spec Status
      → List (Call Spec Status Remote)
      → Outcome (Reconciled Spec Status Fault Remote)
  unfolding removed api_remove_finalizer
  release cr calls =
      and_then
        (api_remove_finalizer (update_with w cr) w.is_not_found
          (λ e. w.wrap e "cannot update object") cr.finalizers finalizer)
        (λ r. done (removed cr calls r))

  -- What `AddFinalizer` sent, in front of the creation.
  abbrev pub added : Resource Spec Status → List (Call Spec Status Remote)
  added cr =
      if finalizer_exists cr.finalizers finalizer
      then []
      else updated (record cr { finalizers = add_finalizer cr.finalizers finalizer }) ∷ []

  unfoldable pub after_delete :
      Resource Spec Status
      → Step Status Fault Remote
      → Outcome (Reconciled Spec Status Fault Remote)
  unfolding release store_status
  after_delete cr step = elim step.error [
    | some e ↦ done (store_status w (record cr { status = step.status }) true (remotes step.calls))
    | none ↦ release (record cr { status = step.status }) (remotes step.calls)
  ]

-- The two remote steps of a reconciler.
module _ {Spec Status Remote : Type 0} (w : World Spec Status) (finalizer : String)
    (create delete : Resource Spec Status → Step Status w.Fault Remote) where
  open w use {Fault}

  -- `if resource.WasDeleted(cr)`
  unfoldable pub handle_deletion :
      Resource Spec Status → Outcome (Reconciled Spec Status Fault Remote)
  unfolding release after_delete
  handle_deletion cr =
      if cr.deletion_policy == w.deletion_delete
      then after_delete w finalizer cr (delete cr)
      else release w finalizer cr []

  unfoldable pub with_finalizer :
      Resource Spec Status → List String × Option Fault → Reconciled Spec Status Fault Remote
  unfolding fail after_create finalizer_exists add_finalizer
  with_finalizer cr (f, some e) =
      fail w (record cr { finalizers = f }) (w.text e) (added w finalizer cr)
  with_finalizer cr (f, none) =
      after_create w (record cr { finalizers = f }) (added w finalizer cr)
        (create (record cr { finalizers = f }))

  unfoldable pub ensure : Resource Spec Status → Reconciled Spec Status Fault Remote
  unfolding with_finalizer api_add_finalizer
  ensure cr = with_finalizer cr (
      api_add_finalizer (update_with w cr) w.is_not_found (λ e. w.wrap e "cannot update object")
        cr.finalizers finalizer)

  unfoldable pub process : Resource Spec Status → Outcome (Reconciled Spec Status Fault Remote)
  unfolding handle_deletion ensure fail
  process cr =
      if not w.is_initialized
      then done (fail w cr (w.text (w.errorf "gitea server unreachable")) [])
      else if cr.deleted
      then handle_deletion cr
      else done (ensure cr)

  -- A failed read is tried again at once if `retry_read`.
  unfoldable pub by_read :
      Bool → Result Fault (Resource Spec Status) → Outcome (Reconciled Spec Status Fault Remote)
  unfolding process stop
  by_read retry_read (err e) =
      if w.is_not_found e
      then done (stop w false none [])
      else done (stop w retry_read (some (w.wrap e "cannot get resource")) [])
  by_read retry_read (ok cr) = process cr

  unfoldable pub reconcile_with :
      Bool → String → String → Outcome (Reconciled Spec Status Fault Remote)
  unfolding by_read
  reconcile_with retry_read namespace name = by_read retry_read (w.get namespace name)
