-- ===== src/Focom/Reconcile.antt =====
-- operators/focom-operator/internal/controller: the remote request and the steps of `Reconcile`.
use nephio.Base.{
  String, ◌<>◌, ℕ, Bool, true, false, not, Option, none, some, List, [], ◌∷◌, ◌++◌, Result, ok, err,
  ◌==◌, string_eq, if◌then◌else◌,
}
use nephio.Focom.{
  World, Request, Remote, ProvisioningStatus, Call, updated, status_updated, created, deleted,
  Reconciled, stop, focom_finalizer, set_status, decode_raw_parameters, validate_template_alignment,
  build_remote_client,
}

module _ (w : World) where
  open w use {Fault, Parameters, Client}

  -- `deleteRemoteResource`: the name that it deletes, with the calls.
  unfoldable pub delete_from : String → Result Fault Client → Option Fault × List (Call w)
  delete_from name (err e) = (some (w.errorf ("buildRemoteClient error: " <> w.text e)), [])
  delete_from name (ok c) = elim (w.remote_delete c name) [
    | none ↦ (none, deleted c name ∷ [])
    | some e ↦ (
      if w.is_not_found e then none else some (w.errorf ("delete remote CR: " <> w.text e)),
      deleted c name ∷ [],
    )
  ]

  unfoldable pub delete_remote_resource : Request → Option Fault × List (Call w)
  unfolding delete_from build_remote_client
  delete_remote_resource fpr =
      if fpr.status.remote_name == ""
      then (none, [])
      else delete_from fpr.status.remote_name (build_remote_client w fpr)

  -- `createRemoteProvisioningRequest`, behind the decoding of the parameters.
  unfoldable pub remote_object : Request → Parameters → Remote Parameters
  remote_object fpr params = record {
    name = if fpr.name == "" then w.new_uuid else fpr.name;
    spec_name = fpr.spec_name;
    description = fpr.description;
    template_name = fpr.template_name;
    template_version = fpr.template_version;
    template_parameters = params;
  }

  unfoldable pub create_decoded :
      Client → Request → Result Fault Parameters → Result Fault String × List (Call w)
  unfolding remote_object
  create_decoded c fpr (err e) =
      (err (w.errorf ("failed to parse templateParameters: " <> w.text e)), [])
  create_decoded c fpr (ok params) =
      (w.remote_create c (remote_object fpr params), created c (remote_object fpr params) ∷ [])

  unfoldable pub create_remote_provisioning_request :
      Client → Request → Result Fault String × List (Call w)
  unfolding create_decoded decode_raw_parameters
  create_remote_provisioning_request c fpr =
      create_decoded c fpr (decode_raw_parameters w fpr.template_parameters)

  -- `pollRemoteProvisioningRequest`: whether it is done, the phase and the message.
  pub record Poll : Type 0 where
    pub done : Bool
    pub phase : String
    pub message : String

  -- The `switch` on the remote state.
  unfoldable pub poll_state : ProvisioningStatus → Poll
  poll_state s =
      if s.state == "fulfilled"
      then record { done = true; phase = "Fulfilled"; message = s.message }
      else if s.state == "failed"
      then record { done = true; phase = "Failed"; message = s.message }
      else if s.state == "deleting"
      then record { done = false; phase = s.state; message = s.message }
      else if s.state == "progressing"
      then record { done = false; phase = s.state; message = s.message }
      else record {
        done = false;
        phase = "provisioning";
        message = "Unknown remote state: " <> s.state;
      }

  unfoldable pub poll_answer : Result Fault (Option ProvisioningStatus) → Result Fault Poll
  unfolding poll_state
  poll_answer (err e) =
      if w.is_not_found e
      then ok (record { done = true; phase = "failed"; message = "Remote resource not found" })
      else err (w.errorf ("error fetching remote CR: " <> w.text e))
  poll_answer (ok none) =
      ok (record { done = false; phase = "provisioning"; message = "Remote CR has no status yet" })
  poll_answer (ok (some s)) = ok (poll_state s)

  unfoldable pub poll_remote_provisioning_request : Client → Request → Result Fault Poll
  unfolding poll_answer
  poll_remote_provisioning_request c fpr = poll_answer (w.remote_get c fpr.status.remote_name)

  -- The duration and the error of `ensureRemoteResource`, with its calls.
  pub record Ensured : Type 0 where
    pub after : ℕ
    pub error : Option Fault
    pub calls : List (Call w)

  -- A status update whose error is returned.
  unfoldable pub store_status : Request → ℕ → List (Call w) → Ensured
  store_status fpr after calls = elim (w.update_status fpr) [
    | some e ↦ record { after = 0; error = some e; calls = calls ++ status_updated fpr ∷ [] }
    | none ↦ record { after = after; error = none; calls = calls ++ status_updated fpr ∷ [] }
  ]

  -- A failure noted in the status; the error of the status update is dropped.
  abbrev noted : Request → String → ℕ → Option Fault → List (Call w) → Ensured
  noted fpr msg after e calls = record {
    after = after;
    error = e;
    calls = calls ++ status_updated (set_status w fpr "failed" msg) ∷ [];
  }

  unfoldable pub after_create : Request → Result Fault String × List (Call w) → Ensured
  unfolding store_status set_status
  after_create fpr (err e, calls) = noted fpr (w.text e) 0 (some e) calls
  after_create fpr (ok name, calls) =
      store_status
        (set_status w (record fpr { status = record fpr.status { remote_name = name } })
          "provisioning" "Remote CR created, waiting for fulfillment")
        20 calls

  unfoldable pub after_poll : Request → Result Fault Poll → Ensured
  unfolding store_status set_status
  after_poll fpr (err e) = noted fpr ("poll error: " <> w.text e) 30 (some e) []
  after_poll fpr (ok p) =
      store_status (set_status w fpr p.phase p.message) (if p.done then 0 else 30) []

  -- `ensureRemoteResource`
  unfoldable pub ensure_remote_resource : Client → Request → Ensured
  unfolding after_create after_poll create_remote_provisioning_request
      poll_remote_provisioning_request
  ensure_remote_resource c fpr =
      if fpr.status.remote_name == ""
      then after_create fpr (create_remote_provisioning_request c fpr)
      else after_poll fpr (poll_remote_provisioning_request c fpr)

  -- The finalizer's end of `handleDeletion`.
  unfoldable pub release : Request → Option Fault × List (Call w) → Reconciled w
  release fpr (some e, calls) = record {
    requeue = false;
    requeue_after = 15;
    error = none;
    calls = calls;
  }
  release fpr (none, calls) =
      let freed : Request = record fpr {
        finalizers = w.remove_finalizer fpr.finalizers focom_finalizer;
      } in
      stop w (w.update freed) (calls ++ updated freed ∷ [])

  -- `handleDeletion`
  unfoldable pub handle_deletion : Request → Reconciled w
  unfolding release delete_remote_resource
  handle_deletion fpr =
      if w.contains_finalizer fpr.finalizers focom_finalizer
      then release fpr (delete_remote_resource fpr)
      else stop w none []

  -- A failure noted in the status, and nothing more to do.
  abbrev fail : Request → String → Reconciled w
  fail fpr msg = stop w none (status_updated (set_status w fpr "failed" msg) ∷ [])

  -- The end of `Reconcile`.
  unfoldable pub finish : Ensured → Reconciled w
  finish r = elim r.error [
    | some e ↦ stop w none r.calls
    | none ↦ record { requeue = false; requeue_after = r.after; error = none; calls = r.calls }
  ]

  unfoldable pub with_client : Request → Result Fault Client → Reconciled w
  unfolding finish ensure_remote_resource set_status
  with_client fpr (err e) = fail fpr (w.text e)
  with_client fpr (ok c) = finish (ensure_remote_resource c fpr)

  unfoldable pub with_alignment : Request → Option Fault → Reconciled w
  unfolding with_client build_remote_client set_status
  with_alignment fpr (some e) = fail fpr (w.text e)
  with_alignment fpr none = with_client fpr (build_remote_client w fpr)

  -- `ensureFinalizer`, and `Reconcile` behind it.
  unfoldable pub ensure_finalizer : Request → Reconciled w
  unfolding with_alignment validate_template_alignment
  ensure_finalizer fpr =
      let held : Request = record fpr {
        finalizers = w.add_finalizer fpr.finalizers focom_finalizer;
      } in
      if not (w.contains_finalizer fpr.finalizers focom_finalizer)
      then elim (w.update held) [
        | some e ↦ stop w (some e) (updated held ∷ [])
        | none ↦ record {
          requeue = true;
          requeue_after = 0;
          error = none;
          calls = updated held ∷ [];
        }
      ]
      else with_alignment fpr (validate_template_alignment w fpr)

  unfoldable pub process : Request → Reconciled w
  unfolding handle_deletion ensure_finalizer
  process fpr = if fpr.deleted then handle_deletion fpr else ensure_finalizer fpr

  unfoldable pub by_read : Result Fault Request → Reconciled w
  unfolding process
  by_read (err e) = if w.is_not_found e then stop w none [] else stop w (some e) []
  by_read (ok fpr) = process fpr

  -- `Reconcile`
  unfoldable pub reconcile : String → String → Reconciled w
  unfolding by_read
  reconcile namespace name = by_read (w.get_request namespace name)
