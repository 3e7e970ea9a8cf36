-- ===== src/Focom/Laws.antt =====
-- What a reconciliation of a provisioning request does, and when.
use nephio.Base.{
  String, ◌<>◌, ◌≡◌, ◌≢◌, refl, ◌∙◌, ℕ, Bool, true, false, ◌&&◌, ◌||◌, Option, none, some, List, [],
  ◌∷◌, ◌++◌, Result, ok, err, ◌==◌, string_eq, if◌then◌else◌, arith, any, ◌⊎◌, inl, inr,
}
use nephio.Focom.{
  World, Request, TemplateInfo, Call, updated, status_updated, created, deleted, Reconciled, stop,
  focom_finalizer, set_status, check_template_info, validate_template_alignment,
  build_remote_client,
}
use nephio.Focom.Reconcile.{
  delete_from, delete_remote_resource, release, handle_deletion, Poll, poll_answer,
  poll_remote_provisioning_request, Ensured, store_status, after_poll, ensure_remote_resource,
  finish, with_client, with_alignment, ensure_finalizer, process,
}

module _ (w : World) where
  open w use {Fault, Client}

  any-append :
      (p : Call w → Bool) (cs ds : List (Call w)) → any p (cs ++ ds) ≡ (any p cs || any p ds)
  any-append p [] ds = refl
  any-append p (c ∷ cs) ds = ground (arith, any-append p cs ds)

  -- The requests that a reconciliation writes back with their finalizers.
  abbrev pub updates : List (Call w) → List Request
  updates [] = []
  updates (updated fpr ∷ cs) = fpr ∷ updates cs
  updates (_ ∷ cs) = updates cs

  abbrev pub is_remote : Call w → Bool
  is_remote (updated fpr) = false
  is_remote (status_updated fpr) = false
  is_remote (created c o) = true
  is_remote (deleted c n) = true

  abbrev pub is_creation : Call w → Bool
  is_creation (created c o) = true
  is_creation _ = false

  -- Nothing is left of the remote request: it was never named, or the deletion succeeds or finds
  -- nothing.
  abbrev is_gone_from : String → Result Fault Client → Bool
  is_gone_from name (err e) = false
  is_gone_from name (ok c) = elim (w.remote_delete c name) [
    | none ↦ true
    | some e ↦ w.is_not_found e
  ]

  abbrev pub is_gone : Request → Bool
  is_gone fpr =
      fpr.status.remote_name == ""
      || is_gone_from fpr.status.remote_name (build_remote_client w fpr)

  abbrev pub released : Request → Request
  released fpr = record fpr { finalizers = w.remove_finalizer fpr.finalizers focom_finalizer }

  updates-delete_from :
      (fpr : Request) (name : String) (r : Result Fault Client)
      → (updates (release w fpr (delete_from w name r)).calls
          ≡ (if is_gone_from name r then released fpr ∷ [] else []))
        × (is_gone_from name r ≡ false → (release w fpr (delete_from w name r)).requeue_after ≡ 15)
  unfolding release delete_from
  updates-delete_from fpr name (err e) = (refl, λ h. refl)
  updates-delete_from fpr name (ok c) = (ground arith, ground arith)

  pub handle_deletion_lem :
      (fpr : Request)
      → (updates (handle_deletion w fpr).calls ≡ (
          if w.contains_finalizer fpr.finalizers focom_finalizer && is_gone fpr
          then released fpr ∷ []
          else []))
        × (w.contains_finalizer fpr.finalizers focom_finalizer ≡ true
            → is_gone fpr ≡ false
            → (handle_deletion w fpr).requeue_after ≡ 15)
  unfolding handle_deletion delete_remote_resource release
  handle_deletion_lem fpr =
      let (writes, again) =
        updates-delete_from fpr fpr.status.remote_name (build_remote_client w fpr) in
      (ground (arith, writes), λ h k. ground (arith, again))

  -- The request names the template info, and it is there with that template and version.
  abbrev pub is_aligned : Request → Result Fault TemplateInfo → Bool
  is_aligned fpr (err e) = false
  is_aligned fpr (ok info) =
      info.template_name == fpr.template_name && info.template_version == fpr.template_version

  abbrev pub template_of : Request → Result Fault TemplateInfo
  template_of fpr =
      w.get_template_info (fpr.template_name <> "-" <> fpr.template_version) fpr.namespace

  abbrev is_none : Option Fault → Bool
  is_none none = true
  is_none (some e) = false

  is_none-check_template_info :
      (fpr : Request) (name : String) (r : Result Fault TemplateInfo)
      → is_none (check_template_info w fpr name r) ≡ is_aligned fpr r
  unfolding check_template_info
  is_none-check_template_info fpr name (err e) = ground arith
  is_none-check_template_info fpr name (ok info) = ground arith

  any-store_status :
      (p : Call w → Bool) (fpr : Request) (n : ℕ) (cs : List (Call w))
      → p (status_updated fpr) ≡ false
      → any p (store_status w fpr n cs).calls ≡ any p cs
  unfolding store_status
  any-store_status p fpr n cs h = ground (arith, any-append p cs (status_updated fpr ∷ []))

  no_creation-after_poll :
      (fpr : Request) (r : Result Fault (Poll w))
      → any is_creation (after_poll w fpr r).calls ≡ false
  unfolding after_poll
  no_creation-after_poll fpr (err e) = refl
  no_creation-after_poll fpr (ok p) = any-store_status is_creation _ _ [] refl

  finish-calls : (r : Ensured w) → (finish w r).calls ≡ r.calls
  unfolding finish
  finish-calls r = ground arith

  no_creation-with_client :
      (fpr : Request) (r : Result Fault Client)
      → fpr.status.remote_name ≢ ""
      → any is_creation (with_client w fpr r).calls ≡ false
  unfolding with_client ensure_remote_resource
  no_creation-with_client fpr (err e) h = refl
  no_creation-with_client fpr (ok c) h = ground (
    arith,
    finish-calls (ensure_remote_resource w c fpr),
    no_creation-after_poll fpr (poll_remote_provisioning_request w c fpr),
  )

  no_remote-handle_deletion :
      (fpr : Request)
      → (w.contains_finalizer fpr.finalizers focom_finalizer ≡ false
          → any is_remote (handle_deletion w fpr).calls ≡ false)
        × (any is_creation (handle_deletion w fpr).calls ≡ false)
  unfolding handle_deletion delete_remote_resource delete_from release
  no_remote-handle_deletion fpr = (λ h. ground arith, ground arith)

  no_creation-with_alignment :
      (fpr : Request) (e : Option Fault)
      → fpr.status.remote_name ≢ "" ⊎ (is_none e ≡ false)
      → any is_creation (with_alignment w fpr e).calls ≡ false
  unfolding with_alignment
  no_creation-with_alignment fpr (some e) h = refl
  no_creation-with_alignment fpr none (inl h) =
      no_creation-with_client fpr (build_remote_client w fpr) h
  no_creation-with_alignment fpr none (inr h) = ground arith

  -- Nothing is created or deleted remotely for a request without the finalizer, and a remote request
  -- is created for a request only if it is not being deleted, names no remote request yet, and its
  -- template is there with the template name and version that it asks for.
  pub process_remote :
      (fpr : Request)
      → (w.contains_finalizer fpr.finalizers focom_finalizer ≡ false
          → any is_remote (process w fpr).calls ≡ false)
        × (fpr.deleted ≡ true
              ⊎ (fpr.status.remote_name ≢ "" ⊎ (is_aligned fpr (template_of fpr) ≡ false))
            → any is_creation (process w fpr).calls ≡ false)
  unfolding process ensure_finalizer validate_template_alignment
  process_remote fpr =
      let aligned =
        is_none-check_template_info fpr (fpr.template_name <> "-" <> fpr.template_version)
          (template_of fpr) in
      let deletion = no_remote-handle_deletion fpr in
      (
        λ h. ground (arith, deletion.0 h),
        elim [
          | inl gone ↦ ground (arith, deletion.1)
          | inr h ↦
              let creates =
                no_creation-with_alignment fpr (validate_template_alignment w fpr)
                  (elim h [ inl named ↦ inl named | inr wrong ↦ inr (aligned ∙ wrong) ]) in
              ground (arith, deletion.1, creates)
        ],
      )

  abbrev pub poll_failure : Request → Fault → Reconciled w
  poll_failure fpr e = stop w none (
      status_updated (
        set_status w fpr "failed"
          ("poll error: " <> w.text (w.errorf ("error fetching remote CR: " <> w.text e))))
      ∷ [])

  after_poll-poll_answer :
      (fpr : Request) (e : Fault)
      → w.is_not_found e ≡ false
      → finish w (after_poll w fpr (poll_answer w (err e))) ≡ poll_failure fpr e
  unfolding finish after_poll poll_answer
  after_poll-poll_answer fpr e h = rw h refl

  with_client-poll :
      (fpr : Request) (c : Client)
      → fpr.status.remote_name ≢ ""
      → with_client w fpr (ok c)
        ≡ finish w (after_poll w fpr (poll_answer w (w.remote_get c fpr.status.remote_name)))
  unfolding with_client ensure_remote_resource poll_remote_provisioning_request
  with_client-poll fpr c h = ground arith

  with_alignment-none :
      (fpr : Request) (e : Option Fault)
      → is_none e ≡ true
      → with_alignment w fpr e ≡ with_client w fpr (build_remote_client w fpr)
  unfolding with_alignment
  with_alignment-none fpr none h = refl
  with_alignment-none fpr (some e) h = cc

  -- A failed poll of the remote request is written into the status, and the reconciliation ends
  -- without an error and without another try, whether or not the status could be written.
  pub process_poll_error :
      (fpr : Request) (c : Client) (e : Fault)
      → fpr.deleted ≡ false
      → w.contains_finalizer fpr.finalizers focom_finalizer ≡ true
      → is_aligned fpr (template_of fpr) ≡ true
      → build_remote_client w fpr ≡ ok c
      → fpr.status.remote_name ≢ ""
      → w.remote_get c fpr.status.remote_name ≡ err e
      → w.is_not_found e ≡ false
      → process w fpr ≡ poll_failure fpr e
  unfolding process ensure_finalizer validate_template_alignment
  process_poll_error fpr c e alive held aligned client named get unavailable =
      let valid =
        is_none-check_template_info fpr (fpr.template_name <> "-" <> fpr.template_version)
          (template_of fpr) in
      let polled : with_client w fpr (build_remote_client w fpr) ≡ poll_failure fpr e =
        rw client
          (with_client-poll fpr c named ∙ rw get (after_poll-poll_answer fpr e unavailable)) in
      let checked = with_alignment-none fpr (validate_template_alignment w fpr) (valid ∙ aligned) in
      ground (arith, checked ∙ polled)
