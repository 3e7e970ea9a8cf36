-- ===== src/Approval.antt =====
-- controllers/pkg/reconcilers/approval/reconciler.go: the approval controller. A reconciliation is
-- a function of the API server's answers that gives its result with the calls that it makes: the
-- events it records and its one write.
pub mod Laws
use nephio.Base.{
  String, ◌<>◌, ℕ, zero, suc, ◌≤◌, Bool, true, false, not, ◌&&◌, ◌||◌, Option, none, some, List, [],
  ◌∷◌, Result, ok, err, ◌==◌, string_eq, if◌then◌else◌, is_some, leb,
}
use nephio.Base.Dict.{lookup}
use nephio.Porch.{
  World, PackageRevision, ℤ, pos, negsuc, package_variant_ready, update_package_revision_approval,
}

abbrev pub delay_annotation_name : String
delay_annotation_name = "approval.nephio.org/delay"

abbrev pub policy_annotation_name : String
policy_annotation_name = "approval.nephio.org/policy"

-- `a > b`
unfoldable pub is_greater : ℤ → ℤ → Bool
is_greater (pos a) (pos b) = not (leb a b)
is_greater (pos a) (negsuc b) = true
is_greater (negsuc a) (pos b) = false
is_greater (negsuc a) (negsuc b) = not (leb b a)

-- `ctrl.Result`
pub record ReconcileResult : Type 0 where
  pub requeue_after : ℤ

abbrev pub no_requeue : ReconcileResult
no_requeue = record { requeue_after = pos 0 }

pub data EventType : Type 0 where
  warning normal : EventType

pub data Call : Type 0 where
  event : EventType → String → String → Call
  propose : PackageRevision → Call
  approve : String → String → String → Call

module _ (w : World) where
  open w use {Fault}

  pub record Reconciled : Type 0 where
    pub result : ReconcileResult
    pub error : Option Fault
    pub calls : List Call

  unfoldable pub policy_of : String → Option String → String × Bool
  policy_of lifecycle none = ("", not (w.is_published lifecycle) && false)
  policy_of lifecycle (some policy) = (policy, not (w.is_published lifecycle) && true)

  -- `shouldProcess`
  unfoldable pub should_process : PackageRevision → String × Bool
  unfolding policy_of
  should_process pr = policy_of pr.lifecycle (lookup policy_annotation_name pr.annotations)

  unfoldable pub check_delay : ℕ → String → ℤ → Result Fault ℤ
  check_delay creation delay (negsuc n) =
      err (w.errorf ("invalid delay " <> w.quote delay <> "; delay must be 0 or more"))
  check_delay creation delay (pos n) =
      if is_greater (w.since creation) (pos n) then ok (pos 0) else ok (pos n)

  unfoldable pub parsed_delay : ℕ → String → Result Fault ℤ → Result Fault ℤ
  unfolding check_delay
  parsed_delay creation delay (err e) = err e
  parsed_delay creation delay (ok d) = check_delay creation delay d

  -- By the delay annotation.
  unfoldable pub annotated_delay : ℕ → Option String → Result Fault ℤ
  unfolding parsed_delay
  annotated_delay creation none = ok (pos 0)
  annotated_delay creation (some delay) = parsed_delay creation delay (w.parse_duration delay)

  -- `manageDelay`
  unfoldable pub manage_delay : PackageRevision → Result Fault ℤ
  unfolding annotated_delay
  manage_delay pr = annotated_delay pr.creation (lookup delay_annotation_name pr.annotations)

  -- The loop of `policyInitial`.
  unfoldable pub no_published : PackageRevision → List PackageRevision → Bool
  no_published pr [] = true
  no_published pr (pr2 ∷ prs) =
      let rest = no_published pr prs in
      if not (w.is_published pr2.lifecycle)
      then rest
      else if pr2.repository_name == pr.repository_name && pr2.package_name == pr.package_name
      then false
      else rest

  unfoldable pub by_list : PackageRevision → Result Fault (List PackageRevision) → Result Fault Bool
  unfolding no_published
  by_list pr (err e) = err e
  by_list pr (ok prs) = ok (no_published pr prs)

  -- `policyInitial`
  unfoldable pub policy_initial : PackageRevision → Result Fault Bool
  unfolding by_list
  policy_initial pr = by_list pr w.list_revisions

  abbrev warn : String → String → Reconciled
  warn reason message = record {
    result = no_requeue;
    error = none;
    calls = event warning reason message ∷ [];
  }

  abbrev wait : ℤ → String → Reconciled
  wait d message = record {
    result = record { requeue_after = d };
    error = none;
    calls = event normal "NotApproved" message ∷ [];
  }

  -- The event behind the write.
  abbrev report : PackageRevision → Call → String → String → Option Fault → Reconciled
  report pr call action reason (some e) = record {
    result = no_requeue;
    error = some e;
    calls = call ∷ event warning "Error" ("error " <> action <> ": " <> w.text e) ∷ [];
  }
  report pr call action reason none = record {
    result = no_requeue;
    error = none;
    calls =
        call
        ∷ event normal reason
            ("all approval policies met for " <> pr.package_name <> ": " <> reason)
        ∷ [];
  }

  -- `Reconcile` where all policies are met.
  unfoldable pub write : PackageRevision → Reconciled
  unfolding update_package_revision_approval
  write pr =
      let moved : PackageRevision = record pr { lifecycle = w.proposed } in
      if pr.lifecycle == w.draft
      then report moved (propose moved) "proposing" "Proposed" (w.update moved)
      else report pr (approve pr.namespace pr.name w.published) "approving" "Approved"
          (update_package_revision_approval w pr.namespace pr.name w.published)

  unfoldable pub by_delay : PackageRevision → Result Fault ℤ → Reconciled
  unfolding write is_greater
  by_delay pr (err e) =
      warn "Error" ("error processing " <> w.quote delay_annotation_name <> ": " <> w.text e)
  by_delay pr (ok requeue) =
      if is_greater requeue (pos 0) then wait requeue "delay time not met" else write pr

  unfoldable pub by_approve : PackageRevision → String → ℤ → Result Fault Bool → Reconciled
  unfolding by_delay manage_delay
  by_approve pr policy d (err e) =
      warn "Error" ("error evaluating approval policy " <> w.quote policy <> ": " <> w.text e)
  by_approve pr policy d (ok false) =
      wait d ("approval policy " <> w.quote policy <> " not met for " <> pr.package_name)
  by_approve pr policy d (ok true) = by_delay pr (manage_delay pr)

  -- The `switch` on the policy.
  unfoldable pub by_policy : PackageRevision → String → ℤ → Reconciled
  unfolding by_approve policy_initial
  by_policy pr policy d =
      if policy == "initial"
      then by_approve pr policy d (policy_initial pr)
      else if policy == "always"
      then by_approve pr policy d (ok true)
      else warn "InvalidPolicy"
          ("invalid " <> w.quote policy_annotation_name <> " annotation value: " <> w.quote policy)

  unfoldable pub by_variant_ready : PackageRevision → String → ℤ → Result Fault Bool → Reconciled
  unfolding by_policy
  by_variant_ready pr policy d (err e) =
      warn "Error" ("could not get owning PackageVariant: " <> w.text e)
  by_variant_ready pr policy d (ok false) =
      wait d ("owning PackageVariant for " <> pr.package_name <> " not Ready")
  by_variant_ready pr policy d (ok true) =
      if not (w.is_revision_ready pr.readiness_gates pr.conditions)
      then wait d
          ("readiness gates not met for " <> pr.package_name <> ", in repo " <> pr.repository_name)
      else by_policy pr policy d

  abbrev nothing : Option Fault → Reconciled
  nothing e = record { result = no_requeue; error = e; calls = [] }

  unfoldable pub proceed : ℤ → PackageRevision → String × Bool → Reconciled
  unfolding by_variant_ready package_variant_ready
  proceed d pr (policy, should) =
      if not should then nothing none else by_variant_ready pr policy d (package_variant_ready w pr)

  unfoldable pub process : ℤ → PackageRevision → Reconciled
  unfolding proceed should_process
  process d pr = proceed d pr (should_process pr)

  unfoldable pub by_read : ℤ → Result Fault PackageRevision → Reconciled
  unfolding process
  by_read d (err e) =
      if w.is_not_found e then nothing none else nothing (some (w.wrap e "cannot get resource"))
  by_read d (ok pr) = process d pr

  -- `Reconcile`, with the controller's `requeueDuration`.
  unfoldable pub reconcile : ℤ → String → String → Reconciled
  unfolding by_read
  reconcile d namespace name = by_read d (w.get_revision namespace name)
