-- ===== src/Approval/Laws.antt =====
-- The approval controller writes exactly where its policies are met.
use nephio.Base.{
  ◌≢◌, String, ◌≡◌, refl, ℕ, Bool, true, false, not, ◌&&◌, ◌||◌, Option, none, some, List, [], ◌∷◌,
  Result, ok, err, ◌==◌, string_eq, if◌then◌else◌, any, arith, leb, subst, sym,
}
use nephio.Base.Dict.{lookup}
use nephio.Porch.{World, PackageRevision, ℤ, pos, negsuc, package_variant_ready}
use nephio.Approval.{
  delay_annotation_name, policy_annotation_name, is_greater, Call, event, propose, approve,
  should_process, check_delay, parsed_delay, annotated_delay, manage_delay, no_published, by_list,
  policy_of, proceed, policy_initial, write, by_delay, by_approve, by_policy, by_variant_ready,
  process, by_read, reconcile,
}

abbrev pub writes : List Call → List Call
writes [] = []
writes (event t r m ∷ cs) = writes cs
writes (propose pr ∷ cs) = propose pr ∷ writes cs
writes (approve ns n l ∷ cs) = approve ns n l ∷ writes cs

module _ (w : World) where
  open w use {Fault}

  abbrev is_true : Result Fault Bool → Bool
  is_true (ok b) = b
  is_true (err e) = false

  -- The delay of a revision is over: there is none, or the age is greater than it, or it is 0.
  abbrev is_past : ℕ → Result Fault ℤ → Bool
  is_past creation (err e) = false
  is_past creation (ok (negsuc n)) = false
  is_past creation (ok (pos n)) = is_greater (w.since creation) (pos n) || leb n 0

  abbrev is_over : ℕ → Option String → Bool
  is_over creation none = true
  is_over creation (some delay) = is_past creation (w.parse_duration delay)

  abbrev is_delay_over : PackageRevision → Bool
  is_delay_over pr = is_over pr.creation (lookup delay_annotation_name pr.annotations)

  abbrev is_published_version : PackageRevision → PackageRevision → Bool
  is_published_version pr q =
      w.is_published q.lifecycle
      && (q.repository_name == pr.repository_name && q.package_name == pr.package_name)

  abbrev is_first_version : PackageRevision → Result Fault (List PackageRevision) → Bool
  is_first_version pr (err e) = false
  is_first_version pr (ok prs) = not (any (is_published_version pr) prs)

  abbrev is_policy_met : PackageRevision → String → Bool
  is_policy_met pr policy =
      policy == "always" || (policy == "initial" && is_first_version pr w.list_revisions)

  abbrev is_allowed : PackageRevision → Option String → Bool
  is_allowed pr none = false
  is_allowed pr (some policy) =
      not (w.is_published pr.lifecycle)
      && (is_true (package_variant_ready w pr)
          && (w.is_revision_ready pr.readiness_gates pr.conditions
              && (is_policy_met pr policy && is_delay_over pr)))

  abbrev is_approvable : PackageRevision → Bool
  is_approvable pr = is_allowed pr (lookup policy_annotation_name pr.annotations)

  -- The one write of an approval: a draft is proposed, anything else is approved.
  abbrev the_write : PackageRevision → Call
  the_write pr =
      if pr.lifecycle == w.draft
      then propose (record pr { lifecycle = w.proposed })
      else approve pr.namespace pr.name w.published

  no_published-any :
      (pr : PackageRevision) (prs : List PackageRevision)
      → no_published w pr prs ≡ not (any (is_published_version pr) prs)
  unfolding no_published
  no_published-any pr [] = refl
  no_published-any pr (q ∷ prs) = ground (arith, no_published-any pr prs)

  writes-write : (pr : PackageRevision) → writes (write w pr).calls ≡ the_write pr ∷ []
  unfolding write
  writes-write pr = ground arith

  writes-parsed_delay :
      (pr : PackageRevision) (delay : String) (d : Result Fault ℤ)
      → writes (by_delay w pr (parsed_delay w pr.creation delay d)).calls
        ≡ (if is_past pr.creation d then the_write pr ∷ [] else [])
  unfolding by_delay parsed_delay check_delay is_greater
  writes-parsed_delay pr delay (err e) = refl
  writes-parsed_delay pr delay (ok (negsuc n)) = refl
  writes-parsed_delay pr delay (ok (pos n)) = ground (arith, writes-write pr)

  writes-annotated_delay :
      (pr : PackageRevision) (a : Option String)
      → writes (by_delay w pr (annotated_delay w pr.creation a)).calls
        ≡ (if is_over pr.creation a then the_write pr ∷ [] else [])
  unfolding by_delay annotated_delay is_greater
  writes-annotated_delay pr none = writes-write pr
  writes-annotated_delay pr (some delay) = writes-parsed_delay pr delay (w.parse_duration delay)

  writes-by_list :
      (pr : PackageRevision) (policy : String) (d : ℤ) (r : Result Fault (List PackageRevision))
      → writes (by_approve w pr policy d (by_list w pr r)).calls
        ≡ (if is_first_version pr r && is_delay_over pr then the_write pr ∷ [] else [])
  unfolding by_approve by_list manage_delay
  writes-by_list pr policy d (err e) = refl
  writes-by_list pr policy d (ok prs) = ground (
    arith,
    no_published-any pr prs,
    writes-annotated_delay pr (lookup delay_annotation_name pr.annotations),
  )

  initial≢always : {p : String} → p ≡ "initial" → p ≢ "always"
  initial≢always h k = cc

  writes-by_policy :
      (pr : PackageRevision) (policy : String) (d : ℤ)
      → writes (by_policy w pr policy d).calls
        ≡ (if is_policy_met pr policy && is_delay_over pr then the_write pr ∷ [] else [])
  unfolding by_policy by_approve policy_initial manage_delay
  writes-by_policy pr policy d =
      let delayed = writes-annotated_delay pr (lookup delay_annotation_name pr.annotations) in
      elim (string_eq.dec policy "initial") [
        | yes p ↦
            let n = initial≢always p in
            ground (arith, n, writes-by_list pr policy d w.list_revisions)
        | no n ↦ ground (arith, delayed)
      ]

  writes-by_variant_ready :
      (pr : PackageRevision) (policy : String) (d : ℤ) (r : Result Fault Bool)
      → writes (by_variant_ready w pr policy d r).calls ≡ (
          if is_true r
            && (w.is_revision_ready pr.readiness_gates pr.conditions
                && (is_policy_met pr policy && is_delay_over pr))
          then the_write pr ∷ []
          else [])
  unfolding by_variant_ready
  writes-by_variant_ready pr policy d (err e) = refl
  writes-by_variant_ready pr policy d (ok false) = refl
  writes-by_variant_ready pr policy d (ok true) = ground (arith, writes-by_policy pr policy d)

  writes-proceed :
      (pr : PackageRevision) (d : ℤ) (a : Option String)
      → writes (proceed w d pr (policy_of w pr.lifecycle a)).calls
        ≡ (if is_allowed pr a then the_write pr ∷ [] else [])
  unfolding proceed policy_of
  writes-proceed pr d none = ground arith
  writes-proceed pr d (some policy) =
      ground (arith, writes-by_variant_ready pr policy d (package_variant_ready w pr))

  pub writes-reconcile :
      (d : ℤ) (namespace name : String) (pr : PackageRevision)
      → w.get_revision namespace name ≡ ok pr
      → writes (reconcile w d namespace name).calls
        ≡ (if is_approvable pr then the_write pr ∷ [] else [])
  unfolding reconcile by_read process should_process
  writes-reconcile d namespace name pr h =
      subst
        (λ r. writes (by_read w d r).calls ≡ (if is_approvable pr then the_write pr ∷ [] else []))
        (sym h) (writes-proceed pr d (lookup policy_annotation_name pr.annotations))
