-- ===== src/Bootstrap/Installed.antt =====
-- Where the secrets are installed (controllers/pkg/reconcilers/bootstrap-secret/reconciler.go).
use nephio.Base.{
  String, ◌≡◌, ◌↔◌, refl, sym, ap, subst, ◌∙◌, Bool, true, false, ◌&&◌, Option, none, some, List,
  [], ◌∷◌, Result, ok, err, nat_beq, is_some, not, inl, inr, Bool-cases,
}
use nephio.Bootstrap.{
  World, Secret, Applied, capi_get_cluster_client, remote_namespace, newcr, Attempt, installed,
  stop, Reconciled, after_apply, if_namespace, apply_to, with_client, search, with_secrets, proceed,
  each_cluster, is_relevant, cluster_names, reconcile, with_secret,
}
use nephio.Bootstrap.Attempts.{is_candidate, listed, IsInstalled, with_secrets-installed}

module _ (w : World) where
  open w use {Fault, Data, Client}

  -- One application for each cluster, in their order.
  abbrev pub AllInstalled : Secret Data → List String → List (Applied Client Data) → Type 0
  AllInstalled cr [] [] = Unit
  AllInstalled cr (name ∷ names) (call ∷ calls) =
      IsInstalled w cr name (listed w w.list) call × AllInstalled cr names calls
  AllInstalled cr _ _ = ⊥

  abbrev pub ended_with : List (Applied Client Data) → Reconciled w
  ended_with calls = record { requeue_after = 0; error = none; calls = calls }

  -- Whether an attempt ends the reconciliation without an error and without another try.
  abbrev is_over : Attempt w → Bool
  is_over (stop r) = nat_beq r.requeue_after 0 && not (is_some r.error)
  is_over (installed call) = false

  is_over-after_apply :
      (name : String) (call : Applied Client Data) (o : Option Fault)
      → is_over (after_apply w name call o) ≡ false
  is_over-after_apply name call none = refl
  is_over-after_apply name call (some e) = refl

  is_over-if_namespace :
      (cr : Secret Data) (o : Option Fault) (rest : Attempt w)
      → is_over rest ≡ false
      → is_over (if_namespace w cr o rest) ≡ false
  is_over-if_namespace cr none rest h = h
  is_over-if_namespace cr (some e) rest h = elim (Bool-cases (w.is_not_found e)) [
    | inl k ↦ rw k refl
    | inr k ↦ rw k refl
  ]

  is_over-with_client :
      (cr : Secret Data) (name : String) (r : Result Fault (Option Client))
      → is_over (with_client w cr name r) ≡ false
  unfolding apply_to
  is_over-with_client cr name (err e) = refl
  is_over-with_client cr name (ok none) = refl
  is_over-with_client cr name (ok (some c)) =
      is_over-if_namespace cr (w.get_namespace c (remote_namespace w cr)) (apply_to w cr name c) (
        is_over-after_apply name (record { client = c; secret = newcr w cr name })
          (w.apply c (newcr w cr name)))

  is_over-search :
      (cr : Secret Data) (name : String) (secrets : List (Secret Data))
      → is_over (search w cr name secrets) ≡ false
  unfolding search
  is_over-search cr name [] = refl
  is_over-search cr name (s ∷ ss) = elim (Bool-cases (is_candidate w name s)) [
    | inl e ↦ rw e (is_over-with_client cr name (capi_get_cluster_client w s))
    | inr e ↦ rw e (is_over-search cr name ss)
  ]

  is_over-with_secrets :
      (cr : Secret Data) (name : String) (r : Result Fault (List (Secret Data)))
      → is_over (with_secrets w cr name r) ≡ false
  is_over-with_secrets cr name (err e) = refl
  is_over-with_secrets cr name (ok secrets) = is_over-search cr name secrets

  abbrev with_calls : List (Applied Client Data) → Reconciled w → Reconciled w
  with_calls calls r = record r { calls = calls }

  -- One step of the loop, from the attempt for its name.
  proceed-ended :
      (a : Attempt w) (rest : Reconciled w) (calls : List (Applied Client Data))
      → is_over a ≡ false
      → proceed w a rest ≡ ended_with calls
      → (call : Applied Client Data) × (behind : List (Applied Client Data)) × (a ≡ installed call)
        × (rest ≡ ended_with behind)
        × (calls ≡ call ∷ behind)
  proceed-ended (stop r) rest calls h k =
      let over : (nat_beq r.requeue_after 0 && not (is_some r.error)) ≡ true =
        ap (λ x. nat_beq x.requeue_after 0 && not (is_some x.error)) k in
      cc
  proceed-ended (installed call) rest calls h k =
      (call, rest.calls, refl, ap (with_calls rest.calls) k, sym (ap (λ x. x.calls) k))

  each_cluster-AllInstalled :
      (cr : Secret Data) (names : List String) (calls : List (Applied Client Data))
      → each_cluster w cr names ≡ ended_with calls
      → AllInstalled cr names calls
  unfolding each_cluster
  each_cluster-AllInstalled cr [] calls h = subst (AllInstalled cr []) (ap (λ x. x.calls) h) tt
  each_cluster-AllInstalled cr (name ∷ names) calls h =
      let (call, behind, first, later, split) =
        proceed-ended (with_secrets w cr name w.list) (each_cluster w cr names) calls
          (is_over-with_secrets cr name w.list) h in
      subst (AllInstalled cr (name ∷ names)) (sym split) (
        (with_secrets-installed w cr name w.list call).0 first,
        each_cluster-AllInstalled cr names behind later,
      )

  AllInstalled-each_cluster :
      (cr : Secret Data) (names : List String) (calls : List (Applied Client Data))
      → AllInstalled cr names calls
      → each_cluster w cr names ≡ ended_with calls
  unfolding each_cluster
  AllInstalled-each_cluster cr [] [] h = refl
  AllInstalled-each_cluster cr [] (call ∷ calls) h = elim h [ ]
  AllInstalled-each_cluster cr (name ∷ names) [] h = elim h [ ]
  AllInstalled-each_cluster cr (name ∷ names) (call ∷ calls) (first, later) =
      rw
        (
          (with_secrets-installed w cr name w.list call).1 first,
          AllInstalled-each_cluster cr names calls later,
        )
        refl

  -- For a secret that is there, is not being deleted and is to be installed in workload clusters:
  -- the reconciliation ends with no error and no other try, after the given applications,
  -- exactly if for each name of the annotation, in their order, the first secret of a cluster whose
  -- name contains the name is that of a ready cluster, the remote namespace is there, and the
  -- copy for the name was applied there with success; and these are the applications.
  pub reconcile_lem :
      (namespace name : String) (cr : Secret Data) (calls : List (Applied Client Data))
      → w.get namespace name ≡ ok cr
      → cr.deleted ≡ false
      → is_relevant w cr ≡ true
      → (reconcile w namespace name ≡ ended_with calls) ↔ AllInstalled cr (cluster_names w cr) calls
  unfolding reconcile with_secret
  reconcile_lem namespace name cr calls there kept relevant =
      let ran : reconcile w namespace name ≡ each_cluster w cr (cluster_names w cr) =
        rw (there, kept, relevant) refl in
      (
        λ h. each_cluster-AllInstalled cr (cluster_names w cr) calls (sym ran ∙ h),
        λ h. ran ∙ AllInstalled-each_cluster cr (cluster_names w cr) calls h,
      )
