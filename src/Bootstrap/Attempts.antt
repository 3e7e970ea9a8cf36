-- ===== src/Bootstrap/Attempts.antt =====
-- One attempt to install a secret (controllers/pkg/reconcilers/bootstrap-secret/reconciler.go).
use nephio.Base.{
  String, ◌≡◌, ◌↔◌, refl, sym, ap, subst, ◌∙◌, Bool, ◌&&◌, Option, none, some, List, [], ◌∷◌,
  Result, ok, err, if◌then◌else◌, arith, inl, inr, Bool-cases,
}
use nephio.Bootstrap.{
  World, Secret, Applied, contains, get_cluster_client, capi_get_cluster_client, remote_namespace,
  newcr, Attempt, installed, after_apply, if_namespace, apply_to, with_client, search, with_secrets,
}

module _ (w : World) where
  open w use {Fault, Data, Client}

  abbrev pub is_candidate : String → Secret Data → Bool
  is_candidate name secret = contains secret.name name && get_cluster_client w secret

  -- The first secret of a cluster whose name contains the name.
  abbrev pub first_candidate : String → List (Secret Data) → Option (Secret Data)
  first_candidate name [] = none
  first_candidate name (s ∷ ss) = if is_candidate name s then some s else first_candidate name ss

  abbrev pub listed : Result Fault (List (Secret Data)) → List (Secret Data)
  listed (err e) = []
  listed (ok secrets) = secrets

  -- The copy for the name was applied, with the client of the cluster, which is ready.
  abbrev pub Holds :
      Secret Data → String → Result Fault (Option Client) → Applied Client Data → Type 0
  Holds cr name r call =
      (r ≡ ok (some call.client))
      × (w.get_namespace call.client (remote_namespace w cr) ≡ none)
      × (call.secret ≡ newcr w cr name)
      × (w.apply call.client call.secret ≡ none)

  abbrev pub IsInstalled : Secret Data → String → List (Secret Data) → Applied Client Data → Type 0
  IsInstalled cr name secrets call =
      (s : Secret Data) × (first_candidate name secrets ≡ some s)
      × Holds cr name (capi_get_cluster_client w s) call

  after_apply-installed :
      (name : String) (asked call : Applied Client Data) (o : Option Fault)
      → after_apply w name asked o ≡ installed call
      → (asked ≡ call) × (o ≡ none)
  after_apply-installed name asked call none h = (cc, refl)
  after_apply-installed name asked call (some e) h = cc

  if_namespace-installed :
      (cr : Secret Data) (o : Option Fault) (rest : Attempt w) (call : Applied Client Data)
      → if_namespace w cr o rest ≡ installed call
      → (o ≡ none) × (rest ≡ installed call)
  if_namespace-installed cr none rest call h = (refl, h)
  if_namespace-installed cr (some e) rest call h = elim (Bool-cases (w.is_not_found e)) [
    | inl k ↦ ground arith
    | inr k ↦ ground arith
  ]

  with_client-installed :
      (cr : Secret Data) (name : String) (r : Result Fault (Option Client))
      (call : Applied Client Data)
      → with_client w cr name r ≡ installed call
      → Holds cr name r call
  unfolding apply_to
  with_client-installed cr name (err e) call h = cc
  with_client-installed cr name (ok none) call h = cc
  with_client-installed cr name (ok (some c)) call h =
      let sent = newcr w cr name in
      let asked : Applied Client Data = record { client = c; secret = sent } in
      let (there, h') =
        if_namespace-installed cr (w.get_namespace c (remote_namespace w cr)) (apply_to w cr name c)
          call h in
      let (same, applied) = after_apply-installed name asked call (w.apply c sent) h' in
      let to : c ≡ call.client = ap (λ a. a.client) same in
      let with_it : sent ≡ call.secret = ap (λ a. a.secret) same in
      (
        ap (λ x. ok (some x)) to,
        subst (λ x. w.get_namespace x (remote_namespace w cr) ≡ none) to there,
        sym with_it,
        subst (λ a. w.apply a.client a.secret ≡ none) same applied,
      )

  installed-with_client :
      (cr : Secret Data) (name : String) (r : Result Fault (Option Client))
      (call : Applied Client Data)
      → Holds cr name r call
      → with_client w cr name r ≡ installed call
  unfolding apply_to
  installed-with_client cr name r call (from, there, sent, applied) =
      ap (with_client w cr name) from
      ∙ ap (λ o. if_namespace w cr o (apply_to w cr name call.client)) there
      ∙ ap
          (λ x.
            after_apply w name (record { client = call.client; secret = x })
              (w.apply call.client x))
          (sym sent)
      ∙ ap (after_apply w name call) applied

  search-installed :
      (cr : Secret Data) (name : String) (secrets : List (Secret Data)) (call : Applied Client Data)
      → (search w cr name secrets ≡ installed call) ↔ IsInstalled cr name secrets call
  unfolding search
  search-installed cr name [] call = (λ h. cc, λ h. cc)
  search-installed cr name (s ∷ ss) call = elim (Bool-cases (is_candidate name s)) [
    | inl e ↦
        let taken : search w cr name (s ∷ ss)
            ≡ with_client w cr name (capi_get_cluster_client w s) =
          rw e refl in
        (
          λ h. (
            s,
            rw e refl,
            with_client-installed cr name (capi_get_cluster_client w s) call (sym taken ∙ h),
          ),
          λ (x, first, holds).
              let same : x ≡ s = ground arith in
              taken
              ∙ installed-with_client cr name (capi_get_cluster_client w s) call
                  (subst (λ x'. Holds cr name (capi_get_cluster_client w x') call) same holds),
        )
    | inr e ↦
        let later : search w cr name (s ∷ ss) ≡ search w cr name ss = rw e refl in
        let first : first_candidate name (s ∷ ss) ≡ first_candidate name ss = rw e refl in
        let (to, from) = search-installed cr name ss call in
        (
          λ h. let (x, found, holds) = to (sym later ∙ h) in (x, first ∙ found, holds),
          λ (x, found, holds). later ∙ from (x, sym first ∙ found, holds),
        )
  ]

  pub with_secrets-installed :
      (cr : Secret Data) (name : String) (r : Result Fault (List (Secret Data)))
      (call : Applied Client Data)
      → (with_secrets w cr name r ≡ installed call) ↔ IsInstalled cr name (listed r) call
  with_secrets-installed cr name (err e) call = (λ h. cc, λ h. cc)
  with_secrets-installed cr name (ok secrets) call = search-installed cr name secrets call
