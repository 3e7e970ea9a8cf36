-- ===== src/Bootstrap/Packages/Clients.antt =====
-- Which cluster a package is installed in
-- (controllers/pkg/reconcilers/bootstrap-packages/reconciler.go, controllers/pkg/cluster).
use nephio.Base.{
  String, ◌≡◌, ◌≢◌, refl, sym, ap, ◌∙◌, true, ◌&&◌, Option, none, some, List, [], ◌∷◌, Result, ok,
  err, ◌==◌, string_eq, any, arith, inl, inr, Bool-cases, Result-cases, >>=-eq-ok, ok-injective,
}
use nephio.Bootstrap.{
  World, Secret, ClusterCondition, trim_suffix, is_ready, get_cluster_name, is_capi_cluster_ready,
  capi_get_cluster_client,
}
use nephio.Bootstrap.Attempts.{first_candidate}
use nephio.Bootstrap.Packages.{Packages, search_client, find_cluster_client}

module _ (w : World) (k : Packages w) where
  open w use {Fault, Data, Client}
  open k use {Node, Resource}

  pub search_client-first_candidate :
      (name : String) (secrets : List (Secret Data))
      → search_client w k name secrets ≡ first_candidate w name secrets
  unfolding search_client
  search_client-first_candidate name [] = refl
  search_client-first_candidate name (s ∷ ss) =
      ground (arith, search_client-first_candidate name ss)

  -- The first secret of a cluster whose name contains the name.
  abbrev pub HasClient : String → Secret Data → Type 0
  HasClient name secret =
      (secrets : List (Secret Data)) × (w.list ≡ ok secrets)
      × (first_candidate w name secrets ≡ some secret)

  pub HasClient-find_cluster_client :
      (name : String) (secret : Secret Data)
      → find_cluster_client w k name ≡ ok (some secret)
      → HasClient name secret
  unfolding find_cluster_client
  HasClient-find_cluster_client name secret h =
      let (secrets, listed, e) = >>=-eq-ok w.list _ h in
      (secrets, listed, sym (search_client-first_candidate name secrets) ∙ ok-injective e)

  pub find_cluster_client-HasClient :
      (name : String) (secret : Secret Data)
      → HasClient name secret
      → find_cluster_client w k name ≡ ok (some secret)
  unfolding find_cluster_client
  find_cluster_client-HasClient name secret (secrets, listed, first) =
      rw listed (ap (λ x. ok x) (search_client-first_candidate name secrets ∙ first))

  -- The cluster of the secret has a true condition of readiness, and the secret makes the client.
  abbrev pub IsReadyClient : Secret Data → Client → Type 0
  IsReadyClient secret c =
      (cs : List ClusterCondition) × (w.get_cluster secret.namespace
          (trim_suffix secret.name "-kubeconfig")
        ≡ ok cs)
      × (any (λ x. x.kind == w.ready_condition && x.status == w.condition_true) cs ≡ true)
      × (w.rest_client secret.value ≡ ok c)

  pub is_ready-any :
      (cs : List ClusterCondition)
      → is_ready w cs ≡ any (λ x. x.kind == w.ready_condition && x.status == w.condition_true) cs
  unfolding is_ready
  is_ready-any [] = refl
  is_ready-any (c ∷ cs) = ground (arith, is_ready-any cs)

  pub no_client : (c : Client) → ◌≢◌ {A = Result Fault (Option Client)} (ok none) (ok (some c))
  no_client c h = cc

  pub no_error :
      (f : Fault) (o : Option Client) → ◌≢◌ {A = Result Fault (Option Client)} (err f) (ok o)
  no_error f o h = cc

  pub capi_get_cluster_client-IsReadyClient :
      (secret : Secret Data) (c : Client)
      → IsReadyClient secret c
      → capi_get_cluster_client w secret ≡ ok (some c)
  unfolding capi_get_cluster_client is_capi_cluster_ready get_cluster_name
  capi_get_cluster_client-IsReadyClient secret c (cs, got, ready, made) =
      let ready' : is_ready w cs ≡ true = is_ready-any cs ∙ ready in rw (got, ready', made) refl

  pub IsReadyClient-capi_get_cluster_client :
      (secret : Secret Data) (c : Client)
      → capi_get_cluster_client w secret ≡ ok (some c)
      → IsReadyClient secret c
  unfolding capi_get_cluster_client is_capi_cluster_ready get_cluster_name
  IsReadyClient-capi_get_cluster_client secret c h =
      elim (Result-cases (w.get_cluster secret.namespace (trim_suffix secret.name "-kubeconfig"))) [
        | inr (e, failed) ↦
            let nothing : capi_get_cluster_client w secret ≡ ok none = rw failed refl in
            absurd (no_client c (sym nothing ∙ h))
        | inl (cs, got) ↦ elim (Bool-cases (is_ready w cs)) [
          | inr e ↦
              let nothing : capi_get_cluster_client w secret ≡ ok none = rw (got, e) refl in
              absurd (no_client c (sym nothing ∙ h))
          | inl e ↦ elim (Result-cases (w.rest_client secret.value)) [
            | inr (f, bad) ↦
                let failed : capi_get_cluster_client w secret ≡ err f = rw (got, e, bad) refl in
                absurd (no_error f (some c) (sym failed ∙ h))
            | inl (d, made) ↦
                let client : capi_get_cluster_client w secret ≡ ok (some d) =
                  rw (got, e, made) refl in
                (cs, got, sym (is_ready-any cs) ∙ e, cc)
          ]
        ]
      ]
