-- ===== src/Bootstrap/Packages/Laws.antt =====
-- What is installed of a package (controllers/pkg/reconcilers/bootstrap-packages/reconciler.go).
use nephio.Base.{
  String, ◌≡◌, ◌⊎◌, refl, sym, subst, Bool, true, false, Option, none, some, List, [], ◌∷◌, Result,
  ok, err, inl, inr, Bool-cases, string_eq,
}
use nephio.Base.Dict.{lookup}
use nephio.Bootstrap.{World, Secret, capi_get_cluster_client}
use nephio.Bootstrap.Packages.{
  PackageRevision, Packages, is_staging_package_revision, get_pr_resources, find_cluster_client,
  install, with_client, with_found, with_cluster_name, with_resources, with_staging, with_revision,
  reconcile,
}
use nephio.Bootstrap.Packages.Staging.{
  IsStaging, HasResources, IsStaging-is_staging_package_revision,
  is_staging_package_revision-IsStaging, HasResources-get_pr_resources,
  get_pr_resources-HasResources,
}
use nephio.Bootstrap.Packages.Clients.{
  HasClient, IsReadyClient, HasClient-find_cluster_client, find_cluster_client-HasClient,
  IsReadyClient-capi_get_cluster_client, capi_get_cluster_client-IsReadyClient,
}
use nephio.Bootstrap.Packages.Install.{IsInstalling, install-IsInstalling}

module _ (w : World) (k : Packages w) where
  open w use {Fault, Data, Client}
  open k use {Resource}

  abbrev pub first_cluster_name : List Resource → Option String
  first_cluster_name [] = none
  first_cluster_name (r ∷ rs) = lookup "nephio.org/cluster-name" (k.annotations r)

  -- The revision is published in a staging repository, the resources are its own, and the client is
  -- that of the cluster that the first of them names.
  abbrev pub Cluster : List Resource → Client → Type 0
  Cluster rs c =
      (cluster_name : String) × (secret : Secret Data) × (first_cluster_name rs ≡ some cluster_name)
      × HasClient w k cluster_name secret
      × IsReadyClient w k secret c

  abbrev pub IsStaged : String → String → List Resource → Client → Type 0
  IsStaged namespace name rs c =
      (cr : PackageRevision) × (k.get_revision namespace name ≡ ok cr)
      × IsStaging w k cr.repository_name
      × (k.lifecycle_is_published cr.lifecycle ≡ true)
      × HasResources w k namespace name rs
      × Cluster rs c

  with_client-cases :
      (rs : List Resource) (r : Result Fault (Option Client))
      → ((with_client w k rs r).calls ≡ [])
        ⊎ ((c : Client) × (r ≡ ok (some c)) × IsInstalling w k c rs (with_client w k rs r))
  with_client-cases rs (err e) = inl refl
  with_client-cases rs (ok none) = inl refl
  with_client-cases rs (ok (some c)) = inr (c, refl, install-IsInstalling w k c rs)

  with_found-cases :
      (cluster_name : String) (rs : List Resource) (r : Result Fault (Option (Secret Data)))
      → ((with_found w k cluster_name rs r).calls ≡ [])
        ⊎ ((secret : Secret Data) × (c : Client) × (r ≡ ok (some secret))
            × (capi_get_cluster_client w secret ≡ ok (some c))
            × IsInstalling w k c rs (with_found w k cluster_name rs r))
  with_found-cases cluster_name rs (err e) = inl refl
  with_found-cases cluster_name rs (ok none) = inl refl
  with_found-cases cluster_name rs (ok (some secret)) =
      elim (with_client-cases rs (capi_get_cluster_client w secret)) [
        | inl nothing ↦ inl nothing
        | inr (c, made, installing) ↦ inr (secret, c, refl, made, installing)
      ]

  with_cluster_name-cases :
      (rs : List Resource) (o : Option String)
      → first_cluster_name rs ≡ o
      → ((with_cluster_name w k rs o).calls ≡ [])
        ⊎ ((c : Client) × Cluster rs c × IsInstalling w k c rs (with_cluster_name w k rs o))
  with_cluster_name-cases rs none h = inl refl
  with_cluster_name-cases rs (some cluster_name) h =
      elim (with_found-cases cluster_name rs (find_cluster_client w k cluster_name)) [
        | inl nothing ↦ inl nothing
        | inr (secret, c, found, made, installing) ↦ inr (
          c,
          (
            cluster_name,
            secret,
            h,
            HasClient-find_cluster_client w k cluster_name secret found,
            IsReadyClient-capi_get_cluster_client w k secret c made,
          ),
          installing,
        )
      ]

  with_resources-cases :
      (r : Result Fault (List Resource))
      → ((with_resources w k r).calls ≡ [])
        ⊎ ((rs : List Resource) × (c : Client) × (r ≡ ok rs)
            × Cluster rs c
            × IsInstalling w k c rs (with_resources w k r))
  unfolding with_resources
  with_resources-cases (err e) = inl refl
  with_resources-cases (ok []) = inl refl
  with_resources-cases (ok (r ∷ rs)) =
      elim (with_cluster_name-cases (r ∷ rs) (first_cluster_name (r ∷ rs)) refl) [
        | inl nothing ↦ inl nothing
        | inr (c, cluster, installing) ↦ inr (r ∷ rs, c, refl, cluster, installing)
      ]

  with_staging-cases :
      (namespace name : String) (cr : PackageRevision) (r : Result Fault Bool) (published : Bool)
      → k.get_revision namespace name ≡ ok cr
      → is_staging_package_revision w k cr.repository_name ≡ r
      → k.lifecycle_is_published cr.lifecycle ≡ published
      → ((with_staging w k namespace name cr r).calls ≡ [])
        ⊎ ((rs : List Resource) × (c : Client) × IsStaged namespace name rs c
            × IsInstalling w k c rs (with_staging w k namespace name cr r))
  with_staging-cases namespace name cr (err e) published there staging life = inl refl
  with_staging-cases namespace name cr (ok false) published there staging life = inl refl
  with_staging-cases namespace name cr (ok true) false there staging life = rw life (inl refl)
  with_staging-cases namespace name cr (ok true) true there staging life =
      rw life (elim (with_resources-cases (get_pr_resources w k namespace name)) [
        | inl nothing ↦ inl nothing
        | inr (rs, c, own, cluster, installing) ↦ inr (
          rs,
          c,
          (
            cr,
            there,
            IsStaging-is_staging_package_revision w k cr.repository_name staging,
            life,
            HasResources-get_pr_resources w k namespace name rs own,
            cluster,
          ),
          installing,
        )
      ])

  with_revision-cases :
      (namespace name : String) (r : Result Fault PackageRevision)
      → k.get_revision namespace name ≡ r
      → ((with_revision w k namespace name r).calls ≡ [])
        ⊎ ((rs : List Resource) × (c : Client) × IsStaged namespace name rs c
            × IsInstalling w k c rs (with_revision w k namespace name r))
  unfolding with_revision
  with_revision-cases namespace name (err e) h = elim (Bool-cases (w.is_not_found e)) [
    | inl x ↦ inl (rw x refl)
    | inr x ↦ inl (rw x refl)
  ]
  with_revision-cases namespace name (ok cr) h =
      with_staging-cases namespace name cr (is_staging_package_revision w k cr.repository_name)
        (k.lifecycle_is_published cr.lifecycle) h refl refl

  with_resources-Cluster :
      (rs : List Resource) (c : Client)
      → Cluster rs c
      → with_resources w k (ok rs) ≡ install w k c rs
  unfolding with_resources
  with_resources-Cluster [] c (cluster_name, secret, names, found, made) = cc
  with_resources-Cluster (r ∷ rs) c (cluster_name, secret, names, found, made) =
      rw
        (
          names,
          find_cluster_client-HasClient w k cluster_name secret found,
          capi_get_cluster_client-IsReadyClient w k secret c made,
        )
        refl

  reconcile-IsStaged :
      (namespace name : String) (rs : List Resource) (c : Client)
      → IsStaged namespace name rs c
      → reconcile w k namespace name ≡ install w k c rs
  unfolding reconcile with_revision
  reconcile-IsStaged namespace name rs c (cr, there, staging, life, own, cluster) =
      rw
        (
          there,
          is_staging_package_revision-IsStaging w k cr.repository_name staging,
          life,
          get_pr_resources-HasResources w k namespace name rs own,
        )
        (with_resources-Cluster rs c cluster)

  -- Of a revision that is published, in a repository with the annotation of staging, the resources of
  -- the YAML files and the Kptfile that are not marked as local and can be read are applied to the
  -- cluster of the first secret that fits the name that the first resource gives, if the cluster
  -- is ready: all of them, with success and no error, or in their order up to the first that
  -- fails, and then with an error. In every other case nothing is applied.
  pub reconcile_installs :
      (namespace name : String) (rs : List Resource) (c : Client)
      → (IsStaged namespace name rs c → IsInstalling w k c rs (reconcile w k namespace name))
        × (((reconcile w k namespace name).calls ≡ [])
            ⊎ ((os : List Resource) × (d : Client) × IsStaged namespace name os d
                × IsInstalling w k d os (reconcile w k namespace name)))
  unfolding reconcile
  reconcile_installs namespace name rs c = (
    λ staged.
        subst (IsInstalling w k c rs) (sym (reconcile-IsStaged namespace name rs c staged))
          (install-IsInstalling w k c rs),
    with_revision-cases namespace name (k.get_revision namespace name) refl,
  )
