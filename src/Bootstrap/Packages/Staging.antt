-- ===== src/Bootstrap/Packages/Staging.antt =====
-- Which packages are staged, and which of their resources are installed
-- (controllers/pkg/reconcilers/bootstrap-packages/reconciler.go).
use nephio.Base.{
  String, ◌≡◌, ◌≢◌, ◌⊎◌, refl, ap, subst, Bool, true, false, Option, none, some, is_some, List, [],
  ◌∷◌, ok, err, ◌==◌, string_eq, if◌then◌else◌, any, arith, inl, inr, Bool-cases, Result-cases,
  >>=-eq-ok, ok-injective,
}
use nephio.Base.Dict.{Dict, lookup}
use nephio.Bootstrap.{World}
use nephio.Bootstrap.Packages.{
  Repository, Packages, staging_repo_names, is_staging_package_revision, included_file_types,
  included, is_true, is_local, with_resource, non_local, filter_non_local_resources,
  get_pr_resources,
}

module _ (w : World) (k : Packages w) where
  open w use {Fault, Data, Client}
  open k use {Node, Resource}

  -- One of the repositories has the name and the annotation of staging.
  abbrev pub HasStaging : String → List Repository → Type 0
  HasStaging name [] = ⊥
  HasStaging name (repo ∷ repos) =
      ((name ≡ repo.name) × (is_some (lookup "nephio.org/staging" repo.annotations) ≡ true))
      ⊎ HasStaging name repos

  -- The resources of a package's nodes: those that are not local and can be read, in their order.
  pub data AreKept : List Node → List Resource → Type 0 where
    kept_nil : AreKept [] []
    kept_local :
        {n : Node} {ns : List Node} {rs : List Resource}
        → lookup "config.kubernetes.io/local-config" (k.node_annotations n) ≡ some "true"
        → AreKept ns rs
        → AreKept (n ∷ ns) rs
    kept_unreadable :
        {n : Node} {ns : List Node} {rs : List Resource} {e : Fault}
        → k.unmarshal n ≡ err e
        → AreKept ns rs
        → AreKept (n ∷ ns) rs
    kept_resource :
        {n : Node} {ns : List Node} {r : Resource} {rs : List Resource}
        → lookup "config.kubernetes.io/local-config" (k.node_annotations n) ≢ some "true"
        → k.unmarshal n ≡ ok r
        → AreKept ns rs
        → AreKept (n ∷ ns) (r ∷ rs)

  abbrev pub is_package_file : String × String → Bool
  is_package_file (path, content) =
      any (λ m. k.is_match m (k.base path)) ("*.yaml" ∷ "*.yml" ∷ "Kptfile" ∷ [])

  abbrev pub package_files : Dict String String → List (String × String)
  package_files [] = []
  package_files (f ∷ fs) = if is_package_file f then f ∷ package_files fs else package_files fs

  -- The package's resources, from its YAML files and its Kptfile.
  abbrev pub HasResources : String → String → List Resource → Type 0
  HasResources namespace name rs =
      (files : Dict String String) × (k.get_pr_resources namespace name ≡ ok files)
      × (nodes : List Node) × (k.parse (package_files files) ≡ ok nodes)
      × AreKept nodes rs

  abbrev pub IsStaging : String → Type 0
  IsStaging name =
      (repos : List Repository) × (k.list_repositories ≡ ok repos) × HasStaging name repos

  HasStaging-staging_repo_names :
      (name : String) (repos : List Repository)
      → any (λ n. name == n) (staging_repo_names w k repos) ≡ true
      → HasStaging name repos
  unfolding staging_repo_names
  HasStaging-staging_repo_names name [] h = cc
  HasStaging-staging_repo_names name (repo ∷ repos) h =
      elim (Bool-cases (is_some (lookup "nephio.org/staging" repo.annotations))) [
        | inr e ↦ inr (HasStaging-staging_repo_names name repos (ground arith))
        | inl e ↦ elim (Bool-cases (name == repo.name)) [
          | inl same ↦ inl (ground arith, e)
          | inr differ ↦ inr (HasStaging-staging_repo_names name repos (ground arith))
        ]
      ]

  staging_repo_names-HasStaging :
      (name : String) (repos : List Repository)
      → HasStaging name repos
      → any (λ n. name == n) (staging_repo_names w k repos) ≡ true
  unfolding staging_repo_names
  staging_repo_names-HasStaging name [] h = elim h [ ]
  staging_repo_names-HasStaging name (repo ∷ repos) (inl (same, e)) = ground arith
  staging_repo_names-HasStaging name (repo ∷ repos) (inr h) =
      ground (arith, staging_repo_names-HasStaging name repos h)

  pub IsStaging-is_staging_package_revision :
      (name : String) → is_staging_package_revision w k name ≡ ok true → IsStaging name
  unfolding is_staging_package_revision
  IsStaging-is_staging_package_revision name h =
      let (repos, listed, e) = >>=-eq-ok k.list_repositories _ h in
      (repos, listed, HasStaging-staging_repo_names name repos (ok-injective e))

  pub is_staging_package_revision-IsStaging :
      (name : String) → IsStaging name → is_staging_package_revision w k name ≡ ok true
  unfolding is_staging_package_revision
  is_staging_package_revision-IsStaging name (repos, listed, h) =
      rw (listed, staging_repo_names-HasStaging name repos h) refl

  is_true-some : (o : Option String) → is_true w k o ≡ true → o ≡ some "true"
  is_true-some none h = cc
  is_true-some (some v) h = ground arith

  is_true_other : (o : Option String) → is_true w k o ≡ false → o ≢ some "true"
  is_true_other none h = λ e. cc
  is_true_other (some v) h = λ e. ground arith

  some-is_true : (o : Option String) → o ≡ some "true" → is_true w k o ≡ true
  some-is_true none h = cc
  some-is_true (some v) h = ground arith

  other-is_true : (o : Option String) → o ≢ some "true" → is_true w k o ≡ false
  other-is_true o h = elim (Bool-cases (is_true w k o)) [
    | inl e ↦ absurd (h (is_true-some o e))
    | inr e ↦ e
  ]

  abbrev mark_of : Node → Option String
  mark_of n = lookup "config.kubernetes.io/local-config" (k.node_annotations n)

  AreKept-with_resource :
      (n : Node) (ns : List Node) (rs : List Resource)
      → mark_of n ≢ some "true"
      → AreKept ns rs
      → AreKept (n ∷ ns) (with_resource w k (k.unmarshal n) rs)
  AreKept-with_resource n ns rs other more = elim (Result-cases (k.unmarshal n)) [
    | inl (r, e) ↦ rw e (kept_resource other e more)
    | inr (f, e) ↦ rw e (kept_unreadable e more)
  ]

  AreKept-non_local : (nodes : List Node) → AreKept nodes (non_local w k nodes)
  unfolding non_local
  AreKept-non_local [] = kept_nil
  AreKept-non_local (n ∷ ns) = elim (Bool-cases (is_local w k n)) [
    | inl e ↦ rw e (kept_local (is_true-some (mark_of n) e) (AreKept-non_local ns))
    | inr e ↦ rw e (
        AreKept-with_resource n ns (non_local w k ns) (is_true_other (mark_of n) e)
          (AreKept-non_local ns))
  ]

  non_local-AreKept :
      (nodes : List Node) (rs : List Resource) → AreKept nodes rs → non_local w k nodes ≡ rs
  unfolding non_local
  non_local-AreKept [] _ kept_nil = refl
  non_local-AreKept (n ∷ ns) rs (kept_local h more) =
      rw (some-is_true (mark_of n) h) (non_local-AreKept ns rs more)
  non_local-AreKept (n ∷ ns) rs (kept_unreadable h more) = elim (Bool-cases (is_local w k n)) [
    | inl e ↦ rw e (non_local-AreKept ns rs more)
    | inr e ↦ rw (e, h) (non_local-AreKept ns rs more)
  ]
  non_local-AreKept (n ∷ ns) (r ∷ rs) (kept_resource other h more) =
      rw (other-is_true (mark_of n) other, h) (ap (λ xs. r ∷ xs) (non_local-AreKept ns rs more))

  included-package_files : (files : Dict String String) → included w k files ≡ package_files files
  unfolding included_file_types
  included-package_files [] = refl
  included-package_files ((path, content) ∷ files) = ground (arith, included-package_files files)

  pub HasResources-get_pr_resources :
      (namespace name : String) (rs : List Resource)
      → get_pr_resources w k namespace name ≡ ok rs
      → HasResources namespace name rs
  unfolding get_pr_resources filter_non_local_resources
  HasResources-get_pr_resources namespace name rs h =
      let (files, got, h') = >>=-eq-ok (k.get_pr_resources namespace name) _ h in
      let (nodes, parsed, e) = >>=-eq-ok (k.parse (included w k files)) _ h' in
      (
        files,
        got,
        nodes,
        rw (← included-package_files files) parsed,
        subst (AreKept nodes) (ok-injective e) (AreKept-non_local nodes),
      )

  pub get_pr_resources-HasResources :
      (namespace name : String) (rs : List Resource)
      → HasResources namespace name rs
      → get_pr_resources w k namespace name ≡ ok rs
  unfolding get_pr_resources filter_non_local_resources
  get_pr_resources-HasResources namespace name rs (files, got, nodes, parsed, kept) =
      rw (got, included-package_files files, parsed, non_local-AreKept nodes rs kept) refl
