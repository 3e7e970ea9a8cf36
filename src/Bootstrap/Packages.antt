-- ===== src/Bootstrap/Packages.antt =====
-- controllers/pkg/reconcilers/bootstrap-packages/reconciler.go: the packages of staging repositories,
-- whose resources are installed in a workload cluster. Porch, and the reading of YAML, are parameters.
pub mod Staging
pub mod Clients
pub mod Install
pub mod Laws
use nephio.Base.{
  String, ℕ, Bool, true, false, ◌&&◌, Option, none, some, List, [], ◌∷◌, ◌<>◌, Result, ok, err,
  ◌>>=◌, ◌==◌, string_eq, if◌then◌else◌, any, is_some,
}
use nephio.Base.Dict.{Dict, lookup}
use nephio.Bootstrap.{World, Secret, contains, get_cluster_client, capi_get_cluster_client}

-- What is read of a package revision and of a repository.
pub record PackageRevision : Type 0 where
  pub repository_name : String
  pub lifecycle : String

pub record Repository : Type 0 where
  pub name : String
  pub annotations : Dict String String

-- Porch, the parser of packages and the application of a resource.
pub record Packages (w : World) : Type 1 where
  pub Node : Type 0
  pub Resource : Type 0
  pub get_revision : String → String → Result w.Fault PackageRevision
  pub list_repositories : Result w.Fault (List Repository)
  pub lifecycle_is_published : String → Bool
  pub get_pr_resources : String → String → Result w.Fault (Dict String String)
  -- `filepath.Base`, and whether `filepath.Match` matches without an error
  pub base : String → String
  pub is_match : String → String → Bool
  pub parse : List (String × String) → Result w.Fault (List Node)
  pub node_annotations : Node → Dict String String
  pub unmarshal : Node → Result w.Fault Resource
  pub annotations : Resource → Dict String String
  pub name : Resource → String
  pub apply : w.Client → Resource → Option w.Fault

module _ (w : World) (k : Packages w) where
  open w use {Fault, Data, Client}
  open k use {Node, Resource}

  -- The names of the staging repositories.
  unfoldable pub staging_repo_names : List Repository → List String
  unfolding lookup
  staging_repo_names [] = []
  staging_repo_names (repo ∷ repos) =
      let rest = staging_repo_names repos in
      if is_some (lookup "nephio.org/staging" repo.annotations) then repo.name ∷ rest else rest

  -- `IsStagingPackageRevision`
  unfoldable pub is_staging_package_revision : String → Result Fault Bool
  unfolding staging_repo_names
  is_staging_package_revision repository_name =
      k.list_repositories
      >>= (λ repos. ok (any (λ name. repository_name == name) (staging_repo_names repos)))

  -- `includedFileTypes`
  unfoldable pub included_file_types : String → List String → Bool
  included_file_types path [] = false
  included_file_types path (m ∷ match) =
      let rest = included_file_types path match in if k.is_match m (k.base path) then true else rest

  abbrev pub included : Dict String String → List (String × String)
  included [] = []
  included ((path, content) ∷ rest) =
      let later = included rest in
      if included_file_types path ("*.yaml" ∷ "*.yml" ∷ "Kptfile" ∷ [])
      then (path, content) ∷ later
      else later

  abbrev pub is_true : Option String → Bool
  is_true none = false
  is_true (some v) = v == "true"

  abbrev pub is_local : Node → Bool
  is_local node = is_true (lookup "config.kubernetes.io/local-config" (k.node_annotations node))

  abbrev pub with_resource : Result Fault Resource → List Resource → List Resource
  with_resource (err e) rest = rest
  with_resource (ok u) rest = u ∷ rest

  -- The loop over the parsed nodes: those that cannot be read are left out.
  unfoldable pub non_local : List Node → List Resource
  unfolding lookup
  non_local [] = []
  non_local (node ∷ nodes) =
      let rest = non_local nodes in
      if is_local node then rest else with_resource (k.unmarshal node) rest

  -- `filterNonLocalResources`
  unfoldable pub filter_non_local_resources : Dict String String → Result Fault (List Resource)
  unfolding included_file_types non_local
  filter_non_local_resources resources =
      k.parse (included resources) >>= (λ nodes. ok (non_local nodes))

  -- `getPrResources`
  unfoldable pub get_pr_resources : String → String → Result Fault (List Resource)
  unfolding filter_non_local_resources
  get_pr_resources namespace name =
      k.get_pr_resources namespace name >>= (λ resources. filter_non_local_resources resources)

  -- The loop of `GetClusterClient`: the first secret of a cluster whose name contains the name.
  unfoldable pub search_client : String → List (Secret Data) → Option (Secret Data)
  unfolding contains get_cluster_client
  search_client cluster_name [] = none
  search_client cluster_name (secret ∷ secrets) =
      let rest = search_client cluster_name secrets in
      if contains secret.name cluster_name && get_cluster_client w secret then some secret else rest

  -- `GetClusterClient`: the secret that the client is made from.
  unfoldable pub find_cluster_client : String → Result Fault (Option (Secret Data))
  unfolding search_client
  find_cluster_client cluster_name = w.list >>= (λ secrets. ok (search_client cluster_name secrets))

  -- `ctrl.Result`, the error and the applications of `Reconcile`.
  pub record Reconciled : Type 0 where
    pub requeue_after : ℕ
    pub error : Option Fault
    pub calls : List (Client × Resource)

  abbrev pub ended : Option Fault → Reconciled
  ended e = record { requeue_after = 0; error = e; calls = [] }

  abbrev pub tried_again : ℕ → Option Fault → Reconciled
  tried_again seconds e = record { requeue_after = seconds; error = e; calls = [] }

  abbrev pub after_apply : Client → Resource → Option Fault → Reconciled → Reconciled
  after_apply c r none rest = record rest { calls = (c, r) ∷ rest.calls }
  after_apply c r (some e) rest = record {
    requeue_after = 0;
    error = some (w.wrap e ("cannot apply resource to cluster: resourceName: " <> k.name r));
    calls = (c, r) ∷ [];
  }

  -- The loop that installs the resources, up to the first failure.
  unfoldable pub install : Client → List Resource → Reconciled
  install c [] = ended none
  install c (r ∷ rs) = let rest = install c rs in after_apply c r (k.apply c r) rest

  abbrev pub with_client : List Resource → Result Fault (Option Client) → Reconciled
  with_client rs (err e) = tried_again 30 (some (w.wrap e "cannot get clusterClient"))
  with_client rs (ok none) = tried_again 10 none
  with_client rs (ok (some c)) = install c rs

  abbrev pub with_found : String → List Resource → Result Fault (Option (Secret Data)) → Reconciled
  with_found cluster_name rs (err e) =
      ended (some (w.wrap e ("failed to get cluster Secret for: " <> cluster_name)))
  with_found cluster_name rs (ok none) = tried_again 10 none
  with_found cluster_name rs (ok (some secret)) = with_client rs (capi_get_cluster_client w secret)

  abbrev pub with_cluster_name : List Resource → Option String → Reconciled
  with_cluster_name rs none = ended none
  with_cluster_name rs (some cluster_name) =
      with_found cluster_name rs (find_cluster_client cluster_name)

  -- All resources go to the cluster that the first one names.
  unfoldable pub with_resources : Result Fault (List Resource) → Reconciled
  unfolding install capi_get_cluster_client find_cluster_client lookup
  with_resources (err e) = ended (some (w.wrap e "cannot get resources"))
  with_resources (ok []) = ended none
  with_resources (ok (r ∷ rs)) =
      with_cluster_name (r ∷ rs) (lookup "nephio.org/cluster-name" (k.annotations r))

  abbrev pub with_staging : String → String → PackageRevision → Result Fault Bool → Reconciled
  with_staging namespace name cr (err e) = ended (some (w.wrap e "cannot list repositories"))
  with_staging namespace name cr (ok staging) =
      if staging && k.lifecycle_is_published cr.lifecycle
      then with_resources (get_pr_resources namespace name)
      else ended none

  unfoldable pub with_revision : String → String → Result Fault PackageRevision → Reconciled
  unfolding with_resources get_pr_resources is_staging_package_revision
  with_revision namespace name (err e) =
      if w.is_not_found e then ended none else ended (some (w.wrap e "cannot get resource"))
  with_revision namespace name (ok cr) =
      with_staging namespace name cr (is_staging_package_revision cr.repository_name)

  -- `Reconcile`
  unfoldable pub reconcile : String → String → Reconciled
  unfolding with_revision
  reconcile namespace name = with_revision namespace name (k.get_revision namespace name)
