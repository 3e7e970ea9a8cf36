-- ===== src/Examples/Secrets.antt =====
-- A run of the bootstrap of secrets.
use nephio.Base.{
  String, List, inl, ◌==◌, if◌then◌else◌, ◌≡◌, refl, false, none, [], ◌∷◌, ok, true, string_eq,
}
use nephio.Base.Dict.{Dict, lookup, insert}
use nephio.Bootstrap.{World, Secret, Applied, reconcile, contains, newcr}
use nephio.Bootstrap.Packages
use nephio.Bootstrap.Packages.{install}
use nephio.Bootstrap.Packages.Staging.{kept_nil, kept_local, kept_resource}
use nephio.Bootstrap.Packages.Install.{IsInstalling}
use nephio.Bootstrap.Packages.Laws.{reconcile_installs}
use nephio.Bootstrap.Installed.{AllInstalled, ended_with, reconcile_lem}

abbrev git_token : Secret String
git_token = record {
  namespace = "default";
  name = "edge1-token";
  kind = "kubernetes.io/basic-auth";
  deleted = false;
  annotations =
      ("nephio.org/app", "tobeinstalledonremotecluster")
      ∷ ("nephio.org/cluster-name", "edge1")
      ∷ ("nephio.org/remote-namespace", "config-management-system")
      ∷ [];
  resource_version = "7";
  uid = "u";
  value = "token";
}

abbrev kube_config_of : String → String → Secret String
kube_config_of name cluster = record {
  namespace = "default";
  name = name;
  kind = "cluster.x-k8s.io/secret";
  deleted = false;
  annotations = [];
  resource_version = "1";
  uid = "v";
  value = cluster;
}

abbrev cluster_secrets : List (Secret String)
cluster_secrets =
    git_token
    ∷ kube_config_of "edge10-kubeconfig" "edge10"
    ∷ kube_config_of "edge1-kubeconfig" "edge1"
    ∷ []

-- A client is the name of its cluster; the secret of `edge10` is listed before that of `edge1`.
abbrev clusters : World
clusters = record {
  Fault = String;
  Data = String;
  Client = String;
  is_not_found = λ e. false;
  wrap = λ e msg. msg;
  ready_condition = "Ready";
  condition_true = "True";
  get = λ namespace name. ok git_token;
  list = ok cluster_secrets;
  get_cluster = λ namespace name. ok (record { kind = "Ready"; status = "True" } ∷ []);
  rest_client = λ value. ok value;
  get_namespace = λ c name. none;
  apply = λ c s. none;
}

abbrev applied_to : String → Applied String String
applied_to cluster = record {
  client = cluster;
  secret = record git_token {
    namespace = "config-management-system";
    annotations =
        ("nephio.org/app", "bootstrap")
        ∷ ("nephio.org/cluster-name", "edge1")
        ∷ ("nephio.org/remote-namespace", "config-management-system")
        ∷ [];
    resource_version = "";
    uid = "";
  };
}

-- The secret for `edge1` goes to `edge10`.
secrets_test :
    reconcile clusters "default" "edge1-token" ≡ ended_with clusters (applied_to "edge10" ∷ [])
unfolding reconcile string_eq lookup insert
secrets_test = refl

secrets_example : AllInstalled clusters git_token ("edge1" ∷ []) (applied_to "edge10" ∷ [])
unfolding lookup nephio.ConditionType.Split.split string_eq nephio.Bootstrap.cluster_names
secrets_example =
    (reconcile_lem clusters "default" "edge1-token" git_token (applied_to "edge10" ∷ []) refl refl
        refl).0
      secrets_test

abbrev staging_repositories : List Packages.Repository
staging_repositories =
    record { name = "mgmt-staging"; annotations = ("nephio.org/staging", "true") ∷ [] } ∷ []

abbrev packages_files : Dict String String
packages_files = ("ns.yaml", "namespace") ∷ ("root.yaml", "rootsync") ∷ []

-- A resource is its name; the file is a node.
abbrev packages : Packages.Packages clusters
packages = record {
  Node = String;
  Resource = String;
  get_revision =
      λ namespace name. ok (record { repository_name = "mgmt-staging"; lifecycle = "Published" });
  list_repositories = ok staging_repositories;
  lifecycle_is_published = λ lifecycle. true;
  get_pr_resources = λ namespace name. ok packages_files;
  base = λ path. path;
  is_match = λ m path. true;
  parse = λ files. ok ("namespace" ∷ "kustomization" ∷ "rootsync" ∷ []);
  node_annotations = λ node.
      if node == "kustomization" then ("config.kubernetes.io/local-config", "true") ∷ [] else [];
  unmarshal = λ node. ok node;
  annotations = λ r. ("nephio.org/cluster-name", "edge1") ∷ [];
  name = λ r. r;
  apply = λ c r. none;
}

packages_example :
    IsInstalling clusters packages "edge10"
      ("namespace" ∷ "rootsync" ∷ [])
      (Packages.reconcile clusters packages "default" "edge1-package")
unfolding string_eq lookup Packages.is_staging_package_revision Packages.get_pr_resources
    Packages.find_cluster_client nephio.Bootstrap.capi_get_cluster_client
packages_example =
    (reconcile_installs clusters packages "default" "edge1-package" ("namespace" ∷ "rootsync" ∷ [])
        "edge10").0
      (
        record { repository_name = "mgmt-staging"; lifecycle = "Published" },
        refl,
        (staging_repositories, refl, inl (refl, refl)),
        refl,
        (
          packages_files,
          refl,
          "namespace" ∷ "kustomization" ∷ "rootsync" ∷ [],
          refl,
          kept_resource (λ e. cc) refl (kept_local refl (kept_resource (λ e. cc) refl kept_nil)),
        ),
        (
          "edge1",
          kube_config_of "edge10-kubeconfig" "edge10",
          refl,
          (cluster_secrets, refl, refl),
          (record { kind = "Ready"; status = "True" } ∷ [], refl, refl, refl),
        ),
      )
