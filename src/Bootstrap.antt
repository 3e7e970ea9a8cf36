-- ===== src/Bootstrap.antt =====
-- controllers/pkg/reconcilers/bootstrap-secret/reconciler.go, with the clients of
-- controllers/pkg/cluster: the secrets that are installed in the workload clusters. The Kubernetes
-- client and the clients of the clusters are parameters.
pub mod Attempts
pub mod Installed
pub mod Packages
use Prim.Native.String.{[] as empty, ◌∷◌ as ◌⊳◌}
use text.Mathlib.Text.{starts_with}
use nephio.Base.{
  String, ℕ, Bool, true, false, not, ◌&&◌, Option, none, some, List, [], ◌∷◌, ◌<>◌, Result, ok, err,
  ◌==◌, string_eq, if◌then◌else◌,
}
use nephio.Base.Dict.{Dict, lookup, insert}
use nephio.ConditionType.Split.{split}

-- `strings.Contains`
unfoldable pub contains : String → String → Bool
contains empty part = part == ""
contains (c ⊳ s) part =
    let rest = contains s part in if starts_with (c ⊳ s) part then true else rest

-- `strings.TrimSuffix`
unfoldable pub trim_suffix : String → String → String
trim_suffix empty suffix = ""
trim_suffix (c ⊳ s) suffix =
    let rest = trim_suffix s suffix in if (c ⊳ s) == suffix then "" else c ⊳ rest

abbrev kube_config_suffix : String
kube_config_suffix = "-kubeconfig"

abbrev pub cluster_name_key : String
cluster_name_key = "nephio.org/cluster-name"

abbrev pub nephio_app_key : String
nephio_app_key = "nephio.org/app"

abbrev pub remote_namespace_key : String
remote_namespace_key = "nephio.org/remote-namespace"

abbrev pub sync_app : String
sync_app = "tobeinstalledonremotecluster"

abbrev pub bootstrap_app : String
bootstrap_app = "bootstrap"

-- `corev1.Secret`
pub record Secret (Data : Type 0) : Type 0 where
  pub namespace : String
  pub name : String
  pub kind : String
  pub deleted : Bool
  pub annotations : Dict String String
  pub resource_version : String
  pub uid : String
  pub value : Data

-- `capiv1beta1.Condition`
pub record ClusterCondition : Type 0 where
  pub kind : String
  pub status : String

-- What the management cluster and the clients of the workload clusters answer.
pub record World : Type 1 where
  pub Fault : Type 0
  pub Data : Type 0
  pub Client : Type 0
  pub is_not_found : Fault → Bool
  pub wrap : Fault → String → Fault
  pub ready_condition : String
  pub condition_true : String
  pub get : String → String → Result Fault (Secret Data)
  pub list : Result Fault (List (Secret Data))
  -- the cluster's resource, decoded
  pub get_cluster : String → String → Result Fault (List ClusterCondition)
  pub rest_client : Data → Result Fault Client
  pub get_namespace : Client → String → Option Fault
  pub apply : Client → Secret Data → Option Fault

-- `GetAnnotations()[key]`: the empty text where there is none.
abbrev pub or_empty : Option String → String
or_empty none = ""
or_empty (some s) = s

-- An application of a secret to a cluster.
pub record Applied (Client Data : Type 0) : Type 0 where
  pub client : Client
  pub secret : Secret Data

module _ (w : World) where
  open w use {Fault, Data, Client}

  -- `isReady`
  unfoldable pub is_ready : List ClusterCondition → Bool
  is_ready [] = false
  is_ready (c ∷ cs) =
      let rest = is_ready cs in
      if c.kind == w.ready_condition && c.status == w.condition_true then true else rest

  -- `GetClusterName`
  unfoldable pub get_cluster_name : Secret Data → String
  unfolding trim_suffix
  get_cluster_name secret = trim_suffix secret.name kube_config_suffix

  abbrev ready_of : Result Fault (List ClusterCondition) → Bool
  ready_of (err e) = false
  ready_of (ok conditions) = is_ready conditions

  -- `isCapiClusterReady`
  unfoldable pub is_capi_cluster_ready : Secret Data → Bool
  unfolding is_ready get_cluster_name
  is_capi_cluster_ready secret = ready_of (w.get_cluster secret.namespace (get_cluster_name secret))

  -- `Capi.GetClusterClient`: no client where the cluster is not ready.
  unfoldable pub capi_get_cluster_client : Secret Data → Result Fault (Option Client)
  unfolding is_capi_cluster_ready
  capi_get_cluster_client secret =
      if not (is_capi_cluster_ready secret)
      then ok none
      else elim (w.rest_client secret.value) [ err e ↦ err e | ok c ↦ ok (some c) ]

  -- `Cluster.GetClusterClient`: whether the secret is that of a cluster.
  unfoldable pub get_cluster_client : Secret Data → Bool
  unfolding contains
  get_cluster_client secret =
      secret.kind == "cluster.x-k8s.io/secret" && contains secret.name "kubeconfig"

  -- `ctrl.Result`, the error and the applications of `Reconcile`.
  pub record Reconciled : Type 0 where
    pub requeue_after : ℕ
    pub error : Option Fault
    pub calls : List (Applied Client Data)

  abbrev pub namespace_or : String → Option String → String
  namespace_or own none = own
  namespace_or own (some remote) = remote

  unfoldable pub remote_namespace : Secret Data → String
  unfolding lookup
  remote_namespace cr = namespace_or cr.namespace (lookup remote_namespace_key cr.annotations)

  -- The copy of the secret for a cluster.
  unfoldable pub newcr : Secret Data → String → Secret Data
  unfolding insert remote_namespace
  newcr cr cluster_name = record cr {
    annotations =
        insert cluster_name_key cluster_name (insert nephio_app_key bootstrap_app cr.annotations);
    resource_version = "";
    uid = "";
    namespace = remote_namespace cr;
  }

  -- Either the reconciliation ends, or the secret is installed.
  pub data Attempt : Type 0 where
    stop : Reconciled → Attempt
    installed : Applied Client Data → Attempt

  abbrev retry : ℕ → Option Fault → List (Applied Client Data) → Attempt
  retry seconds e calls = stop (record { requeue_after = seconds; error = e; calls = calls })

  abbrev pub after_apply : String → Applied Client Data → Option Fault → Attempt
  after_apply cluster_name call none = installed call
  after_apply cluster_name call (some e) =
      retry 0 (some (w.wrap e ("cannot apply secret to cluster " <> cluster_name))) (call ∷ [])

  unfoldable pub apply_to : Secret Data → String → Client → Attempt
  unfolding newcr
  apply_to cr cluster_name c =
      let sent = newcr cr cluster_name in
      after_apply cluster_name (record { client = c; secret = sent }) (w.apply c sent)

  abbrev pub if_namespace : Secret Data → Option Fault → Attempt → Attempt
  if_namespace cr none rest = rest
  if_namespace cr (some e) rest =
      if w.is_not_found e
      then retry 10 none []
      else retry 30 (some (w.wrap e ("cannot get namespace: " <> remote_namespace cr))) []

  abbrev pub with_client : Secret Data → String → Result Fault (Option Client) → Attempt
  with_client cr cluster_name (err e) = retry 30 (some (w.wrap e "cannot get clusterClient")) []
  with_client cr cluster_name (ok none) = retry 10 none []
  with_client cr cluster_name (ok (some c)) =
      if_namespace cr (w.get_namespace c (remote_namespace cr)) (apply_to cr cluster_name c)

  -- The loop over the secrets, up to the first one of a cluster whose name contains the name.
  unfoldable pub search : Secret Data → String → List (Secret Data) → Attempt
  unfolding contains get_cluster_client capi_get_cluster_client apply_to remote_namespace
  search cr cluster_name [] = retry 10 none []
  search cr cluster_name (secret ∷ secrets) =
      let rest = search cr cluster_name secrets in
      if contains secret.name cluster_name && get_cluster_client secret
      then with_client cr cluster_name (capi_get_cluster_client secret)
      else rest

  abbrev pub with_secrets : Secret Data → String → Result Fault (List (Secret Data)) → Attempt
  with_secrets cr cluster_name (err e) = retry 0 (some (w.wrap e "cannot list secrets")) []
  with_secrets cr cluster_name (ok secrets) = search cr cluster_name secrets

  -- The loop over the clusters of the annotation.
  abbrev pub proceed : Attempt → Reconciled → Reconciled
  proceed (stop r) rest = r
  proceed (installed call) rest = record rest { calls = call ∷ rest.calls }

  unfoldable pub each_cluster : Secret Data → List String → Reconciled
  unfolding search
  each_cluster cr [] = record { requeue_after = 0; error = none; calls = [] }
  each_cluster cr (name ∷ names) =
      let rest = each_cluster cr names in proceed (with_secrets cr name w.list) rest

  abbrev ended : Option Fault → Reconciled
  ended e = record { requeue_after = 0; error = e; calls = [] }

  -- Whether the secret is to be installed in workload clusters.
  abbrev pub is_relevant : Secret Data → Bool
  is_relevant cr =
      or_empty (lookup nephio_app_key cr.annotations) == sync_app
      && not (or_empty (lookup cluster_name_key cr.annotations) == "")
      && not (or_empty (lookup cluster_name_key cr.annotations) == "mgmt")

  -- `strings.Split(clusterName, ",")`
  unfoldable pub cluster_names : Secret Data → List String
  unfolding lookup split
  cluster_names cr = split b',' (or_empty (lookup cluster_name_key cr.annotations))

  unfoldable pub with_secret : Result Fault (Secret Data) → Reconciled
  unfolding each_cluster cluster_names lookup
  with_secret (err e) =
      if w.is_not_found e then ended none else ended (some (w.wrap e "cannot get resource"))
  with_secret (ok cr) =
      if cr.deleted
      then ended none
      else if is_relevant cr
      then each_cluster cr (cluster_names cr)
      else ended none

  -- `Reconcile`
  unfoldable pub reconcile : String → String → Reconciled
  unfolding with_secret
  reconcile namespace name = with_secret (w.get namespace name)
