-- ===== src/Focom.antt =====
-- operators/focom-operator/internal/controller: the reconciliation of provisioning requests
-- (focomprovisioningrequest_controller.go, _helpers.go, _kubeconfig.go and _validation.go). A
-- reconciliation is a function of the answers of the API servers that gives its result with the
-- calls that change something, in order.
pub mod Reconcile
pub mod Laws
use nephio.Base.{
  String, ◌<>◌, ℕ, Bool, true, false, not, ◌&&◌, ◌||◌, Option, none, some, List, [], ◌∷◌, ◌++◌,
  Result, ok, err, ◌==◌, string_eq, if◌then◌else◌,
}

abbrev pub focom_finalizer : String
focom_finalizer = "focom.nephio.org/finalizer"

-- `OCloud`, its reference to a secret.
pub record OCloud : Type 0 where
  pub secret_name : String
  pub secret_namespace : String

-- `TemplateInfo`
pub record TemplateInfo : Type 0 where
  pub template_name : String
  pub template_version : String

-- `status.provisioningStatus` of a remote request, with "" for a missing string.
pub record ProvisioningStatus : Type 0 where
  pub state : String
  pub message : String

pub record Status : Type 0 where
  pub phase : String
  pub message : String
  pub last_updated : Option ℕ
  pub remote_name : String

-- `FocomProvisioningRequest`; `deleted` is a deletion timestamp that is not zero.
pub record Request : Type 0 where
  pub namespace : String
  pub name : String
  pub deleted : Bool
  pub finalizers : List String
  pub spec_name : String
  pub description : String
  pub o_cloud_id : String
  pub o_cloud_namespace : String
  pub template_name : String
  pub template_version : String
  pub template_parameters : String
  pub status : Status

-- The remote request that is created.
pub record Remote (P : Type 0) : Type 0 where
  pub name : String
  pub spec_name : String
  pub description : String
  pub template_name : String
  pub template_version : String
  pub template_parameters : P

-- What the controller calls: the local API server, the libraries, and the remote API server.
pub record World : Type 1 where
  pub Fault : Type 0
  pub text : Fault → String
  pub is_not_found : Fault → Bool
  pub errorf : String → Fault
  pub quote : String → String
  pub now : ℕ
  pub contains_finalizer : List String → String → Bool
  pub add_finalizer : List String → String → List String
  pub remove_finalizer : List String → String → List String
  pub new_uuid : String
  -- `json.Unmarshal` into a map.
  pub Parameters : Type 0
  pub no_parameters : Parameters
  pub unmarshal : String → Result Fault Parameters
  pub get_request : String → String → Result Fault Request
  pub get_template_info : String → String → Result Fault TemplateInfo
  pub get_o_cloud : String → String → Result Fault OCloud
  -- The `kubeconfig` of a secret, "" if the key is missing.
  pub get_secret : String → String → Result Fault String
  pub update : Request → Option Fault
  pub update_status : Request → Option Fault
  -- Parsing a kubeconfig, and the client that it gives.
  pub RestConfig : Type 0
  pub Client : Type 0
  pub parse_kubeconfig : String → Result Fault RestConfig
  pub new_cluster : RestConfig → Result Fault Client
  -- The name that the object has behind its creation.
  pub remote_create : Client → Remote Parameters → Result Fault String
  pub remote_get : Client → String → Result Fault (Option ProvisioningStatus)
  pub remote_delete : Client → String → Option Fault

module _ (w : World) where
  open w use {Fault, Parameters, Client}

  pub data Call : Type 0 where
    updated : Request → Call
    status_updated : Request → Call
    created : Client → Remote Parameters → Call
    deleted : Client → String → Call

  -- `ctrl.Result`; durations are seconds.
  pub record Reconciled : Type 0 where
    pub requeue : Bool
    pub requeue_after : ℕ
    pub error : Option Fault
    pub calls : List Call

  abbrev pub stop : Option Fault → List Call → Reconciled
  stop e calls = record { requeue = false; requeue_after = 0; error = e; calls = calls }

  -- `updateStatus`
  unfoldable pub set_status : Request → String → String → Request
  set_status f phase msg = record f {
    status = record f.status { phase = phase; message = msg; last_updated = some w.now };
  }

  -- `decodeRawParameters`
  unfoldable pub decode_raw_parameters : String → Result Fault Parameters
  decode_raw_parameters raw = if raw == "" then ok w.no_parameters else w.unmarshal raw

  -- `validateTemplateAlignment`: what it makes of the template info that it gets.
  unfoldable pub check_template_info : Request → String → Result Fault TemplateInfo → Option Fault
  check_template_info fpr name (err e) =
      if w.is_not_found e
      then some (w.errorf ("TemplateInfo " <> w.quote name <> " not found"))
      else some (w.errorf ("failed to get TemplateInfo: " <> w.text e))
  check_template_info fpr name (ok info) =
      if not (info.template_name == fpr.template_name)
        || not (info.template_version == fpr.template_version)
      then some (
          w.errorf (
            "mismatch: TemplateInfo has (" <> info.template_name <> "/" <> info.template_version
            <> "), request has (" <> fpr.template_name <> "/" <> fpr.template_version <> ")"))
      else none

  unfoldable pub validate_template_alignment : Request → Option Fault
  unfolding check_template_info
  validate_template_alignment fpr =
      let name = fpr.template_name <> "-" <> fpr.template_version in
      check_template_info fpr name (w.get_template_info name fpr.namespace)

  -- `buildRemoteClient`, from its last step to its first.
  unfoldable pub from_config : Result Fault w.RestConfig → String → Result Fault Client
  from_config (err e) place =
      err (w.errorf ("failed to parse kubeconfig from secret " <> place <> ": " <> w.text e))
  from_config (ok config) place = elim (w.new_cluster config) [
    | err e ↦ err (w.errorf ("failed to create remote cluster: " <> w.text e))
    | ok c ↦ ok c
  ]

  unfoldable pub from_secret : Result Fault String → String → Result Fault Client
  unfolding from_config
  from_secret (err e) place = err (w.errorf ("cannot read secretRef " <> place <> ": " <> w.text e))
  from_secret (ok kubeconfig) place =
      if kubeconfig == ""
      then err (w.errorf ("secret " <> place <> " missing 'kubeconfig' key"))
      else from_config (w.parse_kubeconfig kubeconfig) place

  unfoldable pub from_o_cloud : Request → Result Fault OCloud → Result Fault Client
  unfolding from_secret
  from_o_cloud fpr (err e) =
      if w.is_not_found e
      then err (
          w.errorf
            ("OCloud " <> fpr.o_cloud_id <> " not found in namespace " <> fpr.o_cloud_namespace))
      else err (w.errorf ("failed to fetch OCloud: " <> w.text e))
  from_o_cloud fpr (ok cloud) =
      if cloud.secret_name == "" || cloud.secret_namespace == ""
      then err (
          w.errorf (
            "OCloud " <> fpr.o_cloud_namespace <> "/" <> fpr.o_cloud_id
            <> " references an empty secretRef"))
      else from_secret (w.get_secret cloud.secret_name cloud.secret_namespace)
          (cloud.secret_namespace <> "/" <> cloud.secret_name)

  unfoldable pub build_remote_client : Request → Result Fault Client
  unfolding from_o_cloud
  build_remote_client fpr = from_o_cloud fpr (w.get_o_cloud fpr.o_cloud_id fpr.o_cloud_namespace)
