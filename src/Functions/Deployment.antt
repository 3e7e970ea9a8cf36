-- ===== src/Functions/Deployment.antt =====
-- krm-functions/nfdeploy-fn/fn/helper.go: what the NF deployment function gathers of a package's
-- interfaces, data networks and dependencies.
pub mod Update
pub mod Laws
use Prim.Native.String.{compare}
use Prim.Native.Nat.{Ordering}
use nephio.Base.{
  String, ℕ, Bool, true, false, ◌&&◌, Option, none, some, List, [], ◌∷◌, ◌++◌, Outcome, done, panic,
  and_then, ◌==◌, string_eq, if◌then◌else◌,
}
use nephio.Base.Dict.{Dict, lookup, insert}
use nephio.Ref.{ObjectReference}

pub record Address : Type 0 where
  pub address : String
  pub gateway : Option String

-- `workloadv1alpha1.InterfaceConfig`, `DataNetwork` and `NetworkInstance`
pub record InterfaceConfig : Type 0 where
  pub name : String
  pub ipv4 : Option Address
  pub ipv6 : Option Address
  pub vlan_id : Option ℕ

pub record DataNetwork : Type 0 where
  pub name : String
  pub pools : List String

pub record NetworkInstance : Type 0 where
  pub name : String
  pub interfaces : List String
  pub data_networks : List DataNetwork

-- `workloadv1alpha1.ObjectReference`, whose name is a pointer.
pub record ParameterRef : Type 0 where
  pub name : Option String
  pub kind : String
  pub api_version : String

-- `NfDeployFn`, less the SDK and the workload cluster.
pub record NfDeployFn (Capacity : Type 0) : Type 0 where
  pub capacity : Option Capacity
  pub network_instance : Dict String NetworkInstance
  pub interface_configs_map : Dict String (List InterfaceConfig)
  pub param_ref : List ParameterRef

-- `<` and `<=` of strings.
abbrev pub str_lt : String → String → Bool
str_lt a b = elim (compare a b) [ Ordering.lt ↦ true | _ ↦ false ]

abbrev pub str_le : String → String → Bool
str_le a b = elim (compare a b) [ Ordering.gt ↦ false | _ ↦ true ]

-- `sort.Slice`: Go does not say how it orders what `less` does not.
pub record Sorting : Type 1 where
  pub sort : (A : Type 0) → (A → A → Bool) → List A → List A

-- `NewFunction`
unfoldable pub new_function : {Capacity : Type 0} → NfDeployFn Capacity
new_function = record {
  capacity = none;
  network_instance = [];
  interface_configs_map = [];
  param_ref = [];
}

-- The configurations of an instance with one more.
abbrev pub one_more : Option (List InterfaceConfig) → InterfaceConfig → List InterfaceConfig
one_more none config = config ∷ []
one_more (some configs) config = configs ++ config ∷ []

-- `SetInterfaceConfig`
unfoldable pub set_interface_config :
    {Capacity : Type 0} → InterfaceConfig → String → NfDeployFn Capacity → NfDeployFn Capacity
unfolding lookup insert
set_interface_config config instance_name h = if instance_name == "" then h else record h {
  interface_configs_map =
      insert instance_name (one_more (lookup instance_name h.interface_configs_map) config)
        h.interface_configs_map;
}

abbrev with_dnn : DataNetwork → String → Option NetworkInstance → NetworkInstance
with_dnn dnn instance_name none = record {
  name = instance_name;
  interfaces = [];
  data_networks = dnn ∷ [];
}
with_dnn dnn instance_name (some ni) = record ni { data_networks = ni.data_networks ++ dnn ∷ [] }

-- `AddDNNToNetworkInstance`
unfoldable pub add_dnn_to_network_instance :
    {Capacity : Type 0} → DataNetwork → String → NfDeployFn Capacity → NfDeployFn Capacity
unfolding lookup insert
add_dnn_to_network_instance dnn instance_name h = record h {
  network_instance =
      insert instance_name (with_dnn dnn instance_name (lookup instance_name h.network_instance))
        h.network_instance;
}

abbrev pub with_interface : String → String → Option NetworkInstance → NetworkInstance
with_interface interface_name instance_name none = record {
  name = instance_name;
  interfaces = interface_name ∷ [];
  data_networks = [];
}
with_interface interface_name instance_name (some ni) = record ni {
  interfaces = ni.interfaces ++ interface_name ∷ [];
}

-- `AddInterfaceToNetworkInstance`
unfoldable pub add_interface_to_network_instance :
    {Capacity : Type 0} → String → String → NfDeployFn Capacity → NfDeployFn Capacity
unfolding lookup insert
add_interface_to_network_instance interface_name instance_name h = record h {
  network_instance =
      insert instance_name
        (with_interface interface_name instance_name (lookup instance_name h.network_instance))
        h.network_instance;
}

abbrev values {ℓ} : {V : Type ℓ} → Dict String V → List V
values [] = []
values ((key, v) ∷ rest) = v ∷ values rest

abbrev all_configs : Dict String (List InterfaceConfig) → List InterfaceConfig
all_configs [] = []
all_configs ((key, configs) ∷ rest) = configs ++ all_configs rest

module _ (g : Sorting) where
  -- `GetAllNetworkInstance`
  unfoldable pub get_all_network_instance :
      {Capacity : Type 0} → NfDeployFn Capacity → List NetworkInstance
  get_all_network_instance h =
      g.sort NetworkInstance (λ a b. str_lt a.name b.name) (values h.network_instance)

  -- `GetAllInterfaceConfig`
  unfoldable pub get_all_interface_config :
      {Capacity : Type 0} → NfDeployFn Capacity → List InterfaceConfig
  get_all_interface_config h =
      g.sort InterfaceConfig (λ a b. str_lt a.name b.name) (all_configs h.interface_configs_map)

-- `*p.Name == ref.Name && …`, where the name is not nil.
abbrev pub matches : ObjectReference → String → ParameterRef → Bool
matches ref name p = name == ref.name && p.kind == ref.kind && p.api_version == ref.api_version

abbrev pub next_or : Bool → Outcome Bool → Outcome Bool
next_or found rest = if found then done true else rest

abbrev pub matches_named :
    ObjectReference → ParameterRef → Option String → Outcome Bool → Outcome Bool
matches_named ref p none rest = panic
matches_named ref p (some name) rest = next_or (matches ref name p) rest

-- `checkDependencyExist`
unfoldable pub check_dependency_exist : ObjectReference → List ParameterRef → Outcome Bool
check_dependency_exist ref [] = done false
check_dependency_exist ref (p ∷ ps) =
    let rest = check_dependency_exist ref ps in matches_named ref p p.name rest

abbrev pub reference_of : ObjectReference → ParameterRef
reference_of ref = record { name = some ref.name; kind = ref.kind; api_version = ref.api_version }

abbrev pub unless_there : ObjectReference → List ParameterRef → Bool → List ParameterRef
unless_there ref ps true = ps
unless_there ref ps false = ps ++ reference_of ref ∷ []

-- `AddDependencyRef`, on the references.
unfoldable pub add_dependency_ref :
    ObjectReference → List ParameterRef → Outcome (List ParameterRef)
unfolding check_dependency_exist
add_dependency_ref ref ps =
    and_then (check_dependency_exist ref ps) (λ there. done (unless_there ref ps there))

-- The loop of `DependencyUpdate`.
unfoldable pub add_dependency_refs :
    List ObjectReference → List ParameterRef → Outcome (List ParameterRef)
unfolding add_dependency_ref
add_dependency_refs [] ps = done ps
add_dependency_refs (ref ∷ refs) ps =
    and_then (add_dependency_ref ref ps) (λ qs. add_dependency_refs refs qs)
