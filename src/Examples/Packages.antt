-- ===== src/Examples/Packages.antt =====
-- Runs of the KRM functions of interfaces and data networks.
use nephio.Base.{
  String, ◌≡◌, ◌≤◌, refl, true, false, none, some, List, [], ◌∷◌, Result, ok, done, string_eq,
  length, ◌++◌,
}
use nephio.Base.Dict.{Dict, lookup}
use nephio.Ref.{ObjectReference}
use nephio.ConditionType.{get_condition_type}
use nephio.Functions.{World, WorkloadCluster, get_for_name, get_annotations}
use nephio.Functions.Laws.{get_for_name-get_condition_type}
use nephio.Functions.Interface
use nephio.Functions.Interface.{
  dual_stack, ipv4, ipv6, network, desired_owned_resource_list, ip_claim, vlan_claim, nad,
}
use nephio.Functions.Asked.{claim, vlan, attachment, AreFor}
use nephio.Functions.Children.{Converts, desired_owned_resource_list_lem}
use nephio.Functions.DataNetwork
use nephio.Functions.DataNetwork.{collect, Network}
use nephio.Functions.Pools.{collect-claim_of}
use nephio.Functions.Deployment.{
  ParameterRef, InterfaceConfig, Sorting, new_function, reference_of, add_dependency_refs,
}
use nephio.Functions.Deployment.Update
use nephio.Functions.Deployment.Update.{add_all_interfaces}
use nephio.Functions.Deployment.Update.Instances.{completed, lookup-add_all_interfaces}
use nephio.Functions.Deployment.Laws.{IsExtended, add_dependency_refs_lem}
use nephio.Examples.Nodes.{library, scheme}

abbrev upf : ObjectReference
upf = record { api_version = "workload.nephio.org/v1alpha1"; kind = "NFDeployment"; name = "upf" }

abbrev owner : Dict String String
owner = ("specializer.nephio.org/owner", get_condition_type (λ s. some s) upf) ∷ []

-- An object is its name.
abbrev krm : World
krm = record {
  library = library;
  object_name = λ o. o;
  annotations = λ o. owner;
  decode_cluster = λ o. (record { cluster_name = "edge"; cnis = "sriov" ∷ [] }, none);
  validate_cluster = λ c. none;
  local_config = "config.kubernetes.io/local-config";
}

for_name_example : (get_for_name owner ≡ "upf") × (get_for_name (get_annotations krm owner) ≡ "upf")
unfolding string_eq lookup
for_name_example =
    get_for_name-get_condition_type krm (λ s. some s) upf owner refl (refl, (refl, (refl, tt))) refl
      refl

abbrev instance_ref : ObjectReference
instance_ref = record { api_version = ""; kind = ""; name = "vpc-ran" }

-- An interface is the name of its object; a child is its name.
abbrev interfaces : Interface.Types krm
interfaces = record {
  Interface = String;
  Claim = String;
  VlanClaim = String;
  spec = λ i. record {
    network_instance = some instance_ref;
    cni_type = "sriov";
    attachment_type = "vlan";
    ip_family_policy = dual_stack;
  };
  interface_annotations = λ i. owner;
  decode = λ o. ok o;
  new_from_typed_object =
      λ c. elim c [ ip_claim m k r l ↦ ok m.name | vlan_claim m c ↦ ok m.name | nad m ↦ ok m.name ];
  family_name = λ f. elim f [ Interface.ipv4 ↦ "ipv4" | Interface.ipv6 ↦ "ipv6" ];
  attachment_vlan = "vlan";
  unsupported_cni = λ cnis c. c;
  cluster_name_key = "nephio.org/cluster-name";
  address_family_key = "nephio.org/address-family";
  network_name_key = "nephio.org/network-name";
  is_ip_claim = λ o. false;
  is_vlan_claim = λ o. false;
  sort_by_name = λ os. os;
  claim_status = λ o. ok o;
  vlan_status = λ o. ok o;
  upsert_ip_claim = λ i c. i;
  set_vlan_claim = λ i c. i;
  value = λ i. i;
}

abbrev edge : WorkloadCluster
edge = record { cluster_name = "edge"; cnis = "sriov" ∷ [] }

children_example :
    (r : Result String (List String)) × (desired_owned_resource_list krm interfaces
        (some edge)
        "n3"
        ""
      ≡ done r)
    × ((os : List String)
        → r ≡ ok os
        → AreFor krm interfaces edge "n3" instance_ref network
            (claim ipv4 ∷ claim ipv6 ∷ vlan ∷ attachment ∷ [])
            os
          × (length os ≤ 4))
    × (true ≡ true → Converts krm interfaces → (os : List String) × (r ≡ ok os))
unfolding string_eq
children_example =
    desired_owned_resource_list_lem krm interfaces edge "n3" "" "n3" instance_ref refl refl refl

abbrev pool : DataNetwork.Pool
pool = record { name = "pool1"; is_ipv6 = false; prefix_length = 8 }

abbrev internet : Network
internet = record {
  name = "internet";
  annotations = owner;
  network_instance = instance_ref;
  pools = pool ∷ [];
}

-- A claim is its name.
abbrev networks : DataNetwork.Types krm
networks = record {
  scheme = record scheme { convert = λ o. ok o.1 };
  DataNetwork = Network;
  Status = String;
  network = λ n. n;
  decode = λ o. ok internet;
  new_from_typed_object = λ c. ok c.name;
  cluster_name_key = "nephio.org/cluster-name";
  address_family_key = "nephio.org/address-family";
  family_text = λ v6. "ipv4";
  is_pool_claim = λ c. true;
  claim_name = λ c. c;
  claim_status = λ c. "10.0.0.0/8";
  scheme_fault = λ e. e;
  with_pools = λ n ps. n;
  value = λ n. n.name;
}

pools_example :
    collect krm networks internet ("upf-internet-pool1" ∷ [])
    ≡ record { pools = record { name = "pool1"; ip_claim = "10.0.0.0/8" } ∷ []; suspicious = [] }
unfolding get_for_name string_eq DataNetwork.claim_of get_condition_type
pools_example =
    collect-claim_of krm networks edge "internet" internet (pool ∷ []) ("upf-internet-pool1" ∷ [])
      refl (refl, refl, tt)

abbrev config_ref : ObjectReference
config_ref = record { api_version = "v1"; kind = "ConfigMap"; name = "upf-config" }

abbrev secret_ref : ObjectReference
secret_ref = record { api_version = "v1"; kind = "Secret"; name = "upf-keys" }

dependencies_example :
    (qs : List ParameterRef) × (add_dependency_refs
        (config_ref ∷ secret_ref ∷ [])
        (reference_of config_ref ∷ [])
      ≡ done qs)
    × IsExtended (reference_of config_ref ∷ []) (config_ref ∷ secret_ref ∷ []) qs
dependencies_example =
    (add_dependency_refs_lem (config_ref ∷ secret_ref ∷ []) (reference_of config_ref ∷ [])
      (refl, tt) (refl, tt)).0

dependencies_test :
    add_dependency_refs (config_ref ∷ secret_ref ∷ []) (reference_of config_ref ∷ [])
    ≡ done (reference_of config_ref ∷ reference_of secret_ref ∷ [])
unfolding add_dependency_refs string_eq
dependencies_test = refl

-- The lists are sorted by reversal, which is enough to see where the sorting comes.
abbrev reversed : {A : Type 0} → List A → List A
reversed [] = []
reversed (x ∷ xs) = reversed xs ++ x ∷ []

abbrev sorting : Sorting
sorting = record { sort = λ A le xs. reversed xs }

-- A deployment is nothing but its spec, and no object is read.
abbrev deployments : Update.Types krm
deployments = record {
  Capacity = String;
  Deployment = Update.Spec String;
  sorting = sorting;
  is_capacity = λ o. false;
  is_network = λ o. false;
  is_interface = λ o. false;
  is_dependency = λ o. false;
  capacity_of = λ o. ok o;
  interface_of = λ o. ok (record {
    name = o;
    network_instance = some instance_ref;
    ip_claim_status = none;
    vlan_claim_status = none;
  });
  validate_interface = λ i. none;
  network_of = λ o. ok (record { name = o; network_instance = "vpc-ran"; pools = none });
  injected_of = λ o. ok [];
  deployment_of = λ o.
      ok
        (record { capacity = none; parameters_refs = []; interfaces = []; network_instances = [] });
  is_ipv6 = λ prefix. ok false;
  spec = λ d. d;
  value = λ d spec. "spec";
}

abbrev config_named : String → InterfaceConfig
config_named name = record { name = name; ipv4 = none; ipv6 = none; vlan_id = none }

abbrev configs : Dict String (List InterfaceConfig)
configs =
    ("vpc-ran", config_named "n2" ∷ config_named "n3" ∷ [])
    ∷ ("vpc-internal", config_named "n4" ∷ [])
    ∷ []

instances_example :
    lookup "vpc-ran" (add_all_interfaces krm deployments configs new_function).network_instance
    ≡ completed sorting "vpc-ran"
        (lookup "vpc-ran" configs)
        (lookup "vpc-ran" (new_function {Capacity = String}).network_instance)
unfolding lookup string_eq
instances_example =
    lookup-add_all_interfaces krm deployments configs new_function "vpc-ran" (refl, (refl, tt))

instances_test :
    lookup "vpc-ran" (add_all_interfaces krm deployments configs new_function).network_instance
    ≡ some (record { name = "vpc-ran"; interfaces = "n3" ∷ "n2" ∷ []; data_networks = [] })
unfolding lookup string_eq add_all_interfaces new_function
instances_test = refl
