-- ===== src/Functions/Deployment/Update.antt =====
-- krm-functions/nfdeploy-fn/fn/function.go: the update of an NFDeployment from the objects that it owns.
pub mod Instances
use nephio.Base.{
  String, ℕ, Bool, true, false, Option, none, some, List, [], ◌∷◌, Result, ok, err, Outcome, done,
  panic, and_then, ◌>>=◌, string_eq, if◌then◌else◌,
}
use nephio.Base.Dict.{Dict, lookup, insert}
use nephio.Ref.{ObjectReference}
use nephio.Formatting.Update.{set_spec}
use nephio.Functions.{World, WorkloadCluster}
use nephio.Functions.Deployment.{
  Address, InterfaceConfig, NetworkInstance, ParameterRef, NfDeployFn, str_le, Sorting,
  set_interface_config, add_dnn_to_network_instance, add_interface_to_network_instance,
  get_all_network_instance, get_all_interface_config, add_dependency_refs,
}

-- One of the IP claims in the status of an Interface, and what is read of the owned objects; the
-- two statuses of an Interface may be nil.
pub record ClaimStatus : Type 0 where
  pub prefix : Option String
  pub gateway : Option String

pub record InterfaceObject : Type 0 where
  pub name : String
  pub network_instance : Option ObjectReference
  pub ip_claim_status : Option (List ClaimStatus)
  pub vlan_claim_status : Option (Option ℕ)

-- The prefixes of a DataNetwork's pools, or none where the status has no pools.
pub record NetworkObject : Type 0 where
  pub name : String
  pub network_instance : String
  pub pools : Option (List (Option String))

-- The spec of an NFDeployment.
pub record Spec (Capacity : Type 0) : Type 0 where
  pub capacity : Option Capacity
  pub parameters_refs : List ParameterRef
  pub interfaces : List InterfaceConfig
  pub network_instances : List NetworkInstance

-- Decoding, validation and the parser of prefixes.
pub record Types (w : World) : Type 1 where
  pub Capacity : Type 0
  pub Deployment : Type 0
  pub sorting : Sorting
  pub is_capacity : w.library.Object → Bool
  pub is_network : w.library.Object → Bool
  pub is_interface : w.library.Object → Bool
  pub is_dependency : w.library.Object → Bool
  pub capacity_of : w.library.Object → Result w.library.Fault Capacity
  pub interface_of : w.library.Object → Result w.library.Fault InterfaceObject
  pub validate_interface : InterfaceObject → Option w.library.Fault
  pub network_of : w.library.Object → Result w.library.Fault NetworkObject
  pub injected_of : w.library.Object → Result w.library.Fault (List ObjectReference)
  pub deployment_of : w.library.Object → Result w.library.Fault Deployment
  -- `iputil.New`, and whether the prefix is of IPv6
  pub is_ipv6 : String → Result w.library.Fault Bool
  pub spec : Deployment → Spec Capacity
  pub value : Deployment → Spec Capacity → w.library.Value

module _ (w : World) (t : Types w) where
  open w.library use {Object, Fault}

  abbrev pub Held : Type 0
  Held = NfDeployFn t.Capacity

  -- `CapacityUpdate`
  unfoldable pub capacity_update : Object → Held → Result Fault Held
  capacity_update o h = t.capacity_of o >>= (λ capacity. ok (record h { capacity = some capacity }))

  -- The loop over the claims of an interface: its last address of each family.
  abbrev pub Addresses : Type 0
  Addresses = Option Address × Option Address

  abbrev pub with_address : Bool → Address → Addresses → Addresses
  with_address true a (v4, v6) = (v4, some a)
  with_address false a (v4, v6) = (some a, v6)

  unfoldable pub collect_addresses : List ClaimStatus → Addresses → Result Fault Addresses
  collect_addresses [] found = ok found
  collect_addresses (status ∷ rest) found = elim status.prefix [
    | none ↦ collect_addresses rest found
    | some prefix ↦ t.is_ipv6 prefix >>= (λ v6.
        collect_addresses rest
          (with_address v6 (record { address = prefix; gateway = status.gateway }) found))
  ]

  unfoldable pub config_of :
      InterfaceObject → String → Option ℕ → Held → Result Fault Addresses → Result Fault Held
  unfolding set_interface_config
  config_of itfce instance_name vlan_id h found = found >>= (λ (v4, v6). ok (
      set_interface_config (record { name = itfce.name; ipv4 = v4; ipv6 = v6; vlan_id = vlan_id })
        instance_name h))

  abbrev at_instance :
      Option ObjectReference → (String → Result Fault Held) → Outcome (Result Fault Held)
  at_instance none f = panic
  at_instance (some ni) f = done (f ni.name)

  abbrev collected_first :
      Result Fault Addresses → Outcome (Result Fault Held) → Outcome (Result Fault Held)
  collected_first (err e) later = done (err e)
  collected_first (ok found) later = later

  -- The statuses that are not nil; a failure of the parser comes before the name of a nil network
  -- instance is read.
  unfoldable pub with_statuses :
      InterfaceObject
      → Option (List ClaimStatus)
      → Option (Option ℕ)
      → Held
      → Outcome (Result Fault Held)
  unfolding config_of collect_addresses
  with_statuses itfce none vlan h = done (ok h)
  with_statuses itfce (some claims) none h = done (ok h)
  with_statuses itfce (some claims) (some vlan_id) h =
      let found = collect_addresses claims (none, none) in
      collected_first found
        (at_instance itfce.network_instance (λ name. config_of itfce name vlan_id h found))

  abbrev unless_invalid : Option Fault → Outcome (Result Fault Held) → Outcome (Result Fault Held)
  unless_invalid (some e) rest = done (err e)
  unless_invalid none rest = rest

  unfoldable pub with_interface_object :
      Held → Result Fault InterfaceObject → Outcome (Result Fault Held)
  unfolding with_statuses
  with_interface_object h (err e) = done (err e)
  with_interface_object h (ok itfce) =
      unless_invalid (t.validate_interface itfce)
        (with_statuses itfce itfce.ip_claim_status itfce.vlan_claim_status h)

  -- `InterfaceUpdate`
  unfoldable pub interface_update : Object → Held → Outcome (Result Fault Held)
  unfolding with_interface_object
  interface_update o h = with_interface_object h (t.interface_of o)

  abbrev pub prefixes : List (Option String) → List String
  prefixes [] = []
  prefixes (none ∷ pools) = prefixes pools
  prefixes (some prefix ∷ pools) = prefix ∷ prefixes pools

  unfoldable pub with_pools : NetworkObject → Option (List (Option String)) → Held → Held
  unfolding add_dnn_to_network_instance
  with_pools dnn none h = h
  with_pools dnn (some pools) h =
      add_dnn_to_network_instance (record { name = dnn.name; pools = prefixes pools })
        dnn.network_instance h

  -- `DnnUpdate`
  unfoldable pub dnn_update : Object → Held → Result Fault Held
  unfolding with_pools
  dnn_update o h = t.network_of o >>= (λ dnn. ok (with_pools dnn dnn.pools h))

  unfoldable pub with_injected :
      Held → Result Fault (List ObjectReference) → Outcome (Result Fault Held)
  unfolding add_dependency_refs
  with_injected h (err e) = done (err e)
  with_injected h (ok refs) =
      and_then (add_dependency_refs refs h.param_ref)
        (λ qs. done (ok (record h { param_ref = qs })))

  -- `DependencyUpdate`
  unfoldable pub dependency_update : Object → Held → Outcome (Result Fault Held)
  unfolding with_injected
  dependency_update o h = with_injected h (t.injected_of o)

  -- One of the four loops over the owned objects: those of a kind, up to the first error.
  abbrev pub and_then_ok :
      {A : Type 0}
      → Outcome (Result Fault A)
      → (A → Outcome (Result Fault A))
      → Outcome (Result Fault A)
  and_then_ok panic f = panic
  and_then_ok (done (err e)) f = done (err e)
  and_then_ok (done (ok h)) f = f h

  unfoldable pub each :
      (Object → Bool)
      → (Object → Held → Outcome (Result Fault Held))
      → List Object
      → Held
      → Outcome (Result Fault Held)
  each is_kind update [] h = done (ok h)
  each is_kind update (o ∷ os) h =
      if is_kind o
      then and_then_ok (update o h) (λ g. each is_kind update os g)
      else each is_kind update os h

  unfoldable pub gather : List Object → Held → Outcome (Result Fault Held)
  unfolding each capacity_update dnn_update interface_update dependency_update
  gather objs h = and_then_ok (each t.is_capacity (λ o g. done (capacity_update o g)) objs h) (λ h1.
      and_then_ok (each t.is_network (λ o g. done (dnn_update o g)) objs h1) (λ h2.
        and_then_ok (each t.is_interface interface_update objs h2)
          (λ h3. each t.is_dependency dependency_update objs h3)))

  unfoldable pub add_interfaces : String → List InterfaceConfig → Held → Held
  unfolding add_interface_to_network_instance
  add_interfaces instance_name [] h = h
  add_interfaces instance_name (config ∷ configs) h =
      add_interfaces instance_name configs
        (add_interface_to_network_instance config.name instance_name h)

  abbrev pub sorted :
      Option NetworkInstance → Dict String NetworkInstance → String → Dict String NetworkInstance
  sorted none m name = m
  sorted (some ni) m name =
      insert name (record ni { interfaces = t.sorting.sort String str_le ni.interfaces }) m

  -- The loop over the configurations of the interfaces, by network instance.
  unfoldable pub add_all_interfaces : Dict String (List InterfaceConfig) → Held → Held
  unfolding add_interfaces lookup insert
  add_all_interfaces [] h = h
  add_all_interfaces ((name, configs) ∷ rest) h =
      let g : Held = add_interfaces name configs h in
      add_all_interfaces rest (record g {
        network_instance = sorted (lookup name g.network_instance) g.network_instance name;
      })

  -- The order of the parameters' references, where a nil name precedes anything.
  abbrev ref_le : Option String → Option String → Bool
  ref_le (some a) (some b) = str_le a b
  ref_le _ _ = true

  -- `FillCapacityDetails`
  abbrev pub fill_capacity_details : Option t.Capacity → Option t.Capacity → Option t.Capacity
  fill_capacity_details none old = old
  fill_capacity_details (some capacity) old = some capacity

  unfoldable pub spec_of : Spec t.Capacity → Held → Spec t.Capacity
  unfolding add_all_interfaces get_all_network_instance get_all_interface_config
  spec_of old h =
      let g : Held = add_all_interfaces h.interface_configs_map h in
      record {
        capacity = fill_capacity_details h.capacity old.capacity;
        parameters_refs = t.sorting.sort ParameterRef (λ p q. ref_le p.name q.name) h.param_ref;
        interfaces = get_all_interface_config t.sorting g;
        network_instances = get_all_network_instance t.sorting g;
      }

  abbrev pub Answer : Type 0
  Answer = List Object × Option Fault

  abbrev only : Object × Option Fault → Answer
  only (o, e) = (o ∷ [], e)

  -- The answer, and what the function keeps for its next call; with an error, what the loops had
  -- gathered before it is left out.
  abbrev pub Updated : Type 0
  Updated = Answer × Option Held

  unfoldable pub store_spec : Object → t.Deployment → Result Fault Held → Outcome Updated
  unfolding spec_of
  store_spec o nf (err e) = done (([], some e), none)
  store_spec o nf (ok h) =
      and_then (set_spec w.library o (t.value nf (spec_of (t.spec nf) h))) (λ r. done (
        only r,
        some (record (add_all_interfaces h.interface_configs_map h) {
          param_ref = (spec_of (t.spec nf) h).parameters_refs;
        }),
      ))

  unfoldable pub with_deployment :
      Object → List Object → Held → Result Fault t.Deployment → Outcome Updated
  unfolding store_spec gather
  with_deployment o objs h (err e) = done (([], some e), none)
  with_deployment o objs h (ok nf) =
      let start : Held = record h { param_ref = (t.spec nf).parameters_refs } in
      and_then (gather objs start) (λ gathered. store_spec o nf gathered)

  -- `UpdateResourceFn`
  unfoldable pub update_resource_fn : Option Object → List Object → Held → Outcome Updated
  unfolding with_deployment
  update_resource_fn none objs h =
      done (([], some (w.library.errorf "expected a for object but got nil")), none)
  update_resource_fn (some o) objs h = with_deployment o objs h (t.deployment_of o)

  -- `desiredOwnedResourceList`
  unfoldable pub desired_owned_resource_list :
      Option WorkloadCluster → Object → Result Fault (List Object)
  desired_owned_resource_list none o =
      err (w.library.errorf "workload cluster is missing from the kpt package")
  desired_owned_resource_list (some cluster) o = ok []
