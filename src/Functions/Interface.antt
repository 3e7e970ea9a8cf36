-- ===== src/Functions/Interface.antt =====
-- krm-functions/interface-fn/fn/function.go: the claims that an Interface owns, and its status.
use nephio.Base.{
  String, ◌<>◌, Bool, not, Option, none, some, List, [], ◌∷◌, ◌++◌, Result, ok, err, Outcome, done,
  panic, and_then, ◌>>=◌, any, ◌==◌, string_eq, if◌then◌else◌,
}
use nephio.Base.Dict.{Dict, insert}
use nephio.Ref.{ObjectReference}
use nephio.Formatting.Update.{set_status}
use nephio.Functions.{World, WorkloadCluster, get_annotations, get_for_name}

-- `IpFamilyPolicy` with any other value, and `IPFamily`.
pub data IpFamilyPolicy : Type 0 where
  dual_stack ipv6_only ipv4_only other_policy : IpFamilyPolicy

pub data IpFamily : Type 0 where
  ipv4 ipv6 : IpFamily

-- What the function reads of an Interface.
pub record Spec : Type 0 where
  pub network_instance : Option ObjectReference
  pub cni_type : String
  pub attachment_type : String
  pub ip_family_policy : IpFamilyPolicy

pub record Meta : Type 0 where
  pub name : String
  pub annotations : Dict String String

pub data PrefixKind : Type 0 where
  network loopback : PrefixKind

-- The objects that are made: an IPClaim with its labels, a VLANClaim with its index, and a
-- NetworkAttachmentDefinition with an empty spec.
pub data Child : Type 0 where
  ip_claim : Meta → PrefixKind → ObjectReference → Dict String String → Child
  vlan_claim : Meta → String → Child
  nad : Meta → Child

-- The decoding of objects and the names of the API's packages.
pub record Types (w : World) : Type 1 where
  pub Interface : Type 0
  pub Claim : Type 0
  pub VlanClaim : Type 0
  pub spec : Interface → Spec
  pub interface_annotations : Interface → Dict String String
  pub decode : w.library.Object → Result w.library.Fault Interface
  -- `fn.NewFromTypedObject`
  pub new_from_typed_object : Child → Result w.library.Fault w.library.Object
  pub family_name : IpFamily → String
  pub attachment_vlan : String
  -- "cniType not supported in workload cluster; …", with the cluster's and the requested type
  pub unsupported_cni : List String → String → w.library.Fault
  pub cluster_name_key : String
  pub address_family_key : String
  pub network_name_key : String
  -- The owned claims, their statuses, and what the status of an Interface takes of them.
  pub is_ip_claim : w.library.Object → Bool
  pub is_vlan_claim : w.library.Object → Bool
  pub sort_by_name : List w.library.Object → List w.library.Object
  pub claim_status : w.library.Object → Result w.library.Fault Claim
  pub vlan_status : w.library.Object → Result w.library.Fault VlanClaim
  pub upsert_ip_claim : Interface → Claim → Interface
  pub set_vlan_claim : Interface → VlanClaim → Interface
  -- The interface as a value of the SDK.
  pub value : Interface → w.library.Value

-- `getAddressFamilies`
unfoldable pub get_address_families : IpFamilyPolicy → List IpFamily
get_address_families dual_stack = ipv4 ∷ ipv6 ∷ []
get_address_families ipv6_only = ipv6 ∷ []
get_address_families ipv4_only = ipv4 ∷ []
get_address_families other_policy = ipv4 ∷ []

-- `IsCNITypePresent`
unfoldable pub is_cni_type_present : WorkloadCluster → String → Bool
is_cni_type_present cluster cni_type = any (λ cni. cni == cni_type) cluster.cnis

module _ (w : World) (t : Types w) where
  open w.library use {Object, Fault}

  -- `getIPClaim`, less the conversion.
  unfoldable pub labels : WorkloadCluster → IpFamily → String → Dict String String
  unfolding insert
  labels cluster af purpose =
      let base =
        (t.cluster_name_key, cluster.cluster_name)
        ∷ (t.address_family_key, t.family_name af)
        ∷ [] in
      if not (purpose == "") then insert t.network_name_key purpose base else base

  -- The name and the annotations of a child, and `getAnnotationsWithvlanClaimName`.
  unfoldable pub base_name : Object → String
  unfolding get_for_name
  base_name o = get_for_name (w.annotations o) <> "-" <> w.object_name o

  unfoldable pub ip_claim_of :
      WorkloadCluster → Object → ObjectReference → PrefixKind → String → IpFamily → Child
  unfolding base_name labels get_annotations
  ip_claim_of cluster o ni kind purpose af =
      ip_claim
        (record {
          name = base_name o <> "-" <> t.family_name af;
          annotations = get_annotations w (w.annotations o);
        })
        kind ni (labels cluster af purpose)

  abbrev pub specializer_vlan_claim_name : String
  specializer_vlan_claim_name = "specializer.nephio.org/vlanClaimName"

  unfoldable pub get_annotations_with_vlan_claim_name :
      WorkloadCluster → ObjectReference → t.Interface → Dict String String
  unfolding get_annotations insert
  get_annotations_with_vlan_claim_name cluster ni itfce =
      insert specializer_vlan_claim_name (ni.name <> "-" <> cluster.cluster_name <> "-bd")
        (get_annotations w (t.interface_annotations itfce))

  unfoldable pub vlan_claim_of : WorkloadCluster → Object → ObjectReference → t.Interface → Child
  unfolding base_name get_annotations_with_vlan_claim_name
  vlan_claim_of cluster o ni itfce =
      vlan_claim
        (record {
          name = base_name o;
          annotations = get_annotations_with_vlan_claim_name cluster ni itfce;
        })
        cluster.cluster_name

  unfoldable pub nad_of : Object → Child
  unfolding base_name get_annotations
  nad_of o = nad (record { name = base_name o; annotations = get_annotations w (w.annotations o) })

  unfoldable pub ip_claims :
      WorkloadCluster → Object → ObjectReference → PrefixKind → String → List IpFamily → List Child
  unfolding ip_claim_of
  ip_claims cluster o ni kind purpose [] = []
  ip_claims cluster o ni kind purpose (af ∷ afs) =
      ip_claim_of cluster o ni kind purpose af ∷ ip_claims cluster o ni kind purpose afs

  -- The children of an interface that is not on the default network, in the order in which they are
  -- made; `purpose` is the annotation of the network's name.
  unfoldable pub children :
      WorkloadCluster → Object → ObjectReference → t.Interface → String → List Child
  unfolding ip_claims vlan_claim_of nad_of get_address_families
  children cluster o ni itfce purpose =
      let spec = t.spec itfce in
      let afs = get_address_families spec.ip_family_policy in
      if not (spec.cni_type == "")
      then ip_claims cluster o ni network purpose afs
        ++ (if spec.attachment_type == t.attachment_vlan
            then vlan_claim_of cluster o ni itfce ∷ nad_of o ∷ []
            else nad_of o ∷ [])
      else ip_claims cluster o ni loopback purpose afs

  -- Every child converted, up to the first error.
  unfoldable pub make_all : List Child → Result Fault (List Object)
  make_all [] = ok []
  make_all (c ∷ cs) =
      let rest = make_all cs in t.new_from_typed_object c >>= (λ o. rest >>= (λ os. ok (o ∷ os)))

  unfoldable pub desired_on :
      WorkloadCluster → Object → String → t.Interface → ObjectReference → Result Fault (List Object)
  unfolding make_all children is_cni_type_present
  desired_on cluster o purpose itfce ni =
      if ni.name == "default"
      then ok []
      else if (t.spec itfce).cni_type == ""
      then make_all (children cluster o ni itfce purpose)
      else if not (is_cni_type_present cluster (t.spec itfce).cni_type)
      then err (t.unsupported_cni cluster.cnis (t.spec itfce).cni_type)
      else make_all (children cluster o ni itfce purpose)

  -- `itfce.Spec.NetworkInstance.Name` of an interface without a network instance is a nil pointer's.
  unfoldable pub by_instance :
      WorkloadCluster
      → Object
      → String
      → t.Interface
      → Option ObjectReference
      → Outcome (Result Fault (List Object))
  unfolding desired_on
  by_instance cluster o purpose itfce none = panic
  by_instance cluster o purpose itfce (some ni) = done (desired_on cluster o purpose itfce ni)

  unfoldable pub desired_of :
      WorkloadCluster
      → Object
      → String
      → Result Fault t.Interface
      → Outcome (Result Fault (List Object))
  unfolding by_instance
  desired_of cluster o purpose (err e) = done (err e)
  desired_of cluster o purpose (ok itfce) =
      by_instance cluster o purpose itfce (t.spec itfce).network_instance

  -- `desiredOwnedResourceList`; `purpose` is `o.GetAnnotation(NephioNetworkNameKey)`.
  unfoldable pub desired_owned_resource_list :
      Option WorkloadCluster → Object → String → Outcome (Result Fault (List Object))
  unfolding desired_of
  desired_owned_resource_list none o purpose =
      done (err (w.library.errorf "workload cluster is missing from the kpt package"))
  desired_owned_resource_list (some cluster) o purpose = desired_of cluster o purpose (t.decode o)

  abbrev where_ : (Object → Bool) → List Object → List Object
  where_ p [] = []
  where_ p (o ∷ os) = if p o then o ∷ where_ p os else where_ p os

  unfoldable pub take_ip_claims : t.Interface → List Object → Result Fault t.Interface
  take_ip_claims itfce [] = ok itfce
  take_ip_claims itfce (o ∷ os) =
      t.claim_status o >>= (λ claim. take_ip_claims (t.upsert_ip_claim itfce claim) os)

  unfoldable pub take_vlan_claims : t.Interface → List Object → Result Fault t.Interface
  take_vlan_claims itfce [] = ok itfce
  take_vlan_claims itfce (o ∷ os) =
      t.vlan_status o >>= (λ claim. take_vlan_claims (t.set_vlan_claim itfce claim) os)

  -- The interface with the statuses of the claims it owns.
  unfoldable pub with_claims : t.Interface → List Object → Result Fault t.Interface
  unfolding take_ip_claims take_vlan_claims
  with_claims itfce objs =
      take_ip_claims itfce (t.sort_by_name (where_ t.is_ip_claim objs))
      >>= (λ taken. take_vlan_claims taken (where_ t.is_vlan_claim objs))

  abbrev answer : Object × Option Fault → List Object × Option Fault
  answer (o, e) = (o ∷ [], e)

  unfoldable pub store_claims :
      Object → Result Fault t.Interface → Outcome (List Object × Option Fault)
  store_claims o (err e) = done ([], some e)
  store_claims o (ok itfce) =
      and_then (set_status w.library o (t.value itfce)) (λ r. done (answer r))

  -- `updateItfceResource`
  unfoldable pub update_itfce_resource :
      Option Object → List Object → Outcome (List Object × Option Fault)
  unfolding store_claims with_claims
  update_itfce_resource none objs =
      done ([], some (w.library.errorf "expected a for object but got nil"))
  update_itfce_resource (some o) objs =
      store_claims o (t.decode o >>= (λ itfce. with_claims itfce objs))
