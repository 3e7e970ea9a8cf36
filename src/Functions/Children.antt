-- ===== src/Functions/Children.antt =====
-- Which objects an Interface owns (krm-functions/interface-fn/fn/function.go).
use nephio.Base.{
  ◌≤◌, String, ◌≡◌, refl, sym, subst, Bool, true, false, some, List, [], ◌∷◌, Result, ok, done,
  ◌==◌, ◌||◌, any, ◌∙◌, string_eq, arith, inl, inr, Bool-cases, length,
}
use mathlib.Core.List.{append-nil}
use nephio.Ref.{ObjectReference}
use nephio.Functions.{World, WorkloadCluster}
use nephio.Functions.Interface.{
  IpFamilyPolicy, dual_stack, ipv6_only, ipv4_only, other_policy, PrefixKind, network, loopback,
  Child, Types, get_address_families, base_name, ip_claim_of, vlan_claim_of, nad_of, ip_claims,
  children, make_all, is_cni_type_present, desired_on, by_instance, desired_of,
  desired_owned_resource_list,
}
use nephio.Functions.Asked.{
  asked_claims, vlan, attachment, asked, IsFor, AreFor, AllFor, kind_of, AllFor-append,
  make_all-AreFor, length-AreFor, at_most_four,
}

module _ (w : World) (t : Types w) where
  open w.library use {Object, Fault}

  ip_claims-AllFor :
      (cluster : WorkloadCluster) (o : Object) (ni : ObjectReference) (kind : PrefixKind)
      (purpose : String) (p : IpFamilyPolicy)
      → AllFor w t cluster o ni kind
          (asked_claims p)
          (ip_claims w t cluster o ni kind purpose (get_address_families p))
  unfolding ip_claims get_address_families ip_claim_of base_name
  ip_claims-AllFor cluster o ni kind purpose dual_stack =
      ((refl, refl, refl), ((refl, refl, refl), tt))
  ip_claims-AllFor cluster o ni kind purpose ipv6_only = ((refl, refl, refl), tt)
  ip_claims-AllFor cluster o ni kind purpose ipv4_only = ((refl, refl, refl), tt)
  ip_claims-AllFor cluster o ni kind purpose other_policy = ((refl, refl, refl), tt)

  vlan_claim_of-IsFor :
      (cluster : WorkloadCluster) (o : Object) (ni : ObjectReference) (kind : PrefixKind)
      (itfce : t.Interface)
      → IsFor w t cluster o ni kind vlan (vlan_claim_of w t cluster o ni itfce)
  unfolding vlan_claim_of base_name
  vlan_claim_of-IsFor cluster o ni kind itfce = (refl, refl)

  nad_of-IsFor :
      (cluster : WorkloadCluster) (o : Object) (ni : ObjectReference) (kind : PrefixKind)
      → IsFor w t cluster o ni kind attachment (nad_of w t o)
  unfolding nad_of base_name
  nad_of-IsFor cluster o ni kind = refl

  children-AllFor :
      (cluster : WorkloadCluster) (o : Object) (ni : ObjectReference) (itfce : t.Interface)
      (purpose : String)
      → AllFor w t cluster o ni
          (kind_of w t itfce)
          (asked w t itfce)
          (children w t cluster o ni itfce purpose)
  unfolding children
  children-AllFor cluster o ni itfce purpose =
      let p = (t.spec itfce).ip_family_policy in
      let claims = ip_claims w t cluster o ni network purpose (get_address_families p) in
      let on_cni = ip_claims-AllFor cluster o ni network purpose p in
      let attached = nad_of-IsFor cluster o ni network in
      elim (Bool-cases ((t.spec itfce).cni_type == "")) [
        | inl e ↦
            let loops = ip_claims w t cluster o ni loopback purpose (get_address_families p) in
            rw e (
              subst (λ xs. AllFor w t cluster o ni loopback xs loops)
                (sym (append-nil (asked_claims p)))
                (ip_claims-AllFor cluster o ni loopback purpose p))
        | inr e ↦ elim (Bool-cases ((t.spec itfce).attachment_type == t.attachment_vlan)) [
          | inl v ↦
              rw (e, v)
                (AllFor-append w t cluster o ni network (asked_claims p) (vlan ∷ attachment ∷ [])
                  claims (vlan_claim_of w t cluster o ni itfce ∷ nad_of w t o ∷ []) on_cni
                  (vlan_claim_of-IsFor cluster o ni network itfce, (attached, tt)))
          | inr v ↦
              rw (e, v)
                (AllFor-append w t cluster o ni network (asked_claims p) (attachment ∷ []) claims
                  (nad_of w t o ∷ []) on_cni (attached, tt))
        ]
      ]

  desired_on-AreFor :
      (cluster : WorkloadCluster) (o : Object) (purpose : String) (itfce : t.Interface)
      (ni : ObjectReference) (os : List Object)
      → (ni.name == "default") ≡ false
      → desired_on w t cluster o purpose itfce ni ≡ ok os
      → AreFor w t cluster o ni (kind_of w t itfce) (asked w t itfce) os
  unfolding desired_on
  desired_on-AreFor cluster o purpose itfce ni os other h =
      let made : make_all w t (children w t cluster o ni itfce purpose) ≡ ok os = ground arith in
      make_all-AreFor w t cluster o ni (kind_of w t itfce) (asked w t itfce)
        (children w t cluster o ni itfce purpose) os (children-AllFor cluster o ni itfce purpose)
        made

  -- Every child can be made into an object.
  abbrev pub Converts : Type 0
  Converts = (c : Child) → (p : Object) × (t.new_from_typed_object c ≡ ok p)

  make_all-Converts : (cs : List Child) → Converts → (os : List Object) × (make_all w t cs ≡ ok os)
  unfolding make_all
  make_all-Converts [] h = ([], refl)
  make_all-Converts (c ∷ cs) h =
      let (p, made) = h c in
      let (ps, others) = make_all-Converts cs h in (p ∷ ps, rw (made, others) refl)

  -- The interface names no CNI, or one of the cluster's.
  abbrev pub is_supported : WorkloadCluster → t.Interface → Bool
  is_supported cluster itfce =
      (t.spec itfce).cni_type == "" || any (λ cni. cni == (t.spec itfce).cni_type) cluster.cnis

  desired_on-is_supported :
      (cluster : WorkloadCluster) (o : Object) (purpose : String) (itfce : t.Interface)
      (ni : ObjectReference)
      → (ni.name == "default") ≡ false
      → is_supported cluster itfce ≡ true
      → desired_on w t cluster o purpose itfce ni
        ≡ make_all w t (children w t cluster o ni itfce purpose)
  unfolding desired_on is_cni_type_present
  desired_on-is_supported cluster o purpose itfce ni other h = ground arith

  desired_on-is_made :
      (cluster : WorkloadCluster) (o : Object) (purpose : String) (itfce : t.Interface)
      (ni : ObjectReference)
      → (ni.name == "default") ≡ false
      → is_supported cluster itfce ≡ true
      → Converts
      → (os : List Object) × (desired_on w t cluster o purpose itfce ni ≡ ok os)
  desired_on-is_made cluster o purpose itfce ni other supported converts =
      let (os, made) = make_all-Converts (children w t cluster o ni itfce purpose) converts in
      (os, desired_on-is_supported cluster o purpose itfce ni other supported ∙ made)

  -- For an interface with a network instance that is not the default network, `desiredOwnedResourceList`
  -- does not panic, and what it returns without an error are, in this order: a claim of the
  -- network instance for each address family of the policy, IPv4 first, whose name ends in the
  -- family's, of a network prefix where the interface names a CNI and of a loopback prefix
  -- otherwise; and on a CNI a VLAN claim of the cluster, if the interface is attached by VLAN, and
  -- a network attachment. They are at most four. There is no error where the interface names no
  -- CNI or one of the cluster's, and every object can be made.
  pub desired_owned_resource_list_lem :
      (cluster : WorkloadCluster) (o : Object) (purpose : String) (itfce : t.Interface)
      (ni : ObjectReference)
      → t.decode o ≡ ok itfce
      → (t.spec itfce).network_instance ≡ some ni
      → (ni.name == "default") ≡ false
      → (r : Result Fault (List Object)) × (desired_owned_resource_list w t (some cluster) o purpose
          ≡ done r)
        × ((os : List Object)
            → r ≡ ok os
            → AreFor w t cluster o ni (kind_of w t itfce) (asked w t itfce) os × (length os ≤ 4))
        × (is_supported cluster itfce ≡ true → Converts → (os : List Object) × (r ≡ ok os))
  unfolding desired_owned_resource_list desired_of by_instance
  desired_owned_resource_list_lem cluster o purpose itfce ni decoded named other = (
    desired_on w t cluster o purpose itfce ni,
    rw (decoded, named) refl,
    λ os e.
        let all = desired_on-AreFor cluster o purpose itfce ni os other e in
        let l = length-AreFor w t cluster o ni (kind_of w t itfce) (asked w t itfce) os all in
        (
          all,
          omega (
            arith,
            l,
            at_most_four w t (t.spec itfce).ip_family_policy ((t.spec itfce).cni_type == "")
                ((t.spec itfce).attachment_type == t.attachment_vlan),
          ),
        ),
    desired_on-is_made cluster o purpose itfce ni other,
  )
