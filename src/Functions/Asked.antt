-- ===== src/Functions/Asked.antt =====
-- What an Interface asks for, and which objects answer it (krm-functions/interface-fn/fn/function.go).
use nephio.Base.{
  suc, ◌≤◌, String, ◌<>◌, ◌≡◌, refl, ap, subst, Bool, true, false, List, [], ◌∷◌, ◌++◌, ok,
  >>=-eq-ok, ok-injective, ◌==◌, string_eq, if◌then◌else◌, arith, length,
}
use nephio.Ref.{ObjectReference}
use nephio.Functions.{World, WorkloadCluster, get_for_name}
use nephio.Functions.Interface.{
  IpFamily, ipv4, ipv6, IpFamilyPolicy, dual_stack, ipv6_only, ipv4_only, other_policy, PrefixKind,
  network, loopback, Child, ip_claim, vlan_claim, nad, Types, make_all,
}

-- What an interface asks for: a claim for an address family, a VLAN claim, or a network attachment.
pub data Asked : Type 0 where
  claim : IpFamily → Asked
  vlan attachment : Asked

-- The address families of a policy: any policy but those of IPv6 means IPv4 alone.
abbrev pub wants : IpFamilyPolicy → IpFamily → Bool
wants dual_stack af = true
wants ipv6_only ipv4 = false
wants ipv6_only ipv6 = true
wants _ ipv4 = true
wants _ ipv6 = false

abbrev pub asked_claims : IpFamilyPolicy → List Asked
asked_claims p =
    (if wants p ipv4 then claim ipv4 ∷ [] else []) ++ (if wants p ipv6 then claim ipv6 ∷ [] else [])

-- On a CNI a network attachment, behind a VLAN claim if it is attached by VLAN.
abbrev pub on_network : Bool → Bool → List Asked
on_network true on_vlan = []
on_network false true = vlan ∷ attachment ∷ []
on_network false false = attachment ∷ []

module _ (w : World) (t : Types w) where
  open w.library use {Object, Fault}

  -- One claim for each address family, and what the CNI needs.
  abbrev pub asked : t.Interface → List Asked
  asked itfce =
      asked_claims (t.spec itfce).ip_family_policy
      ++ on_network ((t.spec itfce).cni_type == "")
          ((t.spec itfce).attachment_type == t.attachment_vlan)

  -- The name of the package's resource and that of the interface.
  abbrev pub name_of : Object → String
  name_of o = get_for_name (w.annotations o) <> "-" <> w.object_name o

  -- The child is what is asked for: a claim of the network instance, of the kind of prefix, under a
  -- name of its family; a VLAN claim of the cluster; a network attachment.
  abbrev pub IsFor :
      WorkloadCluster → Object → ObjectReference → PrefixKind → Asked → Child → Type 0
  IsFor cluster o ni kind (claim af) (ip_claim m kind' ni' labels) =
      (m.name ≡ name_of o <> "-" <> t.family_name af) × (kind' ≡ kind) × (ni' ≡ ni)
  IsFor cluster o ni kind vlan (vlan_claim m index) =
      (m.name ≡ name_of o) × (index ≡ cluster.cluster_name)
  IsFor cluster o ni kind attachment (nad m) = m.name ≡ name_of o
  IsFor cluster o ni kind _ _ = ⊥

  -- The objects, in order, are conversions of children for what is asked.
  abbrev pub AreFor :
      WorkloadCluster → Object → ObjectReference → PrefixKind → List Asked → List Object → Type 0
  AreFor cluster o ni kind [] [] = Unit
  AreFor cluster o ni kind (x ∷ xs) (p ∷ ps) =
      ((c : Child) × IsFor cluster o ni kind x c × (t.new_from_typed_object c ≡ ok p))
      × AreFor cluster o ni kind xs ps
  AreFor cluster o ni kind _ _ = ⊥

  abbrev pub AllFor :
      WorkloadCluster → Object → ObjectReference → PrefixKind → List Asked → List Child → Type 0
  AllFor cluster o ni kind [] [] = Unit
  AllFor cluster o ni kind (x ∷ xs) (c ∷ cs) =
      IsFor cluster o ni kind x c × AllFor cluster o ni kind xs cs
  AllFor cluster o ni kind _ _ = ⊥

  -- A network attachment is for a claim of a prefix in the network, and a claim without one for a
  -- loopback prefix.
  abbrev pub kind_of : t.Interface → PrefixKind
  kind_of itfce = if (t.spec itfce).cni_type == "" then loopback else network

  pub AllFor-append :
      (cluster : WorkloadCluster) (o : Object) (ni : ObjectReference) (kind : PrefixKind)
      (xs ys : List Asked) (cs ds : List Child)
      → AllFor cluster o ni kind xs cs
      → AllFor cluster o ni kind ys ds
      → AllFor cluster o ni kind (xs ++ ys) (cs ++ ds)
  AllFor-append cluster o ni kind [] ys [] ds h k = k
  AllFor-append cluster o ni kind (x ∷ xs) ys (c ∷ cs) ds (h, hs) k =
      (h, AllFor-append cluster o ni kind xs ys cs ds hs k)
  AllFor-append cluster o ni kind [] ys (c ∷ cs) ds h k = elim h [ ]
  AllFor-append cluster o ni kind (x ∷ xs) ys [] ds h k = elim h [ ]

  pub make_all-AreFor :
      (cluster : WorkloadCluster) (o : Object) (ni : ObjectReference) (kind : PrefixKind)
      (xs : List Asked) (cs : List Child) (os : List Object)
      → AllFor cluster o ni kind xs cs
      → make_all w t cs ≡ ok os
      → AreFor cluster o ni kind xs os
  unfolding make_all
  make_all-AreFor cluster o ni kind [] [] os all h =
      subst (AreFor cluster o ni kind []) (ok-injective h) tt
  make_all-AreFor cluster o ni kind (x ∷ xs) (c ∷ cs) os (here, all) h =
      let (p, made, more) = >>=-eq-ok (t.new_from_typed_object c) _ h in
      let (ps, others, e) = >>=-eq-ok (make_all w t cs) _ more in
      subst (AreFor cluster o ni kind (x ∷ xs)) (ok-injective e)
        ((c, here, made), make_all-AreFor cluster o ni kind xs cs ps all others)
  make_all-AreFor cluster o ni kind [] (c ∷ cs) os all h = elim all [ ]
  make_all-AreFor cluster o ni kind (x ∷ xs) [] os all h = elim all [ ]

  pub length-AreFor :
      (cluster : WorkloadCluster) (o : Object) (ni : ObjectReference) (kind : PrefixKind)
      (xs : List Asked) (os : List Object)
      → AreFor cluster o ni kind xs os
      → length os ≡ length xs
  length-AreFor cluster o ni kind [] [] h = refl
  length-AreFor cluster o ni kind (x ∷ xs) (p ∷ ps) h =
      ap suc (length-AreFor cluster o ni kind xs ps h.1)
  length-AreFor cluster o ni kind [] (p ∷ ps) h = elim h [ ]
  length-AreFor cluster o ni kind (x ∷ xs) [] h = elim h [ ]

  pub at_most_four :
      (p : IpFamilyPolicy) (off_cni on_vlan : Bool)
      → length (asked_claims p ++ on_network off_cni on_vlan) ≤ 4
  at_most_four dual_stack true c = omega arith
  at_most_four dual_stack false true = omega arith
  at_most_four dual_stack false false = omega arith
  at_most_four ipv6_only true c = omega arith
  at_most_four ipv6_only false true = omega arith
  at_most_four ipv6_only false false = omega arith
  at_most_four ipv4_only true c = omega arith
  at_most_four ipv4_only false true = omega arith
  at_most_four ipv4_only false false = omega arith
  at_most_four other_policy true c = omega arith
  at_most_four other_policy false true = omega arith
  at_most_four other_policy false false = omega arith
