-- ===== src/Functions/Deployment/Update/Instances.antt =====
-- The interfaces of the network instances of an NFDeployment (the last loop of `UpdateResourceFn`
-- in krm-functions/nfdeploy-fn/fn/function.go).
use nephio.Base.{
  String, ◌≡◌, refl, sym, ap, subst, ◌∙◌, true, false, Option, none, some, List, [], ◌∷◌, ◌++◌, map,
  ◌==◌, string_eq, if◌then◌else◌, arith, inl, inr, Bool-cases,
}
use mathlib.Core.List.{append-nil, append_assoc}
use nephio.Base.Dict.{Dict, lookup, insert, lookup-insert}
use nephio.Functions.{World}
use nephio.Functions.Deployment.{
  InterfaceConfig, NetworkInstance, Sorting, str_le, with_interface,
  add_interface_to_network_instance,
}
use nephio.Functions.Deployment.Update.{Types, Held, sorted, add_interfaces, add_all_interfaces}

-- No key is there twice.
abbrev pub IsMap : {V : Type 0} → Dict String V → Type 0
IsMap [] = Unit
IsMap ((key, v) ∷ rest) = (lookup key rest ≡ none) × IsMap rest

abbrev pub names : List InterfaceConfig → List String
names configs = map (λ c. c.name) configs

-- An instance of the name with the interfaces of the configurations behind its own.
abbrev pub joined : String → List InterfaceConfig → Option NetworkInstance → Option NetworkInstance
joined name [] none = none
joined name (c ∷ cs) none =
    some (record { name = name; interfaces = names (c ∷ cs); data_networks = [] })
joined name cs (some ni) = some (record ni { interfaces = ni.interfaces ++ names cs })

abbrev pub sort_interfaces : Sorting → Option NetworkInstance → Option NetworkInstance
sort_interfaces g none = none
sort_interfaces g (some ni) = some (record ni { interfaces = g.sort String str_le ni.interfaces })

-- What the loop leaves of an instance, from the configurations under its name.
abbrev pub completed :
    Sorting
    → String
    → Option (List InterfaceConfig)
    → Option NetworkInstance
    → Option NetworkInstance
completed g name none old = old
completed g name (some configs) old = sort_interfaces g (joined name configs old)

joined-nil : (name : String) (old : Option NetworkInstance) → joined name [] old ≡ old
joined-nil name none = refl
joined-nil name (some ni) =
    ap (λ xs. some (record ni { interfaces = xs })) (append-nil ni.interfaces)

joined-with_interface :
    (name : String) (c : InterfaceConfig) (cs : List InterfaceConfig) (old : Option NetworkInstance)
    → joined name cs (some (with_interface c.name name old)) ≡ joined name (c ∷ cs) old
joined-with_interface name c cs none = refl
joined-with_interface name c cs (some ni) =
    ap (λ xs. some (record ni { interfaces = xs }))
      (append_assoc ni.interfaces (c.name ∷ []) (names cs))

eq_refl : (k : String) → (k == k) ≡ true
eq_refl k = ground arith

eq_sound : (k j : String) → (k == j) ≡ true → k ≡ j
eq_sound k j h = ground arith

lookup-insert_same :
    {V : Type 0} (k : String) (v : V) (m : Dict String V) → lookup k (insert k v m) ≡ some v
lookup-insert_same k v m = rw (lookup-insert k k v m, eq_refl k) refl

lookup-insert_other :
    {V : Type 0} (j k : String) (v : V) (m : Dict String V)
    → (k == j) ≡ false
    → lookup j (insert k v m) ≡ lookup j m
lookup-insert_other j k v m h = rw (lookup-insert j k v m, h) refl

module _ (w : World) (t : Types w) where
  lookup-add_interfaces :
      (name : String) (cs : List InterfaceConfig) (h : Held w t)
      → lookup name (add_interfaces w t name cs h).network_instance
        ≡ joined name cs (lookup name h.network_instance)
  unfolding add_interfaces add_interface_to_network_instance
  lookup-add_interfaces name [] h = sym (joined-nil name (lookup name h.network_instance))
  lookup-add_interfaces name (c ∷ cs) h =
      let old = lookup name h.network_instance in
      lookup-add_interfaces name cs (add_interface_to_network_instance c.name name h)
      ∙ ap (joined name cs)
          (lookup-insert_same name (with_interface c.name name old) h.network_instance)
      ∙ joined-with_interface name c cs old

  lookup-add_interfaces_other :
      (j name : String) (cs : List InterfaceConfig) (h : Held w t)
      → (name == j) ≡ false
      → lookup j (add_interfaces w t name cs h).network_instance ≡ lookup j h.network_instance
  unfolding add_interfaces add_interface_to_network_instance
  lookup-add_interfaces_other j name [] h k = refl
  lookup-add_interfaces_other j name (c ∷ cs) h k =
      lookup-add_interfaces_other j name cs (add_interface_to_network_instance c.name name h) k
      ∙ lookup-insert_other j name (with_interface c.name name (lookup name h.network_instance))
          h.network_instance k

  lookup-sorted :
      (name : String) (old : Option NetworkInstance) (m : Dict String NetworkInstance)
      → lookup name m ≡ old
      → lookup name (sorted w t old m name) ≡ sort_interfaces t.sorting old
  lookup-sorted name none m h = h
  lookup-sorted name (some ni) m h = lookup-insert_same name _ m

  lookup-sorted_other :
      (j name : String) (old : Option NetworkInstance) (m : Dict String NetworkInstance)
      → (name == j) ≡ false
      → lookup j (sorted w t old m name) ≡ lookup j m
  lookup-sorted_other j name none m h = refl
  lookup-sorted_other j name (some ni) m h = lookup-insert_other j name _ m h

  -- One iteration of the loop.
  abbrev iterated : String → List InterfaceConfig → Held w t → Held w t
  iterated name cs h =
      let g : Held w t = add_interfaces w t name cs h in
      record g {
        network_instance = sorted w t (lookup name g.network_instance) g.network_instance name;
      }

  lookup-iterated :
      (name : String) (cs : List InterfaceConfig) (h : Held w t)
      → lookup name (iterated name cs h).network_instance
        ≡ completed t.sorting name (some cs) (lookup name h.network_instance)
  lookup-iterated name cs h =
      let m = (add_interfaces w t name cs h).network_instance in
      lookup-sorted name (lookup name m) m refl
      ∙ ap (sort_interfaces t.sorting) (lookup-add_interfaces name cs h)

  lookup-iterated_other :
      (j name : String) (cs : List InterfaceConfig) (h : Held w t)
      → (name == j) ≡ false
      → lookup j (iterated name cs h).network_instance ≡ lookup j h.network_instance
  lookup-iterated_other j name cs h k =
      let m = (add_interfaces w t name cs h).network_instance in
      lookup-sorted_other j name (lookup name m) m k ∙ lookup-add_interfaces_other j name cs h k

  lookup-absent :
      (j : String) (m : Dict String (List InterfaceConfig)) (h : Held w t)
      → lookup j m ≡ none
      → lookup j (add_all_interfaces w t m h).network_instance ≡ lookup j h.network_instance
  unfolding add_all_interfaces lookup
  lookup-absent j [] h k = refl
  lookup-absent j ((name, cs) ∷ rest) h k = elim (Bool-cases (name == j)) [
    | inl e ↦ ground arith
    | inr e ↦
        let there : lookup j rest ≡ none = ground arith in
        lookup-absent j rest (iterated name cs h) there ∙ lookup-iterated_other j name cs h e
  ]

  -- Behind the loop, the network instance of a name has its interfaces and then those of the
  -- configurations under its name, in their order, all sorted: it is made if there are such
  -- configurations and no instance, and is as before if there are none under its name.
  pub lookup-add_all_interfaces :
      (m : Dict String (List InterfaceConfig)) (h : Held w t) (j : String)
      → IsMap m
      → lookup j (add_all_interfaces w t m h).network_instance
        ≡ completed t.sorting j (lookup j m) (lookup j h.network_instance)
  unfolding add_all_interfaces lookup
  lookup-add_all_interfaces [] h j once = refl
  lookup-add_all_interfaces ((name, cs) ∷ rest) h j once = elim (Bool-cases (name == j)) [
    | inl e ↦
        subst
          (λ i.
            lookup i (add_all_interfaces w t rest (iterated name cs h)).network_instance
            ≡ completed t.sorting i (if name == i then some cs else lookup i rest)
                (lookup i h.network_instance))
          (eq_sound name j e)
          (lookup-absent name rest (iterated name cs h) once.0
            ∙ lookup-iterated name cs h
            ∙ rw (eq_refl name) refl)
    | inr e ↦
        lookup-add_all_interfaces rest (iterated name cs h) j once.1
        ∙ rw (e, lookup-iterated_other j name cs h e) refl
  ]
