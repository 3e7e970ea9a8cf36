-- ===== src/Inventory/Tree/Laws.antt =====
-- The tree of resources as a map from paths of references to resource contexts.
use nephio.Base.{
  ◌≡◌, ◌≢◌, refl, Bool, true, false, ◌&&◌, Option, none, some, List, [], ◌∷◌, ◌==◌, if◌then◌else◌,
  is_some, Option-cases, inl, inr, arith,
}
use nephio.Base.Dict.{lookup, lookup-insert}
use nephio.Ref.{ObjectReference, empty_ref, ref_eq, not_found}
use nephio.Inventory.{
  GvkKind, for, gvk_kind_eq, SdkObjectReference, sdk_ref_eq, GvkKindCtx, ResourceCtx, Resources,
  node, Children, nil, child, zero_ctx,
}
use nephio.Inventory.Tree.{
  Entry, lookup_child, put_child, or_init, set_ctx, set, delete, ctx_of, collect, get,
}

abbrev pub is_prefix : List SdkObjectReference → List SdkObjectReference → Bool
is_prefix [] p = true
is_prefix (s ∷ q) [] = false
is_prefix (s ∷ q) (r ∷ p) = s == r && is_prefix q p

abbrev pub same_path : List SdkObjectReference → List SdkObjectReference → Bool
same_path [] [] = true
same_path (s ∷ q) (r ∷ p) = s == r && same_path q p
same_path _ _ = false

module _ {O : Type 0} where
  abbrev pub or_zero : Option (ResourceCtx O) → ResourceCtx O
  or_zero none = zero_ctx
  or_zero (some c) = c

  unfoldable pub ctx_at : List SdkObjectReference → Resources O → Option (ResourceCtx O)
  ctx_at [] (node c children) = some c
  ctx_at (r ∷ p) (node c children) = elim (lookup_child r children) [
    | none ↦ none
    | some n ↦ ctx_at p n
  ]

  lookup_child-put_child :
      (r s : SdkObjectReference) (n : Resources O) (children : Children O)
      → lookup_child s (put_child r n children)
        ≡ (if r == s then some n else lookup_child s children)
  unfolding lookup_child put_child
  lookup_child-put_child r s n nil = refl
  lookup_child-put_child r s n (child t m rest) = ground (arith, lookup_child-put_child r s n rest)

  -- A resource that has just been initialised, and one that is not there.
  or_zero-ctx_at-or_init :
      (p : List SdkObjectReference) (o : Option (Resources O))
      → or_zero (ctx_at p (or_init o)) ≡ or_zero (elim o [ none ↦ none | some n ↦ ctx_at p n ])
  unfolding ctx_at lookup_child
  or_zero-ctx_at-or_init [] none = refl
  or_zero-ctx_at-or_init (r ∷ p) none = refl
  or_zero-ctx_at-or_init p (some n) = refl

  ctx_at_fresh :
      (p q : List SdkObjectReference) → is_prefix q p ≡ false → ctx_at q (or_init none) ≡ none
  unfolding ctx_at lookup_child
  ctx_at_fresh p [] h = cc
  ctx_at_fresh p (s ∷ q) h = refl

  module _ (kc : GvkKindCtx O) (x : Entry O) (new_resource failed : Bool) where
    ctx_at-set_self :
        (p : List SdkObjectReference) (n : Resources O)
        → ctx_at p (set p kc x new_resource failed n).0
          ≡ some (set_ctx kc x new_resource failed (or_zero (ctx_at p n))).0
    unfolding ctx_at set
    ctx_at-set_self [] (node c children) = refl
    ctx_at-set_self (r ∷ p) (node c children) = ground (
      arith,
      lookup_child-put_child r r
          (set p kc x new_resource failed (or_init (lookup_child r children))).0 children,
      ctx_at-set_self p (or_init (lookup_child r children)),
      or_zero-ctx_at-or_init p (lookup_child r children),
    )

    ctx_at-set_other :
        (p q : List SdkObjectReference) (n : Resources O)
        → is_prefix q p ≡ false
        → ctx_at q (set p kc x new_resource failed n).0 ≡ ctx_at q n
    unfolding ctx_at set
    ctx_at-set_other p [] n h = cc
    ctx_at-set_other [] (s ∷ q) (node c children) h = refl
    ctx_at-set_other (r ∷ p) (s ∷ q) (node c children) h = ground (
      arith,
      lookup_child-put_child r s
          (set p kc x new_resource failed (or_init (lookup_child r children))).0 children,
      ctx_at-set_other p q (or_init (lookup_child r children)),
      ctx_at_fresh p q,
    )

    ctx_at-set_present :
        (p q : List SdkObjectReference) (n : Resources O) (c : ResourceCtx O)
        → same_path q p ≡ false
        → ctx_at q n ≡ some c
        → ctx_at q (set p kc x new_resource failed n).0 ≡ some c
    unfolding ctx_at set
    ctx_at-set_present [] [] n c h e = cc
    ctx_at-set_present [] (s ∷ q) (node c children) d h e = e
    ctx_at-set_present (r ∷ p) [] (node c children) d h e = e
    ctx_at-set_present (r ∷ p) (s ∷ q) (node c children) d h e = ground (
      arith,
      lookup_child-put_child r s
          (set p kc x new_resource failed (or_init (lookup_child r children))).0 children,
      ctx_at-set_present p q (or_init (lookup_child r children)) d,
    )

  lookup-collect :
      (k : GvkKind) (ref : ObjectReference) (children : Children O)
      → lookup ref (collect (λ r. r.gvk_kind == k) children)
        ≡ elim (lookup_child (record { gvk_kind = k; ref = ref }) children) [
          | none ↦ none
          | some n ↦ some (ctx_of n)
        ]
  unfolding collect lookup_child lookup
  lookup-collect k ref nil = refl
  lookup-collect k ref (child r n rest) = ground (
    arith,
    lookup-collect k ref rest,
    lookup-insert ref r.ref (ctx_of n) (collect (λ s. s.gvk_kind == k) rest),
  )

  -- After `set` at a path, the resource there is the one from before, or a zero one, with the value
  -- put in; every other resource that was there is as before; and no resource appears but those on
  -- the way to the path.
  pub ctx_at-set :
      (kc : GvkKindCtx O) (x : Entry O) (new_resource failed : Bool) (p : List SdkObjectReference)
      (n : Resources O)
      → let after = (set p kc x new_resource failed n).0 in
        (ctx_at p after ≡ some (set_ctx kc x new_resource failed (or_zero (ctx_at p n))).0)
        × ((q : List SdkObjectReference) (c : ResourceCtx O)
            → same_path q p ≡ false
            → ctx_at q n ≡ some c
            → ctx_at q after ≡ some c)
        × ((q : List SdkObjectReference) → is_prefix q p ≡ false → ctx_at q after ≡ ctx_at q n)
  ctx_at-set kc x new_resource failed p n = (
    ctx_at-set_self kc x new_resource failed p n,
    λ q c. ctx_at-set_present kc x new_resource failed p q n c,
    λ q. ctx_at-set_other kc x new_resource failed p q n,
  )

  abbrev pub clear : Option (ResourceCtx O) → Option (ResourceCtx O)
  clear none = none
  clear (some c) = some (record c { existing_condition = none })

  -- `delete` at a path takes the condition of the resource there, if there is one, and changes
  -- nothing else; it fails exactly when there is no such resource.
  pub ctx_at-delete :
      (p q : List SdkObjectReference) (n : Resources O)
      → (ctx_at q (delete p n).0 ≡ (if same_path q p then clear (ctx_at q n) else ctx_at q n))
        × ((delete p n).1 ≡ (if is_some (ctx_at p n) then none else some not_found))
  unfolding ctx_at delete
  ctx_at-delete [] [] (node c children) = (refl, refl)
  ctx_at-delete [] (s ∷ q) (node c children) = (refl, refl)
  ctx_at-delete (r ∷ p) [] (node c children) = elim (Option-cases (lookup_child r children)) [
    | inl e ↦ rw (e, delete, ctx_at) (refl, refl)
    | inr (m, e) ↦ rw (e, delete, ctx_at) (refl, (ctx_at-delete p [] m).1)
  ]
  ctx_at-delete (r ∷ p) (s ∷ q) (node c children) = elim (Option-cases (lookup_child r children)) [
    | inl e ↦ ground arith
    | inr (m, e) ↦
        ground (arith, ctx_at-delete p q m, lookup_child-put_child r s (delete p m).0 children)
  ]

  ctx_at-child :
      (r : SdkObjectReference) (c : ResourceCtx O) (children : Children O)
      → ctx_at (r ∷ []) (node c children)
        ≡ elim (lookup_child r children) [ none ↦ none | some n ↦ some (ctx_of n) ]
  unfolding ctx_at
  ctx_at-child r c children = elim (Option-cases (lookup_child r children)) [
    | inl e ↦ rw (e, ctx_at)
    | inr (node d grandchildren, e) ↦ rw (e, ctx_at)
  ]

  lookup-nil : (ref : ObjectReference) → lookup {V = ResourceCtx O} ref [] ≡ none
  unfolding lookup
  lookup-nil ref = refl

  lookup-get_top :
      (k : GvkKind) (ref : ObjectReference) (n : Resources O)
      → lookup ref (get (record { gvk_kind = k; ref = empty_ref } ∷ []) n)
        ≡ ctx_at (record { gvk_kind = k; ref = ref } ∷ []) n
  unfolding get
  lookup-get_top k ref (node c children) = ground (
    arith,
    lookup-collect k ref children,
    ctx_at-child (record { gvk_kind = k; ref = ref }) c children,
  )

  -- A wildcard under a `for` resource, and at the top, finds the resources of the kind by their
  -- references, and no others.
  pub lookup-get_wildcard :
      (k : GvkKind) (parent ref : ObjectReference) (n : Resources O)
      → parent ≢ empty_ref
      → (lookup ref (get (record { gvk_kind = k; ref = empty_ref } ∷ []) n)
          ≡ ctx_at (record { gvk_kind = k; ref = ref } ∷ []) n)
        × (lookup ref (
              get
                (record { gvk_kind = for; ref = parent }
                  ∷ record { gvk_kind = k; ref = empty_ref }
                  ∷ [])
                n)
            ≡ ctx_at
                (record { gvk_kind = for; ref = parent } ∷ record { gvk_kind = k; ref = ref } ∷ [])
                n)
  unfolding get ctx_at
  lookup-get_wildcard k parent ref (node c children) h = (
    lookup-get_top k ref (node c children),
    elim (Option-cases (lookup_child (record { gvk_kind = for; ref = parent }) children)) [
      | inl e ↦ ground (arith, lookup-nil ref)
      | inr (m, e) ↦ ground (arith, lookup-get_top k ref m)
    ],
  )
