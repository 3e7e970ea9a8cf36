-- ===== src/Inventory/Tree.antt =====
-- krm-functions/lib/condkptsdk/inventory_resources.go: the tree of resources.
pub mod Laws
use nephio.Base.{
  Bool, true, false, Option, none, some, List, [], ◌∷◌, ◌++◌, Result, ok, err, ◌==◌, if◌then◌else◌,
}
use nephio.Base.Dict.{Dict, insert}
use nephio.Ref.{
  ObjectReference, Error, empty_ref, ref_eq, empty_refs, one_ref_not_allowed, two_refs_not_allowed,
  too_many_refs, unsupported_object, not_found,
}
use nephio.ConditionType.{Condition}
use nephio.Inventory.{
  GvkKind, unset, for, own, watch, gvk_kind_eq, SdkObjectReference, sdk_ref_eq, GvkKindCtx,
  ResourceCtx, Resources, node, Children, nil, child, Inventory, zero_ctx,
}

-- `getSdkRefs`
unfoldable pub get_sdk_refs :
    GvkKind → List ObjectReference → Result Error (List SdkObjectReference)
get_sdk_refs k [] = err empty_refs
get_sdk_refs k (r ∷ []) =
    if k == for
    then ok (record { gvk_kind = k; ref = r } ∷ [])
    else if k == watch
    then ok (record { gvk_kind = k; ref = r } ∷ [])
    else err one_ref_not_allowed
get_sdk_refs k (r ∷ s ∷ []) =
    if k == for
    then err two_refs_not_allowed
    else ok (record { gvk_kind = for; ref = r } ∷ record { gvk_kind = k; ref = s } ∷ [])
get_sdk_refs k (r ∷ s ∷ t ∷ rest) = err too_many_refs

-- What `set` is given: `other` is a value of any other type.
pub data Entry (O : Type 0) : Type 0 where
  condition : Condition → Entry O
  object : O → Entry O
  other : Entry O

abbrev pairs : SdkObjectReference → List SdkObjectReference → List (List SdkObjectReference)
pairs parent [] = []
pairs parent (r ∷ rs) = (parent ∷ r ∷ []) ∷ pairs parent rs

module _ {O : Type 0} where
  unfoldable pub lookup_child : SdkObjectReference → Children O → Option (Resources O)
  lookup_child ref nil = none
  lookup_child ref (child r n rest) = if r == ref then some n else lookup_child ref rest

  unfoldable pub put_child : SdkObjectReference → Resources O → Children O → Children O
  put_child ref n nil = child ref n nil
  put_child ref n (child r m rest) =
      if r == ref then child r n rest else child r m (put_child ref n rest)

  -- The child, initialised (`init`) unless it is there (`isInitialized`).
  abbrev pub or_init : Option (Resources O) → Resources O
  or_init none = node zero_ctx nil
  or_init (some n) = n

  -- The end of `set`, on the resource that the references lead to.
  unfoldable pub set_ctx :
      GvkKindCtx O → Entry O → Bool → Bool → ResourceCtx O → ResourceCtx O × Option Error
  set_ctx kc (condition d) new_resource failed c =
      (record c { existing_condition = some d; failed = failed }, none)
  set_ctx kc (object d) true failed c =
      (record c { kind_ctx = kc; new_resource = some d; failed = failed }, none)
  set_ctx kc (object d) false failed c =
      (record c { kind_ctx = kc; existing_resource = some d; failed = failed }, none)
  set_ctx kc other new_resource failed c = (record c { failed = failed }, some unsupported_object)

  -- `set` of `resources`; the resources on the way are initialised also where it fails.
  unfoldable pub set :
      List SdkObjectReference
      → GvkKindCtx O
      → Entry O
      → Bool
      → Bool
      → Resources O
      → Resources O × Option Error
  unfolding set_ctx lookup_child put_child
  set [] kc x new_resource failed (node c children) =
      let (c', e) = set_ctx kc x new_resource failed c in (node c' children, e)
  set (ref ∷ refs) kc x new_resource failed (node c children) =
      let (n, e) = set refs kc x new_resource failed (or_init (lookup_child ref children)) in
      (node c (put_child ref n children), e)

  -- `delete` of `resources`
  unfoldable pub delete : List SdkObjectReference → Resources O → Resources O × Option Error
  unfolding lookup_child put_child
  delete [] (node c children) = (node (record c { existing_condition = none }) children, none)
  delete (ref ∷ refs) (node c children) = elim (lookup_child ref children) [
    | none ↦ (node c children, some not_found)
    | some m ↦ let (n, e) = delete refs m in (node c (put_child ref n children), e)
  ]

  abbrev pub ctx_of : Resources O → ResourceCtx O
  ctx_of (node c children) = c

  -- The children that a wildcard stands for, by their references.
  unfoldable pub collect :
      (SdkObjectReference → Bool) → Children O → Dict ObjectReference (ResourceCtx O)
  collect wanted nil = []
  collect wanted (child r n rest) =
      let others = collect wanted rest in
      if wanted r then insert r.ref (ctx_of n) others else others

  -- `get` of `resources`. A resource with no children is returned by itself, under the empty
  -- reference. A wildcard looks no further down.
  unfoldable pub get : List SdkObjectReference → Resources O → Dict ObjectReference (ResourceCtx O)
  unfolding collect lookup_child
  get [] (node c nil) = (empty_ref, c) ∷ []
  get [] (node c (child r n rest)) = collect (λ _. true) (child r n rest)
  get (ref ∷ refs) (node c children) =
      let below : Dict ObjectReference (ResourceCtx O) = elim (lookup_child ref children) [
        | none ↦ []
        | some n ↦ get refs n
      ] in
      if ref.ref == empty_ref then collect (λ r. r.gvk_kind == ref.gvk_kind) children else below

  abbrev child_refs : Children O → List SdkObjectReference
  child_refs nil = []
  child_refs (child r n rest) = r ∷ child_refs rest

  abbrev children_of : Resources O → Children O
  children_of (node c children) = children

  list_children : Children O → List (List SdkObjectReference)
  list_children nil = []
  list_children (child r n rest) =
      (r ∷ []) ∷ (pairs r (child_refs (children_of n)) ++ list_children rest)

  -- `list` of `resources`
  unfoldable pub list : Resources O → List (List SdkObjectReference)
  unfolding list_children
  list (node c children) = list_children children

  -- The methods of `inv`.
  unfoldable pub inv_set :
      GvkKindCtx O
      → List ObjectReference
      → Entry O
      → Bool
      → Bool
      → Inventory O
      → Inventory O × Option Error
  unfolding get_sdk_refs set
  inv_set kc refs x new_resource failed inv = elim (get_sdk_refs kc.gvk_kind refs) [
    | err e ↦ (inv, some e)
    | ok sdk_refs ↦
        let (n, e) = set sdk_refs kc x new_resource failed inv.resources in
        (record inv { resources = n }, e)
  ]

  unfoldable pub inv_delete :
      GvkKindCtx O → List ObjectReference → Inventory O → Inventory O × Option Error
  unfolding get_sdk_refs delete
  inv_delete kc refs inv = elim (get_sdk_refs kc.gvk_kind refs) [
    | err e ↦ (inv, some e)
    | ok sdk_refs ↦ let (n, e) = delete sdk_refs inv.resources in (record inv { resources = n }, e)
  ]

  unfoldable pub inv_get :
      GvkKind → List ObjectReference → Inventory O → Dict ObjectReference (ResourceCtx O)
  unfolding get_sdk_refs get
  inv_get k refs inv = elim (get_sdk_refs k refs) [
    | err e ↦ []
    | ok sdk_refs ↦ get sdk_refs inv.resources
  ]

  unfoldable pub inv_list : Inventory O → List (List SdkObjectReference)
  unfolding list
  inv_list inv = list inv.resources
