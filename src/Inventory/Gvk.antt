-- ===== src/Inventory/Gvk.antt =====
-- krm-functions/lib/condkptsdk/inventory.go: the roles of the configured kinds of resource.
pub mod Roles
use nephio.Base.{
  Bool, true, false, Option, none, some, List, [], ◌∷◌, Result, ok, err, ◌>>=◌, ◌>>◌, ◌&&◌, not,
  is_some, ◌==◌, if◌then◌else◌,
}
use nephio.Base.Dict.{Dict, insert, lookup}
use nephio.Ref.{
  ObjectReference, Error, ref_eq, validate_gvk_ref, is_wild_card_ref, wildcard_in_for,
  wildcard_not_initial, wildcard_in_watch, no_update_fn, already_exists,
}
use nephio.Inventory.{
  GvkKind, for, own, watch, ResourceKind, resource_kind_eq, initial, WatchCallbackFn, GvkKindCtx,
  node, nil, Inventory, Config, zero_ctx,
}

-- The key under which a reference is stored: its API version and kind.
abbrev pub gvk_of : ObjectReference → ObjectReference
gvk_of ref = record ref { name = "" }

abbrev pub wildcard_ref : ObjectReference
wildcard_ref = record { api_version = "*"; kind = "*"; name = "" }

-- `gvkResources`
abbrev pub Roles : Type 0 → Type 0
Roles O = Dict ObjectReference (GvkKindCtx O)

unfoldable pub guard : Bool → Error → Result Error (Unit {0})
guard true e = ok tt
guard false e = err e

module _ {O : Type 0} where
  abbrev pub for_ctx : GvkKindCtx O
  for_ctx = record { gvk_kind = for; own_kind = ResourceKind.unset; callback_fn = none }

  abbrev pub own_ctx : ResourceKind → GvkKindCtx O
  own_ctx rk = record { gvk_kind = own; own_kind = rk; callback_fn = none }

  abbrev pub watch_ctx : WatchCallbackFn O → GvkKindCtx O
  watch_ctx cb = record { gvk_kind = watch; own_kind = ResourceKind.unset; callback_fn = some cb }

  -- `addGVKObjectReference`
  unfoldable pub add_gvk_object_reference :
      GvkKindCtx O → ObjectReference → Roles O → Result Error (Roles O)
  add_gvk_object_reference kc ref roles = elim (lookup (gvk_of ref) roles) [
    | some present ↦ err (already_exists ref)
    | none ↦ ok (insert (gvk_of ref) kc roles)
  ]

  -- The loop over `cfg.Owns`.
  unfoldable pub add_owns : Dict ObjectReference ResourceKind → Roles O → Result Error (Roles O)
  unfolding guard validate_gvk_ref is_wild_card_ref add_gvk_object_reference
  add_owns [] roles = ok roles
  add_owns ((ref, rk) ∷ owns) roles = do
    validate_gvk_ref ref
    guard (not (is_wild_card_ref ref && not (rk == initial))) wildcard_not_initial
    more ← add_gvk_object_reference (own_ctx rk) ref roles
    add_owns owns more

  -- The loop over `cfg.Watch`.
  unfoldable pub add_watches :
      Dict ObjectReference (WatchCallbackFn O) → Roles O → Result Error (Roles O)
  unfolding guard validate_gvk_ref is_wild_card_ref add_gvk_object_reference
  add_watches [] roles = ok roles
  add_watches ((ref, cb) ∷ watches) roles = do
    validate_gvk_ref ref
    guard (not (is_wild_card_ref ref)) wildcard_in_watch
    more ← add_gvk_object_reference (watch_ctx cb) ref roles
    add_watches watches more

  -- `initializeGVKInventory`
  unfoldable pub initialize_gvk_inventory : Config O → Roles O → Result Error (Roles O)
  unfolding guard validate_gvk_ref is_wild_card_ref add_gvk_object_reference add_owns add_watches
  initialize_gvk_inventory cfg roles = do
    validate_gvk_ref cfg.for_ref
    guard (not (is_wild_card_ref cfg.for_ref)) wildcard_in_for
    with_for ← add_gvk_object_reference for_ctx cfg.for_ref roles
    with_owns ← add_owns cfg.owns with_for
    with_watches ← add_watches cfg.watches with_owns
    guard (is_some cfg.update_resource_fn) no_update_fn
    ok with_watches

  -- `newInventory`
  unfoldable pub new_inventory : Config O → Result Error (Inventory O)
  unfolding initialize_gvk_inventory
  new_inventory cfg = do
    roles ← initialize_gvk_inventory cfg []
    ok (record { gvk_resources = roles; resources = node zero_ctx nil; ready = true })

  -- `isGVKMatch`: the role of the kind, or that of the wildcard.
  unfoldable pub is_gvk_match : Roles O → Option ObjectReference → Option (GvkKindCtx O)
  is_gvk_match roles none = none
  is_gvk_match roles (some ref) = elim (lookup (gvk_of ref) roles) [
    | some kc ↦ some kc
    | none ↦ lookup wildcard_ref roles
  ]
