-- ===== src/Sdk/Populate.antt =====
-- krm-functions/lib/condkptsdk/sdk_populate_inventory.go: filling the inventory from the conditions
-- of the Kptfile and the items of the resource list.
use nephio.Base.{
  String, Bool, false, ◌&&◌, ◌||◌, Option, none, some, List, [], ◌∷◌, ◌==◌, string_eq,
  if◌then◌else◌,
}
use nephio.Base.Dict.{Dict, insert, lookup}
use nephio.Ref.{
  ObjectReference, Error, get_gvk_ref_from_gvkn_ref, validate_gvk_ref, validate_gvkn_ref, is_ok,
}
use nephio.ConditionType.{Condition, get_gvkn_from_condition_type}
use nephio.Kptfile.{get_conditions}
use nephio.Inventory.{GvkKind, unset, for, own, watch, gvk_kind_eq, GvkKindCtx, Config}
use nephio.Inventory.Tree.{Entry, condition, object}
use nephio.Inventory.Gvk.{Roles, is_gvk_match}
use nephio.Api.{Api, ref_of}
use nephio.Sdk.{Exec, ◌>>=◌, pure, get_state, set_in_inventory}

abbrev pub specializer_owner : String
specializer_owner = "specializer.nephio.org/owner"

-- `forOwnerRef` and `forOwnerRefNameMap`
pub record Owners : Type 0 where
  pub owner_ref : Option ObjectReference
  pub names : Dict String String

abbrev pub no_owners : Owners
no_owners = record { owner_ref = none; names = [] }

-- A read of a missing key gives the zero value.
abbrev pub name_of : Dict String String → String → String
name_of names n = elim (lookup n names) [ none ↦ "" | some v ↦ v ]

abbrev pub same_gvk : ObjectReference → ObjectReference → Bool
same_gvk r s = r.api_version == s.api_version && r.kind == s.kind

-- Whether a watched resource belongs to one `for` resource.
abbrev pub is_specific : Option ObjectReference → ObjectReference → ObjectReference → Bool
is_specific none obj_ref owner_ref = false
is_specific (some r) obj_ref owner_ref = same_gvk r owner_ref || same_gvk r obj_ref

abbrev pub for_name : Owners → ObjectReference → ObjectReference → String
for_name owners obj_ref owner_ref = elim owners.owner_ref [
  | none ↦ ""
  | some r ↦
      if same_gvk r obj_ref
      then name_of owners.names obj_ref.name
      else name_of owners.names owner_ref.name
]

module _ {O : Type 0} where
  -- The body of the first loop over the conditions.
  unfoldable pub scan_condition : Roles O → Condition → Owners → Owners
  unfolding is_gvk_match get_gvkn_from_condition_type validate_gvk_ref
  scan_condition roles c owners =
      let obj_ref = get_gvkn_from_condition_type c.type in
      let owner_ref = get_gvkn_from_condition_type c.reason in
      elim (is_gvk_match roles (some obj_ref)) [
        | none ↦ owners
        | some kc ↦
            if kc.gvk_kind == for && is_ok (validate_gvk_ref owner_ref)
            then record {
              owner_ref = some (record owner_ref { name = "" });
              names = insert owner_ref.name obj_ref.name owners.names;
            }
            else owners
      ]

  unfoldable pub scan_conditions : Roles O → List Condition → Owners → Owners
  unfolding scan_condition
  scan_conditions roles [] owners = owners
  scan_conditions roles (c ∷ cs) owners = scan_conditions roles cs (scan_condition roles c owners)

  -- Where in the inventory `populate` puts a resource or its condition: `none` is nowhere.
  unfoldable pub place :
      Config O
      → Roles O
      → Owners
      → GvkKindCtx O
      → ObjectReference
      → ObjectReference
      → GvkKind
      → Option (List ObjectReference)
  unfolding is_gvk_match validate_gvkn_ref
  place cfg roles owners kc obj_ref owner_ref for = some (obj_ref ∷ [])
  place cfg roles owners kc obj_ref owner_ref own = elim (is_gvk_match roles (some owner_ref)) [
    | none ↦ none
    | some owner ↦ if owner.gvk_kind == for then some (owner_ref ∷ obj_ref ∷ []) else none
  ]
  place cfg roles owners kc obj_ref owner_ref watch =
      if is_specific owners.owner_ref obj_ref owner_ref
      then some (
          record {
            api_version = cfg.for_ref.api_version;
            kind = cfg.for_ref.kind;
            name = for_name owners obj_ref owner_ref;
          }
          ∷ obj_ref
          ∷ [])
      else if is_ok (validate_gvkn_ref owner_ref)
      then none
      else some (obj_ref ∷ [])
  place cfg roles owners kc obj_ref owner_ref unset = none

module _ (api : Api) (cfg : Config api.Object) where
  open api use {Object}

  -- The role of the resource and its place, if it has one.
  unfoldable pub destination :
      Roles Object
      → Owners
      → ObjectReference
      → ObjectReference
      → Option (GvkKindCtx Object × List ObjectReference)
  unfolding place get_gvk_ref_from_gvkn_ref is_gvk_match
  destination roles owners obj_ref owner_ref =
      elim (is_gvk_match roles (some (get_gvk_ref_from_gvkn_ref obj_ref))) [
        | none ↦ none
        | some kc ↦ elim (place cfg roles owners kc obj_ref owner_ref kc.gvk_kind) [
          | none ↦ none
          | some refs ↦ some (kc, refs)
        ]
      ]

  unfoldable pub put_entry :
      Entry Object → Option (GvkKindCtx Object × List ObjectReference) → Exec api (List Error)
  put_entry x none = pure []
  put_entry x (some (kc, refs)) = set_in_inventory api kc refs x false false

  -- `if err := …; err != nil { return err }`
  unfoldable pub unless_failed : List Error → Exec api (List Error) → Exec api (List Error)
  unless_failed [] rest = rest
  unless_failed (e ∷ es) rest = pure (e ∷ es)

  -- `populate`
  unfoldable pub populate :
      Owners → ObjectReference → ObjectReference → Entry Object → Exec api (List Error)
  unfolding destination put_entry
  populate owners obj_ref owner_ref x = do
    s ← get_state api
    put_entry x (destination s.inv.gvk_resources owners obj_ref owner_ref)

  -- The second loop over the conditions; the first error ends it.
  unfoldable pub populate_conditions : Owners → List Condition → Exec api (List Error)
  unfolding populate get_gvkn_from_condition_type
  populate_conditions owners [] = pure []
  populate_conditions owners (c ∷ cs) =
      let rest = populate_conditions owners cs in
      do
        e ←
            populate owners (get_gvkn_from_condition_type c.type)
              (get_gvkn_from_condition_type c.reason) (condition c)
        unless_failed e rest

  abbrev owner_annotation : Object → String
  owner_annotation o = elim (api.annotation o specializer_owner) [ none ↦ "" | some v ↦ v ]

  -- The loop over the items.
  unfoldable pub populate_items : Owners → List Object → Exec api (List Error)
  unfolding populate get_gvkn_from_condition_type
  populate_items owners [] = pure []
  populate_items owners (o ∷ os) =
      let rest = populate_items owners os in
      do
        e ←
            populate owners (ref_of api o) (get_gvkn_from_condition_type (owner_annotation o))
              (object o)
        unless_failed e rest

  -- `populateInventory`
  unfoldable pub populate_inventory : Exec api (List Error)
  unfolding populate_conditions populate_items scan_conditions
  populate_inventory = do
    s ← get_state api
    let cs = get_conditions api.store s.kptfile
    let owners = scan_conditions s.inv.gvk_resources cs no_owners
    e ← populate_conditions owners cs
    unless_failed e (populate_items owners s.items)
