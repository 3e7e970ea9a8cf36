-- ===== src/Api.antt =====
-- What condkptsdk uses of the libraries that it calls: KRM objects and resource lists (the kpt
-- function SDK), the Kptfile's YAML, comparison of specs, and the texts of references and errors.
use nephio.Base.{String, Bool, Option, none, some, List, Result, ok, err}
use nephio.Ref.{ObjectReference, Error, spec_not_found}
use nephio.Kptfile.Store.{KptfileStore}

pub record Api : Type 1 where
  -- `fn.KubeObject`, as a value: an object that is changed is written back where it came from.
  pub Object : Type 0
  pub api_version : Object → String
  pub kind : Object → String
  pub name : Object → String
  -- `GetAnnotations()[key]`
  pub annotation : Object → String → Option String
  pub set_annotation : Object → String → String → Object × Option Error
  -- `NestedResource(&spec, "spec")`, and `cmp.Diff` of two specs being empty.
  pub Spec : Type 0
  pub nested_spec : Object → Result Error (Option Spec)
  pub same_spec : Spec → Spec → Bool
  -- `fn.IsGroupVersionKind` of a reference's kind.
  pub is_gvk : ObjectReference → Object → Bool
  -- `UpsertObjectToItems(&obj, nil, true)`
  pub upsert : List Object → Object → List Object × Option Error
  pub store : KptfileStore
  -- `GetRootKptfile`
  pub root_kptfile : List Object → Option store.File
  -- `schema.ParseGroupVersion`, and `String` of its result.
  pub group_version : String → Option String
  -- `a.String() < b.String()`
  pub ref_less : ObjectReference → ObjectReference → Bool
  -- The text of an error, as `Error()` and `%v` give it.
  pub error_text : Error → String

module _ (api : Api) where
  open api use {Object}

  -- The reference that the SDK makes of an object.
  abbrev pub ref_of : Object → ObjectReference
  ref_of o = record { api_version = api.api_version o; kind = api.kind o; name = api.name o }

  -- `getSpec`
  unfoldable pub get_spec : Object → Result Error api.Spec
  get_spec o = elim (api.nested_spec o) [
    | err e ↦ err e
    | ok none ↦ err spec_not_found
    | ok (some spec) ↦ ok spec
  ]
