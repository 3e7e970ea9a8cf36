-- ===== src/Formatting/Update.antt =====
-- `SetNestedFieldKeepFormatting` and the methods of `KubeObjectExt` that call it
-- (krm-functions/lib/kubeobject/kubeobject.go). The YAML library and the SDK's objects are
-- parameters.
pub mod Laws
use nephio.Base.{
  String, ◌<>◌, Bool, true, false, ◌||◌, Option, none, some, List, [], ◌∷◌, Result, ok, err,
  Outcome, done, panic, and_then, string_eq, if◌then◌else◌,
}
use nephio.Base.Dict.{Dict, lookup}
use nephio.Formatting.Nodes.{
  Kind, kind_zero, document_node, sequence_node, mapping_node, scalar_node, alias_node, Node, node,
  Nodes, nil, cons,
}
use nephio.Formatting.Copy.{deep_copy_formatting}

pub record Library : Type 1 where
  pub Object : Type 0
  pub Value : Type 0
  pub Fault : Type 0
  pub text : Fault → String
  pub errorf : String → Fault
  -- `obj.String()`, `decoder.Decode`, `encoder.Encode` and `fn.ParseKubeObject`
  pub to_string : Object → String
  pub decode : String → Result Fault Node
  pub is_eof : Fault → Bool
  pub encode : Node → Result Fault String
  pub parse_kube_object : String → Result Fault Object
  -- `fn.NewFromTypedObject`, and `obj.SetNestedField` with the object it leaves
  pub new_from_typed_object : Value → Result Fault Object
  pub set_nested_field : Object → Value → List String → Object × Option Fault
  -- The fields of a value that is a struct, by reflection.
  pub struct_fields : Value → Option (Dict String Value)

module _ (y : Library) where
  open y use {Object, Value, Fault}

  abbrev blank : Node
  blank = node kind_zero "" "" (record { head = ""; line = ""; foot = "" }) nil

  -- `parseFirstObj`
  unfoldable pub parse_first_obj : String → Result Fault Node
  parse_first_obj s = elim (y.decode s) [
    | ok n ↦ ok n
    | err e ↦ if y.is_eof e then ok blank else err e
  ]

  -- What `yamlNodeOf` makes of the node that was parsed.
  unfoldable pub root : Node → Outcome Node
  root (node document_node t v c (cons n nil)) = done n
  root (node document_node t v c ns) = panic
  root n = done n

  unfoldable pub of_parsed : Result Fault Node → Outcome Node
  unfolding root
  of_parsed (ok n) = root n
  of_parsed (err e) = panic

  -- `yamlNodeOf`
  unfoldable pub yaml_node_of : Object → Outcome Node
  unfolding parse_first_obj of_parsed
  yaml_node_of o = of_parsed (parse_first_obj (y.to_string o))

  -- `toYAML`
  unfoldable pub to_yaml : Node → Result Fault String
  to_yaml (node document_node t v c nil) = err (y.errorf "ToYAML: invalid DocumentNode")
  to_yaml n = y.encode n

  abbrev of_text : Object → Result Fault String → Object × Option Fault
  of_text o (err e) = (
    o,
    some (y.errorf ("unexpected error during round-trip YAML parsing (ToYAML): " <> y.text e)),
  )
  of_text o (ok s) = elim (y.parse_kube_object s) [
    | ok p ↦ (p, none)
    | err e ↦ (
      o,
      some (
          y.errorf
            ("unexpected error during round-trip YAML parsing (ParseKubeObject): " <> y.text e)),
    )
  ]

  -- `setYamlNodeOf`: the object it leaves, and its error.
  unfoldable pub set_yaml_node_of : Object → Node → Object × Option Fault
  unfolding to_yaml
  set_yaml_node_of o n = of_text o (to_yaml n)

  -- The new value in the object, with no regard to formatting.
  unfoldable pub replace_value : Object → Value → List String → Object × Option Fault
  replace_value o value [] = elim (y.new_from_typed_object value) [
    | ok p ↦ (p, none)
    | err e ↦ (o, some e)
  ]
  replace_value o value (field ∷ fields) = y.set_nested_field o value (field ∷ fields)

  unfoldable pub keep_formatting : Node → Object × Option Fault → Outcome (Object × Option Fault)
  unfolding yaml_node_of set_yaml_node_of deep_copy_formatting
  keep_formatting old (o, some e) = done (o, some e)
  keep_formatting old (o, none) =
      and_then (yaml_node_of o)
        (λ new. and_then (deep_copy_formatting old new) (λ n. done (set_yaml_node_of o n)))

  -- `SetNestedFieldKeepFormatting`
  unfoldable pub set_nested_field_keep_formatting :
      Object → Value → List String → Outcome (Object × Option Fault)
  unfolding keep_formatting replace_value yaml_node_of
  set_nested_field_keep_formatting o value fields =
      and_then (yaml_node_of o) (λ old. keep_formatting old (replace_value o value fields))

  -- `UnsafeSetSpec`, `UnsafeSetStatus` and `SetFromTypedObject`
  unfoldable pub unsafe_set_spec : Object → Value → Outcome (Object × Option Fault)
  unfolding set_nested_field_keep_formatting
  unsafe_set_spec o value = set_nested_field_keep_formatting o value ("spec" ∷ [])

  unfoldable pub unsafe_set_status : Object → Value → Outcome (Object × Option Fault)
  unfolding set_nested_field_keep_formatting
  unsafe_set_status o value = set_nested_field_keep_formatting o value ("status" ∷ [])

  unfoldable pub set_from_typed_object : Object → Value → Outcome (Object × Option Fault)
  unfolding set_nested_field_keep_formatting
  set_from_typed_object o value = set_nested_field_keep_formatting o value []

  abbrev or_panic : Option Value → Outcome Value
  or_panic none = panic
  or_panic (some value) = done value

  abbrev field_of : Option (Dict String Value) → String → Outcome Value
  field_of none name = panic
  field_of (some fields) name = or_panic (lookup name fields)

  -- `getFieldOrPanic`
  unfoldable pub get_field_or_panic : Value → String → Outcome Value
  unfolding lookup
  get_field_or_panic value name = field_of (y.struct_fields value) name

  -- `SetSpec` and `SetStatus`
  unfoldable pub set_spec : Object → Value → Outcome (Object × Option Fault)
  unfolding unsafe_set_spec get_field_or_panic
  set_spec o value =
      and_then (get_field_or_panic value "Spec")
        (λ spec. set_nested_field_keep_formatting o spec ("spec" ∷ []))

  unfoldable pub set_status : Object → Value → Outcome (Object × Option Fault)
  unfolding unsafe_set_status get_field_or_panic
  set_status o value =
      and_then (get_field_or_panic value "Status")
        (λ status. set_nested_field_keep_formatting o status ("status" ∷ []))
