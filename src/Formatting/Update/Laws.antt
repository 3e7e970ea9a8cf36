-- ===== src/Formatting/Update/Laws.antt =====
-- What a field is set to, with the formatting kept (krm-functions/lib/kubeobject/kubeobject.go).
use nephio.Base.{String, ◌≡◌, refl, ap, ◌∙◌, none, some, List, done}
use nephio.Formatting.Nodes.{Node}
use nephio.Formatting.Relation.{Reformatted}
use nephio.Formatting.Totality.{deep_copy_formatting_lem}
use nephio.Formatting.Totality.Search.{IsProper}
use nephio.Formatting.Update.{
  Library, yaml_node_of, set_yaml_node_of, replace_value, keep_formatting,
  set_nested_field_keep_formatting,
}

module _ (y : Library) where
  open y use {Object, Value, Fault}

  keep_formatting_lem :
      (o : Object) (old new : Node)
      → yaml_node_of y o ≡ done new
      → IsProper old
      → IsProper new
      → (x : Node) × (Reformatted new x)
        × (keep_formatting y old (o, none) ≡ done (set_yaml_node_of y o x))
  unfolding keep_formatting
  keep_formatting_lem o old new parsed p q =
      let (x, copied, r) = deep_copy_formatting_lem old new p q in
      (x, r.0, rw (parsed, copied) refl)

  -- Where the value can be set and the objects before and after are YAML of nodes of the parser's,
  -- `SetNestedFieldKeepFormatting` returns, and the node that it writes is that of the object
  -- with the value set, up to comments and the order of the entries of mappings. Where the value
  -- cannot be set, it returns the error and the object that the setter left.
  pub set_nested_field_keep_formatting_lem :
      (o : Object) (value : Value) (fields : List String) (old : Node)
      → yaml_node_of y o ≡ done old
      → IsProper old
      → ((p : Object) (new : Node)
          → replace_value y o value fields ≡ (p, none)
          → yaml_node_of y p ≡ done new
          → IsProper new
          → (x : Node) × (Reformatted new x)
            × (set_nested_field_keep_formatting y o value fields ≡ done (set_yaml_node_of y p x)))
        × ((p : Object) (e : Fault)
            → replace_value y o value fields ≡ (p, some e)
            → set_nested_field_keep_formatting y o value fields ≡ done (p, some e))
  unfolding set_nested_field_keep_formatting keep_formatting
  set_nested_field_keep_formatting_lem o value fields old parsed proper = (
    λ p new set after q.
        let (x, r, e) = keep_formatting_lem p old new after proper q in
        (x, r, rw parsed (ap (keep_formatting y old) set ∙ e)),
    λ p e failed. rw parsed (ap (keep_formatting y old) failed),
  )
