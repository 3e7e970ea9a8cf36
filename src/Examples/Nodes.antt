-- ===== src/Examples/Nodes.antt =====
-- Copies of formatting between small YAML trees, and searches for objects by type.
use nephio.Base.{String, ◌≡◌, refl, false, none, List, [], ◌∷◌, ◌++◌, ok, done, string_eq}
use nephio.Formatting.Nodes.{Comments, mapping_node, scalar_node, Node, node, Nodes, nil, cons}
use nephio.Formatting.{deep_copy_formatting}
use nephio.Formatting.Relation.{Reformatted}
use nephio.Formatting.Totality.{deep_copy_formatting_lem}
use nephio.Formatting.Totality.Search.{IsProper}
use nephio.Formatting.Order.{keys, has, filter, keys-copy_map_formatting}
use nephio.Formatting.Update.{Library, set_nested_field_keep_formatting, set_yaml_node_of}
use nephio.Formatting.Update.Laws.{set_nested_field_keep_formatting_lem}
use nephio.Objects.{Scheme}

abbrev plain : Comments
plain = record { head = ""; line = ""; foot = "" }

abbrev noted : Comments
noted = record { head = "# set by hand"; line = ""; foot = "" }

abbrev text : Comments → String → Node
text c s = node scalar_node "!!str" s c nil

-- `# set by hand`, then `b: 1`, `a: 2`
abbrev before : Node
before = node mapping_node "" "" noted (
    cons (text noted "b")
      (cons (text plain "1") (cons (text plain "a") (cons (text plain "2") nil))))

-- `a: 3`, `b: 1`, `c: 4`
abbrev content : Nodes
content = cons (text plain "a") (
    cons (text plain "3") (
      cons (text plain "b")
        (cons (text plain "1") (cons (text plain "c") (cons (text plain "4") nil)))))

abbrev target : Node
target = node mapping_node "" "" plain content

abbrev old_content : Nodes
old_content =
    cons (text noted "b")
      (cons (text plain "1") (cons (text plain "a") (cons (text plain "2") nil)))

-- `b: 1`, with its comment, `a: 3`, `c: 4`
abbrev copied : Nodes
copied = cons (text noted "b") (
    cons (text plain "1") (
      cons (text plain "a")
        (cons (text plain "3") (cons (text plain "c") (cons (text plain "4") nil)))))

copied_test : deep_copy_formatting before target ≡ done (node mapping_node "" "" noted copied)
unfolding deep_copy_formatting string_eq
copied_test = refl

deep_copy_example :
    (x : Node) × (deep_copy_formatting before target ≡ done x) × (Reformatted target x × IsProper x)
deep_copy_example =
    deep_copy_formatting_lem before target
      (refl, ((refl, tt), ((refl, tt), ((refl, tt), ((refl, tt), tt)))))
      (refl, ((refl, tt), ((refl, tt), ((refl, tt), ((refl, tt), ((refl, tt), ((refl, tt), tt)))))))

order_example :
    (others : List String) × (keys copied ≡ filter (has content) (keys old_content) ++ others)
unfolding nephio.Formatting.as_string string_eq nephio.Formatting.copy_map_formatting
order_example = keys-copy_map_formatting old_content content copied (refl, (refl, tt)) refl

-- An object is the name of its tree: "old" is `before`, any other `target`.
abbrev pub library : Library
library = record {
  Object = String;
  Value = String;
  Fault = String;
  text = λ e. e;
  errorf = λ e. e;
  to_string = λ o. o;
  decode = λ s. elim (string_eq.dec s "old") [ yes _ ↦ ok before | no _ ↦ ok target ];
  is_eof = λ e. false;
  encode = λ n. ok "written";
  parse_kube_object = λ s. ok s;
  new_from_typed_object = λ v. ok v;
  set_nested_field = λ o v fields. (v, none);
  struct_fields = λ v. none;
}

update_example :
    (x : Node) × (Reformatted target x)
    × (set_nested_field_keep_formatting library "old" "new" ("spec" ∷ [])
        ≡ done (set_yaml_node_of library "new" x))
unfolding nephio.Formatting.Update.yaml_node_of string_eq nephio.Formatting.Update.replace_value
update_example =
    (set_nested_field_keep_formatting_lem library "old" "new" ("spec" ∷ []) before refl
        (refl, ((refl, tt), ((refl, tt), ((refl, tt), ((refl, tt), tt)))))).0
      "new" target refl refl
      (refl, ((refl, tt), ((refl, tt), ((refl, tt), ((refl, tt), ((refl, tt), ((refl, tt), tt)))))))

-- An object is its kind and its name.
abbrev pub scheme : Scheme
scheme = record {
  Object = String × String;
  Gvk = String;
  Typed = String;
  Fault = String;
  gvk_eq = string_eq;
  group_version_kind = λ o. o.0;
  object_kinds = ok ("Cluster" ∷ []);
  convert = λ o. ok o.1;
  wrong_number = λ xs. "wrong number";
}
