-- ===== src/Formatting/Copy.antt =====
-- `deepCopyFormatting`, with its loops over mappings and lists
-- (krm-functions/lib/kubeobject/kubeobject.go).
use nephio.Base.{
  String, Bool, ◌||◌, Option, none, some, Outcome, done, panic, and_then, if◌then◌else◌, ℕ,
}
use nephio.Formatting.Nodes.{
  Kind, kind_zero, document_node, sequence_node, mapping_node, scalar_node, alias_node, same_kind,
  Node, node, Nodes, nil, cons, is_odd, as_string, find_key, node_at, set_at, Entry, to_front,
  shallow_copy_comments,
}
use nephio.Formatting.Matching.{find_matching_item}

abbrev pub some_entry : Outcome Entry → Outcome (Option Entry)
some_entry panic = panic
some_entry (done e) = done (some e)

unfoldable pub at_found : Nodes → Option ℕ → Outcome (Option Entry)
unfolding to_front
at_found ms none = done none
at_found ms (some j) = some_entry (to_front j ms)

unfoldable pub by_key : Nodes → Option String → Outcome (Option Entry)
unfolding find_key at_found
by_key ms none = done none
by_key ms (some key) = at_found ms (find_key ms key)

-- One round of the loop over the keys of `src`, up to the copying: the entry of `ms`, the part that
-- was not reordered yet, with the key `k`, brought to its front. `done none` is `continue`.
unfoldable pub take_entry : Node → Nodes → Outcome (Option Entry)
unfolding as_string by_key
take_entry k ms = by_key ms (as_string k)

-- The `switch` of `deepCopyFormatting` on nodes of one kind, less the comments, which every branch
-- copies, from what the branches make of the content `ms`.
unfoldable pub copy_kind :
    Kind → Bool → Nodes → Outcome Nodes → Outcome Nodes → Outcome Nodes → Outcome Nodes
copy_kind mapping_node odd ms map_copied list_copied only_copied = if odd then panic else map_copied
copy_kind sequence_node odd ms map_copied list_copied only_copied = list_copied
copy_kind document_node odd ms map_copied list_copied only_copied = only_copied
copy_kind scalar_node odd ms map_copied list_copied only_copied = done ms
copy_kind alias_node odd ms map_copied list_copied only_copied = done ms
copy_kind kind_zero odd ms map_copied list_copied only_copied = done ms

unfoldable mutual
  unfolding take_entry find_matching_item shallow_copy_comments copy_kind

  pub deep_copy_formatting : Node → Node → Outcome Node
  deep_copy_formatting (node k t v c ns) (node l u w d ms) =
      let list_copied = copy_list_formatting ns ms in
      let copied =
        copy_kind k (is_odd ns || is_odd ms) ms (copy_map_formatting ns ms) list_copied
          (copy_only ns ms list_copied) in
      if same_kind k l
      then and_then copied (λ content. done (node l u w c content))
      else done (node l u w d ms)

  -- The branch of documents, from what the loop over lists makes of them.
  pub copy_only : Nodes → Nodes → Outcome Nodes → Outcome Nodes
  copy_only (cons n nil) (cons m nil) list_copied =
      and_then (deep_copy_formatting n m) (λ copied. done (cons copied nil))
  copy_only _ _ list_copied = list_copied

  pub copy_map_formatting : Nodes → Nodes → Outcome Nodes
  copy_map_formatting (cons k (cons v rest)) ms = and_then (take_entry k ms) (λ found. elim found [
    | none ↦ copy_map_formatting rest ms
    | some e ↦ and_then (deep_copy_formatting v e.value) (λ w.
        and_then (copy_map_formatting rest e.rest)
          (λ others. done (cons (shallow_copy_comments k e.key) (cons w others))))
  ])
  copy_map_formatting _ ms = done ms

  pub copy_list_formatting : Nodes → Nodes → Outcome Nodes
  copy_list_formatting (cons n rest) ms = and_then (find_matching_item n ms) (λ found. elim found [
    | none ↦ copy_list_formatting rest ms
    | some j ↦ elim (node_at j ms) [
      | none ↦ panic
      | some m ↦
          and_then (deep_copy_formatting n m)
            (λ copied. copy_list_formatting rest (set_at j copied ms))
    ]
  ])
  copy_list_formatting nil ms = done ms
