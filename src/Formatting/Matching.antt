-- ===== src/Formatting/Matching.antt =====
-- Which item of a list takes the formatting of another
-- (krm-functions/lib/kubeobject/kubeobject.go).
use nephio.Base.{
  String, ℕ, suc, Bool, true, false, ◌||◌, Option, none, some, Outcome, done, panic, and_then, ◌==◌,
  string_eq, if◌then◌else◌,
}
use nephio.Formatting.Nodes.{
  Kind, kind_zero, document_node, sequence_node, mapping_node, scalar_node, alias_node, same_kind,
  Node, node, Nodes, nil, cons, is_odd, as_string, find_key, node_at,
}

abbrev pub at_place : Nodes → Option ℕ → Option Node
at_place ms none = none
at_place ms (some j) = node_at (suc j) ms

abbrev pub by_text : Option String → Nodes → Option Node
by_text none ms = none
by_text (some key) ms = at_place ms (find_key ms key)

-- The value `dst.Content[j+1]` that the code compares with that of the key `k`, if `k` is text and
-- `dst` has it.
unfoldable pub counterpart : Node → Nodes → Option Node
unfolding as_string find_key
counterpart k ms = by_text (as_string k) ms

-- The `switch` of `shouldCopyFormatting`, on nodes of one kind with the values `v` and `w`; `entries`
-- is what the loop over the keys of a mapping returns.
unfoldable pub match_kind : Kind → String → String → Bool → Outcome Bool → Outcome Bool
match_kind scalar_node v w odd entries = done (v == w)
match_kind mapping_node v w odd entries = if odd then panic else entries
match_kind sequence_node v w odd entries = done true
match_kind alias_node v w odd entries = done true
match_kind document_node v w odd entries = done true
match_kind kind_zero v w odd entries = panic

-- `shouldCopyFormatting`, and its loop over the keys of a mapping.
unfoldable mutual
  unfolding counterpart match_kind

  pub should_copy_formatting : Node → Node → Outcome Bool
  should_copy_formatting (node k t v c ns) (node l u w d ms) =
      let matched = match_kind k v w (is_odd ns || is_odd ms) (matches_entries ns ms) in
      if same_kind k l then matched else done false

  pub matches_entries : Nodes → Nodes → Outcome Bool
  matches_entries (cons k (cons v rest)) ms = elim (counterpart k ms) [
    | none ↦ done false
    | some w ↦
        and_then (should_copy_formatting v w)
          (λ same. if same then matches_entries rest ms else done false)
  ]
  matches_entries _ ms = done true

abbrev pub next_place : Option ℕ → Option ℕ
next_place none = none
next_place (some j) = some (suc j)

-- `findMatchingItemForFormattingCopy`
unfoldable pub find_matching_item : Node → Nodes → Outcome (Option ℕ)
unfolding should_copy_formatting
find_matching_item n nil = done none
find_matching_item n (cons m ms) =
    let rest = find_matching_item n ms in
    and_then (should_copy_formatting n m)
      (λ same. if same then done (some 0) else and_then rest (λ j. done (next_place j)))
