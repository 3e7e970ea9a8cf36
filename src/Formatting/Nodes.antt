-- ===== src/Formatting/Nodes.antt =====
-- The part of `yaml.Node` that the copying of comments reads or writes, and keys of mappings
-- (krm-functions/lib/kubeobject/kubeobject.go).
use nephio.Base.{
  String, ℕ, zero, suc, Bool, true, false, not, ◌||◌, Option, none, some, Outcome, done, panic,
  ◌==◌, string_eq, if◌then◌else◌,
}

-- `kind_zero` is the kind of a node that nothing was parsed into.
pub data Kind : Type 0 where
  kind_zero document_node sequence_node mapping_node scalar_node alias_node : Kind

abbrev pub same_kind : Kind → Kind → Bool
same_kind kind_zero kind_zero = true
same_kind document_node document_node = true
same_kind sequence_node sequence_node = true
same_kind mapping_node mapping_node = true
same_kind scalar_node scalar_node = true
same_kind alias_node alias_node = true
same_kind _ _ = false

pub record Comments : Type 0 where
  pub head : String
  pub line : String
  pub foot : String

-- `node kind tag value comments content`
mutual
  pub data Node : Type 0 where
    node : Kind → String → String → Comments → Nodes → Node

  pub data Nodes : Type 0 where
    nil : Nodes
    cons : Node → Nodes → Nodes

-- `shallowCopyComments`
unfoldable pub shallow_copy_comments : Node → Node → Node
shallow_copy_comments (node k t v c ns) (node l u w d ms) = node l u w c ms

-- `len(Content)%2 != 0`
abbrev pub is_odd : Nodes → Bool
is_odd nil = false
is_odd (cons n ns) = not (is_odd ns)

-- `asString`
unfoldable pub as_string : Node → Option String
as_string (node scalar_node t v c ns) = if t == "!!str" || t == "" then some v else none
as_string _ = none

abbrev pub has_text : Option String → String → Bool
has_text none key = false
has_text (some text) key = text == key

abbrev pub is_key : Node → String → Bool
is_key n key = has_text (as_string n) key

abbrev pub later : Option ℕ → Option ℕ
later none = none
later (some j) = some (suc (suc j))

-- `findKey`
unfoldable pub find_key : Nodes → String → Option ℕ
find_key nil key = none
find_key (cons k nil) key = if is_key k key then some 0 else none
find_key (cons k (cons v rest)) key =
    let behind = find_key rest key in if is_key k key then some 0 else later behind

-- `Content[i]`, where it is in range.
abbrev pub node_at : ℕ → Nodes → Option Node
node_at i nil = none
node_at zero (cons n ns) = some n
node_at (suc i) (cons n ns) = node_at i ns

abbrev pub set_at : ℕ → Node → Nodes → Nodes
set_at i m nil = nil
set_at zero m (cons n ns) = cons m ns
set_at (suc i) m (cons n ns) = cons n (set_at i m ns)

-- A mapping's content: a key, its value and what stands behind them.
pub record Entry : Type 0 where
  pub key : Node
  pub value : Node
  pub rest : Nodes

abbrev pub behind_entry : Node → Node → Outcome Entry → Outcome Entry
behind_entry k v panic = panic
behind_entry k v (done e) = done (record e { rest = cons k (cons v e.rest) })

-- The swap of the nodes `j` and `j+1` with the first two, `k` and `v`, of which `j` counts on.
unfoldable pub swap_with : Node → Node → ℕ → Nodes → Outcome Entry
swap_with k v zero (cons l (cons w rest)) =
    done (record { key = l; value = w; rest = cons k (cons v rest) })
swap_with k v (suc (suc j)) (cons l (cons w rest)) = behind_entry l w (swap_with k v j rest)
swap_with k v _ _ = panic

-- `if j != 0 { swap }`
unfoldable pub to_front : ℕ → Nodes → Outcome Entry
unfolding swap_with
to_front zero (cons k (cons v rest)) = done (record { key = k; value = v; rest = rest })
to_front (suc (suc j)) (cons k (cons v rest)) = swap_with k v j rest
to_front _ _ = panic
