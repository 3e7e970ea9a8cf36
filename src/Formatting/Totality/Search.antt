-- ===== src/Formatting/Totality/Search.antt =====
-- The searches of krm-functions/lib/kubeobject/kubeobject.go, `findKey` and
-- `findMatchingItemForFormattingCopy`, on nodes whose mappings have a value for every key.
use nephio.Base.{
  String, ℕ, zero, suc, ◌≡◌, refl, sym, subst, Bool, true, false, not, ◌||◌, Option, none, some,
  Outcome, done, panic, if◌then◌else◌, arith, inl, inr, Bool-cases, Option-cases, Returns,
  Returns-and_then,
}
use nephio.Formatting.Nodes.{
  Kind, kind_zero, mapping_node, same_kind, Node, node, Nodes, nil, cons, is_odd, is_key, as_string,
  find_key, node_at, Entry, later, behind_entry, swap_with, to_front,
}
use nephio.Formatting.Matching.{
  counterpart, match_kind, should_copy_formatting, matches_entries, next_place, by_text, at_place,
  find_matching_item,
}
use nephio.Formatting.Relation.{same_kind-eq}
use nephio.Formatting.Copy.{some_entry, at_found, by_key, take_entry}

abbrev pub proper_content : Kind → Bool → Bool
proper_content kind_zero odd = false
proper_content mapping_node odd = not odd
proper_content _ odd = true

-- A node of a kind of the parser's, with a value for every key of a mapping, at every depth.
abbrev mutual
  pub IsProper : Node → Type 0
  IsProper (node k t v c ns) = (proper_content k (is_odd ns) ≡ true) × AllProper ns

  pub AllProper : Nodes → Type 0
  AllProper nil = Unit
  AllProper (cons n ns) = IsProper n × AllProper ns

-- Whether the nodes at `j` and `j+1` are an entry, counted in twos.
abbrev IsEntry : ℕ → Nodes → Type 0
IsEntry zero (cons k (cons v rest)) = Unit
IsEntry (suc (suc j)) (cons k (cons v rest)) = IsEntry j rest
IsEntry _ _ = ⊥

abbrev IsFound : Option ℕ → Nodes → Type 0
IsFound none ms = Unit
IsFound (some j) ms = IsEntry j ms

IsFound-later :
    (k v : Node) (ms : Nodes) (o : Option ℕ) → IsFound o ms → IsFound (later o) (cons k (cons v ms))
IsFound-later k v ms none h = tt
IsFound-later k v ms (some j) h = h

IsFound-find_key : (ms : Nodes) (key : String) → is_odd ms ≡ false → IsFound (find_key ms key) ms
unfolding find_key
IsFound-find_key nil key h = tt
IsFound-find_key (cons k nil) key h = cc
IsFound-find_key (cons k (cons v rest)) key h =
    let behind =
      IsFound-later k v rest (find_key rest key) (IsFound-find_key rest key (ground arith)) in
    elim (Bool-cases (is_key k key)) [ inl e ↦ rw e tt | inr e ↦ rw e behind ]

Returns-behind_entry :
    (k v : Node) (r : Outcome Entry)
    → Returns (λ e. Unit {0}) r
    → Returns (λ e. Unit {0}) (behind_entry k v r)
Returns-behind_entry k v (done e) h = tt
Returns-behind_entry k v panic h = h

Returns-swap_with :
    (l w : Node) (j : ℕ) (ms : Nodes) → IsEntry j ms → Returns (λ e. Unit {0}) (swap_with l w j ms)
unfolding swap_with
Returns-swap_with l w zero (cons k (cons v rest)) h = tt
Returns-swap_with l w (suc (suc j)) (cons k (cons v rest)) h =
    Returns-behind_entry k v (swap_with l w j rest) (Returns-swap_with l w j rest h)
Returns-swap_with l w j ms h = absurd h

Returns-to_front : (j : ℕ) (ms : Nodes) → IsEntry j ms → Returns (λ e. Unit {0}) (to_front j ms)
unfolding to_front
Returns-to_front zero (cons k (cons v rest)) h = tt
Returns-to_front (suc (suc j)) (cons k (cons v rest)) h = Returns-swap_with k v j rest h
Returns-to_front j ms h = absurd h

Returns-some_entry :
    (r : Outcome Entry) → Returns (λ e. Unit {0}) r → Returns (λ e. Unit {0}) (some_entry r)
Returns-some_entry (done e) h = tt
Returns-some_entry panic h = h

Returns-at_found :
    (ms : Nodes) (o : Option ℕ) → IsFound o ms → Returns (λ e. Unit {0}) (at_found ms o)
unfolding at_found
Returns-at_found ms none h = tt
Returns-at_found ms (some j) h = Returns-some_entry (to_front j ms) (Returns-to_front j ms h)

Returns-by_key :
    (ms : Nodes) (o : Option String) → is_odd ms ≡ false → Returns (λ e. Unit {0}) (by_key ms o)
unfolding by_key
Returns-by_key ms none even = tt
Returns-by_key ms (some key) even =
    Returns-at_found ms (find_key ms key) (IsFound-find_key ms key even)

pub Returns-take_entry :
    (k : Node) (ms : Nodes) → is_odd ms ≡ false → Returns (λ e. Unit {0}) (take_entry k ms)
unfolding take_entry
Returns-take_entry k ms even = Returns-by_key ms (as_string k) even

some-injective : {m n : Node} → some m ≡ some n → m ≡ n
some-injective h = cc

pub not-true : (b : Bool) → not b ≡ true → b ≡ false
not-true true h = cc
not-true false h = refl

pub AllProper-node_at :
    (j : ℕ) (ms : Nodes) {m : Node} → AllProper ms → node_at j ms ≡ some m → IsProper m
AllProper-node_at j nil h e = cc
AllProper-node_at zero (cons n ns) h e = subst IsProper (some-injective e) h.0
AllProper-node_at (suc j) (cons n ns) h e = AllProper-node_at j ns h.1 e

Returns-match_kind :
    (k : Kind) (v w : String) (a b : Bool) (entries : Outcome Bool)
    → proper_content k a ≡ true
    → proper_content k b ≡ true
    → Returns (λ e. Unit {0}) entries
    → Returns (λ e. Unit {0}) (match_kind k v w (a || b) entries)
unfolding match_kind
Returns-match_kind kind_zero v w a b r p q h = cc
Returns-match_kind mapping_node v w a b r p q h = rw (not-true a p, not-true b q) h
Returns-match_kind k v w a b r p q h = tt

AllProper-at_place :
    (o : Option ℕ) (ms : Nodes) {w : Node} → AllProper ms → at_place ms o ≡ some w → IsProper w
AllProper-at_place none ms h e = cc
AllProper-at_place (some j) ms h e = AllProper-node_at (suc j) ms h e

AllProper-by_text :
    (o : Option String) (ms : Nodes) {w : Node} → AllProper ms → by_text o ms ≡ some w → IsProper w
AllProper-by_text none ms h e = cc
AllProper-by_text (some key) ms h e = AllProper-at_place (find_key ms key) ms h e

AllProper-counterpart :
    (k : Node) (ms : Nodes) {w : Node} → AllProper ms → counterpart k ms ≡ some w → IsProper w
unfolding counterpart
AllProper-counterpart k ms h e = AllProper-by_text (as_string k) ms h e

-- One round of the loop over the keys of a mapping.
Returns-round :
    (k v : Node) (rest ms : Nodes)
    → AllProper ms
    → ((w : Node) → IsProper w → Returns (λ b. Unit {0}) (should_copy_formatting v w))
    → Returns (λ b. Unit {0}) (matches_entries rest ms)
    → Returns (λ b. Unit {0}) (matches_entries (cons k (cons v rest)) ms)
unfolding matches_entries
Returns-round k v rest ms h one others = elim (Option-cases (counterpart k ms)) [
  | inl e ↦ rw (Returns, e) tt
  | inr (w, e) ↦
      rw (Returns, e)
        (Returns-and_then _ _ (should_copy_formatting v w) _
          (one w (AllProper-counterpart k ms h e)) (elim [ true ↦ λ u. others | false ↦ λ u. tt ]))
]

Returns-if :
    (b : Bool) (r : Outcome Bool)
    → Returns (λ e. Unit {0}) r
    → Returns (λ e. Unit {0}) (if b then r else done false)
Returns-if true r h = h
Returns-if false r h = tt

mutual
  unfolding should_copy_formatting

  Returns-should_copy_formatting :
      (n m : Node) → IsProper n → IsProper m → Returns (λ b. Unit {0}) (should_copy_formatting n m)
  Returns-should_copy_formatting (node k t v c ns) (node l u w d ms) p q =
      elim (Bool-cases (same_kind k l)) [
        | inl e ↦ rw e (
            Returns-match_kind k v w (is_odd ns) (is_odd ms) (matches_entries ns ms) p.0
              (subst (λ x. proper_content x (is_odd ms) ≡ true) (sym (same_kind-eq k l e)) q.0)
              (Returns-matches_entries ns ms p.1 q.1))
        | inr e ↦ rw e tt
      ]

  Returns-matches_entries :
      (ns ms : Nodes)
      → AllProper ns
      → AllProper ms
      → Returns (λ b. Unit {0}) (matches_entries ns ms)
  Returns-matches_entries (cons k (cons v rest)) ms p q =
      Returns-round k v rest ms q (λ w proper. Returns-should_copy_formatting v w p.1.0 proper)
        (Returns-matches_entries rest ms p.1.1 q)
  Returns-matches_entries ns ms p q = tt

-- The item that the search finds is one of the list.
abbrev pub IsPlace : Nodes → Option ℕ → Type 0
IsPlace ms none = Unit
IsPlace ms (some j) = (m : Node) × (node_at j ms ≡ some m)

IsPlace-next_place :
    (m : Node) (ms : Nodes) (o : Option ℕ) → IsPlace ms o → IsPlace (cons m ms) (next_place o)
IsPlace-next_place m ms none h = h
IsPlace-next_place m ms (some j) h = h

pub Returns-find_matching_item :
    (n : Node) (ms : Nodes)
    → IsProper n
    → AllProper ms
    → Returns (IsPlace ms) (find_matching_item n ms)
unfolding find_matching_item
Returns-find_matching_item n nil p q = tt
Returns-find_matching_item n (cons m ms) p q =
    Returns-and_then _ _ (should_copy_formatting n m) _ (Returns-should_copy_formatting n m p q.0)
      (elim [
        | true ↦ λ u. (m, refl)
        | false ↦ λ u.
            Returns-and_then _ _ (find_matching_item n ms) _ (Returns-find_matching_item n ms p q.1)
              (λ o. IsPlace-next_place m ms o)
      ])
