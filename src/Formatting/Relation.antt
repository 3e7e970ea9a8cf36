-- ===== src/Formatting/Relation.antt =====
-- What the copying of formatting (krm-functions/lib/kubeobject/kubeobject.go) may change.
use nephio.Base.{
  String, ℕ, zero, suc, ◌≡◌, refl, sym, Bool, true, false, Option, none, some, ◌||◌, Outcome, done,
  panic, and_then, IfDone, IfDone-and_then, IfDone-done, subst, if◌then◌else◌, inl, inr, Bool-cases,
  Option-cases,
}
use nephio.Formatting.Nodes.{
  Kind, kind_zero, document_node, sequence_node, mapping_node, scalar_node, alias_node, same_kind,
  Comments, Node, node, Nodes, nil, cons, is_odd, as_string, find_key, node_at, set_at, Entry,
  behind_entry, swap_with, to_front, shallow_copy_comments,
}
use nephio.Formatting.Matching.{find_matching_item}
use nephio.Formatting.Copy.{
  some_entry, at_found, by_key, take_entry, copy_kind, deep_copy_formatting, copy_only,
  copy_map_formatting, copy_list_formatting,
}

-- `Reformatted m m'`: `m'` has the kind, the tag and the value of `m`, and its content up to the
-- order of the entries of mappings, at every depth; the comments may differ.
mutual
  pub data Reformatted : Node → Node → Type 0 where
    reformatted :
        {k : Kind} {t v : String} {c c' : Comments} {ms ms' : Nodes}
        → Rearranged k ms ms'
        → Reformatted (node k t v c ms) (node k t v c' ms')

  -- The content of a node of a kind: entries may trade places only in a mapping.
  pub data Rearranged : Kind → Nodes → Nodes → Type 0 where
    same : {k : Kind} {ms : Nodes} → Rearranged k ms ms
    item :
        {k : Kind} {m m' : Node} {ms ms' : Nodes}
        → same_kind k mapping_node ≡ false
        → Reformatted m m'
        → Rearranged k ms ms'
        → Rearranged k (cons m ms) (cons m' ms')
    entry :
        {l l' w w' : Node} {ms ms' : Nodes}
        → Reformatted l l'
        → Reformatted w w'
        → Rearranged mapping_node ms ms'
        → Rearranged mapping_node (cons l (cons w ms)) (cons l' (cons w' ms'))
    swap :
        {l w m x : Node} {ms : Nodes}
        → Rearranged mapping_node
            (cons l (cons w (cons m (cons x ms))))
            (cons m (cons x (cons l (cons w ms))))
    after :
        {k : Kind} {ls ms ns : Nodes} → Rearranged k ls ms → Rearranged k ms ns → Rearranged k ls ns

pub Reformatted-refl : (m : Node) → Reformatted m m
Reformatted-refl (node k t v c ms) = reformatted same

pub Reformatted-shallow_copy_comments : (m n : Node) → Reformatted n (shallow_copy_comments m n)
unfolding shallow_copy_comments
Reformatted-shallow_copy_comments (node k t v c ms) (node l u w d ns) = reformatted same

abbrev Front : Node → Node → Nodes → Outcome Entry → Type 0
Front l w ms panic = Unit
Front l w ms (done e) =
    Rearranged mapping_node (cons l (cons w ms)) (cons e.key (cons e.value e.rest))

Front-behind :
    (l w m x : Node) (ms : Nodes) (r : Outcome Entry)
    → Front l w ms r
    → Front l w (cons m (cons x ms)) (behind_entry m x r)
Front-behind l w m x ms panic h = tt
Front-behind l w m x ms (done e) h =
    after swap (after (entry (Reformatted-refl m) (Reformatted-refl x) h) swap)

-- The entry at the front and the rest are the entries before.
Front-swap_with : (l w : Node) (j : ℕ) (ms : Nodes) → Front l w ms (swap_with l w j ms)
unfolding swap_with
Front-swap_with l w zero (cons m (cons x ms)) = swap
Front-swap_with l w (suc (suc j)) (cons m (cons x ms)) =
    Front-behind l w m x ms (swap_with l w j ms) (Front-swap_with l w j ms)
Front-swap_with l w j ms = tt

abbrev pub Brings : Nodes → Entry → Type 0
Brings ms e = Rearranged mapping_node ms (cons e.key (cons e.value e.rest))

Brings-swapped :
    (l w : Node) (ms : Nodes) (r : Outcome Entry)
    → Front l w ms r
    → IfDone (Brings (cons l (cons w ms))) r
Brings-swapped l w ms panic h = tt
Brings-swapped l w ms (done e) h = h

pub Brings-to_front : (j : ℕ) (ms : Nodes) → IfDone (Brings ms) (to_front j ms)
unfolding to_front
Brings-to_front zero (cons l (cons w ms)) = same
Brings-to_front (suc (suc j)) (cons l (cons w ms)) =
    Brings-swapped l w ms (swap_with l w j ms) (Front-swap_with l w j ms)
Brings-to_front j ms = tt

abbrev pub BringsSome : Nodes → Option Entry → Type 0
BringsSome ms none = Unit
BringsSome ms (some e) = Brings ms e

BringsSome-some_entry :
    (ms : Nodes) (r : Outcome Entry) → IfDone (Brings ms) r → IfDone (BringsSome ms) (some_entry r)
BringsSome-some_entry ms panic h = tt
BringsSome-some_entry ms (done e) h = h

BringsSome-at_found : (ms : Nodes) (j : Option ℕ) → IfDone (BringsSome ms) (at_found ms j)
unfolding at_found
BringsSome-at_found ms none = tt
BringsSome-at_found ms (some j) = BringsSome-some_entry ms (to_front j ms) (Brings-to_front j ms)

BringsSome-by_key : (ms : Nodes) (o : Option String) → IfDone (BringsSome ms) (by_key ms o)
unfolding by_key
BringsSome-by_key ms none = tt
BringsSome-by_key ms (some key) = BringsSome-at_found ms (find_key ms key)

pub BringsSome-take_entry : (k : Node) (ms : Nodes) → IfDone (BringsSome ms) (take_entry k ms)
unfolding take_entry
BringsSome-take_entry k ms = BringsSome-by_key ms (as_string k)

some-injective : {m n : Node} → some m ≡ some n → m ≡ n
some-injective h = cc

pub Rearranged-set_at :
    (k : Kind) (j : ℕ) (m m' : Node) (ms : Nodes)
    → same_kind k mapping_node ≡ false
    → node_at j ms ≡ some m
    → Reformatted m m'
    → Rearranged k ms (set_at j m' ms)
Rearranged-set_at k j m m' nil plain at r = same
Rearranged-set_at k zero m m' (cons n ns) plain at r =
    item plain (subst (λ x. Reformatted x m') (sym (some-injective at)) r) same
Rearranged-set_at k (suc j) m m' (cons n ns) plain at r =
    item plain (Reformatted-refl n) (Rearranged-set_at k j m m' ns plain at r)

pub same_kind-eq : (k l : Kind) → same_kind k l ≡ true → k ≡ l
same_kind-eq kind_zero kind_zero h = refl
same_kind-eq document_node document_node h = refl
same_kind-eq sequence_node sequence_node h = refl
same_kind-eq mapping_node mapping_node h = refl
same_kind-eq scalar_node scalar_node h = refl
same_kind-eq alias_node alias_node h = refl
same_kind-eq k l h = cc

-- The `switch` keeps what its branches keep.
Rearranged-copy_kind :
    (k : Kind) (odd : Bool) (ms : Nodes) (map_copied list_copied only_copied : Outcome Nodes)
    → IfDone (Rearranged mapping_node ms) map_copied
    → (same_kind k mapping_node ≡ false → IfDone (Rearranged k ms) list_copied)
    → (same_kind k mapping_node ≡ false → IfDone (Rearranged k ms) only_copied)
    → IfDone (Rearranged k ms) (copy_kind k odd ms map_copied list_copied only_copied)
unfolding copy_kind
Rearranged-copy_kind mapping_node true ms a b c f g h = tt
Rearranged-copy_kind mapping_node false ms a b c f g h = f
Rearranged-copy_kind sequence_node odd ms a b c f g h = g refl
Rearranged-copy_kind document_node odd ms a b c f g h = h refl
Rearranged-copy_kind scalar_node odd ms a b c f g h = same
Rearranged-copy_kind alias_node odd ms a b c f g h = same
Rearranged-copy_kind kind_zero odd ms a b c f g h = same

any_place : (found : Outcome (Option ℕ)) → IfDone (λ j. Unit {0}) found
any_place panic = tt
any_place (done j) = tt

Reformatted-content :
    (l : Kind) (u w : String) (c d : Comments) (ms : Nodes) (copied : Outcome Nodes)
    → IfDone (Rearranged l ms) copied
    → IfDone
        (Reformatted (node l u w d ms))
        (and_then copied (λ content. done (node l u w c content)))
Reformatted-content l u w c d ms panic h = tt
Reformatted-content l u w c d ms (done content) h = reformatted h

-- Nodes of different kinds are left alone.
Reformatted-same_kind :
    (k l : Kind) (u w : String) (c d : Comments) (ms : Nodes) (copied : Outcome Nodes)
    → IfDone (Rearranged k ms) copied
    → IfDone (Reformatted (node l u w d ms)) (
        if same_kind k l
        then and_then copied (λ content. done (node l u w c content))
        else done (node l u w d ms))
Reformatted-same_kind k l u w c d ms copied h = elim (Bool-cases (same_kind k l)) [
  | inl e ↦ rw e (
      Reformatted-content l u w c d ms copied
        (subst (λ x. IfDone (Rearranged x ms) copied) (same_kind-eq k l e) h))
  | inr e ↦ rw e (reformatted same)
]

IfDone-after :
    (k : Kind) (ls ms : Nodes) (r : Outcome Nodes)
    → Rearranged k ls ms
    → IfDone (Rearranged k ms) r
    → IfDone (Rearranged k ls) r
IfDone-after k ls ms panic h g = tt
IfDone-after k ls ms (done ns) h g = after h g

-- One round of the loop over a list, from what the calls that it makes keep.
replaced_item :
    (k : Kind) (n : Node) (rest : Nodes) (j : ℕ) (ms : Nodes)
    → same_kind k mapping_node ≡ false
    → ((m : Node) → IfDone (Reformatted m) (deep_copy_formatting n m))
    → ((others : Nodes) → IfDone (Rearranged k others) (copy_list_formatting rest others))
    → IfDone (Rearranged k ms) (elim (node_at j ms) [
      | none ↦ panic
      | some m ↦
          and_then
            (deep_copy_formatting n m)
            (λ copied. copy_list_formatting rest (set_at j copied ms))
    ])
replaced_item k n rest j ms plain one others = elim (Option-cases (node_at j ms)) [
  | inl e ↦ rw e tt
  | inr (m, e) ↦ rw e (
      IfDone-and_then _ _ (deep_copy_formatting n m) _ (one m) (λ copied q.
        IfDone-after k ms (set_at j copied ms) _ (Rearranged-set_at k j m copied ms plain e q)
          (others (set_at j copied ms))))
]

mutual
  unfolding deep_copy_formatting copy_map_formatting copy_list_formatting copy_only

  pub deep_copy-Reformatted : (n m : Node) → IfDone (Reformatted m) (deep_copy_formatting n m)
  deep_copy-Reformatted (node k t v c ns) (node l u w d ms) =
      let lists = copy_list_formatting ns ms in
      Reformatted-same_kind k l u w c d ms _ (
        Rearranged-copy_kind k (is_odd ns || is_odd ms) ms (copy_map_formatting ns ms) lists
          (copy_only ns ms lists) (copy_map-Rearranged ns ms)
          (λ plain. copy_list-Rearranged k ns ms plain)
          (λ plain. copy_only-Rearranged k ns ms lists plain (copy_list-Rearranged k ns ms plain)))

  copy_only-Rearranged :
      (k : Kind) (ns ms : Nodes) (list_copied : Outcome Nodes)
      → same_kind k mapping_node ≡ false
      → IfDone (Rearranged k ms) list_copied
      → IfDone (Rearranged k ms) (copy_only ns ms list_copied)
  copy_only-Rearranged k (cons n nil) (cons m nil) r plain h =
      IfDone-and_then _ _ (deep_copy_formatting n m) _ (deep_copy-Reformatted n m)
        (λ copied q. item plain q same)
  copy_only-Rearranged k ns ms r plain h = h

  copy_map-Rearranged :
      (ns ms : Nodes) → IfDone (Rearranged mapping_node ms) (copy_map_formatting ns ms)
  copy_map-Rearranged (cons k (cons v rest)) ms =
      IfDone-and_then _ _ (take_entry k ms) _ (BringsSome-take_entry k ms) (elim [
        | none ↦ λ h. copy_map-Rearranged rest ms
        | some e ↦ λ h.
            IfDone-and_then _ _ (deep_copy_formatting v e.value) _ (deep_copy-Reformatted v e.value)
              (λ x q.
                IfDone-and_then _ _ (copy_map_formatting rest e.rest) _
                  (copy_map-Rearranged rest e.rest)
                  (λ others r. after h (entry (Reformatted-shallow_copy_comments k e.key) q r)))
      ])
  copy_map-Rearranged ns ms = same

  copy_list-Rearranged :
      (k : Kind) (ns ms : Nodes)
      → same_kind k mapping_node ≡ false
      → IfDone (Rearranged k ms) (copy_list_formatting ns ms)
  copy_list-Rearranged k nil ms plain = same
  copy_list-Rearranged k (cons n rest) ms plain =
      IfDone-and_then _ _ (find_matching_item n ms) _ (any_place (find_matching_item n ms)) (elim [
        | none ↦ λ h. copy_list-Rearranged k rest ms plain
        | some j ↦ λ h.
            replaced_item k n rest j ms plain (deep_copy-Reformatted n)
              (λ ns. copy_list-Rearranged k rest ns plain)
      ])

-- What `deepCopyFormatting` leaves, if it returns, has the kind, the tag, the value and the content of
-- its target, up to comments and the order of the entries of mappings, at every depth.
pub deep_copy_formatting-Reformatted :
    (n m x : Node) → deep_copy_formatting n m ≡ done x → Reformatted m x
deep_copy_formatting-Reformatted n m x e = IfDone-done (Reformatted m) e (deep_copy-Reformatted n m)
