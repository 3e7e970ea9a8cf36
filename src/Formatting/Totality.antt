-- ===== src/Formatting/Totality.antt =====
-- The copying of formatting (krm-functions/lib/kubeobject/kubeobject.go) returns for nodes of the
-- kinds that a parser makes, whose mappings have a value for every key.
pub mod Search
use nephio.Base.{
  String, ℕ, zero, suc, ◌≡◌, refl, sym, subst, ◌∙◌, ap, Bool, true, false, not, ◌||◌, Option, none,
  some, Outcome, done, panic, and_then, if◌then◌else◌, arith, inl, inr, Bool-cases, Option-cases,
  Returns, Returns-and_then, Returns-IfDone, Returns-done, IfDone-map,
}
use nephio.Formatting.Nodes.{
  Kind, kind_zero, document_node, sequence_node, mapping_node, scalar_node, alias_node, same_kind,
  Comments, Node, node, Nodes, nil, cons, is_odd, find_key, Entry, node_at, set_at,
  shallow_copy_comments,
}
use nephio.Formatting.Matching.{find_matching_item}
use nephio.Formatting.Copy.{
  copy_kind, take_entry, deep_copy_formatting, copy_only, copy_map_formatting, copy_list_formatting,
}
use nephio.Formatting.Relation.{
  Reformatted, reformatted, Rearranged, same, item, entry, swap, after, Brings, BringsSome,
  BringsSome-take_entry, deep_copy-Reformatted, Rearranged-set_at, same_kind-eq,
}
use Search.{
  IsProper, AllProper, proper_content, not-true, AllProper-node_at, Returns-take_entry,
  Returns-find_matching_item,
}

is_odd-Rearranged : {k : Kind} {ms ns : Nodes} → Rearranged k ms ns → is_odd ms ≡ is_odd ns
is_odd-Rearranged same = refl
is_odd-Rearranged (item plain q r) = ap not (is_odd-Rearranged r)
is_odd-Rearranged (entry p q r) = ap (λ b. not (not b)) (is_odd-Rearranged r)
is_odd-Rearranged swap = refl
is_odd-Rearranged (after r s) = is_odd-Rearranged r ∙ is_odd-Rearranged s

mutual
  IsProper-Reformatted : {m n : Node} → Reformatted m n → IsProper m → IsProper n
  IsProper-Reformatted (reformatted {k = k} r) h = (
    subst (λ odd. proper_content k odd ≡ true) (is_odd-Rearranged r) h.0,
    AllProper-Rearranged r h.1,
  )

  AllProper-Rearranged :
      {k : Kind} {ms ns : Nodes} → Rearranged k ms ns → AllProper ms → AllProper ns
  AllProper-Rearranged same h = h
  AllProper-Rearranged (item plain q r) h = (IsProper-Reformatted q h.0, AllProper-Rearranged r h.1)
  AllProper-Rearranged (entry p q r) h =
      (IsProper-Reformatted p h.0, (IsProper-Reformatted q h.1.0, AllProper-Rearranged r h.1.1))
  AllProper-Rearranged swap h = (h.1.1.0, (h.1.1.1.0, (h.0, (h.1.0, h.1.1.1.1))))
  AllProper-Rearranged (after r s) h = AllProper-Rearranged s (AllProper-Rearranged r h)

-- What the mutual calls return: nothing is said of it, `Reformatted` and `Rearranged` say the rest.
abbrev Anything {ℓ} : {A : Type ℓ} → A → Type 0
Anything a = Unit

Returns-copy_kind :
    (k : Kind) (a b : Bool) (ms : Nodes) (map_copied list_copied only_copied : Outcome Nodes)
    → proper_content k a ≡ true
    → proper_content k b ≡ true
    → ((same_kind k mapping_node ≡ true) → b ≡ false → Returns Anything map_copied)
    → Returns Anything list_copied
    → Returns Anything only_copied
    → Returns Anything (copy_kind k (a || b) ms map_copied list_copied only_copied)
unfolding copy_kind
Returns-copy_kind kind_zero a b ms c d e p q f g h = tt
Returns-copy_kind mapping_node a b ms c d e p q f g h =
    rw (not-true a p, not-true b q) (f refl (not-true b q))
Returns-copy_kind sequence_node a b ms c d e p q f g h = g
Returns-copy_kind document_node a b ms c d e p q f g h = h
Returns-copy_kind scalar_node a b ms c d e p q f g h = tt
Returns-copy_kind alias_node a b ms c d e p q f g h = tt

Returns-content :
    (l : Kind) (u w : String) (c : Comments) (copied : Outcome Nodes)
    → Returns Anything copied
    → Returns Anything (and_then copied (λ content. done (node l u w c content)))
Returns-content l u w c copied h = Returns-and_then _ _ copied _ h (λ content u. tt)

abbrev Brought : Option Entry → Type 0
Brought none = Unit
Brought (some e) = AllProper (cons e.key (cons e.value e.rest)) × (is_odd e.rest ≡ false)

twice : (b : Bool) → not (not b) ≡ false → b ≡ false
twice true h = h
twice false h = h

even-Brings : (ms : Nodes) (e : Entry) → Brings ms e → is_odd ms ≡ false → is_odd e.rest ≡ false
even-Brings ms e h even = twice (is_odd e.rest) (sym (is_odd-Rearranged h) ∙ even)

Brought-BringsSome :
    (ms : Nodes)
    → AllProper ms
    → is_odd ms ≡ false
    → (o : Option Entry) → BringsSome ms o
    → Brought o
Brought-BringsSome ms h even none b = tt
Brought-BringsSome ms h even (some e) b = (AllProper-Rearranged b h, even-Brings ms e b even)

Brought-take_entry :
    (k : Node) (ms : Nodes) → AllProper ms → is_odd ms ≡ false → Returns Brought (take_entry k ms)
Brought-take_entry k ms h even =
    Returns-IfDone _ _ (take_entry k ms) (Returns-take_entry k ms even)
      (IfDone-map _ _ (take_entry k ms) (Brought-BringsSome ms h even) (BringsSome-take_entry k ms))

AllProper-set_at :
    (j : ℕ) (m : Node) (ms : Nodes) → IsProper m → AllProper ms → AllProper (set_at j m ms)
AllProper-set_at j m nil p h = tt
AllProper-set_at zero m (cons n ns) p h = (p, h.1)
AllProper-set_at (suc j) m (cons n ns) p h = (h.0, AllProper-set_at j m ns p h.1)

-- A copy that returns gives a node of the parser's again.
Returns-IsProper :
    (n m : Node)
    → IsProper m
    → Returns Anything (deep_copy_formatting n m)
    → Returns IsProper (deep_copy_formatting n m)
Returns-IsProper n m p h = Returns-IfDone _ _ (deep_copy_formatting n m) h (
    IfDone-map _ _ (deep_copy_formatting n m) (λ x r. IsProper-Reformatted r p)
      (deep_copy-Reformatted n m))

mutual
  unfolding deep_copy_formatting

  Returns-deep_copy_formatting :
      (n m : Node) → IsProper n → IsProper m → Returns Anything (deep_copy_formatting n m)
  Returns-deep_copy_formatting (node k t v c ns) (node l u w d ms) p q =
      elim (Bool-cases (same_kind k l)) [
        | inl e ↦
            let lists = copy_list_formatting ns ms in
            rw e (
              Returns-content l u w c _ (
                Returns-copy_kind k (is_odd ns) (is_odd ms) ms (copy_map_formatting ns ms) lists
                  (copy_only ns ms lists) p.0
                  (subst (λ x. proper_content x (is_odd ms) ≡ true) (sym (same_kind-eq k l e)) q.0)
                  (λ mapping even. Returns-copy_map_formatting ns ms p.1 q.1 even)
                  (Returns-copy_list_formatting ns ms p.1 q.1)
                  (Returns-copy_only ns ms lists p.1 q.1
                    (Returns-copy_list_formatting ns ms p.1 q.1))))
        | inr e ↦ rw e tt
      ]

  Returns-copy_map_formatting :
      (ns ms : Nodes)
      → AllProper ns
      → AllProper ms
      → is_odd ms ≡ false
      → Returns Anything (copy_map_formatting ns ms)
  Returns-copy_map_formatting (cons k (cons v rest)) ms p q even =
      Returns-and_then _ _ (take_entry k ms) _ (Brought-take_entry k ms q even) (elim [
        | none ↦ λ h. Returns-copy_map_formatting rest ms p.1.1 q even
        | some e ↦ λ h.
            Returns-and_then _ _ (deep_copy_formatting v e.value) _
              (Returns-deep_copy_formatting v e.value p.1.0 h.0.1.0)
              (λ x u.
                Returns-and_then _ _ (copy_map_formatting rest e.rest) _
                  (Returns-copy_map_formatting rest e.rest p.1.1 h.0.1.1 h.1) (λ others u. tt))
      ])
  Returns-copy_map_formatting ns ms p q even = tt

  Returns-copy_only :
      (ns ms : Nodes) (list_copied : Outcome Nodes)
      → AllProper ns
      → AllProper ms
      → Returns Anything list_copied
      → Returns Anything (copy_only ns ms list_copied)
  Returns-copy_only (cons n nil) (cons m nil) r p q h =
      Returns-and_then _ _ (deep_copy_formatting n m) _ (Returns-deep_copy_formatting n m p.0 q.0)
        (λ copied u. tt)
  Returns-copy_only ns ms r p q h = h

  Returns-copy_list_formatting :
      (ns ms : Nodes) → AllProper ns → AllProper ms → Returns Anything (copy_list_formatting ns ms)
  Returns-copy_list_formatting nil ms p q = tt
  Returns-copy_list_formatting (cons n rest) ms p q =
      Returns-and_then _ _ (find_matching_item n ms) _ (Returns-find_matching_item n ms p.0 q)
        (elim [
          | none ↦ λ h. Returns-copy_list_formatting rest ms p.1 q
          | some j ↦ λ h.
              rw (Returns, h.1)
                (Returns-and_then _ _ (deep_copy_formatting n h.0) _
                  (Returns-IsProper n h.0 (AllProper-node_at j ms q h.1)
                    (Returns-deep_copy_formatting n h.0 p.0 (AllProper-node_at j ms q h.1)))
                  (λ copied r.
                    Returns-copy_list_formatting rest (set_at j copied ms) p.1
                      (AllProper-set_at j copied ms r q)))
        ])

-- For two nodes of kinds that the parser makes, whose mappings have a value for every key at every
-- depth, `deepCopyFormatting` returns: it does not panic, and what it leaves has the kind, the tag, the value and
-- the content of its target, up to comments and the order of the entries of mappings at every
-- depth, and is again such a node.
pub deep_copy_formatting_lem :
    (n m : Node)
    → IsProper n
    → IsProper m
    → (x : Node) × (deep_copy_formatting n m ≡ done x) × (Reformatted m x × IsProper x)
deep_copy_formatting_lem n m p q =
    let ret = Returns-deep_copy_formatting n m p q in
    Returns-done (λ x. Reformatted m x × IsProper x) (deep_copy_formatting n m)
      (Returns-IfDone _ _ (deep_copy_formatting n m) ret (
        IfDone-map _ _ (deep_copy_formatting n m) (λ x r. (r, IsProper-Reformatted r q))
          (deep_copy-Reformatted n m)))
