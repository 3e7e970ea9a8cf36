-- ===== src/Formatting/Order/Search.antt =====
-- Which entry of a mapping a round of `copyMapFormatting` brings to the front
-- (krm-functions/lib/kubeobject/kubeobject.go).
use nephio.Base.{
  String, ℕ, zero, suc, ◌≡◌, ◌≢◌, ◌⊎◌, refl, sym, ap, ◌∙◌, Bool, true, false, ◌||◌, Option, none,
  some, is_some, List, [], ◌∷◌, Outcome, done, panic, arith, inl, inr, Bool-cases, Option-cases,
  IfDone, string_eq,
}
use nephio.Formatting.Nodes.{
  Kind, mapping_node, scalar_node, same_kind, Comments, Node, node, Nodes, cons, as_string, is_key,
  has_text, find_key, Entry, later, behind_entry, swap_with, to_front,
}
use nephio.Formatting.Copy.{some_entry, at_found, by_key, take_entry}
use nephio.Formatting.Relation.{
  Reformatted, reformatted, Rearranged, same, item, entry, swap, after, Brings, Brings-to_front,
}

abbrev pub by_name : Option String → List String → List String
by_name none names = names
by_name (some name) names = name ∷ names

-- The keys of a mapping's content that are text, in their order.
abbrev pub keys : Nodes → List String
keys (cons k (cons v rest)) = by_name (as_string k) (keys rest)
keys _ = []

-- The content has the key.
abbrev pub has : Nodes → String → Bool
has ms key = is_some (find_key ms key)

pub has-cons :
    (k v : Node) (ms : Nodes) (key : String)
    → is_some (find_key (cons k (cons v ms)) key) ≡ (is_key k key || is_some (find_key ms key))
unfolding find_key
has-cons k v ms key = ground arith

text_same :
    (k : Kind) (t v : String) (c d : Comments) (ms ns : Nodes)
    → as_string (node k t v c ms) ≡ as_string (node k t v d ns)
unfolding as_string
text_same scalar_node t v c d ms ns = refl
text_same k t v c d ms ns = refl

pub as_string-Reformatted : {m n : Node} → Reformatted m n → as_string m ≡ as_string n
as_string-Reformatted (reformatted {k = k} r) = text_same k _ _ _ _ _ _

plain_mapping : (k : Kind) → k ≡ mapping_node → same_kind k mapping_node ≢ false
plain_mapping k e plain = let mapping = ap (λ x. same_kind x mapping_node) e in cc

pub has-Rearranged :
    {k : Kind} {ms ns : Nodes} (key : String)
    → Rearranged k ms ns
    → k ≡ mapping_node
    → is_some (find_key ms key) ≡ is_some (find_key ns key)
has-Rearranged key same e = refl
has-Rearranged key (item {k = k} plain q r) e = absurd (plain_mapping k e plain)
has-Rearranged key (entry {l = l} {l' = l'} {w = w} {w' = w'} {ms = ms} {ms' = ms'} p q r) e =
    let now = has-cons l w ms key in
    let then_ = has-cons l' w' ms' key in
    now
    ∙ (rw (ap (λ o. has_text o key) (as_string-Reformatted p), has-Rearranged key r refl)
        (sym then_))
has-Rearranged key (swap {l = l} {w = w} {m = m} {x = x} {ms = ms}) e = ground (
  arith,
  has-cons l w (cons m (cons x ms)) key,
  has-cons m x ms key,
  has-cons m x (cons l (cons w ms)) key,
  has-cons l w ms key,
)
has-Rearranged key (after r s) e = has-Rearranged key r e ∙ has-Rearranged key s e

-- The node that the code brings to the front has the key that it looked for.
text_of : (o : Option String) (key : String) → has_text o key ≡ true → o ≡ some key
text_of none key h = cc
text_of (some text) key h = ground arith

abbrev IsAt : String → Entry → Type 0
IsAt key e = as_string e.key ≡ some key

text_key : (n : Node) (key : String) → is_key n key ≡ true → as_string n ≡ some key
text_key n key h = text_of (as_string n) key h

-- Where the loop over the keys stops.
later-some : (o : Option ℕ) (j : ℕ) → later o ≡ some j → (i : ℕ) × (o ≡ some i) × (j ≡ suc (suc i))
later-some none j h = cc
later-some (some i) j h = (i, refl, cc)

find_key-cons :
    (k v : Node) (rest : Nodes) (key : String) (j : ℕ)
    → find_key (cons k (cons v rest)) key ≡ some j
    → ((as_string k ≡ some key) × (j ≡ 0))
      ⊎ ((i : ℕ) × (find_key rest key ≡ some i) × (j ≡ suc (suc i)))
unfolding find_key
find_key-cons k v rest key j h = elim (Bool-cases (is_key k key)) [
  | inl e ↦ inl (text_key k key e, ground arith)
  | inr e ↦
      let passed : later (find_key rest key) ≡ some j = ground arith in
      inr (later-some (find_key rest key) j passed)
]

IsAt-behind_entry :
    (k v : Node) (key : String) (r : Outcome Entry)
    → IfDone (IsAt key) r
    → IfDone (IsAt key) (behind_entry k v r)
IsAt-behind_entry k v key (done e) h = h
IsAt-behind_entry k v key panic h = tt

IsAt-swap_with :
    (l w : Node) (j : ℕ) (ms : Nodes) (key : String)
    → find_key ms key ≡ some j
    → IfDone (IsAt key) (swap_with l w j ms)
unfolding swap_with
IsAt-swap_with l w zero (cons k (cons v rest)) key h = elim (find_key-cons k v rest key 0 h) [
  | inl (e, z) ↦ e
  | inr (i, e, z) ↦ cc
]
IsAt-swap_with l w (suc (suc j)) (cons k (cons v rest)) key h =
    elim (find_key-cons k v rest key (suc (suc j)) h) [
      | inl (e, z) ↦ cc
      | inr (i, e, z) ↦
          IsAt-behind_entry k v key (swap_with l w j rest)
            (IsAt-swap_with l w j rest key (ground (arith, e, z)))
    ]
IsAt-swap_with l w j ms key h = tt

IsAt-to_front :
    (j : ℕ) (ms : Nodes) (key : String)
    → find_key ms key ≡ some j
    → IfDone (IsAt key) (to_front j ms)
unfolding to_front
IsAt-to_front zero (cons k (cons v rest)) key h = elim (find_key-cons k v rest key 0 h) [
  | inl (e, z) ↦ e
  | inr (i, e, z) ↦ cc
]
IsAt-to_front (suc (suc j)) (cons k (cons v rest)) key h =
    elim (find_key-cons k v rest key (suc (suc j)) h) [
      | inl (e, z) ↦ cc
      | inr (i, e, z) ↦ IsAt-swap_with k v j rest key (ground (arith, e, z))
    ]
IsAt-to_front j ms key h = tt

-- What a round of the loop finds for the key `k`.
abbrev pub Taken : Node → Nodes → Option Entry → Type 0
Taken k ms none =
    (as_string k ≡ none) ⊎ ((key : String) × (as_string k ≡ some key) × (has ms key ≡ false))
Taken k ms (some e) =
    (key : String) × (as_string k ≡ some key)
    × (as_string e.key ≡ some key)
    × (has ms key ≡ true)
    × Brings ms e

Taken-some_entry :
    (k : Node) (ms : Nodes) (key : String) (r : Outcome Entry)
    → as_string k ≡ some key
    → has ms key ≡ true
    → IfDone (IsAt key) r
    → IfDone (Brings ms) r
    → IfDone (Taken k ms) (some_entry r)
Taken-some_entry k ms key (done e) text there at brings = (key, text, at, there, brings)
Taken-some_entry k ms key panic text there at brings = tt

Taken-at_found :
    (k : Node) (ms : Nodes) (key : String)
    → as_string k ≡ some key
    → IfDone (Taken k ms) (at_found ms (find_key ms key))
unfolding at_found
Taken-at_found k ms key text = elim (Option-cases (find_key ms key)) [
  | inl e ↦ rw e (inr (key, text, rw e refl))
  | inr (j, e) ↦ rw e (
      Taken-some_entry k ms key (to_front j ms) text (rw e refl) (IsAt-to_front j ms key e)
        (Brings-to_front j ms))
]

pub Taken-take_entry : (k : Node) (ms : Nodes) → IfDone (Taken k ms) (take_entry k ms)
unfolding take_entry by_key
Taken-take_entry k ms = elim (Option-cases (as_string k)) [
  | inl e ↦ rw e (inl e)
  | inr (key, e) ↦ rw e (Taken-at_found k ms key e)
]
