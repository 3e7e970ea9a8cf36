-- ===== src/Formatting/Order.antt =====
-- The order of the fields of a mapping behind `copyMapFormatting`
-- (krm-functions/lib/kubeobject/kubeobject.go).
mod Search
use nephio.Base.{
  String, ◌≡◌, ◌≢◌, ◌⊎◌, refl, sym, ap, subst, ◌∙◌, Bool, true, false, not, ◌||◌, Option, none,
  some, is_some, List, [], ◌∷◌, ◌++◌, Outcome, done, panic, and_then, if◌then◌else◌, arith, inl,
  inr, Bool-cases, Option-cases, IfDone, IfDone-and_then, IfDone-done, IfDone-map, any, ◌==◌,
  string_eq,
}
use nephio.Formatting.Nodes.{
  Kind, mapping_node, Node, node, Nodes, nil, cons, as_string, is_key, has_text, find_key, Entry,
  shallow_copy_comments,
}
use nephio.Formatting.Copy.{take_entry, deep_copy_formatting, copy_map_formatting}
use nephio.Formatting.Relation.{Brings, deep_copy-Reformatted, Reformatted-shallow_copy_comments}
pub use Search.{keys, has}
use Search.{by_name, has-cons, has-Rearranged, as_string-Reformatted, Taken, Taken-take_entry}

abbrev pub filter : (String → Bool) → List String → List String
filter p [] = []
filter p (x ∷ xs) = let rest = filter p xs in if p x then x ∷ rest else rest

abbrev pub contains : String → List String → Bool
contains x xs = any (λ y. x == y) xs

abbrev pub IsDistinct : List String → Type 0
IsDistinct [] = Unit
IsDistinct (x ∷ xs) = (contains x xs ≡ false) × IsDistinct xs

filter-same :
    (p q : String → Bool) (key : String) (xs : List String)
    → ((x : String) → (key == x) ≡ false → p x ≡ q x)
    → contains key xs ≡ false
    → filter p xs ≡ filter q xs
filter-same p q key [] h c = refl
filter-same p q key (x ∷ xs) h c = ground (arith, h x, filter-same p q key xs h)

-- The keys of `ns` that `ms` has come first, in the order of `ns`.
abbrev IsOrdered : Nodes → Nodes → Nodes → Type 0
IsOrdered ns ms content =
    (others : List String) × (keys content ≡ filter (has ms) (keys ns) ++ others)

-- A round that finds nothing.
IsOrdered-skip :
    (k v : Node) (rest ms content : Nodes)
    → Taken k ms none
    → IsOrdered rest ms content
    → IsOrdered (cons k (cons v rest)) ms content
IsOrdered-skip k v rest ms content (inl e) h = rw (keys, e) h
IsOrdered-skip k v rest ms content (inr (key, e, absent)) h = rw (keys, e) (h.0, rw absent h.1)

IsDistinct-rest : (o : Option String) (xs : List String) → IsDistinct (by_name o xs) → IsDistinct xs
IsDistinct-rest none xs h = h
IsDistinct-rest (some x) xs h = h.1

-- Taking an entry off leaves every other key.
has-Brings :
    (ms : Nodes) (e : Entry) (key x : String)
    → as_string e.key ≡ some key
    → Brings ms e
    → (key == x) ≡ false
    → has e.rest x ≡ has ms x
has-Brings ms e key x text brings other =
    let all = has-Rearranged x brings refl in
    let front = has-cons e.key e.value e.rest x in
    let differs : is_key e.key x ≡ false = ap (λ o. has_text o x) text ∙ other in
    ground (arith, all, front, differs)

IsOrdered-take :
    (k v : Node) (rest ms : Nodes) (e : Entry) (w : Node) (content : Nodes)
    → Taken k ms (some e)
    → IsDistinct (keys (cons k (cons v rest)))
    → IsOrdered rest e.rest content
    → IsOrdered (cons k (cons v rest)) ms (cons (shallow_copy_comments k e.key) (cons w content))
IsOrdered-take k v rest ms e w content (key, text, at, there, brings) distinct (others, h) =
    let d : IsDistinct (key ∷ keys rest) =
      subst (λ o. IsDistinct (by_name o (keys rest))) text distinct in
    let named : as_string (shallow_copy_comments k e.key) ≡ some key =
      sym (as_string-Reformatted (Reformatted-shallow_copy_comments k e.key)) ∙ at in
    let kept : filter (has e.rest) (keys rest) ≡ filter (has ms) (keys rest) =
      filter-same (has e.rest) (has ms) key (keys rest)
        (λ x other. has-Brings ms e key x at brings other) d.0 in
    (others, rw (named, text, there) (ap (λ xs. key ∷ xs) (h ∙ ap (λ xs. xs ++ others) kept)))

IsOrdered-copy_map_formatting :
    (ns ms : Nodes) → IsDistinct (keys ns) → IfDone (IsOrdered ns ms) (copy_map_formatting ns ms)
unfolding copy_map_formatting
IsOrdered-copy_map_formatting (cons k (cons v rest)) ms distinct =
    IfDone-and_then _ _ (take_entry k ms) _ (Taken-take_entry k ms) (elim [
      | none ↦ λ h.
          IfDone-map _ _ (copy_map_formatting rest ms)
            (λ content o. IsOrdered-skip k v rest ms content h o)
            (IsOrdered-copy_map_formatting rest ms
              (IsDistinct-rest (as_string k) (keys rest) distinct))
      | some e ↦ λ h.
          IfDone-and_then _ _ (deep_copy_formatting v e.value) _ (deep_copy-Reformatted v e.value)
            (λ w r.
              IfDone-and_then _ _ (copy_map_formatting rest e.rest) _
                (IsOrdered-copy_map_formatting rest e.rest
                  (IsDistinct-rest (as_string k) (keys rest) distinct))
                (λ content o. IsOrdered-take k v rest ms e w content h distinct o))
    ])
IsOrdered-copy_map_formatting nil ms distinct = (keys ms, refl)
IsOrdered-copy_map_formatting (cons k nil) ms distinct = (keys ms, refl)

-- Where the text keys of the source mapping are distinct, those of them that the target has come first in
-- what `copyMapFormatting` leaves of it, in the order of the source.
pub keys-copy_map_formatting :
    (ns ms content : Nodes)
    → IsDistinct (keys ns)
    → copy_map_formatting ns ms ≡ done content
    → (others : List String) × (keys content ≡ filter (has ms) (keys ns) ++ others)
keys-copy_map_formatting ns ms content distinct e =
    IfDone-done (IsOrdered ns ms) e (IsOrdered-copy_map_formatting ns ms distinct)
