-- ===== src/Functions/Laws.antt =====
-- Names and annotations of the children that the functions krm-functions/interface-fn and
-- krm-functions/dnn-fn make.
use Prim.Native.Char.{Char, code}
use Prim.Native.String.{[] as empty, ◌∷◌ as ◌⊳◌}
use text.Mathlib.TextLemmas.{nil-append, cons-append}
use nephio.Base.{
  ℕ, String, ◌<>◌, ◌≡◌, refl, sym, ap, ◌∙◌, true, false, Option, none, some, List, [], ◌∷◌, arith,
  nat_beq, ◌==◌, string_eq, Bool-cases, inl, inr,
}
use nephio.Base.Dict.{Dict, lookup, lookup-insert}
use nephio.Ref.{ObjectReference}
use nephio.ConditionType.{get_condition_type, add_part}
use nephio.ConditionType.Split.{split, Avoids, split-Avoids, separator}
use nephio.Functions.{
  World, root_owner, last, get_for_name, kept, get_annotations, specializer_owner, specializer_for,
}

-- Two parts or more, the last of them `x`.
abbrev EndsIn : List String → String → Type 0
EndsIn parts x =
    (p : String) × (q : String) × (qs : List String) × (parts ≡ p ∷ q ∷ qs) × (last (q ∷ qs) ≡ x)

split-cons : (sep : ℕ) (t : String) → (q : String) × (qs : List String) × (split sep t ≡ q ∷ qs)
unfolding split
split-cons sep empty = ("", [], refl)
split-cons sep (c ⊳ t) =
    let (q, qs, e) = split-cons sep t in
    elim (Bool-cases (nat_beq (code c) sep)) [
      | inl yes_ ↦ ("", split sep t, rw yes_ refl)
      | inr no_ ↦ ((c ⊳ q), qs, rw (no_, e) refl)
    ]

EndsIn-split :
    (sep : ℕ) (s : String) (d : Char) (t x : String)
    → nat_beq (code d) sep ≡ true
    → last (split sep t) ≡ x
    → EndsIn (split sep (s <> (d ⊳ t))) x
unfolding split
EndsIn-split sep empty d t x h l =
    let (q, qs, e) = split-cons sep t in
    rw (nil-append, h) ("", q, qs, ap (λ r. "" ∷ r) e, sym (ap last e) ∙ l)
EndsIn-split sep (c ⊳ s) d t x h l =
    let (p, q, qs, e, f) = EndsIn-split sep s d t x h l in
    elim (Bool-cases (nat_beq (code c) sep)) [
      | inl yes_ ↦ rw (cons-append, yes_) ("", p, q ∷ qs, ap (λ r. "" ∷ r) e, f)
      | inr no_ ↦ rw (cons-append, no_, e) ((c ⊳ p), q, qs, refl, f)
    ]

last-EndsIn : (parts : List String) (x : String) → EndsIn parts x → last parts ≡ x
last-EndsIn parts x (p, q, qs, e, l) = ap last e ∙ l

last-split_dot : (s name : String) → Avoids b'.' name → last (split b'.' (s <> "." <> name)) ≡ name
last-split_dot s name h = rw separator (
    last-EndsIn (split b'.' (s <> ("." ⊳ name))) name
      (EndsIn-split b'.' s "." name name refl (ap last (split-Avoids b'.' name h))))

last-add_part : (s name : String) → Avoids b'.' name → last (split b'.' (add_part s name)) ≡ name
unfolding add_part
last-add_part s name h = elim (Bool-cases (s == "")) [
  | inl e ↦ rw e (ap last (split-Avoids b'.' name h))
  | inr e ↦ rw e (last-split_dot s name h)
]

last-get_condition_type :
    (group_version : String → Option String) (ref : ObjectReference)
    → (ref.name == "") ≡ false
    → Avoids b'.' ref.name
    → last (split b'.' (get_condition_type group_version ref)) ≡ ref.name
unfolding get_condition_type
last-get_condition_type group_version ref named h = rw named (last-add_part _ ref.name h)

root_owner-owned :
    (a : Dict String String) (owner : String)
    → lookup specializer_for a ≡ none
    → lookup specializer_owner a ≡ some owner
    → root_owner a ≡ owner
unfolding root_owner
root_owner-owned a owner unrooted owned = rw (unrooted, owned) refl

root_owner-get_annotations :
    (w : World) (a : Dict String String) → root_owner (get_annotations w a) ≡ root_owner a
unfolding root_owner get_annotations
root_owner-get_annotations w a =
    ground (arith, lookup-insert specializer_for specializer_for (root_owner a) (kept w [] a))

-- For an object whose owner annotation is the condition type of a resource, with no dot in the
-- name of the resource, and which names no other root, `getForName` is the name of the resource, whatever its
-- API version and kind; and it is the same for the annotations that the children of the object get.
pub get_for_name-get_condition_type :
    (w : World) (group_version : String → Option String) (ref : ObjectReference)
    (a : Dict String String)
    → (ref.name == "") ≡ false
    → Avoids b'.' ref.name
    → lookup specializer_for a ≡ none
    → lookup specializer_owner a ≡ some (get_condition_type group_version ref)
    → (get_for_name a ≡ ref.name) × (get_for_name (get_annotations w a) ≡ ref.name)
unfolding get_for_name
get_for_name-get_condition_type w group_version ref a named h unrooted owned =
    let root : root_owner a ≡ get_condition_type group_version ref =
      root_owner-owned a _ unrooted owned in
    let name = last-get_condition_type group_version ref named h in
    (
      ap (λ r. last (split b'.' r)) root ∙ name,
      ap (λ r. last (split b'.' r)) (root_owner-get_annotations w a ∙ root) ∙ name,
    )
