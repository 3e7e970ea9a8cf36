-- ===== src/Functions/Deployment/Laws.antt =====
-- The references to parameters of an NFDeployment (krm-functions/nfdeploy-fn/fn/helper.go).
use nephio.Base.{
  String, ◌≡◌, refl, Bool, true, false, ◌||◌, Option, none, some, List, [], ◌∷◌, ◌++◌, done, panic,
  any, string_eq, arith, inl, inr, Bool-cases,
}
use nephio.Ref.{ObjectReference}
use nephio.Functions.Deployment.{
  ParameterRef, matches, matches_named, check_dependency_exist, reference_of, unless_there,
  add_dependency_ref, add_dependency_refs,
}

abbrev pub is_named : Option String → Bool
is_named none = false
is_named (some name) = true

abbrev pub IsNamed : List ParameterRef → Type 0
IsNamed [] = Unit
IsNamed (p ∷ ps) = (is_named p.name ≡ true) × IsNamed ps

abbrev is_match_of : ObjectReference → ParameterRef → Option String → Bool
is_match_of ref p none = false
is_match_of ref p (some name) = matches ref name p

abbrev pub is_match : ObjectReference → ParameterRef → Bool
is_match ref p = is_match_of ref p p.name

-- The reference is one of the parameters'.
abbrev pub found : ObjectReference → List ParameterRef → Bool
found ref ps = any (is_match ref) ps

abbrev pub is_one_of : ObjectReference → List ObjectReference → Bool
is_one_of ref [] = false
is_one_of ref (r ∷ rs) = is_match ref (reference_of r) || is_one_of ref rs

abbrev name_or_empty : Option String → String
name_or_empty none = ""
name_or_empty (some name) = name

abbrev pub as_reference : ParameterRef → ObjectReference
as_reference p = record { api_version = p.api_version; kind = p.kind; name = name_or_empty p.name }

abbrev pub IsUnique : List ParameterRef → Type 0
IsUnique [] = Unit
IsUnique (p ∷ ps) = (found (as_reference p) ps ≡ false) × IsUnique ps

check-matches_named :
    (ref : ObjectReference) (p : ParameterRef) (name : Option String) (rest : Bool)
    → is_named name ≡ true
    → matches_named ref p name (done rest) ≡ done (is_match_of ref p name || rest)
check-matches_named ref p none rest h = cc
check-matches_named ref p (some name) rest h = ground arith

check_dependency_exist-found :
    (ref : ObjectReference) (ps : List ParameterRef)
    → IsNamed ps
    → check_dependency_exist ref ps ≡ done (found ref ps)
unfolding check_dependency_exist
check_dependency_exist-found ref [] h = refl
check_dependency_exist-found ref (p ∷ ps) h =
    rw (check_dependency_exist-found ref ps h.1)
      (check-matches_named ref p p.name (found ref ps) h.0)

found-append :
    (x r : ObjectReference) (ps : List ParameterRef)
    → found x (ps ++ reference_of r ∷ []) ≡ (found x ps || is_match x (reference_of r))
found-append x r [] = ground arith
found-append x r (p ∷ ps) = ground (arith, found-append x r ps)

IsNamed-append :
    (r : ObjectReference) (ps : List ParameterRef)
    → IsNamed ps
    → IsNamed (ps ++ reference_of r ∷ [])
IsNamed-append r [] h = (refl, tt)
IsNamed-append r (p ∷ ps) h = (h.0, IsNamed-append r ps h.1)

is_match_sym :
    (r : ObjectReference) (p : ParameterRef) (name : Option String)
    → is_named name ≡ true
    → is_match_of r p name ≡ false
    → is_match
        (record { api_version = p.api_version; kind = p.kind; name = name_or_empty name })
        (reference_of r)
      ≡ false
is_match_sym r p none h k = cc
is_match_sym r p (some name) h k = ground arith

IsUnique-append :
    (r : ObjectReference) (ps : List ParameterRef)
    → IsNamed ps
    → IsUnique ps
    → found r ps ≡ false
    → IsUnique (ps ++ reference_of r ∷ [])
IsUnique-append r [] named h absent = (refl, tt)
IsUnique-append r (p ∷ ps) named h absent =
    let other : is_match r p ≡ false = ground arith in
    let rest : found r ps ≡ false = ground arith in
    let sym_ = is_match_sym r p p.name named.0 other in
    (
      ground (arith, found-append (as_reference p) r ps, sym_),
      IsUnique-append r ps named.1 h.1 rest,
    )

match-same :
    (x r : ObjectReference) (p : ParameterRef) (name : Option String)
    → is_match x (reference_of r) ≡ true
    → is_match_of r p name ≡ true
    → is_match_of x p name ≡ true
match-same x r p none h k = k
match-same x r p (some name) h k = ground arith

found-same :
    (x r : ObjectReference) (ps : List ParameterRef)
    → found r ps ≡ true
    → is_match x (reference_of r) ≡ true
    → found x ps ≡ true
found-same x r [] k h = k
found-same x r (p ∷ ps) k h = elim (Bool-cases (is_match r p)) [
  | inl e ↦ ground (arith, match-same x r p p.name h e)
  | inr e ↦ let rest : found r ps ≡ true = ground arith in ground (arith, found-same x r ps rest h)
]

-- What an addition leaves.
abbrev pub IsExtended : List ParameterRef → List ObjectReference → List ParameterRef → Type 0
IsExtended ps refs qs =
    IsNamed qs
    × IsUnique qs
    × ((x : ObjectReference) → found x qs ≡ (found x ps || is_one_of x refs))

unless_there-IsExtended :
    (r : ObjectReference) (ps : List ParameterRef) (b : Bool)
    → found r ps ≡ b
    → IsNamed ps
    → IsUnique ps
    → IsExtended ps (r ∷ []) (unless_there r ps b)
unless_there-IsExtended r ps true h named unique = (
  named,
  unique,
  λ x. elim (Bool-cases (is_match x (reference_of r))) [
    | inl e ↦ ground (arith, found-same x r ps h e)
    | inr e ↦ ground arith
  ],
)
unless_there-IsExtended r ps false h named unique = (
  IsNamed-append r ps named,
  IsUnique-append r ps named unique h,
  λ x. ground (arith, found-append x r ps),
)

IsExtended-add_dependency_ref :
    (r : ObjectReference) (ps : List ParameterRef)
    → IsNamed ps
    → IsUnique ps
    → (qs : List ParameterRef) × (add_dependency_ref r ps ≡ done qs) × IsExtended ps (r ∷ []) qs
unfolding add_dependency_ref
IsExtended-add_dependency_ref r ps named unique = (
  unless_there r ps (found r ps),
  rw (check_dependency_exist-found r ps named) refl,
  unless_there-IsExtended r ps (found r ps) refl named unique,
)

IsExtended-add_dependency_refs :
    (refs : List ObjectReference) (ps : List ParameterRef)
    → IsNamed ps
    → IsUnique ps
    → (qs : List ParameterRef) × (add_dependency_refs refs ps ≡ done qs) × IsExtended ps refs qs
unfolding add_dependency_refs
IsExtended-add_dependency_refs [] ps named unique = (ps, refl, (named, unique, λ x. ground arith))
IsExtended-add_dependency_refs (r ∷ refs) ps named unique =
    let (qs, first, (held, once, has)) = IsExtended-add_dependency_ref r ps named unique in
    let (rs, rest, (held', once', has')) = IsExtended-add_dependency_refs refs qs held once in
    (rs, rw first rest, (held', once', λ x. ground (arith, has x, has' x)))

-- To parameters that all have a name and do not repeat one another, `AddDependencyRef` adds the
-- references of a dependency without a panic: the parameters are then those that they were and
-- the references, all named and still without a repetition. Behind a first parameter without a
-- name, the first reference to add ends the program, whatever it is.
pub add_dependency_refs_lem :
    (refs : List ObjectReference) (ps : List ParameterRef)
    → IsNamed ps
    → IsUnique ps
    → ((qs : List ParameterRef) × (add_dependency_refs refs ps ≡ done qs) × IsExtended ps refs qs)
      × ((p : ParameterRef) (r : ObjectReference)
          → add_dependency_refs (r ∷ refs) (record p { name = none } ∷ ps) ≡ panic)
unfolding add_dependency_refs add_dependency_ref check_dependency_exist
add_dependency_refs_lem refs ps named unique =
    (IsExtended-add_dependency_refs refs ps named unique, λ p r. refl)
