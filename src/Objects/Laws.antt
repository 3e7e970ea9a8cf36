-- ===== src/Objects/Laws.antt =====
-- What the search for the only object of a type finds (krm-functions/lib/kubeobject/lists.go).
use nephio.Base.{
  ◌≡◌, ◌≢◌, ◌↔◌, refl, sym, ap, ◌∙◌, done-injective, true, List, [], ◌∷◌, Result, ok, err, done,
  and_then, if◌then◌else◌, inl, inr, Bool-cases,
}
use nephio.Objects.{
  Scheme, get_gvk_or_panic, Filtered, with_typed, with_rest, of_kind, round, filter_by_type, single,
  get_singleton,
}

module _ (s : Scheme) where
  open s use {Object, Gvk, Typed, Fault}

  -- The objects of a kind, and the others, in their order.
  abbrev pub matching : Gvk → List Object → List Object
  matching gvk [] = []
  matching gvk (o ∷ os) = let rest = matching gvk os in if of_kind s gvk o then o ∷ rest else rest

  abbrev pub others : Gvk → List Object → List Object
  others gvk [] = []
  others gvk (o ∷ os) = let rest = others gvk os in if of_kind s gvk o then rest else o ∷ rest

  abbrev both : Result Fault Typed → Result Fault (List Typed) → Result Fault (List Typed)
  both (err e) rest = err e
  both (ok x) (err e) = err e
  both (ok x) (ok xs) = ok (x ∷ xs)

  -- Every object converted, or the first failure.
  abbrev pub convert_all : List Object → Result Fault (List Typed)
  convert_all [] = ok []
  convert_all (o ∷ os) = both (s.convert o) (convert_all os)

  abbrev pub filtered : List Object → Result Fault (List Typed) → Filtered s
  filtered rest (err e) = err e
  filtered rest (ok typed) = ok (typed, rest)

  filtered-with_rest :
      (o : Object) (rest : List Object) (r : Result Fault (List Typed))
      → with_rest s o (filtered rest r) ≡ filtered (o ∷ rest) r
  filtered-with_rest o rest (err e) = refl
  filtered-with_rest o rest (ok typed) = refl

  filtered-with_typed :
      (x : Typed) (rest : List Object) (r : Result Fault (List Typed))
      → with_typed s x (filtered rest r) ≡ filtered rest (both (ok x) r)
  filtered-with_typed x rest (err e) = refl
  filtered-with_typed x rest (ok typed) = refl

  round-filtered :
      (o : Object) (c : Result Fault Typed) (rest : List Object) (r : Result Fault (List Typed))
      → round s true o c (done (filtered rest r)) ≡ done (filtered rest (both c r))
  round-filtered o (ok x) rest r = ap done (filtered-with_typed x rest r)
  round-filtered o (err e) rest r = refl

  -- For a registered type, `FilterByType` returns the conversions of the objects of that type and
  -- all the other objects, each in their order, or the first error of a conversion.
  pub filter_by_type_lem :
      (gvk : Gvk) (os : List Object)
      → get_gvk_or_panic s ≡ done gvk
      → filter_by_type s os ≡ done (filtered (others gvk os) (convert_all (matching gvk os)))
  unfolding filter_by_type
  filter_by_type_lem gvk [] h = refl
  filter_by_type_lem gvk (o ∷ os) h = elim (Bool-cases (of_kind s gvk o)) [
    | inl e ↦
        rw (h, e, filter_by_type_lem gvk os h)
          (round-filtered o (s.convert o) (others gvk os) (convert_all (matching gvk os)))
    | inr e ↦
        rw (h, e, filter_by_type_lem gvk os h)
          (ap done (filtered-with_rest o (others gvk os) (convert_all (matching gvk os))))
  ]

  single_one :
      (c : Result Fault Typed) (rest : List Object) (x : Typed)
      → single s (filtered rest (both c (ok []))) ≡ ok x
      → c ≡ ok x
  single_one (ok y) rest x h = h
  single_one (err e) rest x h = cc

  single_two :
      (c d : Result Fault Typed) (r : Result Fault (List Typed)) (rest : List Object) (x : Typed)
      → single s (filtered rest (both c (both d r))) ≢ ok x
  single_two (ok y) (ok z) (ok xs) rest x h = cc
  single_two (ok y) (ok z) (err e) rest x h = cc
  single_two (ok y) (err e) r rest x h = cc
  single_two (err e) d r rest x h = cc

  only_converted :
      (ms rest : List Object) (x : Typed)
      → single s (filtered rest (convert_all ms)) ≡ ok x
      → (o : Object) × (ms ≡ o ∷ []) × (s.convert o ≡ ok x)
  only_converted [] rest x h = cc
  only_converted (o ∷ []) rest x h = (o, refl, single_one (s.convert o) rest x h)
  only_converted (o ∷ p ∷ ms) rest x h =
      absurd (single_two (s.convert o) (s.convert p) (convert_all ms) rest x h)

  only :
      (gvk : Gvk) (os : List Object) (x : Typed)
      → get_gvk_or_panic s ≡ done gvk
      → get_singleton s os ≡ done (ok x)
      → (o : Object) × (matching gvk os ≡ o ∷ []) × (s.convert o ≡ ok x)
  unfolding get_singleton
  only gvk os x h e = only_converted (matching gvk os) (others gvk os) x (
      done-injective
        (sym (ap (λ f. and_then f (λ g. done (single s g))) (filter_by_type_lem gvk os h)) ∙ e))

  -- For a registered type, `GetSingleton` returns `x` exactly if one object has the type and it
  -- converts to `x`.
  pub get_singleton_lem :
      (gvk : Gvk) (os : List Object) (x : Typed)
      → get_gvk_or_panic s ≡ done gvk
      → (get_singleton s os ≡ done (ok x))
        ↔ ((o : Object) × (matching gvk os ≡ o ∷ []) × (s.convert o ≡ ok x))
  unfolding get_singleton
  get_singleton_lem gvk os x h = (
    λ e. only gvk os x h e,
    λ (o, one, converts). rw (filter_by_type_lem gvk os h, one, converts) refl,
  )
