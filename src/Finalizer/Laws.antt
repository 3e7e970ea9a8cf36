-- ===== src/Finalizer/Laws.antt =====
-- Adding and removing a finalizer (controllers/pkg/resource/finalizer.go).
use nephio.Base.{
  String, ◌≡◌, refl, ◌∙◌, ap, true, false, List, [], ◌∷◌, ◌++◌, done, string_eq, if◌then◌else◌,
  arith, NoMatch, AtMostOne, reject, range_delete-once, range_delete-AtMostOne,
  range_delete-adjacent, inl, inr, Bool-cases,
}
use nephio.Finalizer.{is_finalizer, finalizer_exists, add_loop, add_finalizer, remove_finalizer}

NoMatch-finalizer_exists :
    (f : List String) (x : String) → finalizer_exists f x ≡ false → NoMatch (is_finalizer x) f
unfolding finalizer_exists
NoMatch-finalizer_exists [] x h = tt
NoMatch-finalizer_exists (e ∷ f) x h = (ground arith, NoMatch-finalizer_exists f x (ground arith))

finalizer_exists-NoMatch :
    (f : List String) (x : String) → NoMatch (is_finalizer x) f → finalizer_exists f x ≡ false
unfolding finalizer_exists
finalizer_exists-NoMatch [] x h = refl
finalizer_exists-NoMatch (e ∷ f) x h = rw h.0 (finalizer_exists-NoMatch f x h.1)

add_loop-fresh :
    (f : List String) (x : String) (es : List String)
    → NoMatch (is_finalizer x) es
    → add_loop f x es ≡ f ++ x ∷ []
unfolding add_loop
add_loop-fresh f x [] h = refl
add_loop-fresh f x (e ∷ es) h = rw h.0 (add_loop-fresh f x es h.1)

add_loop-present :
    (f : List String) (x : String) (es : List String)
    → finalizer_exists es x ≡ true
    → add_loop f x es ≡ f
unfolding add_loop finalizer_exists
add_loop-present f x [] h = cc
add_loop-present f x (e ∷ es) h = ground (arith, add_loop-present f x es)

is_finalizer_self : (x : String) → is_finalizer x x ≡ true
is_finalizer_self x = ground arith

append-nil : (f : List String) → f ++ [] ≡ f
append-nil [] = refl
append-nil (e ∷ f) = ap (λ l. e ∷ l) (append-nil f)

finalizer_exists-append :
    (f : List String) (x y : String)
    → finalizer_exists (f ++ x ∷ []) y ≡ (if finalizer_exists f y then true else is_finalizer y x)
unfolding finalizer_exists
finalizer_exists-append [] x y = ground arith
finalizer_exists-append (e ∷ f) x y = ground (arith, finalizer_exists-append f x y)

-- Adding a finalizer makes it exist, changes nothing for any other finalizer, and leaves nothing to
-- add.
pub finalizer_exists-add_finalizer :
    (f : List String) (x : String)
    → (finalizer_exists (add_finalizer f x) x ≡ true)
      × ((y : String)
          → is_finalizer y x ≡ false
          → finalizer_exists (add_finalizer f x) y ≡ finalizer_exists f y)
      × (add_finalizer (add_finalizer f x) x ≡ add_finalizer f x)
unfolding add_finalizer
finalizer_exists-add_finalizer f x = elim (Bool-cases (finalizer_exists f x)) [
  | inl e ↦ (
    rw (add_loop-present f x f e) e,
    λ y h. rw (add_loop-present f x f e) refl,
    rw (add_loop-present f x f e, add_loop-present f x f e) refl,
  )
  | inr e ↦
      let added = add_loop-fresh f x f (NoMatch-finalizer_exists f x e) in
      let now : finalizer_exists (f ++ x ∷ []) x ≡ true =
        ground (arith, finalizer_exists-append f x x, is_finalizer_self x) in
      (
        rw added now,
        λ y h. rw added (ground (arith, finalizer_exists-append f x y)),
        rw added (add_loop-present (f ++ x ∷ []) x (f ++ x ∷ []) now),
      )
]

-- Removing a finalizer that was added to an object without it gives the finalizers before.
pub remove_finalizer-add_finalizer :
    (f : List String) (x : String)
    → finalizer_exists f x ≡ false
    → remove_finalizer (add_finalizer f x) x ≡ done f
unfolding remove_finalizer add_finalizer
remove_finalizer-add_finalizer f x h =
    let absent = NoMatch-finalizer_exists f x h in
    rw (add_loop-fresh f x f absent) (
      range_delete-once (is_finalizer x) f x [] absent (is_finalizer_self x) tt
      ∙ ap done (append-nil f))

exists-reject :
    (f : List String) (x y : String)
    → finalizer_exists (reject (is_finalizer x) f) y
      ≡ (if is_finalizer x y then false else finalizer_exists f y)
unfolding finalizer_exists
exists-reject [] x y = ground arith
exists-reject (e ∷ f) x y = ground (arith, exists-reject f x y)

-- From finalizers that hold `x` once at most, `RemoveFinalizer` returns, `x` is gone, and every
-- other finalizer is there exactly if it was; of finalizers `x, x, y` with `x` nowhere behind, it
-- leaves one `x`.
pub remove_finalizer_lem :
    (f : List String) (x : String)
    → (AtMostOne (is_finalizer x) f
        → (g : List String) × (remove_finalizer f x ≡ done g)
          × ((y : String)
              → finalizer_exists g y ≡ (if is_finalizer x y then false else finalizer_exists f y)))
      × ((z : String) (behind : List String)
          → finalizer_exists f x ≡ false
          → finalizer_exists (z ∷ behind) x ≡ false
          → remove_finalizer (f ++ x ∷ x ∷ z ∷ behind) x ≡ done (f ++ x ∷ z ∷ behind))
unfolding remove_finalizer
remove_finalizer_lem f x = (
  λ one.
      (reject (is_finalizer x) f, range_delete-AtMostOne (is_finalizer x) f one, exists-reject f x),
  λ z behind h k.
      range_delete-adjacent (is_finalizer x) f x x z behind (NoMatch-finalizer_exists f x h)
        (is_finalizer_self x) (NoMatch-finalizer_exists (z ∷ behind) x k),
)
