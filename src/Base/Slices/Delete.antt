-- ===== src/Base/Slices/Delete.antt =====
-- The loop `for i, x := range xs { if p(x) { xs = append(xs[:i], xs[i+1:]...) } }`.
use Prim.Native.Nat.{ℕ, zero, suc, ◌-◌, compare, Ordering}
use mathlib.Core.Path.{◌≡◌, refl, ap, ◌∙◌}
use mathlib.Core.Logic.{inl, inr}
use mathlib.Core.Bool.{Bool, true, false}
use mathlib.Core.List.{List, [], ◌∷◌, ◌++◌}
use mathlib.Core.Option.{Option, none, some}
use native.Mathlib.Omega.{arith}
use nephio.Base.Equality.{if◌then◌else◌, any, Bool-cases, Option-cases}
use nephio.Base.Results.{Outcome, done, panic, and_then}

sub-one : (n : ℕ) → suc n - 1 ≡ n
sub-one n = omega arith

abbrev ltb : ℕ → ℕ → Bool
ltb a b = elim (compare a b) [ Ordering.lt ↦ true | _ ↦ false ]

ltb_zero_suc : (n : ℕ) → ltb 0 (suc n) ≡ true
ltb_zero_suc n = ground arith

module _ {ℓ} {A : Type ℓ} where
  abbrev pub length : List A → ℕ
  length [] = 0
  length (x ∷ xs) = suc (length xs)

  abbrev get_elem? : List A → ℕ → Option A
  get_elem? [] i = none
  get_elem? (x ∷ xs) zero = some x
  get_elem? (x ∷ xs) (suc i) = get_elem? xs i

  abbrev take : ℕ → List A → List A
  take zero xs = []
  take (suc n) [] = []
  take (suc n) (x ∷ xs) = x ∷ take n xs

  -- `copy(arr[i:m], arr[i+1:m])` on the array under a slice of length `m`: what stands behind
  -- place `i` moves one place down, and the last place of the slice keeps its value.
  abbrev shift : ℕ → ℕ → List A → List A
  shift zero (suc (suc m)) (x ∷ y ∷ ys) = y ∷ shift zero (suc m) (y ∷ ys)
  shift (suc i) (suc m) (x ∷ xs) = x ∷ shift i m xs
  shift _ _ xs = xs

  -- `range` reads the array at the places of the slice that it was given. A match at a place at or
  -- past the end of the shorter slice makes `xs[i+1:]` panic.
  delete_loop : (A → Bool) → ℕ → ℕ → ℕ → List A → Outcome (List A)
  delete_loop p zero i m arr = done (take m arr)
  delete_loop p (suc rounds) i m arr = elim (get_elem? arr i) [
    | none ↦ done (take m arr)
    | some x ↦
        let deleted = delete_loop p rounds (suc i) (m - 1) (shift i m arr) in
        let kept = delete_loop p rounds (suc i) m arr in
        if p x then (if ltb i m then deleted else panic) else kept
  ]

  unfoldable pub range_delete : (A → Bool) → List A → Outcome (List A)
  unfolding delete_loop
  range_delete p xs = delete_loop p (length xs) 0 (length xs) xs

  abbrev pub NoMatch : (A → Bool) → List A → Type 0
  NoMatch p [] = Unit
  NoMatch p (x ∷ xs) = (p x ≡ false) × NoMatch p xs

  NoMatch-get_elem? :
      (p : A → Bool) (arr : List A) (i : ℕ) (x : A)
      → NoMatch p arr
      → get_elem? arr i ≡ some x
      → p x ≡ false
  NoMatch-get_elem? p [] i x h e = cc
  NoMatch-get_elem? p (y ∷ ys) zero x h e = ground arith
  NoMatch-get_elem? p (y ∷ ys) (suc i) x h e = NoMatch-get_elem? p ys i x h.1 e

  delete_loop-none :
      (p : A → Bool) (rounds i m : ℕ) (arr : List A)
      → NoMatch p arr
      → delete_loop p rounds i m arr ≡ done (take m arr)
  unfolding delete_loop
  delete_loop-none p zero i m arr h = refl
  delete_loop-none p (suc rounds) i m arr h = elim (Option-cases (get_elem? arr i)) [
    | inl e ↦ rw (e, delete_loop)
    | inr (x, e) ↦
        rw (e, delete_loop)
          (rw (NoMatch-get_elem? p arr i x h e) (delete_loop-none p rounds (suc i) m arr h))
  ]

  -- The loop below one more element at the front of the array.
  delete_loop-cons :
      (p : A → Bool) (rounds i m : ℕ) (x : A) (arr : List A)
      → delete_loop p rounds (suc i) (suc m) (x ∷ arr)
        ≡ and_then (delete_loop p rounds i m arr) (λ ys. done (x ∷ ys))
  unfolding delete_loop
  delete_loop-cons p zero i m x arr = refl
  delete_loop-cons p (suc rounds) i zero x arr =
      ground (arith, delete_loop-cons p rounds (suc i) zero x arr)
  delete_loop-cons p (suc rounds) i (suc m) x arr = ground (
    arith,
    delete_loop-cons p rounds (suc i) (suc m) x arr,
    delete_loop-cons p rounds (suc i) m x (shift i (suc m) arr),
    sub-one (suc m),
    sub-one m,
  )

  delete_loop-match :
      (p : A → Bool) (rounds m : ℕ) (x : A) (xs : List A)
      → p x ≡ true
      → delete_loop p (suc rounds) 0 (suc m) (x ∷ xs)
        ≡ delete_loop p rounds 1 m (shift 0 (suc m) (x ∷ xs))
  unfolding delete_loop
  delete_loop-match p rounds m x xs px = rw (px, ltb_zero_suc m, sub-one m)

  -- A match at the front, and none in what the array then holds behind it.
  range_delete-match :
      (p : A → Bool) (x y : A) (ys : List A)
      → p x ≡ true
      → NoMatch p (shift 0 (length (y ∷ ys)) (y ∷ ys))
      → range_delete p (x ∷ y ∷ ys)
        ≡ done (y ∷ take (length ys) (shift 0 (length (y ∷ ys)) (y ∷ ys)))
  unfolding range_delete
  range_delete-match p x y ys px h =
      delete_loop-match p (length (y ∷ ys)) (length (y ∷ ys)) x (y ∷ ys) px
      ∙ delete_loop-cons p (length (y ∷ ys)) 0 (length ys) y (shift 0 (length (y ∷ ys)) (y ∷ ys))
      ∙ rw (delete_loop-none p (length (y ∷ ys)) 0 (length ys) _ h)

  take-shift : (y : A) (ys : List A) → take (length ys) (shift 0 (length (y ∷ ys)) (y ∷ ys)) ≡ ys
  take-shift y [] = refl
  take-shift y (z ∷ zs) = ap (λ l. z ∷ l) (take-shift z zs)

  NoMatch-shift :
      (p : A → Bool) (y : A) (ys : List A)
      → NoMatch p (y ∷ ys)
      → NoMatch p (shift 0 (length (y ∷ ys)) (y ∷ ys))
  NoMatch-shift p y [] h = h
  NoMatch-shift p y (z ∷ zs) h = (h.1.0, NoMatch-shift p z zs h.1)

  -- With no match the slice stays as it is.
  pub range_delete-none : (p : A → Bool) (xs : List A) → NoMatch p xs → range_delete p xs ≡ done xs
  unfolding range_delete
  range_delete-none p xs h =
      delete_loop-none p (length xs) 0 (length xs) xs h ∙ ap done (take-length xs)
    where
      take-length : (l : List A) → take (length l) l ≡ l
      take-length [] = refl
      take-length (x ∷ l) = ap (λ r. x ∷ r) (take-length l)

  range_delete-cons :
      (p : A → Bool) (x : A) (xs : List A)
      → p x ≡ false
      → range_delete p (x ∷ xs) ≡ and_then (range_delete p xs) (λ ys. done (x ∷ ys))
  unfolding range_delete delete_loop
  range_delete-cons p x xs px = rw px (delete_loop-cons p (length xs) 0 (length xs) x xs)

  -- One match goes, and all else stays in its order.
  pub range_delete-once :
      (p : A → Bool) (before : List A) (x : A) (behind : List A)
      → NoMatch p before
      → p x ≡ true
      → NoMatch p behind
      → range_delete p (before ++ x ∷ behind) ≡ done (before ++ behind)
  range_delete-once p [] x [] hb px ha = unfold range_delete delete_loop in rw px
  range_delete-once p [] x (y ∷ ys) hb px ha =
      range_delete-match p x y ys px (NoMatch-shift p y ys ha) ∙ rw (take-shift y ys)
  range_delete-once p (b ∷ bs) x ys hb px ha =
      range_delete-cons p b (bs ++ x ∷ ys) hb.0 ∙ rw (range_delete-once p bs x ys hb.1 px ha)

  -- Of two matches side by side, with an element that does not match behind them, the second stays:
  -- the loop never looks at the place that it moves into.
  pub range_delete-adjacent :
      (p : A → Bool) (before : List A) (x y z : A) (behind : List A)
      → NoMatch p before
      → p x ≡ true
      → NoMatch p (z ∷ behind)
      → range_delete p (before ++ x ∷ y ∷ z ∷ behind) ≡ done (before ++ y ∷ z ∷ behind)
  range_delete-adjacent p [] x y z ys hb px ha =
      range_delete-match p x y (z ∷ ys) px (ha.0, NoMatch-shift p z ys ha) ∙ rw (take-shift z ys)
  range_delete-adjacent p (b ∷ bs) x y z ys hb px ha =
      range_delete-cons p b (bs ++ x ∷ y ∷ z ∷ ys) hb.0
      ∙ rw (range_delete-adjacent p bs x y z ys hb.1 px ha)

  -- The elements that do not match.
  abbrev pub reject : (A → Bool) → List A → List A
  reject p [] = []
  reject p (x ∷ xs) = let rest = reject p xs in if p x then rest else x ∷ rest

  abbrev pub AtMostOne : (A → Bool) → List A → Type 0
  AtMostOne p [] = Unit
  AtMostOne p (x ∷ xs) = (p x ≡ true → NoMatch p xs) × AtMostOne p xs

  pub NoMatch-any : (p : A → Bool) (xs : List A) → any p xs ≡ false → NoMatch p xs
  NoMatch-any p [] h = tt
  NoMatch-any p (x ∷ xs) h = (ground arith, NoMatch-any p xs (ground arith))

  reject-NoMatch : (p : A → Bool) (xs : List A) → NoMatch p xs → reject p xs ≡ xs
  reject-NoMatch p [] h = refl
  reject-NoMatch p (x ∷ xs) h = rw (h.0, reject-NoMatch p xs h.1)

  -- Where at most one element matches, the loop is a filter.
  pub range_delete-AtMostOne :
      (p : A → Bool) (xs : List A) → AtMostOne p xs → range_delete p xs ≡ done (reject p xs)
  range_delete-AtMostOne p [] h = range_delete-none p [] tt
  range_delete-AtMostOne p (x ∷ xs) h = elim (Bool-cases (p x)) [
    | inl e ↦ range_delete-once p [] x xs tt e (h.0 e) ∙ rw (e, reject-NoMatch p xs (h.0 e))
    | inr e ↦ range_delete-cons p x xs e ∙ rw (range_delete-AtMostOne p xs h.1, e)
  ]
