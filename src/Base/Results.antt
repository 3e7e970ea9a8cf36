-- ===== src/Base/Results.antt =====
-- A Go function that returns `(value, error)`, and one that may panic.
use mathlib.Core.Path.{◌≡◌, refl, subst}
use mathlib.Core.Logic.{◌⊎◌, inl, inr}

pub data Result {ℓ} (E A : Type ℓ) : Type ℓ where
  ok : A → Result E A
  err : E → Result E A

-- `if err != nil { return err }` between two calls.
infixl 5 ◌>>=◌ ◌>>◌
abbrev pub ◌>>=◌ {ℓ} : {E A B : Type ℓ} → Result E A → (A → Result E B) → Result E B
err failure >>= next = err failure
ok value >>= next = next value

abbrev pub ◌>>◌ {ℓ} : {E B : Type ℓ} → Result E (Unit {ℓ}) → Result E B → Result E B
first >> second = first >>= λ ignored. second

-- `panic`: the run-time error that ends the program.
pub data Outcome {ℓ} (A : Type ℓ) : Type ℓ where
  done : A → Outcome A
  panic : Outcome A

abbrev pub and_then {ℓ} : {A B : Type ℓ} → Outcome A → (A → Outcome B) → Outcome B
and_then (done a) f = f a
and_then panic f = panic

-- Inversion of a chain that succeeds.
pub >>=-eq-ok {ℓ} :
    {E A B : Type ℓ} (first : Result E A) (next : A → Result E B) {last : B}
    → (first >>= next) ≡ ok last
    → (between : A) × (first ≡ ok between) × (next between ≡ ok last)
>>=-eq-ok (err failure) next e = cc
>>=-eq-ok (ok between) next e = (between, refl, e)

pub ok-injective {ℓ} : {E A : Type ℓ} {a b : A} → ◌≡◌ {A = Result E A} (ok a) (ok b) → a ≡ b
ok-injective h = cc

pub and_then-eq-done {ℓ} :
    {A B : Type ℓ} (m : Outcome A) (f : A → Outcome B) {b : B}
    → and_then m f ≡ done b
    → (a : A) × (m ≡ done a) × (f a ≡ done b)
and_then-eq-done (done a) f h = (a, refl, h)
and_then-eq-done panic f h = cc

pub Outcome-cases {ℓ} : {A : Type ℓ} (m : Outcome A) → ((a : A) × (m ≡ done a)) ⊎ (m ≡ panic)
Outcome-cases (done a) = inl (a, refl)
Outcome-cases panic = inr refl

pub done-injective {ℓ} : {A : Type ℓ} {a b : A} → ◌≡◌ {A = Outcome A} (done a) (done b) → a ≡ b
done-injective h = cc

pub Result-cases {ℓ} :
    {E A : Type ℓ} (r : Result E A) → ((a : A) × (r ≡ ok a)) ⊎ ((e : E) × (r ≡ err e))
Result-cases (ok a) = inl (a, refl)
Result-cases (err e) = inr (e, refl)

-- What a call returns, where it does, has a property.
abbrev pub IfDone {ℓ κ} : {A : Type ℓ} → (A → Type κ) → Outcome A → Type κ
IfDone P panic = Unit
IfDone P (done a) = P a

pub IfDone-and_then {ℓ κ μ} :
    {A B : Type ℓ} (P : A → Type κ) (Q : B → Type μ) (m : Outcome A) (f : A → Outcome B)
    → IfDone P m
    → ((a : A) → P a → IfDone Q (f a))
    → IfDone Q (and_then m f)
IfDone-and_then P Q (done a) f h step = step a h
IfDone-and_then P Q panic f h step = tt

pub IfDone-map {ℓ κ μ} :
    {A : Type ℓ} (P : A → Type κ) (Q : A → Type μ) (m : Outcome A)
    → ((a : A) → P a → Q a)
    → IfDone P m
    → IfDone Q m
IfDone-map P Q (done a) f h = f a h
IfDone-map P Q panic f h = tt

-- A call returns, and what it returns has a property.
abbrev pub Returns {ℓ} : {A : Type ℓ} → (A → Type 0) → Outcome A → Type 0
Returns P panic = ⊥
Returns P (done a) = P a

pub Returns-and_then {ℓ} :
    {A B : Type ℓ} (P : A → Type 0) (Q : B → Type 0) (m : Outcome A) (f : A → Outcome B)
    → Returns P m
    → ((a : A) → P a → Returns Q (f a))
    → Returns Q (and_then m f)
Returns-and_then P Q (done a) f h step = step a h
Returns-and_then P Q panic f h step = absurd h

pub Returns-IfDone {ℓ} :
    {A : Type ℓ} (P : A → Type 0) (Q : A → Type 0) (m : Outcome A)
    → Returns P m
    → IfDone Q m
    → Returns Q m
Returns-IfDone P Q (done a) h q = q
Returns-IfDone P Q panic h q = absurd h

pub Returns-done {ℓ} :
    {A : Type ℓ} (P : A → Type 0) (m : Outcome A) → Returns P m → (a : A) × (m ≡ done a) × P a
Returns-done P (done a) h = (a, refl, h)
Returns-done P panic h = absurd h

pub IfDone-done {ℓ κ} :
    {A : Type ℓ} (P : A → Type κ) {m : Outcome A} {a : A} → m ≡ done a → IfDone P m → P a
IfDone-done P e h = subst (IfDone P) e h
