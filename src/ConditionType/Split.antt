-- ===== src/ConditionType/Split.antt =====
-- `strings.Split` at a separator of one byte, and its laws.
use Prim.Native.Char.{Char, code}
use Prim.Native.String.{[] as empty, ◌∷◌ as ◌⊳◌}
use text.Mathlib.TextLemmas.{nil-append, cons-append, cons≢nil}
use nephio.Base.{
  ℕ, String, ◌<>◌, ◌≡◌, ◌≢◌, refl, true, false, List, [], ◌∷◌, nat_beq, if◌then◌else◌,
}

-- One more character at the front of the first part.
abbrev extend : Char → List String → List String
extend c [] = (c ⊳ "") ∷ []
extend c (part ∷ parts) = (c ⊳ part) ∷ parts

unfoldable pub split : ℕ → String → List String
split sep empty = "" ∷ []
split sep (c ⊳ s) =
    let rest = split sep s in if nat_beq (code c) sep then "" ∷ rest else extend c rest

-- No character of the text is the separator.
abbrev pub Avoids : ℕ → String → Type 0
Avoids sep empty = Unit
Avoids sep (c ⊳ s) = (nat_beq (code c) sep ≡ false) × Avoids sep s

pub split-Avoids : (sep : ℕ) (s : String) → Avoids sep s → split sep s ≡ s ∷ []
unfolding split
split-Avoids sep empty h = refl
split-Avoids sep (c ⊳ s) h = rw (h.0, split-Avoids sep s h.1)

-- A part that avoids the separator, the separator, and the rest.
pub split-append :
    (sep : ℕ) (s : String) (d : Char) (t : String)
    → Avoids sep s
    → nat_beq (code d) sep ≡ true
    → split sep (s <> (d ⊳ t)) ≡ s ∷ split sep t
unfolding split
split-append sep empty d t h e = rw (nil-append, e)
split-append sep (c ⊳ s) d t h e = rw (cons-append, h.0, split-append sep s d t h.1 e)

pub Avoids-append : (sep : ℕ) (s t : String) → Avoids sep s → Avoids sep t → Avoids sep (s <> t)
Avoids-append sep empty t h k = rw nil-append k
Avoids-append sep (c ⊳ s) t h k = rw cons-append (h.0, Avoids-append sep s t h.1 k)

pub append-ne-nil : (s : String) (d : Char) (t : String) → (s <> (d ⊳ t)) ≢ ""
append-ne-nil empty d t e = cons≢nil (rw nil-append at e)
append-ne-nil (c ⊳ s) d t e = cons≢nil (rw cons-append at e)

-- A separator written as a text of one character.
pub separator : (d : Char) (t : String) → (d ⊳ "") <> t ≡ d ⊳ t
separator d t = rw (cons-append, nil-append)
