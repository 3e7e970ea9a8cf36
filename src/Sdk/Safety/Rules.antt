-- ===== src/Sdk/Safety/Rules.antt =====
-- Methods that do not panic where no two conditions of the Kptfile have one type, and that leave it
-- so: one rule for each way to build a method.
use nephio.Base.{String, ◌≡◌, refl, Bool, true, false, none, List, [], ◌∷◌, done, if◌then◌else◌}
use nephio.Ref.{Error}
use nephio.ConditionType.{Condition}
use nephio.Kptfile.{get_conditions}
use nephio.Kptfile.Store.{KptfileStore, IsLawful}
use nephio.Kptfile.Conditions.{UniqueTypes}
use nephio.Api.{Api}
use nephio.Sdk.{State, Exec, Note, ◌>>=◌, ◌>>◌, pure, add_note, report, get_state}
use nephio.Sdk.Stage1.{for_each}

-- Writes of a Kptfile succeed.
pub record IsReliable (S : KptfileStore) : Type 0 where
  pub lawful : IsLawful S
  pub put_conditions_ok : (f : S.File) (cs : List Condition) → (S.put_conditions f cs).1 ≡ none
  pub put_gates_ok : (f : S.File) (gs : List String) → (S.put_gates f gs).1 ≡ none

module _ (api : Api) where
  abbrev pub IsUnique : State api → Type 0
  IsUnique s = UniqueTypes (get_conditions api.store s.kptfile)

  pub record IsTotal {A : Type 0} (m : Exec api A) : Type 0 where
    pub at :
        (s : State api) → IsUnique s → (a : A) × (t : State api) × (m s ≡ done (a, t)) × IsUnique t

module _ {api : Api} {A : Type 0} where
  pub IsTotal-pure : (a : A) → IsTotal api (pure a)
  unfolding pure
  IsTotal-pure a = record { at = λ s u. (a, s, refl, u) }

  pub IsTotal-if :
      (b : Bool) (m n : Exec api A)
      → IsTotal api m
      → IsTotal api n
      → IsTotal api (if b then m else n)
  IsTotal-if true m n hm hn = hm
  IsTotal-if false m n hm hn = hn

module _ {api : Api} {A B : Type 0} where
  pub IsTotal-bind :
      (m : Exec api A) (f : A → Exec api B)
      → IsTotal api m
      → ((a : A) → IsTotal api (f a))
      → IsTotal api (m >>= f)
  unfolding ◌>>=◌
  IsTotal-bind m f hm hf = record {
    at = λ s u.
        let (a, t, e, v) = hm.at s u in let (b, t', e', v') = (hf a).at t v in (b, t', rw e e', v');
  }

module _ {api : Api} {B : Type 0} where
  pub IsTotal-then :
      (m : Exec api (Unit {0})) (k : Exec api B)
      → IsTotal api m
      → IsTotal api k
      → IsTotal api (m >> k)
  unfolding ◌>>◌
  IsTotal-then m k hm hk = record {
    at = λ s u.
        let (a, t, e, v) = hm.at s u in let (b, t', e', v') = hk.at t v in (b, t', rw e e', v');
  }

module _ (api : Api) where
  pub IsTotal-add_note : (n : Note) → IsTotal api (add_note api n)
  unfolding add_note
  IsTotal-add_note n = record { at = λ s u. (tt, _, refl, u) }

  pub IsTotal-report : (es : List Error) → IsTotal api (report api es)
  unfolding report
  IsTotal-report [] = record { at = λ s u. (tt, s, refl, u) }
  IsTotal-report (e ∷ es) = record { at = λ s u. (tt, _, refl, u) }

  pub IsTotal-for_each {ℓ} :
      {A : Type ℓ} (body : A → Exec api (Unit {0})) (xs : List A)
      → ((x : A) → IsTotal api (body x))
      → IsTotal api (for_each api body xs)
  unfolding for_each
  IsTotal-for_each body [] h = IsTotal-pure tt
  IsTotal-for_each body (x ∷ xs) h = IsTotal-then _ _ (h x) (IsTotal-for_each body xs h)

  pub IsTotal-get_state : IsTotal api (get_state api)
  unfolding get_state
  IsTotal-get_state = record { at = λ s u. (s, s, refl, u) }
