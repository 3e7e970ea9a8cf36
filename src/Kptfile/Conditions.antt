-- ===== src/Kptfile/Conditions.antt =====
-- The condition list of a Kptfile as a map from types to conditions, and its readiness.
use nephio.Base.{
  String, ◌≡◌, ◌≢◌, refl, ◌∙◌, ap, Bool, true, false, not, ◌&&◌, ◌||◌, Option, none, some, List, [],
  ◌∷◌, ◌++◌, done, ◌==◌, string_eq, if◌then◌else◌, any, arith, NoMatch, AtMostOne, reject,
  NoMatch-any, range_delete-AtMostOne, range_delete-adjacent,
}
use text.Mathlib.Text.{starts_with}
use nephio.Ref.{Error}
use nephio.ConditionType.{Condition}
use nephio.Kptfile.{
  is_false, find_condition, set_one, set_all, ready_loop, get_conditions, get_condition,
  set_conditions, delete_condition, is_ready,
}
use nephio.Kptfile.Store.{KptfileStore, IsLawful}

abbrev pub has_type : String → List Condition → Bool
has_type ct cs = any (λ c. c.type == ct) cs

-- No two conditions of the list have one type.
abbrev pub UniqueTypes : List Condition → Type 0
UniqueTypes [] = Unit
UniqueTypes (c ∷ cs) = (has_type c.type cs ≡ false) × UniqueTypes cs

find_condition-set_one :
    (ct : String) (nc : Condition) (cs : List Condition)
    → find_condition ct (set_one nc cs) ≡ (if nc.type == ct then some nc else find_condition ct cs)
unfolding find_condition set_one
find_condition-set_one ct nc [] = refl
find_condition-set_one ct nc (c ∷ cs) = ground (arith, find_condition-set_one ct nc cs)

-- The last of the new conditions of a type, if there is one.
abbrev pub last_of_type : String → List Condition → Option Condition → Option Condition
last_of_type ct [] old = old
last_of_type ct (nc ∷ ncs) old = last_of_type ct ncs (if nc.type == ct then some nc else old)

find_condition-set_all :
    (ct : String) (ncs cs : List Condition)
    → find_condition ct (set_all cs ncs) ≡ last_of_type ct ncs (find_condition ct cs)
unfolding set_all
find_condition-set_all ct [] cs = refl
find_condition-set_all ct (nc ∷ ncs) cs =
    find_condition-set_all ct ncs (set_one nc cs)
    ∙ ap (last_of_type ct ncs) (find_condition-set_one ct nc cs)

has_type-set_one :
    (ct : String) (nc : Condition) (cs : List Condition)
    → nc.type ≢ ct
    → has_type ct cs ≡ false
    → has_type ct (set_one nc cs) ≡ false
unfolding set_one
has_type-set_one ct nc [] n h = ground arith
has_type-set_one ct nc (c ∷ cs) n h = ground (arith, has_type-set_one ct nc cs n)

set_one-UniqueTypes :
    (nc : Condition) (cs : List Condition) → UniqueTypes cs → UniqueTypes (set_one nc cs)
unfolding set_one
set_one-UniqueTypes nc [] u = (refl, tt)
set_one-UniqueTypes nc (c ∷ cs) u =
    ground (arith, set_one-UniqueTypes nc cs u.1, has_type-set_one c.type nc cs)

pub set_all-UniqueTypes : (ncs cs : List Condition) → UniqueTypes cs → UniqueTypes (set_all cs ncs)
unfolding set_all
set_all-UniqueTypes [] cs u = u
set_all-UniqueTypes (nc ∷ ncs) cs u = set_all-UniqueTypes ncs _ (set_one-UniqueTypes nc cs u)

ready_loop_iff :
    (prefix : String) (found : Bool) (cs : List Condition)
    → ready_loop prefix found cs ≡ (
        (found || any (λ c. starts_with c.type prefix) cs)
        && not (any (λ c. starts_with c.type prefix && is_false c.status) cs))
unfolding ready_loop
ready_loop_iff prefix found [] = ground arith
ready_loop_iff prefix found (c ∷ cs) =
    ground (arith, ready_loop_iff prefix true cs, ready_loop_iff prefix found cs)

UniqueTypes-AtMostOne :
    (ct : String) (cs : List Condition) → UniqueTypes cs → AtMostOne (λ c. c.type == ct) cs
UniqueTypes-AtMostOne ct [] u = tt
UniqueTypes-AtMostOne ct (c ∷ cs) u =
    (λ e. NoMatch-any (λ d. d.type == ct) cs (ground arith), UniqueTypes-AtMostOne ct cs u.1)

find_condition-reject :
    (ct j : String) (cs : List Condition)
    → find_condition j (reject (λ c. c.type == ct) cs)
      ≡ (if ct == j then none else find_condition j cs)
unfolding find_condition
find_condition-reject ct j [] = ground arith
find_condition-reject ct j (c ∷ cs) = ground (arith, find_condition-reject ct j cs)

has_type-reject :
    (ct j : String) (cs : List Condition)
    → has_type j cs ≡ false
    → has_type j (reject (λ c. c.type == ct) cs) ≡ false
has_type-reject ct j [] h = refl
has_type-reject ct j (c ∷ cs) h = ground (arith, has_type-reject ct j cs)

reject-UniqueTypes :
    (ct : String) (cs : List Condition)
    → UniqueTypes cs
    → UniqueTypes (reject (λ c. c.type == ct) cs)
reject-UniqueTypes ct [] u = tt
reject-UniqueTypes ct (c ∷ cs) u =
    ground (arith, reject-UniqueTypes ct cs u.1, has_type-reject ct c.type cs)

module _ (S : KptfileStore) (L : IsLawful S) where
  -- After a write that succeeds, the condition of a type is the last of the written ones of that
  -- type, and the one from before if none of them has it; and no two conditions have one type if
  -- no two had before.
  pub get_condition-set_conditions :
      (f : S.File) (ncs : List Condition)
      → (set_conditions S f ncs).1 ≡ none
      → ((ct : String)
          → get_condition S (set_conditions S f ncs).0 ct
            ≡ last_of_type ct ncs (get_condition S f ct))
        × (UniqueTypes (get_conditions S f)
            → UniqueTypes (get_conditions S (set_conditions S f ncs).0))
  unfolding set_conditions get_condition
  get_condition-set_conditions f ncs h = (
    λ ct. rw (L.conditions-put_conditions _ _ h) (find_condition-set_all ct ncs _),
    λ u. rw (L.conditions-put_conditions _ _ h) (set_all-UniqueTypes ncs _ u),
  )

  -- Where no two conditions have one type, `DeleteCondition` does not panic, and after a write that
  -- succeeds the type is gone, the others are as before, and still no two have one type.
  pub delete_condition_unique :
      (f : S.File) (ct : String)
      → UniqueTypes (get_conditions S f)
      → (w : S.File × Option Error) × (delete_condition S f ct ≡ done w)
        × (w.1 ≡ none
            → ((j : String)
                → get_condition S w.0 j ≡ (if ct == j then none else get_condition S f j))
              × UniqueTypes (get_conditions S w.0))
  unfolding delete_condition get_condition
  delete_condition_unique f ct u = (
    S.put_conditions f (reject (λ c. c.type == ct) (get_conditions S f)),
    rw (range_delete-AtMostOne _ _ (UniqueTypes-AtMostOne ct (get_conditions S f) u)),
    λ h. (
      λ j. rw (L.conditions-put_conditions _ _ h) (find_condition-reject ct j _),
      rw (L.conditions-put_conditions _ _ h) (reject-UniqueTypes ct _ u),
    ),
  )

  -- Two conditions of the type side by side, with a condition of another type behind them: after
  -- the deletion the second is still there.
  pub delete_condition_adjacent :
      (f : S.File) (ct : String) (before : List Condition) (c d e : Condition)
      (behind : List Condition)
      → get_conditions S f ≡ before ++ c ∷ d ∷ e ∷ behind
      → NoMatch (λ x. x.type == ct) before
      → c.type ≡ ct
      → d.type ≡ ct
      → NoMatch (λ x. x.type == ct) (e ∷ behind)
      → delete_condition S f ct ≡ done (S.put_conditions f (before ++ d ∷ e ∷ behind))
  unfolding delete_condition
  delete_condition_adjacent f ct before c d e behind h nb ec ed na =
      rw (h, range_delete-adjacent (λ x. x.type == ct) before c d e behind nb (ground arith) na)

  -- The package is ready for a prefix exactly when some condition's type has the prefix, and none
  -- with the prefix is false.
  pub is_ready_iff :
      (f : S.File) (prefix : String)
      → is_ready S f prefix ≡ (
          any (λ c. starts_with c.type prefix) (get_conditions S f)
          && not (any (λ c. starts_with c.type prefix && is_false c.status) (get_conditions S f)))
  unfolding is_ready
  is_ready_iff f prefix = ready_loop_iff prefix false (get_conditions S f)
