-- ===== src/Kptfile/Store.antt =====
-- What kptfile.go uses of the Kptfile's YAML: reading the `info` or the `status` field into Go values
-- (`As` of the kpt function library), which fails where any part of the field cannot be decoded, and
-- writing one of their lists back (`SetNestedFieldKeepFormatting`, on which Formatting/Update is), which
-- may fail too.
use nephio.Base.{String, ◌≡◌, true, Option, none, some, is_some, List}
use nephio.Ref.{Error}
use nephio.ConditionType.{Condition}

pub record KptfileStore : Type 1 where
  pub File : Type 0
  pub conditions : File → Option (List Condition)
  pub gates : File → Option (List String)
  pub put_conditions : File → List Condition → File × Option Error
  pub put_gates : File → List String → File × Option Error

-- A write that succeeds is read back, and leaves the other field alone. Readiness gates are read
-- back where the field that they are a part of could be decoded before. Nothing is said of a write
-- that fails.
pub record IsLawful (S : KptfileStore) : Type 0 where
  pub conditions-put_conditions :
      (f : S.File) (cs : List Condition)
      → (S.put_conditions f cs).1 ≡ none
      → S.conditions (S.put_conditions f cs).0 ≡ some cs
  pub gates-put_conditions :
      (f : S.File) (cs : List Condition)
      → (S.put_conditions f cs).1 ≡ none
      → S.gates (S.put_conditions f cs).0 ≡ S.gates f
  pub gates-put_gates :
      (f : S.File) (gs : List String)
      → (S.put_gates f gs).1 ≡ none
      → is_some (S.gates f) ≡ true
      → S.gates (S.put_gates f gs).0 ≡ some gs
  pub conditions-put_gates :
      (f : S.File) (gs : List String)
      → (S.put_gates f gs).1 ≡ none
      → S.conditions (S.put_gates f gs).0 ≡ S.conditions f
