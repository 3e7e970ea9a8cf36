-- ===== src/Examples/Conditions.antt =====
-- Runs of the Kptfile's operations and of the condition types.
use Prim.Native.Char.{code}
use Prim.Native.String.{[] as empty, ◌∷◌ as ◌⊳◌}
use nephio.ConditionType.Split.{Avoids}
use nephio.Base.{
  ℕ, nat_beq, arith, String, ◌≡◌, ◌≢◌, refl, Bool, true, false, none, some, [], ◌∷◌, done,
  string_eq, ◌&&◌, not,
}
use nephio.ConditionType.{get_gvkn_from_condition_type, get_condition_type}
use nephio.ConditionType.RoundTrip.{
  IsPlain, get_gvkn_from_condition_type-get_condition_type,
  get_gvkn_from_condition_type-get_condition_type_core,
}
use nephio.Kptfile.{
  get_conditions, get_condition, set_conditions, delete_condition, is_ready, has_readiness_gate,
  set_readiness_gates,
}
use nephio.Kptfile.Conditions.{
  UniqueTypes, get_condition-set_conditions, delete_condition_unique, delete_condition_adjacent,
  is_ready_iff,
}
use nephio.Kptfile.Gates.{has_readiness_gate-set_readiness_gates}
use nephio.Examples.{store, store-IsLawful, ready, synced, file, for_ref, File}

set_conditions_example :
    get_condition store (set_conditions store file (synced ∷ [])).0 "Synced" ≡ some synced
unfolding set_conditions string_eq
set_conditions_example =
    (get_condition-set_conditions store store-IsLawful file (synced ∷ []) refl).0 "Synced"

file-UniqueTypes : UniqueTypes (get_conditions store file)
unfolding get_conditions string_eq
file-UniqueTypes = (refl, (refl, tt))

delete_condition_example :
    delete_condition store file "Ready"
    ≡ done (delete_condition_unique store store-IsLawful file "Ready" file-UniqueTypes).0
delete_condition_example =
    (delete_condition_unique store store-IsLawful file "Ready" file-UniqueTypes).1

abbrev doubled : File
doubled = record file { conditions = ready ∷ ready ∷ synced ∷ [] }

delete_condition_adjacent_example : delete_condition store doubled "Ready" ≡ done (file, none)
unfolding get_conditions string_eq
delete_condition_adjacent_example =
    delete_condition_adjacent store store-IsLawful doubled "Ready" [] ready ready synced [] refl tt
      refl refl (refl, tt)

is_ready_example : is_ready store file "Sync" ≡ false
unfolding get_conditions string_eq
is_ready_example = is_ready_iff store store-IsLawful file "Sync"

set_readiness_gates_example :
    has_readiness_gate store (set_readiness_gates store file ("Synced" ∷ [])).0 "Synced" ≡ true
unfolding set_readiness_gates has_readiness_gate string_eq
set_readiness_gates_example =
    (has_readiness_gate-set_readiness_gates store store-IsLawful file ("Synced" ∷ []) refl).0 refl
      "Synced"

abbrev avoids : ℕ → String → Bool
avoids sep empty = true
avoids sep (c ⊳ s) = not (nat_beq (code c) sep) && avoids sep s

Avoids-avoids : (sep : ℕ) (s : String) → avoids sep s ≡ true → Avoids sep s
Avoids-avoids sep empty h = tt
Avoids-avoids sep (c ⊳ s) h = (ground arith, Avoids-avoids sep s (ground arith))

IsPlain-avoids : (s : String) → (avoids b'/' s && avoids b'.' s) ≡ true → IsPlain s
IsPlain-avoids s h = (Avoids-avoids b'/' s (ground arith), Avoids-avoids b'.' s (ground arith))

upf≢nil : ◌≢◌ {A = String} "upf" ""
upf≢nil e = cc

kind≢nil : ◌≢◌ {A = String} "Deployment" ""
kind≢nil e = cc

version≢nil : ◌≢◌ {A = String} "v1" ""
version≢nil e = cc

round_trip_example :
    get_gvkn_from_condition_type (get_condition_type (λ s. some s) for_ref) ≡ for_ref
round_trip_example =
    get_gvkn_from_condition_type-get_condition_type (λ s. some s) "nf.nephio.org" "v1" "Deployment"
      "upf" refl (Avoids-avoids b'/' "nf.nephio.org" refl) (IsPlain-avoids "v1" refl)
      (IsPlain-avoids "Deployment" refl) (IsPlain-avoids "upf" refl) kind≢nil upf≢nil

round_trip_core_example :
    get_gvkn_from_condition_type (
      get_condition_type
        (λ s. some s)
        (record { api_version = "v1"; kind = "Deployment"; name = "upf" }))
    ≡ record { api_version = "/v1"; kind = "Deployment"; name = "upf" }
round_trip_core_example =
    get_gvkn_from_condition_type-get_condition_type_core (λ s. some s) "v1" "Deployment" "upf" refl
      version≢nil (IsPlain-avoids "v1" refl) (IsPlain-avoids "Deployment" refl)
      (IsPlain-avoids "upf" refl) kind≢nil upf≢nil
