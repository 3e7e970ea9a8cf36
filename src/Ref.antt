-- ===== src/Ref.antt =====
-- krm-functions/lib/ref/ref.go: references to Kubernetes resources, and the errors of the packages
-- that check them.
use nephio.Base.{
  String, ◌<>◌, Bool, true, false, ◌&&◌, ◌||◌, List, [], ◌∷◌, Result, ok, err, Eq, ◌==◌, string_eq,
  if◌then◌else◌,
}

-- `corev1.ObjectReference`, less the fields that no code of the packages modelled here sets or
-- reads.
pub record ObjectReference : Type 0 where
  pub api_version : String
  pub kind : String
  pub name : String

abbrev pub empty_ref : ObjectReference
empty_ref = record { api_version = ""; kind = ""; name = "" }

-- The errors that the packages make themselves, each with the values that its text shows, and
-- `external` for those of the libraries and of the callbacks.
pub data Error : Type 0 where
  gvk_not_initialized : ObjectReference → Error
  gvkn_not_initialized : ObjectReference → Error
  invalid_refs : List ObjectReference → Error
  wildcard_in_for wildcard_not_initial wildcard_in_watch no_update_fn : Error
  already_exists : ObjectReference → Error
  empty_refs one_ref_not_allowed two_refs_not_allowed too_many_refs : Error
  unsupported_object not_found spec_not_found missing_kptfile : Error
  unexpected_object unexpected_watch : ObjectReference → Error
  external : String → Error

ref_dec : Discrete ObjectReference
ref_dec = hlevel string_eq.dec

instance unfoldable pub ref_eq : Eq ObjectReference
unfolding ref_dec string_eq
ref_eq = record { dec = ref_dec }

-- `ValidateGVKRef`
unfoldable pub validate_gvk_ref : ObjectReference → Result Error (Unit {0})
validate_gvk_ref ref =
    if ref.api_version == "" || ref.kind == "" then err (gvk_not_initialized ref) else ok tt

-- `IsWildCardRef`
unfoldable pub is_wild_card_ref : ObjectReference → Bool
is_wild_card_ref ref = if ref.api_version == "*" && ref.kind == "*" then true else false

-- `ValidateGVKNRef`
unfoldable pub validate_gvkn_ref : ObjectReference → Result Error (Unit {0})
validate_gvkn_ref ref =
    if ref.api_version == "" || ref.kind == "" || ref.name == ""
    then err (gvkn_not_initialized ref)
    else ok tt

-- `GetGVKRefFromGVKNref`
unfoldable pub get_gvk_ref_from_gvkn_ref : ObjectReference → ObjectReference
get_gvk_ref_from_gvkn_ref ref = record ref { name = "" }

abbrev pub is_ok {ℓ} : {E A : Type ℓ} → Result E A → Bool
is_ok (ok a) = true
is_ok (err e) = false

-- `IsRefsValid`
unfoldable pub is_refs_valid : List ObjectReference → Bool
unfolding validate_gvkn_ref
is_refs_valid [] = false
is_refs_valid (r ∷ []) = is_ok (validate_gvkn_ref r)
is_refs_valid (r ∷ s ∷ []) = is_ok (validate_gvkn_ref r) && is_ok (validate_gvkn_ref s)
is_refs_valid (r ∷ s ∷ t ∷ rest) = false

more_refs : List ObjectReference → String
more_refs [] = ""
more_refs (r ∷ rs) = " " <> r.kind <> "/" <> r.name <> more_refs rs

-- `GetRefsString`
unfoldable pub get_refs_string : List ObjectReference → String
unfolding more_refs
get_refs_string [] = ""
get_refs_string (r ∷ rs) = r.kind <> "/" <> r.name <> more_refs rs
