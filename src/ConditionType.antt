-- ===== src/ConditionType.antt =====
-- krm-functions/lib/kptfile/v1/condition_type.go: condition types as names of resources.
pub mod Split
pub mod RoundTrip
use nephio.Base.{
  String, ◌<>◌, List, [], ◌∷◌, Bool, Option, none, some, Result, ok, err, ◌==◌, string_eq,
  if◌then◌else◌,
}
use nephio.Ref.{ObjectReference, empty_ref, Error, invalid_refs, is_refs_valid}
use Split.{split}

-- `kptv1.ConditionStatus`
pub data ConditionStatus : Type 0 where
  condition_true condition_false condition_unknown : ConditionStatus

-- `kptv1.Condition`
pub record Condition : Type 0 where
  pub type : String
  pub status : ConditionStatus
  pub reason : String
  pub message : String

-- The text so far, a dot unless it is empty, and one more part.
unfoldable pub add_part : String → String → String
add_part sb part = if sb == "" then part else sb <> "." <> part

-- The parts of a type behind its group.
unfoldable pub from_parts : String → List String → ObjectReference
from_parts group (version ∷ kind ∷ name ∷ []) = record {
  api_version = group <> "/" <> version;
  kind = kind;
  name = name;
}
from_parts group _ = empty_ref

unfoldable pub from_groups : String → List String → ObjectReference
unfolding from_parts split
from_groups ct (group ∷ vkn ∷ rest) = from_parts group (split b'.' vkn)
from_groups ct _ = from_parts "" (split b'.' ct)

-- `GetGVKNFromConditionType`
unfoldable pub get_gvkn_from_condition_type : String → ObjectReference
unfolding from_groups split
get_gvkn_from_condition_type ct = from_groups ct (split b'/' ct)

-- `group_version` is `schema.ParseGroupVersion` of Kubernetes with the `String` of what it returns,
-- or `none` for its error.
module _ (group_version : String → Option String) where
  unfoldable pub version_part : String → String
  version_part version =
      if version == "" then "" else elim (group_version version) [ none ↦ "" | some gv ↦ gv ]

  -- `GetConditionType`
  unfoldable pub get_condition_type : ObjectReference → String
  unfolding version_part add_part
  get_condition_type o =
      let sb = version_part o.api_version in
      let sb' = (if o.kind == "" then sb else add_part sb o.kind) in
      if o.name == "" then sb' else add_part sb' o.name

  unfoldable pub condition_for : List ObjectReference → String → ConditionStatus → Condition
  unfolding get_condition_type
  condition_for (for_ref ∷ own_ref ∷ _) msg status = record {
    type = get_condition_type own_ref;
    status = status;
    reason = get_condition_type for_ref;
    message = msg;
  }
  condition_for (for_ref ∷ []) msg status = record {
    type = get_condition_type for_ref;
    status = status;
    reason = "";
    message = msg;
  }
  condition_for [] msg status = record { type = ""; status = status; reason = ""; message = msg }

  -- `GetConditionByRef`; its last argument is not used. The last clause of `condition_for` is never
  -- reached: an empty list is not valid.
  unfoldable pub get_condition_by_ref :
      List ObjectReference → String → ConditionStatus → Result Error Condition
  unfolding condition_for is_refs_valid
  get_condition_by_ref refs msg status =
      if is_refs_valid refs then ok (condition_for refs msg status) else err (invalid_refs refs)
