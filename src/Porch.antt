-- ===== src/Porch.antt =====
-- Package revisions of porch as the controllers see them, what the controllers call of porch, of the
-- API server and of Go's library, controllers/pkg/porch/util/packagevariant.go and
-- controllers/pkg/porch/client/approval.go.
pub mod Laws
use nephio.Base.{
  String, ◌<>◌, ℕ, Bool, true, false, not, ◌||◌, Option, none, some, List, [], ◌∷◌, Result, ok, err,
  ◌==◌, string_eq, if◌then◌else◌,
}
use nephio.Base.Dict.{Dict}

-- A signed 64-bit number of Go, for durations.
pub data ℤ : Type 0 where
  pos : ℕ → ℤ
  negsuc : ℕ → ℤ

pub record OwnerReference : Type 0 where
  pub controller : Option Bool
  pub api_version : String
  pub kind : String
  pub name : String

-- A condition of a package variant or a package revision.
pub record Condition : Type 0 where
  pub type : String
  pub status : String

pub record PackageRevision : Type 0 where
  pub namespace : String
  pub name : String
  pub annotations : Dict String String
  pub owner_references : List OwnerReference
  pub creation : ℕ
  pub lifecycle : String
  pub package_name : String
  pub repository_name : String
  pub readiness_gates : List String
  pub conditions : List Condition

pub record World : Type 1 where
  -- Errors: their text, `IsNotFound`, `fmt.Errorf` of a text, and `errors.Wrap`.
  pub Fault : Type 0
  pub text : Fault → String
  pub is_not_found : Fault → Bool
  pub errorf : String → Fault
  pub wrap : Fault → String → Fault
  -- `%q`, `time.ParseDuration`, and `time.Since` of a creation time.
  pub quote : String → String
  pub parse_duration : String → Result Fault ℤ
  pub since : ℕ → ℤ
  -- porch: the lifecycles, `LifecycleIsPublished`, `PackageRevisionIsReady`, and the group version
  -- of package variants.
  pub draft : String
  pub proposed : String
  pub published : String
  pub is_published : String → Bool
  pub is_revision_ready : List String → List Condition → Bool
  pub variant_version : String
  -- The API server's answers to reads and to writes.
  pub get_revision : String → String → Result Fault PackageRevision
  pub list_revisions : Result Fault (List PackageRevision)
  pub get_variant : String → String → Result Fault (List Condition)
  pub update : PackageRevision → Option Fault
  -- The REST client of porch, with what the registration of the scheme gives.
  pub add_to_scheme : Option Fault
  pub rest_get : String → String → Result Fault PackageRevision
  pub put_approval : PackageRevision → Option Fault

module _ (w : World) where
  open w use {Fault}

  -- The first condition of type Ready decides; `none` where there is none.
  unfoldable pub ready_condition : List Condition → Option Bool
  ready_condition [] = none
  ready_condition (c ∷ cs) =
      let rest = ready_condition cs in
      if not (c.type == "Ready") then rest else if c.status == "True" then some true else some false

  abbrev pub is_controller : Option Bool → Bool
  is_controller none = false
  is_controller (some b) = b

  -- What one package variant says, given what the loop over the further owners says.
  unfoldable pub by_variant : Result Fault (List Condition) → Result Fault Bool → Result Fault Bool
  unfolding ready_condition
  by_variant (err e) rest = err e
  by_variant (ok cs) rest = elim (ready_condition cs) [ none ↦ rest | some b ↦ ok b ]

  -- The loop over the owners; `owned` is its flag.
  unfoldable pub owners_ready : String → List OwnerReference → Bool → Result Fault Bool
  unfolding by_variant
  owners_ready namespace [] owned = ok (not owned)
  owners_ready namespace (o ∷ os) owned =
      let skipped = owners_ready namespace os owned in
      let rest = owners_ready namespace os true in
      if not (is_controller o.controller)
      then skipped
      else if not (w.variant_version == o.api_version)
      then skipped
      else if not (o.kind == "PackageVariant")
      then skipped
      else by_variant (w.get_variant namespace o.name) rest

  -- `PackageVariantReady`
  unfoldable pub package_variant_ready : PackageRevision → Result Fault Bool
  unfolding owners_ready
  package_variant_ready pr = owners_ready pr.namespace pr.owner_references false

  -- What `UpdatePackageRevisionApproval` does to the lifecycle that it reads: the revision that it
  -- puts, or the error that it returns at once.
  pub data Approving : Type 0 where
    put : PackageRevision → Approving
    returned : Option Fault → Approving

  unfoldable pub approving : String → PackageRevision → Approving
  approving new pr =
      if pr.lifecycle == w.proposed
      then put (record pr { lifecycle = new })
      else if pr.lifecycle == new
      then returned none
      else returned
          (some (w.errorf ("cannot change approval from " <> pr.lifecycle <> " to " <> new)))

  unfoldable pub read_for_approval :
      String → Option Fault → Result Fault PackageRevision → Approving
  unfolding approving
  read_for_approval new (some e) pr = returned (some e)
  read_for_approval new none (err e) = returned (some e)
  read_for_approval new none (ok pr) = approving new pr

  unfoldable pub finish_approval : Approving → Option Fault
  finish_approval (put pr) = w.put_approval pr
  finish_approval (returned e) = e

  -- `UpdatePackageRevisionApproval`: its error, behind what it puts.
  unfoldable pub start_approval : String → String → String → Approving
  unfolding read_for_approval
  start_approval namespace name new =
      read_for_approval new w.add_to_scheme (w.rest_get namespace name)

  unfoldable pub update_package_revision_approval : String → String → String → Option Fault
  unfolding start_approval finish_approval
  update_package_revision_approval namespace name new =
      finish_approval (start_approval namespace name new)
