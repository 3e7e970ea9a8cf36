-- ===== src/Inventory.antt =====
-- krm-functions/lib/condkptsdk: the data of the inventory (inventory.go, inventory_resources.go)
-- and of the SDK's configuration (sdk.go). `O` is the type of KRM objects.
pub mod Tree
pub mod Gvk
pub mod Diff
pub mod Ready
use nephio.Base.{
  String, Bool, true, false, Option, none, some, List, Result, Outcome, Eq, string_eq,
}
use nephio.Base.Dict.{Dict}
use nephio.Ref.{ObjectReference, Error, ref_eq}
use nephio.ConditionType.{Condition}

-- `gvkKind`; `unset` is the zero value.
pub data GvkKind : Type 0 where
  unset for own watch : GvkKind

-- `ResourceKind`; `unset` is the zero value.
pub data ResourceKind : Type 0 where
  unset remote_condition remote local initial : ResourceKind

gvk_kind_dec : Discrete GvkKind
gvk_kind_dec = hlevel

instance unfoldable pub gvk_kind_eq : Eq GvkKind
unfolding gvk_kind_dec
gvk_kind_eq = record { dec = gvk_kind_dec }

resource_kind_dec : Discrete ResourceKind
resource_kind_dec = hlevel

instance unfoldable pub resource_kind_eq : Eq ResourceKind
unfolding resource_kind_dec
resource_kind_eq = record { dec = resource_kind_dec }

-- `sdkObjectReference`
pub record SdkObjectReference : Type 0 where
  pub gvk_kind : GvkKind
  pub ref : ObjectReference

sdk_ref_dec : Discrete SdkObjectReference
sdk_ref_dec = hlevel (gvk_kind_eq.dec, ref_eq.dec)

instance unfoldable pub sdk_ref_eq : Eq SdkObjectReference
unfolding sdk_ref_dec gvk_kind_eq ref_eq
sdk_ref_eq = record { dec = sdk_ref_dec }

-- `WatchCallbackFn`, called with a pointer that may be nil. A callback of the configuration may panic.
abbrev pub WatchCallbackFn : Type 0 → Type 0
WatchCallbackFn O = Option O → Outcome (Option Error)

-- `gvkKindCtx`
pub record GvkKindCtx (O : Type 0) : Type 0 where
  pub gvk_kind : GvkKind
  pub own_kind : ResourceKind
  pub callback_fn : Option (WatchCallbackFn O)

-- `resourceCtx`
pub record ResourceCtx (O : Type 0) : Type 0 where
  pub kind_ctx : GvkKindCtx O
  pub existing_condition : Option Condition
  pub existing_resource : Option O
  pub new_resource : Option O
  pub failed : Bool

-- `resources`, and the map of its children.
mutual
  pub data Resources (O : Type 0) : Type 0 where
    node : ResourceCtx O → Children O → Resources O

  pub data Children (O : Type 0) : Type 0 where
    nil : Children O
    child : SdkObjectReference → Resources O → Children O → Children O

-- `inv`, less its lock and the debug flag.
pub record Inventory (O : Type 0) : Type 0 where
  pub gvk_resources : Dict ObjectReference (GvkKindCtx O)
  pub resources : Resources O
  pub ready : Bool

-- `Config`; a function field may be nil.
pub record Config (O : Type 0) : Type 0 where
  pub root : Bool
  pub for_ref : ObjectReference
  pub owns : Dict ObjectReference ResourceKind
  pub watches : Dict ObjectReference (WatchCallbackFn O)
  pub populate_own_resources_fn : Option (O → Outcome (Result Error (List O)))
  pub update_resource_fn : Option (Option O → List O → Outcome (Result Error (List O)))

-- The zero values.
abbrev pub zero_kind_ctx : {O : Type 0} → GvkKindCtx O
zero_kind_ctx = record {
  gvk_kind = GvkKind.unset;
  own_kind = ResourceKind.unset;
  callback_fn = none;
}

abbrev pub zero_ctx : {O : Type 0} → ResourceCtx O
zero_ctx = record {
  kind_ctx = zero_kind_ctx;
  existing_condition = none;
  existing_resource = none;
  new_resource = none;
  failed = false;
}
