-- ===== src/Inventory/Ready.antt =====
-- krm-functions/lib/condkptsdk/inventory_ready.go: whether the children and the watched resources of
-- each `for` resource are ready.
pub mod Laws
use nephio.Base.{
  String, Bool, true, false, not, ◌&&◌, ◌||◌, Option, none, some, List, [], ◌∷◌, is_some, ◌==◌,
  string_eq, if◌then◌else◌,
}
use nephio.Base.Dict.{Dict, insert}
use nephio.Ref.{ObjectReference, ref_eq, empty_ref}
use nephio.ConditionType.{Condition, get_condition_type}
use nephio.Kptfile.{is_false}
use nephio.Inventory.{for, own, watch, ResourceCtx, Inventory}
use nephio.Inventory.Tree.{inv_get}

-- `readyCtx`
pub record ReadyCtx (O : Type 0) : Type 0 where
  pub ready : Bool
  pub failed : Bool
  pub for_obj : Option O
  pub for_condition : Option Condition
  pub owns : Dict ObjectReference O
  pub watches : Dict ObjectReference O

-- `existingCondition == nil || existingCondition.Status == ConditionFalse`
abbrev pub lacking : Option Condition → Bool
lacking none = true
lacking (some c) = is_false c.status

-- A watched resource that lacks its condition counts only if the `for` resource has a condition
-- whose reason is another resource.
abbrev pub blocks :
    (String → Option String) → Option Condition → ObjectReference → Option Condition → Bool
blocks group_version none ref c = false
blocks group_version (some for_c) ref c =
    lacking c && not (get_condition_type group_version ref == for_c.reason)

module _ {O : Type 0} where
  -- The body of the loop over the children.
  unfoldable pub ready_own : ObjectReference × ResourceCtx O → ReadyCtx O → ReadyCtx O
  ready_own (ref, c) r =
      let r' = if lacking c.existing_condition then record r { ready = false } else r in
      elim c.existing_resource [ none ↦ r' | some o ↦ record r' { owns = insert ref o r'.owns } ]

  unfoldable pub ready_owns : Dict ObjectReference (ResourceCtx O) → ReadyCtx O → ReadyCtx O
  unfolding ready_own
  ready_owns [] r = r
  ready_owns (entry ∷ owns) r = ready_owns owns (ready_own entry r)

  abbrev pub start : ResourceCtx O → ReadyCtx O
  start c = record {
    ready = true;
    failed = c.failed;
    for_obj = c.existing_resource;
    for_condition = c.existing_condition;
    owns = [];
    watches = [];
  }

  module _ (group_version : String → Option String) where
    -- The body of the loop over the watched resources.
    unfoldable pub ready_watch :
        Option Condition → ObjectReference × ResourceCtx O → ReadyCtx O → ReadyCtx O
    ready_watch for_condition (ref, c) r =
        let r' =
          if blocks group_version for_condition ref c.existing_condition
          then record r { ready = false }
          else r in
        elim c.existing_resource [
          | none ↦ r'
          | some o ↦ record r' { watches = insert ref o r'.watches }
        ]

    unfoldable pub ready_watches :
        Option Condition → Dict ObjectReference (ResourceCtx O) → ReadyCtx O → ReadyCtx O
    unfolding ready_watch
    ready_watches for_condition [] r = r
    ready_watches for_condition (entry ∷ watches) r =
        ready_watches for_condition watches (ready_watch for_condition entry r)

    unfoldable pub ready_for : Inventory O → ObjectReference × ResourceCtx O → ReadyCtx O
    ready_for inv (for_ref, c) =
        ready_watches c.existing_condition (inv_get watch (for_ref ∷ empty_ref ∷ []) inv)
          (ready_owns (inv_get own (for_ref ∷ empty_ref ∷ []) inv) (start c))

    unfoldable pub ready_fors :
        Inventory O
        → Dict ObjectReference (ResourceCtx O)
        → Dict ObjectReference (ReadyCtx O)
        → Dict ObjectReference (ReadyCtx O)
    ready_fors inv [] m = m
    ready_fors inv ((for_ref, c) ∷ fors) m =
        ready_fors inv fors (insert for_ref (ready_for inv (for_ref, c)) m)

    -- `getReadyMap`
    unfoldable pub get_ready_map : Inventory O → Dict ObjectReference (ReadyCtx O)
    get_ready_map inv = ready_fors inv (inv_get for (empty_ref ∷ []) inv) []
