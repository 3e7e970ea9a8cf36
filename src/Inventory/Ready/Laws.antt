-- ===== src/Inventory/Ready/Laws.antt =====
-- Readiness of a `for` resource, from the conditions around it.
use nephio.Base.{String, ◌≡◌, not, ◌&&◌, Option, [], ◌∷◌, any, arith}
use nephio.Base.Dict.{Dict}
use nephio.Ref.{ObjectReference, empty_ref}
use nephio.ConditionType.{Condition}
use nephio.Inventory.{own, watch, ResourceCtx, Inventory}
use nephio.Inventory.Tree.{inv_get}
use nephio.Inventory.Ready.{
  ReadyCtx, lacking, blocks, ready_own, ready_owns, ready_watch, ready_watches, start, ready_for,
}

module _ {O : Type 0} where
  ready-ready_owns :
      (owns : Dict ObjectReference (ResourceCtx O)) (r : ReadyCtx O)
      → (ready_owns owns r).ready
        ≡ (r.ready && not (any (λ p. lacking p.1.existing_condition) owns))
  unfolding ready_owns
  ready-ready_owns [] r = ground arith
  ready-ready_owns ((ref, c) ∷ owns) r =
      ground (arith, ready-ready_owns owns (ready_own (ref, c) r))

  module _ (group_version : String → Option String) where
    ready-ready_watches :
        (fc : Option Condition) (watches : Dict ObjectReference (ResourceCtx O)) (r : ReadyCtx O)
        → (ready_watches group_version fc watches r).ready
          ≡ (r.ready && not (any (λ p. blocks group_version fc p.0 p.1.existing_condition) watches))
    unfolding ready_watches
    ready-ready_watches fc [] r = ground arith
    ready-ready_watches fc ((ref, c) ∷ watches) r =
        ground (arith, ready-ready_watches fc watches (ready_watch group_version fc (ref, c) r))

    -- A `for` resource is ready exactly when no child of it lacks a condition or has a false one,
    -- and no watched resource that lacks one blocks it: a `for` resource with no condition is
    -- blocked by no watched resource.
    pub ready-ready_for :
        (inv : Inventory O) (for_ref : ObjectReference) (c : ResourceCtx O)
        → (ready_for group_version inv (for_ref, c)).ready ≡ (
            not (
              any
                (λ p. lacking p.1.existing_condition)
                (inv_get own (for_ref ∷ empty_ref ∷ []) inv))
            && not (
                any
                  (λ p. blocks group_version c.existing_condition p.0 p.1.existing_condition)
                  (inv_get watch (for_ref ∷ empty_ref ∷ []) inv)))
    unfolding ready_for
    ready-ready_for inv for_ref c =
        let owns = inv_get own (for_ref ∷ empty_ref ∷ []) inv in
        let watches = inv_get watch (for_ref ∷ empty_ref ∷ []) inv in
        ground (
          arith,
          ready-ready_owns owns (start c),
          ready-ready_watches c.existing_condition watches (ready_owns owns (start c)),
        )
