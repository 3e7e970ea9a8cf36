-- ===== src/Sdk/Agreement.antt =====
-- `setCondition` (sdk_updates.go) leaves the Kptfile and the inventory with the same condition.
use nephio.Base.{
  if◌then◌else◌, ◌==◌, String, ◌≡◌, refl, Bool, false, none, some, List, [], ◌∷◌, ok, done,
  string_eq,
}
use nephio.Ref.{ObjectReference}
use nephio.ConditionType.{Condition, ConditionStatus, get_condition_by_ref}
use nephio.Kptfile.{get_condition, set_conditions}
use nephio.Kptfile.Conditions.{get_condition-set_conditions}
use nephio.Inventory.{GvkKind, SdkObjectReference, GvkKindCtx, Resources, node}
use nephio.Inventory.Tree.{condition, get_sdk_refs, set, set_ctx, lookup_child, or_init, inv_set}
use nephio.Inventory.Tree.Laws.{ctx_at, or_zero, ctx_at-set}
use nephio.Api.{Api}
use nephio.Sdk.{State, ◌>>=◌, ◌>>◌, pure, report, kpt_set_conditions, set_in_inventory}
use nephio.Sdk.Updates.{only_kind, with_condition, set_condition}
use nephio.Sdk.Safety.Rules.{IsReliable}

set-condition :
    {O : Type 0} (kc : GvkKindCtx O) (c : Condition) (new_resource failed : Bool)
    (p : List SdkObjectReference) (n : Resources O)
    → (set p kc (condition c) new_resource failed n).1 ≡ none
unfolding set set_ctx
set-condition kc c new_resource failed [] (node x children) = refl
set-condition kc c new_resource failed (r ∷ p) (node x children) =
    set-condition kc c new_resource failed p (or_init (lookup_child r children))

module _ (api : Api) (R : IsReliable api.store) where
  -- The state that `setCondition` leaves.
  after_set : GvkKind → List SdkObjectReference → Condition → Bool → State api → State api
  after_set k path c failed s = record s {
    kptfile = (set_conditions api.store s.kptfile (c ∷ [])).0;
    inv = record s.inv {
      resources = (set path (only_kind api k) (condition c) false failed s.inv.resources).0;
    };
  }

  kpt_set_conditions-one :
      (c : Condition) (s : State api)
      → kpt_set_conditions api (c ∷ []) s
        ≡ done ([], record s { kptfile = (set_conditions api.store s.kptfile (c ∷ [])).0 })
  unfolding kpt_set_conditions set_conditions
  kpt_set_conditions-one c s = rw R.put_conditions_ok refl

  set_in_inventory-condition :
      (k : GvkKind) (refs : List ObjectReference) (path : List SdkObjectReference) (failed : Bool)
      (c : Condition) (s : State api)
      → get_sdk_refs k refs ≡ ok path
      → set_in_inventory api (only_kind api k) refs (condition c) false failed s
        ≡ done (
          [],
          record s {
            inv = record s.inv {
              resources = (set path (only_kind api k) (condition c) false failed s.inv.resources).0;
            };
          },
        )
  unfolding set_in_inventory inv_set
  set_in_inventory-condition k refs path failed c s h =
      rw
        (
          set_in_inventory,
          inv_set,
          h,
          set-condition (only_kind api k) c false failed path s.inv.resources,
        )
        refl

  set_condition-after_set :
      (k : GvkKind) (refs : List ObjectReference) (path : List SdkObjectReference) (msg : String)
      (status : ConditionStatus) (failed : Bool) (c : Condition) (s : State api)
      → get_condition_by_ref api.group_version refs msg status ≡ ok c
      → get_sdk_refs k refs ≡ ok path
      → set_condition api k refs msg status failed s ≡ done ([], after_set k path c failed s)
  unfolding set_condition with_condition report after_set ◌>>=◌ ◌>>◌ pure
  set_condition-after_set k refs path msg status failed c s by_ref sdk_refs =
      rw
        (
          by_ref,
          with_condition,
          ◌>>=◌,
          kpt_set_conditions-one c s,
          ◌>>◌,
          report,
          set_in_inventory-condition k refs path failed c
              (record s { kptfile = (set_conditions api.store s.kptfile (c ∷ [])).0 }) sdk_refs,
        )
        refl

  -- For references that name a condition `c` and a place in the inventory, `setCondition` over a
  -- reliable Kptfile returns without an error and adds no result; behind it both the Kptfile and the
  -- inventory have the condition: the Kptfile finds `c` under its type and keeps the condition of
  -- every other type, and the resource at the place has `c` and the new failure mark, and is as it
  -- was, or as it is initialised, in all else.
  pub set_condition_agrees :
      (k : GvkKind) (refs : List ObjectReference) (path : List SdkObjectReference) (msg : String)
      (status : ConditionStatus) (failed : Bool) (c : Condition) (s : State api)
      → get_condition_by_ref api.group_version refs msg status ≡ ok c
      → get_sdk_refs k refs ≡ ok path
      → (t : State api) × (set_condition api k refs msg status failed s ≡ done ([], t))
        × (t.results ≡ s.results)
        × ((ct : String)
            → get_condition api.store t.kptfile ct
              ≡ (if c.type == ct then some c else get_condition api.store s.kptfile ct))
        × (ctx_at path t.inv.resources
            ≡ some (record (or_zero (ctx_at path s.inv.resources)) {
              existing_condition = some c;
              failed = failed;
            }))
  unfolding after_set set_ctx
  set_condition_agrees k refs path msg status failed c s by_ref sdk_refs = (
    after_set k path c failed s,
    set_condition-after_set k refs path msg status failed c s by_ref sdk_refs,
    refl,
    (get_condition-set_conditions api.store R.lawful s.kptfile (c ∷ [])
        (unfold set_conditions in R.put_conditions_ok _ _)).0,
    (ctx_at-set (only_kind api k) (condition c) false failed path s.inv.resources).0,
  )
