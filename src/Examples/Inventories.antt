-- ===== src/Examples/Inventories.antt =====
-- Runs on the inventory and of the SDK's stages.
use nephio.Base.{
  ◌==◌, ◌⊎◌, String, ◌≡◌, ◌≢◌, refl, ℕ, Bool, true, false, Option, none, some, List, [], ◌∷◌,
  Result, ok, err, Outcome, done, panic, if◌then◌else◌, is_some, string_eq,
}
use nephio.Base.Dict.{Dict, lookup}
use nephio.Ref.{empty_ref, not_found, ref_eq}
use nephio.ConditionType.{Condition, condition_true, get_condition_by_ref}
use nephio.Kptfile.{get_condition}
use nephio.Sdk.Updates.{set_condition}
use nephio.Sdk.Agreement.{set_condition_agrees}
use nephio.Inventory.{
  GvkKind, for, own, watch, ResourceKind, remote, SdkObjectReference, GvkKindCtx, ResourceCtx,
  Resources, node, Children, nil, child, Inventory, Config, zero_ctx, sdk_ref_eq,
}
use nephio.Inventory.Tree.{get_sdk_refs, object, condition, set, delete, get, inv_set}
use nephio.Inventory.Tree.Laws.{or_zero, ctx_at, ctx_at-set, ctx_at-delete, lookup-get_wildcard}
use nephio.Inventory.Gvk.{new_inventory, own_ctx, for_ctx}
use nephio.Inventory.Gvk.Roles.{new_inventory-roles}
use nephio.Inventory.Diff.{InventoryDiff, diff, diff_for, empty_diff, specializer_delete}
use nephio.Inventory.Diff.Content.{diff_for-lists}
use nephio.Inventory.Diff.Panics.{is_panic, is_panic-diff}
use nephio.Inventory.Ready.{ready_for}
use nephio.Inventory.Ready.Laws.{ready-ready_for}
use nephio.Sdk.{State}
use nephio.Sdk.Run.{prepare, stages, run}
use nephio.Sdk.Safety.Rules.{IsUnique}
use nephio.Sdk.Safety.Run.{is_panic-stages}
use nephio.Sdk.Safety.Populate.{PanicsInWatch, PanicsInDiff, run_panics}
use nephio.Sdk.Safety.Callbacks.{Returning, watches}
use nephio.Examples.{api, api-IsReliable, Object, object_of, ready, file, for_ref, own_ref}

abbrev for_path : List SdkObjectReference
for_path = record { gvk_kind = for; ref = for_ref } ∷ []

abbrev own_path : List SdkObjectReference
own_path = record { gvk_kind = for; ref = for_ref } ∷ record { gvk_kind = own; ref = own_ref } ∷ []

abbrev empty_tree : Resources Object
empty_tree = node zero_ctx nil

set_example :
    ctx_at own_path (set own_path for_ctx (condition ready) false false empty_tree).0
    ≡ some (record zero_ctx { existing_condition = some ready })
unfolding nephio.Inventory.Tree.set_ctx ctx_at nephio.Inventory.Tree.lookup_child
set_example = (ctx_at-set for_ctx (condition ready) false false own_path empty_tree).0

delete_example : (delete own_path empty_tree).1 ≡ some not_found
unfolding ctx_at nephio.Inventory.Tree.lookup_child
delete_example = (ctx_at-delete own_path own_path empty_tree).1

for_ref≢empty : for_ref ≢ empty_ref
for_ref≢empty e = cc

-- A `for` resource with a condition above a child with one object made and one there.
abbrev for_ctx_there : ResourceCtx Object
for_ctx_there = record zero_ctx {
  kind_ctx = for_ctx;
  existing_condition = some ready;
  existing_resource = some (object_of for_ref "for");
}

abbrev child_ctx : ResourceCtx Object
child_ctx = record zero_ctx {
  kind_ctx = own_ctx remote;
  existing_condition = some ready;
  existing_resource = some (object_of own_ref "child");
}

abbrev tree : ResourceCtx Object → ResourceCtx Object → Resources Object
tree f c = node zero_ctx (
    child (record { gvk_kind = for; ref = for_ref })
      (node f (child (record { gvk_kind = own; ref = own_ref }) (node c nil) nil)) nil)

wildcard_example :
    lookup own_ref (
      get
        (record { gvk_kind = for; ref = for_ref } ∷ record { gvk_kind = own; ref = empty_ref } ∷ [])
        (tree for_ctx_there child_ctx))
    ≡ some child_ctx
unfolding ctx_at nephio.Inventory.Tree.lookup_child sdk_ref_eq
wildcard_example =
    (lookup-get_wildcard own for_ref own_ref (tree for_ctx_there child_ctx) for_ref≢empty).1

abbrev inventory : ResourceCtx Object → ResourceCtx Object → Inventory Object
inventory f c = record { gvk_resources = []; resources = tree f c; ready = true }

abbrev config : Config Object
config = record {
  root = true;
  for_ref = for_ref;
  owns = (own_ref, remote) ∷ [];
  watches = [];
  populate_own_resources_fn = some (λ o. done (ok (object_of own_ref "child" ∷ [])));
  update_resource_fn = some (λ o os. done (ok []));
}

abbrev the_inventory : Inventory Object
the_inventory = record {
  gvk_resources =
      (record for_ref { name = "" }, for_ctx) ∷ (record own_ref { name = "" }, own_ctx remote) ∷ [];
  resources = empty_tree;
  ready = true;
}

accepted : new_inventory config ≡ ok the_inventory
unfolding new_inventory string_eq lookup nephio.Base.Dict.insert ref_eq
accepted = refl

roles_example : lookup (record for_ref { name = "" }) the_inventory.gvk_resources ≡ some for_ctx
roles_example = (new_inventory-roles config the_inventory accepted).0

abbrev deletion : InventoryDiff Object
deletion = record empty_diff {
  update_for_condition = true;
  delete_conditions = record { ref = own_ref; own_kind = remote } ∷ [];
  delete_objs = record { ref = own_ref; obj = object_of own_ref "child"; own_kind = remote } ∷ [];
}

diffed : diff_for api (inventory for_ctx_there child_ctx) (for_ref, for_ctx_there) ≡ done deletion
unfolding diff_for nephio.Inventory.Diff.diff_children nephio.Inventory.Tree.inv_get
    nephio.Inventory.gvk_kind_eq ref_eq sdk_ref_eq nephio.Base.Dict.insert
    nephio.Inventory.Diff.diff_child nephio.Inventory.Diff.diff_resource
    nephio.Inventory.resource_kind_eq nephio.Inventory.Diff.diff_condition
diffed = refl

diff_example : deletion.create_objs ≡ []
unfolding nephio.Inventory.Tree.inv_get nephio.Inventory.gvk_kind_eq ref_eq sdk_ref_eq
    nephio.Base.Dict.insert
diff_example =
    (diff_for-lists api (inventory for_ctx_there child_ctx) for_ref for_ctx_there deletion diffed).0

abbrev settled_ctx : ResourceCtx Object
settled_ctx = record child_ctx { new_resource = some (object_of own_ref "child") }

abbrev annotated_ctx : ResourceCtx Object
annotated_ctx = record settled_ctx {
  existing_resource = some (record {
    ref = own_ref;
    annotations = (specializer_delete, "true") ∷ [];
    spec = some "child";
  });
}

panic_example :
    is_panic
      (diff api (inventory (record for_ctx_there { existing_condition = none }) annotated_ctx))
    ≡ true
unfolding nephio.Inventory.Tree.inv_get nephio.Inventory.gvk_kind_eq ref_eq nephio.Base.Dict.insert
    sdk_ref_eq nephio.Inventory.resource_kind_eq nephio.Api.get_spec lookup
panic_example =
    is_panic-diff api (inventory (record for_ctx_there { existing_condition = none }) annotated_ctx)

ready_example :
    (ready_for (λ s. some s) (inventory for_ctx_there child_ctx) (for_ref, for_ctx_there)).ready
    ≡ true
unfolding nephio.Inventory.Tree.inv_get nephio.Inventory.gvk_kind_eq ref_eq sdk_ref_eq
    nephio.Base.Dict.insert
ready_example =
    ready-ready_for (λ s. some s) (inventory for_ctx_there child_ctx) for_ref for_ctx_there

abbrev state : State api
state = record {
  inv = the_inventory;
  items = object_of for_ref "for" ∷ [];
  kptfile = file;
  results = [];
}

state-IsUnique : IsUnique api state
unfolding nephio.Kptfile.get_conditions string_eq
state-IsUnique = (refl, (refl, tt))

owned : config.owns ≢ []
owned e = cc

returning : Returning config
returning = record { populates = λ o. refl; updates = λ o os. refl }

watched : watches api config state ≡ done none
unfolding nephio.Inventory.Tree.inv_get nephio.Inventory.gvk_kind_eq ref_eq sdk_ref_eq
    nephio.Sdk.Run.first_watch_error
watched = refl

stages_example :
    (p : State api) × (prepare api config state ≡ done (tt, p))
    × (is_panic (stages api config state) ≡ is_panic (diff api p.inv))
    × ((t : State api) → stages api config state ≡ done (tt, t) → IsUnique api t)
stages_example =
    is_panic-stages api api-IsReliable config owned returning state state-IsUnique none watched

run_example :
    (is_panic (run api config state) ≡ false)
    ⊎ (PanicsInWatch api api-IsReliable config state ⊎ PanicsInDiff api api-IsReliable config state)
run_example = run_panics api api-IsReliable config owned returning state state-IsUnique

abbrev set_ready : Condition
set_ready = record {
  type = "nf.nephio.org/v1.Deployment.upf";
  status = condition_true;
  reason = "";
  message = "done";
}

names_condition :
    get_condition_by_ref api.group_version (for_ref ∷ []) "done" condition_true ≡ ok set_ready
unfolding get_condition_by_ref string_eq
names_condition = refl

names_place : get_sdk_refs for (for_ref ∷ []) ≡ ok for_path
unfolding get_sdk_refs nephio.Inventory.gvk_kind_eq
names_place = refl

agreement_example :
    (t : State api) × (set_condition api for (for_ref ∷ []) "done" condition_true false state
      ≡ done ([], t))
    × (t.results ≡ [])
    × ((ct : String)
        → get_condition api.store t.kptfile ct
          ≡ (if set_ready.type == ct then some set_ready else get_condition api.store file ct))
    × (ctx_at for_path t.inv.resources
        ≡ some (record (or_zero (ctx_at for_path the_inventory.resources)) {
          existing_condition = some set_ready;
          failed = false;
        }))
agreement_example =
    set_condition_agrees api api-IsReliable for (for_ref ∷ []) for_path "done" condition_true false
      set_ready state names_condition names_place
