-- ===== src/Lib.antt =====
-- Verification of Nephio: the library with which KRM functions are written (krm-functions/lib), the
-- functions of interfaces, data networks and NF deployments (krm-functions/interface-fn,
-- krm-functions/dnn-fn, krm-functions/nfdeploy-fn), the approval, token, repository and bootstrap
-- controllers (controllers/pkg), and the FOCOM operator (operators/focom-operator).
--
-- A KRM function is a configuration of the SDK of krm-functions/lib/condkptsdk. Its run reads the
-- conditions of a package's Kptfile and the objects of the package into an inventory, asks the
-- function for the children of each `for` resource, compares them with those that are there, and
-- writes objects and conditions back. References to resources (krm-functions/lib/ref) are written
-- as condition types and read back (krm-functions/lib/kptfile/v1). The approval controller moves
-- package revisions through their lifecycle once their readiness gates are met, which those
-- conditions decide. A function writes its objects back with the comments and the order of fields
-- that they had (krm-functions/lib/kubeobject). The token and repository controllers keep what a
-- git server has in step with the cluster, and the bootstrap controllers install secrets and the
-- packages of staging repositories in workload clusters. The FOCOM operator mirrors provisioning
-- requests to a remote cluster.
--
-- - Base: shared notation: Go's equality tests (Eq, ==), results with errors (Result), code that
--   may panic (Outcome), maps as association lists (Dict), and the deletion from a slice inside a
--   `range` over it (Slices), on the array under the slice.
-- - Ref: ref.go. ConditionType: condition_type.go. Kptfile: kptfile.go, over a store of the two
--   list fields of the Kptfile (Kptfile/Store) that stands for its YAML.
-- - Inventory: inventory.go and inventory_resources.go, their data; Inventory/Tree: the tree of
--   resources (`set`, `delete`, `get`, `list`); Inventory/Gvk: the roles of the kinds
--   (`initializeGVKInventory`, `isGVKMatch`); Inventory/Diff: inventory_diff.go; Inventory/Ready:
--   inventory_ready.go.
-- - Api: what the SDK calls of the kpt function library, as one record of operations.
-- - Sdk: the state of a run and the methods on it, as functions of the state that may panic;
--   Sdk/Updates: sdk_updates.go; Sdk/Populate: sdk_populate_inventory.go; Sdk/Stage1:
--   sdk_stage1_populate_children.go and sdk_stage1_update_children.go; Sdk/Stage2: sdk_stage2.go;
--   Sdk/Run: sdk.go, condition.go and sdk_watches.go; Sdk/Safety: rules for methods that return;
--   Sdk/Agreement: the Kptfile and the inventory behind `setCondition`.
-- - Porch: controllers/pkg/porch/util/packagevariant.go and controllers/pkg/porch/client/approval.go.
-- - Approval: controllers/pkg/reconcilers/approval/reconciler.go.
-- - Finalizer: controllers/pkg/resource/finalizer.go.
-- - Formatting: kubeobject.go: YAML nodes (Formatting/Nodes), which items match
--   (Formatting/Matching), the copy of comments and order (Formatting/Copy) and the setters that use
--   it (Formatting/Update); Formatting/Relation: what a copy may change; Formatting/Totality: that it
--   returns; Formatting/Order: the order of fields. Objects: lists.go.
-- - Functions: what the functions share; Functions/Interface: interface-fn, with
--   what an interface asks for in Functions/Asked;
--   Functions/DataNetwork: dnn-fn, with its pools' names in Functions/Pools; Functions/Deployment:
--   nfdeploy-fn/fn/helper.go, and Functions/Deployment/Update: nfdeploy-fn/fn/function.go.
-- - Git: the Reconcile that controllers/pkg/reconcilers/token and controllers/pkg/reconcilers/repository
--   share; Git/Token and Git/Repository: what each makes and deletes; Git/Calls: the calls of a
--   reconciliation by kind; Git/Deletion, Git/Made, Git/Lost and Git/Upserted: laws.
-- - Bootstrap: controllers/pkg/reconcilers/bootstrap-secret and controllers/pkg/cluster;
--   Bootstrap/Attempts and Bootstrap/Installed: where a secret is installed; Bootstrap/Packages:
--   controllers/pkg/reconcilers/bootstrap-packages, with what is staged (Bootstrap/Packages/Staging)
--   and to which cluster it goes (Bootstrap/Packages/Clients).
-- - Focom: operators/focom-operator/internal/controller.
-- - Examples: concrete instances of the parameters, and runs.
--
-- Go maps are association lists, and a loop over a map takes their order; what is said of a loop
-- holds for every order. The loops recurse on their lists, so that no fuel is needed. The loop of a
-- deletion inside a `range` takes one round for each place of the slice, as `range` does. Errors
-- are values; the errors that the modelled packages make themselves are the constructors of
-- Ref.Error, those of libraries and callbacks are `external`, and in the controllers errors are a
-- parameter. Durations and times of the controllers are numbers; parsing and clock are parameters.
--
-- The functions of a configuration are the KRM function's own code: they are parameters of the SDK's
-- run and may panic, and what is said of a run has as a hypothesis that they return
-- (Sdk/Safety/Callbacks), or says where it panics.
--
-- Not modelled: logging and debug flags, the inventory's lock (a run has one thread), the text of
-- YAML, JSON, the clients of the API servers, start-up code, and the functions and reconcilers not
-- named above. A controller's model is one reconciliation, as a function of the
-- answers of the API servers. The Kptfile's object among the items is not brought up to date by the
-- run's model, which keeps the Kptfile beside the items.
pub mod Base
pub mod Bootstrap
pub mod Ref
pub mod ConditionType
pub mod Kptfile
pub mod Inventory
pub mod Api
pub mod Sdk
pub mod Porch
pub mod Approval
pub mod Finalizer
pub mod Focom
pub mod Git
pub mod Functions
pub mod Formatting
pub mod Objects
pub mod Examples
