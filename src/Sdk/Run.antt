-- ===== src/Sdk/Run.antt =====
-- krm-functions/lib/condkptsdk: the run of a function (sdk.go), its specialization condition
-- (condition.go) and the global watches (sdk_watches.go).
use nephio.Base.{
  String, ◌<>◌, Bool, true, false, ◌&&◌, Option, none, some, List, [], ◌∷◌, Result, ok, err,
  Outcome, done, and_then, is_some, if◌then◌else◌,
}
use nephio.Base.Dict.{Dict}
use nephio.Ref.{ObjectReference, Error, empty_ref, missing_kptfile}
use nephio.ConditionType.{condition_true, condition_false, Condition, get_condition_type}
use nephio.Kptfile.{get_condition, is_ready}
use nephio.Inventory.{watch, ResourceCtx, Config}
use nephio.Inventory.Tree.{inv_get}
use nephio.Inventory.Gvk.{new_inventory}
use nephio.Api.{Api, ref_of}
use nephio.Sdk.{
  State, Exec, Note, info, error_text, ◌>>=◌, ◌>>◌, pure, call, add_note, get_state, report,
  kpt_set_conditions, kpt_set_gates,
}
use nephio.Sdk.Populate.{populate_inventory}
use nephio.Sdk.Stage1.{for_each, fail_for, populate_children, update_children}
use nephio.Sdk.Stage2.{update_resources}

module _ (api : Api) where
  open api use {Object}

  -- `getSpecializationConditionType`
  unfoldable pub get_specialization_condition_type : String
  unfolding get_condition_type
  get_specialization_condition_type =
      get_condition_type api.group_version
        (record { api_version = "nephio.org"; kind = "Specializer"; name = "specialize" })

  -- `initialize`
  unfoldable pub initialize : Condition
  unfolding get_specialization_condition_type
  initialize = record {
    type = get_specialization_condition_type;
    status = condition_false;
    reason = "Specialize";
    message = "initialized";
  }

  -- `failed`
  unfoldable pub failed : String → Condition
  unfolding get_specialization_condition_type
  failed msg = record {
    type = get_specialization_condition_type;
    status = condition_false;
    reason = "Failed";
    message = msg;
  }

  -- `notReady`
  unfoldable pub not_ready : Condition
  unfolding get_specialization_condition_type
  not_ready = record {
    type = get_specialization_condition_type;
    status = condition_false;
    reason = "Specialize";
    message = "not ready";
  }

  -- `ready`
  unfoldable pub ready : Condition
  unfolding get_specialization_condition_type
  ready = record {
    type = get_specialization_condition_type;
    status = condition_true;
    reason = "Ready";
    message = "";
  }

  unfoldable pub set_and_report : Condition → Exec api (Unit {0})
  set_and_report c = do e ← kpt_set_conditions api (c ∷ []); report api e

  abbrev only : (Object → Bool) → List Object → List Object
  only p [] = []
  only p (o ∷ os) = let rest = only p os in if p o then o ∷ rest else rest

  module _ (cfg : Config Object) where
    -- `failForConditions`
    unfoldable pub fail_for_conditions : String → Exec api (Unit {0})
    unfolding for_each
    fail_for_conditions msg = do
      s ← get_state api
      for_each api (λ o. fail_for api (ref_of api o) msg) (only (api.is_gvk cfg.for_ref) s.items)

    -- The loop of `callGlobalWatches`: the first error of a callback is returned.
    unfoldable pub first_watch_error :
        Dict ObjectReference (ResourceCtx Object) → Outcome (Option Error)
    first_watch_error [] = done none
    first_watch_error ((ref, c) ∷ watches) =
        let rest = first_watch_error watches in
        elim c.kind_ctx.callback_fn [
          | none ↦ rest
          | some fn ↦
              and_then (fn c.existing_resource)
                (λ result. elim result [ none ↦ rest | some e ↦ done (some e) ])
        ]

    unfoldable pub set_not_ready : Exec api (Unit {0})
    set_not_ready s = done (tt, record s { inv = record s.inv { ready = false } })

    unfoldable pub block_on : Option Error → Exec api (Unit {0})
    unfolding set_not_ready fail_for_conditions
    block_on none = pure tt
    block_on (some e) = do
      set_not_ready
      if cfg.root
          then set_and_report (failed (api.error_text e))
          else fail_for_conditions (api.error_text e)

    -- `callGlobalWatches`, and what `Run` does with its error.
    unfoldable pub call_global_watches : Exec api (Unit {0})
    unfolding first_watch_error inv_get block_on
    call_global_watches = do
      s ← get_state api
      e ← call (first_watch_error (inv_get watch (empty_ref ∷ []) s.inv))
      block_on e

    unfoldable pub ensure_condition : List Error → Exec api (List Error)
    unfolding initialize get_condition
    ensure_condition (e ∷ es) = pure (e ∷ es)
    ensure_condition [] = do
      s ← get_state api
      if is_some (get_condition api.store s.kptfile (get_specialization_condition_type))
          then pure tt
          else set_and_report initialize
      pure []

    -- `ensureConditionsAndGates`
    unfoldable pub ensure_conditions_and_gates : Exec api (List Error)
    unfolding ensure_condition
    ensure_conditions_and_gates = do
      e ← kpt_set_gates api (get_specialization_condition_type ∷ [])
      ensure_condition e

    -- The end of `Run`: the specialization condition from the conditions of the `for` kind.
    unfoldable pub set_readiness : Exec api (Unit {0})
    unfolding is_ready ready not_ready get_condition_type
    set_readiness = do
      s ← get_state api
      let prefix = get_condition_type api.group_version (record cfg.for_ref { name = "" })
      if cfg.root && s.inv.ready
          then set_and_report (if is_ready api.store s.kptfile prefix then ready else not_ready)
          else pure tt

    abbrev pub has_owns : Bool
    has_owns = elim cfg.owns [ [] ↦ false | entry ∷ entries ↦ true ]

    -- `Run` between the population of the inventory and the diff.
    unfoldable pub prepare : Exec api (Unit {0})
    unfolding call_global_watches populate_children
    prepare = do
      call_global_watches
      s ← get_state api
      if s.inv.ready && has_owns then populate_children api cfg else pure tt

    -- `Run` behind the population of the inventory.
    unfoldable pub stages : Exec api (Unit {0})
    unfolding prepare update_children update_resources set_readiness
    stages = do prepare; update_children api; update_resources api cfg; set_readiness

    unfoldable pub stages_unless : List Error → Exec api (Unit {0})
    unfolding fail_for_conditions stages
    stages_unless [] = stages
    stages_unless (e ∷ es) =
        fail_for_conditions ("stage1: cannot populate inventory, err: " <> api.error_text e)

    -- `Run` behind the checks of the Kptfile.
    unfoldable pub populate_and_run : Exec api (Bool × Option Error)
    unfolding populate_inventory stages_unless
    populate_and_run = do e ← populate_inventory api cfg; stages_unless e; pure (true, none)

    -- The text of the returned error is that of `e`, less the mark that `fmt.Errorf` appends for the
    -- argument that its format does not use.
    unfoldable pub run_unless : List Error → Exec api (Bool × Option Error)
    unfolding populate_and_run
    run_unless [] = populate_and_run
    run_unless (e ∷ es) = do
      add_note api (
          error_text (
            "cannot ensure specialize conditions and readiness gates, error: "
            <> api.error_text e
            <> "\n"))
      pure (false, some e)

    -- `Run` from the Kptfile on.
    unfoldable pub run_with_kptfile : Exec api (Bool × Option Error)
    unfolding ensure_conditions_and_gates run_unless
    run_with_kptfile = do
      e ← (if cfg.root then ensure_conditions_and_gates else pure [])
      run_unless e

    -- What `Run` leaves: its two results, the resource list and, if it got there, the Kptfile. The
    -- Kptfile's object in the resource list is not brought up to date here: `kptfile` stands for it.
    pub record Finished : Type 0 where
      pub succeeded : Bool
      pub error : Option Error
      pub items : List Object
      pub results : List Note
      pub kptfile : Option api.store.File

    -- `Run`
    unfoldable pub run : State api → Outcome Finished
    unfolding run_with_kptfile
    run s = and_then (run_with_kptfile s) (λ p. done (record {
      succeeded = p.0.0;
      error = p.0.1;
      items = p.1.items;
      results = p.1.results;
      kptfile = some p.1.kptfile;
    }))

    -- `New` and `Run`, on the items of a resource list.
    unfoldable pub new_and_run : List Object → Result Error (Outcome Finished)
    unfolding new_inventory run
    new_and_run items = elim (new_inventory cfg) [
      | err e ↦ err e
      | ok inv ↦ ok (elim items [
        | [] ↦ done (record {
          succeeded = true;
          error = none;
          items = [];
          results = info "no resources present in the resourcelist" ∷ [];
          kptfile = none;
        })
        | o ∷ os ↦ elim (api.root_kptfile (o ∷ os)) [
          | none ↦ done (record {
            succeeded = false;
            error = some missing_kptfile;
            items = o ∷ os;
            results = error_text "mandatory Kptfile is missing from the package" ∷ [];
            kptfile = none;
          })
          | some f ↦ run (record { inv = inv; items = o ∷ os; kptfile = f; results = [] })
        ]
      ])
    ]
