-- ===== src/Sdk.antt =====
-- krm-functions/lib/condkptsdk: the state of the SDK (`sdk` of sdk.go) and the way its methods are
-- written: as functions of the state that may panic. Logging and the debug flag, which only guards
-- logging, are left out.
pub mod Updates
pub mod Populate
pub mod Stage1
pub mod Stage2
pub mod Run
pub mod Safety
pub mod Agreement
use nephio.Base.{
  String, Bool, true, false, Option, none, some, List, [], ◌∷◌, ◌++◌, Result, ok, err, Outcome,
  done, panic, and_then,
}
use nephio.Ref.{ObjectReference, Error}
use nephio.ConditionType.{Condition}
use nephio.Kptfile.{set_conditions, set_condition_ref_failed, delete_condition, set_readiness_gates}
use nephio.Inventory.{Inventory, GvkKindCtx}
use nephio.Inventory.Tree.{Entry, inv_set, inv_delete}
use nephio.Api.{Api}

-- An entry of the result list: by `Infof`, by `Errorf`, by `ErrorE` of joined errors, and
-- `ErrorResult`.
pub data Note : Type 0 where
  info : String → Note
  error_text : String → Note
  error_e : List Error → Note
  error_result : Error → Note

module _ (api : Api) where
  pub record State : Type 0 where
    pub inv : Inventory api.Object
    pub items : List api.Object
    pub kptfile : api.store.File
    pub results : List Note

-- A method: it may panic, and it returns a value with the new state.
abbrev pub Exec : Api → Type 0 → Type 0
Exec api A = State api → Outcome (A × State api)

infixl 5 ◌>>=◌ ◌>>◌
unfoldable pub ◌>>=◌ : {api : Api} {A B : Type 0} → Exec api A → (A → Exec api B) → Exec api B
◌>>=◌ m f s = and_then (m s) (λ p. f p.0 p.1)

unfoldable pub ◌>>◌ : {api : Api} {B : Type 0} → Exec api (Unit {0}) → Exec api B → Exec api B
◌>>◌ m k s = and_then (m s) (λ p. k p.1)

unfoldable pub pure : {api : Api} {A : Type 0} → A → Exec api A
pure a s = done (a, s)

-- A call of a function of the configuration.
unfoldable pub call : {api : Api} {A : Type 0} → Outcome A → Exec api A
call m s = and_then m (λ a. done (a, s))

module _ (api : Api) where
  unfoldable pub add_note : Note → Exec api (Unit {0})
  add_note n s = done (tt, record s { results = s.results ++ n ∷ [] })

  unfoldable pub get_state : Exec api (State api)
  get_state s = done (s, s)

  abbrev pub errors_of : Option Error → List Error
  errors_of none = []
  errors_of (some e) = e ∷ []

  -- `if err != nil { r.rl.Results.ErrorE(err) }`, of joined errors.
  unfoldable pub report : List Error → Exec api (Unit {0})
  unfolding add_note
  report [] s = done (tt, s)
  report (e ∷ es) s = add_note (error_e (e ∷ es)) s

  -- The methods of the Kptfile and of the inventory, on the state.
  unfoldable pub kpt_set_conditions : List Condition → Exec api (List Error)
  kpt_set_conditions ncs s =
      let (f, e) = set_conditions api.store s.kptfile ncs in
      done (errors_of e, record s { kptfile = f })

  unfoldable pub kpt_set_failed : ObjectReference → String → Exec api (List Error)
  kpt_set_failed ref msg s =
      let (f, e) = set_condition_ref_failed api.store api.group_version s.kptfile ref msg in
      done (errors_of e, record s { kptfile = f })

  unfoldable pub kpt_set_gates : List String → Exec api (List Error)
  kpt_set_gates cts s =
      let (f, e) = set_readiness_gates api.store s.kptfile cts in
      done (errors_of e, record s { kptfile = f })

  unfoldable pub kpt_delete_condition : String → Exec api (List Error)
  kpt_delete_condition ct s =
      and_then (delete_condition api.store s.kptfile ct)
        (λ p. done (errors_of p.1, record s { kptfile = p.0 }))

  unfoldable pub set_in_inventory :
      GvkKindCtx api.Object
      → List ObjectReference
      → Entry api.Object
      → Bool
      → Bool
      → Exec api (List Error)
  set_in_inventory kc refs x new_resource failed s =
      let (i, e) = inv_set kc refs x new_resource failed s.inv in
      done (errors_of e, record s { inv = i })

  unfoldable pub delete_in_inventory :
      GvkKindCtx api.Object → List ObjectReference → Exec api (List Error)
  delete_in_inventory kc refs s =
      let (i, e) = inv_delete kc refs s.inv in done (errors_of e, record s { inv = i })
