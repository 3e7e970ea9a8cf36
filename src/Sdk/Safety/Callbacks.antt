-- ===== src/Sdk/Safety/Callbacks.antt =====
-- The functions of a configuration, which are the KRM function's own code and may panic: what is said
-- of those that do not.
use nephio.Base.{◌≡◌, refl, false, Option, none, some, List, [], ◌∷◌, Result, Outcome, done, panic}
use nephio.Ref.{Error, empty_ref}
use nephio.Inventory.{watch, Config}
use nephio.Inventory.Tree.{inv_get}
use nephio.Inventory.Diff.Panics.{is_panic}
use nephio.Api.{Api}
use nephio.Sdk.{State, call}
use nephio.Sdk.Run.{first_watch_error}
use nephio.Sdk.Safety.Rules.{IsTotal}

abbrev pub PopulateReturns : {O : Type 0} → Option (O → Outcome (Result Error (List O))) → Type 0
PopulateReturns none = Unit
PopulateReturns {O} (some fn) = (o : O) → is_panic (fn o) ≡ false

abbrev pub UpdateReturns :
    {O : Type 0} → Option (Option O → List O → Outcome (Result Error (List O))) → Type 0
UpdateReturns none = Unit
UpdateReturns {O} (some fn) = (o : Option O) (os : List O) → is_panic (fn o os) ≡ false

-- The function that makes the children and the one that updates a resource return on all objects.
pub record Returning {O : Type 0} (cfg : Config O) : Type 0 where
  pub populates : PopulateReturns cfg.populate_own_resources_fn
  pub updates : UpdateReturns cfg.update_resource_fn

-- The calls of the watches, on the resources of the inventory, up to the first error.
abbrev pub watches : (api : Api) → Config api.Object → State api → Outcome (Option Error)
watches api cfg s = first_watch_error api cfg (inv_get watch (empty_ref ∷ []) s.inv)

pub IsTotal-call :
    {api : Api} {A : Type 0} (m : Outcome A) → is_panic m ≡ false → IsTotal api (call m)
unfolding call
IsTotal-call (done a) h = record { at = λ s u. (a, s, refl, u) }
IsTotal-call panic h = cc
