-- ===== src/Finalizer.antt =====
-- controllers/pkg/resource/finalizer.go: the finalizers of an object. An object is the list of its
-- finalizers; the client's update of it is a parameter.
pub mod Laws
use nephio.Base.{
  String, Bool, true, false, not, Option, none, some, List, [], ◌∷◌, ◌++◌, Outcome, done, and_then,
  ◌==◌, string_eq, if◌then◌else◌, range_delete,
}

abbrev pub is_finalizer : String → String → Bool
is_finalizer finalizer e = e == finalizer

-- `FinalizerExists`
unfoldable pub finalizer_exists : List String → String → Bool
finalizer_exists [] finalizer = false
finalizer_exists (e ∷ f) finalizer =
    let rest = finalizer_exists f finalizer in if is_finalizer finalizer e then true else rest

-- The loop of `AddFinalizer`, over the places that are left of `f`.
unfoldable pub add_loop : List String → String → List String → List String
add_loop f finalizer [] = f ++ finalizer ∷ []
add_loop f finalizer (e ∷ es) =
    let rest = add_loop f finalizer es in if is_finalizer finalizer e then f else rest

-- `AddFinalizer`
unfoldable pub add_finalizer : List String → String → List String
unfolding add_loop
add_finalizer f finalizer = add_loop f finalizer f

-- `RemoveFinalizer`
unfoldable pub remove_finalizer : List String → String → Outcome (List String)
remove_finalizer f finalizer = range_delete (is_finalizer finalizer) f

module _ {Fault : Type 0} (update : List String → Option Fault) (is_not_found : Fault → Bool)
    (wrap : Fault → Fault) where
  -- `errors.Wrap`, of no error none.
  abbrev wrapped : Option Fault → Option Fault
  wrapped none = none
  wrapped (some e) = some (wrap e)

  abbrev ignore_not_found : Option Fault → Option Fault
  ignore_not_found none = none
  ignore_not_found (some e) = if is_not_found e then none else some e

  -- `APIFinalizer.AddFinalizer`: the finalizers it leaves, and its error.
  unfoldable pub api_add_finalizer : List String → String → List String × Option Fault
  unfolding finalizer_exists add_finalizer
  api_add_finalizer f finalizer =
      if finalizer_exists f finalizer
      then (f, none)
      else (add_finalizer f finalizer, wrapped (update (add_finalizer f finalizer)))

  -- `APIFinalizer.RemoveFinalizer`
  unfoldable pub api_remove_finalizer : List String → String → Outcome (List String × Option Fault)
  unfolding finalizer_exists remove_finalizer
  api_remove_finalizer f finalizer =
      if not (finalizer_exists f finalizer)
      then done (f, none)
      else and_then (remove_finalizer f finalizer)
          (λ g. done (g, wrapped (ignore_not_found (update g))))
