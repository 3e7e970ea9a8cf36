-- ===== src/Git/Calls.antt =====
-- What the reconcilers of tokens and repositories call, by the kinds of calls
-- (controllers/pkg/reconcilers/token, controllers/pkg/reconcilers/repository).
use nephio.Base.{Bool, true, false, Option, none, some, List, [], ◌∷◌, string_eq}
use nephio.Git.{Call, updated, status_updated, remote}

abbrev pub is_none {ℓ} : {E : Type ℓ} → Option E → Bool
is_none none = true
is_none (some e) = false

module _ {Spec Status Remote : Type 0} where
  abbrev pub is_remote : Call Spec Status Remote → Bool
  is_remote (updated cr) = false
  is_remote (status_updated s) = false
  is_remote (remote r) = true

  abbrev pub is_update : Call Spec Status Remote → Bool
  is_update (updated cr) = true
  is_update (status_updated s) = false
  is_update (remote r) = false

  abbrev pub remote_calls : List (Call Spec Status Remote) → List Remote
  remote_calls [] = []
  remote_calls (remote r ∷ cs) = r ∷ remote_calls cs
  remote_calls (_ ∷ cs) = remote_calls cs
