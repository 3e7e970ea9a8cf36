-- ===== src/Bootstrap/Packages/Install.antt =====
-- The loop that installs the resources of a package
-- (controllers/pkg/reconcilers/bootstrap-packages/reconciler.go).
use nephio.Base.{
  ◌≡◌, ◌≢◌, ◌⊎◌, refl, ap, Option, none, some, List, [], ◌∷◌, ◌++◌, map, inl, inr, string_eq,
}
use nephio.Bootstrap.{World}
use nephio.Bootstrap.Packages.{Packages, Reconciled, install, after_apply}

module _ (w : World) (k : Packages w) where
  open w use {Fault, Data, Client}
  open k use {Resource}

  abbrev pub to : Client → List Resource → List (Client × Resource)
  to c rs = map (λ r. (c, r)) rs

  abbrev pub AllApplied : Client → List Resource → Type 0
  AllApplied c [] = Unit
  AllApplied c (r ∷ rs) = (k.apply c r ≡ none) × AllApplied c rs

  -- Every resource is applied with success, in order, or those up to the first that fails are.
  abbrev pub IsInstalling : Client → List Resource → Reconciled w k → Type 0
  IsInstalling c rs r =
      ((r.error ≡ none) × (r.requeue_after ≡ 0) × (r.calls ≡ to c rs) × AllApplied c rs)
      ⊎ ((before : List Resource) × (failed : Resource) × (behind : List Resource) × (e : Fault)
          × (rs ≡ before ++ failed ∷ behind)
          × AllApplied c before
          × (k.apply c failed ≡ some e)
          × (r.error ≢ none)
          × (r.calls ≡ to c (before ++ failed ∷ [])))

  pub after_apply-IsInstalling :
      (c : Client) (r : Resource) (rs : List Resource) (o : Option Fault) (rest : Reconciled w k)
      → k.apply c r ≡ o
      → IsInstalling c rs rest
      → IsInstalling c (r ∷ rs) (after_apply w k c r o rest)
  after_apply-IsInstalling c r rs (some e) rest h i =
      inr ([], r, rs, e, refl, tt, h, (λ k'. cc), refl)
  after_apply-IsInstalling c r rs none rest h (inl (fine, once, calls, all)) =
      inl (fine, once, ap (λ xs. (c, r) ∷ xs) calls, (h, all))
  after_apply-IsInstalling c r rs none rest h
        (inr (before, failed, behind, e, split, all, f, bad, calls)) =
      inr (
        r ∷ before,
        failed,
        behind,
        e,
        ap (λ xs. r ∷ xs) split,
        (h, all),
        f,
        bad,
        ap (λ xs. (c, r) ∷ xs) calls,
      )

  pub install-IsInstalling :
      (c : Client) (rs : List Resource) → IsInstalling c rs (install w k c rs)
  unfolding install
  install-IsInstalling c [] = inl (refl, refl, refl, tt)
  install-IsInstalling c (r ∷ rs) =
      after_apply-IsInstalling c r rs (k.apply c r) (install w k c rs) refl
        (install-IsInstalling c rs)
