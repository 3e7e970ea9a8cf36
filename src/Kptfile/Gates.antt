-- ===== src/Kptfile/Gates.antt =====
-- The readiness gates of a Kptfile after `SetReadinessGates`.
use nephio.Base.{
  String, ◌≡◌, refl, Bool, ◌||◌, none, List, [], ◌∷◌, ◌++◌, ◌==◌, string_eq, any, is_some, true,
  arith,
}
use nephio.Kptfile.{add_gates, has_readiness_gate, set_readiness_gates, get_conditions}
use nephio.Kptfile.Store.{KptfileStore, IsLawful}

any-append {ℓ} :
    {A : Type ℓ} (p : A → Bool) (xs ys : List A) → any p (xs ++ ys) ≡ (any p xs || any p ys)
any-append p [] ys = refl
any-append p (x ∷ xs) ys = ground (arith, any-append p xs ys)

any-add_gates :
    (ct : String) (cts gates : List String)
    → any (λ gate. gate == ct) (add_gates gates cts)
      ≡ (any (λ gate. gate == ct) gates || any (λ gate. gate == ct) cts)
unfolding add_gates
any-add_gates ct [] gates = ground arith
any-add_gates ct (j ∷ cts) gates = ground (
  arith,
  any-add_gates ct cts gates,
  any-add_gates ct cts (gates ++ j ∷ []),
  any-append (λ gate. gate == ct) gates (j ∷ []),
)

module _ (S : KptfileStore) (L : IsLawful S) where
  -- After a write that succeeds, the conditions are as before, and, where `info` could be decoded
  -- before, the gates are those from before and those written.
  pub has_readiness_gate-set_readiness_gates :
      (f : S.File) (cts : List String)
      → (set_readiness_gates S f cts).1 ≡ none
      → (is_some (S.gates f) ≡ true
          → (ct : String)
          → has_readiness_gate S (set_readiness_gates S f cts).0 ct
            ≡ (has_readiness_gate S f ct || any (λ gate. gate == ct) cts))
        × (get_conditions S (set_readiness_gates S f cts).0 ≡ get_conditions S f)
  unfolding set_readiness_gates has_readiness_gate get_conditions
  has_readiness_gate-set_readiness_gates f cts h = (
    λ readable ct. rw (L.gates-put_gates _ _ h readable) (any-add_gates ct cts _),
    rw (L.conditions-put_gates _ _ h),
  )
