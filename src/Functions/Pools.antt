-- ===== src/Functions/Pools.antt =====
-- The statuses of the pools of a DataNetwork are found again by the names of their claims
-- (krm-functions/dnn-fn/fn/function.go).
use Prim.Native.Char.{Char, code}
use Prim.Native.String.{[] as empty, ◌∷◌ as ◌⊳◌}
use text.Mathlib.TextLemmas.{nil-append, cons-append}
use nephio.Base.{String, ◌<>◌, ◌≡◌, refl, ap, ◌∙◌, true, some, List, [], ◌∷◌, nat_beq, arith}
use nephio.Functions.{World, WorkloadCluster}
use nephio.Functions.DataNetwork.{
  cut_prefix, Pool, Network, PoolStatus, Types, claim_prefix, claim_of, collect_named, collect,
}

same_code : (c : Char) → nat_beq (code c) (code c) ≡ true
same_code c = ground arith

cut_prefix-append : (prefix s : String) → cut_prefix (prefix <> s) prefix ≡ some s
unfolding cut_prefix
cut_prefix-append empty s = rw nil-append refl
cut_prefix-append (c ⊳ prefix) s = rw (cons-append, same_code c) (cut_prefix-append prefix s)

module _ (w : World) (t : Types w) where
  -- `claims` are those of the pools, in their order: of the kind of pools, with the names that
  -- `desiredOwnedResourceList` gives them for the object `o`.
  abbrev pub AreClaimsOf :
      WorkloadCluster → w.library.Object → Network → List Pool → List t.scheme.Typed → Type 0
  AreClaimsOf cluster o dnn [] [] = Unit
  AreClaimsOf cluster o dnn (pool ∷ pools) (claim ∷ claims) =
      (t.is_pool_claim claim ≡ true)
      × (t.claim_name claim ≡ (claim_of w t cluster o dnn pool).name)
      × AreClaimsOf cluster o dnn pools claims
  AreClaimsOf cluster o dnn _ _ = ⊥

  -- Each pool's name, with the status of its claim.
  abbrev pub statuses : List Pool → List t.scheme.Typed → List (PoolStatus t.Status)
  statuses (pool ∷ pools) (claim ∷ claims) =
      record { name = pool.name; ip_claim = t.claim_status claim } ∷ statuses pools claims
  statuses _ _ = []

  -- For a data network whose annotations are those of its object, from the claims that were made for
  -- its pools the status collects each pool's name, in their order, with the status of its
  -- claim, and no claim is warned of.
  pub collect-claim_of :
      (cluster : WorkloadCluster) (o : w.library.Object) (dnn : Network) (pools : List Pool)
      (claims : List t.scheme.Typed)
      → w.annotations o ≡ dnn.annotations
      → AreClaimsOf cluster o dnn pools claims
      → collect w t dnn claims ≡ record { pools = statuses pools claims; suspicious = [] }
  unfolding collect collect_named claim_of
  collect-claim_of cluster o dnn [] [] same h = refl
  collect-claim_of cluster o dnn [] (claim ∷ claims) same h = absurd h
  collect-claim_of cluster o dnn (pool ∷ pools) [] same h = absurd h
  collect-claim_of cluster o dnn (pool ∷ pools) (claim ∷ claims) same h =
      let rest = collect-claim_of cluster o dnn pools claims same h.2 in
      let named : t.claim_name claim ≡ claim_prefix w t dnn.annotations dnn.name <> pool.name =
        h.1 ∙ ap (λ a. claim_prefix w t a dnn.name <> pool.name) same in
      let cut : cut_prefix (t.claim_name claim) (claim_prefix w t dnn.annotations dnn.name)
          ≡ some pool.name =
        ap (λ n. cut_prefix n (claim_prefix w t dnn.annotations dnn.name)) named
        ∙ cut_prefix-append (claim_prefix w t dnn.annotations dnn.name) pool.name in
      rw (h.0, cut, rest) refl
