-- ===== src/Functions/DataNetwork.antt =====
-- krm-functions/dnn-fn/fn/function.go: the claims of a DataNetwork, one for each of its pools, and its
-- status.
use Prim.Native.Char.{code}
use Prim.Native.String.{[] as empty, ◌∷◌ as ◌⊳◌}
use nephio.Base.{
  ℕ, String, ◌<>◌, Bool, Option, none, some, List, [], ◌∷◌, Result, ok, err, Outcome, done,
  and_then, ◌>>=◌, nat_beq, if◌then◌else◌,
}
use nephio.Base.Dict.{Dict}
use nephio.Ref.{ObjectReference}
use nephio.Objects.{Scheme, filter_by_type}
use nephio.Formatting.Update.{set_status}
use nephio.Functions.{World, WorkloadCluster, get_annotations, get_for_name}

-- `strings.CutPrefix`
unfoldable pub cut_prefix : String → String → Option String
cut_prefix s empty = some s
cut_prefix empty (p ⊳ prefix) = none
cut_prefix (c ⊳ s) (p ⊳ prefix) =
    let rest = cut_prefix s prefix in if nat_beq (code c) (code p) then rest else none

pub record Pool : Type 0 where
  pub name : String
  pub is_ipv6 : Bool
  pub prefix_length : ℕ

-- What the function reads of a DataNetwork.
pub record Network : Type 0 where
  pub name : String
  pub annotations : Dict String String
  pub network_instance : ObjectReference
  pub pools : List Pool

-- The IPClaim of a pool; its kind is that of pools, and its prefix is to be created.
pub record IpClaim : Type 0 where
  pub name : String
  pub annotations : Dict String String
  pub network_instance : ObjectReference
  pub prefix_length : ℕ
  pub labels : Dict String String

pub record PoolStatus (Status : Type 0) : Type 0 where
  pub name : String
  pub ip_claim : Status

-- The decoding of objects and the names of the API's packages; `scheme` is that of IPClaims.
pub record Types (w : World) : Type 1 where
  pub scheme : Scheme
  pub DataNetwork : Type 0
  pub Status : Type 0
  pub network : DataNetwork → Network
  pub decode : w.library.Object → Result w.library.Fault DataNetwork
  pub new_from_typed_object : IpClaim → Result w.library.Fault w.library.Object
  pub cluster_name_key : String
  pub address_family_key : String
  pub family_text : Bool → String
  pub is_pool_claim : scheme.Typed → Bool
  pub claim_name : scheme.Typed → String
  pub claim_status : scheme.Typed → Status
  pub scheme_fault : scheme.Fault → w.library.Fault
  -- `dnn.Status.Pools = pools`, and the network as a value of the SDK
  pub with_pools : DataNetwork → List (PoolStatus Status) → DataNetwork
  pub value : DataNetwork → w.library.Value

module _ (w : World) (t : Types w) where
  open w.library use {Object, Fault}

  -- The prefix of the names of the claims of a data network.
  unfoldable pub claim_prefix : Dict String String → String → String
  unfolding get_for_name
  claim_prefix annotations name = get_for_name annotations <> "-" <> name <> "-"

  unfoldable pub claim_of : WorkloadCluster → Object → Network → Pool → IpClaim
  unfolding claim_prefix get_annotations
  claim_of cluster o dnn pool = record {
    name = claim_prefix (w.annotations o) dnn.name <> pool.name;
    annotations = get_annotations w dnn.annotations;
    network_instance = dnn.network_instance;
    prefix_length = pool.prefix_length;
    labels =
        (t.cluster_name_key, cluster.cluster_name)
        ∷ (t.address_family_key, t.family_text pool.is_ipv6)
        ∷ [];
  }

  -- The loop over the pools.
  unfoldable pub make_claims :
      WorkloadCluster → Object → Network → List Pool → Result Fault (List Object)
  unfolding claim_of
  make_claims cluster o dnn [] = ok []
  make_claims cluster o dnn (pool ∷ pools) =
      let rest = make_claims cluster o dnn pools in
      t.new_from_typed_object (claim_of cluster o dnn pool)
      >>= (λ made. rest >>= (λ others. ok (made ∷ others)))

  -- `desiredOwnedResourceList`
  unfoldable pub desired_owned_resource_list :
      Option WorkloadCluster → Object → Result Fault (List Object)
  unfolding make_claims
  desired_owned_resource_list none o =
      err (w.library.errorf "workload cluster is missing from the kpt package")
  desired_owned_resource_list (some cluster) o =
      t.decode o >>= (λ dnn. make_claims cluster o (t.network dnn) (t.network dnn).pools)

  -- The statuses of the pools, and the names of the claims that are warned of.
  pub record Collected : Type 0 where
    pub pools : List (PoolStatus t.Status)
    pub suspicious : List String

  unfoldable pub collect_named : t.scheme.Typed → Option String → Collected → Collected
  collect_named claim none rest = record rest { suspicious = t.claim_name claim ∷ rest.suspicious }
  collect_named claim (some pool_name) rest = record rest {
    pools = record { name = pool_name; ip_claim = t.claim_status claim } ∷ rest.pools;
  }

  -- The loop over the claims.
  unfoldable pub collect : Network → List t.scheme.Typed → Collected
  unfolding collect_named cut_prefix claim_prefix
  collect dnn [] = record { pools = []; suspicious = [] }
  collect dnn (claim ∷ claims) =
      let rest = collect dnn claims in
      if t.is_pool_claim claim
      then collect_named claim
          (cut_prefix (t.claim_name claim) (claim_prefix dnn.annotations dnn.name)) rest
      else rest

  -- The answer, and the names that are warned of.
  abbrev pub Answer : Type 0
  Answer = (List Object × Option Fault) × List String

  unfoldable pub store_pools : Object → t.DataNetwork → Collected → Outcome Answer
  store_pools o dnn c =
      and_then (set_status w.library o (t.value (t.with_pools dnn c.pools)))
        (λ (p, e). done ((p ∷ [], e), c.suspicious))

  unfoldable pub with_filtered :
      Object
      → t.DataNetwork
      → Result t.scheme.Fault (List t.scheme.Typed × List t.scheme.Object)
      → Outcome Answer
  unfolding store_pools collect
  with_filtered o dnn (err e) = done (([], some (t.scheme_fault e)), [])
  with_filtered o dnn (ok (claims, rest)) = store_pools o dnn (collect (t.network dnn) claims)

  unfoldable pub update_of :
      Object → List t.scheme.Object → Result Fault t.DataNetwork → Outcome Answer
  unfolding with_filtered filter_by_type
  update_of o owned (err e) = done (([], some e), [])
  update_of o owned (ok dnn) = and_then (filter_by_type t.scheme owned) (with_filtered o dnn)

  -- `updateDnnResource`
  unfoldable pub update_dnn_resource : Object → List t.scheme.Object → Outcome Answer
  unfolding update_of
  update_dnn_resource o owned = update_of o owned (t.decode o)
