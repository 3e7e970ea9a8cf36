-- ===== src/Functions.antt =====
-- What the KRM functions krm-functions/interface-fn and krm-functions/dnn-fn share: the workload
-- cluster that they watch, and the names and annotations of the children that they make. The API
-- types' decoding and validation are parameters.
pub mod Interface
pub mod DataNetwork
pub mod Deployment
pub mod Laws
pub mod Asked
pub mod Children
pub mod Pools
use nephio.Base.{
  String, ◌<>◌, Bool, true, false, Option, none, some, List, [], ◌∷◌, Result, ok, err, ◌==◌,
  string_eq, if◌then◌else◌,
}
use nephio.Base.Dict.{Dict, lookup, insert}
use nephio.ConditionType.Split.{split}
use nephio.Formatting.Update.{Library}

-- `WorkloadCluster`, of its spec what the functions read.
pub record WorkloadCluster : Type 0 where
  pub cluster_name : String
  pub cnis : List String

pub record World : Type 1 where
  -- The YAML library and the SDK's objects.
  pub library : Library
  pub object_name : library.Object → String
  pub annotations : library.Object → Dict String String
  -- `ko.KubeObjectToStruct[infrav1alpha1.WorkloadCluster]`, with the cluster that it leaves beside
  -- an error, and `Spec.Validate`
  pub decode_cluster : library.Object → WorkloadCluster × Option library.Fault
  pub validate_cluster : WorkloadCluster → Option library.Fault
  -- `filters.LocalConfigAnnotation`
  pub local_config : String

abbrev pub specializer_owner : String
specializer_owner = "specializer.nephio.org/owner"

abbrev pub specializer_for : String
specializer_for = "specializer.nephio.org/for"

-- `annotations[key]`, which is empty where the key is missing.
abbrev pub or_empty : Option String → String
or_empty none = ""
or_empty (some value) = value

abbrev pub or_else : Option String → String → String
or_else none other = other
or_else (some value) other = value

-- `annotations[SpecializerFor]`, or else `annotations[SpecializerOwner]`.
unfoldable pub root_owner : Dict String String → String
unfolding lookup
root_owner annotations =
    or_else (lookup specializer_for annotations) (or_empty (lookup specializer_owner annotations))

abbrev pub last : List String → String
last [] = ""
last (part ∷ []) = part
last (part ∷ next ∷ parts) = last (next ∷ parts)

-- `getForName`
unfoldable pub get_for_name : Dict String String → String
unfolding root_owner split
get_for_name annotations = last (split b'.' (root_owner annotations))

module _ (w : World) where
  open w.library use {Object, Fault}

  unfoldable pub after_decode :
      WorkloadCluster × Option Fault → Option WorkloadCluster × Option Fault
  after_decode (cluster, some e) = (some cluster, some e)
  after_decode (cluster, none) = (some cluster, w.validate_cluster cluster)

  -- `WorkloadClusterCallbackFn`: the cluster that the function keeps, and the error.
  unfoldable pub workload_cluster_callback_fn :
      Option WorkloadCluster → Object → Option WorkloadCluster × Option Fault
  unfolding after_decode
  workload_cluster_callback_fn (some cluster) o = (
    some cluster,
    some (w.library.errorf "multiple WorkloadCluster objects found in the kpt package"),
  )
  workload_cluster_callback_fn none o = after_decode (w.decode_cluster o)

  -- The loop of `getAnnotations`.
  unfoldable pub kept : Dict String String → Dict String String → Dict String String
  unfolding insert
  kept a [] = a
  kept a ((k, v) ∷ rest) = if k == w.local_config then kept (insert k v a) rest else kept a rest

  -- `getAnnotations`
  unfoldable pub get_annotations : Dict String String → Dict String String
  unfolding kept root_owner
  get_annotations annotations =
      insert specializer_for (root_owner annotations) (kept [] annotations)
