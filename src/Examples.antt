-- ===== src/Examples.antt =====
-- Concrete instances of what the models take as parameters, and the data of the runs under Examples.
mod Conditions
mod Inventories
mod Controllers
mod Nodes
mod Servers
mod Packages
mod Secrets
use nephio.Base.{
  String, ◌<>◌, ℕ, ◌≡◌, refl, Bool, true, false, Option, none, some, List, [], ◌∷◌, Result, ok, err,
  ◌==◌, string_eq, if◌then◌else◌,
}
use nephio.Base.Dict.{Dict, lookup, insert}
use nephio.Ref.{ObjectReference, Error, external}
use nephio.ConditionType.{Condition, condition_true, condition_false}
use nephio.Kptfile.Store.{KptfileStore, IsLawful}
use nephio.Api.{Api}
use nephio.Sdk.Safety.Rules.{IsReliable}

-- A Kptfile that always takes what is written.
record File : Type 0 where
  conditions : List Condition
  gates : List String

abbrev store : KptfileStore
store = record {
  File = File;
  conditions = λ f. some f.conditions;
  gates = λ f. some f.gates;
  put_conditions = λ f cs. (record f { conditions = cs }, none);
  put_gates = λ f gs. (record f { gates = gs }, none);
}

store-IsLawful : IsLawful store
store-IsLawful = record {
  conditions-put_conditions = λ f cs h. refl;
  gates-put_conditions = λ f cs h. refl;
  gates-put_gates = λ f gs h k. refl;
  conditions-put_gates = λ f gs h. refl;
}

-- An object with its annotations and its spec.
record Object : Type 0 where
  ref : ObjectReference
  annotations : Dict String String
  spec : Option String

abbrev api : Api
api = record {
  Object = Object;
  api_version = λ o. o.ref.api_version;
  kind = λ o. o.ref.kind;
  name = λ o. o.ref.name;
  annotation = λ o k. lookup k o.annotations;
  set_annotation = λ o k v. (record o { annotations = insert k v o.annotations }, none);
  Spec = String;
  nested_spec = λ o. ok o.spec;
  same_spec = λ s t. s == t;
  is_gvk = λ r o. r.kind == o.ref.kind;
  upsert = λ os o. (o ∷ os, none);
  store = store;
  root_kptfile = λ os. none;
  group_version = λ s. some s;
  ref_less = λ r s. false;
  error_text = λ e. "error";
}

api-IsReliable : IsReliable api.store
api-IsReliable = record {
  lawful = store-IsLawful;
  put_conditions_ok = λ f cs. refl;
  put_gates_ok = λ f gs. refl;
}

abbrev ready : Condition
ready = record { type = "Ready"; status = condition_true; reason = ""; message = "" }

abbrev synced : Condition
synced = record { type = "Synced"; status = condition_false; reason = "Wait"; message = "later" }

abbrev file : File
file = record { conditions = ready ∷ synced ∷ []; gates = "Ready" ∷ [] }

abbrev for_ref : ObjectReference
for_ref = record { api_version = "nf.nephio.org/v1"; kind = "Deployment"; name = "upf" }

abbrev own_ref : ObjectReference
own_ref = record { api_version = "req.nephio.org/v1"; kind = "Interface"; name = "n3" }

abbrev object_of : ObjectReference → String → Object
object_of r spec = record { ref = r; annotations = []; spec = some spec }
