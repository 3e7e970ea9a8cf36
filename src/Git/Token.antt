-- ===== src/Git/Token.antt =====
-- controllers/pkg/reconcilers/token/reconciler.go: access tokens of the git server, each with a
-- secret that holds it.
use nephio.Base.{
  String, Bool, true, false, Option, none, some, List, [], ◌∷◌, Result, ok, err, Outcome, any, ◌==◌,
  string_eq,
}
use nephio.Base.Dict.{Dict}
use nephio.Git.{Resource, World, Step, Reconciled, reconcile_with}

pub record TokenSpec : Type 0 where
  pub token_name : String
  pub api_version : String
  pub kind : String
  pub uid : String
  pub annotations : Dict String String

-- `corev1.Secret`, with its only owner; its type is that of basic authentication.
pub record Secret : Type 0 where
  pub namespace : String
  pub name : String
  pub annotations : Dict String String
  pub owner_api_version : String
  pub owner_kind : String
  pub owner_name : String
  pub owner_uid : String
  pub contents : Dict String String

pub data RemoteCall : Type 0 where
  token_created token_deleted : String → RemoteCall
  secret_applied : Secret → RemoteCall

abbrev pub finalizer : String
finalizer = "infra.nephio.org/finalizer"

-- The git client's answers, and the application of a secret to the cluster.
pub record Server (Fault : Type 0) : Type 0 where
  pub list_access_tokens : Result Fault (List String)
  pub user_name : Result Fault String
  pub create_access_token : String → Result Fault String
  pub delete_access_token : String → Option Fault
  pub apply : Secret → Option Fault

module _ {Status : Type 0} (w : World TokenSpec Status) where
  open w use {Fault}

  abbrev pub Token : Type 0
  Token = Resource TokenSpec Status

  -- `cr.SetConditions(infrav1alpha1.Failed(err.Error())); return err`
  abbrev pub failed : Token → Fault → List RemoteCall → Step Status Fault RemoteCall
  failed cr e calls = record {
    status = w.set_failed cr.status (w.text e);
    error = some e;
    calls = calls;
  }

  abbrev pub succeeded : Token → List RemoteCall → Step Status Fault RemoteCall
  succeeded cr calls = record { status = cr.status; error = none; calls = calls }

  -- The secret of a token.
  unfoldable pub secret_of : Token → String → String → Secret
  secret_of cr user token = record {
    namespace = cr.namespace;
    name = cr.name;
    annotations = cr.spec.annotations;
    owner_api_version = cr.spec.api_version;
    owner_kind = cr.spec.kind;
    owner_name = cr.name;
    owner_uid = cr.spec.uid;
    contents = ("username", user) ∷ ("password", token) ∷ ("token", token) ∷ [];
  }

  -- The loop that sets `tokenFound`.
  abbrev pub token_found : Token → List String → Bool
  token_found cr tokens = any (λ name. name == cr.spec.token_name) tokens

module _ {Status : Type 0} (w : World TokenSpec Status) (s : Server w.Fault) where
  open w use {Fault}

  -- From the error of the application of the secret.
  unfoldable pub after_apply : Token w → Secret → Option Fault → Step Status Fault RemoteCall
  after_apply cr secret (some e) =
      failed w cr e (token_created cr.spec.token_name ∷ secret_applied secret ∷ [])
  after_apply cr secret none =
      succeeded w cr (token_created cr.spec.token_name ∷ secret_applied secret ∷ [])

  unfoldable pub with_token : Token w → String → Result Fault String → Step Status Fault RemoteCall
  unfolding after_apply secret_of
  with_token cr user (err e) = failed w cr e (token_created cr.spec.token_name ∷ [])
  with_token cr user (ok token) =
      after_apply cr (secret_of w cr user token) (s.apply (secret_of w cr user token))

  unfoldable pub with_user : Token w → Result Fault String → Step Status Fault RemoteCall
  unfolding with_token
  with_user cr (err e) = failed w cr e []
  with_user cr (ok user) = with_token cr user (s.create_access_token cr.spec.token_name)

  -- From `tokenFound`.
  unfoldable pub unless_found : Token w → Bool → Step Status Fault RemoteCall
  unfolding with_user
  unless_found cr true = succeeded w cr []
  unless_found cr false = with_user cr s.user_name

  unfoldable pub with_tokens : Token w → Result Fault (List String) → Step Status Fault RemoteCall
  unfolding unless_found
  with_tokens cr (err e) = failed w cr e []
  with_tokens cr (ok tokens) = unless_found cr (token_found w cr tokens)

  -- `createToken`
  unfoldable pub create_token : Token w → Step Status Fault RemoteCall
  unfolding with_tokens
  create_token cr = with_tokens cr s.list_access_tokens

  -- `deleteToken`
  unfoldable pub delete_token : Token w → Step Status Fault RemoteCall
  delete_token cr =
      let calls : List RemoteCall = token_deleted cr.spec.token_name ∷ [] in
      elim (s.delete_access_token cr.spec.token_name) [
        | some e ↦ failed w cr e calls
        | none ↦ succeeded w cr calls
      ]

  -- `Reconcile`
  unfoldable pub reconcile :
      String → String → Outcome (Reconciled TokenSpec Status Fault RemoteCall)
  unfolding reconcile_with create_token delete_token
  reconcile namespace name =
      reconcile_with w finalizer create_token delete_token true namespace name
