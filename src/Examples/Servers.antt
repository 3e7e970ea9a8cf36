-- ===== src/Examples/Servers.antt =====
-- Runs of the reconcilers of tokens and repositories.
use nephio.Base.{
  String, ◌<>◌, ◌≡◌, refl, true, false, not, none, some, List, [], ◌∷◌, ◌++◌, ok, err, done,
  string_eq, if◌then◌else◌, any, ◌==◌, arith,
}
use nephio.Finalizer.{finalizer_exists, is_finalizer}
use nephio.Git.{Resource, World, Reconciled, process, updated, status_updated, remotes}
use nephio.Git.Calls.{is_none, remote_calls}
use nephio.Git.Token
use nephio.Git.Token.{TokenSpec, RemoteCall, create_token, delete_token, finalizer}
use nephio.Git.Repository
use nephio.Git.Repository.{RepositorySpec, RepositoryStatus, upsert_repo}
use nephio.Git.Laws.{is_held, held, process_creation}
use nephio.Git.Deletion.{process_deletion}
use nephio.Git.Made.{Called, create_token_lem}
use nephio.Git.Lost.{is_created, AllFail, NoError, later_calls, create_token-lost_secret}
use nephio.Git.Upserted.{MadeRepository, upsert_repo_lem}

abbrev spec : TokenSpec
spec = record {
  token_name = "edge-access";
  api_version = "infra.nephio.org/v1alpha1";
  kind = "Token";
  uid = "7";
  annotations = [];
}

abbrev token : Resource TokenSpec String
token = record {
  namespace = "default";
  name = "edge";
  deleted = false;
  deletion_policy = "delete";
  finalizers = [];
  spec = spec;
  status = "";
}

abbrev leaving : Resource TokenSpec String
leaving = record token { deleted = true; finalizers = "infra.nephio.org/finalizer" ∷ [] }

abbrev world : World TokenSpec String
world = record {
  Fault = String;
  text = λ e. e;
  is_not_found = λ e. false;
  errorf = λ e. e;
  wrap = λ e m. m <> ": " <> e;
  deletion_delete = "delete";
  set_failed = λ s e. e;
  set_ready = λ s. "Ready";
  is_initialized = true;
  get = λ ns n. ok token;
  update = λ r. none;
  update_status = λ r. none;
}

abbrev server : Token.Server String
server = record {
  list_access_tokens = ok [];
  user_name = ok "nephio";
  create_access_token = λ n. ok "secret";
  delete_access_token = λ n. none;
  apply = λ s. none;
}

creation_example :
    (r : Reconciled TokenSpec String String RemoteCall) × (process world finalizer
        (create_token world server)
        (delete_token world server)
        token
      ≡ done r)
    × (is_held world finalizer (create_token world server) (delete_token world server) token ≡ false
        → (remote_calls r.calls ≡ []) × (r.requeue ≡ true))
    × (is_held world finalizer (create_token world server) (delete_token world server) token ≡ true
        → (finalizer_exists
              (held world finalizer
                (create_token world server)
                (delete_token world server)
                token).finalizers
              finalizer
            ≡ true)
          × (r.calls
              ≡ updated (record token { finalizers = "infra.nephio.org/finalizer" ∷ [] })
                  ∷ remotes
                      (create_token world server (
                        held world finalizer
                          (create_token world server)
                          (delete_token world server)
                          token)).calls
                ++ status_updated "Ready" ∷ [])
          × (r.requeue
              ≡ not (
                  is_none
                    (create_token world server (
                      held world finalizer
                        (create_token world server)
                        (delete_token world server)
                        token)).error)))
unfolding finalizer_exists create_token nephio.Finalizer.add_finalizer
creation_example =
    process_creation world finalizer (create_token world server) (delete_token world server) token
      refl refl

deletion_example :
    (g : List String) × (process world finalizer
        (create_token world server)
        (delete_token world server)
        leaving
      ≡ done (record {
        requeue = false;
        error = none;
        calls =
            remotes (Token.token_deleted "edge-access" ∷ [])
            ++ updated (record leaving { finalizers = g }) ∷ [];
      }))
    × ((y : String)
        → finalizer_exists g y
          ≡ (if is_finalizer finalizer y then false else finalizer_exists leaving.finalizers y))
unfolding delete_token finalizer_exists string_eq
deletion_example =
    (process_deletion world finalizer (create_token world server) (delete_token world server)
        leaving refl refl).1
      refl refl ((λ e. tt), tt) (λ sent. refl)

create_token_example : Called world server token (create_token world server token).calls
unfolding create_token
create_token_example = (create_token_lem world server token).1 refl

abbrev later_server : Token.Server String
later_server = record server { list_access_tokens = ok ("edge-access" ∷ []) }

abbrev failing_server : Token.Server String
failing_server = record server { apply = λ s. some "timeout" }

lost_example :
    AllFail world failing_server (create_token world failing_server token).calls
    × NoError world (later_server ∷ later_server ∷ []) token
    × (later_calls world (later_server ∷ later_server ∷ []) token ≡ [])
unfolding create_token string_eq
lost_example =
    let listed : (n : String)
        → any (is_created n) (create_token world failing_server token).calls ≡ true
        → (names : List String) × (later_server.list_access_tokens ≡ ok names)
          × (any (λ name. name == n) names ≡ true) =
      λ n h. ("edge-access" ∷ [], refl, ground arith) in
    create_token-lost_secret world failing_server token "timeout" (later_server ∷ later_server ∷ [])
      refl refl (listed, (listed, tt))

abbrev repository_spec : RepositorySpec
repository_spec = record {
  description = some "edge packages";
  private = none;
  issue_labels = none;
  gitignores = none;
  license = none;
  readme = none;
  default_branch = none;
  trust_model = none;
}

abbrev repository : Resource RepositorySpec (RepositoryStatus String)
repository = record {
  namespace = "default";
  name = "edge";
  deleted = false;
  deletion_policy = "delete";
  finalizers = [];
  spec = repository_spec;
  status = record { conditions = ""; url = none };
}

abbrev repository_world : World RepositorySpec (RepositoryStatus String)
repository_world = record {
  Fault = String;
  text = λ e. e;
  is_not_found = λ e. false;
  errorf = λ e. e;
  wrap = λ e m. m <> ": " <> e;
  deletion_delete = "delete";
  set_failed = λ s e. record s { conditions = e };
  set_ready = λ s. record s { conditions = "Ready" };
  is_initialized = true;
  get = λ ns n. ok repository;
  update = λ r. none;
  update_status = λ r. none;
}

abbrev repository_server : Repository.Server String
repository_server = record {
  user_name = ok "nephio";
  get_repo = λ u n. err "not found";
  create_repo = λ c. ok "http://gitea/nephio/edge.git";
  edit_repo = λ u n o. err "timeout";
  delete_repo = λ u n. none;
}

upsert_example :
    MadeRepository repository_world repository_server repository
      (upsert_repo repository_world repository_server repository)
unfolding upsert_repo
upsert_example = (upsert_repo_lem repository_world repository_server repository).1 refl
