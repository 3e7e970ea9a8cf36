-- ===== src/Git/Repository.antt =====
-- controllers/pkg/reconcilers/repository/reconciler.go: repositories of the git server.
use nephio.Base.{
  String, Bool, true, false, Option, none, some, List, [], ◌∷◌, Result, ok, err, Outcome,
}
use nephio.Git.{Resource, World, Step, Reconciled, reconcile_with}
use nephio.Git.Token.{finalizer}

pub record RepositorySpec : Type 0 where
  pub description : Option String
  pub private : Option Bool
  pub issue_labels : Option String
  pub gitignores : Option String
  pub license : Option String
  pub readme : Option String
  pub default_branch : Option String
  pub trust_model : Option String

-- `gitea.CreateRepoOption` and `gitea.EditRepoOption`
pub record CreateRepoOption : Type 0 where
  pub name : String
  pub description : String
  pub private : Bool
  pub issue_labels : String
  pub gitignores : String
  pub license : String
  pub readme : String
  pub default_branch : String
  pub trust_model : String
  pub auto_init : Bool

pub record EditRepoOption : Type 0 where
  pub name : Option String
  pub description : Option String
  pub private : Option Bool

-- The status: the conditions, and the clone URL.
pub record RepositoryStatus (Conditions : Type 0) : Type 0 where
  pub conditions : Conditions
  pub url : Option String

pub data RemoteCall : Type 0 where
  repo_created : CreateRepoOption → RemoteCall
  repo_edited : String → String → EditRepoOption → RemoteCall
  repo_deleted : String → String → RemoteCall

-- The git client's answers; a repository is answered by its clone URL.
pub record Server (Fault : Type 0) : Type 0 where
  pub user_name : Result Fault String
  pub get_repo : String → String → Result Fault String
  pub create_repo : CreateRepoOption → Result Fault String
  pub edit_repo : String → String → EditRepoOption → Result Fault String
  pub delete_repo : String → String → Option Fault

module _ {Conditions : Type 0} (w : World RepositorySpec (RepositoryStatus Conditions))
    (s : Server w.Fault) where
  open w use {Fault}

  abbrev pub Repository : Type 0
  Repository = Resource RepositorySpec (RepositoryStatus Conditions)

  abbrev pub Upserted : Type 0
  Upserted = Step (RepositoryStatus Conditions) Fault RemoteCall

  -- `cr.SetConditions(infrav1alpha1.Failed(…)); return err`
  abbrev pub failed : Repository → Fault → String → List RemoteCall → Upserted
  failed cr e msg calls = record {
    status = w.set_failed cr.status msg;
    error = some e;
    calls = calls;
  }

  -- `if field != nil { option = *field }`
  abbrev pub or_empty : Option String → String
  or_empty none = ""
  or_empty (some text) = text

  abbrev pub or_false : Option Bool → Bool
  or_false none = false
  or_false (some b) = b

  unfoldable pub create_option : Repository → CreateRepoOption
  create_option cr = record {
    name = cr.name;
    description = or_empty cr.spec.description;
    private = or_false cr.spec.private;
    issue_labels = or_empty cr.spec.issue_labels;
    gitignores = or_empty cr.spec.gitignores;
    license = or_empty cr.spec.license;
    readme = or_empty cr.spec.readme;
    default_branch = or_empty cr.spec.default_branch;
    trust_model = or_empty cr.spec.trust_model;
    auto_init = true;
  }

  unfoldable pub edit_option : Repository → EditRepoOption
  edit_option cr = record {
    name = some cr.name;
    description = cr.spec.description;
    private = cr.spec.private;
  }

  -- What is left of a call that answers with the repository.
  unfoldable pub with_url : Repository → String → List RemoteCall → Result Fault String → Upserted
  with_url cr msg calls (err e) = failed cr e msg calls
  with_url cr msg calls (ok url) = record {
    status = record cr.status { url = some url };
    error = none;
    calls = calls;
  }

  unfoldable pub with_repo : Repository → String → Result Fault String → Upserted
  unfolding with_url create_option edit_option
  with_repo cr user (err e) =
      with_url cr "cannot create repo" (repo_created (create_option cr) ∷ [])
        (s.create_repo (create_option cr))
  with_repo cr user (ok repo) =
      with_url cr "cannot update repo" (repo_edited user cr.name (edit_option cr) ∷ [])
        (s.edit_repo user cr.name (edit_option cr))

  unfoldable pub with_user : Repository → Result Fault String → Upserted
  unfolding with_repo
  with_user cr (err e) = failed cr e (w.text e) []
  with_user cr (ok user) = with_repo cr user (s.get_repo user cr.name)

  -- `upsertRepo`
  unfoldable pub upsert_repo : Repository → Upserted
  unfolding with_user
  upsert_repo cr = with_user cr s.user_name

  unfoldable pub delete_of : Repository → Result Fault String → Upserted
  delete_of cr (err e) = failed cr e (w.text e) []
  delete_of cr (ok user) =
      let calls : List RemoteCall = repo_deleted user cr.name ∷ [] in
      elim (s.delete_repo user cr.name) [
        | some e ↦ failed cr e (w.text e) calls
        | none ↦ record { status = cr.status; error = none; calls = calls }
      ]

  -- `deleteRepo`
  unfoldable pub delete_repo : Repository → Upserted
  unfolding delete_of
  delete_repo cr = delete_of cr s.user_name

  -- `Reconcile`
  unfoldable pub reconcile :
      String
      → String
      → Outcome (Reconciled RepositorySpec (RepositoryStatus Conditions) Fault RemoteCall)
  unfolding reconcile_with upsert_repo delete_repo
  reconcile namespace name = reconcile_with w finalizer upsert_repo delete_repo false namespace name
