-- ===== src/Git/Upserted.antt =====
-- What is made of a repository's spec in the git server
-- (controllers/pkg/reconcilers/repository/reconciler.go).
use nephio.Base.{
  String, ◌≡◌, refl, Bool, true, false, Option, none, some, List, [], ◌∷◌, Result, ok, err, ◌⊎◌,
  inl, inr, Result-cases,
}
use nephio.Git.{World}
use nephio.Git.Repository
use nephio.Git.Repository.{
  RepositorySpec, RepositoryStatus, CreateRepoOption, EditRepoOption, Repository, Upserted,
  repo_created, repo_edited, or_empty, or_false, create_option, edit_option, with_url, with_repo,
  upsert_repo,
}

-- A field has the value of the spec, or the default where the spec has none.
abbrev pub Follows : {A : Type 0} → A → Option A → A → Type 0
Follows default none x = x ≡ default
Follows default (some y) x = x ≡ y

module _ {Conditions : Type 0} (w : World RepositorySpec (RepositoryStatus Conditions))
    (s : Repository.Server w.Fault) where
  open w use {Fault}

  -- A request to create the repository of the spec, with a first commit.
  abbrev pub Creates : Repository w s → CreateRepoOption → Type 0
  Creates cr o =
      (o.name ≡ cr.name)
      × (o.auto_init ≡ true)
      × Follows false cr.spec.private o.private
      × Follows "" cr.spec.description o.description
      × Follows "" cr.spec.issue_labels o.issue_labels
      × Follows "" cr.spec.gitignores o.gitignores
      × Follows "" cr.spec.license o.license
      × Follows "" cr.spec.readme o.readme
      × Follows "" cr.spec.default_branch o.default_branch
      × Follows "" cr.spec.trust_model o.trust_model

  -- A request to change what the spec gives of description and privacy.
  abbrev pub Edits : Repository w s → EditRepoOption → Type 0
  Edits cr o =
      (o.name ≡ some cr.name)
      × (o.description ≡ cr.spec.description)
      × (o.private ≡ cr.spec.private)

  abbrev pub MadeRepository : Repository w s → Upserted w s → Type 0
  MadeRepository cr step =
      (user : String) × (s.user_name ≡ ok user)
      × (url : String) × (step.status ≡ record cr.status { url = some url })
      × (((e : Fault) × (s.get_repo user cr.name ≡ err e)
            × (o : CreateRepoOption) × Creates cr o
            × (s.create_repo o ≡ ok url)
            × (step.calls ≡ repo_created o ∷ []))
          ⊎ ((found : String) × (s.get_repo user cr.name ≡ ok found)
              × (o : EditRepoOption) × Edits cr o
              × (s.edit_repo user cr.name o ≡ ok url)
              × (step.calls ≡ repo_edited user cr.name o ∷ [])))

  or_empty-Follows : (o : Option String) → Follows "" o (or_empty w s o)
  or_empty-Follows none = refl
  or_empty-Follows (some text) = refl

  or_false-Follows : (o : Option Bool) → Follows false o (or_false w s o)
  or_false-Follows none = refl
  or_false-Follows (some b) = refl

  create_option-Creates : (cr : Repository w s) → Creates cr (create_option w s cr)
  unfolding create_option
  create_option-Creates cr = (
    refl,
    refl,
    or_false-Follows cr.spec.private,
    or_empty-Follows cr.spec.description,
    or_empty-Follows cr.spec.issue_labels,
    or_empty-Follows cr.spec.gitignores,
    or_empty-Follows cr.spec.license,
    or_empty-Follows cr.spec.readme,
    or_empty-Follows cr.spec.default_branch,
    or_empty-Follows cr.spec.trust_model,
  )

  edit_option-Edits : (cr : Repository w s) → Edits cr (edit_option w s cr)
  unfolding edit_option
  edit_option-Edits cr = (refl, refl, refl)

  with_url-fields :
      (cr : Repository w s) (msg : String) (calls : List Repository.RemoteCall)
      (r : Result Fault String)
      → (with_url w s cr msg calls r).error ≡ none
      → (url : String) × (r ≡ ok url)
        × ((with_url w s cr msg calls r).status ≡ record cr.status { url = some url })
        × ((with_url w s cr msg calls r).calls ≡ calls)
  unfolding with_url
  with_url-fields cr msg calls (err e) h = cc
  with_url-fields cr msg calls (ok url) h = (url, refl, refl, refl)

  MadeRepository-with_repo :
      (cr : Repository w s) (user : String) (r : Result Fault String)
      → s.user_name ≡ ok user
      → s.get_repo user cr.name ≡ r
      → (with_repo w s cr user r).error ≡ none
      → MadeRepository cr (with_repo w s cr user r)
  unfolding with_repo
  MadeRepository-with_repo cr user (err e) u q h =
      let o = create_option w s cr in
      let (url, made, status, calls) =
        with_url-fields cr "cannot create repo" (repo_created o ∷ []) (s.create_repo o) h in
      (user, u, url, status, inl (e, q, o, create_option-Creates cr, made, calls))
  MadeRepository-with_repo cr user (ok found) u q h =
      let o = edit_option w s cr in
      let (url, made, status, calls) =
        with_url-fields cr "cannot update repo" (repo_edited user cr.name o ∷ [])
          (s.edit_repo user cr.name o) h in
      (user, u, url, status, inr (found, q, o, edit_option-Edits cr, made, calls))

  MadeRepository-with_user :
      (cr : Repository w s) (r : Result Fault String)
      → s.user_name ≡ r
      → (Repository.with_user w s cr r).error ≡ none
      → MadeRepository cr (Repository.with_user w s cr r)
  unfolding Repository.with_user
  MadeRepository-with_user cr (err e) u h = cc
  MadeRepository-with_user cr (ok user) u h =
      MadeRepository-with_repo cr user (s.get_repo user cr.name) u refl h

  -- The git server answers with its user, and takes every creation and change.
  abbrev pub Answers : Type 0
  Answers =
      ((user : String) × (s.user_name ≡ ok user))
      × ((o : CreateRepoOption) → (url : String) × (s.create_repo o ≡ ok url))
      × ((user name : String) (o : EditRepoOption)
          → (url : String) × (s.edit_repo user name o ≡ ok url))

  upsert_repo-Answers : (cr : Repository w s) → Answers → (upsert_repo w s cr).error ≡ none
  unfolding upsert_repo Repository.with_user with_repo with_url
  upsert_repo-Answers cr ((user, u), creates, edits) =
      elim (Result-cases (s.get_repo user cr.name)) [
        | inl (found, e) ↦ rw (u, e, (edits user cr.name (edit_option w s cr)).1) refl
        | inr (f, e) ↦ rw (u, e, (creates (create_option w s cr)).1) refl
      ]

  -- `upsertRepo` has no error where the git server answers with its user and takes every creation and
  -- change, whether or not the repository can be read. Where it has no error, it made one call: if
  -- the repository could not be read, whatever the error, a creation whose every field is that of
  -- the spec, or the default where the spec has none; otherwise a change of the description and
  -- the privacy that the spec gives, and of nothing else. The status has the clone URL that the
  -- call answers with.
  pub upsert_repo_lem :
      (cr : Repository w s)
      → (Answers → (upsert_repo w s cr).error ≡ none)
        × ((upsert_repo w s cr).error ≡ none → MadeRepository cr (upsert_repo w s cr))
  unfolding upsert_repo
  upsert_repo_lem cr = (upsert_repo-Answers cr, λ h. MadeRepository-with_user cr s.user_name refl h)
