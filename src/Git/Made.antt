-- ===== src/Git/Made.antt =====
-- What the creation of a token leaves in the git server and in the cluster
-- (controllers/pkg/reconcilers/token/reconciler.go).
use nephio.Base.{
  String, ◌≡◌, refl, Bool, true, false, Option, none, some, List, [], ◌∷◌, Result, ok, err, ◌⊎◌,
  inl, inr, Bool-cases, any, ◌==◌, string_eq,
}
use nephio.Base.Dict.{lookup}
use nephio.Git.{World, Step}
use nephio.Git.Token.{
  TokenSpec, Secret, RemoteCall, token_created, secret_applied, Token, failed, secret_of,
  after_apply, unless_found, with_token, with_user, with_tokens, token_found, create_token,
}
use nephio.Git.Token

-- A token that is made with its secret applied, or is there already.
module _ {Status : Type 0} (w : World TokenSpec Status) (s : Token.Server w.Fault) where
  open w use {Fault}

  -- The secret has the name of the resource, which owns it, and holds the user and the token.
  abbrev pub Holds : Token w → String → String → Secret → Type 0
  Holds cr user token secret =
      (secret.namespace ≡ cr.namespace)
      × (secret.name ≡ cr.name)
      × (secret.owner_name ≡ cr.name)
      × (secret.owner_uid ≡ cr.spec.uid)
      × (lookup "username" secret.contents ≡ some user)
      × (lookup "password" secret.contents ≡ some token)
      × (lookup "token" secret.contents ≡ some token)

  abbrev pub is_listed : Token w → List String → Bool
  is_listed cr names = any (λ name. name == cr.spec.token_name) names

  -- What is called without an error, by what is listed.
  abbrev pub Called : Token w → List RemoteCall → Type 0
  Called cr calls =
      (names : List String) × (s.list_access_tokens ≡ ok names)
      × (((is_listed cr names ≡ true) × (calls ≡ []))
          ⊎ ((is_listed cr names ≡ false)
              × (user : String) × (s.user_name ≡ ok user)
              × (token : String) × (s.create_access_token cr.spec.token_name ≡ ok token)
              × (secret : Secret) × Holds cr user token secret
              × (s.apply secret ≡ none)
              × (calls ≡ token_created cr.spec.token_name ∷ secret_applied secret ∷ [])))

  secret_of-Holds :
      (cr : Token w) (user token : String) → Holds cr user token (secret_of w cr user token)
  unfolding secret_of lookup string_eq
  secret_of-Holds cr user token = (refl, refl, refl, refl, refl, refl, refl)

  -- The end of the creation, from the user and the token on.
  abbrev pub Applied : Token w → Step Status Fault RemoteCall → Type 0
  Applied cr step =
      (user : String) × (s.user_name ≡ ok user)
      × (token : String) × (s.create_access_token cr.spec.token_name ≡ ok token)
      × (secret : Secret) × Holds cr user token secret
      × (s.apply secret ≡ none)
      × (step.calls ≡ token_created cr.spec.token_name ∷ secret_applied secret ∷ [])

  Applied-after_apply :
      (cr : Token w) (user token : String) (o : Option Fault)
      → s.user_name ≡ ok user
      → s.create_access_token cr.spec.token_name ≡ ok token
      → s.apply (secret_of w cr user token) ≡ o
      → (after_apply w s cr (secret_of w cr user token) o).error ≡ none
      → Applied cr (after_apply w s cr (secret_of w cr user token) o)
  unfolding after_apply
  Applied-after_apply cr user token none u q p h =
      (user, u, token, q, secret_of w cr user token, secret_of-Holds cr user token, p, refl)
  Applied-after_apply cr user token (some e) u q p h = cc

  Applied-with_token :
      (cr : Token w) (user : String) (r : Result Fault String)
      → s.user_name ≡ ok user
      → s.create_access_token cr.spec.token_name ≡ r
      → (with_token w s cr user r).error ≡ none
      → Applied cr (with_token w s cr user r)
  unfolding with_token
  Applied-with_token cr user (err e) u q h = cc
  Applied-with_token cr user (ok token) u q h =
      Applied-after_apply cr user token (s.apply (secret_of w cr user token)) u q refl h

  Applied-with_user :
      (cr : Token w) (r : Result Fault String)
      → s.user_name ≡ r
      → (with_user w s cr r).error ≡ none
      → Applied cr (with_user w s cr r)
  unfolding with_user
  Applied-with_user cr (err e) u h = cc
  Applied-with_user cr (ok user) u h =
      Applied-with_token cr user (s.create_access_token cr.spec.token_name) u refl h

  Called-unless_found :
      (cr : Token w) (names : List String) (b : Bool)
      → s.list_access_tokens ≡ ok names
      → is_listed cr names ≡ b
      → (unless_found w s cr b).error ≡ none
      → Called cr (unless_found w s cr b).calls
  unfolding unless_found
  Called-unless_found cr names true q p h = (names, q, inl (p, refl))
  Called-unless_found cr names false q p h =
      let (user, u, token, made, secret, holds, applied, calls) =
        Applied-with_user cr s.user_name refl h in
      (names, q, inr (p, user, u, token, made, secret, holds, applied, calls))

  Called-with_tokens :
      (cr : Token w) (r : Result Fault (List String))
      → s.list_access_tokens ≡ r
      → (with_tokens w s cr r).error ≡ none
      → Called cr (with_tokens w s cr r).calls
  unfolding with_tokens
  Called-with_tokens cr (err e) q h = cc
  Called-with_tokens cr (ok names) q h =
      Called-unless_found cr names (token_found w cr names) q refl h

  -- The git server answers, and every secret can be applied.
  abbrev pub Answers : Token w → Type 0
  Answers cr =
      ((names : List String) × (s.list_access_tokens ≡ ok names))
      × ((user : String) × (s.user_name ≡ ok user))
      × ((token : String) × (s.create_access_token cr.spec.token_name ≡ ok token))
      × ((secret : Secret) → s.apply secret ≡ none)

  create_token-Answers : (cr : Token w) → Answers cr → (create_token w s cr).error ≡ none
  unfolding create_token with_tokens unless_found with_user with_token after_apply
  create_token-Answers cr ((names, listed), (user, u), (token, made), applied) =
      elim (Bool-cases (is_listed cr names)) [
        | inl e ↦ rw (listed, e) refl
        | inr e ↦ rw (listed, e, u, made, applied (secret_of w cr user token)) refl
      ]

  -- `createToken` has no error where the git server answers and secrets can be applied. Where it has
  -- no error, the tokens were listed, and either one of the name was among them and nothing was
  -- called; or none was, and first the token was created and then, with success, a secret applied
  -- that has the name of the resource, is owned by it, and holds the git server's user and the
  -- token that the git server made.
  pub create_token_lem :
      (cr : Token w)
      → (Answers cr → (create_token w s cr).error ≡ none)
        × ((create_token w s cr).error ≡ none → Called cr (create_token w s cr).calls)
  unfolding create_token
  create_token_lem cr =
      (create_token-Answers cr, λ h. Called-with_tokens cr s.list_access_tokens refl h)
