-- ===== src/Git/Lost.antt =====
-- A token whose secret could not be applied (controllers/pkg/reconcilers/token/reconciler.go).
use nephio.Base.{
  String, ◌≡◌, refl, Bool, true, false, Option, none, some, is_some, List, [], ◌∷◌, ◌++◌, Result,
  ok, err, any, ◌==◌, string_eq,
}
use nephio.Git.{World}
use nephio.Git.Token.{
  TokenSpec, Secret, RemoteCall, token_created, token_deleted, secret_applied, Token, secret_of,
  after_apply, with_token, with_user, unless_found, with_tokens, create_token, token_found,
}
use nephio.Git.Token

abbrev pub is_created : String → RemoteCall → Bool
is_created name (token_created n) = n == name
is_created name (token_deleted n) = false
is_created name (secret_applied secret) = false

module _ {Status : Type 0} (w : World TokenSpec Status) where
  open w use {Fault}

  -- Every application of a secret fails.
  abbrev pub AllFail : Token.Server Fault → List RemoteCall → Type 0
  AllFail s [] = Unit
  AllFail s (secret_applied secret ∷ calls) = (is_some (s.apply secret) ≡ true) × AllFail s calls
  AllFail s (_ ∷ calls) = AllFail s calls

  -- The runs of `createToken` that follow, each with the answers that it gets; a change of the status
  -- changes nothing in what they call.
  abbrev pub later_calls : List (Token.Server Fault) → Token w → List RemoteCall
  later_calls [] cr = []
  later_calls (l ∷ ls) cr = (create_token w l cr).calls ++ later_calls ls cr

  abbrev pub NoError : List (Token.Server Fault) → Token w → Type 0
  NoError [] cr = Unit
  NoError (l ∷ ls) cr = ((create_token w l cr).error ≡ none) × NoError ls cr

  -- Whatever token a run has created is listed from then on.
  abbrev pub Keeps : List RemoteCall → List (Token.Server Fault) → Type 0
  Keeps calls [] = Unit
  Keeps calls (l ∷ ls) =
      ((n : String)
        → any (is_created n) calls ≡ true
        → (names : List String) × (l.list_access_tokens ≡ ok names)
          × (any (λ name. name == n) names ≡ true))
      × Keeps calls ls

  AllFail-after_apply :
      (s : Token.Server Fault) (cr : Token w) (secret : Secret) (o : Option Fault) (e : Fault)
      → s.apply secret ≡ o
      → (after_apply w s cr secret o).error ≡ some e
      → AllFail s (after_apply w s cr secret o).calls
  unfolding after_apply
  AllFail-after_apply s cr secret none e q h = cc
  AllFail-after_apply s cr secret (some f) e q h = (rw q refl, tt)

  AllFail-with_token :
      (s : Token.Server Fault) (cr : Token w) (user : String) (r : Result Fault String) (e : Fault)
      → (with_token w s cr user r).error ≡ some e
      → AllFail s (with_token w s cr user r).calls
  unfolding with_token
  AllFail-with_token s cr user (err f) e h = tt
  AllFail-with_token s cr user (ok token) e h =
      AllFail-after_apply s cr (secret_of w cr user token) (s.apply (secret_of w cr user token)) e
        refl h

  AllFail-with_user :
      (s : Token.Server Fault) (cr : Token w) (r : Result Fault String) (e : Fault)
      → (with_user w s cr r).error ≡ some e
      → AllFail s (with_user w s cr r).calls
  unfolding with_user
  AllFail-with_user s cr (err f) e h = tt
  AllFail-with_user s cr (ok user) e h =
      AllFail-with_token s cr user (s.create_access_token cr.spec.token_name) e h

  AllFail-unless_found :
      (s : Token.Server Fault) (cr : Token w) (b : Bool) (e : Fault)
      → (unless_found w s cr b).error ≡ some e
      → AllFail s (unless_found w s cr b).calls
  unfolding unless_found
  AllFail-unless_found s cr true e h = tt
  AllFail-unless_found s cr false e h = AllFail-with_user s cr s.user_name e h

  AllFail-with_tokens :
      (s : Token.Server Fault) (cr : Token w) (r : Result Fault (List String)) (e : Fault)
      → (with_tokens w s cr r).error ≡ some e
      → AllFail s (with_tokens w s cr r).calls
  unfolding with_tokens
  AllFail-with_tokens s cr (err f) e h = tt
  AllFail-with_tokens s cr (ok names) e h = AllFail-unless_found s cr (token_found w cr names) e h

  create_token-listed :
      (l : Token.Server Fault) (cr : Token w) (names : List String)
      → l.list_access_tokens ≡ ok names
      → any (λ name. name == cr.spec.token_name) names ≡ true
      → ((create_token w l cr).error ≡ none) × ((create_token w l cr).calls ≡ [])
  unfolding create_token with_tokens unless_found
  create_token-listed l cr names listed there = (rw (listed, there) refl, rw (listed, there) refl)

  later_quiet :
      (cr : Token w) (calls : List RemoteCall) (laters : List (Token.Server Fault))
      → any (is_created cr.spec.token_name) calls ≡ true
      → Keeps calls laters
      → NoError laters cr × (later_calls laters cr ≡ [])
  later_quiet cr calls [] made keeps = (tt, refl)
  later_quiet cr calls (l ∷ ls) made keeps =
      let (names, listed, there) = keeps.0 cr.spec.token_name made in
      let (fine, quiet) = create_token-listed l cr names listed there in
      let (rest, silent) = later_quiet cr calls ls made keeps.1 in
      ((fine, rest), rw (quiet, silent) refl)

  -- Where a run of `createToken` creates the token and has an error, every application of a secret
  -- that it makes fails; and if the git server keeps the token, every run after it, however many
  -- there are, has no error and calls nothing. So no secret is ever applied with
  -- success.
  pub create_token-lost_secret :
      (s : Token.Server Fault) (cr : Token w) (e : Fault) (laters : List (Token.Server Fault))
      → (create_token w s cr).error ≡ some e
      → any (is_created cr.spec.token_name) (create_token w s cr).calls ≡ true
      → Keeps (create_token w s cr).calls laters
      → AllFail s (create_token w s cr).calls × NoError laters cr × (later_calls laters cr ≡ [])
  unfolding create_token
  create_token-lost_secret s cr e laters failed made keeps =
      let (fine, quiet) = later_quiet cr (create_token w s cr).calls laters made keeps in
      (AllFail-with_tokens s cr s.list_access_tokens e failed, fine, quiet)
