-- ===== src/Tokens.antt =====
-- crates/bale-server-tokens/src/lib.rs: the claims a token carries. Signing is the crate
-- jsonwebtoken's, a parameter, and so is the clock.
pub mod Minted
use baleforgit.Prelude.{Option, Result, [], err, if◌then◌else◌, none, ok, some, ℕ, ◌>>=◌, ◌>>◌, ◌∷◌}
use baleforgit.Core.{
  Bytes, CoreError, RepoRef, RepoType, Scope, Text, TokenClaims, bad_request, dataset, eq_bytes,
  internal, model, read, space, unauthorized, write,
}
use baleforgit.Http.Uploads.{saturating_add}

pub record XetClaims : Type 0 where
  pub sub : Text
  pub repo_type : Text
  pub repo_id : Text
  pub revision : Text
  pub scope : Text
  pub exp : ℕ

-- The token of the claims under a secret, and the claims of a token that is signed with the secret and
-- has not expired at a time.
pub record Jwt : Type 0 where
  pub encode : Bytes → XetClaims → Option Text
  pub decode : Bytes → ℕ → Text → Option XetClaims

unfoldable pub repo_type_str : RepoType → Text
repo_type_str model = b'm' ∷ b'o' ∷ b'd' ∷ b'e' ∷ b'l' ∷ []
repo_type_str dataset = b'd' ∷ b'a' ∷ b't' ∷ b'a' ∷ b's' ∷ b'e' ∷ b't' ∷ []
repo_type_str space = b's' ∷ b'p' ∷ b'a' ∷ b'c' ∷ b'e' ∷ []

unfoldable pub parse_repo_type : Text → Result CoreError RepoType
unfolding repo_type_str eq_bytes
parse_repo_type s =
    if eq_bytes s (repo_type_str model)
    then ok model
    else if eq_bytes s (repo_type_str dataset)
    then ok dataset
    else if eq_bytes s (repo_type_str space)
    then ok space
    else err bad_request

unfoldable pub scope_str : Scope → Text
scope_str Scope.read = b'r' ∷ b'e' ∷ b'a' ∷ b'd' ∷ []
scope_str Scope.write = b'w' ∷ b'r' ∷ b'i' ∷ b't' ∷ b'e' ∷ []

unfoldable pub parse_scope : Text → Result CoreError Scope
unfolding scope_str eq_bytes
parse_scope s =
    if eq_bytes s (scope_str Scope.read)
    then ok Scope.read
    else if eq_bytes s (scope_str Scope.write)
    then ok Scope.write
    else err bad_request

-- `map_err(|e| …)`
abbrev pub or_error : {A : Type 0} → CoreError → Option A → Result CoreError A
or_error e none = err e
or_error e (some a) = ok a

-- `clock` is the time since the epoch, if the clock is not before it.
unfoldable pub mint :
    Jwt → Option ℕ → Bytes → Text → RepoRef → Scope → ℕ → Result CoreError (Text × ℕ)
unfolding repo_type_str scope_str
mint jwt clock secret user repo scope ttl_secs = do
  now ← or_error internal clock
  let exp = saturating_add now ttl_secs
  token ← or_error internal (
      jwt.encode secret (record {
        sub = user;
        repo_type = repo_type_str repo.repo_type;
        repo_id = repo.repo_id;
        revision = repo.revision;
        scope = scope_str scope;
        exp = exp;
      }))
  ok (token, exp)

unfoldable pub verify : Jwt → Bytes → ℕ → Text → Result CoreError TokenClaims
unfolding parse_repo_type parse_scope
verify jwt secret now token = do
  c ← or_error unauthorized (jwt.decode secret now token)
  repo_type ← parse_repo_type c.repo_type
  scope ← parse_scope c.scope
  ok (record {
    user = c.sub;
    repo = record { repo_type = repo_type; repo_id = c.repo_id; revision = c.revision };
    scope = scope;
    expires_at = c.exp;
  })
