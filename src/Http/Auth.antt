-- ===== src/Http/Auth.antt =====
-- crates/bale-server-http/src/lib.rs: `auth_middleware`, which runs before every handler. `header` is
-- the header `authorization` where it is there and is text.
use baleforgit.Prelude.{
  ==_iff, >>=-eq-ok, Bool, Bool-cases, Option, Result, [], ap, ensure, ensure-ok, err, false,
  if◌then◌else◌, inl, inr, leb, none, not, ok, ok-injective, refl, some, true, ℕ, ◌&&◌, ◌++◌, ◌==◌,
  ◌>>=◌, ◌>>◌, ◌∙◌, ◌∷◌, ◌≡◌,
}
use baleforgit.Core.{Bytes, CoreError, RepoRef, Scope, Text, TokenClaims, drop_prefix, unauthorized}
use baleforgit.Http.{ApiError, from_core, status}
use baleforgit.Http.Signed.{from_core-ok}
use baleforgit.Tokens.{Jwt, mint, verify}
use baleforgit.Tokens.Minted.{Signs, token_claims, verify-mint}

abbrev pub bearer : Text
bearer = b'B' ∷ b'e' ∷ b'a' ∷ b'r' ∷ b'e' ∷ b'r' ∷ b' ' ∷ []

abbrev pub some_or_401 : {A : Type 0} → Option A → Result ApiError A
some_or_401 none = err (status 401)
some_or_401 (some a) = ok a

abbrev pub is_read : Scope → Bool
is_read Scope.read = true
is_read Scope.write = false

-- `is_post` says whether the method is POST, and `next` is the handler.
unfoldable pub auth_middleware :
    {R : Type 0}
    → (Text → Result CoreError TokenClaims)
    → Bool
    → Option Text
    → (TokenClaims → Result ApiError R)
    → Result ApiError R
unfolding drop_prefix
auth_middleware verify_xet_token is_post header next = do
  raw ← some_or_401 header
  token ← some_or_401 (drop_prefix bearer raw)
  claims ← from_core (verify_xet_token token)
  ensure (not (is_post && is_read claims.scope)) (status 403)
  next claims

pub drop_prefix-some : (p s rest : Text) → drop_prefix p s ≡ some rest → s ≡ p ++ rest
unfolding drop_prefix
drop_prefix-some [] s rest h = cc h
drop_prefix-some (a ∷ p) [] rest h = absurd (cc h)
drop_prefix-some (a ∷ p) (c ∷ s) rest h = elim (Bool-cases (a == c)) [
  | inl e ↦
      let tails : s ≡ p ++ rest = drop_prefix-some p s rest (rw e at h) in
      let heads : a ≡ c = (==_iff a c).0 e in cc
  | inr e ↦ let q : none ≡ some rest = rw e at h in absurd (cc q)
]

some_or_401-ok : {A : Type 0} (o : Option A) (a : A) → some_or_401 o ≡ ok a → o ≡ some a
some_or_401-ok none a h = absurd (cc h)
some_or_401-ok (some b) a h = ap some (ok-injective h)

pub record Admitted {R : Type 0} (verify_xet_token : Text → Result CoreError TokenClaims)
    (is_post : Bool) (header : Option Text) (next : TokenClaims → Result ApiError R) (r : R)
    : Type 0 where
  pub token : Text
  pub claims : TokenClaims
  pub sent : header ≡ some (bearer ++ token)
  pub verified : verify_xet_token token ≡ ok claims
  pub writes : is_post ≡ true → claims.scope ≡ Scope.write
  pub ran : next claims ≡ ok r

may_write : (b : Bool) (s : Scope) → not (b && is_read s) ≡ true → b ≡ true → s ≡ Scope.write
may_write true Scope.read h p = absurd (cc h)
may_write true Scope.write h p = refl
may_write false s h p = absurd (cc p)

-- A request succeeds only where its header is "Bearer " and a token that is verified, its handler
-- succeeds with the claims of that token, and these have the scope of writing where it is a POST.
pub auth_middleware-Admitted :
    {R : Type 0} (verify_xet_token : Text → Result CoreError TokenClaims) (is_post : Bool)
    (header : Option Text) (next : TokenClaims → Result ApiError R) (r : R)
    → auth_middleware verify_xet_token is_post header next ≡ ok r
    → Admitted verify_xet_token is_post header next r
unfolding auth_middleware
auth_middleware-Admitted verify_xet_token is_post header next r h =
    let (raw, p₁, h₁) = >>=-eq-ok (some_or_401 header) _ h in
    let (token, p₂, h₂) = >>=-eq-ok (some_or_401 (drop_prefix bearer raw)) _ h₁ in
    let (claims, p₃, h₃) = >>=-eq-ok (from_core (verify_xet_token token)) _ h₂ in
    let (u, p₄, h₄) =
      >>=-eq-ok (ensure (not (is_post && is_read claims.scope)) (status 403)) _ h₃ in
    let stripped : raw ≡ bearer ++ token =
      drop_prefix-some bearer raw token (some_or_401-ok (drop_prefix bearer raw) token p₂) in
    record {
      token = token;
      claims = claims;
      sent = some_or_401-ok header raw p₁ ∙ ap some stripped;
      verified = from_core-ok (verify_xet_token token) claims p₃;
      writes =
          may_write is_post claims.scope
            (ensure-ok (not (is_post && is_read claims.scope)) (status 403) u p₄);
      ran = h₄;
    }

auth_middleware-bearer :
    {R : Type 0} (v : Text → Result CoreError TokenClaims) (is_post : Bool) (token : Text)
    (next : TokenClaims → Result ApiError R) (res : Result CoreError TokenClaims)
    → v token ≡ res
    → auth_middleware v is_post (some (bearer ++ token)) next ≡ (do
      claims ← from_core res
      ensure (not (is_post && is_read claims.scope)) (status 403)
      next claims)
unfolding auth_middleware drop_prefix
auth_middleware-bearer v is_post token next res e = rw e refl

-- For a token library whose signatures hold until their claims expire: a request with a token that
-- `mint` has made runs its handler, until the token expires, as the user, repository and scope that
-- the token was made for, except that a POST with a token for reading is forbidden; later it is
-- unauthorized.
pub auth_middleware-mint :
    {R : Type 0} (jwt : Jwt) (now later : ℕ) (secret user : Bytes) (repo : RepoRef) (scope : Scope)
    (ttl_secs : ℕ) (token : Text) (exp : ℕ) (is_post : Bool)
    (next : TokenClaims → Result ApiError R)
    → Signs jwt
    → mint jwt (some now) secret user repo scope ttl_secs ≡ ok (token, exp)
    → auth_middleware (verify jwt secret later) is_post (some (bearer ++ token)) next ≡ (
        if leb later exp
        then (if is_post && is_read scope
            then err (status 403)
            else next (token_claims user repo scope exp))
        else err (status 401))
auth_middleware-mint jwt now later secret user repo scope ttl_secs token exp is_post next signs h =
    let (e, v) = verify-mint jwt now later secret user repo scope ttl_secs token exp signs h in
    auth_middleware-bearer (verify jwt secret later) is_post token next _ v
    ∙ checked (leb later exp)
  where
    checked :
        (b : Bool)
        → (do
          claims ← from_core (if b then ok (token_claims user repo scope exp) else err unauthorized)
          ensure (not (is_post && is_read claims.scope)) (status 403)
          next claims)
          ≡ (if b
              then (if is_post && is_read scope
                  then err (status 403)
                  else next (token_claims user repo scope exp))
              else err (status 401))
    checked true = elim (Bool-cases (is_post && is_read scope)) [
      | inl e ↦ rw e refl
      | inr e ↦ rw e refl
    ]
    checked false = refl
