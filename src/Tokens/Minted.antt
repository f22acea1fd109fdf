-- ===== src/Tokens/Minted.antt =====
-- What `verify` makes of a token that `mint` has made.
use baleforgit.Prelude.{
  >>=-eq-ok, Bool-cases, Option, ap, arith, err, false, if◌then◌else◌, inl, inr, leb, leb→le, min,
  none, ok, ok-injective, refl, some, sym, ℕ, ◌+◌, ◌-◌, ◌<◌, ◌^◌, ◌∙◌, ◌≡◌, ◌≤◌,
}
use baleforgit.Core.{
  Bytes, CoreError, RepoRef, RepoType, Scope, Text, TokenClaims, dataset, internal, model, space,
  unauthorized,
}
use baleforgit.Http.Uploads.{saturating_add}
use baleforgit.Tokens.{
  Jwt, XetClaims, mint, or_error, parse_repo_type, parse_scope, repo_type_str, scope_str, verify,
}

-- A signature holds under its secret until the claims expire.
pub record Signs (jwt : Jwt) : Type 0 where
  pub valid :
      (secret : Bytes) (c : XetClaims) (token : Text) (now : ℕ)
      → jwt.encode secret c ≡ some token
      → now ≤ c.exp
      → jwt.decode secret now token ≡ some c
  pub expired :
      (secret : Bytes) (c : XetClaims) (token : Text) (now : ℕ)
      → jwt.encode secret c ≡ some token
      → c.exp < now
      → jwt.decode secret now token ≡ none

parse_repo_type-repo_type_str : (t : RepoType) → parse_repo_type (repo_type_str t) ≡ ok t
unfolding parse_repo_type
parse_repo_type-repo_type_str model = refl
parse_repo_type-repo_type_str dataset = refl
parse_repo_type-repo_type_str space = refl

parse_scope-scope_str : (s : Scope) → parse_scope (scope_str s) ≡ ok s
unfolding parse_scope
parse_scope-scope_str Scope.read = refl
parse_scope-scope_str Scope.write = refl

abbrev pub xet_claims : Text → RepoRef → Scope → ℕ → XetClaims
unfolding repo_type_str scope_str
xet_claims user repo scope exp = record {
  sub = user;
  repo_type = repo_type_str repo.repo_type;
  repo_id = repo.repo_id;
  revision = repo.revision;
  scope = scope_str scope;
  exp = exp;
}

or_error-ok : {A : Type 0} (e : CoreError) (o : Option A) (a : A) → or_error e o ≡ ok a → o ≡ some a
or_error-ok e none a h = absurd (cc h)
or_error-ok e (some b) a h = ap some (ok-injective h)

mint-ok :
    (jwt : Jwt) (now : ℕ) (secret user : Bytes) (repo : RepoRef) (scope : Scope) (ttl_secs : ℕ)
    (token : Text) (exp : ℕ)
    → mint jwt (some now) secret user repo scope ttl_secs ≡ ok (token, exp)
    → (exp ≡ saturating_add now ttl_secs)
      × (jwt.encode secret (xet_claims user repo scope exp) ≡ some token)
unfolding mint
mint-ok jwt now secret user repo scope ttl_secs token exp h =
    let (t, p, h₁) =
      >>=-eq-ok
        (or_error internal
          (jwt.encode secret (xet_claims user repo scope (saturating_add now ttl_secs))))
        _ h in
    let pair : (t, saturating_add now ttl_secs) ≡ (token, exp) = ok-injective h₁ in
    let e : saturating_add now ttl_secs ≡ exp = ap (λ r. r.1) pair in
    let q =
      or_error-ok internal
        (jwt.encode secret (xet_claims user repo scope (saturating_add now ttl_secs))) t p in
    (
      sym e,
      ap (λ x. jwt.encode secret (xet_claims user repo scope x)) (sym e)
          ∙ q
          ∙ ap some (ap (λ r. r.0) pair),
    )

abbrev pub token_claims : Text → RepoRef → Scope → ℕ → TokenClaims
token_claims user repo scope exp = record {
  user = user;
  repo = repo;
  scope = scope;
  expires_at = exp;
}

-- For a token library whose signatures hold until their claims expire: a token that `mint` has made
-- expires the given time after it was made, or at the largest u64 if that is earlier; under the same
-- secret it is verified, until that time, as the user, repository and scope it was made for, and is
-- unauthorized later.
pub verify-mint :
    (jwt : Jwt) (now later : ℕ) (secret user : Bytes) (repo : RepoRef) (scope : Scope)
    (ttl_secs : ℕ) (token : Text) (exp : ℕ)
    → Signs jwt
    → mint jwt (some now) secret user repo scope ttl_secs ≡ ok (token, exp)
    → (exp ≡ min (now + ttl_secs) (2 ^ 64 - 1))
      × (verify jwt secret later token
          ≡ (if leb later exp then ok (token_claims user repo scope exp) else err unauthorized))
unfolding verify
verify-mint jwt now later secret user repo scope ttl_secs token exp signs h =
    let (e, q) = mint-ok jwt now secret user repo scope ttl_secs token exp h in
    let c = xet_claims user repo scope exp in
    elim (Bool-cases (leb later exp)) [
      | inl b ↦ (
        e,
        rw b (
            rw
              (
                signs.valid secret c token later q (leb→le later exp b),
                parse_repo_type-repo_type_str repo.repo_type,
                parse_scope-scope_str scope,
              )
              refl),
      )
      | inr b ↦ (e, rw b (rw (signs.expired secret c token later q (later_than later exp b)) refl))
    ]
  where
    later_than : (a b : ℕ) → leb a b ≡ false → b < a
    later_than a b h = ground arith
