-- ===== src/Tests/Auths.antt =====
-- crates/bale-server-tokens/src/lib.rs and `auth_middleware` of crates/bale-server-http/src/lib.rs with
-- a library whose token is the claims and then the secret.
use baleforgit.Prelude.{
  Bool, Option, Result, [], arith, drop, drop-append, err, false, if◌then◌else◌, leb, length,
  le→leb, min, none, ok, refl, some, subst, take, take-append, true, ℕ, ◌&&◌, ◌++◌, ◌+◌, ◌-◌, ◌<◌,
  ◌^◌, ◌∙◌, ◌∷◌, ◌≡◌,
}
use baleforgit.Core.{Bytes, RepoRef, RepoType, Scope, Text, TokenClaims, eq_bytes, unauthorized}
use baleforgit.Http.{ApiError, status}
use baleforgit.Http.Auth.{
  Admitted, auth_middleware, auth_middleware-Admitted, auth_middleware-mint, bearer, is_read,
}
use baleforgit.Table.{eq_bytes_refl}
use baleforgit.Tokens.{Jwt, XetClaims, mint, repo_type_str, scope_str, verify}
use baleforgit.Tokens.Minted.{Signs, token_claims, verify-mint, xet_claims}

abbrev put : Text → Text → Text
put t rest = length t ∷ (t ++ rest)

abbrev head : Text → ℕ
head [] = 0
head (n ∷ s) = n

abbrev tail : Text → Text
tail [] = []
tail (n ∷ s) = s

abbrev after : Text → Text
after s = drop (head s) (tail s)

abbrev first : Text → Text
first s = take (head s) (tail s)

abbrev end_of : Bytes → XetClaims → Text
end_of secret c = c.exp ∷ secret

abbrev plain_encode : Bytes → XetClaims → Text
plain_encode secret c =
    put c.sub (put c.repo_type (put c.repo_id (put c.revision (put c.scope (end_of secret c)))))

abbrev plain_decode : Bytes → ℕ → Text → Option XetClaims
unfolding eq_bytes
plain_decode secret now s =
    let s₁ = after s in
    let s₂ = after s₁ in
    let s₃ = after s₂ in
    let s₄ = after s₃ in
    let s₅ = after s₄ in
    if leb now (head s₅) && eq_bytes (tail s₅) secret
    then some (record {
      sub = first s;
      repo_type = first s₁;
      repo_id = first s₂;
      revision = first s₃;
      scope = first s₄;
      exp = head s₅;
    })
    else none

abbrev plain : Jwt
plain = record { encode = λ secret c. some (plain_encode secret c); decode = plain_decode }

plain_decode-plain_encode :
    (secret : Bytes) (c : XetClaims) (now : ℕ)
    → plain_decode secret now (plain_encode secret c) ≡ (if leb now c.exp then some c else none)
unfolding plain_decode
plain_decode-plain_encode secret c now =
    let r₅ = end_of secret c in
    let r₄ = put c.scope r₅ in
    let r₃ = put c.revision r₄ in
    let r₂ = put c.repo_id r₃ in
    let r₁ = put c.repo_type r₂ in
    rw
      (
        drop-append c.sub r₁,
        take-append c.sub r₁,
        drop-append c.repo_type r₂,
        take-append c.repo_type r₂,
        drop-append c.repo_id r₃,
        take-append c.repo_id r₃,
        drop-append c.revision r₄,
        take-append c.revision r₄,
        drop-append c.scope r₅,
        take-append c.scope r₅,
        eq_bytes_refl secret,
      )
      (go (leb now c.exp))
  where
    go : (b : Bool) → (if b && true then some c else none) ≡ (if b then some c else none)
    go true = refl
    go false = refl

plain-Signs : Signs plain
plain-Signs = record {
  valid = λ secret c token now e le.
      subst (λ t. plain_decode secret now t ≡ some c) (some-inj e)
        (plain_decode-plain_encode secret c now ∙ rw (le→leb now c.exp le) refl);
  expired = λ secret c token now e lt.
      subst (λ t. plain_decode secret now t ≡ none) (some-inj e)
        (plain_decode-plain_encode secret c now ∙ rw (late now c.exp lt) refl);
}
  where
    late : (a b : ℕ) → b < a → leb a b ≡ false
    late a b h = ground arith

    some-inj : {a b : Text} → some a ≡ some b → a ≡ b
    some-inj h = cc h

abbrev ours : RepoRef
ours = record { repo_type = RepoType.model; repo_id = b'a' ∷ b'/' ∷ b'x' ∷ []; revision = [] }

abbrev alice : Text
alice = b'a' ∷ []

abbrev a_secret : Bytes
a_secret = 1 ∷ 2 ∷ []

abbrev a_token : Text
unfolding repo_type_str scope_str
a_token = plain_encode a_secret (xet_claims alice ours Scope.read 15)

minted : mint plain (some 10) a_secret alice ours Scope.read 5 ≡ ok (a_token, 15)
unfolding mint
minted = refl

verify-mint_example :
    (15 ≡ min (10 + 5) (2 ^ 64 - 1))
    × (verify plain a_secret 15 a_token
        ≡ (if leb 15 15 then ok (token_claims alice ours Scope.read 15) else err unauthorized))
verify-mint_example =
    verify-mint plain 10 15 a_secret alice ours Scope.read 5 a_token 15 plain-Signs minted

abbrev user_of : TokenClaims → Result ApiError Text
user_of claims = ok claims.user

passed :
    auth_middleware (verify plain a_secret 12) false (some (bearer ++ a_token)) user_of ≡ ok alice
unfolding auth_middleware verify
passed = refl

auth_middleware-Admitted_example :
    Admitted (verify plain a_secret 12) false (some (bearer ++ a_token)) user_of alice
auth_middleware-Admitted_example =
    auth_middleware-Admitted (verify plain a_secret 12) false (some (bearer ++ a_token)) user_of
      alice passed

auth_middleware-mint_example :
    auth_middleware (verify plain a_secret 15) true (some (bearer ++ a_token)) user_of ≡ (
      if leb 15 15
      then (if true && is_read Scope.read
          then err (status 403)
          else user_of (token_claims alice ours Scope.read 15))
      else err (status 401))
auth_middleware-mint_example =
    auth_middleware-mint plain 10 15 a_secret alice ours Scope.read 5 a_token 15 true user_of
      plain-Signs minted
