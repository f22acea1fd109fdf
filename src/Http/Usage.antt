-- ===== src/Http/Usage.antt =====
-- crates/bale-server-http/src/lib.rs: the endpoints of an owner's usage and quota. `header` is the
-- header `authorization` where it is there and is text, and `hex_decode` is the crate hex's.
use baleforgit.Prelude.{
  Bool, Option, Result, ensure, err, false, if◌then◌else◌, none, ok, some, ℕ, ◌++◌, ◌-◌, ◌>>=◌,
  ◌>>◌, ◌∷◌,
}
use baleforgit.Authz.{ct_eq}
use baleforgit.Core.{Bytes, CoreError, Text, TokenClaims, drop_prefix, eq_bytes, owner}
use baleforgit.Filter.Pointer.{trim}
use baleforgit.Http.{ApiError, from_core, status}
use baleforgit.Http.Auth.{bearer, some_or_401}
use baleforgit.Http.Uploads.{Service, effective_quota}
use baleforgit.Meta.Usage.{
  exclusive_stored_bytes_for_repo, raw_bytes_for_owner, raw_bytes_for_repo, set_owner_quota,
  stored_bytes_for_owner, stored_bytes_for_repo,
}

unfoldable pub strip_bearer : Option Text → Option Text
unfolding drop_prefix
strip_bearer none = none
strip_bearer (some raw) = drop_prefix bearer raw

abbrev pub is_admin : Option Bytes → Option Bytes → Bool
unfolding ct_eq
is_admin (some admin) (some presented) = ct_eq presented admin
is_admin (some admin) none = false
is_admin none presented = false

abbrev pub owner_of_token : Text → Result CoreError TokenClaims → Result ApiError (Unit {0})
unfolding eq_bytes owner
owner_of_token name r = do
  claims ← from_core r
  ensure (eq_bytes (owner claims.repo) name) (status 403)

unfoldable pub require_admin_or_owner :
    (Text → Option Bytes)
    → (Text → Result CoreError TokenClaims)
    → Option Bytes
    → Option Text
    → Text
    → Result ApiError (Unit {0})
unfolding strip_bearer is_admin owner_of_token trim
require_admin_or_owner hex_decode verify_xet_token admin_token header name = do
  token ← some_or_401 (strip_bearer header)
  let claimed = owner_of_token name (verify_xet_token token)
  if is_admin admin_token (hex_decode (trim token)) then ok tt else claimed

pub record OwnerUsageResponse : Type 0 where
  pub owner_name : Text
  pub raw_bytes : ℕ
  pub stored_bytes : ℕ
  pub dedup_savings_bytes : ℕ
  pub quota_bytes : Option ℕ

pub record RepoUsageResponse : Type 0 where
  pub repo_id : Text
  pub raw_bytes : ℕ
  pub stored_bytes : ℕ
  pub dedup_savings_bytes : ℕ
  pub exclusive_bytes : ℕ

-- `raw.saturating_sub(stored)` is the subtraction of naturals.
unfoldable pub get_owner_usage :
    (Text → Option Bytes)
    → (Text → Result CoreError TokenClaims)
    → Option Bytes
    → Option Text
    → Text
    → Service
    → Result ApiError OwnerUsageResponse
unfolding require_admin_or_owner raw_bytes_for_owner stored_bytes_for_owner effective_quota
get_owner_usage hex_decode verify_xet_token admin_token header name svc = do
  require_admin_or_owner hex_decode verify_xet_token admin_token header name
  raw ← from_core (raw_bytes_for_owner name svc.meta)
  stored ← from_core (stored_bytes_for_owner name svc.meta)
  quota ← effective_quota name svc
  ok (record {
    owner_name = name;
    raw_bytes = raw;
    stored_bytes = stored;
    dedup_savings_bytes = raw - stored;
    quota_bytes = quota;
  })

unfoldable pub get_repo_usage :
    (Text → Option Bytes)
    → (Text → Result CoreError TokenClaims)
    → Option Bytes
    → Option Text
    → Text
    → Text
    → Service
    → Result ApiError RepoUsageResponse
unfolding require_admin_or_owner raw_bytes_for_repo stored_bytes_for_repo
    exclusive_stored_bytes_for_repo
get_repo_usage hex_decode verify_xet_token admin_token header name repo svc = do
  require_admin_or_owner hex_decode verify_xet_token admin_token header name
  let repo_id = name ++ b'/' ∷ repo
  raw ← from_core (raw_bytes_for_repo repo_id svc.meta)
  stored ← from_core (stored_bytes_for_repo repo_id svc.meta)
  exclusive ← from_core (exclusive_stored_bytes_for_repo repo_id svc.meta)
  ok (record {
    repo_id = repo_id;
    raw_bytes = raw;
    stored_bytes = stored;
    dedup_savings_bytes = raw - stored;
    exclusive_bytes = exclusive;
  })

abbrev pub some_or : {A : Type 0} → ℕ → Option A → Result ApiError A
some_or code none = err (status code)
some_or code (some a) = ok a

unfoldable pub put_owner_quota :
    (Text → Option Bytes)
    → Option Bytes
    → Option Text
    → Text
    → Option ℕ
    → Service
    → Result ApiError Service
unfolding strip_bearer trim ct_eq set_owner_quota
put_owner_quota hex_decode admin_token header name limit_bytes svc = do
  admin ← some_or 404 admin_token
  raw ← some_or 401 (strip_bearer header)
  presented ← some_or 401 (hex_decode (trim raw))
  ensure (ct_eq presented admin) (status 401)
  ok (record svc { meta = set_owner_quota name limit_bytes svc.meta })
