-- ===== src/Http/Uploads.antt =====
-- crates/bale-server-http/src/lib.rs: `upload_xorb`, from the claims of the token on, over the in-memory blob store. What a handler has written when it refuses stays written, so a
-- handler returns the service beside its result.
use baleforgit.Prelude.{
  Bool, List, Option, Result, ensure, err, if◌then◌else◌, leb, length, ltb, min, none, not, ok,
  some, stuck, ℕ, ◌*◌, ◌+◌, ◌-◌, ◌>>=◌, ◌>>◌, ◌^◌,
}
use baleforgit.Core.{Bytes, CoreError, Hash32, Text, TokenClaims, XorbFrameRow, owner}
use baleforgit.Http.{ApiError, code_of, from_core, layout_rows, malformed, status}
use baleforgit.Meta.{MetaStore}
use baleforgit.Meta.Usage.{get_owner_quota, stored_bytes_for_owner}
use baleforgit.Meta.Xorbs.{register_xorb_layout}
use baleforgit.Storage.{MemBlobStore, put_xorb, xorb_exists}
use baleforgit.Wire.{decode_hash}
use baleforgit.Xorb.{Codec, parse_xorb_frames, verify_xorb_body}

pub record Service : Type 0 where
  pub meta : MetaStore
  pub blobs : MemBlobStore
  pub default_quota_bytes : Option ℕ

abbrev pub Reply : Type 0 → Type 0
Reply A = Service × Result ApiError A

abbrev pub max_body_bytes : ℕ
max_body_bytes = 64 * 1024 * 1024

abbrev pub or_default : Option ℕ → Option ℕ → Result ApiError (Option ℕ)
or_default (some n) default = ok (some n)
or_default none default = ok default

unfoldable pub effective_quota : Text → Service → Result ApiError (Option ℕ)
unfolding get_owner_quota
effective_quota name svc = do
  q ← from_core (get_owner_quota name svc.meta)
  or_default q svc.default_quota_bytes

abbrev pub saturating_add : ℕ → ℕ → ℕ
saturating_add a b = min (a + b) (2 ^ 64 - 1)

-- `if used.saturating_add(add) > quota { return Err(quota_exceeded(…)) }`
abbrev pub within_quota : ℕ → ℕ → ℕ → Result ApiError (Unit {0})
within_quota quota used add = ensure (not (ltb quota (saturating_add used add))) (status 429)

abbrev pub xorb_within : Text → Hash32 → ℕ → Service → Option ℕ → Result ApiError (Unit {0})
unfolding stored_bytes_for_owner xorb_exists
xorb_within name hash add svc none = ok tt
xorb_within name hash add svc (some quota) =
    if xorb_exists hash svc.blobs
    then ok tt
    else (do used ← from_core (stored_bytes_for_owner name svc.meta); within_quota quota used add)

unfoldable pub xorb_quota : Text → Hash32 → ℕ → Service → Result ApiError (Unit {0})
unfolding effective_quota stored_bytes_for_owner xorb_exists
xorb_quota name hash add svc = do
  quota ← effective_quota name svc
  xorb_within name hash add svc quota

-- The checks of `upload_xorb`, up to its first write.
unfoldable pub check_xorb :
    Codec → Service → TokenClaims → Text → Bytes → Result ApiError (Hash32 × List XorbFrameRow)
unfolding decode_hash xorb_quota owner parse_xorb_frames layout_rows verify_xorb_body
check_xorb codec svc claims hash_hex body = do
  hash ← malformed (decode_hash hash_hex)
  ensure (leb (length body) max_body_bytes) (status 400)
  xorb_quota (owner claims.repo) hash (length body) svc
  frames ← malformed (parse_xorb_frames body)
  malformed (verify_xorb_body codec body hash)
  ok (hash, layout_rows 0 frames)

abbrev pub xorb_put : Service → Result CoreError (Bool × MemBlobStore) → Reply Bool
xorb_put svc (ok (inserted, blobs)) = (record svc { blobs = blobs }, ok inserted)
xorb_put svc (err e) = (svc, err (status (code_of e)))
xorb_put svc stuck = (svc, stuck)

-- The layout is registered before the blob.
unfoldable pub store_xorb : Hash32 → List XorbFrameRow → Bytes → Service → Reply Bool
unfolding register_xorb_layout put_xorb
store_xorb hash layout body svc =
    xorb_put (record svc { meta = register_xorb_layout hash layout svc.meta })
      (put_xorb hash body svc.blobs)

abbrev pub and_then : {A B : Type 0} → Service → Result ApiError A → (A → Reply B) → Reply B
and_then svc (ok a) f = f a
and_then svc (err e) f = (svc, err e)
and_then svc stuck f = (svc, stuck)

-- The result is `was_inserted`.
unfoldable pub upload_xorb : Codec → Service → TokenClaims → Text → Bytes → Reply Bool
unfolding check_xorb store_xorb
upload_xorb codec svc claims hash_hex body =
    and_then svc (check_xorb codec svc claims hash_hex body)
      (λ (c : Hash32 × List XorbFrameRow). store_xorb c.0 c.1 body svc)
