-- ===== src/Http/Requests.antt =====
-- The uploads that a service answers, one after the other, and what an accepted xorb has passed.
use baleforgit.Prelude.{
  >>=-eq-ok, Bool, List, Result, ap, ensure, leb, length, ok, ok-injective, subst, true, ℕ, ◌∙◌,
  ◌≡◌,
}
use baleforgit.Core.{Bytes, Hash32, Text, TokenClaims, XorbFrameRow, owner}
use baleforgit.Http.{ApiError, layout_rows, malformed, status}
use baleforgit.Http.Replies.{malformed-ok}
use baleforgit.Http.ShardUploads.{Faults, upload_shard}
use baleforgit.Http.Uploads.{Service, check_xorb, max_body_bytes, upload_xorb, xorb_quota}
use baleforgit.Meta.Layouts.{has_frames}
use baleforgit.Storage.{xorb_exists}
use baleforgit.Wire.{decode_hash}
use baleforgit.Xorb.{Codec, XorbChunkFrame, parse_xorb_frames, verify_xorb_body}

-- The service after some uploads, accepted or refused.
pub data Requests (codec : Codec) (blake3 : Bytes → Hash32) : Service → Service → Type 0 where
  none_yet : (svc : Service) → Requests codec blake3 svc svc
  then_xorb :
      (svc s s' : Service) (claims : TokenClaims) (hash_hex : Text) (body : Bytes)
      (r : Result ApiError Bool)
      → Requests codec blake3 svc s
      → upload_xorb codec s claims hash_hex body ≡ (s', r)
      → Requests codec blake3 svc s'
  then_shard :
      (faults : Faults) (svc s s' : Service) (claims : TokenClaims) (body : Bytes)
      (r : Result ApiError ℕ)
      → Requests codec blake3 svc s
      → upload_shard blake3 faults s claims body ≡ (s', r)
      → Requests codec blake3 svc s'

-- Frames are registered of every stored xorb.
abbrev pub HasLayouts : Service → Type 0
HasLayouts svc =
    (hash : Hash32)
    → xorb_exists hash svc.blobs ≡ true
    → has_frames hash svc.meta.xorb_frames ≡ true

-- What an accepted xorb has passed.
pub record CheckedXorb (codec : Codec) (hash_hex : Text) (body : Bytes) (hash : Hash32)
    (layout : List XorbFrameRow) : Type 0 where
  pub frames : List XorbChunkFrame
  pub decoded : decode_hash hash_hex ≡ ok hash
  pub parsed : parse_xorb_frames body ≡ ok frames
  pub verified : verify_xorb_body codec body hash ≡ ok tt
  pub rows : layout_rows 0 frames ≡ layout

pub check_xorb-CheckedXorb :
    (codec : Codec) (svc : Service) (claims : TokenClaims) (hash_hex : Text) (body : Bytes)
    (hash : Hash32) (layout : List XorbFrameRow)
    → check_xorb codec svc claims hash_hex body ≡ ok (hash, layout)
    → CheckedXorb codec hash_hex body hash layout
unfolding check_xorb
check_xorb-CheckedXorb codec svc claims hash_hex body hash layout h =
    let (hash', p₁, h₁) = >>=-eq-ok (malformed (decode_hash hash_hex)) _ h in
    let (_, _, h₂) = >>=-eq-ok (ensure (leb (length body) max_body_bytes) (status 400)) _ h₁ in
    let (_, _, h₃) = >>=-eq-ok (xorb_quota (owner claims.repo) hash' (length body) svc) _ h₂ in
    let (frames, p₄, h₄) = >>=-eq-ok (malformed (parse_xorb_frames body)) _ h₃ in
    let (_, p₅, h₅) = >>=-eq-ok (malformed (verify_xorb_body codec body hash')) _ h₄ in
    let pair : (hash', layout_rows 0 frames) ≡ (hash, layout) = ok-injective h₅ in
    let same : hash' ≡ hash = ap (λ p. p.0) pair in
    record {
      frames = frames;
      decoded = malformed-ok (decode_hash hash_hex) p₁ ∙ ap (λ h. ok h) same;
      parsed = malformed-ok (parse_xorb_frames body) p₄;
      verified =
          subst (λ h. verify_xorb_body codec body h ≡ ok tt) same
            (malformed-ok (verify_xorb_body codec body hash') p₅);
      rows = ap (λ p. p.1) pair;
    }
