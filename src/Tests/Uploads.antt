-- ===== src/Tests/Uploads.antt =====
-- crates/bale-server-http/src/lib.rs: a xorb of two frames is uploaded, and its terms fetched.
use baleforgit.Prelude.{
  [], arith, drop, length, ok, refl, replicate, some, suc, take, true, zero, ℕ, ◌-◌, ◌<◌, ◌∷◌, ◌≡◌,
  ◌≢◌, ◌≤◌,
}
use baleforgit.Core.{Bytes, FileTerm, Hash32, RepoType, Scope, Text, TokenClaims}
use baleforgit.Http.Downloads.{fetch_and_decompress_term, max_term_unpacked_bytes}
use baleforgit.Http.Fetched.{Holds, fetch_and_decompress_term-upload_xorb}
use baleforgit.Http.Layouts.{xorb_frame_layout-Requests}
use baleforgit.Http.Requests.{HasLayouts, none_yet, then_xorb}
use baleforgit.Http.Uploads.{Service, upload_xorb}
use baleforgit.Meta.Xorbs.{xorb_frame_layout}
use baleforgit.Storage.{new, xorb_exists}
use baleforgit.Wire.{decode_group, decode_groups, decode_hash, hex_nibble}
use baleforgit.Xorb.{Codec}
use baleforgit.Xorb.Contents.{join}

abbrev nines : Hash32
nines = replicate 32 9

abbrev sample_codec : Codec
sample_codec = record {
  decompress = λ scheme payload. some payload;
  data_hash = λ d. replicate 32 (length d);
  xorb_hash = λ entries. nines;
}

abbrev nines_hex : ℕ → Text
nines_hex zero = []
nines_hex (suc n) = b'0' ∷ b'9' ∷ nines_hex n

abbrev body : Bytes
body = 0 ∷ 3 ∷ 0 ∷ 0 ∷ 0 ∷ 3 ∷ 0 ∷ 0 ∷ 1 ∷ 2 ∷ 3 ∷ 0 ∷ 2 ∷ 0 ∷ 0 ∷ 1 ∷ 2 ∷ 0 ∷ 0 ∷ 4 ∷ 5 ∷ []

abbrev empty_service : Service
empty_service = record {
  meta = record {
    xorbs = [];
    chunks = [];
    xorb_frames = [];
    files = [];
    file_terms = [];
    owner_quotas = [];
  };
  blobs = new;
  default_quota_bytes = some 30;
}

abbrev claims : TokenClaims
claims = record {
  user = b'u' ∷ [];
  repo = record { repo_type = RepoType.model; repo_id = b'a' ∷ b'/' ∷ b'x' ∷ []; revision = [] };
  scope = Scope.write;
  expires_at = 0;
}

abbrev after_xorb : Service
after_xorb = (upload_xorb sample_codec empty_service claims (nines_hex 32) body).0

xorb_uploaded :
    upload_xorb sample_codec empty_service claims (nines_hex 32) body ≡ (after_xorb, ok true)
unfolding upload_xorb decode_groups decode_group hex_nibble
xorb_uploaded = refl

hex_decodes : decode_hash (nines_hex 32) ≡ ok nines
unfolding decode_hash decode_groups decode_group hex_nibble
hex_decodes = refl

fetch_and_decompress_term-upload_xorb_example :
    (v : Holds sample_codec nines body after_xorb) × ((t : FileTerm)
      → t.xorb ≡ nines
      → t.chunk_idx_start < t.chunk_idx_end
      → t.chunk_idx_end ≤ length v.frames
      → t.unpacked_segment_bytes ≤ max_term_unpacked_bytes
      → fetch_and_decompress_term sample_codec after_xorb t
        ≡ ok (
            join (
              take
                (t.chunk_idx_end - t.chunk_idx_start)
                (drop t.chunk_idx_start v.verified.chunks))))
fetch_and_decompress_term-upload_xorb_example =
    fetch_and_decompress_term-upload_xorb sample_codec empty_service after_xorb claims
      (nines_hex 32) body nines (omega arith) hex_decodes refl xorb_uploaded

empty-HasLayouts : HasLayouts empty_service
unfolding xorb_exists
empty-HasLayouts hash h = absurd (cc h)

stored_there : xorb_exists nines after_xorb.blobs ≡ true
unfolding xorb_exists upload_xorb decode_groups decode_group hex_nibble
stored_there = refl

sample_blake3 : Bytes → Hash32
sample_blake3 bytes = replicate 32 1

xorb_frame_layout-Requests_example : xorb_frame_layout nines after_xorb.meta ≢ []
xorb_frame_layout-Requests_example =
    xorb_frame_layout-Requests sample_codec sample_blake3 empty_service after_xorb nines
      (then_xorb empty_service empty_service after_xorb claims (nines_hex 32) body (ok true)
        (none_yet empty_service) xorb_uploaded)
      empty-HasLayouts stored_there
