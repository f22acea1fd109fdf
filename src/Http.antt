-- ===== src/Http.antt =====
-- crates/bale-server-http/src/lib.rs: from a file's term to the bytes of its xorb. `upload_xorb` stores
-- the layout of the frames, `build_reconstruction_response` turns a term into a signed byte range, and
-- `get_xorb_transfer` serves that range. HMAC and the clock are parameters, and a header arrives here
-- parsed.
pub mod Transfer
pub mod Signed
pub mod Uploads
pub mod ShardUploads
pub mod Replies
pub mod Quotas
pub mod Rejected
pub mod Requests
pub mod Layouts
pub mod Downloads
pub mod Fetched
pub mod Auth
pub mod Usage
pub mod Limits
use baleforgit.Prelude.{
  List, Option, Result, [], ensure, err, get_elem?, if◌then◌else◌, leb, length, ltb, none, ok, some,
  stuck, ℕ, ◌&&◌, ◌+◌, ◌-◌, ◌==◌, ◌>>=◌, ◌>>◌, ◌||◌, ◌∷◌,
}
use baleforgit.Authz.{ct_eq}
use baleforgit.Core.{
  Bytes, CoreError, FileTerm, Text, XorbFrameRow, bad_request, conflict, forbidden, internal,
  not_found, unauthorized,
}
use baleforgit.Storage.{MemBlobStore, get_xorb_range}
use baleforgit.Wire.{decode_hash}
use baleforgit.Xorb.{XorbChunkFrame}

-- The status code; the messages are not modelled.
pub data ApiError : Type 0 where
  status : ℕ → ApiError
  -- an index out of bounds, where Rust panics
  panicked : ApiError

-- The rows that `upload_xorb` registers, from index `i` on.
unfoldable pub layout_rows : ℕ → List XorbChunkFrame → List XorbFrameRow
layout_rows i [] = []
layout_rows i (f ∷ fs) =
    record {
      frame_index = i;
      on_disk_start = f.on_disk_start;
      on_disk_len = f.on_disk_len;
      uncompressed_len = f.uncompressed_len;
    }
    ∷ layout_rows (i + 1) fs

abbrev pub frames_range : Option XorbFrameRow → Option XorbFrameRow → Result ApiError (ℕ × ℕ)
frames_range (some a) (some b) = ok (a.on_disk_start, b.on_disk_start + b.on_disk_len - 1)
frames_range _ _ = err panicked

-- `byte_start` and `byte_end_inclusive` of a term; a frame has a header, so no length is 0.
unfoldable pub term_range : List XorbFrameRow → FileTerm → Result ApiError (ℕ × ℕ)
term_range layout t =
    if leb t.chunk_idx_end t.chunk_idx_start || ltb (length layout) t.chunk_idx_end
    then err (status 500)
    else frames_range (get_elem? layout t.chunk_idx_start) (get_elem? layout (t.chunk_idx_end - 1))

pub record TransferQuery : Type 0 where
  pub s : ℕ
  pub e : ℕ
  pub x : ℕ
  pub sig : Text

abbrev pub code_of : CoreError → ℕ
code_of not_found = 404
code_of bad_request = 400
code_of conflict = 409
code_of unauthorized = 401
code_of forbidden = 403
code_of internal = 500

-- `?` on a `CoreResult`
abbrev pub from_core : {A : Type 0} → Result CoreError A → Result ApiError A
from_core (ok a) = ok a
from_core (err e) = err (status (code_of e))
from_core stuck = stuck

-- `map_err(|e| bad_req(…))?`
abbrev pub malformed : {E A : Type 0} → Result E A → Result ApiError A
malformed (ok a) = ok a
malformed (err e) = err (status 400)
malformed stuck = stuck

abbrev pub range_header : Option (Option (ℕ × ℕ)) → Result ApiError (ℕ × ℕ)
range_header none = err (status 401)
range_header (some none) = err (status 400)
range_header (some (some r)) = ok r

-- `sign` is HMAC-SHA256 of the hash and the three numbers under the server's secret; `header` is
-- what `parse_byte_range_header` makes of the header `range`. The end of a range that the server has
-- signed is below `u64::MAX`, so that `q.e + 1` does not overflow.
unfoldable pub get_xorb_transfer :
    (Text → ℕ → ℕ → ℕ → Text)
    → ℕ
    → MemBlobStore
    → Text
    → TransferQuery
    → Option (Option (ℕ × ℕ))
    → Result ApiError Bytes
unfolding decode_hash ct_eq get_xorb_range
get_xorb_transfer sign now blobs hash_hex q header = do
  hash ← malformed (decode_hash hash_hex)
  ensure (ct_eq (sign hash_hex q.s q.e q.x) q.sig) (status 401)
  ensure (leb now q.x) (status 401)
  (req_start, req_end) ← range_header header
  ensure (req_start == q.s && req_end == q.e) (status 401)
  from_core (get_xorb_range hash q.s (q.e + 1) blobs)
