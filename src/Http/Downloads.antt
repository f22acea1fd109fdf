-- ===== src/Http/Downloads.antt =====
-- crates/bale-server-http/src/lib.rs: `get_file_download` and what it streams. The access check of the
-- forge, the claim that a token carries of a file name and SHA-256 are parameters.
use baleforgit.Prelude.{
  Bool, List, Option, Result, [], ensure, err, false, get_elem?, if◌then◌else◌, leb, length, ltb,
  none, not, ok, some, stuck, true, ℕ, ◌&&◌, ◌*◌, ◌+◌, ◌-◌, ◌==◌, ◌>>=◌, ◌>>◌, ◌||◌, ◌∷◌,
}
use baleforgit.Authz.{ct_eq}
use baleforgit.Core.{
  Bytes, CoreError, FileTerm, RepoRef, RepoType, Text, XorbFrameRow, before_slash,
}
use baleforgit.Http.{ApiError, from_core, malformed, panicked, status}
use baleforgit.Http.Uploads.{Service}
use baleforgit.Meta.{file_in_repo, lookup_file, term_sum}
use baleforgit.Meta.Xorbs.{xorb_frame_layout}
use baleforgit.Storage.{found, get_xorb_range}
use baleforgit.Wire.{decode_hash}
use baleforgit.Xorb.{Codec, decompress_xorb_chunks_into}

abbrev pub max_term_unpacked_bytes : ℕ
max_term_unpacked_bytes = 128 * 1024 * 1024

abbrev pub no_layout : List XorbFrameRow → Bool
no_layout [] = true
no_layout (f ∷ fs) = false

-- `byte_start` and `byte_end`
abbrev pub frames_span : Option XorbFrameRow → Option XorbFrameRow → Result ApiError (ℕ × ℕ)
frames_span (some a) (some b) = ok (a.on_disk_start, b.on_disk_start + b.on_disk_len)
frames_span _ _ = err panicked

abbrev pub server_error : {E A : Type 0} → Result E A → Result ApiError A
server_error (ok a) = ok a
server_error (err e) = err (status 500)
server_error stuck = stuck

unfoldable pub fetch_and_decompress_term : Codec → Service → FileTerm → Result ApiError Bytes
unfolding xorb_frame_layout get_xorb_range decompress_xorb_chunks_into
fetch_and_decompress_term codec svc term =
    let layout = xorb_frame_layout term.xorb svc.meta in
    do
      ensure (not (no_layout layout)) (status 500)
      ensure
          (not
            (leb term.chunk_idx_end term.chunk_idx_start || ltb (length layout) term.chunk_idx_end))
          (status 500)
      (byte_start, byte_end) ←
          frames_span (get_elem? layout term.chunk_idx_start)
            (get_elem? layout (term.chunk_idx_end - 1))
      ensure (leb term.unpacked_segment_bytes max_term_unpacked_bytes) (status 500)
      body ← from_core (get_xorb_range term.xorb byte_start byte_end svc.blobs)
      server_error (decompress_xorb_chunks_into codec body [])

abbrev pub is_ok : {A : Type 0} → Result ApiError A → Bool
is_ok (ok a) = true
is_ok (err e) = false
is_ok stuck = false

-- The items that are streamed: the first that fails is the last.
unfoldable pub stream_terms : Codec → Service → List FileTerm → List (Result ApiError Bytes)
unfolding fetch_and_decompress_term
stream_terms codec svc [] = []
stream_terms codec svc (t ∷ ts) =
    let item = fetch_and_decompress_term codec svc t in
    let rest = stream_terms codec svc ts in if is_ok item then item ∷ rest else item ∷ []

abbrev pub has_slash : Text → Bool
has_slash [] = false
has_slash (c ∷ s) = c == b'/' || has_slash s

abbrev pub after_slash : Text → Text
after_slash [] = []
after_slash (c ∷ s) = let rest = after_slash s in if c == b'/' then s else rest

abbrev pub is_empty_text : Text → Bool
is_empty_text [] = true
is_empty_text (c ∷ s) = false

-- The revision is "main".
unfoldable pub parse_owner_name : Text → Result ApiError RepoRef
unfolding before_slash
parse_owner_name repo = do
  ensure (has_slash repo) (status 400)
  ensure (not (is_empty_text (before_slash repo) || is_empty_text (after_slash repo))) (status 400)
  ok (record {
    repo_type = RepoType.model;
    repo_id = repo;
    revision = b'm' ∷ b'a' ∷ b'i' ∷ b'n' ∷ [];
  })

-- A byte of an ASCII character that may stand in a quoted value. The bytes of any other character
-- are 128 and more.
abbrev pub is_kept : ℕ → Bool
is_kept c = leb 32 c && leb c 126 && not (c == b'"' || c == b'\\')

unfoldable pub sanitize_filename : Text → Text
sanitize_filename [] = []
sanitize_filename (c ∷ name) =
    let rest = sanitize_filename name in if is_kept c then c ∷ rest else rest

abbrev pub sanitized : Option Text → Option Text
unfolding sanitize_filename
sanitized none = none
sanitized (some name) = some (sanitize_filename name)

abbrev pub validated_filename :
    (Text → Text) → Option Text → Option Text → Result ApiError (Option Text)
unfolding ct_eq
validated_filename sha256_hex (some name) (some claim) =
    ensure (ct_eq (sha256_hex name) claim) (status 400) >> ok (some name)
validated_filename sha256_hex _ _ = ok none

-- The headers and the items of a body; the name is what stands quoted in `content-disposition`.
pub record Download : Type 0 where
  pub content_length : ℕ
  pub disposition : Option Text
  pub items : List (Result ApiError Bytes)

abbrev pub or_not_found : {A : Type 0} → Option A → Result ApiError A
or_not_found none = err (status 404)
or_not_found (some a) = ok a

pub record Forge : Type 0 where
  -- `check_repo_access` for reading, by the token and the repository
  pub check_access : Text → RepoRef → Result CoreError Text
  -- `extract_filename_sha256`
  pub filename_claim : Text → Option Text
  -- `hex::encode` of SHA-256
  pub sha256_hex : Text → Text

module _ (codec : Codec) (forge : Forge) (limit_1 : List ℕ → Option ℕ) where
  unfoldable pub get_file_download :
      Service → Text → Text → Text → Option Text → Result ApiError Download
  unfolding decode_hash parse_owner_name file_in_repo lookup_file term_sum stream_terms
      sanitize_filename ct_eq
  get_file_download svc file_hex repo_name token filename = do
    hash ← malformed (decode_hash file_hex)
    repo ← parse_owner_name repo_name
    user ← from_core (forge.check_access token repo)
    ensure (file_in_repo hash repo.repo_id svc.meta) (status 404)
    name ← validated_filename forge.sha256_hex filename (forge.filename_claim token)
    found ← from_core (lookup_file limit_1 hash svc.meta)
    terms ← or_not_found found
    ok (record {
      content_length = term_sum terms;
      disposition = sanitized name;
      items = stream_terms codec svc terms;
    })
