-- ===== src/Filter/Smudge.antt =====
-- crates/git-bale/src/local_reconstruct.rs, and `handle_smudge` of
-- crates/git-bale/src/filter_process.rs. The bytes of the temporary file are those that the path which
-- succeeds has written.
use baleforgit.Prelude.{
  Bool, List, Option, Result, [], drop, err, false, if◌then◌else◌, leb, length, none, ok, some,
  stuck, true, ℕ, ◌&&◌, ◌++◌, ◌+◌, ◌==◌, ◌>>=◌, ◌||◌, ◌∷◌,
}
use baleforgit.Core.{Bytes, Text}
use baleforgit.Filter.{CachedTerm, RawConfig, Repo, Turn, Xet, XetFileInfo}
use baleforgit.Filter.Clean.{success_reply}
use baleforgit.Filter.CleanCache.{compute_chunks_from_slice}
use baleforgit.Filter.Pointer.{PointerError, parse_pointer, pointer_max_bytes}
use baleforgit.Pkt.{PktError}
use baleforgit.Pkt.Read.{read_binary_to}
use baleforgit.Prelude.Utf8.{is_utf8}
use baleforgit.Table.{get, insert}

abbrev pub smudge_payload_cap : ℕ
smudge_payload_cap = pointer_max_bytes + 4096

abbrev pub is_lower_hex : ℕ → Bool
is_lower_hex c = (leb b'0' c && leb c b'9') || (leb b'a' c && leb c b'f')

unfoldable pub all_lower_hex : Text → Bool
all_lower_hex [] = true
all_lower_hex (c ∷ s) = is_lower_hex c && all_lower_hex s

unfoldable pub is_safe_file_id : Text → Bool
unfolding all_lower_hex
is_safe_file_id s = length s == 64 && all_lower_hex s

-- What `try_reconstruct_from_cache` comes to, a miss with what the temporary file then holds; a
-- malformed hash is an error.
pub data CacheReconstructOutcome : Type 0 where
  wrote miss : Bytes → CacheReconstructOutcome
  malformed_hash : CacheReconstructOutcome

module _ {Objects : Type 0} (xet : Xet Objects) where
  abbrev pub after_chunk :
      Option (Option Bytes)
      → ℕ
      → Bytes
      → (Bytes → CacheReconstructOutcome)
      → CacheReconstructOutcome
  after_chunk none unpacked out next = malformed_hash
  after_chunk (some none) unpacked out next = miss out
  after_chunk (some (some data_bytes)) unpacked out next =
      if length data_bytes == unpacked then next (out ++ data_bytes) else miss out

  unfoldable pub reconstruct_loop : ℕ → List CachedTerm → Bytes → CacheReconstructOutcome
  reconstruct_loop expected_size [] out =
      if length out == expected_size then wrote out else miss out
  reconstruct_loop expected_size (t ∷ ts) out =
      after_chunk (xet.chunk_cache_get t.xorb_hash t.chunk_start t.chunk_end) t.unpacked_length out
        (λ more. reconstruct_loop expected_size ts more)

  unfoldable pub try_reconstruct_from_cache : List CachedTerm → ℕ → CacheReconstructOutcome
  unfolding reconstruct_loop
  try_reconstruct_from_cache terms expected_size = reconstruct_loop expected_size terms []

  abbrev pub hot_path : Option (List CachedTerm) → ℕ → CacheReconstructOutcome
  unfolding try_reconstruct_from_cache
  hot_path none file_size = miss []
  hot_path (some terms) file_size = try_reconstruct_from_cache terms file_size

  -- `try_smudge_from_store`
  abbrev pub from_store : Option Objects → XetFileInfo → ℕ → Option Bytes
  from_store none info file_size = none
  from_store (some objects) info file_size = xet.download_local info file_size objects

  abbrev pub is_staged : Option ℕ → Bool
  is_staged none = false
  is_staged (some size) = true

  -- Written from the start of a file that holds `old` and is not truncated.
  abbrev pub over : Bytes → Option Bytes → Option Bytes
  over old none = none
  over old (some bytes) = some (bytes ++ drop (length bytes) old)

  -- The lukewarm path, in server mode: there `raw.local_mode` is false. The file still holds what the
  -- hot path has left.
  abbrev pub staged_bytes : Repo Objects → XetFileInfo → ℕ → Bytes → Option Bytes
  unfolding get
  staged_bytes repo info file_size old =
      if is_staged (get info.hash repo.markers)
      then over old (from_store repo.store info file_size)
      else none

  abbrev pub whole : ℕ → Option Bytes → Option Bytes
  whole file_size none = none
  whole file_size (some bytes) = if length bytes == file_size then some bytes else none

  abbrev pub saved_manifest :
      Text
      → Option (List CachedTerm)
      → List (Text × List CachedTerm)
      → List (Text × List CachedTerm)
  unfolding insert
  saved_manifest hash none manifests = manifests
  saved_manifest hash (some terms) manifests = insert hash terms manifests

  -- The cold path, with the manifest that it fetches for the next time.
  abbrev pub cold_path : Repo Objects → XetFileInfo → ℕ → Repo Objects × Option Bytes
  unfolding insert
  cold_path repo info file_size = elim (xet.download_cold info file_size) [
    | none ↦ (repo, none)
    | some bytes ↦ (
      record repo { manifests = saved_manifest info.hash (xet.fetch_manifest info) repo.manifests },
      some bytes,
    )
  ]

  abbrev pub or_cold : Repo Objects → XetFileInfo → ℕ → Option Bytes → Repo Objects × Option Bytes
  unfolding insert
  or_cold repo info file_size none = cold_path repo info file_size
  or_cold repo info file_size (some bytes) = (repo, some bytes)

  -- The bytes of the file, by the path that has them.
  unfoldable pub smudge_bytes :
      RawConfig → Repo Objects → XetFileInfo → ℕ → Repo Objects × Option Bytes
  unfolding try_reconstruct_from_cache get insert
  smudge_bytes cfg repo info file_size = elim (hot_path (get info.hash repo.manifests) file_size) [
    | malformed_hash ↦ (repo, none)
    | wrote bytes ↦ (repo, some bytes)
    | miss old ↦
        if cfg.local_mode
        then (repo, whole file_size (from_store repo.store info file_size))
        else or_cold repo info file_size (staged_bytes repo info file_size old)
  ]

  -- `populate_clean_cache_from_smudge`
  unfoldable pub populate_clean_cache : Text → Bytes → Bytes → ℕ → Repo Objects → Repo Objects
  unfolding is_utf8 compute_chunks_from_slice insert
  populate_clean_cache pathname content pointer_bytes file_size repo =
      if is_utf8 pointer_bytes
      then record repo {
        clean_cache =
            insert (xet.path_key pathname)
              (record {
                size = file_size;
                chunks = compute_chunks_from_slice xet content;
                pointer = pointer_bytes;
              })
              repo.clean_cache;
      }
      else repo

  abbrev pub failed_turn : Repo Objects → Bytes → Result PktError (Turn Objects)
  failed_turn repo rest = ok (record { repo = repo; rest = rest; out = []; failed = true })

  unfoldable pub finish_smudge :
      Text → Bytes → ℕ → Bytes → Repo Objects × Option Bytes → Result PktError (Turn Objects)
  unfolding populate_clean_cache success_reply
  finish_smudge pathname pointer_bytes file_size rest (repo, none) = failed_turn repo rest
  finish_smudge pathname pointer_bytes file_size rest (repo, some content) = do
    out ← success_reply content
    ok (record {
      repo = populate_clean_cache pathname content pointer_bytes file_size repo;
      rest = rest;
      out = out;
      failed = false;
    })

  unfoldable pub smudge_info :
      RawConfig
      → Repo Objects
      → Text
      → Bytes
      → Bytes
      → XetFileInfo
      → Option ℕ
      → Result PktError (Turn Objects)
  unfolding is_safe_file_id smudge_bytes finish_smudge
  smudge_info cfg repo pathname pointer_bytes rest info none = failed_turn repo rest
  smudge_info cfg repo pathname pointer_bytes rest info (some file_size) =
      if is_safe_file_id info.hash
      then finish_smudge pathname pointer_bytes file_size rest
          (smudge_bytes cfg repo info file_size)
      else failed_turn repo rest

  abbrev pub smudge_pointer :
      RawConfig
      → Repo Objects
      → Text
      → Bytes
      → Bytes
      → Result PointerError XetFileInfo
      → Result PktError (Turn Objects)
  unfolding smudge_info
  smudge_pointer cfg repo pathname pointer_bytes rest (ok info) =
      smudge_info cfg repo pathname pointer_bytes rest info info.file_size
  smudge_pointer cfg repo pathname pointer_bytes rest (err e) = failed_turn repo rest
  smudge_pointer cfg repo pathname pointer_bytes rest stuck = stuck

  unfoldable pub handle_smudge :
      RawConfig → Repo Objects → Text → Bytes → Result PktError (Turn Objects)
  unfolding read_binary_to parse_pointer smudge_info
  handle_smudge cfg repo pathname s = do
    let sunk = read_binary_to smudge_payload_cap s []
    (total, rest) ← sunk.1
    smudge_pointer cfg repo pathname sunk.0 rest (parse_pointer xet.from_json sunk.0)
