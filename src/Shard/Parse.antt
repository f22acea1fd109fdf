-- ===== src/Shard/Parse.antt =====
-- `parse` of crates/bale-server-shard/src/lib.rs. Each `loop` and `for` is a function. A `loop` takes
-- fuel: a round reads 48 bytes at least, so one more than the length of the input is enough.
use baleforgit.Prelude.{
  List, Option, Result, [], err, if◌then◌else◌, length, ltb, none, not, ok, some, stuck, suc, zero,
  ℕ, ◌%◌, ◌*◌, ◌-◌, ◌/◌, ◌==◌, ◌^◌, ◌∷◌,
}
use baleforgit.Core.{Bytes, Hash32}
use baleforgit.Shard.{
  CasChunkEntry, FileTermEntry, ParsedCasBlock, ParsedFile, ParsedShard, ShardError, ShardFooter,
  ShardHeader, bad_footer_offset, bad_footer_version, bad_header_version, entry_size,
  flag_with_metadata_ext, flag_with_verification, footer_version, has_flag, header_version,
  is_bookend_hash, max_shard_bytes, shard_footer_size, swap_groups, swap_u64_groups, too_large,
  truncated,
}
use baleforgit.Shard.Cursor.{
  Reader, fail, pure, read_hash, read_u32, read_u64, remaining, skip, ◌>>=◌, ◌>>◌,
}

-- The file terms are refused where `num_entries` is above `(c.remaining() / ENTRY_SIZE) as u32`.
unfoldable pub room_for_terms : ℕ → Reader (Unit {0})
room_for_terms n c =
    if ltb (remaining c / entry_size % 2 ^ 32) n
    then err (truncated c.pos (n * entry_size - remaining c))
    else ok (tt, c)

-- The same guard with no cast, before the verification entries and before the chunks.
unfoldable pub room_for : ℕ → Reader (Unit {0})
room_for n c =
    if ltb (remaining c / entry_size) n
    then err (truncated c.pos (n * entry_size - remaining c))
    else ok (tt, c)

unfoldable pub parse_term : Reader FileTermEntry
parse_term = do
  cas_hash ← read_hash
  cas_flags ← read_u32
  unpacked ← read_u32
  start ← read_u32
  end ← read_u32
  pure (record {
    xorb = cas_hash;
    cas_flags = cas_flags;
    unpacked_segment_bytes = unpacked;
    chunk_idx_start = start;
    chunk_idx_end = end;
  })

unfoldable pub parse_terms : ℕ → Reader (List FileTermEntry)
unfolding parse_term
parse_terms zero = pure []
parse_terms (suc n) = do e ← parse_term; es ← parse_terms n; pure (e ∷ es)

unfoldable pub parse_verifications : ℕ → Reader (List Hash32)
parse_verifications zero = pure []
parse_verifications (suc n) = do
  range_hash ← read_hash
  skip 16
  hs ← parse_verifications n
  pure (range_hash ∷ hs)

unfoldable pub parse_verification_section : ℕ → ℕ → Reader (List Hash32)
unfolding parse_verifications room_for
parse_verification_section flags n =
    if has_flag flags flag_with_verification
    then (do room_for n; parse_verifications n)
    else pure []

unfoldable pub parse_sha256 : ℕ → Reader (Option Hash32)
unfolding swap_u64_groups swap_groups
parse_sha256 flags =
    if has_flag flags flag_with_metadata_ext
    then (do h ← read_hash; skip 16; pure (some (swap_u64_groups h)))
    else pure none

-- one round of the file loop, behind the test for the bookend
unfoldable pub parse_file : Hash32 → ℕ → ℕ → Reader ParsedFile
unfolding parse_terms parse_verification_section parse_sha256 room_for_terms
parse_file file_hash flags n = do
  room_for_terms n
  entries ← parse_terms n
  verifications ← parse_verification_section flags n
  sha256 ← parse_sha256 flags
  pure (record {
    file_hash = file_hash;
    file_flags = flags;
    entries = entries;
    verifications = verifications;
    sha256 = sha256;
  })

unfoldable pub parse_files : ℕ → Reader (List ParsedFile)
unfolding parse_file is_bookend_hash
parse_files zero = λ _. stuck
parse_files (suc fuel) = do
  file_hash ← read_hash
  flags ← read_u32
  n ← read_u32
  skip 8
  if is_bookend_hash file_hash
      then pure []
      else do f ← parse_file file_hash flags n; fs ← parse_files fuel; pure (f ∷ fs)

unfoldable pub parse_chunk : Reader CasChunkEntry
parse_chunk = do
  chunk_hash ← read_hash
  byte_start ← read_u32
  unpacked ← read_u32
  skip 8
  pure (record {
    chunk_hash = chunk_hash;
    byte_start = byte_start;
    unpacked_segment_bytes = unpacked;
  })

unfoldable pub parse_chunks : ℕ → Reader (List CasChunkEntry)
unfolding parse_chunk
parse_chunks zero = pure []
parse_chunks (suc n) = do e ← parse_chunk; es ← parse_chunks n; pure (e ∷ es)

unfoldable pub parse_cas_block : Hash32 → ℕ → ℕ → ℕ → ℕ → Reader ParsedCasBlock
unfolding parse_chunks room_for
parse_cas_block cas_hash flags n in_cas on_disk = do
  room_for n
  chunks ← parse_chunks n
  pure (record {
    xorb = cas_hash;
    cas_flags = flags;
    num_bytes_in_cas = in_cas;
    num_bytes_on_disk = on_disk;
    chunks = chunks;
  })

unfoldable pub parse_cas_blocks : ℕ → Reader (List ParsedCasBlock)
unfolding parse_cas_block is_bookend_hash
parse_cas_blocks zero = λ _. stuck
parse_cas_blocks (suc fuel) = do
  cas_hash ← read_hash
  flags ← read_u32
  n ← read_u32
  in_cas ← read_u32
  on_disk ← read_u32
  if is_bookend_hash cas_hash then pure [] else do
    b ← parse_cas_block cas_hash flags n in_cas on_disk
    bs ← parse_cas_blocks fuel
    pure (b ∷ bs)

-- `len` is `bytes.len()`.
unfoldable pub parse_footer : ℕ → Reader ShardFooter
parse_footer len = do
  fv ← read_u64
  if not (fv == footer_version) then fail (bad_footer_version fv) else do
    file_info_offset ← read_u64
    cas_info_offset ← read_u64
    skip 48
    hmac_key ← read_hash
    created ← read_u64
    expiry ← read_u64
    skip 72
    footer_offset ← read_u64
    if ltb len footer_offset
        then fail (bad_footer_offset footer_offset len)
        else pure (record {
          version = fv;
          file_info_offset = file_info_offset;
          cas_info_offset = cas_info_offset;
          chunk_hash_hmac_key = hmac_key;
          shard_creation_timestamp = created;
          shard_key_expiry = expiry;
          footer_offset = footer_offset;
        })

unfoldable pub parse_optional_footer : ℕ → ℕ → Reader (Option ShardFooter)
unfolding parse_footer
parse_optional_footer len size =
    if size == shard_footer_size then (do ft ← parse_footer len; pure (some ft)) else pure none

unfoldable pub parse_header : Reader ShardHeader
parse_header = do
  tag ← read_hash
  version ← read_u64
  if not (version == header_version)
      then fail (bad_header_version version)
      else do size ← read_u64; pure (record { tag = tag; version = version; footer_size = size })

unfoldable pub parse_body : ℕ → Reader ParsedShard
unfolding parse_header parse_files parse_cas_blocks parse_optional_footer
parse_body len = do
  header ← parse_header
  files ← parse_files (suc len)
  cas_blocks ← parse_cas_blocks (suc len)
  footer ← parse_optional_footer len header.footer_size
  pure (record { header = header; files = files; cas_blocks = cas_blocks; footer = footer })

unfoldable pub parse : Bytes → Result ShardError ParsedShard
unfolding parse_body
parse bytes =
    if ltb max_shard_bytes (length bytes)
    then err (too_large (length bytes))
    else elim (parse_body (length bytes) (record { buf = bytes; pos = 0 })) [
      | ok (s, _) ↦ ok s
      | err e ↦ err e
      | stuck ↦ stuck
    ]
