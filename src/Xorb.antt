-- ===== src/Xorb.antt =====
-- crates/bale-server-shard/src/xorb.rs: the frames of a xorb body, its verification against the hash
-- and its decompression. The decompressors and the hash functions are those of the crate
-- `xet_core_structures`, and stand here as a parameter.
pub mod Frames
mod Rounds
pub mod Accepted
pub mod Ranges
pub mod Contents
pub mod Bounds
use baleforgit.Prelude.{
  List, Option, Result, [], bit_or, drop, ensure, err, if◌then◌else◌, leb, length, ltb, none, not,
  ok, some, stuck, suc, take, zero, ℕ, ◌%◌, ◌*◌, ◌++◌, ◌+◌, ◌-◌, ◌==◌, ◌>>=◌, ◌>>◌, ◌^◌, ◌∷◌,
}
use baleforgit.Core.{Bytes, Hash32, eq_bytes}

pub record XorbChunkFrame : Type 0 where
  pub on_disk_start : ℕ
  pub on_disk_len : ℕ
  pub uncompressed_len : ℕ
  pub compression_scheme : ℕ

pub data XorbParseError : Type 0 where
  empty : XorbParseError
  frame_truncated : ℕ → ℕ → ℕ → XorbParseError
  bad_compression_scheme : ℕ → ℕ → XorbParseError
  body_too_large : ℕ → ℕ → XorbParseError

pub data XorbVerifyError : Type 0 where
  unparsed : XorbParseError → XorbVerifyError
  decompress_failed : ℕ → XorbVerifyError
  length_mismatch : ℕ → ℕ → ℕ → XorbVerifyError
  hash_mismatch : XorbVerifyError

abbrev pub header_len : ℕ
header_len = 8

abbrev pub u32_max : ℕ
u32_max = 2 ^ 32 - 1

-- `bytes[i]`, at an index that is in range
abbrev pub byte_at : Bytes → ℕ → ℕ
byte_at [] i = 0
byte_at (x ∷ xs) zero = x
byte_at (x ∷ xs) (suc i) = byte_at xs i

-- `&bytes[from..to]`
abbrev pub slice : Bytes → ℕ → ℕ → Bytes
slice bytes from to = take (to - from) (drop from bytes)

unfoldable pub u24_le : Bytes → ℕ
u24_le b = bit_or (bit_or (byte_at b 0) (byte_at b 1 * 2 ^ 8)) (byte_at b 2 * 2 ^ 16)

-- The loop of `parse_xorb_frames`: `index` is `frames.len()`, and the result is what the rounds to
-- come push. A round takes eight bytes at least, so one more than the length is enough fuel. On a
-- 64-bit machine `checked_add` of two such numbers does not overflow.
unfoldable pub frames_loop : ℕ → Bytes → ℕ → ℕ → Result XorbParseError (List XorbChunkFrame)
unfolding u24_le
frames_loop zero body pos index = stuck
frames_loop (suc fuel) body pos index =
    let header = slice body pos (pos + header_len) in
    let compressed_length = u24_le (slice header 1 4) in
    let compression_scheme = byte_at header 4 in
    let uncompressed_length = u24_le (slice header 5 8) in
    let frame_len = header_len + compressed_length in
    let more : Result XorbParseError (List XorbChunkFrame) = (do
      frames ← frames_loop fuel body (pos + frame_len) (index + 1)
      ok (
          record {
            on_disk_start = pos % 2 ^ 32;
            on_disk_len = frame_len % 2 ^ 32;
            uncompressed_len = uncompressed_length;
            compression_scheme = compression_scheme;
          }
          ∷ frames)) in
    if not (leb (pos + header_len) (length body))
    then ok []
    else if not (byte_at header 0 == 0)
    then ok []
    else if ltb 2 compression_scheme
    then err (bad_compression_scheme index compression_scheme)
    else if ltb (length body) (pos + frame_len)
    then err (frame_truncated index frame_len (length body - pos))
    else more

abbrev pub nonempty : List XorbChunkFrame → Result XorbParseError (List XorbChunkFrame)
nonempty [] = err empty
nonempty (f ∷ fs) = ok (f ∷ fs)

unfoldable pub parse_xorb_frames : Bytes → Result XorbParseError (List XorbChunkFrame)
unfolding frames_loop
parse_xorb_frames body =
    if ltb u32_max (length body)
    then err (body_too_large (length body) u32_max)
    else frames_loop (suc (length body)) body 0 0 >>= nonempty

pub record Codec : Type 0 where
  -- `CompressionScheme::decompress_from_slice`, by the number of the scheme
  pub decompress : ℕ → Bytes → Option Bytes
  -- `compute_data_hash`
  pub data_hash : Bytes → Hash32
  -- `xorb_hash`, of the hashes and lengths of the chunks
  pub xorb_hash : List (Hash32 × ℕ) → Hash32

abbrev pub or_failed : Option Bytes → ℕ → Result XorbVerifyError Bytes
or_failed none i = err (decompress_failed i)
or_failed (some d) i = ok d

-- `?` on the result of `parse_xorb_frames`
abbrev pub parsed : {A : Type 0} → Result XorbParseError A → Result XorbVerifyError A
parsed (ok a) = ok a
parsed (err e) = err (unparsed e)
parsed stuck = stuck

module _ (codec : Codec) where
  -- the round of `verify_xorb_body` and of `decompress_xorb_chunks_into`: frame `i` decompressed
  unfoldable pub frame_contents : Bytes → ℕ → XorbChunkFrame → Result XorbVerifyError Bytes
  frame_contents body i f =
      let payload = slice body (f.on_disk_start + header_len) (f.on_disk_start + f.on_disk_len) in
      if ltb 2 f.compression_scheme
      then err (unparsed (bad_compression_scheme i f.compression_scheme))
      else do
        decompressed ← or_failed (codec.decompress f.compression_scheme payload) i
        ensure (length decompressed == f.uncompressed_len)
            (length_mismatch i f.uncompressed_len (length decompressed))
        ok decompressed

  unfoldable pub hash_entries :
      Bytes → ℕ → List XorbChunkFrame → Result XorbVerifyError (List (Hash32 × ℕ))
  unfolding frame_contents
  hash_entries body i [] = ok []
  hash_entries body i (f ∷ fs) = do
    decompressed ← frame_contents body i f
    entries ← hash_entries body (i + 1) fs
    ok ((codec.data_hash decompressed, length decompressed) ∷ entries)

  unfoldable pub verify_xorb_body : Bytes → Hash32 → Result XorbVerifyError (Unit {0})
  unfolding hash_entries parse_xorb_frames eq_bytes
  verify_xorb_body body expected = do
    frames ← parsed (parse_xorb_frames body)
    entries ← hash_entries body 0 frames
    ensure (eq_bytes (codec.xorb_hash entries) expected) hash_mismatch

  unfoldable pub decompress_loop :
      Bytes → ℕ → List XorbChunkFrame → Bytes → Result XorbVerifyError Bytes
  unfolding frame_contents
  decompress_loop body i [] out = ok out
  decompress_loop body i (f ∷ fs) out = do
    decompressed ← frame_contents body i f
    decompress_loop body (i + 1) fs (out ++ decompressed)

  -- `out` is returned as it stands at the end.
  unfoldable pub decompress_xorb_chunks_into : Bytes → Bytes → Result XorbVerifyError Bytes
  unfolding decompress_loop parse_xorb_frames
  decompress_xorb_chunks_into body out = do
    frames ← parsed (parse_xorb_frames body)
    decompress_loop body 0 frames out
