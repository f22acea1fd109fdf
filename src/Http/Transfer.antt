-- ===== src/Http/Transfer.antt =====
-- A term of a file, from its range to the chunks that the client decompresses.
use baleforgit.Prelude.{
  List, [], ap, arith, drop, get_elem?, length, ok, refl, some, suc, take, zero, ℕ, ◌++◌, ◌+◌, ◌-◌,
  ◌<◌, ◌∷◌, ◌≡◌,
}
use baleforgit.Core.{Bytes, FileTerm, Hash32, Text, XorbFrameRow}
use baleforgit.Http.{TransferQuery, get_xorb_transfer, layout_rows, term_range}
use baleforgit.Storage.{MemBlobStore}
use baleforgit.Storage.Puts.{Puts}
use baleforgit.Wire.{encode_hash}
use baleforgit.Xorb.{Codec, XorbChunkFrame, decompress_xorb_chunks_into}
use baleforgit.Xorb.Contents.{join}
use baleforgit.Xorb.Frames.{layout}

pub length-layout_rows : (i : ℕ) (fs : List XorbChunkFrame) → length (layout_rows i fs) ≡ length fs
unfolding layout_rows
length-layout_rows i [] = refl
length-layout_rows i (f ∷ fs) = ap suc (length-layout_rows (i + 1) fs)

-- A row lies where its frame lies.
pub record RowAt (fs : List XorbChunkFrame) (rows : List XorbFrameRow) (k : ℕ) : Type 0 where
  pub frame : XorbChunkFrame
  pub row : XorbFrameRow
  pub is_frame : get_elem? fs k ≡ some frame
  pub is_row : get_elem? rows k ≡ some row
  pub start : row.on_disk_start ≡ frame.on_disk_start
  pub len : row.on_disk_len ≡ frame.on_disk_len

pub row_at : (i k : ℕ) (fs : List XorbChunkFrame) → k < length fs → RowAt fs (layout_rows i fs) k
unfolding layout_rows
row_at i k [] h = absurd (omega arith)
row_at i zero (f ∷ fs) h = record {
  frame = f;
  row = record {
    frame_index = i;
    on_disk_start = f.on_disk_start;
    on_disk_len = f.on_disk_len;
    uncompressed_len = f.uncompressed_len;
  };
  is_frame = refl;
  is_row = refl;
  start = refl;
  len = refl;
}
row_at i (suc k) (f ∷ fs) h =
    let r = row_at (i + 1) k fs (omega arith) in
    record {
      frame = r.frame;
      row = r.row;
      is_frame = r.is_frame;
      is_row = r.is_row;
      start = r.start;
      len = r.len;
    }

-- The request that the URL of a term's range stands for.
abbrev pub signed : (Text → ℕ → ℕ → ℕ → Text) → Text → ℕ × ℕ → ℕ → TransferQuery
signed sign hash_hex range x = record {
  s = range.0;
  e = range.1;
  x = x;
  sig = sign hash_hex range.0 range.1 x;
}

-- What the client gets for a term: the range, and bytes that decompress to the term's chunks.
pub record Served (codec : Codec) (sign : Text → ℕ → ℕ → ℕ → Text) (now x : ℕ)
    (blobs : MemBlobStore) (hash : Hash32) (layout : List XorbFrameRow) (t : FileTerm)
    (chunks : List Bytes) : Type 0 where
  pub range : ℕ × ℕ
  pub bytes : Bytes
  pub in_layout : term_range layout t ≡ ok range
  pub served :
      get_xorb_transfer sign now blobs
        (encode_hash hash)
        (signed sign (encode_hash hash) range x)
        (some (some range))
      ≡ ok bytes
  pub decompressed :
      (out : Bytes)
      → decompress_xorb_chunks_into codec bytes out
        ≡ ok (
            out
            ++ join (take (t.chunk_idx_end - t.chunk_idx_start) (drop t.chunk_idx_start chunks)))
