-- ===== src/Tests/Https.antt =====
-- crates/bale-server-http/src/lib.rs: a xorb of two frames is stored, and its second chunk fetched.
use baleforgit.Prelude.{List, [], arith, length, none, ok, refl, replicate, some, ℕ, ◌∷◌, ◌≡◌}
use baleforgit.Core.{Bytes, FileTerm, Text, zero_hash}
use baleforgit.Http.{TransferQuery, get_xorb_transfer}
use baleforgit.Http.Signed.{Checked, get_xorb_transfer-Checked}
use baleforgit.Storage.{MemBlobStore, new}
use baleforgit.Wire.{decode_group, decode_groups, hex_nibble}
use baleforgit.Xorb.{Codec}
use baleforgit.Xorb.Frames.{RawFrame}

abbrev sample_codec : Codec
sample_codec = record {
  decompress = λ scheme payload. some payload;
  data_hash = λ d. replicate 32 (length d);
  xorb_hash = λ entries. zero_hash;
}

abbrev frames : List RawFrame
frames =
    record { scheme = 0; uncompressed = 3; payload = 1 ∷ 2 ∷ 3 ∷ [] }
    ∷ record { scheme = 1; uncompressed = 2; payload = 4 ∷ 5 ∷ [] }
    ∷ []

abbrev body : Bytes
body = 0 ∷ 3 ∷ 0 ∷ 0 ∷ 0 ∷ 3 ∷ 0 ∷ 0 ∷ 1 ∷ 2 ∷ 3 ∷ 0 ∷ 2 ∷ 0 ∷ 0 ∷ 1 ∷ 2 ∷ 0 ∷ 0 ∷ 4 ∷ 5 ∷ []

abbrev store : MemBlobStore
store = record new { xorbs = (zero_hash, body) ∷ [] }

-- no MAC, but a function of what is signed
abbrev sample_sign : Text → ℕ → ℕ → ℕ → Text
sample_sign hash_hex s e x = s ∷ e ∷ x ∷ []

abbrev second_chunk : FileTerm
second_chunk = record {
  xorb = zero_hash;
  chunk_idx_start = 1;
  chunk_idx_end = 2;
  unpacked_segment_bytes = 2;
  verification = none;
}

abbrev request : TransferQuery
request = record { s = 11; e = 20; x = 400; sig = 11 ∷ 20 ∷ 400 ∷ [] }

abbrev zero_text : Text
zero_text = replicate 64 b'0'

abbrev second_frame : Bytes
second_frame = 0 ∷ 2 ∷ 0 ∷ 0 ∷ 1 ∷ 2 ∷ 0 ∷ 0 ∷ 4 ∷ 5 ∷ []

request_served :
    get_xorb_transfer sample_sign 100 store zero_text request (some (some (11, 20)))
    ≡ ok second_frame
unfolding get_xorb_transfer decode_groups decode_group hex_nibble
request_served = refl

get_xorb_transfer-Checked_example :
    Checked sample_sign 100 store zero_text request (some (some (11, 20))) second_frame
get_xorb_transfer-Checked_example =
    get_xorb_transfer-Checked sample_sign 100 store zero_text request (some (some (11, 20)))
      second_frame (omega arith) (omega arith) request_served
