-- ===== src/Tests/Xorbs.antt =====
-- crates/bale-server-shard/src/xorb.rs on a body of two frames, with a codec that stores its input.
use baleforgit.Prelude.{
  All, List, [], arith, drop, leb, leb→le, length, ok, refl, replicate, some, stuck, take, true,
  ◌++◌, ◌∷◌, ◌≡◌, ◌≢◌, ◌≤◌,
}
use baleforgit.Core.{Bytes, eq_bytes, zero_hash}
use baleforgit.Prelude.Bytes.{IsByte}
use baleforgit.Xorb.{
  Codec, XorbChunkFrame, decompress_xorb_chunks_into, parse_xorb_frames, slice, u32_max,
  verify_xorb_body,
}
use baleforgit.Xorb.Accepted.{Parsed, parse_xorb_frames-Parsed, parse_xorb_frames-ne-stuck}
use baleforgit.Xorb.Contents.{Verified, join, verify_xorb_body-Verified}
use baleforgit.Xorb.Frames.{IsRaw, RawFrame, layout, parse_xorb_frames-raws_bytes, raws_bytes}
use baleforgit.Xorb.Ranges.{decompress_range}

abbrev sample_codec : Codec
sample_codec = record {
  decompress = λ scheme payload. some payload;
  data_hash = λ d. replicate 32 (length d);
  xorb_hash = λ entries. zero_hash;
}

abbrev first_frame : RawFrame
first_frame = record { scheme = 0; uncompressed = 3; payload = 1 ∷ 2 ∷ 3 ∷ [] }

abbrev second_frame : RawFrame
second_frame = record { scheme = 1; uncompressed = 2; payload = 4 ∷ 5 ∷ [] }

abbrev sample_frames : List RawFrame
sample_frames = first_frame ∷ second_frame ∷ []

-- a header of another version
abbrev sample_trailer : Bytes
sample_trailer = b'X' ∷ b'E' ∷ b'T' ∷ b'B' ∷ 0 ∷ 0 ∷ 0 ∷ 0 ∷ []

abbrev sample_body : Bytes
sample_body =
    0 ∷ 3 ∷ 0 ∷ 0 ∷ 0 ∷ 3 ∷ 0 ∷ 0 ∷ 1 ∷ 2 ∷ 3 ∷ 0 ∷ 2 ∷ 0 ∷ 0 ∷ 1 ∷ 2 ∷ 0 ∷ 0 ∷ 4 ∷ 5
    ∷ sample_trailer

sample_frames-IsRaw : All IsRaw sample_frames
sample_frames-IsRaw = (
  record { scheme = omega arith; uncompressed = omega arith; payload = omega arith },
  (record { scheme = omega arith; uncompressed = omega arith; payload = omega arith }, tt),
)

frames_small : leb (length (raws_bytes sample_frames ++ sample_trailer)) u32_max ≡ true
unfolding raws_bytes
frames_small = refl

parse_xorb_frames-raws_bytes_example :
    parse_xorb_frames (raws_bytes sample_frames ++ sample_trailer) ≡ ok (layout 0 sample_frames)
parse_xorb_frames-raws_bytes_example =
    parse_xorb_frames-raws_bytes first_frame (second_frame ∷ []) sample_trailer sample_frames-IsRaw
      (λ h. omega arith) (leb→le _ _ frames_small)

sample_body_bytes : All IsByte sample_body
sample_body_bytes = omega arith

sample_body_parses : parse_xorb_frames sample_body ≡ ok (layout 0 sample_frames)
unfolding parse_xorb_frames
sample_body_parses = refl

parse_xorb_frames-Parsed_example :
    Parsed sample_body 0 (layout 0 sample_frames)
    × (layout 0 sample_frames ≢ [])
    × (length sample_body ≤ u32_max)
parse_xorb_frames-Parsed_example =
    parse_xorb_frames-Parsed sample_body (layout 0 sample_frames) sample_body_bytes
      sample_body_parses

parse_xorb_frames-ne-stuck_example : parse_xorb_frames sample_body ≢ stuck
parse_xorb_frames-ne-stuck_example = parse_xorb_frames-ne-stuck sample_body

sample_body_verifies : verify_xorb_body sample_codec sample_body zero_hash ≡ ok tt
unfolding verify_xorb_body
sample_body_verifies = refl

verify_xorb_body-Verified_example :
    (fs : List XorbChunkFrame) × (parse_xorb_frames sample_body ≡ ok fs)
    × Verified sample_codec sample_body zero_hash fs
verify_xorb_body-Verified_example =
    verify_xorb_body-Verified sample_codec sample_body zero_hash sample_body_bytes
      sample_body_verifies

sample_verified : Verified sample_codec sample_body zero_hash (layout 0 sample_frames)
unfolding raws_bytes eq_bytes
sample_verified = record {
  parsed_body = record {
    raws = sample_frames;
    rest = sample_trailer;
    bytes = refl;
    valid = sample_frames-IsRaw;
    trailer = λ h. omega arith;
    frames = refl;
  };
  chunks = (1 ∷ 2 ∷ 3 ∷ []) ∷ (4 ∷ 5 ∷ []) ∷ [];
  decodes = (refl, refl, (refl, refl, tt));
  hash = refl;
  fits = omega arith;
}

abbrev second_at : XorbChunkFrame
second_at = record {
  on_disk_start = 11;
  on_disk_len = 10;
  uncompressed_len = 2;
  compression_scheme = 1;
}

decompress_range_example :
    decompress_xorb_chunks_into sample_codec (slice sample_body 11 21) (9 ∷ [])
    ≡ ok ((9 ∷ []) ++ join (take 1 (drop 1 sample_verified.chunks)))
decompress_range_example =
    decompress_range sample_codec sample_body zero_hash (9 ∷ []) (layout 0 sample_frames) 1 2
      second_at second_at sample_verified (omega arith) refl refl
