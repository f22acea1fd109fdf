-- ===== src/Tests/Hashes.antt =====
-- crates/bale-server-wire/src/lib.rs and the byte swap of crates/bale-server-shard/src/lib.rs at
-- concrete hashes.
use baleforgit.Prelude.{All, [], arith, err, ok, refl, replicate, ◌∷◌, ◌≡◌}
use baleforgit.Core.{Hash32, IsHash}
use baleforgit.Prelude.Bytes.{IsByte}
use baleforgit.Wire.{
  bad_length, decode_group, decode_groups, decode_hash, encode_groups, encode_hash, hex_bytes,
  hex_nibble,
}
use baleforgit.Wire.RoundTrip.{decode_hash-encode_hash, decode_hash-length, encode_hash-decode_hash}

abbrev sample_hash : Hash32
sample_hash = 1 ∷ 2 ∷ 3 ∷ 4 ∷ 5 ∷ 6 ∷ 7 ∷ 255 ∷ replicate 24 16

sample_bytes : All IsByte sample_hash
sample_bytes = omega arith

sample_hash-IsHash : IsHash sample_hash
sample_hash-IsHash = record { size = refl; bytes = sample_bytes }

decode_hash-encode_hash_example : decode_hash (encode_hash sample_hash) ≡ ok sample_hash
decode_hash-encode_hash_example = decode_hash-encode_hash sample_hash sample_hash-IsHash

sample_text_decodes : decode_hash (encode_hash sample_hash) ≡ ok sample_hash
unfolding decode_hash encode_hash decode_groups encode_groups decode_group hex_nibble hex_bytes
sample_text_decodes = refl

encode_hash-decode_hash_example :
    (encode_hash sample_hash ≡ encode_hash sample_hash) × IsHash sample_hash
encode_hash-decode_hash_example =
    encode_hash-decode_hash (encode_hash sample_hash) sample_hash sample_text_decodes

decode_hash-length_example : decode_hash (b'0' ∷ b'1' ∷ []) ≡ err bad_length
decode_hash-length_example = decode_hash-length (b'0' ∷ b'1' ∷ []) (omega arith)
