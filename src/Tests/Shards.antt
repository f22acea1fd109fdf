-- ===== src/Tests/Shards.antt =====
-- The reader and the writer of crates/bale-server-shard/src/lib.rs on a shard with all its sections.
use baleforgit.Prelude.{
  All, Bool, [], arith, leb, leb→le, length, ltb, ok, refl, replicate, some, true, ℕ, ◌&&◌, ◌∷◌,
  ◌≡◌,
}
use baleforgit.Core.{Bytes}
use baleforgit.Prelude.Bytes.{IsByte}
use baleforgit.Shard.{
  ParsedCasBlock, ParsedFile, ParsedShard, ShardFooter, is_bookend_hash, max_shard_bytes,
}
use baleforgit.Shard.Canonical.{IsBlock, IsCanonical, IsFile, with_offsets}
use baleforgit.Shard.Parse.{parse}
use baleforgit.Shard.RoundTrip.{parse-serialize}
use baleforgit.Shard.Serialize.{serialize}
use baleforgit.Shard.Total.{Outcome, parse-serialize_parsed, parse-Outcome}

abbrev sample_file : ParsedFile
sample_file = record {
  file_hash = replicate 32 7;
  file_flags = 0xc000_0000;
  entries =
      record {
        xorb = replicate 32 9;
        cas_flags = 0;
        unpacked_segment_bytes = 5;
        chunk_idx_start = 0;
        chunk_idx_end = 1;
      }
      ∷ [];
  verifications = replicate 32 3 ∷ [];
  sha256 = some (replicate 32 4);
}

abbrev sample_block : ParsedCasBlock
sample_block = record {
  xorb = replicate 32 9;
  cas_flags = 0;
  num_bytes_in_cas = 5;
  num_bytes_on_disk = 13;
  chunks = record { chunk_hash = replicate 32 8; byte_start = 0; unpacked_segment_bytes = 5 } ∷ [];
}

abbrev sample_footer : ShardFooter
sample_footer = record {
  version = 1;
  file_info_offset = 0;
  cas_info_offset = 0;
  chunk_hash_hmac_key = replicate 32 0;
  shard_creation_timestamp = 1700000000;
  shard_key_expiry = 0;
  footer_offset = 0;
}

abbrev sample_shard : ParsedShard
sample_shard = record {
  header = record { tag = replicate 32 1; version = 2; footer_size = 200 };
  files = sample_file ∷ [];
  cas_blocks = sample_block ∷ [];
  footer = some sample_footer;
}

sample_file-IsFile : IsFile sample_file
unfolding is_bookend_hash
sample_file-IsFile = record {
  file_hash = refl;
  real = refl;
  flags = omega arith;
  count = omega arith;
  terms = (
    record {
      xorb = refl;
      cas_flags = omega arith;
      unpacked = omega arith;
      start = omega arith;
      finish = omega arith;
    },
    tt,
  );
  verified = λ e. ((refl, tt), refl);
  unverified = λ e. absurd (cc e);
  with_sha = λ e. refl;
  without_sha = λ e. absurd (cc e);
}

sample_block-IsBlock : IsBlock sample_block
unfolding is_bookend_hash
sample_block-IsBlock = record {
  xorb = refl;
  real = refl;
  flags = omega arith;
  in_cas = omega arith;
  on_disk = omega arith;
  count = omega arith;
  chunks = (record { chunk_hash = refl; byte_start = omega arith; unpacked = omega arith }, tt);
}

sample_shard-IsCanonical : IsCanonical sample_shard
sample_shard-IsCanonical = record {
  header = record { tag = refl; version = refl; footer_size = omega arith };
  files = (sample_file-IsFile, tt);
  blocks = (sample_block-IsBlock, tt);
  footer =
      (refl, record { version = refl; key = refl; created = omega arith; expiry = omega arith });
}

leb_small : leb (length (serialize sample_shard)) max_shard_bytes ≡ true
unfolding serialize
leb_small = refl

parse-serialize_example : parse (serialize sample_shard) ≡ ok (with_offsets sample_shard)
parse-serialize_example =
    parse-serialize sample_shard sample_shard-IsCanonical (leb→le _ _ leb_small)

abbrev is_byte : ℕ → Bool
is_byte b = ltb b 256

abbrev all_bytes : Bytes → Bool
all_bytes [] = true
all_bytes (b ∷ bs) = is_byte b && all_bytes bs

bytes_of : (bs : Bytes) → all_bytes bs ≡ true → All IsByte bs
bytes_of [] h = tt
bytes_of (b ∷ bs) h = ground (arith, bytes_of bs)

sample_bytes : All IsByte (serialize sample_shard)
unfolding serialize
sample_bytes = bytes_of (serialize sample_shard) refl

parse-Outcome_example : Outcome (serialize sample_shard) (parse (serialize sample_shard))
parse-Outcome_example = parse-Outcome (serialize sample_shard) sample_bytes

parse-serialize_parsed_example :
    parse (serialize (with_offsets sample_shard)) ≡ ok (with_offsets (with_offsets sample_shard))
parse-serialize_parsed_example =
    parse-serialize_parsed (serialize sample_shard) (with_offsets sample_shard) sample_bytes
      parse-serialize_example
