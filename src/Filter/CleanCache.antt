-- ===== src/Filter/CleanCache.antt =====
-- crates/git-bale/src/clean_cache.rs: the fingerprints of the last clean of a path. The table holds
-- entries of the current version only, since the others are invisible.
use baleforgit.Prelude.{
  Bool, List, Option, [], false, if◌then◌else◌, leb, length, ltb, min, none, some, suc, true, zero,
  ℕ, ◌%◌, ◌&&◌, ◌++◌, ◌+◌, ◌-◌, ◌/◌, ◌==◌, ◌^◌, ◌∷◌,
}
use baleforgit.Core.{Bytes, Text}
use baleforgit.Filter.{Chunk, Xet}
use baleforgit.Pkt.Read.{hex_digits}
use baleforgit.Wire.{hex_digit}
use baleforgit.Xorb.{slice}

abbrev pub chunk_size : ℕ
chunk_size = 2 ^ 20

-- `format!("{:016x}", h)`, of a number below 16 ^ n
unfoldable pub hex_of : ℕ → ℕ → Text
hex_of zero h = []
hex_of (suc n) h = hex_of n (h / 16) ++ hex_digit (h % 16) ∷ []

-- `u64::from_str_radix(s, 16)` of at most 16 digits
unfoldable pub from_hex : Text → Option ℕ
unfolding hex_digits
from_hex [] = none
from_hex (c ∷ s) = if c == b'+' then hex_digits (some 0) s else hex_digits (some 0) (c ∷ s)

module _ {Objects : Type 0} (xet : Xet Objects) where
  unfoldable pub chunk_hash_hex : Bytes → Text
  unfolding hex_of
  chunk_hash_hex bytes = hex_of 16 (xet.chunk_hash bytes)

  -- The loop of `compute_chunks_from_slice`: a round takes a byte at least.
  unfoldable pub chunks_loop : ℕ → Bytes → ℕ → List Chunk
  unfolding chunk_hash_hex
  chunks_loop zero bytes pos = []
  chunks_loop (suc fuel) bytes pos =
      let size = length bytes in
      let end = min (pos + chunk_size) size in
      let rest = chunks_loop fuel bytes end in
      if ltb pos size
      then record { start = pos; end = end; hash = chunk_hash_hex (slice bytes pos end) } ∷ rest
      else []

  abbrev pub or_one : List Chunk → List Chunk
  unfolding chunk_hash_hex
  or_one [] = record { start = 0; end = 0; hash = chunk_hash_hex [] } ∷ []
  or_one (c ∷ cs) = c ∷ cs

  unfoldable pub compute_chunks_from_slice : Bytes → List Chunk
  unfolding chunks_loop chunk_hash_hex
  compute_chunks_from_slice bytes = or_one (chunks_loop (length bytes) bytes 0)

  unfoldable pub covered : List Chunk → ℕ
  covered [] = 0
  covered (c ∷ cs) = (c.end - c.start) + covered cs

  abbrev pub same_hash : Option ℕ → Chunk → Bytes → Bool
  same_hash none c bytes = false
  same_hash (some expected) c bytes =
      length c.hash == 16
      && leb c.end (length bytes)
      && xet.chunk_hash (slice bytes c.start c.end) == expected

  unfoldable pub all_same : List Chunk → Bytes → Bool
  unfolding from_hex
  all_same [] bytes = true
  all_same (c ∷ cs) bytes = same_hash (from_hex c.hash) c bytes && all_same cs bytes

  -- An entry's numbers are in order, as `compute_chunks` writes them; `c.end - c.start` is an `u64`.
  unfoldable pub verify_chunks_in_memory : List Chunk → Bytes → Bool
  unfolding covered all_same
  verify_chunks_in_memory [] bytes = false
  verify_chunks_in_memory (c ∷ cs) bytes =
      covered (c ∷ cs) == length bytes && all_same (c ∷ cs) bytes
