-- ===== src/Shard.antt =====
-- crates/bale-server-shard/src/lib.rs: the data types of the binary shard format and its constants.
-- The reader is in `Cursor` and `Parse`, the writer in `Serialize`.
pub mod Cursor
pub mod Parse
pub mod Serialize
pub mod Canonical
mod Sizes
mod Reads
mod Runs
pub mod Total
pub mod Swap
mod FileReads
pub mod RoundTrip
use baleforgit.Prelude.{
  Bool, List, Option, [], bit_and, drop, not, reverse, suc, take, true, zero, ℕ, ◌&&◌, ◌*◌, ◌++◌,
  ◌==◌, ◌∷◌,
}
use baleforgit.Core.{Hash32}

abbrev pub entry_size : ℕ
entry_size = 48

abbrev pub shard_footer_size : ℕ
shard_footer_size = 200

abbrev pub header_version : ℕ
header_version = 2

abbrev pub footer_version : ℕ
footer_version = 1

abbrev pub flag_with_verification : ℕ
flag_with_verification = 0x8000_0000

abbrev pub flag_with_metadata_ext : ℕ
flag_with_metadata_ext = 0x4000_0000

abbrev pub max_shard_bytes : ℕ
max_shard_bytes = 64 * 1024 * 1024

pub data ShardError : Type 0 where
  truncated : ℕ → ℕ → ShardError
  bad_header_version : ℕ → ShardError
  bad_footer_version : ℕ → ShardError
  bad_footer_offset : ℕ → ℕ → ShardError
  too_large : ℕ → ShardError

pub record ShardHeader : Type 0 where
  pub tag : Hash32
  pub version : ℕ
  pub footer_size : ℕ

pub record FileTermEntry : Type 0 where
  pub xorb : Hash32
  pub cas_flags : ℕ
  pub unpacked_segment_bytes : ℕ
  pub chunk_idx_start : ℕ
  pub chunk_idx_end : ℕ

pub record ParsedFile : Type 0 where
  pub file_hash : Hash32
  pub file_flags : ℕ
  pub entries : List FileTermEntry
  pub verifications : List Hash32
  pub sha256 : Option Hash32

pub record CasChunkEntry : Type 0 where
  pub chunk_hash : Hash32
  pub byte_start : ℕ
  pub unpacked_segment_bytes : ℕ

pub record ParsedCasBlock : Type 0 where
  pub xorb : Hash32
  pub cas_flags : ℕ
  pub num_bytes_in_cas : ℕ
  pub num_bytes_on_disk : ℕ
  pub chunks : List CasChunkEntry

pub record ShardFooter : Type 0 where
  pub version : ℕ
  pub file_info_offset : ℕ
  pub cas_info_offset : ℕ
  pub chunk_hash_hmac_key : Hash32
  pub shard_creation_timestamp : ℕ
  pub shard_key_expiry : ℕ
  pub footer_offset : ℕ

pub record ParsedShard : Type 0 where
  pub header : ShardHeader
  pub files : List ParsedFile
  pub cas_blocks : List ParsedCasBlock
  pub footer : Option ShardFooter

-- `flags & flag != 0`
abbrev pub has_flag : ℕ → ℕ → Bool
has_flag flags flag = not (bit_and flags flag == 0)

-- The bytes of each of the first `n` groups of eight, the other way round.
unfoldable pub swap_groups : ℕ → Hash32 → Hash32
swap_groups zero h = []
swap_groups (suc n) h = reverse (take 8 h) ++ swap_groups n (drop 8 h)

unfoldable pub swap_u64_groups : Hash32 → Hash32
swap_u64_groups h = swap_groups 4 h

-- `h.0.iter().all(|b| *b == 0xFF)`
unfoldable pub is_bookend_hash : Hash32 → Bool
is_bookend_hash [] = true
is_bookend_hash (b ∷ h) = b == 0xff && is_bookend_hash h
