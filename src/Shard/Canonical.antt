-- ===== src/Shard/Canonical.antt =====
-- The shards that the format can carry: hashes of 32 bytes, integers in range, and the optional
-- sections just where the flags announce them.
use baleforgit.Prelude.{All, Option, [], false, length, none, some, true, ℕ, ◌+◌, ◌≡◌, ◌≢◌}
use baleforgit.Core.{Hash32}
use baleforgit.Prelude.Bytes.{IsU32, IsU64}
use baleforgit.Shard.{
  CasChunkEntry, FileTermEntry, ParsedCasBlock, ParsedFile, ParsedShard, ShardFooter, ShardHeader,
  flag_with_metadata_ext, flag_with_verification, footer_version, has_flag, header_version,
  is_bookend_hash, shard_footer_size,
}
use baleforgit.Shard.Serialize.{cas_blocks_bytes, files_bytes}

abbrev pub Has32 : Hash32 → Type 0
Has32 h = length h ≡ 32

pub record IsTerm (e : FileTermEntry) : Type 0 where
  pub xorb : Has32 e.xorb
  pub cas_flags : IsU32 e.cas_flags
  pub unpacked : IsU32 e.unpacked_segment_bytes
  pub start : IsU32 e.chunk_idx_start
  pub finish : IsU32 e.chunk_idx_end

abbrev pub HasSha256 : Option Hash32 → Type 0
HasSha256 none = ⊥
HasSha256 (some h) = Has32 h

pub record IsFile (f : ParsedFile) : Type 0 where
  pub file_hash : Has32 f.file_hash
  pub real : is_bookend_hash f.file_hash ≡ false
  pub flags : IsU32 f.file_flags
  pub count : IsU32 (length f.entries)
  pub terms : All IsTerm f.entries
  pub verified :
      has_flag f.file_flags flag_with_verification ≡ true
      → All Has32 f.verifications × (length f.verifications ≡ length f.entries)
  pub unverified : has_flag f.file_flags flag_with_verification ≡ false → f.verifications ≡ []
  pub with_sha : has_flag f.file_flags flag_with_metadata_ext ≡ true → HasSha256 f.sha256
  pub without_sha : has_flag f.file_flags flag_with_metadata_ext ≡ false → f.sha256 ≡ none

pub record IsChunk (e : CasChunkEntry) : Type 0 where
  pub chunk_hash : Has32 e.chunk_hash
  pub byte_start : IsU32 e.byte_start
  pub unpacked : IsU32 e.unpacked_segment_bytes

pub record IsBlock (b : ParsedCasBlock) : Type 0 where
  pub xorb : Has32 b.xorb
  pub real : is_bookend_hash b.xorb ≡ false
  pub flags : IsU32 b.cas_flags
  pub in_cas : IsU32 b.num_bytes_in_cas
  pub on_disk : IsU32 b.num_bytes_on_disk
  pub count : IsU32 (length b.chunks)
  pub chunks : All IsChunk b.chunks

pub record IsHeader (h : ShardHeader) : Type 0 where
  pub tag : Has32 h.tag
  pub version : h.version ≡ header_version
  pub footer_size : IsU64 h.footer_size

pub record IsFooter (ft : ShardFooter) : Type 0 where
  pub version : ft.version ≡ footer_version
  pub key : Has32 ft.chunk_hash_hmac_key
  pub created : IsU64 ft.shard_creation_timestamp
  pub expiry : IsU64 ft.shard_key_expiry

-- The header announces a footer just where there is one.
abbrev pub FooterFits : ℕ → Option ShardFooter → Type 0
FooterFits size none = size ≢ shard_footer_size
FooterFits size (some ft) = (size ≡ shard_footer_size) × IsFooter ft

pub record IsCanonical (s : ParsedShard) : Type 0 where
  pub header : IsHeader s.header
  pub files : All IsFile s.files
  pub blocks : All IsBlock s.cas_blocks
  pub footer : FooterFits s.header.footer_size s.footer

abbrev pub set_offsets : ℕ → ℕ → ℕ → Option ShardFooter → Option ShardFooter
set_offsets file_info cas_info off none = none
set_offsets file_info cas_info off (some ft) =
    some
      (record ft { file_info_offset = file_info; cas_info_offset = cas_info; footer_offset = off })

-- The shard with the three offsets of its footer set to where the sections stand in its bytes.
abbrev pub with_offsets : ParsedShard → ParsedShard
with_offsets s = record s {
  footer =
      set_offsets 48 (48 + length (files_bytes s.files))
        (48 + length (files_bytes s.files) + length (cas_blocks_bytes s.cas_blocks)) s.footer;
}
