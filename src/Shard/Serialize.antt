-- ===== src/Shard/Serialize.antt =====
-- `serialize` of crates/bale-server-shard/src/lib.rs. `out` is what the calls append, in their order.
use baleforgit.Prelude.{
  List, Option, [], if◌then◌else◌, length, none, replicate, some, ℕ, ◌%◌, ◌++◌, ◌+◌, ◌^◌, ◌∷◌,
}
use baleforgit.Core.{Bytes, Hash32, zero_hash}
use baleforgit.Prelude.Bytes.{to_le_bytes}
use baleforgit.Shard.{
  CasChunkEntry, FileTermEntry, ParsedCasBlock, ParsedFile, ParsedShard, ShardFooter, ShardHeader,
  flag_with_metadata_ext, flag_with_verification, has_flag, swap_groups, swap_u64_groups,
}

unfoldable pub term_bytes : FileTermEntry → Bytes
unfolding to_le_bytes
term_bytes e =
    e.xorb
    ++ (to_le_bytes 4 e.cas_flags
        ++ (to_le_bytes 4 e.unpacked_segment_bytes
            ++ (to_le_bytes 4 e.chunk_idx_start ++ to_le_bytes 4 e.chunk_idx_end)))

unfoldable pub terms_bytes : List FileTermEntry → Bytes
unfolding term_bytes
terms_bytes [] = []
terms_bytes (e ∷ es) = term_bytes e ++ terms_bytes es

unfoldable pub verifications_bytes : List Hash32 → Bytes
verifications_bytes [] = []
verifications_bytes (v ∷ vs) = v ++ (replicate 16 0 ++ verifications_bytes vs)

abbrev pub or_zero : Option Hash32 → Hash32
or_zero none = zero_hash
or_zero (some h) = h

unfoldable pub verification_section : ParsedFile → Bytes
unfolding verifications_bytes
verification_section f =
    if has_flag f.file_flags flag_with_verification then verifications_bytes f.verifications else []

unfoldable pub sha256_section : ParsedFile → Bytes
unfolding swap_u64_groups swap_groups
sha256_section f =
    if has_flag f.file_flags flag_with_metadata_ext
    then swap_u64_groups (or_zero f.sha256) ++ replicate 16 0
    else []

unfoldable pub file_bytes : ParsedFile → Bytes
unfolding terms_bytes verification_section sha256_section to_le_bytes
file_bytes f =
    f.file_hash
    ++ (to_le_bytes 4 f.file_flags
        ++ (to_le_bytes 4 (length f.entries % 2 ^ 32)
            ++ (replicate 8 0
                ++ (terms_bytes f.entries ++ (verification_section f ++ sha256_section f)))))

abbrev pub bookend : Bytes
bookend = replicate 32 0xff ++ replicate 16 0

unfoldable pub files_bytes : List ParsedFile → Bytes
unfolding file_bytes
files_bytes [] = bookend
files_bytes (f ∷ fs) = file_bytes f ++ files_bytes fs

unfoldable pub chunk_bytes : CasChunkEntry → Bytes
unfolding to_le_bytes
chunk_bytes e =
    e.chunk_hash
    ++ (to_le_bytes 4 e.byte_start ++ (to_le_bytes 4 e.unpacked_segment_bytes ++ replicate 8 0))

unfoldable pub chunks_bytes : List CasChunkEntry → Bytes
unfolding chunk_bytes
chunks_bytes [] = []
chunks_bytes (e ∷ es) = chunk_bytes e ++ chunks_bytes es

unfoldable pub cas_block_bytes : ParsedCasBlock → Bytes
unfolding chunks_bytes to_le_bytes
cas_block_bytes b =
    b.xorb
    ++ (to_le_bytes 4 b.cas_flags
        ++ (to_le_bytes 4 (length b.chunks % 2 ^ 32)
            ++ (to_le_bytes 4 b.num_bytes_in_cas
                ++ (to_le_bytes 4 b.num_bytes_on_disk ++ chunks_bytes b.chunks))))

unfoldable pub cas_blocks_bytes : List ParsedCasBlock → Bytes
unfolding cas_block_bytes
cas_blocks_bytes [] = bookend
cas_blocks_bytes (b ∷ bs) = cas_block_bytes b ++ cas_blocks_bytes bs

-- `for offset_or_count in [footer_offset, 0, footer_offset, 0, footer_offset, 0]`
unfoldable pub lookup_tables : ℕ → Bytes
unfolding to_le_bytes
lookup_tables off =
    to_le_bytes 8 off
    ++ (to_le_bytes 8 0
        ++ (to_le_bytes 8 off ++ (to_le_bytes 8 0 ++ (to_le_bytes 8 off ++ to_le_bytes 8 0))))

unfoldable pub footer_bytes : ℕ → ℕ → ℕ → Option ShardFooter → Bytes
unfolding lookup_tables to_le_bytes
footer_bytes file_info cas_info off none = []
footer_bytes file_info cas_info off (some ft) =
    to_le_bytes 8 ft.version
    ++ (to_le_bytes 8 file_info
        ++ (to_le_bytes 8 cas_info
            ++ (lookup_tables off
                ++ (ft.chunk_hash_hmac_key
                    ++ (to_le_bytes 8 ft.shard_creation_timestamp
                        ++ (to_le_bytes 8 ft.shard_key_expiry
                            ++ (replicate 72 0 ++ to_le_bytes 8 off)))))))

unfoldable pub header_bytes : ShardHeader → Bytes
unfolding to_le_bytes
header_bytes h = h.tag ++ (to_le_bytes 8 h.version ++ to_le_bytes 8 h.footer_size)

unfoldable pub serialize : ParsedShard → Bytes
unfolding header_bytes files_bytes cas_blocks_bytes footer_bytes
serialize s =
    let head = header_bytes s.header in
    let files = files_bytes s.files in
    let blocks = cas_blocks_bytes s.cas_blocks in
    let file_info_offset = length head in
    let cas_info_offset = length head + length files in
    let footer_offset = length head + length files + length blocks in
    head
    ++ (files ++ (blocks ++ footer_bytes file_info_offset cas_info_offset footer_offset s.footer))
