-- ===== src/Shard/RoundTrip.antt =====
-- `parse` reads back what `serialize` writes.
use baleforgit.Prelude.{
  ==_eq, ==_ne, All, List, Option, [], append-nil, arith, length, length-append, le→ltb_false, none,
  not-==_eq, ok, refl, replicate, some, suc, sym, zero, ℕ, ◌%◌, ◌++◌, ◌+◌, ◌<◌, ◌^◌, ◌∷◌, ◌≡◌, ◌≤◌,
}
use baleforgit.Prelude.Bytes.{IsU64, to_le_bytes}
use baleforgit.Shard.{
  CasChunkEntry, ParsedCasBlock, ParsedFile, ParsedShard, ShardFooter, ShardHeader, max_shard_bytes,
}
use baleforgit.Shard.Canonical.{
  FooterFits, IsBlock, IsCanonical, IsChunk, IsFile, IsFooter, IsHeader, set_offsets, with_offsets,
}
use baleforgit.Shard.FileReads.{Reads-files, append_six}
use baleforgit.Shard.Parse.{
  parse, parse_body, parse_cas_block, parse_cas_blocks, parse_chunk, parse_chunks, parse_footer,
  parse_header, parse_optional_footer,
}
use baleforgit.Shard.Reads.{
  Reads, Reads-bind, Reads-count, Reads-end, Reads-from, Reads-hash, Reads-if_false, Reads-if_true,
  Reads-map, Reads-pure, Reads-room_for, Reads-skip, Reads-u32, Reads-u64,
}
use baleforgit.Shard.Serialize.{
  cas_block_bytes, cas_blocks_bytes, chunk_bytes, chunks_bytes, file_bytes, files_bytes,
  footer_bytes, header_bytes, lookup_tables, serialize,
}
use baleforgit.Shard.Sizes.{length-chunks_bytes, length-header_bytes, length-lookup_tables}

Reads-chunk : (e : CasChunkEntry) → IsChunk e → Reads parse_chunk (chunk_bytes e) e
unfolding parse_chunk chunk_bytes
Reads-chunk e v = Reads-bind _ (Reads-hash e.chunk_hash v.chunk_hash) (
    Reads-bind _ (Reads-u32 e.byte_start v.byte_start) (
      Reads-bind _ (Reads-u32 e.unpacked_segment_bytes v.unpacked)
        (Reads-map _ (Reads-skip 8 (replicate 8 0) refl))))

Reads-chunks :
    (es : List CasChunkEntry)
    → All IsChunk es
    → Reads (parse_chunks (length es)) (chunks_bytes es) es
unfolding parse_chunks chunks_bytes
Reads-chunks [] v = Reads-pure []
Reads-chunks (e ∷ es) v = Reads-bind _ (Reads-chunk e v.0) (Reads-map _ (Reads-chunks es v.1))

Reads-block :
    (b : ParsedCasBlock)
    → IsBlock b
    → Reads
        (parse_cas_block b.xorb b.cas_flags
          (length b.chunks)
          b.num_bytes_in_cas
          b.num_bytes_on_disk)
        (chunks_bytes b.chunks)
        b
unfolding parse_cas_block
Reads-block b v =
    Reads-room_for (length b.chunks) (omega (arith, length-chunks_bytes b.chunks v.chunks))
      (Reads-map _ (Reads-chunks b.chunks v.chunks))

Reads-blocks :
    (bs : List ParsedCasBlock) (fuel : ℕ)
    → length bs < fuel
    → All IsBlock bs
    → Reads (parse_cas_blocks fuel) (cas_blocks_bytes bs) bs
unfolding parse_cas_blocks cas_blocks_bytes cas_block_bytes
Reads-blocks bs zero h v = absurd (omega arith)
Reads-blocks [] (suc fuel) h v = Reads-bind _ (Reads-hash (replicate 32 0xff) refl) (
    Reads-bind _ (Reads-u32 0 (omega arith)) (
      Reads-bind _ (Reads-u32 0 (omega arith)) (
        Reads-bind _ (Reads-u32 0 (omega arith))
          (Reads-bind _ (Reads-u32 0 (omega arith)) (Reads-pure [])))))
Reads-blocks (b ∷ bs) (suc fuel) h v =
    Reads-from
      (sym (
        append_six b.xorb (to_le_bytes 4 b.cas_flags) (to_le_bytes 4 (length b.chunks % 2 ^ 32))
          (to_le_bytes 4 b.num_bytes_in_cas) (to_le_bytes 4 b.num_bytes_on_disk)
          (chunks_bytes b.chunks) (cas_blocks_bytes bs)))
      (Reads-bind _ (Reads-hash b.xorb v.0.xorb) (
        Reads-bind _ (Reads-u32 b.cas_flags v.0.flags) (
          Reads-bind _ (Reads-count (length b.chunks) v.0.count) (
            Reads-bind _ (Reads-u32 b.num_bytes_in_cas v.0.in_cas) (
              Reads-bind _ (Reads-u32 b.num_bytes_on_disk v.0.on_disk) (
                Reads-if_false _ _ _ v.0.real (
                  Reads-bind _ (Reads-block b v.0)
                    (Reads-map _ (Reads-blocks bs fuel (omega arith) v.1)))))))))

Reads-header : (h : ShardHeader) → IsHeader h → Reads parse_header (header_bytes h) h
unfolding parse_header header_bytes
Reads-header h v = Reads-bind _ (Reads-hash h.tag v.tag) (
    Reads-bind _ (Reads-u64 h.version (rw v.version (omega arith))) (
      Reads-if_false _ _ _ (not-==_eq v.version)
        (Reads-map _ (Reads-u64 h.footer_size v.footer_size))))

module _ (len a b c : ℕ) (c_fits : c ≤ len) (a_small : IsU64 a) (b_small : IsU64 b)
    (c_small : IsU64 c) where
  Reads-footer :
      (ft : ShardFooter)
      → IsFooter ft
      → Reads
          (parse_footer len)
          (footer_bytes a b c (some ft))
          (record ft { file_info_offset = a; cas_info_offset = b; footer_offset = c })
  unfolding parse_footer footer_bytes
  Reads-footer ft v = Reads-bind _ (Reads-u64 ft.version (rw v.version (omega arith))) (
      Reads-if_false _ _ _ (not-==_eq v.version) (
        Reads-bind _ (Reads-u64 a a_small) (
          Reads-bind _ (Reads-u64 b b_small) (
            Reads-bind _ (Reads-skip 48 (lookup_tables c) (length-lookup_tables c)) (
              Reads-bind _ (Reads-hash ft.chunk_hash_hmac_key v.key) (
                Reads-bind _ (Reads-u64 ft.shard_creation_timestamp v.created) (
                  Reads-bind _ (Reads-u64 ft.shard_key_expiry v.expiry) (
                    Reads-bind _ (Reads-skip 72 (replicate 72 0) refl) (
                      Reads-end _ (Reads-u64 c c_small)
                        (Reads-if_false _ _ _ (le→ltb_false len c c_fits) (Reads-pure _)))))))))))

  Reads-optional_footer :
      (size : ℕ) (o : Option ShardFooter)
      → FooterFits size o
      → Reads (parse_optional_footer len size) (footer_bytes a b c o) (set_offsets a b c o)
  unfolding parse_optional_footer footer_bytes
  Reads-optional_footer size none v = Reads-if_false _ _ _ (==_ne v) (Reads-pure none)
  Reads-optional_footer size (some ft) v =
      Reads-if_true _ _ _ (==_eq v.0) (Reads-map _ (Reads-footer ft v.1))

-- a file takes 48 bytes at least
length-le-files_bytes : (fs : List ParsedFile) → All IsFile fs → length fs < length (files_bytes fs)
unfolding files_bytes file_bytes
length-le-files_bytes [] v = omega arith
length-le-files_bytes (f ∷ fs) v = omega (
  arith,
  length-append f.file_hash,
  length-append (file_bytes f) (files_bytes fs),
  v.0.file_hash,
  length-le-files_bytes fs v.1,
)

length-le-cas_blocks_bytes :
    (bs : List ParsedCasBlock) → All IsBlock bs → length bs < length (cas_blocks_bytes bs)
unfolding cas_blocks_bytes cas_block_bytes
length-le-cas_blocks_bytes [] v = omega arith
length-le-cas_blocks_bytes (b ∷ bs) v = omega (
  arith,
  length-append b.xorb,
  length-append (cas_block_bytes b) (cas_blocks_bytes bs),
  v.0.xorb,
  length-le-cas_blocks_bytes bs v.1,
)

-- where the sections of the file begin
abbrev pub blocks_at : ParsedShard → ℕ
blocks_at s = 48 + length (files_bytes s.files)

abbrev pub footer_at : ParsedShard → ℕ
footer_at s = 48 + length (files_bytes s.files) + length (cas_blocks_bytes s.cas_blocks)

pub serialize_sections :
    (s : ParsedShard)
    → IsHeader s.header
    → serialize s
      ≡ header_bytes s.header
        ++ (files_bytes s.files
            ++ (cas_blocks_bytes s.cas_blocks
                ++ footer_bytes 48 (blocks_at s) (footer_at s) s.footer))
unfolding serialize
serialize_sections s v = rw (length-header_bytes s.header v)

footer_at-le-length : (s : ParsedShard) → IsHeader s.header → footer_at s ≤ length (serialize s)
footer_at-le-length s v =
    rw (serialize_sections s v) (simp (length-append, length-header_bytes s.header v) (omega arith))

module _ (s : ParsedShard) (len : ℕ) (v : IsCanonical s) where
  Reads-body :
      length (serialize s) ≤ len
      → len ≤ max_shard_bytes
      → Reads (parse_body len) (serialize s) (with_offsets s)
  unfolding parse_body
  Reads-body fits small =
      let inside : footer_at s ≤ length (serialize s) = footer_at-le-length s v.header in
      Reads-from (sym (serialize_sections s v.header)) (
        Reads-bind _ (Reads-header s.header v.header) (
          Reads-bind _
            (Reads-files s.files (suc len) (omega (arith, length-le-files_bytes s.files v.files))
              v.files)
            (Reads-bind _
              (Reads-blocks s.cas_blocks (suc len)
                (omega (arith, length-le-cas_blocks_bytes s.cas_blocks v.blocks)) v.blocks)
              (Reads-map _ (
                Reads-optional_footer len 48 (blocks_at s) (footer_at s) (omega arith) (omega arith)
                  (omega arith) (omega arith) s.header.footer_size s.footer v.footer)))))

-- A shard that the format can carry, and that is at most 64 MiB once written, is read back from its
-- bytes as it is, but for the footer's offsets: those are where the sections stand in the bytes.
pub parse-serialize :
    (s : ParsedShard)
    → IsCanonical s
    → length (serialize s) ≤ max_shard_bytes
    → parse (serialize s) ≡ ok (with_offsets s)
unfolding parse
parse-serialize s v small = rw (le→ltb_false max_shard_bytes (length (serialize s)) small) (
    rw (
      (Reads-body s (length (serialize s)) v (omega arith) small).run
        (record { buf = serialize s; pos = 0 }) [] small (sym (append-nil (serialize s)))))
