-- ===== src/Shard/Sizes.antt =====
-- How many bytes the writer makes of each part.
use baleforgit.Prelude.{
  All, List, [], arith, length, length-append, length-replicate, replicate, some, ℕ, ◌*◌, ◌++◌, ◌∷◌,
  ◌≡◌,
}
use baleforgit.Core.{Hash32}
use baleforgit.Prelude.Bytes.{length-to_le_bytes}
use baleforgit.Shard.{CasChunkEntry, FileTermEntry, ShardFooter, ShardHeader}
use baleforgit.Shard.Canonical.{Has32, IsChunk, IsFooter, IsHeader, IsTerm}
use baleforgit.Shard.Serialize.{
  chunk_bytes, chunks_bytes, footer_bytes, header_bytes, lookup_tables, term_bytes, terms_bytes,
  verifications_bytes,
}

ruleset sizes = (length-append, length-to_le_bytes, length-replicate)

length-term_bytes : (e : FileTermEntry) → IsTerm e → length (term_bytes e) ≡ 48
unfolding term_bytes
length-term_bytes e v = simp (sizes, v.xorb)

pub length-verifications_bytes :
    (hs : List Hash32) → All Has32 hs → length (verifications_bytes hs) ≡ 48 * length hs
unfolding verifications_bytes
length-verifications_bytes [] v = omega arith
length-verifications_bytes (h ∷ hs) v = omega (
  arith,
  length-append h (replicate 16 0 ++ verifications_bytes hs),
  length-append (replicate 16 0) (verifications_bytes hs),
  length-verifications_bytes hs v.1,
)

pub length-terms_bytes :
    (es : List FileTermEntry) → All IsTerm es → length (terms_bytes es) ≡ 48 * length es
unfolding terms_bytes
length-terms_bytes [] v = omega arith
length-terms_bytes (e ∷ es) v = omega (
  arith,
  length-append (term_bytes e) (terms_bytes es),
  length-term_bytes e v.0,
  length-terms_bytes es v.1,
)

pub length-chunk_bytes : (e : CasChunkEntry) → IsChunk e → length (chunk_bytes e) ≡ 48
unfolding chunk_bytes
length-chunk_bytes e v = simp (sizes, v.chunk_hash)

pub length-chunks_bytes :
    (es : List CasChunkEntry) → All IsChunk es → length (chunks_bytes es) ≡ 48 * length es
unfolding chunks_bytes
length-chunks_bytes [] v = omega arith
length-chunks_bytes (e ∷ es) v = omega (
  arith,
  length-append (chunk_bytes e) (chunks_bytes es),
  length-chunk_bytes e v.0,
  length-chunks_bytes es v.1,
)

pub length-header_bytes : (h : ShardHeader) → IsHeader h → length (header_bytes h) ≡ 48
unfolding header_bytes
length-header_bytes h v = simp (sizes, v.tag)

pub length-lookup_tables : (off : ℕ) → length (lookup_tables off) ≡ 48
unfolding lookup_tables
length-lookup_tables off = simp sizes

pub length-footer_bytes :
    (a b c : ℕ) (ft : ShardFooter) → IsFooter ft → length (footer_bytes a b c (some ft)) ≡ 200
unfolding footer_bytes
length-footer_bytes a b c ft v = simp (sizes, v.key)
