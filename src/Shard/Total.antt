-- ===== src/Shard/Total.antt =====
-- Every run of `parse` on bytes ends, and what it returns is canonical and no longer than its input.
mod Files
use baleforgit.Prelude.{
  All, Bool-cases, List, Result, arith, err, false, inl, inr, length, length-append, ltb,
  ltb_false→le, none, not, ok, refl, stuck, subst, suc, zero, ℕ, ◌*◌, ◌+◌, ◌==◌, ◌∙◌, ◌≡◌, ◌≤◌,
}
use baleforgit.Core.{Bytes, Hash32}
use baleforgit.Prelude.Bytes.{IsByte, IsU32}
use baleforgit.Shard.{
  ParsedCasBlock, ParsedShard, ShardError, footer_version, header_version, is_bookend_hash,
  max_shard_bytes, shard_footer_size, too_large,
}
use baleforgit.Shard.Canonical.{
  FooterFits, Has32, IsBlock, IsCanonical, IsFooter, IsHeader, with_offsets,
}
use baleforgit.Shard.Cursor.{Cursor}
use baleforgit.Shard.Parse.{
  parse, parse_body, parse_cas_block, parse_cas_blocks, parse_footer, parse_header,
  parse_optional_footer,
}
use baleforgit.Shard.RoundTrip.{blocks_at, footer_at, parse-serialize, serialize_sections}
use baleforgit.Shard.Runs.{
  Post, Runs, Runs-bind, Runs-fail, Runs-hash, Runs-if, Runs-pure, Runs-room_for, Runs-skip,
  Runs-u32, Runs-IsU64,
}
use baleforgit.Shard.Serialize.{
  cas_block_bytes, cas_blocks_bytes, files_bytes, footer_bytes, serialize,
}
use baleforgit.Shard.Sizes.{length-chunks_bytes, length-footer_bytes, length-header_bytes}
use baleforgit.Shard.Total.Files.{Runs-chunks, Runs-files}

abbrev BlockOf : ParsedCasBlock → ℕ → Type 0
BlockOf b k = IsBlock b × (k + 48 ≡ length (cas_block_bytes b))

length-cas_block_bytes :
    (b : ParsedCasBlock) → IsBlock b → length (cas_block_bytes b) ≡ 48 + 48 * length b.chunks
unfolding cas_block_bytes
length-cas_block_bytes b v =
    simp (length-append, v.xorb) (omega (arith, length-chunks_bytes b.chunks v.chunks))

module _ (h : Hash32) (flags n in_cas on_disk : ℕ) where
  Runs-block :
      {room : ℕ}
      → Has32 h
      → is_bookend_hash h ≡ false
      → IsU32 flags
      → IsU32 n
      → IsU32 in_cas
      → IsU32 on_disk
      → Runs room (parse_cas_block h flags n in_cas on_disk) BlockOf
  unfolding parse_cas_block
  Runs-block size real small count small₁ small₂ = Runs-bind _ (Runs-room_for n) λ _ k₀ q₀.
      Runs-bind _ (Runs-chunks n) λ chunks k₁ q₁.
        let b : ParsedCasBlock = record {
          xorb = h;
          cas_flags = flags;
          num_bytes_in_cas = in_cas;
          num_bytes_on_disk = on_disk;
          chunks = chunks;
        } in
        let v : IsBlock b = record {
          xorb = size;
          real = real;
          flags = small;
          in_cas = small₁;
          on_disk = small₂;
          count = rw q₁.1 count;
          chunks = q₁.2;
        } in
        Runs-pure b (v, omega (arith, length-cas_block_bytes b v, q₁.0, q₁.1, q₀))

abbrev BlocksOf : List ParsedCasBlock → ℕ → Type 0
BlocksOf bs k = All IsBlock bs × (k ≡ length (cas_blocks_bytes bs))

Runs-blocks : (fuel room : ℕ) → room ≤ 48 * fuel → Runs room (parse_cas_blocks fuel) BlocksOf
unfolding parse_cas_blocks cas_blocks_bytes
Runs-blocks zero room h = record { at = λ c i b left. absurd (omega arith) }
Runs-blocks (suc fuel) room h = Runs-bind _ Runs-hash λ hash k₁ q₁.
    Runs-bind _ Runs-u32 λ flags k₂ q₂. Runs-bind _ Runs-u32 λ n k₃ q₃.
      Runs-bind _ Runs-u32 λ in_cas k₄ q₄. Runs-bind _ Runs-u32 λ on_disk k₅ q₅.
        Runs-if (is_bookend_hash hash) _ _ (λ on. Runs-pure _ (tt, omega (arith, q₁.0)))
          (λ real.
            Runs-bind _ (Runs-block hash flags n in_cas on_disk q₁.1 real q₂.1 q₃.1 q₄.1 q₅.1)
              λ b k₆ q₆. Runs-bind _ (Runs-blocks fuel _ (omega (arith, q₁.0))) λ bs k₇ q₇.
                Runs-pure _ (
                  (q₆.0, q₇.0),
                  omega (
                    arith,
                    q₁.0,
                    q₆.1,
                    q₇.1,
                    length-append (cas_block_bytes b) (cas_blocks_bytes bs),
                  ),
                ))

module _ {room : ℕ} where
  Runs-IsHeader : Runs room parse_header (λ h k. (k ≡ 48) × IsHeader h)
  unfolding parse_header
  Runs-IsHeader = Runs-bind _ Runs-hash λ tag k₁ q₁. Runs-bind _ Runs-IsU64 λ version k₂ q₂.
      Runs-if (not (version == header_version)) _ _ (λ bad. Runs-fail _)
        (λ good. Runs-bind _ Runs-IsU64 λ size k₃ q₃.
          Runs-pure _ (
            omega (arith, q₁.0),
            record { tag = q₁.1; version = ground arith; footer_size = q₃.1 },
          ))

  Runs-IsFooter : (len : ℕ) → Runs room (parse_footer len) (λ ft k. (k ≡ 200) × IsFooter ft)
  unfolding parse_footer
  Runs-IsFooter len = Runs-bind _ Runs-IsU64 λ fv k₁ q₁.
      Runs-if (not (fv == footer_version)) _ _ (λ bad. Runs-fail _)
        (λ good. Runs-bind _ Runs-IsU64 λ a k₂ q₂. Runs-bind _ Runs-IsU64 λ b k₃ q₃.
          Runs-bind _ (Runs-skip 48) λ _ k₄ q₄. Runs-bind _ Runs-hash λ key k₅ q₅.
            Runs-bind _ Runs-IsU64 λ created k₆ q₆. Runs-bind _ Runs-IsU64 λ expiry k₇ q₇.
              Runs-bind _ (Runs-skip 72) λ _ k₈ q₈. Runs-bind _ Runs-IsU64 λ off k₉ q₉.
                Runs-if (ltb len off) _ _ (λ bad. Runs-fail _)
                  (λ fits. Runs-pure _ (
                    omega (arith, q₄, q₅.0, q₈),
                    record { version = ground arith; key = q₅.1; created = q₆.1; expiry = q₇.1 },
                  )))

  Runs-optional_footer :
      (len size : ℕ)
      → Runs room
          (parse_optional_footer len size)
          (λ o k. FooterFits size o × ((a b c : ℕ) → length (footer_bytes a b c o) ≡ k))
  unfolding parse_optional_footer footer_bytes
  Runs-optional_footer len size =
      Runs-if (size == shard_footer_size) _ _
        (λ on. Runs-bind _ (Runs-IsFooter len) λ ft k₁ q₁.
          Runs-pure _ (
            (ground arith, q₁.1),
            λ a b c. length-footer_bytes a b c ft q₁.1 ∙ omega (arith, q₁.0),
          ))
        (λ off. Runs-pure none (ground arith, λ a b c. refl))

abbrev ShardOf : ParsedShard → ℕ → Type 0
ShardOf s k = IsCanonical s × (k ≡ length (serialize s))

length-serialize :
    (s : ParsedShard) (k : ℕ)
    → IsHeader s.header
    → ((a b c : ℕ) → length (footer_bytes a b c s.footer) ≡ k)
    → length (serialize s)
      ≡ 48 + length (files_bytes s.files) + length (cas_blocks_bytes s.cas_blocks) + k
length-serialize s k v e = rw (serialize_sections s v) (
    simp (length-append, length-header_bytes s.header v)
      (omega (arith, e 48 (blocks_at s) (footer_at s))))

Runs-body : (len room : ℕ) → room ≤ suc len → Runs room (parse_body len) ShardOf
unfolding parse_body
Runs-body len room h = Runs-bind _ Runs-IsHeader λ header k₁ q₁.
    Runs-bind _ (Runs-files (suc len) _ (omega arith)) λ files k₂ q₂.
      Runs-bind _ (Runs-blocks (suc len) _ (omega arith)) λ blocks k₃ q₃.
        Runs-bind _ (Runs-optional_footer len header.footer_size) λ footer k₄ q₄.
          let s : ParsedShard = record {
            header = header;
            files = files;
            cas_blocks = blocks;
            footer = footer;
          } in
          Runs-pure s (
            record { header = q₁.1; files = q₂.0; blocks = q₃.0; footer = q₄.0 },
            omega (arith, length-serialize s k₄ q₁.1 q₄.1, q₁.0, q₂.1, q₃.1),
          )

abbrev start : Bytes → Cursor
start bytes = record { buf = bytes; pos = 0 }

body-Post :
    (bytes : Bytes)
    → All IsByte bytes
    → Post ShardOf (start bytes) (parse_body (length bytes) (start bytes))
body-Post bytes b =
    (Runs-body (length bytes) (suc (length bytes)) (omega arith)).at (start bytes) (omega arith) b
      (omega arith)

-- What holds of a returned shard, and `⊥` where the fuel ran out.
abbrev pub Outcome : Bytes → Result ShardError ParsedShard → Type 0
Outcome bytes (ok s) = IsCanonical s × (length (serialize s) ≤ length bytes)
Outcome bytes (err e) = Unit
Outcome bytes stuck = ⊥

Outcome-of_Post :
    (bytes : Bytes) (r : Result ShardError (ParsedShard × Cursor))
    → Post ShardOf (start bytes) r
    → Outcome bytes (elim r [ ok (s, _) ↦ ok s | err e ↦ err e | stuck ↦ stuck ])
Outcome-of_Post bytes (ok (s, c)) (n, e, h, (v, size)) = (v, omega arith)
Outcome-of_Post bytes (err e) p = tt
Outcome-of_Post bytes stuck p = p

-- On any bytes `parse` ends, by an error or by a shard. That shard is canonical: its hashes have 32
-- bytes, none is the bookend, its integers fit, and its verification entries, SHA-256 hashes and
-- footer are there just where the flags and the header say so. Written out, it is no longer than the
-- input, so no count in the input makes `parse` return more than the input has room for.
pub parse-Outcome : (bytes : Bytes) → All IsByte bytes → Outcome bytes (parse bytes)
unfolding parse
parse-Outcome bytes b = elim (Bool-cases (ltb max_shard_bytes (length bytes))) [
  | inl e ↦ rw (e, parse) tt
  | inr e ↦ rw (e, parse) (Outcome-of_Post bytes _ (body-Post bytes b))
]

pub parse-IsCanonical :
    (bytes : Bytes) (s : ParsedShard)
    → All IsByte bytes
    → parse bytes ≡ ok s
    → IsCanonical s × (length (serialize s) ≤ length bytes)
parse-IsCanonical bytes s b e = subst (Outcome bytes) e (parse-Outcome bytes b)

parse_small :
    (bytes : Bytes) (s : ParsedShard) → parse bytes ≡ ok s → length bytes ≤ max_shard_bytes
unfolding parse
parse_small bytes s e = elim (Bool-cases (ltb max_shard_bytes (length bytes))) [
  | inl h ↦ absurd (refused (rw (h, parse) at e))
  | inr h ↦ ltb_false→le max_shard_bytes (length bytes) h
]
  where
    refused : err (too_large (length bytes)) ≡ ok s → ⊥
    refused p = cc

-- A shard that was read from bytes is written and read back as it is, but for the footer's offsets,
-- whatever tables and unused bytes the input had.
pub parse-serialize_parsed :
    (bytes : Bytes) (s : ParsedShard)
    → All IsByte bytes
    → parse bytes ≡ ok s
    → parse (serialize s) ≡ ok (with_offsets s)
parse-serialize_parsed bytes s b e =
    let (v, size) = parse-IsCanonical bytes s b e in
    parse-serialize s v (omega (arith, parse_small bytes s e))
