-- ===== src/Shard/Total/Files.antt =====
-- Every run of the reader's loops over the terms, chunks, verification entries and files.
use baleforgit.Prelude.{
  All, Bool-cases, List, Option, [], ap, arith, false, inl, inr, length, length-append, none, refl,
  replicate, some, subst, suc, sym, true, zero, ℕ, ◌*◌, ◌+◌, ◌∙◌, ◌≡◌, ◌≤◌,
}
use baleforgit.Core.{Hash32}
use baleforgit.Prelude.Bytes.{IsU32}
use baleforgit.Shard.{
  CasChunkEntry, FileTermEntry, ParsedFile, flag_with_metadata_ext, flag_with_verification,
  has_flag, is_bookend_hash, swap_u64_groups,
}
use baleforgit.Shard.Canonical.{Has32, HasSha256, IsChunk, IsFile, IsTerm}
use baleforgit.Shard.Parse.{
  parse_chunk, parse_chunks, parse_file, parse_files, parse_sha256, parse_term, parse_terms,
  parse_verification_section, parse_verifications,
}
use baleforgit.Shard.Runs.{
  Runs, Runs-bind, Runs-hash, Runs-if, Runs-pure, Runs-room_for, Runs-room_for_terms, Runs-skip,
  Runs-u32, weaken,
}
use baleforgit.Shard.Serialize.{
  file_bytes, files_bytes, or_zero, sha256_section, verification_section, verifications_bytes,
}
use baleforgit.Shard.Sizes.{length-terms_bytes, length-verifications_bytes}
use baleforgit.Shard.Swap.{length-swap_u64_groups}

module _ {room : ℕ} where
  Runs-IsTerm : Runs room parse_term (λ e k. (k ≡ 48) × IsTerm e)
  unfolding parse_term
  Runs-IsTerm = Runs-bind _ Runs-hash λ h k₁ q₁. Runs-bind _ Runs-u32 λ flags k₂ q₂.
      Runs-bind _ Runs-u32 λ unpacked k₃ q₃. Runs-bind _ Runs-u32 λ start k₄ q₄.
        Runs-bind _ Runs-u32 λ end k₅ q₅. Runs-pure _ (
          omega (arith, q₁.0),
          record { xorb = q₁.1; cas_flags = q₂.1; unpacked = q₃.1; start = q₄.1; finish = q₅.1 },
        )

  Runs-IsChunk : Runs room parse_chunk (λ e k. (k ≡ 48) × IsChunk e)
  unfolding parse_chunk
  Runs-IsChunk = Runs-bind _ Runs-hash λ h k₁ q₁. Runs-bind _ Runs-u32 λ start k₂ q₂.
      Runs-bind _ Runs-u32 λ unpacked k₃ q₃. Runs-bind _ (Runs-skip 8) λ _ k₄ q₄.
        Runs-pure _
          (omega (arith, q₁.0), record { chunk_hash = q₁.1; byte_start = q₂.1; unpacked = q₃.1 })

abbrev TermsOf : ℕ → List FileTermEntry → ℕ → Type 0
TermsOf n es k = (k ≡ 48 * n) × (length es ≡ n) × All IsTerm es

Runs-terms : (n : ℕ) {room : ℕ} → Runs room (parse_terms n) (TermsOf n)
unfolding parse_terms
Runs-terms zero = Runs-pure [] (omega arith, refl, tt)
Runs-terms (suc n) = Runs-bind _ Runs-IsTerm λ e k₁ q₁.
    Runs-bind _ (Runs-terms n)
      λ es k₂ q₂. Runs-pure _ (omega (arith, q₁.0, q₂.0), ap suc q₂.1, (q₁.1, q₂.2))

abbrev pub ChunksOf : ℕ → List CasChunkEntry → ℕ → Type 0
ChunksOf n es k = (k ≡ 48 * n) × (length es ≡ n) × All IsChunk es

pub Runs-chunks : (n : ℕ) {room : ℕ} → Runs room (parse_chunks n) (ChunksOf n)
unfolding parse_chunks
Runs-chunks zero = Runs-pure [] (omega arith, refl, tt)
Runs-chunks (suc n) = Runs-bind _ Runs-IsChunk λ e k₁ q₁.
    Runs-bind _ (Runs-chunks n)
      λ es k₂ q₂. Runs-pure _ (omega (arith, q₁.0, q₂.0), ap suc q₂.1, (q₁.1, q₂.2))

abbrev HashesOf : ℕ → List Hash32 → ℕ → Type 0
HashesOf n hs k = (k ≡ 48 * n) × (length hs ≡ n) × All Has32 hs

Runs-verifications : (n : ℕ) {room : ℕ} → Runs room (parse_verifications n) (HashesOf n)
unfolding parse_verifications
Runs-verifications zero = Runs-pure [] (omega arith, refl, tt)
Runs-verifications (suc n) = Runs-bind _ Runs-hash λ h k₁ q₁. Runs-bind _ (Runs-skip 16) λ _ k₂ q₂.
    Runs-bind _ (Runs-verifications n)
      λ hs k₃ q₃. Runs-pure _ (omega (arith, q₁.0, q₂, q₃.0), ap suc q₃.1, (q₁.1, q₃.2))

-- what the verification section of a file with `n` terms returns, and its size
record Verified (flags n : ℕ) (hs : List Hash32) (k : ℕ) : Type 0 where
  present :
      has_flag flags flag_with_verification ≡ true → (k ≡ 48 * n) × (length hs ≡ n) × All Has32 hs
  absent : has_flag flags flag_with_verification ≡ false → (k ≡ 0) × (hs ≡ [])

Runs-verification_section :
    (flags n : ℕ) {room : ℕ} → Runs room (parse_verification_section flags n) (Verified flags n)
unfolding parse_verification_section
Runs-verification_section flags n =
    Runs-if (has_flag flags flag_with_verification) _ _
      (λ on. Runs-bind _ (Runs-room_for n) λ _ k₁ q₁.
        weaken
          (λ hs k q. record {
            present = λ _. (omega (arith, q₁, q.0), q.1, q.2);
            absent = λ off. cc (on, off);
          })
          (Runs-verifications n))
      (λ off. Runs-pure [] (record { present = λ on. cc (on, off); absent = λ _. (refl, refl) }))

record Signed (flags : ℕ) (o : Option Hash32) (k : ℕ) : Type 0 where
  present : has_flag flags flag_with_metadata_ext ≡ true → (k ≡ 48) × HasSha256 o
  absent : has_flag flags flag_with_metadata_ext ≡ false → (k ≡ 0) × (o ≡ none)

Runs-sha256 : (flags : ℕ) {room : ℕ} → Runs room (parse_sha256 flags) (Signed flags)
unfolding parse_sha256
Runs-sha256 flags =
    Runs-if (has_flag flags flag_with_metadata_ext) _ _
      (λ on. Runs-bind _ Runs-hash λ h k₁ q₁. Runs-bind _ (Runs-skip 16) λ _ k₂ q₂.
        Runs-pure _ (record {
          present = λ _. (omega (arith, q₁.0, q₂), length-swap_u64_groups h q₁.1);
          absent = λ off. cc (on, off);
        }))
      (λ off. Runs-pure none (record { present = λ on. cc (on, off); absent = λ _. (refl, refl) }))

module _ (f : ParsedFile) (k : ℕ) where
  length-verification_section :
      Verified f.file_flags (length f.entries) f.verifications k
      → length (verification_section f) ≡ k
  unfolding verification_section verifications_bytes
  length-verification_section v = elim (Bool-cases (has_flag f.file_flags flag_with_verification)) [
    | inl e ↦
        let (size, count, hashes) = v.present e in
        rw (e, verification_section)
          (omega (arith, length-verifications_bytes f.verifications hashes))
    | inr e ↦ rw (e, verification_section) (omega (arith, (v.absent e).0))
  ]

  length-sha256_section : Signed f.file_flags f.sha256 k → length (sha256_section f) ≡ k
  unfolding sha256_section
  length-sha256_section v = elim (Bool-cases (has_flag f.file_flags flag_with_metadata_ext)) [
    | inl e ↦
        let (size, hash) = v.present e in
        rw (e, sha256_section)
          (length-append (swap_u64_groups (or_zero f.sha256)) (replicate 16 0)
            ∙ omega (arith, stored f.sha256 hash))
    | inr e ↦ rw (e, sha256_section) (omega (arith, (v.absent e).0))
  ]
    where
      stored : (o : Option Hash32) → HasSha256 o → length (swap_u64_groups (or_zero o)) ≡ 32
      stored none w = absurd w
      stored (some h) w = length-swap_u64_groups h w

length-file_bytes :
    (f : ParsedFile)
    → IsFile f
    → length (file_bytes f)
      ≡ 48 + 48 * length f.entries + length (verification_section f) + length (sha256_section f)
unfolding file_bytes
length-file_bytes f v =
    simp (length-append, v.file_hash) (omega (arith, length-terms_bytes f.entries v.terms))

abbrev FileOf : ParsedFile → ℕ → Type 0
FileOf f k = IsFile f × (k + 48 ≡ length (file_bytes f))

module _ (h : Hash32) (flags n : ℕ) where
  file_of :
      (entries : List FileTermEntry) (hs : List Hash32) (o : Option Hash32) (k₁ k₂ k₃ : ℕ)
      → Has32 h
      → is_bookend_hash h ≡ false
      → IsU32 flags
      → IsU32 n
      → TermsOf n entries k₁
      → Verified flags n hs k₂
      → Signed flags o k₃
      → FileOf
          (record {
            file_hash = h;
            file_flags = flags;
            entries = entries;
            verifications = hs;
            sha256 = o;
          })
          (k₁ + k₂ + k₃)
  file_of entries hs o k₁ k₂ k₃ size real small count (e, len, terms) verified signed =
      let f : ParsedFile = record {
        file_hash = h;
        file_flags = flags;
        entries = entries;
        verifications = hs;
        sha256 = o;
      } in
      let v : IsFile f = record {
        file_hash = size;
        real = real;
        flags = small;
        count = rw len count;
        terms = terms;
        verified = λ on. ((verified.present on).2, (verified.present on).1 ∙ sym len);
        unverified = λ off. (verified.absent off).1;
        with_sha = λ on. (signed.present on).1;
        without_sha = λ off. (signed.absent off).1;
      } in
      (
        v,
        omega (
          arith,
          length-file_bytes f v,
          length-verification_section f k₂
              (subst (λ (m : ℕ). Verified flags m hs k₂) (sym len) verified),
          length-sha256_section f k₃ signed,
        ),
      )

  Runs-file :
      {room : ℕ}
      → Has32 h
      → is_bookend_hash h ≡ false
      → IsU32 flags
      → IsU32 n
      → Runs room (parse_file h flags n) FileOf
  unfolding parse_file
  Runs-file size real small count = Runs-bind _ (Runs-room_for_terms n) λ _ k₀ q₀.
      Runs-bind _ (Runs-terms n) λ entries k₁ q₁.
        Runs-bind _ (Runs-verification_section flags n) λ hs k₂ q₂.
          Runs-bind _ (Runs-sha256 flags) λ o k₃ q₃.
            Runs-pure _
              (resize (omega arith) (file_of entries hs o k₁ k₂ k₃ size real small count q₁ q₂ q₃))
    where
      resize : {f : ParsedFile} {k k' : ℕ} → k ≡ k' → FileOf f k → FileOf f k'
      resize e (v, q) = (v, omega arith)

abbrev pub FilesOf : List ParsedFile → ℕ → Type 0
FilesOf fs k = All IsFile fs × (k ≡ length (files_bytes fs))

pub Runs-files : (fuel room : ℕ) → room ≤ 48 * fuel → Runs room (parse_files fuel) FilesOf
unfolding parse_files files_bytes
Runs-files zero room h = record { at = λ c i b left. absurd (omega arith) }
Runs-files (suc fuel) room h = Runs-bind _ Runs-hash λ hash k₁ q₁.
    Runs-bind _ Runs-u32 λ flags k₂ q₂. Runs-bind _ Runs-u32 λ n k₃ q₃.
      Runs-bind _ (Runs-skip 8) λ _ k₄ q₄.
        Runs-if (is_bookend_hash hash) _ _ (λ on. Runs-pure _ (tt, omega (arith, q₁.0, q₄)))
          (λ real. Runs-bind _ (Runs-file hash flags n q₁.1 real q₂.1 q₃.1) λ f k₅ q₅.
            Runs-bind _ (Runs-files fuel _ (omega (arith, q₁.0, q₄))) λ fs k₆ q₆. Runs-pure _ (
              (q₅.0, q₆.0),
              omega (arith, q₁.0, q₄, q₅.1, q₆.1, length-append (file_bytes f) (files_bytes fs)),
            ))
