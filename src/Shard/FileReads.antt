-- ===== src/Shard/FileReads.antt =====
-- The reader on the bytes of terms, verification entries and files.
use baleforgit.Prelude.{
  All, Bool-cases, List, Option, [], append_assoc, arith, inl, inr, length, length-append, none,
  refl, replicate, some, subst, suc, sym, zero, ℕ, ◌%◌, ◌++◌, ◌<◌, ◌^◌, ◌∷◌, ◌≡◌,
}
use baleforgit.Core.{Bytes, Hash32}
use baleforgit.Prelude.Bytes.{to_le_bytes}
use baleforgit.Shard.{
  FileTermEntry, ParsedFile, flag_with_metadata_ext, flag_with_verification, has_flag,
  swap_u64_groups,
}
use baleforgit.Shard.Canonical.{Has32, HasSha256, IsFile, IsTerm}
use baleforgit.Shard.Cursor.{pure, read_hash, skip, ◌>>=◌, ◌>>◌}
use baleforgit.Shard.Parse.{
  parse_file, parse_files, parse_sha256, parse_term, parse_terms, parse_verification_section,
  parse_verifications,
}
use baleforgit.Shard.Reads.{
  Reads, Reads-bind, Reads-count, Reads-from, Reads-hash, Reads-if_false, Reads-map, Reads-pure,
  Reads-room_for, Reads-room_for_terms, Reads-skip, Reads-u32,
}
use baleforgit.Shard.Serialize.{
  file_bytes, files_bytes, or_zero, sha256_section, term_bytes, terms_bytes, verification_section,
  verifications_bytes,
}
use baleforgit.Shard.Sizes.{length-terms_bytes, length-verifications_bytes}
use baleforgit.Shard.Swap.{length-swap_u64_groups, swap_u64_groups-swap_u64_groups}

pub append_five :
    (a b c d e r : Bytes) → (a ++ (b ++ (c ++ (d ++ e)))) ++ r ≡ a ++ (b ++ (c ++ (d ++ (e ++ r))))
append_five a b c d e r = simp append_assoc

pub append_six :
    (a b c d e f r : Bytes)
    → (a ++ (b ++ (c ++ (d ++ (e ++ f))))) ++ r ≡ a ++ (b ++ (c ++ (d ++ (e ++ (f ++ r)))))
append_six a b c d e f r = simp append_assoc

pub Reads-term : (e : FileTermEntry) → IsTerm e → Reads parse_term (term_bytes e) e
unfolding parse_term term_bytes
Reads-term e v = Reads-bind _ (Reads-hash e.xorb v.xorb) (
    Reads-bind _ (Reads-u32 e.cas_flags v.cas_flags) (
      Reads-bind _ (Reads-u32 e.unpacked_segment_bytes v.unpacked) (
        Reads-bind _ (Reads-u32 e.chunk_idx_start v.start)
          (Reads-map _ (Reads-u32 e.chunk_idx_end v.finish)))))

pub Reads-terms :
    (es : List FileTermEntry) → All IsTerm es → Reads (parse_terms (length es)) (terms_bytes es) es
unfolding parse_terms terms_bytes
Reads-terms [] v = Reads-pure []
Reads-terms (e ∷ es) v = Reads-bind _ (Reads-term e v.0) (Reads-map _ (Reads-terms es v.1))

Reads-verifications :
    (hs : List Hash32)
    → All Has32 hs
    → Reads (parse_verifications (length hs)) (verifications_bytes hs) hs
unfolding parse_verifications verifications_bytes
Reads-verifications [] v = Reads-pure []
Reads-verifications (h ∷ hs) v =
    Reads-bind _ (Reads-hash h v.0) (
      Reads-bind _ (Reads-skip 16 (replicate 16 0) refl) (Reads-map _ (Reads-verifications hs v.1)))

Reads-verification_section :
    (f : ParsedFile)
    → IsFile f
    → Reads
        (parse_verification_section f.file_flags (length f.entries))
        (verification_section f)
        f.verifications
unfolding parse_verification_section verification_section
Reads-verification_section f v = elim (Bool-cases (has_flag f.file_flags flag_with_verification)) [
  | inl e ↦
      let (hashes, size) = v.verified e in
      rw (e, ← size)
        (Reads-room_for (length f.verifications)
          (omega (arith, length-verifications_bytes f.verifications hashes))
          (Reads-verifications f.verifications hashes))
  | inr e ↦ rw (e, v.unverified e) (Reads-pure [])
]

Reads-sha256 :
    (f : ParsedFile) → IsFile f → Reads (parse_sha256 f.file_flags) (sha256_section f) f.sha256
unfolding parse_sha256 sha256_section
Reads-sha256 f v = elim (Bool-cases (has_flag f.file_flags flag_with_metadata_ext)) [
  | inl e ↦ rw e (present f.sha256 (v.with_sha e))
  | inr e ↦ rw (e, v.without_sha e) (Reads-pure none)
]
  where
    present :
        (o : Option Hash32)
        → HasSha256 o
        → Reads
            (do h ← read_hash; skip 16; pure (some (swap_u64_groups h)))
            (swap_u64_groups (or_zero o) ++ replicate 16 0)
            o
    present none w = absurd w
    present (some h) w =
        subst
          (λ (k : Hash32).
            Reads (do g ← read_hash; skip 16; pure (some (swap_u64_groups g)))
              (swap_u64_groups h ++ replicate 16 0) (some k))
          (swap_u64_groups-swap_u64_groups h w)
          (Reads-bind _ (Reads-hash (swap_u64_groups h) (length-swap_u64_groups h w))
            (Reads-map _ (Reads-skip 16 (replicate 16 0) refl)))

pub Reads-file :
    (f : ParsedFile)
    → IsFile f
    → Reads
        (parse_file f.file_hash f.file_flags (length f.entries))
        (terms_bytes f.entries ++ (verification_section f ++ sha256_section f))
        f
unfolding parse_file
Reads-file f v =
    Reads-room_for_terms (length f.entries)
      (omega (
        arith,
        length-append (terms_bytes f.entries) (verification_section f ++ sha256_section f),
        length-terms_bytes f.entries v.terms,
      ))
      (Reads-bind _ (Reads-terms f.entries v.terms)
        (Reads-bind _ (Reads-verification_section f v) (Reads-map _ (Reads-sha256 f v))))

pub Reads-files :
    (fs : List ParsedFile) (fuel : ℕ)
    → length fs < fuel
    → All IsFile fs
    → Reads (parse_files fuel) (files_bytes fs) fs
unfolding parse_files files_bytes file_bytes
Reads-files fs zero h v = absurd (omega arith)
Reads-files [] (suc fuel) h v = Reads-bind _ (Reads-hash (replicate 32 0xff) refl) (
    Reads-bind _ (Reads-u32 0 (omega arith)) (
      Reads-bind _ (Reads-u32 0 (omega arith))
        (Reads-bind _ (Reads-skip 8 (replicate 8 0) refl) (Reads-pure []))))
Reads-files (f ∷ fs) (suc fuel) h v =
    Reads-from
      (sym (
        append_five f.file_hash (to_le_bytes 4 f.file_flags)
          (to_le_bytes 4 (length f.entries % 2 ^ 32)) (replicate 8 0)
          (terms_bytes f.entries ++ (verification_section f ++ sha256_section f)) (files_bytes fs)))
      (Reads-bind _ (Reads-hash f.file_hash v.0.file_hash) (
        Reads-bind _ (Reads-u32 f.file_flags v.0.flags) (
          Reads-bind _ (Reads-count (length f.entries) v.0.count) (
            Reads-bind _ (Reads-skip 8 (replicate 8 0) refl) (
              Reads-if_false _ _ _ v.0.real (
                Reads-bind _ (Reads-file f v.0)
                  (Reads-map _ (Reads-files fs fuel (omega arith) v.1))))))))
