-- ===== src/Xorb/Rounds.antt =====
-- The two ways in which a round of the loop over frames succeeds.
use baleforgit.Prelude.{
  ==_iff, >>=-eq-ok, All, Bool-cases, List, [], arith, drop, err, false, inl, inr, leb, length,
  length-drop, ltb, ltb_false→le, ok, ok-injective, refl, suc, sym, take, ℕ, ◌%◌, ◌*◌, ◌+◌, ◌-◌,
  ◌/◌, ◌<◌, ◌==◌, ◌^◌, ◌∷◌, ◌≡◌, ◌≤◌,
}
use baleforgit.Core.{Bytes}
use baleforgit.Prelude.Bits.{bit_or_shifted}
use baleforgit.Prelude.Bytes.{IsByte}
use baleforgit.Xorb.{
  XorbChunkFrame, bad_compression_scheme, byte_at, frame_truncated, frames_loop, header_len, slice,
  u24_le,
}
use baleforgit.Xorb.Frames.{IsTrailer, raw_header}

u24_le_sum : (b c d : ℕ) → IsByte b → IsByte c → u24_le (b ∷ c ∷ d ∷ []) ≡ b + c * 256 + d * 65536
unfolding u24_le
u24_le_sum b c d hb hc =
    rw (bit_or_shifted 8 b c hb)
      (rw (bit_or_shifted 16 (b + c * 2 ^ 8) d (omega arith)) (omega arith))

u24_le_digits :
    (b c d : ℕ)
    → IsByte b
    → IsByte c
    → IsByte d
    → (u24_le (b ∷ c ∷ d ∷ []) % 256 ≡ b)
      × (u24_le (b ∷ c ∷ d ∷ []) / 256 % 256 ≡ c)
      × (u24_le (b ∷ c ∷ d ∷ []) / 256 / 256 % 256 ≡ d)
u24_le_digits b c d hb hc hd =
    let sum : u24_le (b ∷ c ∷ d ∷ []) ≡ b + c * 256 + d * 65536 = u24_le_sum b c d hb hc in
    (omega arith, omega arith, omega arith)

pub u24_le-lt : (b c d : ℕ) → IsByte b → IsByte c → IsByte d → u24_le (b ∷ c ∷ d ∷ []) < 2 ^ 24
u24_le-lt b c d hb hc hd = omega (arith, u24_le_sum b c d hb hc)

pub field_small : (xs : Bytes) → length xs ≡ 3 → All IsByte xs → u24_le xs < 2 ^ 24
field_small (b ∷ c ∷ d ∷ []) size all = u24_le-lt b c d (omega arith) (omega arith) (omega arith)
field_small _ size all = absurd (omega arith)

-- a header of eight bytes with version 0 is that of the frame which its fields describe
pub header_fields :
    (h payload : Bytes)
    → length h ≡ 8
    → All IsByte h
    → byte_at h 0 ≡ 0
    → length payload ≡ u24_le (slice h 1 4)
    → h
      ≡ raw_header
          (record { scheme = byte_at h 4; uncompressed = u24_le (slice h 5 8); payload = payload })
unfolding raw_header
header_fields (v ∷ a ∷ b ∷ c ∷ s ∷ d ∷ e ∷ f ∷ []) payload size all zero_version len =
    let (p₁, p₂, p₃) = u24_le_digits a b c (omega arith) (omega arith) (omega arith) in
    let (q₁, q₂, q₃) = u24_le_digits d e f (omega arith) (omega arith) (omega arith) in
    rw (zero_version, len, p₁, p₂, p₃, q₁, q₂, q₃)
header_fields _ payload size all zero_version len = absurd (omega arith)

abbrev pub header_of : Bytes → ℕ → Bytes
header_of body pos = slice body pos (pos + header_len)

abbrev pub frame_len_of : Bytes → ℕ → ℕ
frame_len_of body pos = header_len + u24_le (slice (header_of body pos) 1 4)

-- A round that ends the loop, or one that pushes a frame.
pub data Round (fuel : ℕ) (body : Bytes) (pos index : ℕ) (fs : List XorbChunkFrame) : Type 0 where
  last : IsTrailer (drop pos body) → fs ≡ [] → Round fuel body pos index fs
  more :
      (gs : List XorbChunkFrame)
      → pos + frame_len_of body pos ≤ length body
      → byte_at (header_of body pos) 0 ≡ 0
      → byte_at (header_of body pos) 4 ≤ 2
      → frames_loop fuel body (pos + frame_len_of body pos) (index + 1) ≡ ok gs
      → fs
        ≡ record {
          on_disk_start = pos % 2 ^ 32;
          on_disk_len = frame_len_of body pos % 2 ^ 32;
          uncompressed_len = u24_le (slice (header_of body pos) 5 8);
          compression_scheme = byte_at (header_of body pos) 4;
        }
          ∷ gs
      → Round fuel body pos index fs

pub first_byte : (t : Bytes) → byte_at (take 8 t) 0 ≡ byte_at t 0
first_byte [] = refl
first_byte (x ∷ t) = refl

module _ (fuel : ℕ) (body : Bytes) (pos index : ℕ) (fs : List XorbChunkFrame) where
  short-IsTrailer : leb (pos + header_len) (length body) ≡ false → IsTrailer (drop pos body)
  short-IsTrailer less size = absurd (ground (arith, length-drop pos body))

  version-IsTrailer : (byte_at (header_of body pos) 0 == 0) ≡ false → IsTrailer (drop pos body)
  version-IsTrailer other size z =
      let eight : pos + 8 - pos ≡ 8 = omega arith in
      let first : byte_at (header_of body pos) 0 ≡ byte_at (drop pos body) 0 =
        rw eight (first_byte (drop pos body)) in
      ground (arith, first)

  pub round : frames_loop (suc fuel) body pos index ≡ ok fs → Round fuel body pos index fs
  unfolding frames_loop
  round e = elim (Bool-cases (leb (pos + header_len) (length body))) [
    | inr less ↦
        let p : ok [] ≡ ok fs = rw (less, frames_loop) at e in
        last (short-IsTrailer less) (sym (ok-injective p))
    | inl long ↦ elim (Bool-cases (byte_at (header_of body pos) 0 == 0)) [
      | inr other ↦
          let p : ok [] ≡ ok fs = rw (long, other, frames_loop) at e in
          last (version-IsTrailer other) (sym (ok-injective p))
      | inl same ↦ elim (Bool-cases (ltb 2 (byte_at (header_of body pos) 4))) [
        | inl bad ↦
            let p : err (bad_compression_scheme index (byte_at (header_of body pos) 4)) ≡ ok fs =
              rw (long, same, bad, frames_loop) at e in
            absurd (cc p)
        | inr good ↦ elim (Bool-cases (ltb (length body) (pos + frame_len_of body pos))) [
          | inl cut ↦
              let p : err (frame_truncated index (frame_len_of body pos) (length body - pos))
                  ≡ ok fs =
                rw (long, same, good, cut, frames_loop) at e in
              absurd (cc p)
          | inr fits ↦
              let (gs, p, q) =
                >>=-eq-ok (frames_loop fuel body (pos + frame_len_of body pos) (index + 1)) _
                  (rw (long, same, good, fits, frames_loop) at e) in
              more gs (ltb_false→le _ _ fits) ((==_iff _ _).0 same) (ltb_false→le _ _ good) p
                (sym (ok-injective q))
        ]
      ]
    ]
  ]
