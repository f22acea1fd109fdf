-- ===== src/Xorb/Frames.antt =====
-- The bodies that `parse_xorb_frames` accepts, and what it returns of them.
use baleforgit.Prelude.{
  ==_ne, All, Bool-cases, List, [], ap, append_assoc, arith, bit_or, drop, drop-append, drop-drop,
  inl, inr, leb, leb→le, length, length-append, length-drop, le→leb, le→ltb_false, ok, refl, suc,
  sym, take, zero, ℕ, ◌%◌, ◌*◌, ◌++◌, ◌+◌, ◌-◌, ◌/◌, ◌<◌, ◌^◌, ◌∙◌, ◌∷◌, ◌≡◌, ◌≢◌, ◌≤◌,
}
use baleforgit.Core.{Bytes}
use baleforgit.Prelude.Bits.{bit_or_shifted}
use baleforgit.Prelude.Bytes.{to_le_bytes}
use baleforgit.Xorb.{
  XorbChunkFrame, byte_at, frames_loop, header_len, parse_xorb_frames, slice, u32_max,
}

-- A frame as it is written: the scheme, the declared length of the contents, and the payload.
pub record RawFrame : Type 0 where
  pub scheme : ℕ
  pub uncompressed : ℕ
  pub payload : Bytes

pub record IsRaw (r : RawFrame) : Type 0 where
  pub scheme : r.scheme ≤ 2
  pub uncompressed : r.uncompressed < 2 ^ 24
  pub payload : length r.payload < 2 ^ 24

unfoldable pub raw_header : RawFrame → Bytes
unfolding to_le_bytes
raw_header r = 0 ∷ (to_le_bytes 3 (length r.payload) ++ (r.scheme ∷ to_le_bytes 3 r.uncompressed))

unfoldable pub raws_bytes : List RawFrame → Bytes
unfolding raw_header
raws_bytes [] = []
raws_bytes (r ∷ rs) = raw_header r ++ (r.payload ++ raws_bytes rs)

-- What ends the frames: fewer than eight bytes, or a header of another version.
abbrev pub IsTrailer : Bytes → Type 0
IsTrailer t = 8 ≤ length t → byte_at t 0 ≢ 0

-- The frames of `rs`, the first of them at `pos`.
abbrev pub layout : ℕ → List RawFrame → List XorbChunkFrame
layout pos [] = []
layout pos (r ∷ rs) =
    record {
      on_disk_start = pos;
      on_disk_len = header_len + length r.payload;
      uncompressed_len = r.uncompressed;
      compression_scheme = r.scheme;
    }
    ∷ layout (pos + (header_len + length r.payload)) rs

u24_sum :
    (x : ℕ)
    → x < 2 ^ 24
    → bit_or (bit_or (x % 256) (x / 256 % 256 * 256)) (x / 256 / 256 % 256 * 65536) ≡ x
u24_sum x h = rw (bit_or_shifted 8 (x % 256) (x / 256 % 256) (omega arith)) (
    rw (bit_or_shifted 16 (x % 256 + x / 256 % 256 * 2 ^ 8) (x / 256 / 256 % 256) (omega arith))
      (omega arith))

header_at :
    (body rest : Bytes) (pos : ℕ) (r : RawFrame)
    → drop pos body ≡ raw_header r ++ rest
    → slice body pos (pos + header_len) ≡ raw_header r
unfolding raw_header
header_at body rest pos r e = let eight : pos + 8 - pos ≡ 8 = omega arith in rw (eight, e) refl

pub length-raw_header : (r : RawFrame) → length (raw_header r) ≡ 8
unfolding raw_header
length-raw_header r = refl

pub length-raws_bytes :
    (r : RawFrame) (rs : List RawFrame)
    → length (raws_bytes (r ∷ rs)) ≡ 8 + length r.payload + length (raws_bytes rs)
unfolding raws_bytes
length-raws_bytes r rs = omega (arith, length-append r.payload (raws_bytes rs))

pub drop_frame :
    (body t : Bytes) (pos : ℕ) (r : RawFrame) (rs : List RawFrame)
    → drop pos body ≡ raws_bytes (r ∷ rs) ++ t
    → drop (pos + (header_len + length r.payload)) body ≡ raws_bytes rs ++ t
unfolding raws_bytes
drop_frame body t pos r rs e =
    drop-drop pos (header_len + length r.payload) body
    ∙ ap (drop (header_len + length r.payload)) e
    ∙ drop-drop 8 (length r.payload) _
    ∙ ap (drop (length r.payload)) (append_assoc r.payload (raws_bytes rs) t)
    ∙ drop-append r.payload (raws_bytes rs ++ t)

byte_at-take : (t : Bytes) → byte_at (take 8 t) 0 ≡ byte_at t 0
byte_at-take [] = refl
byte_at-take (x ∷ t) = refl

module _ (body t : Bytes) (small : length body ≤ u32_max) (trailer : IsTrailer t) where
  loop_trailer :
      (fuel pos index : ℕ) → drop pos body ≡ t → frames_loop (suc fuel) body pos index ≡ ok []
  unfolding frames_loop
  loop_trailer fuel pos index e = elim (Bool-cases (leb (pos + header_len) (length body))) [
    | inl more ↦
        let eight : pos + 8 - pos ≡ 8 = omega arith in
        let size : length t ≡ length body - pos =
          ap (length {A = ℕ}) (sym e) ∙ length-drop pos body in
        let first : byte_at (slice body pos (pos + header_len)) 0 ≡ byte_at t 0 =
          rw (eight, e) (byte_at-take t) in
        let other : byte_at (slice body pos (pos + header_len)) 0 ≢ 0 =
          λ z. trailer (omega (arith, leb→le _ _ more)) (sym first ∙ z) in
        rw (more, ==_ne other, frames_loop)
    | inr less ↦ rw (less, frames_loop)
  ]

  frames_loop-encoded :
      (rs : List RawFrame) (fuel pos index : ℕ)
      → drop pos body ≡ raws_bytes rs ++ t
      → All IsRaw rs
      → length rs < fuel
      → frames_loop fuel body pos index ≡ ok (layout pos rs)
  unfolding frames_loop raws_bytes
  frames_loop-encoded rs zero pos index e v f = absurd (omega arith)
  frames_loop-encoded [] (suc fuel) pos index e v f = loop_trailer fuel pos index e
  frames_loop-encoded (r ∷ rs) (suc fuel) pos index e v f =
      let next : drop (pos + (header_len + length r.payload)) body ≡ raws_bytes rs ++ t =
        drop_frame body t pos r rs e in
      let whole : length body - pos ≡ 8 + length r.payload + length (raws_bytes rs) + length t =
        sym (length-drop pos body)
        ∙ ap (length {A = ℕ}) e
        ∙ length-append (raws_bytes (r ∷ rs)) t
        ∙ omega (arith, length-raws_bytes r rs) in
      let at : pos % 2 ^ 32 ≡ pos = omega arith in
      let size : (header_len + length r.payload) % 2 ^ 32 ≡ header_len + length r.payload =
        omega (arith, v.0.payload) in
      rw
        (
          header_at body _ pos r (e ∙ append_assoc (raw_header r) (r.payload ++ raws_bytes rs) t),
          frames_loop,
          raw_header,
        )
        (rw
          (
            u24_sum (length r.payload) v.0.payload,
            le→leb (pos + header_len) (length body) (omega arith),
            le→ltb_false 2 r.scheme v.0.scheme,
            le→ltb_false (length body) (pos + (header_len + length r.payload)) (omega arith),
            frames_loop-encoded rs fuel (pos + (header_len + length r.payload)) (index + 1) next v.1
                (omega arith),
          )
          (rw (u24_sum r.uncompressed v.0.uncompressed, at, size)))

length-le-raws_bytes : (rs : List RawFrame) → length rs ≤ length (raws_bytes rs)
unfolding raws_bytes
length-le-raws_bytes [] = omega arith
length-le-raws_bytes (r ∷ rs) = omega (arith, length-raws_bytes r rs, length-le-raws_bytes rs)

-- A body of at least one well-formed frame and a trailer (fewer than eight bytes, or a header with
-- another version) is parsed into the frames as they lie in it, the first at offset 0.
pub parse_xorb_frames-raws_bytes :
    (r : RawFrame) (rs : List RawFrame) (t : Bytes)
    → All IsRaw (r ∷ rs)
    → IsTrailer t
    → length (raws_bytes (r ∷ rs) ++ t) ≤ u32_max
    → parse_xorb_frames (raws_bytes (r ∷ rs) ++ t) ≡ ok (layout 0 (r ∷ rs))
unfolding parse_xorb_frames
parse_xorb_frames-raws_bytes r rs t v trailer small =
    let body : Bytes = raws_bytes (r ∷ rs) ++ t in
    rw (
      le→ltb_false u32_max (length body) small,
      frames_loop-encoded body t small trailer (r ∷ rs) (suc (length body)) 0 0 refl v
          (omega (arith, length-append (raws_bytes (r ∷ rs)) t, length-le-raws_bytes (r ∷ rs))),
    )
