-- ===== src/Xorb/Accepted.antt =====
-- Every body that `parse_xorb_frames` accepts is made of frames and a trailer.
use baleforgit.Prelude.{
  >>=-eq-ok, >>=-ne-stuck, All, All-drop, All-take, Bool-cases, List, [], ap, append_assoc, arith,
  drop, drop-drop, err, inl, inr, length, length-drop, length-take, ltb, ltb_false→le, ok, refl,
  stuck, suc, sym, take-append-drop, zero, ℕ, ◌%◌, ◌++◌, ◌+◌, ◌-◌, ◌<◌, ◌^◌, ◌∙◌, ◌∷◌, ◌≡◌, ◌≢◌,
  ◌≤◌,
}
use baleforgit.Core.{Bytes}
use baleforgit.Prelude.Bytes.{IsByte}
use baleforgit.Xorb.{
  XorbChunkFrame, body_too_large, byte_at, frames_loop, header_len, nonempty, parse_xorb_frames,
  slice, u24_le, u32_max,
}
use baleforgit.Xorb.Frames.{IsRaw, IsTrailer, RawFrame, layout, raw_header, raws_bytes}
use baleforgit.Xorb.Rounds.{field_small, frame_len_of, header_fields, header_of, last, more, round}

-- What was read from `pos` on.
pub record Parsed (body : Bytes) (pos : ℕ) (fs : List XorbChunkFrame) : Type 0 where
  pub raws : List RawFrame
  pub rest : Bytes
  pub bytes : drop pos body ≡ raws_bytes raws ++ rest
  pub valid : All IsRaw raws
  pub trailer : IsTrailer rest
  pub frames : fs ≡ layout pos raws

cut_slice : (xs : Bytes) (from to : ℕ) → from ≤ to → drop from xs ≡ slice xs from to ++ drop to xs
cut_slice xs from to h =
    let whole : from + (to - from) ≡ to = omega arith in
    sym (take-append-drop (to - from) (drop from xs))
    ∙ ap (λ (t : Bytes). slice xs from to ++ t)
        (sym (drop-drop from (to - from) xs) ∙ ap (λ (n : ℕ). drop n xs) whole)

length-slice :
    (xs : Bytes) (from to : ℕ) → from ≤ to → to ≤ length xs → length (slice xs from to) ≡ to - from
length-slice xs from to h k =
    length-take (to - from) (drop from xs) ∙ omega (arith, length-drop from xs)

pub regroup : (a b c d : Bytes) → a ++ (b ++ (c ++ d)) ≡ (a ++ (b ++ c)) ++ d
regroup a b c d = simp append_assoc

module _ (body : Bytes) (all : All IsByte body) (small : length body ≤ u32_max) where
  All-slice : (from to : ℕ) → All IsByte (slice body from to)
  All-slice from to = All-take IsByte (to - from) (drop from body) (All-drop IsByte from body all)

  -- the frame that a round pushes, as it is written
  raw_of : ℕ → RawFrame
  raw_of pos = record {
    scheme = byte_at (header_of body pos) 4;
    uncompressed = u24_le (slice (header_of body pos) 5 8);
    payload = slice body (pos + header_len) (pos + frame_len_of body pos);
  }

  module _ (pos : ℕ) (fits : pos + frame_len_of body pos ≤ length body) where
    length-header_of : length (header_of body pos) ≡ 8
    length-header_of = length-slice body pos (pos + 8) (omega arith) (omega arith) ∙ omega arith

    length-payload : length (raw_of pos).payload ≡ u24_le (slice (header_of body pos) 1 4)
    unfolding raw_of
    length-payload =
        length-slice body (pos + header_len) (pos + frame_len_of body pos) (omega arith) fits
        ∙ omega arith

    header_of-raw_of :
        byte_at (header_of body pos) 0 ≡ 0 → header_of body pos ≡ raw_header (raw_of pos)
    unfolding raw_of
    header_of-raw_of z =
        header_fields (header_of body pos) (raw_of pos).payload length-header_of
          (All-slice pos (pos + 8)) z length-payload

    raw_of-IsRaw : byte_at (header_of body pos) 4 ≤ 2 → IsRaw (raw_of pos)
    unfolding raw_of
    raw_of-IsRaw s = record {
      scheme = s;
      uncompressed =
          field_small (slice (header_of body pos) 5 8)
            (length-slice (header_of body pos) 5 8 (omega arith) (omega (arith, length-header_of)))
            (All-take IsByte 3 (drop 5 (header_of body pos))
              (All-drop IsByte 5 (header_of body pos) (All-slice pos (pos + 8))));
      payload = rw length-payload (
          field_small (slice (header_of body pos) 1 4)
            (length-slice (header_of body pos) 1 4 (omega arith) (omega (arith, length-header_of)))
            (All-take IsByte 3 (drop 1 (header_of body pos))
              (All-drop IsByte 1 (header_of body pos) (All-slice pos (pos + 8)))));
    }

    drop-raw_of :
        byte_at (header_of body pos) 0 ≡ 0
        → drop pos body
          ≡ raw_header (raw_of pos)
            ++ ((raw_of pos).payload ++ drop (pos + frame_len_of body pos) body)
    unfolding raw_of
    drop-raw_of z =
        cut_slice body pos (pos + header_len) (omega arith)
        ∙ ap (λ (t : Bytes). header_of body pos ++ t)
            (cut_slice body (pos + header_len) (pos + frame_len_of body pos) (omega arith))
        ∙ ap (λ (h : Bytes). h ++ ((raw_of pos).payload ++ drop (pos + frame_len_of body pos) body))
            (header_of-raw_of z)

  Parsed-more :
      (pos : ℕ) (gs : List XorbChunkFrame)
      → pos + frame_len_of body pos ≤ length body
      → byte_at (header_of body pos) 0 ≡ 0
      → byte_at (header_of body pos) 4 ≤ 2
      → Parsed body (pos + frame_len_of body pos) gs
      → Parsed body pos (
          record {
            on_disk_start = pos % 2 ^ 32;
            on_disk_len = frame_len_of body pos % 2 ^ 32;
            uncompressed_len = u24_le (slice (header_of body pos) 5 8);
            compression_scheme = byte_at (header_of body pos) 4;
          }
          ∷ gs)
  unfolding raws_bytes raw_of
  Parsed-more pos gs fits z s p =
      let len : header_len + length (raw_of pos).payload ≡ frame_len_of body pos =
        omega (arith, length-payload pos fits) in
      let at : pos % 2 ^ 32 ≡ pos = omega arith in
      let size : frame_len_of body pos % 2 ^ 32 ≡ frame_len_of body pos = omega arith in
      record {
        raws = raw_of pos ∷ p.raws;
        rest = p.rest;
        bytes =
            drop-raw_of pos fits z
            ∙ ap (λ (t : Bytes). raw_header (raw_of pos) ++ ((raw_of pos).payload ++ t)) p.bytes
            ∙ regroup (raw_header (raw_of pos)) (raw_of pos).payload (raws_bytes p.raws) p.rest;
        valid = (raw_of-IsRaw pos fits s, p.valid);
        trailer = p.trailer;
        frames = rw (at, size, p.frames, len);
      }

  frames_loop-Parsed :
      (fuel pos index : ℕ) (fs : List XorbChunkFrame)
      → frames_loop fuel body pos index ≡ ok fs
      → Parsed body pos fs
  unfolding raws_bytes
  frames_loop-Parsed zero pos index fs e = unfold frames_loop in absurd (cc e)
  frames_loop-Parsed (suc fuel) pos index fs e = elim (round fuel body pos index fs e) [
    | last t h ↦ record {
      raws = [];
      rest = drop pos body;
      bytes = refl;
      valid = tt;
      trailer = t;
      frames = h;
    }
    | more gs fits z s p h ↦ rw h (
        Parsed-more pos gs fits z s
          (frames_loop-Parsed fuel (pos + frame_len_of body pos) (index + 1) gs p))
  ]

-- Every body that is accepted is, from its first byte on, at least one well-formed frame and then a
-- trailer, and the result lists the frames as they lie in it.
pub parse_xorb_frames-Parsed :
    (body : Bytes) (fs : List XorbChunkFrame)
    → All IsByte body
    → parse_xorb_frames body ≡ ok fs
    → Parsed body 0 fs × (fs ≢ []) × (length body ≤ u32_max)
unfolding parse_xorb_frames
parse_xorb_frames-Parsed body fs all e = elim (Bool-cases (ltb u32_max (length body))) [
  | inl large ↦
      let p : err (body_too_large (length body) u32_max) ≡ ok fs =
        rw (large, parse_xorb_frames) at e in
      absurd (cc p)
  | inr fits ↦
      let (gs, p, q) =
        >>=-eq-ok (frames_loop (suc (length body)) body 0 0) _
          (rw (fits, parse_xorb_frames) at e) in
      let same : (gs ≡ fs) × (fs ≢ []) = nonempty_ok gs fs q in
      let small : length body ≤ u32_max = ltb_false→le _ _ fits in
      (
        frames_loop-Parsed body all small (suc (length body)) 0 0 fs (p ∙ ap ok same.0),
        same.1,
        small,
      )
]
  where
    nonempty_ok : (gs fs : List XorbChunkFrame) → nonempty gs ≡ ok fs → (gs ≡ fs) × (fs ≢ [])
    nonempty_ok [] fs h = absurd (cc h)
    nonempty_ok (g ∷ gs) fs h = (cc h, λ z. cc (h, z))

module _ (body : Bytes) where
  frames_loop-ne-stuck :
      (fuel pos index : ℕ)
      → length body < fuel + pos
      → pos ≤ length body
      → frames_loop fuel body pos index ≢ stuck
  unfolding frames_loop
  frames_loop-ne-stuck zero pos index h k = absurd (omega arith)
  frames_loop-ne-stuck (suc fuel) pos index h k =
      ground (arith, frames_loop-ne-stuck fuel (pos + frame_len_of body pos) (index + 1))

  nonempty-ne-stuck : (gs : List XorbChunkFrame) → nonempty gs ≢ stuck
  nonempty-ne-stuck [] e = cc
  nonempty-ne-stuck (g ∷ gs) e = cc

  -- On every body `parse_xorb_frames` ends: its loop does not run out of fuel.
  pub parse_xorb_frames-ne-stuck : parse_xorb_frames body ≢ stuck
  unfolding parse_xorb_frames
  parse_xorb_frames-ne-stuck = elim (Bool-cases (ltb u32_max (length body))) [
    | inl large ↦ rw (large, parse_xorb_frames) (λ e. cc)
    | inr fits ↦
        rw (fits, parse_xorb_frames)
          (>>=-ne-stuck (frames_loop (suc (length body)) body 0 0) nonempty
            (frames_loop-ne-stuck (suc (length body)) 0 0 (omega arith) (omega arith))
            (λ gs _. nonempty-ne-stuck gs))
  ]
