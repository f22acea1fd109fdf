-- ===== src/Xorb/Ranges.antt =====
-- The bytes of a range of frames hold the chunks of that range.
use baleforgit.Prelude.{
  All, All-drop, All-take, List, [], ap, append-nil, append_assoc, arith, drop, drop-append,
  get_elem?, length, length-append, length-drop, length-take, ok, refl, some, subst, suc, suc_add,
  sym, take, take-append, take-append-drop, take-nil, zero, ℕ, ◌++◌, ◌+◌, ◌-◌, ◌<◌, ◌∙◌, ◌∷◌, ◌≡◌,
  ◌≤◌,
}
use baleforgit.Core.{Bytes}
use baleforgit.Xorb.{
  Codec, XorbChunkFrame, decompress_xorb_chunks_into, header_len, parse_xorb_frames, slice, u32_max,
}
use baleforgit.Xorb.Accepted.{regroup}
use baleforgit.Xorb.Contents.{Decodes, Verified, decompress_loop-layout, join}
use baleforgit.Xorb.Frames.{
  IsRaw, RawFrame, layout, length-raws_bytes, parse_xorb_frames-raws_bytes, raw_header, raws_bytes,
}
use mathlib.Core.Path.{ap₂}
use native.Mathlib.Nat.{le_trans}

module _ (codec : Codec) where
  Decodes-take :
      (n : ℕ) (rs : List RawFrame) (ds : List Bytes)
      → Decodes codec rs ds
      → Decodes codec (take n rs) (take n ds)
  Decodes-take zero rs ds w = tt
  Decodes-take (suc n) [] [] w = tt
  Decodes-take (suc n) [] (d ∷ ds) w = absurd w
  Decodes-take (suc n) (r ∷ rs) [] w = absurd w
  Decodes-take (suc n) (r ∷ rs) (d ∷ ds) w = (w.0, w.1, Decodes-take n rs ds w.2)

  Decodes-drop :
      (n : ℕ) (rs : List RawFrame) (ds : List Bytes)
      → Decodes codec rs ds
      → Decodes codec (drop n rs) (drop n ds)
  Decodes-drop zero rs ds w = w
  Decodes-drop (suc n) [] [] w = tt
  Decodes-drop (suc n) [] (d ∷ ds) w = absurd w
  Decodes-drop (suc n) (r ∷ rs) [] w = absurd w
  Decodes-drop (suc n) (r ∷ rs) (d ∷ ds) w = Decodes-drop n rs ds w.2

raws_bytes-append : (xs ys : List RawFrame) → raws_bytes (xs ++ ys) ≡ raws_bytes xs ++ raws_bytes ys
unfolding raws_bytes
raws_bytes-append [] ys = refl
raws_bytes-append (x ∷ xs) ys =
    rw (raws_bytes-append xs ys) (regroup (raw_header x) x.payload (raws_bytes xs) (raws_bytes ys))

-- where frame `i` starts, and where it ends
pub get_elem?-layout :
    (rs : List RawFrame) (pos i : ℕ) (f : XorbChunkFrame)
    → get_elem? (layout pos rs) i ≡ some f
    → (f.on_disk_start ≡ pos + length (raws_bytes (take i rs)))
      × (f.on_disk_start + f.on_disk_len ≡ pos + length (raws_bytes (take (suc i) rs)))
get_elem?-layout [] pos i f h = cc
get_elem?-layout (r ∷ rs) pos zero f h =
    (ground (arith, length_none), ground (arith, length_none, length-raws_bytes r []))
  where
    length_none : length (raws_bytes []) ≡ 0
    length_none = unfold raws_bytes in refl
get_elem?-layout (r ∷ rs) pos (suc i) f h =
    let (start, end) = get_elem?-layout rs (pos + (header_len + length r.payload)) i f h in
    (
      omega (arith, length-raws_bytes r (take i rs)),
      omega (arith, length-raws_bytes r (take (suc i) rs)),
    )

take_split :
    {A : Type 0} (s n : ℕ) (xs : List A) → take (s + n) xs ≡ take s xs ++ take n (drop s xs)
take_split zero n xs = ap (λ k. take k xs) (omega arith)
take_split (suc s) n [] = take-nil (suc s + n) ∙ sym (take-nil n)
take_split (suc s) n (x ∷ xs) =
    ap (λ k. take k (x ∷ xs)) (suc_add s n) ∙ ap (λ t. x ∷ t) (take_split s n xs)

slice_middle :
    (xs ys zs : Bytes) → slice (xs ++ (ys ++ zs)) (length xs) (length xs + length ys) ≡ ys
slice_middle xs ys zs =
    let size : length xs + length ys - length xs ≡ length ys = omega arith in
    rw (size, drop-append) (take-append ys zs)

-- the frames `s` to `s + n - 1` in the bytes of all
range_bytes :
    (rs : List RawFrame) (t : Bytes) (s n : ℕ)
    → slice
        (raws_bytes rs ++ t)
        (length (raws_bytes (take s rs)))
        (length (raws_bytes (take (s + n) rs)))
      ≡ raws_bytes (take n (drop s rs))
range_bytes rs t s n =
    let xs : List RawFrame = take s rs in
    let ys : List RawFrame = take n (drop s rs) in
    let zs : List RawFrame = drop n (drop s rs) in
    let whole : rs ≡ xs ++ (ys ++ zs) =
      sym (take-append-drop s rs)
      ∙ ap (λ (l : List RawFrame). xs ++ l) (sym (take-append-drop n (drop s rs))) in
    let bytes : raws_bytes rs ++ t ≡ raws_bytes xs ++ (raws_bytes ys ++ (raws_bytes zs ++ t)) =
      ap (λ (l : List RawFrame). raws_bytes l ++ t) whole
      ∙ simp (raws_bytes-append, append_assoc) in
    let end : length (raws_bytes (take (s + n) rs))
        ≡ length (raws_bytes xs) + length (raws_bytes ys) =
      ap (λ (l : List RawFrame). length (raws_bytes l)) (take_split s n rs)
      ∙ ap (length {A = ℕ}) (raws_bytes-append xs ys)
      ∙ length-append (raws_bytes xs) (raws_bytes ys) in
    ap (λ (k : ℕ). slice (raws_bytes rs ++ t) (length (raws_bytes xs)) k) end
    ∙ ap
        (λ (l : Bytes).
          slice l (length (raws_bytes xs)) (length (raws_bytes xs) + length (raws_bytes ys)))
        bytes
    ∙ slice_middle (raws_bytes xs) (raws_bytes ys) (raws_bytes zs ++ t)

frame_there :
    (rs : List RawFrame) (pos i : ℕ) (f : XorbChunkFrame)
    → get_elem? (layout pos rs) i ≡ some f
    → (r : RawFrame) × (later : List RawFrame) × (drop i rs ≡ r ∷ later)
frame_there [] pos i f h = cc
frame_there (r ∷ rs) pos zero f h = (r, rs, refl)
frame_there (r ∷ rs) pos (suc i) f h = frame_there rs (pos + (header_len + length r.payload)) i f h

length-slice-le : (xs : Bytes) (from to : ℕ) → length (slice xs from to) ≤ length xs
length-slice-le xs from to =
    omega (arith, length-take (to - from) (drop from xs), length-drop from xs)

module _ (codec : Codec) where
  -- a body that is just some frames
  decompress_frames :
      (r : RawFrame) (rs : List RawFrame) (ds : List Bytes) (out : Bytes)
      → All IsRaw (r ∷ rs)
      → Decodes codec (r ∷ rs) ds
      → length (raws_bytes (r ∷ rs)) ≤ u32_max
      → decompress_xorb_chunks_into codec (raws_bytes (r ∷ rs)) out ≡ ok (out ++ join ds)
  unfolding decompress_xorb_chunks_into
  decompress_frames r rs ds out v w small =
      let whole : raws_bytes (r ∷ rs) ++ [] ≡ raws_bytes (r ∷ rs) =
        append-nil (raws_bytes (r ∷ rs)) in
      let frames : parse_xorb_frames (raws_bytes (r ∷ rs)) ≡ ok (layout 0 (r ∷ rs)) =
        subst (λ (b : Bytes). parse_xorb_frames b ≡ ok (layout 0 (r ∷ rs))) whole
          (parse_xorb_frames-raws_bytes r rs [] v (λ h. absurd (omega arith))
            (subst (λ (b : Bytes). length b ≤ u32_max) (sym whole) small)) in
      rw (frames, decompress_xorb_chunks_into)
        (decompress_loop-layout codec (raws_bytes (r ∷ rs)) [] 0 0 (r ∷ rs) ds out (sym whole) v w)

  decompress_some :
      (rs : List RawFrame) (r : RawFrame) (later : List RawFrame) (ds : List Bytes) (out : Bytes)
      → rs ≡ r ∷ later
      → All IsRaw rs
      → Decodes codec rs ds
      → length (raws_bytes rs) ≤ u32_max
      → decompress_xorb_chunks_into codec (raws_bytes rs) out ≡ ok (out ++ join ds)
  decompress_some [] r later ds out h v w small = cc
  decompress_some (q ∷ rs) r later ds out h v w small = decompress_frames q rs ds out v w small

  -- Of a body that was verified, the bytes from the start of frame `s` to the end of frame `e - 1`
  -- decompress, behind what `out` holds, to just the chunks `s` to `e - 1` that the hash was computed
  -- from.
  pub decompress_range :
      (body expected out : Bytes) (fs : List XorbChunkFrame) (s e : ℕ) (a b : XorbChunkFrame)
      (v : Verified codec body expected fs)
      → s < e
      → get_elem? fs s ≡ some a
      → get_elem? fs (e - 1) ≡ some b
      → decompress_xorb_chunks_into codec
          (slice body a.on_disk_start (b.on_disk_start + b.on_disk_len))
          out
        ≡ ok (out ++ join (take (e - s) (drop s v.chunks)))
  decompress_range body expected out fs s e a b v h p q =
      let rs : List RawFrame = v.parsed_body.raws in
      let p' : get_elem? (layout 0 rs) s ≡ some a = rw v.parsed_body.frames at p in
      let q' : get_elem? (layout 0 rs) (e - 1) ≡ some b = rw v.parsed_body.frames at q in
      let start : a.on_disk_start ≡ length (raws_bytes (take s rs)) =
        (get_elem?-layout rs 0 s a p').0 ∙ omega arith in
      let last : suc (e - 1) ≡ s + (e - s) = omega arith in
      let end : b.on_disk_start + b.on_disk_len ≡ length (raws_bytes (take (s + (e - s)) rs)) =
        (get_elem?-layout rs 0 (e - 1) b q').1
        ∙ ap (λ (k : ℕ). 0 + length (raws_bytes (take k rs))) last
        ∙ omega arith in
      let part : slice body a.on_disk_start (b.on_disk_start + b.on_disk_len)
          ≡ raws_bytes (take (e - s) (drop s rs)) =
        ap₂ (slice body) start end
        ∙ ap
            (λ (l : Bytes).
              slice l (length (raws_bytes (take s rs)))
                (length (raws_bytes (take (s + (e - s)) rs))))
            v.parsed_body.bytes
        ∙ range_bytes rs v.parsed_body.rest s (e - s) in
      let (r, later, there) = frame_there rs 0 s a p' in
      let more : e - s ≡ suc (e - s - 1) = omega arith in
      let some_frame : take (e - s) (drop s rs) ≡ r ∷ take (e - s - 1) later =
        ap₂ (take {A = RawFrame}) more there in
      let small : length (raws_bytes (take (e - s) (drop s rs))) ≤ u32_max =
        subst (λ (l : Bytes). length l ≤ u32_max) part
          (le_trans (length-slice-le body a.on_disk_start (b.on_disk_start + b.on_disk_len))
            v.fits) in
      rw part (
        decompress_some (take (e - s) (drop s rs)) r (take (e - s - 1) later)
          (take (e - s) (drop s v.chunks)) out some_frame
          (All-take IsRaw (e - s) (drop s rs) (All-drop IsRaw s rs v.parsed_body.valid))
          (Decodes-take codec (e - s) (drop s rs) (drop s v.chunks)
            (Decodes-drop codec s rs v.chunks v.decodes))
          small)
