-- ===== src/Xorb/Bounds.antt =====
-- Where the frames of a body begin and end.
use baleforgit.Prelude.{
  List, [], arith, get_elem?, length, some, suc, take, take-nil, zero, ℕ, ◌+◌, ◌∷◌, ◌≡◌, ◌≤◌,
}
use baleforgit.Xorb.{XorbChunkFrame, header_len}
use baleforgit.Xorb.Frames.{RawFrame, layout, length-raws_bytes, raws_bytes}
use baleforgit.Xorb.Ranges.{get_elem?-layout}

take-le :
    (s e : ℕ) (rs : List RawFrame)
    → s ≤ e
    → length (raws_bytes (take s rs)) ≤ length (raws_bytes (take e rs))
take-le s e [] h = rw (take-nil {A = RawFrame} s, take-nil {A = RawFrame} e) (omega arith)
take-le zero e (r ∷ rs) h = unfold raws_bytes in omega arith
take-le (suc s) zero (r ∷ rs) h = absurd (omega arith)
take-le (suc s) (suc e) (r ∷ rs) h = omega (
  arith,
  length-raws_bytes r (take s rs),
  length-raws_bytes r (take e rs),
  take-le s e rs (omega arith),
)

take-le_all :
    (e : ℕ) (rs : List RawFrame) → length (raws_bytes (take e rs)) ≤ length (raws_bytes rs)
take-le_all e [] = rw (take-nil {A = RawFrame} e) (omega arith)
take-le_all zero (r ∷ rs) = unfold raws_bytes in omega arith
take-le_all (suc e) (r ∷ rs) =
    omega (arith, length-raws_bytes r (take e rs), length-raws_bytes r rs, take-le_all e rs)

frame_len :
    (rs : List RawFrame) (pos i : ℕ) (f : XorbChunkFrame)
    → get_elem? (layout pos rs) i ≡ some f
    → header_len ≤ f.on_disk_len
frame_len [] pos i f h = absurd (cc h)
frame_len (r ∷ rs) pos zero f h = ground arith
frame_len (r ∷ rs) pos (suc i) f h = frame_len rs (pos + (header_len + length r.payload)) i f h

-- A later frame ends behind the start of an earlier one, and within the frames.
pub frame_bounds :
    (rs : List RawFrame) (s e : ℕ) (a b : XorbChunkFrame)
    → s ≤ e
    → get_elem? (layout 0 rs) s ≡ some a
    → get_elem? (layout 0 rs) e ≡ some b
    → (a.on_disk_start + header_len ≤ b.on_disk_start + b.on_disk_len)
      × (b.on_disk_start + b.on_disk_len ≤ length (raws_bytes rs))
frame_bounds rs s e a b h p q =
    let (start, _) = get_elem?-layout rs 0 s a p in
    let (later, end) = get_elem?-layout rs 0 e b q in
    let size : header_len ≤ b.on_disk_len = frame_len rs 0 e b q in
    (
      omega (arith, start, later, size, take-le s e rs h),
      omega (arith, end, take-le_all (suc e) rs),
    )
