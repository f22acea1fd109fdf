-- ===== src/Storage/Ranges.antt =====
-- `get_range` cuts out just the bytes that the abstract store promises.
use baleforgit.Prelude.{
  Bool, Bool-cases, Option, Result, [], ap, arith, drop, drop-nil, err, false, if◌then◌else◌, inl,
  inr, leb, leb→le, length, le→leb, ltb, ltb_false→le, ltb→lt, min, none, not, ok, refl, some, suc,
  sym, take, take-nil, true, ℕ, ◌+◌, ◌-◌, ◌<◌, ◌∙◌, ◌∷◌, ◌≡◌, ◌≤◌,
}
use baleforgit.Core.{Bytes, CoreError, bad_request}
use baleforgit.Storage.{get_range}
use baleforgit.Storage.Abstract.{bytes_between, promised_part, promised_range}
use baleforgit.Xorb.{slice}
use mathlib.Core.Path.{ap₂}

from_start :
    (start end i : ℕ) (body : Bytes)
    → start ≤ i
    → bytes_between start end i body ≡ take (end - i) body
unfolding bytes_between
from_start start end i [] h = sym (take-nil (end - i))
from_start start end i (x ∷ body) h =
    let rest = from_start start end (i + 1) body (omega arith) in
    elim (Bool-cases (ltb i end)) [
      | inl e ↦
          let lt : i < end = ltb→lt i end e in
          let step : end - i ≡ suc (end - (i + 1)) = omega arith in
          rw (le→leb start i h, e, step) (ap (λ l. x ∷ l) rest)
      | inr e ↦
          let le : end ≤ i = ltb_false→le i end e in
          let stop : end - i ≡ 0 = omega arith in
          let stop' : end - (i + 1) ≡ 0 = omega arith in
          rw (le→leb start i h, e, stop) (rest ∙ ap (λ n. take n body) stop')
    ]

bytes_between-drop :
    (start end i : ℕ) (body : Bytes)
    → i ≤ start
    → bytes_between start end i body ≡ take (end - start) (drop (start - i) body)
unfolding bytes_between
bytes_between-drop start end i [] h =
    sym (ap (take (end - start)) (drop-nil (start - i)) ∙ take-nil (end - start))
bytes_between-drop start end i (x ∷ body) h = elim (Bool-cases (leb start i)) [
  | inl e ↦
      let le : start ≤ i = leb→le start i e in
      let same : i ≡ start = omega arith in
      let none_left : start - i ≡ 0 = omega arith in
      from_start start end i (x ∷ body) le
      ∙ ap₂ (λ n m. take (end - n) (drop m (x ∷ body))) same (sym none_left)
  | inr e ↦
      let lt : i < start = leb_false→lt start i e in
      let step : start - i ≡ suc (start - (i + 1)) = omega arith in
      rw (e, step) (bytes_between-drop start end (i + 1) body (omega arith))
]
  where
    leb_false→lt : (a b : ℕ) → leb a b ≡ false → b < a
    leb_false→lt a b h = ground arith

bytes_between-min :
    (start end n i : ℕ) (body : Bytes)
    → i + length body ≤ n
    → bytes_between start (min end n) i body ≡ bytes_between start end i body
unfolding bytes_between
bytes_between-min start end n i [] h = refl
bytes_between-min start end n i (x ∷ body) h =
    let rest = bytes_between-min start end n (i + 1) body (omega arith) in
    let same : ltb i (min end n) ≡ ltb i end = below i end n (omega arith) in rw (same, rest) refl
  where
    below : (i end n : ℕ) → i < n → ltb i (min end n) ≡ ltb i end
    below i end n h = ground arith

slice-bytes_between :
    (start end : ℕ) (body : Bytes)
    → slice body start (min end (length body)) ≡ bytes_between start end 0 body
slice-bytes_between start end body =
    let from_0 : start ≡ start - 0 = omega arith in
    ap (λ n. take (min end (length body) - start) (drop n body)) from_0
    ∙ sym (bytes_between-drop start (min end (length body)) 0 body (omega arith))
    ∙ bytes_between-min start end (length body) 0 body (omega arith)

leb-ltb : (a b : ℕ) → leb a b ≡ not (ltb b a)
leb-ltb a b = ground arith

flip :
    (a b : ℕ) (x y : Result CoreError Bytes)
    → x ≡ y
    → (if ltb b a then err bad_request else x) ≡ (if leb a b then y else err bad_request)
flip a b x y p = rw (leb-ltb a b) (turned (ltb b a))
  where
    turned :
        (t : Bool) → (if t then err bad_request else x) ≡ (if not t then y else err bad_request)
    turned true = refl
    turned false = p

pub get_range-promised_range :
    (start end : ℕ) (o : Option Bytes)
    → (if ltb end start then err bad_request else get_range start end o)
      ≡ promised_range start end o
unfolding get_range
get_range-promised_range start end o =
    flip start end (get_range start end o) (promised_part start end o) (part o)
  where
    part : (o : Option Bytes) → get_range start end o ≡ promised_part start end o
    part none = refl
    part (some body) =
        flip start (length body) (ok (slice body start (min end (length body))))
          (ok (bytes_between start end 0 body)) (ap ok (slice-bytes_between start end body))
