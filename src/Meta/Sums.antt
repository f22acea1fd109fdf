-- ===== src/Meta/Sums.antt =====
-- What the sums of the usage queries come to.
use baleforgit.Prelude.{
  >>=-eq-ok, All, Bool, Bool-cases, List, [], ap, arith, err, false, if-both, inl, inr, leb, ltb,
  lt→ltb, not, ok, ok-injective, refl, sym, true, ℕ, ◌%◌, ◌&&◌, ◌+◌, ◌<◌, ◌^◌, ◌||◌, ◌∙◌, ◌∷◌, ◌≡◌,
}
use baleforgit.Core.{Hash32, XorbInfo, internal}
use baleforgit.Meta.{nonneg_i64_to_u64}
use baleforgit.Meta.Usage.{on_disk_of, sum_i64, sum_u64}
use baleforgit.Prelude.Bytes.{IsU32}

abbrev pub total : List ℕ → ℕ
total [] = 0
total (v ∷ vs) = v + total vs

abbrev pub Small : List ℕ → Type 0
Small vs = All (λ v. v < 2 ^ 63) vs

sum_i64-ok :
    (acc : ℕ) (vs : List ℕ) (n : ℕ)
    → acc < 2 ^ 63
    → Small vs
    → sum_i64 acc vs ≡ ok n
    → n ≡ acc + total vs
unfolding sum_i64
sum_i64-ok acc [] n a h e = let p : acc ≡ n = ok-injective e in omega (arith, p)
sum_i64-ok acc (v ∷ vs) n a h e =
    let v_small : v < 2 ^ 63 = h.0 in
    let next : (acc + v) % 2 ^ 64 ≡ acc + v = omega arith in
    let acc_low : ltb acc (2 ^ 63) ≡ true = lt→ltb acc (2 ^ 63) a in
    let v_low : ltb v (2 ^ 63) ≡ true = lt→ltb v (2 ^ 63) v_small in
    let acc_high : leb (2 ^ 63) acc ≡ false = ground arith in
    elim (Bool-cases (leb (2 ^ 63) (acc + v))) [
      | inl big ↦
          let p : err internal ≡ ok n = rw (next, acc_low, v_low, acc_high, big) at e in
          absurd (cc p)
      | inr fits ↦
          let p : sum_i64 (acc + v) vs ≡ ok n = rw (next, acc_low, v_low, acc_high, fits) at e in
          let small : acc + v < 2 ^ 63 = ground arith in
          let ih : n ≡ (acc + v) + total vs = sum_i64-ok (acc + v) vs n small h.1 p in
          omega (arith, ih)
    ]

-- A sum of numbers below 2 ^ 63 that is returned is their sum.
pub sum_u64-ok : (vs : List ℕ) (n : ℕ) → Small vs → sum_u64 vs ≡ ok n → n ≡ total vs
unfolding sum_u64 nonneg_i64_to_u64
sum_u64-ok vs n h e =
    let (m, p, q) = >>=-eq-ok (sum_i64 0 vs) nonneg_i64_to_u64 e in
    let s : m ≡ total vs = sum_i64-ok 0 vs m (omega arith) h p ∙ omega arith in
    elim (Bool-cases (ltb m (2 ^ 63))) [
      | inl low ↦ let r : ok m ≡ ok n = rw low at q in sym (ok-injective r) ∙ s
      | inr high ↦ let r : err internal ≡ ok n = rw high at q in absurd (cc r)
    ]

sum_i64-total :
    (acc : ℕ) (vs : List ℕ) → acc + total vs < 2 ^ 63 → sum_i64 acc vs ≡ ok (acc + total vs)
unfolding sum_i64
sum_i64-total acc [] h = ap ok (omega arith)
sum_i64-total acc (v ∷ vs) h =
    let next : (acc + v) % 2 ^ 64 ≡ acc + v = omega arith in
    let acc_high : leb (2 ^ 63) acc ≡ false = ground arith in
    let fits : leb (2 ^ 63) (acc + v) ≡ false = ground arith in
    let acc_low : ltb acc (2 ^ 63) ≡ true = ground arith in
    let v_low : ltb v (2 ^ 63) ≡ true = ground arith in
    rw (next, acc_low, v_low, acc_high, fits)
      (sum_i64-total (acc + v) vs (omega arith) ∙ ap ok (omega arith))

-- Numbers whose sum is below 2 ^ 63 are summed.
pub sum_u64-total : (vs : List ℕ) → total vs < 2 ^ 63 → sum_u64 vs ≡ ok (total vs)
unfolding sum_u64 nonneg_i64_to_u64
sum_u64-total vs h =
    let s : sum_i64 0 vs ≡ ok (total vs) = sum_i64-total 0 vs (omega arith) ∙ ap ok (omega arith) in
    rw (s, lt→ltb (total vs) (2 ^ 63) h) refl

abbrev pub IsU32Xorbs : List XorbInfo → Type 0
IsU32Xorbs rows = All (λ x. IsU32 x.num_bytes_on_disk) rows

pub on_disk_of-Small :
    (p : Hash32 → Bool) (rows : List XorbInfo) → IsU32Xorbs rows → Small (on_disk_of p rows)
unfolding on_disk_of
on_disk_of-Small p [] h = tt
on_disk_of-Small p (x ∷ rows) h =
    if-both (λ vs. Small vs) (p x.xorb) (wide x.num_bytes_on_disk h.0, on_disk_of-Small p rows h.1)
      (on_disk_of-Small p rows h.1)
  where
    wide : (n : ℕ) → n < 2 ^ 32 → n < 2 ^ 63
    wide n h = omega arith

pub on_disk_of-same :
    (p q : Hash32 → Bool) (rows : List XorbInfo)
    → ((x : Hash32) → p x ≡ q x)
    → on_disk_of p rows ≡ on_disk_of q rows
unfolding on_disk_of
on_disk_of-same p q [] h = refl
on_disk_of-same p q (x ∷ rows) h = rw (h x.xorb, on_disk_of-same p q rows h) refl

-- What `p` or `q` selects is what `p` selects, and what only `q` does.
pub total-either :
    (p q : Hash32 → Bool) (rows : List XorbInfo)
    → total (on_disk_of (λ x. p x || q x) rows)
      ≡ total (on_disk_of p rows) + total (on_disk_of (λ x. q x && not (p x)) rows)
unfolding on_disk_of
total-either p q [] = refl
total-either p q (x ∷ rows) = elim (Bool-cases (p x.xorb)) [
  | inl e ↦ elim (Bool-cases (q x.xorb)) [
    | inl k ↦ rw (e, k) (omega (arith, total-either p q rows))
    | inr k ↦ rw (e, k) (omega (arith, total-either p q rows))
  ]
  | inr e ↦ elim (Bool-cases (q x.xorb)) [
    | inl k ↦ rw (e, k) (omega (arith, total-either p q rows))
    | inr k ↦ rw (e, k) (omega (arith, total-either p q rows))
  ]
]
