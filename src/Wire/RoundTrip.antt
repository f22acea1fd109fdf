-- ===== src/Wire/RoundTrip.antt =====
-- The two directions of the text form of a hash.
use baleforgit.Prelude.{
  ==_eq, ==_iff, >>=-eq-ok, All, All-append, All-drop, All-reverse, All-take, Bool-cases, List, [],
  ap, append-nil, arith, bit_or, drop, drop-append, err, inl, inr, length, length-append,
  length-drop, length-reverse, length-take, ok, ok-injective, refl, reverse-cons_append, subst, suc,
  take, take-append, take-append-drop, zero, ℕ, ◌%◌, ◌*◌, ◌++◌, ◌+◌, ◌/◌, ◌<◌, ◌==◌, ◌∙◌, ◌∷◌, ◌≡◌,
  ◌≢◌, ◌≤◌,
}
use baleforgit.Core.{Hash32, IsHash, Text}
use baleforgit.Prelude.Bits.{bit_or_nibbles}
use baleforgit.Prelude.Bytes.{IsByte}
use baleforgit.Wire.{
  bad_length, decode_group, decode_groups, decode_hash, encode_groups, encode_hash, hex_bytes,
  hex_digit, hex_nibble,
}
use mathlib.Core.List.{reverse, reverse-reverse}

hex_nibble-hex_digit : (n : ℕ) → n < 16 → hex_nibble (hex_digit n) ≡ ok n
unfolding hex_nibble
hex_nibble-hex_digit n h = ground arith

hex_nibble_inverse : (c n : ℕ) → hex_nibble c ≡ ok n → (n < 16) × (hex_digit n ≡ c)
unfolding hex_nibble
hex_nibble_inverse c n h = ground arith

join_nibbles : (hi lo : ℕ) → hi < 16 → lo < 16 → bit_or (hi * 16) lo ≡ hi * 16 + lo
join_nibbles hi lo h k =
    let e : bit_or ((hi * 16 + lo) / 16 * 16) ((hi * 16 + lo) % 16) ≡ hi * 16 + lo =
      bit_or_nibbles (hi * 16 + lo) (omega arith) in
    let p : (hi * 16 + lo) / 16 ≡ hi = omega arith in
    let q : (hi * 16 + lo) % 16 ≡ lo = omega arith in cc (e, p, q)

decode_group-hex_bytes :
    (ys group : List ℕ) (rest : Text)
    → All IsByte ys
    → decode_group (length ys) group (hex_bytes ys ++ rest) ≡ ok (reverse ys ++ group, rest)
unfolding decode_group hex_bytes
decode_group-hex_bytes [] group rest h = refl
decode_group-hex_bytes (y ∷ ys) group rest h =
    simp
      (
        hex_nibble-hex_digit (y / 16) (omega arith),
        hex_nibble-hex_digit (y % 16) (omega arith),
        bit_or_nibbles y h.0,
        reverse-cons_append,
      )
      (decode_group-hex_bytes ys (y ∷ group) rest h.1)

length-hex_bytes : (ys : List ℕ) → length (hex_bytes ys) ≡ 2 * length ys
unfolding hex_bytes
length-hex_bytes [] = refl
length-hex_bytes (y ∷ ys) = omega (arith, length-hex_bytes ys)

length-encode_groups : (n : ℕ) (h : Hash32) → length h ≡ 8 * n → length (encode_groups n h) ≡ 16 * n
unfolding encode_groups
length-encode_groups zero h e = omega arith
length-encode_groups (suc n) h e = omega (
  arith,
  length-append (hex_bytes (reverse (take 8 h))) (encode_groups n (drop 8 h)),
  length-hex_bytes (reverse (take 8 h)),
  length-reverse (take 8 h),
  length-take 8 h,
  length-drop 8 h,
  length-encode_groups n (drop 8 h) (omega (arith, length-drop 8 h)),
)

decode_group-encode :
    (h : Hash32) (rest : Text)
    → 8 ≤ length h
    → All IsByte h
    → decode_group 8 [] (hex_bytes (reverse (take 8 h)) ++ rest) ≡ ok (take 8 h, rest)
decode_group-encode h rest e b =
    let size : length (reverse (take 8 h)) ≡ 8 =
      omega (arith, length-reverse (take 8 h), length-take 8 h) in
    let all : All IsByte (reverse (take 8 h)) =
      All-reverse IsByte (take 8 h) (All-take IsByte 8 h b) in
    subst
      (λ (n : ℕ). decode_group n [] (hex_bytes (reverse (take 8 h)) ++ rest) ≡ ok (take 8 h, rest))
      size
      (decode_group-hex_bytes (reverse (take 8 h)) [] rest all ∙ rw (append-nil, reverse-reverse))

decode_groups-encode_groups :
    (n : ℕ) (h : Hash32)
    → length h ≡ 8 * n
    → All IsByte h
    → decode_groups n (encode_groups n h) ≡ ok h
unfolding decode_groups encode_groups
decode_groups-encode_groups zero [] e b = refl
decode_groups-encode_groups zero (x ∷ h) e b = absurd (omega arith)
decode_groups-encode_groups (suc n) h e b = simp (
  decode_group-encode h (encode_groups n (drop 8 h)) (omega arith) b,
  decode_groups-encode_groups n (drop 8 h) (omega (arith, length-drop 8 h)) (All-drop IsByte 8 h b),
  take-append-drop,
)

-- Decoding the text of a hash of 32 bytes gives the hash back.
pub decode_hash-encode_hash : (h : Hash32) → IsHash h → decode_hash (encode_hash h) ≡ ok h
unfolding decode_hash encode_hash
decode_hash-encode_hash h v =
    simp (==_eq (length-encode_groups 4 h v.size), decode_groups-encode_groups 4 h v.size v.bytes)

-- What a successful run of `decode_group` read: the digits of the bytes `ys`.
record Digits (n : ℕ) (group : List ℕ) (s : Text) (g : List ℕ) (rest : Text) : Type 0 where
  ys : List ℕ
  size : length ys ≡ n
  bytes : All IsByte ys
  text : s ≡ hex_bytes ys ++ rest
  built : g ≡ reverse ys ++ group

Digits-step :
    (c d hi lo n : ℕ) (group s g rest : List ℕ)
    → hex_nibble c ≡ ok hi
    → hex_nibble d ≡ ok lo
    → Digits n (bit_or (hi * 16) lo ∷ group) s g rest
    → Digits (suc n) group (c ∷ d ∷ s) g rest
unfolding hex_bytes
Digits-step c d hi lo n group s g rest p q t =
    let (hi_lt, hi_digit) = hex_nibble_inverse c hi p in
    let (lo_lt, lo_digit) = hex_nibble_inverse d lo q in
    let joined : bit_or (hi * 16) lo ≡ hi * 16 + lo = join_nibbles hi lo hi_lt lo_lt in
    let high : (hi * 16 + lo) / 16 ≡ hi = omega arith in
    let low : (hi * 16 + lo) % 16 ≡ lo = omega arith in
    record {
      ys = (hi * 16 + lo) ∷ t.ys;
      size = ap suc t.size;
      bytes = (omega arith, t.bytes);
      text = rw (high, low, hi_digit, lo_digit) (ap (λ r. c ∷ d ∷ r) t.text);
      built = t.built ∙ rw (joined, reverse-cons_append);
    }

decode_group-Digits :
    (n : ℕ) (group : List ℕ) (s : Text) (g : List ℕ) (rest : Text)
    → decode_group n group s ≡ ok (g, rest)
    → Digits n group s g rest
unfolding decode_group
decode_group-Digits zero group s g rest e = record {
  ys = [];
  size = refl;
  bytes = tt;
  text = unfold hex_bytes in cc e;
  built = cc e;
}
decode_group-Digits (suc n) group [] g rest e = cc
decode_group-Digits (suc n) group (c ∷ []) g rest e = cc
decode_group-Digits (suc n) group (c ∷ d ∷ s) g rest e =
    let (hi, p, e₁) = >>=-eq-ok (hex_nibble c) _ e in
    let (lo, q, e₂) = >>=-eq-ok (hex_nibble d) _ e₁ in
    Digits-step c d hi lo n group s g rest p q
      (decode_group-Digits n (bit_or (hi * 16) lo ∷ group) s g rest e₂)

-- A decoded hash, and the text that it came from.
record Decoded (n : ℕ) (s : Text) (h : Hash32) : Type 0 where
  text : encode_groups n h ≡ s
  size : length h ≡ 8 * n
  bytes : All IsByte h

group_of_digits :
    (ys : List ℕ)
    → length ys ≡ 8
    → (others : List ℕ)
    → (take 8 ((reverse ys ++ []) ++ others) ≡ reverse ys)
      × (drop 8 ((reverse ys ++ []) ++ others) ≡ others)
group_of_digits ys e others =
    let size : length (reverse ys) ≡ 8 = length-reverse ys ∙ e in
    simp append-nil (
      subst (λ (n : ℕ). take n (reverse ys ++ others) ≡ reverse ys) size
          (take-append (reverse ys) others),
      subst (λ (n : ℕ). drop n (reverse ys ++ others) ≡ others) size
          (drop-append (reverse ys) others),
    )

Decoded-step :
    (n : ℕ) (s rest : Text) (g others : List ℕ)
    → Digits 8 [] s g rest
    → Decoded n rest others
    → Decoded (suc n) s (g ++ others)
unfolding encode_groups
Decoded-step n s rest g others t r =
    let (front, back) = group_of_digits t.ys t.size others in
    let all : All IsByte (reverse t.ys) = All-reverse IsByte t.ys t.bytes in
    rw (t.built, t.text)
      (record {
        text = rw (front, back, reverse-reverse, r.text);
        size = omega (
          arith,
          length-append (reverse t.ys ++ []) others,
          length-append (reverse t.ys) [],
          length-reverse t.ys,
          t.size,
          r.size,
        );
        bytes = rw append-nil (All-append IsByte (reverse t.ys) others all r.bytes);
      })

Digits-rest : (n : ℕ) (s g rest : List ℕ) → Digits n [] s g rest → length s ≡ 2 * n + length rest
Digits-rest n s g rest t = omega (
  arith,
  ap (length {A = ℕ}) t.text,
  length-append (hex_bytes t.ys) rest,
  length-hex_bytes t.ys,
  t.size,
)

decode_groups-Decoded :
    (n : ℕ) (s : Text) (h : Hash32) → length s ≡ 16 * n → decode_groups n s ≡ ok h → Decoded n s h
unfolding decode_groups encode_groups
decode_groups-Decoded zero [] h e p =
    rw (← ok-injective p) (record { text = refl; size = refl; bytes = tt })
decode_groups-Decoded zero (c ∷ s) h e p = absurd (omega arith)
decode_groups-Decoded (suc n) s h e p =
    let ((g, rest), p₁, p₂) = >>=-eq-ok (decode_group 8 [] s) _ p in
    let (others, p₃, p₄) = >>=-eq-ok (decode_groups n rest) _ p₂ in
    let t : Digits 8 [] s g rest = decode_group-Digits 8 [] s g rest p₁ in
    let size : length rest ≡ 16 * n = omega (arith, Digits-rest 8 s g rest t) in
    subst (λ (k : Hash32). Decoded (suc n) s k) (ok-injective p₄)
      (Decoded-step n s rest g others t (decode_groups-Decoded n rest others size p₃))

-- A text that decodes is the text of the hash that it decodes to, and that hash has 32 bytes: no
-- other text decodes to the same hash.
pub encode_hash-decode_hash :
    (s : Text) (h : Hash32) → decode_hash s ≡ ok h → (encode_hash h ≡ s) × IsHash h
unfolding decode_hash encode_hash
encode_hash-decode_hash s h p = elim (Bool-cases (length s == 64)) [
  | inl e ↦
      let p₁ : decode_groups 4 s ≡ ok h = rw e at p in
      let d : Decoded 4 s h = decode_groups-Decoded 4 s h ((==_iff _ _).0 e) p₁ in
      (d.text, record { size = d.size; bytes = d.bytes })
  | inr e ↦ let p₁ : err bad_length ≡ ok h = rw e at p in cc
]

-- A text of another length is refused as such.
pub decode_hash-length : (s : Text) → length s ≢ 64 → decode_hash s ≡ err bad_length
unfolding decode_hash
decode_hash-length s h = ground arith
