-- ===== src/Authz/CtEq.antt =====
-- The comparison without early exit is equality.
use baleforgit.Prelude.{
  ==_eq, ==_iff, Bool-cases, [], arith, bit_or, bit_xor, false, inl, inr, length, refl, subst, sym,
  true, ℕ, ◌%◌, ◌<◌, ◌^◌, ◌∙◌, ◌∷◌, ◌≡◌,
}
use baleforgit.Authz.{ct_eq, fold_differences}
use baleforgit.Core.{Bytes, eq_bytes}
use baleforgit.Prelude.Zeros.{bit_or_of_zero, bit_or_zero, bit_xor-lt, bit_xor_self, bit_xor_zero}
use baleforgit.Table.{eq_bytes_refl, eq_bytes_sound}

fold_differences_zero :
    (acc : ℕ) (a b : Bytes)
    → fold_differences acc a b ≡ 0
    → (acc ≡ 0) × (length a ≡ length b → a ≡ b)
unfolding fold_differences
fold_differences_zero acc [] [] h = (h, λ e. refl)
fold_differences_zero acc [] (y ∷ b) h = (h, λ e. absurd (omega arith))
fold_differences_zero acc (x ∷ a) [] h = (h, λ e. absurd (omega arith))
fold_differences_zero acc (x ∷ a) (y ∷ b) h =
    let (p, same) = fold_differences_zero (bit_or acc (bit_xor x y)) a b h in
    let (q, r) = bit_or_zero acc (bit_xor x y) p in
    let head : x ≡ y = bit_xor_zero x y r in
    (q, λ e. let tail : a ≡ b = same (omega arith) in cc (head, tail))

fold_differences_same : (a : Bytes) → fold_differences 0 a a ≡ 0
unfolding fold_differences
fold_differences_same [] = refl
fold_differences_same (x ∷ a) =
    let e : bit_or 0 (bit_xor x x) ≡ 0 = bit_or_of_zero (bit_xor x x) ∙ bit_xor_self x in
    rw e (fold_differences_same a)

pub ct_eq_sound : (a b : Bytes) → length a < 2 ^ 32 → length b < 2 ^ 32 → ct_eq a b ≡ true → a ≡ b
unfolding ct_eq
ct_eq_sound a b la lb h =
    let (p, same) =
      fold_differences_zero (bit_xor (length a) (length b) % 2 ^ 32) a b ((==_iff _ 0).0 h) in
    same (
      bit_xor_zero (length a) (length b)
        (omega (arith, p, bit_xor-lt 32 (length a) (length b) la lb)))

pub ct_eq_refl : (a : Bytes) → ct_eq a a ≡ true
unfolding ct_eq
ct_eq_refl a = rw (bit_xor_self (length a)) (==_eq (fold_differences_same a))

-- On strings shorter than 4 GiB `ct_eq` decides equality.
pub ct_eq-eq_bytes :
    (a b : Bytes) → length a < 2 ^ 32 → length b < 2 ^ 32 → ct_eq a b ≡ eq_bytes b a
ct_eq-eq_bytes a b la lb = elim (Bool-cases (ct_eq a b)) [
  | inl e ↦
      let p : a ≡ b = ct_eq_sound a b la lb e in
      e ∙ sym (subst (λ (x : Bytes). eq_bytes x a ≡ true) p (eq_bytes_refl a))
  | inr e ↦ elim (Bool-cases (eq_bytes b a)) [
    | inl f ↦
        let p : b ≡ a = eq_bytes_sound b a f in
        let q : ct_eq a b ≡ true = subst (λ (x : Bytes). ct_eq a x ≡ true) (sym p) (ct_eq_refl a) in
        absurd (clash (sym e ∙ q))
    | inr f ↦ e ∙ sym f
  ]
]
  where
    clash : false ≡ true → ⊥
    clash p = cc p
