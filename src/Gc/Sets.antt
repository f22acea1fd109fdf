-- ===== src/Gc/Sets.antt =====
-- Lists of texts as sets: as many different elements of a list as it has places are all of it.
use baleforgit.Prelude.{
  All, Bool, Bool-cases, List, [], ap, arith, false, if◌then◌else◌, inl, inr, length, refl, subst,
  suc, sym, true, ◌||◌, ◌∙◌, ◌∷◌, ◌≡◌, ◌≤◌,
}
use baleforgit.Core.{Bytes, eq_bytes}
use baleforgit.Meta.Hashes.{is_in}
use baleforgit.Table.{eq_bytes_refl, eq_bytes_sound}

-- No text stands twice.
abbrev pub NoRepeat : List Bytes → Type 0
NoRepeat [] = Unit
NoRepeat (x ∷ xs) = (is_in x xs ≡ false) × NoRepeat xs

erase : Bytes → List Bytes → List Bytes
erase x [] = []
erase x (y ∷ ys) = let rest = erase x ys in if eq_bytes x y then ys else y ∷ rest

length-erase :
    (x : Bytes) (ys : List Bytes) → is_in x ys ≡ true → suc (length (erase x ys)) ≡ length ys
unfolding erase is_in
length-erase x [] h = absurd (cc h)
length-erase x (y ∷ ys) h = elim (Bool-cases (eq_bytes x y)) [
  | inl e ↦ rw (e, erase) refl
  | inr e ↦ let p : is_in x ys ≡ true = rw e at h in rw (e, erase) (ap suc (length-erase x ys p))
]

is_in-erase :
    (z x : Bytes) (ys : List Bytes)
    → eq_bytes z x ≡ false
    → is_in z ys ≡ true
    → is_in z (erase x ys) ≡ true
unfolding erase is_in
is_in-erase z x [] n h = absurd (cc h)
is_in-erase z x (y ∷ ys) n h = elim (Bool-cases (eq_bytes x y)) [
  | inl e ↦
      let same : x ≡ y = eq_bytes_sound x y e in
      let other : eq_bytes z y ≡ false = subst (λ (k : Bytes). eq_bytes z k ≡ false) same n in
      let p : is_in z ys ≡ true = rw other at h in rw (e, erase) p
  | inr e ↦
      rw (e, erase)
        (elim (Bool-cases (eq_bytes z y)) [
          | inl k ↦ rw (k, is_in) refl
          | inr k ↦ let p : is_in z ys ≡ true = rw k at h in rw (k, is_in) (is_in-erase z x ys n p)
        ])
]

-- All of the one are in the other.
abbrev pub Within : List Bytes → List Bytes → Type 0
Within xs ys = All (λ x. is_in x ys ≡ true) xs

not_in_rest :
    (x z : Bytes) (xs : List Bytes)
    → is_in x (z ∷ xs) ≡ false
    → (eq_bytes x z ≡ false) × (is_in x xs ≡ false)
unfolding is_in
not_in_rest x z xs h = both (eq_bytes x z) (is_in x xs) h
  where
    both : (a b : Bool) → (a || b) ≡ false → (a ≡ false) × (b ≡ false)
    both false false e = (refl, refl)
    both false true e = absurd (cc e)
    both true b e = absurd (cc e)

eq_bytes_swap : (x z : Bytes) → eq_bytes x z ≡ false → eq_bytes z x ≡ false
eq_bytes_swap x z h = elim (Bool-cases (eq_bytes z x)) [
  | inl e ↦
      let p : z ≡ x = eq_bytes_sound z x e in
      let q : eq_bytes x x ≡ false = subst (λ (k : Bytes). eq_bytes x k ≡ false) p h in
      let r : true ≡ false = sym (eq_bytes_refl x) ∙ q in absurd (cc r)
  | inr e ↦ e
]

Within-erase :
    (x : Bytes) (xs ys : List Bytes) → is_in x xs ≡ false → Within xs ys → Within xs (erase x ys)
Within-erase x [] ys n h = tt
Within-erase x (z ∷ xs) ys n h =
    let (p, q) = not_in_rest x z xs n in
    (is_in-erase z x ys (eq_bytes_swap x z p) h.0, Within-erase x xs ys q h.1)

length-Within : (xs ys : List Bytes) → NoRepeat xs → Within xs ys → length xs ≤ length ys
length-Within [] ys n h = omega arith
length-Within (x ∷ xs) ys n h =
    let rest : length xs ≤ length (erase x ys) =
      length-Within xs (erase x ys) n.1 (Within-erase x xs ys n.0 h.1) in
    omega (arith, rest, length-erase x ys h.0)

-- As many different texts of `ys` as `ys` is long: each of `ys` is one of them.
pub all_of-NoRepeat :
    (xs ys : List Bytes) (y : Bytes)
    → NoRepeat xs
    → Within xs ys
    → length xs ≡ length ys
    → is_in y ys ≡ true
    → is_in y xs ≡ true
all_of-NoRepeat xs ys y n h e k = elim (Bool-cases (is_in y xs)) [
  | inl p ↦ p
  | inr p ↦
      let more : length (y ∷ xs) ≤ length ys = length-Within (y ∷ xs) ys (p, n) (k, h) in
      absurd (omega (arith, more, e))
]
