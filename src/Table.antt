-- ===== src/Table.antt =====
-- A `HashMap` whose keys are byte strings: an association list, in which a key stands once.
use baleforgit.Prelude.{
  ==_iff, ==_refl, All, Bool-cases, List, Option, [], ap, false, if◌then◌else◌, inl, inr, none,
  refl, some, subst, sym, true, ◌==◌, ◌∙◌, ◌∷◌, ◌≡◌,
}
use baleforgit.Core.{Bytes, eq_bytes}

pub eq_bytes_refl : (k : Bytes) → eq_bytes k k ≡ true
unfolding eq_bytes
eq_bytes_refl [] = refl
eq_bytes_refl (x ∷ k) = rw (==_refl x, eq_bytes_refl k) refl

pub eq_bytes_sound : (k l : Bytes) → eq_bytes k l ≡ true → k ≡ l
unfolding eq_bytes
eq_bytes_sound [] [] h = refl
eq_bytes_sound [] (y ∷ l) h = cc
eq_bytes_sound (x ∷ k) [] h = cc
eq_bytes_sound (x ∷ k) (y ∷ l) h = elim (Bool-cases (x == y)) [
  | inl e ↦
      let tails : eq_bytes k l ≡ true = rw e at h in
      let heads : x ≡ y = (==_iff x y).0 e in let same : k ≡ l = eq_bytes_sound k l tails in cc
  | inr e ↦ let p : false ≡ true = rw e at h in cc
]

pub eq_bytes_sym_false : (k l : Bytes) → eq_bytes k l ≡ false → eq_bytes l k ≡ false
eq_bytes_sym_false k l h = elim (Bool-cases (eq_bytes l k)) [
  | inl e ↦
      let p : l ≡ k = eq_bytes_sound l k e in
      let q : eq_bytes k k ≡ false = subst (λ (x : Bytes). eq_bytes k x ≡ false) p h in
      absurd (clash (sym q ∙ eq_bytes_refl k))
  | inr e ↦ e
]
  where
    clash : false ≡ true → ⊥
    clash p = cc p

module _ {ℓ} {V : Type ℓ} where
  -- `map.get(k)`
  unfoldable pub get : Bytes → List (Bytes × V) → Option V
  unfolding eq_bytes
  get k [] = none
  get k (e ∷ m) = let rest = get k m in if eq_bytes k e.0 then some e.1 else rest

  -- `map.insert(k, v)`
  unfoldable pub insert : Bytes → V → List (Bytes × V) → List (Bytes × V)
  unfolding eq_bytes
  insert k v [] = (k, v) ∷ []
  insert k v (e ∷ m) = let rest = insert k v m in if eq_bytes k e.0 then (k, v) ∷ m else e ∷ rest

  pub get-insert : (k : Bytes) (v : V) (m : List (Bytes × V)) → get k (insert k v m) ≡ some v
  unfolding get insert
  get-insert k v [] = rw (eq_bytes_refl k) refl
  get-insert k v (e ∷ m) = elim (Bool-cases (eq_bytes k e.0)) [
    | inl h ↦ rw (h, insert) (rw (eq_bytes_refl k, get) refl)
    | inr h ↦ rw (h, insert) (rw (h, get) (get-insert k v m))
  ]

  pub get-insert_other :
      (k l : Bytes) (v : V) (m : List (Bytes × V))
      → eq_bytes k l ≡ false
      → get k (insert l v m) ≡ get k m
  unfolding get insert
  get-insert_other k l v [] n = rw n refl
  get-insert_other k l v (e ∷ m) n = elim (Bool-cases (eq_bytes l e.0)) [
    | inl h ↦
        let same : l ≡ e.0 = eq_bytes_sound l e.0 h in
        let other : eq_bytes k e.0 ≡ false = subst (λ (x : Bytes). eq_bytes k x ≡ false) same n in
        rw (h, insert) (rw (n, other, get) refl)
    | inr h ↦
        rw (h, insert)
          (ap (λ r. if eq_bytes k e.0 then some e.1 else r) (get-insert_other k l v m n))
  ]

module _ {ℓ} {V : Type ℓ} where
  -- No key stands twice.
  abbrev pub IsMap : List (Bytes × V) → Type ℓ
  IsMap [] = Unit
  IsMap (e ∷ m) = (get e.0 m ≡ none) × IsMap m

  pub insert-IsMap : (k : Bytes) (v : V) (m : List (Bytes × V)) → IsMap m → IsMap (insert k v m)
  unfolding insert get
  insert-IsMap k v [] h = (refl, tt)
  insert-IsMap k v (e ∷ m) h = elim (Bool-cases (eq_bytes k e.0)) [
    | inl p ↦
        let same : k ≡ e.0 = eq_bytes_sound k e.0 p in
        rw (p, insert) (subst (λ (x : Bytes). get x m ≡ none) (sym same) h.0, h.1)
    | inr p ↦
        let other : eq_bytes e.0 k ≡ false = eq_bytes_sym_false k e.0 p in
        rw (p, insert) (get-insert_other e.0 k v m other ∙ h.0, insert-IsMap k v m h.1)
  ]

  pub insert-keys :
      (P : Bytes → Type 0) (k : Bytes) (v : V) (m : List (Bytes × V))
      → P k
      → All (λ e. P e.0) m
      → All (λ e. P e.0) (insert k v m)
  unfolding insert
  insert-keys P k v [] p h = (p, tt)
  insert-keys P k v (e ∷ m) p h = elim (Bool-cases (eq_bytes k e.0)) [
    | inl q ↦ rw (q, insert) (p, h.1)
    | inr q ↦ rw (q, insert) (h.0, insert-keys P k v m p h.1)
  ]
