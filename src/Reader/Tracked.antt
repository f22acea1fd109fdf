-- ===== src/Reader/Tracked.antt =====
-- What the changes of the order and of the map do to the sizes of the tracked blobs.
use baleforgit.Prelude.{
  Bool, Bool-cases, List, [], ap, arith, false, if◌then◌else◌, inl, inr, none, or_swap, refl, some,
  subst, sym, true, ℕ, ◌++◌, ◌+◌, ◌||◌, ◌∙◌, ◌∷◌, ◌≡◌,
}
use baleforgit.Core.{Bytes, Text, eq_bytes}
use baleforgit.Meta.Hashes.{is_in}
use baleforgit.Reader.{held, remove, remove_first}
use baleforgit.Table.{eq_bytes_sound, eq_bytes_sym_false, get, get-insert_other, insert}
use mathlib.Core.Path.{ap₂}

-- No key stands twice.
abbrev pub IsDistinct : List Text → Type 0
unfolding is_in
IsDistinct [] = Unit
IsDistinct (k ∷ ks) = (is_in k ks ≡ false) × IsDistinct ks

-- The sizes of the blobs under the keys.
unfoldable pub tracked_bytes : List (Text × Bytes) → List Text → ℕ
unfolding get
tracked_bytes m [] = 0
tracked_bytes m (k ∷ ks) = held (get k m) + tracked_bytes m ks

pub get-remove_same : (k : Text) (m : List (Text × Bytes)) → get k (remove k m) ≡ none
unfolding get remove
get-remove_same k [] = refl
get-remove_same k (e ∷ m) = elim (Bool-cases (eq_bytes k e.0)) [
  | inl h ↦ rw (h, remove) (get-remove_same k m)
  | inr h ↦ rw (h, remove) (rw (h, get) (get-remove_same k m))
]

pub get-remove_other :
    (k v : Text) (m : List (Text × Bytes)) → eq_bytes k v ≡ false → get k (remove v m) ≡ get k m
unfolding get remove
get-remove_other k v [] n = refl
get-remove_other k v (e ∷ m) n = elim (Bool-cases (eq_bytes v e.0)) [
  | inl h ↦
      let same : v ≡ e.0 = eq_bytes_sound v e.0 h in
      let other : eq_bytes k e.0 ≡ false = subst (λ (x : Bytes). eq_bytes k x ≡ false) same n in
      rw (h, remove) (rw (other, get) (get-remove_other k v m n))
  | inr h ↦
      rw (h, remove) (ap (λ r. if eq_bytes k e.0 then some e.1 else r) (get-remove_other k v m n))
]

pub apart : (a b : Bool) → (a || b) ≡ false → (a ≡ false) × (b ≡ false)
apart true b h = absurd (cc h)
apart false b h = (refl, h)

pub tracked_bytes-remove :
    (v : Text) (m : List (Text × Bytes)) (ks : List Text)
    → is_in v ks ≡ false
    → tracked_bytes (remove v m) ks ≡ tracked_bytes m ks
unfolding tracked_bytes is_in
tracked_bytes-remove v m [] n = refl
tracked_bytes-remove v m (k ∷ ks) n =
    let (p, q) = apart (eq_bytes v k) (is_in v ks) n in
    ap₂ (λ x y. held x + y) (get-remove_other k v m (eq_bytes_sym_false v k p))
      (tracked_bytes-remove v m ks q)

pub tracked_bytes-insert :
    (v : Text) (blob : Bytes) (m : List (Text × Bytes)) (ks : List Text)
    → is_in v ks ≡ false
    → tracked_bytes (insert v blob m) ks ≡ tracked_bytes m ks
unfolding tracked_bytes is_in
tracked_bytes-insert v blob m [] n = refl
tracked_bytes-insert v blob m (k ∷ ks) n =
    let (p, q) = apart (eq_bytes v k) (is_in v ks) n in
    ap₂ (λ x y. held x + y) (get-insert_other k v blob m (eq_bytes_sym_false v k p))
      (tracked_bytes-insert v blob m ks q)

pub tracked_bytes-snoc :
    (m : List (Text × Bytes)) (ks : List Text) (k : Text)
    → tracked_bytes m (ks ++ k ∷ []) ≡ tracked_bytes m ks + held (get k m)
unfolding tracked_bytes
tracked_bytes-snoc m [] k = omega arith
tracked_bytes-snoc m (x ∷ ks) k =
    let h : tracked_bytes m (ks ++ k ∷ []) ≡ tracked_bytes m ks + held (get k m) =
      tracked_bytes-snoc m ks k in
    omega arith

pub tracked_bytes-remove_first :
    (m : List (Text × Bytes)) (k : Text) (ks : List Text)
    → is_in k ks ≡ true
    → tracked_bytes m ks ≡ held (get k m) + tracked_bytes m (remove_first k ks)
unfolding tracked_bytes is_in remove_first
tracked_bytes-remove_first m k [] h = absurd (cc h)
tracked_bytes-remove_first m k (x ∷ ks) h = elim (Bool-cases (eq_bytes k x)) [
  | inl e ↦
      rw (e, remove_first)
        (ap (λ y. held (get y m) + tracked_bytes m ks) (sym (eq_bytes_sound k x e)))
  | inr e ↦
      let r : tracked_bytes m ks ≡ held (get k m) + tracked_bytes m (remove_first k ks) =
        tracked_bytes-remove_first m k ks (rw e at h) in
      rw (e, remove_first) (omega arith)
]

pub is_in-snoc :
    (x k : Text) (ks : List Text) → is_in x (ks ++ k ∷ []) ≡ (eq_bytes x k || is_in x ks)
unfolding is_in
is_in-snoc x k [] = refl
is_in-snoc x k (y ∷ ks) =
    rw (is_in-snoc x k ks) (or_swap (eq_bytes x y) (eq_bytes x k) (is_in x ks))

pub is_in-remove_first :
    (x k : Text) (ks : List Text)
    → is_in k ks ≡ true
    → is_in x ks ≡ (eq_bytes x k || is_in x (remove_first k ks))
unfolding is_in remove_first
is_in-remove_first x k [] h = absurd (cc h)
is_in-remove_first x k (y ∷ ks) h = elim (Bool-cases (eq_bytes k y)) [
  | inl e ↦ rw (e, remove_first) (ap (λ z. eq_bytes x z || is_in x ks) (sym (eq_bytes_sound k y e)))
  | inr e ↦
      let r : is_in x ks ≡ (eq_bytes x k || is_in x (remove_first k ks)) =
        is_in-remove_first x k ks (rw e at h) in
      rw (e, remove_first)
        (rw r (or_swap (eq_bytes x y) (eq_bytes x k) (is_in x (remove_first k ks))))
]

remove_first-absent :
    (x k : Text) (ks : List Text) → is_in x ks ≡ false → is_in x (remove_first k ks) ≡ false
unfolding is_in remove_first
remove_first-absent x k [] n = refl
remove_first-absent x k (y ∷ ks) n =
    let (p, q) = apart (eq_bytes x y) (is_in x ks) n in
    elim (Bool-cases (eq_bytes k y)) [
      | inl e ↦ rw (e, remove_first) q
      | inr e ↦ rw (e, remove_first) (rw p (remove_first-absent x k ks q))
    ]

pub remove_first-IsDistinct :
    (k : Text) (ks : List Text)
    → IsDistinct ks
    → IsDistinct (remove_first k ks) × (is_in k (remove_first k ks) ≡ false)
unfolding is_in remove_first
remove_first-IsDistinct k [] d = (tt, refl)
remove_first-IsDistinct k (y ∷ ks) d = elim (Bool-cases (eq_bytes k y)) [
  | inl e ↦
      rw (e, remove_first)
        (d.1, subst (λ (z : Text). is_in z ks ≡ false) (sym (eq_bytes_sound k y e)) d.0)
  | inr e ↦
      let (r, n) = remove_first-IsDistinct k ks d.1 in
      rw (e, remove_first) ((remove_first-absent y k ks d.0, r), rw e n)
]

pub snoc-IsDistinct :
    (k : Text) (ks : List Text) → is_in k ks ≡ false → IsDistinct ks → IsDistinct (ks ++ k ∷ [])
unfolding is_in
snoc-IsDistinct k [] n d = (refl, tt)
snoc-IsDistinct k (y ∷ ks) n d =
    let (p, q) = apart (eq_bytes k y) (is_in k ks) n in
    (is_in-snoc y k ks ∙ rw (eq_bytes_sym_false k y p) d.0, snoc-IsDistinct k ks q d.1)
