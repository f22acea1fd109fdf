-- ===== src/Shard/Runs.antt =====
-- What every run of an action of the cursor has, one rule for each way to build an action.
use baleforgit.Prelude.{
  All, All-drop, All-take, Bool, Bool-cases, Result, ap, arith, drop, err, false, if◌then◌else◌,
  inl, inr, length, length-drop, length-take, ltb, ltb_false→le, ok, refl, stuck, take, true, ℕ,
  ◌%◌, ◌+◌, ◌-◌, ◌/◌, ◌<◌, ◌^◌, ◌∙◌, ◌≡◌, ◌≤◌,
}
use baleforgit.Core.{Bytes}
use baleforgit.Prelude.Bytes.{IsByte, IsU32, IsU64, from_le_bytes-lt}
use baleforgit.Shard.{ShardError, entry_size}
use baleforgit.Shard.Cursor.{
  Cursor, Reader, fail, need, pure, read_hash, read_u32, read_u64, remaining, skip, take_bytes,
  ◌>>=◌,
}
use baleforgit.Shard.Parse.{room_for, room_for_terms}

-- A run ends by an error, or returns some `a` and takes `n` bytes that are there, with `Q a n`. It
-- does not end by `stuck`.
abbrev pub Post {ℓ} :
    {A : Type ℓ} → (A → ℕ → Type 0) → Cursor → Result ShardError (A × Cursor) → Type 0
Post Q c (ok (a, c')) =
    (n : ℕ) × (c' ≡ record c { pos = c.pos + n }) × (c.pos + n ≤ length c.buf) × Q a n
Post Q c (err e) = Unit
Post Q c stuck = ⊥

-- `Q` holds of every run of `m` on bytes, where fewer than `room` bytes are left.
pub record Runs {ℓ} {A : Type ℓ} (room : ℕ) (m : Reader A) (Q : A → ℕ → Type 0) : Type ℓ where
  pub at :
      (c : Cursor) → c.pos ≤ length c.buf → All IsByte c.buf → remaining c < room → Post Q c (m c)

module _ {ℓ} {A : Type ℓ} {room : ℕ} {Q : A → ℕ → Type 0} where
  pub Runs-pure : (a : A) → Q a 0 → Runs room (pure a) Q
  unfolding pure
  Runs-pure a q = record {
    at = λ c h b r. (0, ap (λ (p : ℕ). record c { pos = p }) (omega arith), omega arith, q);
  }

  pub Runs-fail : (e : ShardError) → Runs room (fail e) Q
  unfolding fail
  Runs-fail e = record { at = λ c h b r. tt }

  pub Runs-if :
      (t : Bool) (m k : Reader A)
      → (t ≡ true → Runs room m Q)
      → (t ≡ false → Runs room k Q)
      → Runs room (if t then m else k) Q
  Runs-if true m k h g = h refl
  Runs-if false m k h g = g refl

shift :
    (c : Cursor) (n k : ℕ)
    → ◌≡◌ {A = Cursor} (record c { pos = c.pos + n + k }) (record c { pos = c.pos + (n + k) })
shift c n k = ap (λ (p : ℕ). record c { pos = p }) (omega arith)

module _ {κ} {B : Type κ} where
  Post-step :
      (R : B → ℕ → Type 0) (c : Cursor) (n : ℕ) (r : Result ShardError (B × Cursor))
      → Post (λ b k. R b (n + k)) (record c { pos = c.pos + n }) r
      → Post R c r
  Post-step R c n (ok (b, c')) (k, e, h, q) = (n + k, e ∙ shift c n k, omega arith, q)
  Post-step R c n (err e) p = tt
  Post-step R c n stuck p = p

module _ {ℓ κ} {A : Type ℓ} {B : Type κ} where
  Post-bind :
      (room : ℕ) (Q : A → ℕ → Type 0) (f : A → Reader B) (R : B → ℕ → Type 0) (c : Cursor)
      (r : Result ShardError (A × Cursor))
      → All IsByte c.buf
      → remaining c < room
      → Post Q c r
      → ((a : A) (n : ℕ) → Q a n → Runs (room - n) (f a) (λ b k. R b (n + k)))
      → Post R c (elim r [ ok (a, c') ↦ f a c' | err e ↦ err e | stuck ↦ stuck ])
  Post-bind room Q f R c (ok (a, c')) b r (n, e, h, q) k = rw e (
      Post-step R c n (f a (record c { pos = c.pos + n }))
        ((k a n q).at (record c { pos = c.pos + n }) h b (omega arith)))
  Post-bind room Q f R c (err e) b r p k = tt
  Post-bind room Q f R c stuck b r p k = p

  pub Runs-bind :
      {room : ℕ} {m : Reader A} (f : A → Reader B) {Q : A → ℕ → Type 0} {R : B → ℕ → Type 0}
      → Runs room m Q
      → ((a : A) (n : ℕ) → Q a n → Runs (room - n) (f a) (λ b k. R b (n + k)))
      → Runs room (m >>= f) R
  unfolding ◌>>=◌
  Runs-bind {room} {m} f {Q} {R} r k = record {
    at = λ c h b left. Post-bind room Q f R c (m c) b left (r.at c h b left) k;
  }

module _ {ℓ} {A : Type ℓ} where
  Post-weaken :
      {Q R : A → ℕ → Type 0} (c : Cursor) (r : Result ShardError (A × Cursor))
      → ((a : A) (k : ℕ) → Q a k → R a k)
      → Post Q c r
      → Post R c r
  Post-weaken c (ok (a, c')) g (n, e, h, q) = (n, e, h, g a n q)
  Post-weaken c (err e) g p = tt
  Post-weaken c stuck g p = p

  pub weaken :
      {room : ℕ} {m : Reader A} {Q R : A → ℕ → Type 0}
      → ((a : A) (k : ℕ) → Q a k → R a k)
      → Runs room m Q
      → Runs room m R
  weaken {m} g r = record { at = λ c h b left. Post-weaken c (m c) g (r.at c h b left) }

abbrev pub TookBytes : ℕ → Bytes → ℕ → Type 0
TookBytes n xs k = (k ≡ n) × (length xs ≡ n) × All IsByte xs

taken : (n : ℕ) (buf : Bytes) (p : ℕ) → n ≤ length buf - p → length (take n (drop p buf)) ≡ n
taken n buf p h = length-take n (drop p buf) ∙ omega (arith, length-drop p buf)

module _ {room : ℕ} where
  pub Runs-take : (n : ℕ) → Runs room (take_bytes n) (TookBytes n)
  unfolding take_bytes
  Runs-take n = record {
    at = λ c h b left. elim (Bool-cases (ltb (length c.buf - c.pos) n)) [
      | inl e ↦ rw (e, take_bytes, need) tt
      | inr e ↦
          let enough : n ≤ length c.buf - c.pos = ltb_false→le _ _ e in
          rw (e, take_bytes, need)
            (
              n,
              refl,
              omega arith,
              (
                refl,
                taken n c.buf c.pos enough,
                All-take IsByte n (drop c.pos c.buf) (All-drop IsByte c.pos c.buf b),
              ),
            )
    ];
  }

  pub Runs-u32 : Runs room read_u32 (λ v k. (k ≡ 4) × IsU32 v)
  unfolding read_u32
  Runs-u32 = Runs-bind _ (Runs-take 4) λ xs n q.
      Runs-pure _
        (omega (arith, q.0), omega (arith, from_le_bytes-lt xs q.2, ap (λ (m : ℕ). 256 ^ m) q.1))

  pub Runs-IsU64 : Runs room read_u64 (λ v k. (k ≡ 8) × IsU64 v)
  unfolding read_u64
  Runs-IsU64 = Runs-bind _ (Runs-take 8) λ xs n q.
      Runs-pure _
        (omega (arith, q.0), omega (arith, from_le_bytes-lt xs q.2, ap (λ (m : ℕ). 256 ^ m) q.1))

  pub Runs-hash : Runs room read_hash (TookBytes 32)
  unfolding read_hash
  Runs-hash = Runs-take 32

  pub Runs-skip : (n : ℕ) → Runs room (skip n) (λ _ k. k ≡ n)
  unfolding skip
  Runs-skip n = Runs-bind _ (Runs-take n) λ xs k q. Runs-pure tt (omega (arith, q.0))

  pub Runs-room_for : (n : ℕ) → Runs room (room_for n) (λ _ k. k ≡ 0)
  unfolding room_for
  Runs-room_for n = record {
    at = λ c h b left. elim (Bool-cases (ltb (remaining c / entry_size) n)) [
      | inl e ↦ rw (e, room_for) tt
      | inr e ↦
          rw (e, room_for)
            (0, ap (λ (p : ℕ). record c { pos = p }) (omega arith), omega arith, refl)
    ];
  }

  pub Runs-room_for_terms : (n : ℕ) → Runs room (room_for_terms n) (λ _ k. k ≡ 0)
  unfolding room_for_terms
  Runs-room_for_terms n = record {
    at = λ c h b left. elim (Bool-cases (ltb (remaining c / entry_size % 2 ^ 32) n)) [
      | inl e ↦ rw (e, room_for_terms) tt
      | inr e ↦
          rw (e, room_for_terms)
            (0, ap (λ (p : ℕ). record c { pos = p }) (omega arith), omega arith, refl)
    ];
  }
