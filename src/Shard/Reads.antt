-- ===== src/Shard/Reads.antt =====
-- What an action of the cursor does on an input that begins with given bytes, one rule for each way
-- to build an action.
use baleforgit.Prelude.{
  Bool, [], ap, append-nil, append_assoc, arith, drop, drop-append, drop-drop, false, if◌then◌else◌,
  length, length-append, length-drop, le→ltb_false, ok, subst, sym, take-append, true, ℕ, ◌%◌, ◌*◌,
  ◌++◌, ◌+◌, ◌-◌, ◌/◌, ◌^◌, ◌∙◌, ◌≡◌, ◌≤◌,
}
use baleforgit.Core.{Bytes, Hash32}
use baleforgit.Prelude.Bytes.{
  IsU32, IsU64, from_le_bytes, from_le_bytes-to_le_bytes, length-to_le_bytes, to_le_bytes,
}
use baleforgit.Shard.{max_shard_bytes}
use baleforgit.Shard.Cursor.{
  Cursor, Reader, need, pure, read_hash, read_u32, read_u64, remaining, skip, take_bytes, ◌>>=◌,
  ◌>>◌,
}
use baleforgit.Shard.Parse.{room_for, room_for_terms}

-- On every input of at most 64 MiB that goes on with `xs`, `m` takes `xs` and returns `a`.
pub record Reads {ℓ} {A : Type ℓ} (m : Reader A) (xs : Bytes) (a : A) : Type ℓ where
  pub run :
      (c : Cursor) (rest : Bytes)
      → length c.buf ≤ max_shard_bytes
      → drop c.pos c.buf ≡ xs ++ rest
      → m c ≡ ok (a, record c { pos = c.pos + length xs })

advance :
    (c : Cursor) (n m k : ℕ)
    → n + m ≡ k
    → ◌≡◌ {A = Cursor} (record c { pos = c.pos + n + m }) (record c { pos = c.pos + k })
advance c n m k e = ap (λ (p : ℕ). record c { pos = p }) (omega arith)

module _ {ℓ} {A : Type ℓ} where
  pub Reads-pure : (a : A) → Reads (pure a) [] a
  unfolding pure
  Reads-pure a = record {
    run = λ c rest h e. ap (λ (p : ℕ). ok (a, record c { pos = p })) (omega arith);
  }

  pub Reads-from : {m : Reader A} {xs ys : Bytes} {a : A} → xs ≡ ys → Reads m xs a → Reads m ys a
  Reads-from {m} {xs} {ys} {a} e r = subst (λ (t : Bytes). Reads m t a) e r

drop_more :
    (buf xs ys rest : Bytes) (p : ℕ)
    → drop p buf ≡ (xs ++ ys) ++ rest
    → drop (p + length xs) buf ≡ ys ++ rest
drop_more buf xs ys rest p e =
    drop-drop p (length xs) buf
    ∙ ap (drop (length xs)) (e ∙ append_assoc xs ys rest)
    ∙ drop-append xs (ys ++ rest)

module _ {ℓ κ} {A : Type ℓ} {B : Type κ} where
  pub Reads-bind :
      {m : Reader A} (f : A → Reader B) {xs ys : Bytes} {a : A} {b : B}
      → Reads m xs a
      → Reads (f a) ys b
      → Reads (m >>= f) (xs ++ ys) b
  unfolding ◌>>=◌
  Reads-bind {m} f {xs} {ys} {a} {b} r s = record {
    run = λ c rest h e.
        rw (r.run c (ys ++ rest) h (e ∙ append_assoc xs ys rest), ◌>>=◌)
          (s.run (record c { pos = c.pos + length xs }) rest h (drop_more c.buf xs ys rest c.pos e)
            ∙ ap (λ (p : ℕ). ok (b, record c { pos = p })) (omega (arith, length-append xs ys)));
  }

  -- the last step of a block, where it is no plain `pure`
  pub Reads-end :
      {m : Reader A} (f : A → Reader B) {xs : Bytes} {a : A} {b : B}
      → Reads m xs a
      → Reads (f a) [] b
      → Reads (m >>= f) xs b
  Reads-end f {xs} r s = Reads-from (append-nil xs) (Reads-bind f r s)

  -- the last step of a block
  pub Reads-map :
      {m : Reader A} (g : A → B) {xs : Bytes} {a : A}
      → Reads m xs a
      → Reads (m >>= λ x. pure (g x)) xs (g a)
  unfolding ◌>>=◌
  Reads-map g r = record { run = λ c rest h e. rw (r.run c rest h e, ◌>>=◌) }

take_front : (buf xs rest : Bytes) (p : ℕ) → drop p buf ≡ xs ++ rest → length xs ≤ length buf - p
take_front buf xs rest p e =
    omega (arith, length-drop p buf, ap (length {A = ℕ}) e, length-append xs rest)

pub Reads-take : (n : ℕ) (xs : Bytes) → length xs ≡ n → Reads (take_bytes n) xs xs
unfolding take_bytes
Reads-take n xs size = record {
  run = λ c rest h e.
      rw
        (
          le→ltb_false (length c.buf - c.pos) n
              (subst (λ k. k ≤ length c.buf - c.pos) size (take_front c.buf xs rest c.pos e)),
          take_bytes,
          need,
        )
        (rw e (
          rw (← size) (
            ap (λ (t : Bytes). ok (t, record c { pos = c.pos + length xs }))
              (take-append xs rest))));
}

module _ (v : ℕ) where
  pub Reads-u32 : IsU32 v → Reads read_u32 (to_le_bytes 4 v) v
  unfolding read_u32
  Reads-u32 h =
      subst (λ (w : ℕ). Reads read_u32 (to_le_bytes 4 v) w) (from_le_bytes-to_le_bytes 4 v h)
        (Reads-map from_le_bytes (Reads-take 4 (to_le_bytes 4 v) (length-to_le_bytes 4 v)))

  pub Reads-u64 : IsU64 v → Reads read_u64 (to_le_bytes 8 v) v
  unfolding read_u64
  Reads-u64 h =
      subst (λ (w : ℕ). Reads read_u64 (to_le_bytes 8 v) w) (from_le_bytes-to_le_bytes 8 v h)
        (Reads-map from_le_bytes (Reads-take 8 (to_le_bytes 8 v) (length-to_le_bytes 8 v)))

-- `len as u32`, of a length that fits
pub Reads-count : (n : ℕ) → IsU32 n → Reads read_u32 (to_le_bytes 4 (n % 2 ^ 32)) n
Reads-count n h =
    let e : n % 2 ^ 32 ≡ n = omega arith in
    subst (λ (k : ℕ). Reads read_u32 (to_le_bytes 4 k) n) (sym e) (Reads-u32 n h)

pub Reads-hash : (h : Hash32) → length h ≡ 32 → Reads read_hash h h
unfolding read_hash
Reads-hash h size = Reads-take 32 h size

pub Reads-skip : (n : ℕ) (xs : Bytes) → length xs ≡ n → Reads (skip n) xs tt
unfolding skip
Reads-skip n xs size = Reads-map (λ _. tt) (Reads-take n xs size)

room_enough : (n left : ℕ) → 48 * n ≤ left → n ≤ left / 48
room_enough n left h = omega arith

small_cast : (left : ℕ) → left ≤ max_shard_bytes → left / 48 % 2 ^ 32 ≡ left / 48
small_cast left h = omega arith

module _ {ℓ} {B : Type ℓ} {m : Reader B} {xs : Bytes} {b : B} (n : ℕ)
    (room : 48 * n ≤ length xs) where
  pub Reads-room_for : Reads m xs b → Reads (room_for n >> m) xs b
  unfolding room_for ◌>>=◌
  Reads-room_for r = record {
    run = λ c rest h e.
        rw
          (
            le→ltb_false (remaining c / 48) n
                (room_enough n (remaining c) (omega (arith, take_front c.buf xs rest c.pos e))),
            ◌>>=◌,
            ◌>>◌,
            room_for,
          )
          (r.run c rest h e);
  }

  pub Reads-room_for_terms : Reads m xs b → Reads (room_for_terms n >> m) xs b
  unfolding room_for_terms ◌>>=◌
  Reads-room_for_terms r = record {
    run = λ c rest h e.
        rw
          (
            le→ltb_false (remaining c / 48 % 2 ^ 32) n (
                omega (
                  arith,
                  small_cast (remaining c) (omega arith),
                  take_front c.buf xs rest c.pos e,
                )),
            ◌>>=◌,
            ◌>>◌,
            room_for_terms,
          )
          (r.run c rest h e);
  }

module _ {ℓ} {A : Type ℓ} {xs : Bytes} {a : A} (t : Bool) (m k : Reader A) where
  pub Reads-if_true : t ≡ true → Reads m xs a → Reads (if t then m else k) xs a
  Reads-if_true h r = rw h r

  pub Reads-if_false : t ≡ false → Reads k xs a → Reads (if t then m else k) xs a
  Reads-if_false h r = rw h r
