-- ===== src/Reader/Evicted.antt =====
-- What the loop of `put` leaves in the cache.
use baleforgit.Prelude.{
  Bool-cases, List, [], ap, arith, inl, inr, ltb, ltb_false→le, none, refl, subst, sym, ℕ, ◌+◌, ◌∙◌,
  ◌∷◌, ◌≡◌, ◌≤◌,
}
use baleforgit.Core.{Bytes, Text, eq_bytes}
use baleforgit.Meta.Hashes.{is_in}
use baleforgit.Reader.{BaleLru, drop_victim, evict, held, remove}
use baleforgit.Reader.Tracked.{
  IsDistinct, get-remove_other, get-remove_same, tracked_bytes, tracked_bytes-remove,
}
use baleforgit.Storage.{is_some}
use baleforgit.Table.{eq_bytes_sound, get}

-- The order has each key of the map once, and `bytes_used` is the size of all blobs and within the
-- budget.
pub record IsCache (lru : BaleLru) : Type 0 where
  pub distinct : IsDistinct lru.order
  pub tracked : (k : Text) → is_in k lru.order ≡ is_some (get k lru.map)
  pub counted : lru.bytes_used ≡ tracked_bytes lru.map lru.order
  pub bounded : lru.bytes_used ≤ lru.budget

drop_victim-IsCache :
    (victim : Text) (order : List Text) (lru : BaleLru)
    → lru.order ≡ victim ∷ order
    → IsCache lru
    → IsCache (drop_victim victim order lru)
unfolding tracked_bytes is_in drop_victim
drop_victim-IsCache victim order lru o v =
    let d : IsDistinct (victim ∷ order) = subst IsDistinct o v.distinct in
    let sum : lru.bytes_used ≡ held (get victim lru.map) + tracked_bytes lru.map order =
      v.counted ∙ ap (tracked_bytes lru.map) o in
    let same : tracked_bytes (remove victim lru.map) order ≡ tracked_bytes lru.map order =
      tracked_bytes-remove victim lru.map order d.0 in
    let le : lru.bytes_used ≤ lru.budget = v.bounded in
    record {
      distinct = d.1;
      tracked = λ k. elim (Bool-cases (eq_bytes k victim)) [
        | inl e ↦
            subst (λ (x : Text). is_in x order ≡ is_some (get x (remove victim lru.map)))
              (sym (eq_bytes_sound k victim e))
              (d.0 ∙ sym (ap is_some (get-remove_same victim lru.map)))
        | inr e ↦
            let t : is_in k (victim ∷ order) ≡ is_some (get k lru.map) =
              ap (is_in k) (sym o) ∙ v.tracked k in
            (rw e at t) ∙ sym (ap is_some (get-remove_other k victim lru.map e))
      ];
      counted = omega arith;
      bounded = omega arith;
    }

pub record Evicted (size : ℕ) (lru lru' : BaleLru) : Type 0 where
  pub cache : IsCache lru'
  pub room : lru'.bytes_used + size ≤ lru'.budget
  pub budget : lru'.budget ≡ lru.budget
  pub fewer : (k : Text) → get k lru.map ≡ none → get k lru'.map ≡ none

still_none : (k v : Text) (m : List (Text × Bytes)) → get k m ≡ none → get k (remove v m) ≡ none
still_none k v m n = elim (Bool-cases (eq_bytes k v)) [
  | inl e ↦
      subst (λ (x : Text). get x (remove v m) ≡ none) (sym (eq_bytes_sound k v e))
        (get-remove_same v m)
  | inr e ↦ get-remove_other k v m e ∙ n
]

pub evict-Evicted :
    (size : ℕ) (order : List Text) (lru : BaleLru)
    → lru.order ≡ order
    → size ≤ lru.budget
    → IsCache lru
    → Evicted size lru (evict size order lru)
unfolding evict tracked_bytes
evict-Evicted size [] lru o fits v =
    let none_left : lru.bytes_used ≡ 0 = v.counted ∙ ap (tracked_bytes lru.map) o in
    record { cache = v; room = omega arith; budget = refl; fewer = λ k n. n }
evict-Evicted size (victim ∷ order) lru o fits v =
    elim (Bool-cases (ltb lru.budget (lru.bytes_used + size))) [
      | inl e ↦
          let r =
            evict-Evicted size order (drop_victim victim order lru) refl fits
              (drop_victim-IsCache victim order lru o v) in
          rw (e, evict)
            (record {
              cache = r.cache;
              room = r.room;
              budget = r.budget;
              fewer = λ k n. r.fewer k (still_none k victim lru.map n);
            })
      | inr e ↦
          rw (e, evict)
            (record {
              cache = v;
              room = ltb_false→le lru.budget (lru.bytes_used + size) e;
              budget = refl;
              fewer = λ k n. n;
            })
    ]
