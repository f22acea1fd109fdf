-- ===== src/Reader/Cached.antt =====
-- What the cache holds after any use of it.
use baleforgit.Prelude.{
  Bool, Bool-cases, Option, [], ap, arith, false, inl, inr, length, ltb, ltb_false→le, ltb→lt, none,
  refl, some, sym, true, ℕ, ◌++◌, ◌+◌, ◌<◌, ◌∙◌, ◌∷◌, ◌≡◌, ◌≤◌,
}
use baleforgit.Core.{Bytes, Text, eq_bytes}
use baleforgit.Meta.Hashes.{is_in}
use baleforgit.Reader.{
  BaleLru, evict, get_cached, held, new_lru, put_cached, remove_first, store_blob,
}
use baleforgit.Reader.Evicted.{IsCache, evict-Evicted}
use baleforgit.Reader.Tracked.{
  is_in-remove_first, is_in-snoc, remove_first-IsDistinct, snoc-IsDistinct, tracked_bytes,
  tracked_bytes-insert, tracked_bytes-remove_first, tracked_bytes-snoc,
}
use baleforgit.Storage.{is_some}
use baleforgit.Table.{eq_bytes_sound, get, get-insert, get-insert_other, insert}
use mathlib.Core.Path.{ap₂}

is_none : (b : Bool) (o : Option Bytes) → b ≡ is_some o → o ≡ none → b ≡ false
is_none b o h n = h ∙ ap is_some n

store_blob-IsCache :
    (key : Text) (blob : Bytes) (lru : BaleLru)
    → get key lru.map ≡ none
    → lru.bytes_used + length blob ≤ lru.budget
    → IsCache lru
    → IsCache (store_blob key blob lru)
unfolding store_blob get is_in
store_blob-IsCache key blob lru n room v =
    let absent : is_in key lru.order ≡ false =
      is_none (is_in key lru.order) (get key lru.map) (v.tracked key) n in
    let here : get key (insert key blob lru.map) ≡ some blob = get-insert key blob lru.map in
    record {
      distinct = snoc-IsDistinct key lru.order absent v.distinct;
      tracked = λ k. is_in-snoc k key lru.order ∙ elim (Bool-cases (eq_bytes k key)) [
        | inl e ↦ rw e (
            sym (
              ap is_some
                (ap (λ x. get x (insert key blob lru.map)) (eq_bytes_sound k key e) ∙ here)))
        | inr e ↦ rw e (v.tracked k ∙ sym (ap is_some (get-insert_other k key blob lru.map e)))
      ];
      counted =
          ap₂ (λ x y. x + y)
            (v.counted ∙ sym (tracked_bytes-insert key blob lru.map lru.order absent))
            (sym (ap held here))
          ∙ sym (tracked_bytes-snoc (insert key blob lru.map) lru.order key);
      bounded = room;
    }

put_cached-IsCache :
    (key : Text) (blob : Bytes) (lru : BaleLru)
    → get key lru.map ≡ none
    → IsCache lru
    → IsCache (put_cached key blob lru)
      × ((put_cached key blob lru).budget ≡ lru.budget)
      × (length blob ≤ lru.budget → get key (put_cached key blob lru).map ≡ some blob)
unfolding put_cached
put_cached-IsCache key blob lru n v = elim (Bool-cases (ltb lru.budget (length blob))) [
  | inl e ↦
      let big : lru.budget < length blob = ltb→lt lru.budget (length blob) e in
      rw (e, put_cached) (v, refl, λ le. absurd (omega arith))
  | inr e ↦
      let r =
        evict-Evicted (length blob) lru.order lru refl (ltb_false→le lru.budget (length blob) e)
          v in
      let lru' = evict (length blob) lru.order lru in
      rw (e, put_cached)
        (
          store_blob-IsCache key blob lru' (r.fewer key n) r.room r.cache,
          r.budget,
          λ le. get-insert key blob lru'.map,
        )
]

touch-IsCache :
    (key : Text) (lru : BaleLru)
    → is_in key lru.order ≡ true
    → IsCache lru
    → IsCache (record lru { order = remove_first key lru.order ++ key ∷ [] })
touch-IsCache key lru here v =
    let (d, absent) = remove_first-IsDistinct key lru.order v.distinct in
    let first = tracked_bytes-remove_first lru.map key lru.order here in
    let last = tracked_bytes-snoc lru.map (remove_first key lru.order) key in
    let sum : lru.bytes_used ≡ tracked_bytes lru.map lru.order = v.counted in
    record {
      distinct = snoc-IsDistinct key (remove_first key lru.order) absent d;
      tracked = λ k.
          is_in-snoc k key (remove_first key lru.order)
          ∙ sym (is_in-remove_first k key lru.order here)
          ∙ v.tracked k;
      counted = omega arith;
      bounded = v.bounded;
    }

get_cached-IsCache :
    (key : Text) (lru : BaleLru)
    → IsCache lru
    → IsCache (get_cached key lru).1 × ((get_cached key lru).1.budget ≡ lru.budget)
unfolding get_cached
get_cached-IsCache key lru v = elim (Bool-cases (is_some (get key lru.map))) [
  | inl e ↦
      let here : is_in key lru.order ≡ true = v.tracked key ∙ e in
      rw (e, get_cached) (rw here (touch-IsCache key lru here v, refl))
  | inr e ↦ rw (e, get_cached) (v, refl)
]

-- The uses of the cache; a blob is put where its key was not found.
pub data Uses : BaleLru → BaleLru → Type 0 where
  unused : (lru : BaleLru) → Uses lru lru
  looked : (key : Text) (lru lru' : BaleLru) → Uses lru lru' → Uses lru (get_cached key lru').1
  added :
      (key : Text) (blob : Bytes) (lru lru' : BaleLru)
      → get key lru'.map ≡ none
      → Uses lru lru'
      → Uses lru (put_cached key blob lru')

Uses-keep :
    (lru lru' : BaleLru) → Uses lru lru' → IsCache lru → IsCache lru' × (lru'.budget ≡ lru.budget)
Uses-keep lru _ (unused _) v = (v, refl)
Uses-keep lru _ (looked key _ lru' us) v =
    let (w, b) = Uses-keep lru lru' us v in
    let (c, b') = get_cached-IsCache key lru' w in (c, b' ∙ b)
Uses-keep lru _ (added key blob _ lru' n us) v =
    let (w, b) = Uses-keep lru lru' us v in
    let (c, b', served) = put_cached-IsCache key blob lru' n w in (c, b' ∙ b)

-- However a new cache is used, where a blob is put only under a key that is not cached: its order has
-- each key of the map just once, and `bytes_used` is the size of all its blobs and within the budget.
-- A blob that is then put under a further key, and is no larger than the budget, is the one returned
-- for that key.
pub get_cached-Uses :
    (budget : ℕ) (lru : BaleLru) (key : Text) (blob : Bytes)
    → Uses (new_lru budget) lru
    → get key lru.map ≡ none
    → length blob ≤ budget
    → IsCache lru
      × (lru.budget ≡ budget)
      × ((get_cached key (put_cached key blob lru)).0 ≡ some blob)
unfolding get_cached is_in tracked_bytes get
get_cached-Uses budget lru key blob us n le =
    let (v, b) =
      Uses-keep (new_lru budget) lru us
        (record { distinct = tt; tracked = λ k. refl; counted = refl; bounded = omega arith }) in
    let (c, b', served) = put_cached-IsCache key blob lru n v in
    (v, b, rw (served (omega arith)) refl)
