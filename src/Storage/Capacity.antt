-- ===== src/Storage/Capacity.antt =====
-- The capacity of the store over any sequence of puts.
use baleforgit.Prelude.{
  Bool, Bool-cases, List, [], ap, arith, inl, inr, length, none, refl, some, ℕ, ◌+◌, ◌∙◌, ◌∷◌, ◌≡◌,
  ◌≤◌,
}
use baleforgit.Core.{Bytes, eq_bytes}
use baleforgit.Storage.{MemBlobStore, new, with_max_bytes}
use baleforgit.Storage.Puts.{
  Put, Puts, ShardPut, XorbPut, added, done, kept, put_shard-ok, put_xorb-ok, replaced, shard,
  stored, then_put, xorb,
}
use baleforgit.Table.{get, insert}

abbrev pub bytes_in : List (Bytes × Bytes) → ℕ
bytes_in [] = 0
bytes_in (e ∷ m) = length e.1 + bytes_in m

bytes_in-insert_new :
    (k v : Bytes) (m : List (Bytes × Bytes))
    → get k m ≡ none
    → bytes_in (insert k v m) ≡ bytes_in m + length v
unfolding insert get
bytes_in-insert_new k v [] h = omega arith
bytes_in-insert_new k v (e ∷ m) h = elim (Bool-cases (eq_bytes k e.0)) [
  | inl p ↦ let q : some e.1 ≡ none = rw p at h in absurd (cc q)
  | inr p ↦
      let q : get k m ≡ none = rw p at h in
      rw (p, insert) (omega (arith, bytes_in-insert_new k v m q))
]

bytes_in-insert_same :
    (k v old : Bytes) (m : List (Bytes × Bytes))
    → get k m ≡ some old
    → length old ≡ length v
    → bytes_in (insert k v m) ≡ bytes_in m
unfolding insert get
bytes_in-insert_same k v old [] h e = absurd (cc h)
bytes_in-insert_same k v old (x ∷ m) h e = elim (Bool-cases (eq_bytes k x.0)) [
  | inl p ↦
      let q : some x.1 ≡ some old = rw p at h in
      let size : length x.1 ≡ length old = cc q in rw (p, insert) (omega (arith, size, e))
  | inr p ↦
      let q : get k m ≡ some old = rw p at h in
      rw (p, insert) (omega (arith, bytes_in-insert_same k v old m q e))
]

-- The counter is what the maps hold, and it is within the limit.
pub record IsAccounted (limit : ℕ) (s : MemBlobStore) : Type 0 where
  pub capped : s.max_bytes ≡ some limit
  pub counted : s.stored_bytes ≡ bytes_in s.xorbs + bytes_in s.shards
  pub within : s.stored_bytes ≤ limit

module _ (limit : ℕ) where
  put_xorb-IsAccounted :
      (hash body : Bytes) (b : Bool) (s s' : MemBlobStore)
      → XorbPut hash body s b s'
      → IsAccounted limit s
      → IsAccounted limit s'
  put_xorb-IsAccounted hash body b s s' (kept old e) v = v
  put_xorb-IsAccounted hash body b s s' (stored r e q) v =
      let (sum, le) = q.counted limit v.capped in
      let xorbs : bytes_in (insert hash body r.xorbs) ≡ bytes_in s.xorbs + length body =
        ap (λ m. bytes_in (insert hash body m)) q.xorbs ∙ bytes_in-insert_new hash body s.xorbs e in
      record {
        capped = q.max_bytes ∙ v.capped;
        counted = omega (arith, sum, xorbs, ap bytes_in q.shards, v.counted);
        within = le;
      }

  put_shard-IsAccounted :
      (hash body : Bytes) (s s' : MemBlobStore)
      → ((old : Bytes) → get hash s.shards ≡ some old → length old ≡ length body)
      → ShardPut hash body s s'
      → IsAccounted limit s
      → IsAccounted limit s'
  put_shard-IsAccounted hash body s s' k (replaced old e) v = record {
    capped = v.capped;
    counted = omega (arith, bytes_in-insert_same hash body old s.shards e (k old e), v.counted);
    within = v.within;
  }
  put_shard-IsAccounted hash body s s' k (added r e q) v =
      let (sum, le) = q.counted limit v.capped in
      let shards : bytes_in (insert hash body r.shards) ≡ bytes_in s.shards + length body =
        ap (λ m. bytes_in (insert hash body m)) q.shards
        ∙ bytes_in-insert_new hash body s.shards e in
      record {
        capped = q.max_bytes ∙ v.capped;
        counted = omega (arith, sum, shards, ap bytes_in q.xorbs, v.counted);
        within = le;
      }

  Put-IsAccounted : (s s' : MemBlobStore) → Put s s' → IsAccounted limit s → IsAccounted limit s'
  Put-IsAccounted _ _ (xorb hash body b s s' h) v =
      put_xorb-IsAccounted hash body b s s' (put_xorb-ok hash body b s s' h) v
  Put-IsAccounted _ _ (shard hash body s s' k h) v =
      put_shard-IsAccounted hash body s s' k (put_shard-ok hash body s s' h) v

  pub Puts-IsAccounted :
      (s s' : MemBlobStore) → Puts s s' → IsAccounted limit s → IsAccounted limit s'
  Puts-IsAccounted _ _ (done s) v = v
  Puts-IsAccounted _ _ (then_put s t s' r p) v = Put-IsAccounted t s' p (Puts-IsAccounted s t r v)

-- However many puts succeed on a new store with a limit, the maps together hold no more bytes than
-- the limit and the counter is exact, where a shard put again has the length it had.
pub Puts-capacity :
    (limit : ℕ) (s : MemBlobStore)
    → Puts (with_max_bytes limit new) s
    → (bytes_in s.xorbs + bytes_in s.shards ≤ limit)
      × (s.stored_bytes ≡ bytes_in s.xorbs + bytes_in s.shards)
Puts-capacity limit s r =
    let v =
      Puts-IsAccounted limit (with_max_bytes limit new) s r
        (record { capped = refl; counted = omega arith; within = omega arith }) in
    (omega (arith, v.counted, v.within), v.counted)
