-- ===== src/Storage/Puts.antt =====
-- The puts as a step relation, and what a successful put does to the state.
use baleforgit.Prelude.{
  >>=-eq-ok, Bool, Bool-cases, Option, Option-cases, ap, arith, err, false, inl, inr, leb, length,
  ltb, ltb_false→le, none, ok, ok-injective, refl, some, subst, sym, true, ℕ, ◌+◌, ◌^◌, ◌≡◌, ◌≤◌,
}
use baleforgit.Core.{Bytes, bad_request}
use baleforgit.Storage.{MemBlobStore, put_shard, put_xorb, reserve, reserve_below}
use baleforgit.Table.{get, insert}

pub data Put : MemBlobStore → MemBlobStore → Type 0 where
  xorb :
      (hash body : Bytes) (stored : Bool) (s s' : MemBlobStore)
      → put_xorb hash body s ≡ ok (stored, s')
      → Put s s'
  -- a shard is put again, if at all, with a body of the same length
  shard :
      (hash body : Bytes) (s s' : MemBlobStore)
      → ((old : Bytes) → get hash s.shards ≡ some old → length old ≡ length body)
      → put_shard hash body s ≡ ok s'
      → Put s s'

pub data Puts : MemBlobStore → MemBlobStore → Type 0 where
  done : (s : MemBlobStore) → Puts s s
  then_put : (s t u : MemBlobStore) → Puts s t → Put t u → Puts s u

-- A reservation changes the counter at most, and not past the limit.
pub record Reserved (n : ℕ) (s s' : MemBlobStore) : Type 0 where
  pub xorbs : s'.xorbs ≡ s.xorbs
  pub shards : s'.shards ≡ s.shards
  pub max_bytes : s'.max_bytes ≡ s.max_bytes
  pub counted :
      (limit : ℕ)
      → s.max_bytes ≡ some limit
      → (s'.stored_bytes ≡ s.stored_bytes + n) × (s'.stored_bytes ≤ limit)

reserve_below-ok :
    (o : Option ℕ) (n : ℕ) (s s' : MemBlobStore)
    → s.max_bytes ≡ o
    → reserve_below o n s ≡ ok s'
    → Reserved n s s'
unfolding reserve_below
reserve_below-ok none n s s' m h =
    let same : s ≡ s' = ok-injective h in
    record {
      xorbs = ap (λ t. t.xorbs) (sym same);
      shards = ap (λ t. t.shards) (sym same);
      max_bytes = ap (λ t. t.max_bytes) (sym same);
      counted = λ limit e. absurd (cc (m, e));
    }
reserve_below-ok (some k) n s s' m h = elim (Bool-cases (leb (2 ^ 64) (s.stored_bytes + n))) [
  | inl over ↦ absurd (refused (rw over at h))
  | inr small ↦ elim (Bool-cases (ltb k (s.stored_bytes + n))) [
    | inl full ↦ absurd (refused (rw (small, full) at h))
    | inr fits ↦
        let p : ok (record s { stored_bytes = s.stored_bytes + n }) ≡ ok s' =
          rw (small, fits) at h in
        let same : record s { stored_bytes = s.stored_bytes + n } ≡ s' = ok-injective p in
        let le : s.stored_bytes + n ≤ k = ltb_false→le k (s.stored_bytes + n) fits in
        record {
          xorbs = ap (λ t. t.xorbs) (sym same);
          shards = ap (λ t. t.shards) (sym same);
          max_bytes = ap (λ t. t.max_bytes) (sym same);
          counted = λ limit e.
              let q : k ≡ limit = cc (m, e) in
              let c : s.stored_bytes + n ≡ s'.stored_bytes = ap (λ t. t.stored_bytes) same in
              (sym c, omega (arith, q, c, le));
        }
  ]
]
  where
    refused : err bad_request ≡ ok s' → ⊥
    refused p = cc

-- The two ways in which `put_xorb` succeeds.
pub data XorbPut (hash body : Bytes) (s : MemBlobStore) : Bool → MemBlobStore → Type 0 where
  kept : (old : Bytes) → get hash s.xorbs ≡ some old → XorbPut hash body s false s
  stored :
      (r : MemBlobStore)
      → get hash s.xorbs ≡ none
      → Reserved (length body) s r
      → XorbPut hash body s true (record r { xorbs = insert hash body r.xorbs })

pub put_xorb-ok :
    (hash body : Bytes) (b : Bool) (s s' : MemBlobStore)
    → put_xorb hash body s ≡ ok (b, s')
    → XorbPut hash body s b s'
unfolding put_xorb
put_xorb-ok hash body b s s' h = elim (Option-cases (get hash s.xorbs)) [
  | inl e ↦
      let p = rw e at h in
      let (r, q, h₁) = >>=-eq-ok (reserve (length body) s) _ p in
      subst (λ (x : Bool × MemBlobStore). XorbPut hash body s x.0 x.1) (ok-injective h₁)
        (stored r e (reserve_below-ok s.max_bytes (length body) s r refl q))
  | inr (old, e) ↦
      let p : ok (false, s) ≡ ok (b, s') = rw e at h in
      subst (λ (x : Bool × MemBlobStore). XorbPut hash body s x.0 x.1) (ok-injective p) (kept old e)
]

pub data ShardPut (hash body : Bytes) (s : MemBlobStore) : MemBlobStore → Type 0 where
  replaced :
      (old : Bytes)
      → get hash s.shards ≡ some old
      → ShardPut hash body s (record s { shards = insert hash body s.shards })
  added :
      (r : MemBlobStore)
      → get hash s.shards ≡ none
      → Reserved (length body) s r
      → ShardPut hash body s (record r { shards = insert hash body r.shards })

pub put_shard-ok :
    (hash body : Bytes) (s s' : MemBlobStore)
    → put_shard hash body s ≡ ok s'
    → ShardPut hash body s s'
unfolding put_shard
put_shard-ok hash body s s' h = elim (Option-cases (get hash s.shards)) [
  | inl e ↦
      let p = rw e at h in
      let (r, q, h₁) = >>=-eq-ok (reserve (length body) s) _ p in
      subst (ShardPut hash body s) (ok-injective h₁)
        (added r e (reserve_below-ok s.max_bytes (length body) s r refl q))
  | inr (old, e) ↦
      let p : ok (record s { shards = insert hash body s.shards }) ≡ ok s' = rw e at h in
      subst (ShardPut hash body s) (ok-injective p) (replaced old e)
]
