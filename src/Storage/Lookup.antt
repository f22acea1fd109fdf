-- ===== src/Storage/Lookup.antt =====
-- What the store returns after its puts.
-- A stored xorb keeps its body, whatever is put later.
use baleforgit.Prelude.{ap, err, false, if◌then◌else◌, ltb, ok, refl, ℕ, ◌∙◌, ◌≡◌}
use baleforgit.Core.{Bytes, bad_request, eq_bytes}
use baleforgit.Storage.{MemBlobStore, found, get_range, get_shard, get_xorb_range, put_shard}
use baleforgit.Storage.Puts.{Puts, ShardPut, added, put_shard-ok, replaced}
use baleforgit.Table.{get, get-insert, get-insert_other}

-- A shard that was put is the one returned for its hash; those of other hashes, and every xorb, are
-- as they were.
pub get_shard-put_shard :
    (hash body : Bytes) (s s' : MemBlobStore)
    → put_shard hash body s ≡ ok s'
    → (get_shard hash s' ≡ ok body)
      × ((key : Bytes) → eq_bytes key hash ≡ false → get_shard key s' ≡ get_shard key s)
      × ((key : Bytes) (start end : ℕ)
          → get_xorb_range key start end s' ≡ get_xorb_range key start end s)
unfolding get_shard get_xorb_range
get_shard-put_shard hash body s s' h = go s' (put_shard-ok hash body s s' h)
  where
    go :
        (s' : MemBlobStore)
        → ShardPut hash body s s'
        → (found (get hash s'.shards) ≡ ok body)
          × ((key : Bytes)
              → eq_bytes key hash ≡ false
              → found (get key s'.shards) ≡ found (get key s.shards))
          × ((key : Bytes) (start end : ℕ)
              → (if ltb end start then err bad_request else get_range start end (get key s'.xorbs))
                ≡ (if ltb end start
                    then err bad_request
                    else get_range start end (get key s.xorbs)))
    go s' (replaced old e) = (
      ap found (get-insert hash body s.shards),
      λ key n. ap found (get-insert_other key hash body s.shards n),
      λ key start end. refl,
    )
    go s' (added r e q) = (
      ap found (get-insert hash body r.shards),
      λ key n. ap found (get-insert_other key hash body r.shards n ∙ ap (get key) q.shards),
      λ key start end.
          ap (λ m. if ltb end start then err bad_request else get_range start end (get key m))
            q.xorbs,
    )
