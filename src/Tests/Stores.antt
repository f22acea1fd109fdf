-- ===== src/Tests/Stores.antt =====
-- crates/bale-server-storage-mem/src/lib.rs on a store that takes ten bytes.
use baleforgit.Prelude.{List, [], err, false, ok, refl, replicate, true, ℕ, ◌+◌, ◌∷◌, ◌≡◌, ◌≤◌}
use baleforgit.Core.{Bytes, Hash32, bad_request, eq_bytes}
use baleforgit.Storage.{
  MemBlobStore, get_shard, get_xorb_range, new, put_shard, put_xorb, with_max_bytes,
}
use baleforgit.Storage.Capacity.{Puts-capacity, bytes_in}
use baleforgit.Storage.Abstract.{
  Op, add_shard, add_xorb, answers, ask_xorb, promises, read_range, read_shard,
}
use baleforgit.Storage.Refined.{answers-new}
use baleforgit.Storage.Lookup.{get_shard-put_shard}
use baleforgit.Storage.Puts.{Puts, done, shard, then_put, xorb}
use baleforgit.Table.{get}

abbrev a_hash : Hash32
a_hash = replicate 32 1

abbrev b_hash : Hash32
b_hash = replicate 32 2

abbrev body : Bytes
body = 1 ∷ 2 ∷ 3 ∷ 4 ∷ []

abbrev empty_store : MemBlobStore
empty_store = with_max_bytes 10 new

abbrev with_xorb : MemBlobStore
with_xorb = record empty_store { xorbs = (a_hash, body) ∷ []; stored_bytes = 4 }

abbrev with_shard : MemBlobStore
with_shard = record with_xorb { shards = (b_hash, body) ∷ []; stored_bytes = 8 }

put_body : put_xorb a_hash body empty_store ≡ ok (true, with_xorb)
unfolding put_xorb
put_body = refl

put_body_shard : put_shard b_hash body with_xorb ≡ ok with_shard
unfolding put_shard
put_body_shard = refl

-- six more bytes are too many
put_long : put_xorb (replicate 32 3) (5 ∷ 6 ∷ 7 ∷ 8 ∷ 9 ∷ 10 ∷ []) with_shard ≡ err bad_request
unfolding put_xorb
put_long = refl

both-Puts : Puts empty_store with_shard
unfolding get
both-Puts =
    then_put empty_store with_xorb with_shard
      (then_put empty_store empty_store with_xorb (done empty_store)
        (xorb a_hash body true empty_store with_xorb put_body))
      (shard b_hash body with_xorb with_shard (λ old e. absurd (cc e)) put_body_shard)

Puts-capacity_example :
    (bytes_in with_shard.xorbs + bytes_in with_shard.shards ≤ 10)
    × (with_shard.stored_bytes ≡ bytes_in with_shard.xorbs + bytes_in with_shard.shards)
Puts-capacity_example = Puts-capacity 10 with_shard both-Puts

get_shard-put_shard_example :
    (get_shard b_hash with_shard ≡ ok body)
    × ((key : Bytes)
        → eq_bytes key b_hash ≡ false
        → get_shard key with_shard ≡ get_shard key with_xorb)
    × ((key : Bytes) (start end : ℕ)
        → get_xorb_range key start end with_shard ≡ get_xorb_range key start end with_xorb)
get_shard-put_shard_example = get_shard-put_shard b_hash body with_xorb with_shard put_body_shard

abbrev some_ops : List Op
some_ops =
    read_shard b_hash
    ∷ add_xorb a_hash body
    ∷ add_xorb a_hash (9 ∷ [])
    ∷ ask_xorb a_hash
    ∷ read_range a_hash 1 9
    ∷ read_range a_hash 3 2
    ∷ add_shard b_hash (7 ∷ [])
    ∷ add_shard b_hash body
    ∷ read_shard b_hash
    ∷ []

answers-new_example : answers some_ops new ≡ promises some_ops []
answers-new_example = answers-new some_ops
