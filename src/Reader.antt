-- ===== src/Reader.antt =====
-- crates/git-bale/src/mount/reader.rs: `BaleLru`, the cache of the files that a mount has read. The
-- sizes are those of blobs in memory, and their sums are taken to stay below 2^64.
pub mod Tracked
pub mod Evicted
pub mod Cached
use baleforgit.Prelude.{
  List, Option, [], if◌then◌else◌, length, ltb, none, some, ℕ, ◌++◌, ◌+◌, ◌-◌, ◌∷◌,
}
use baleforgit.Core.{Bytes, Text, eq_bytes}
use baleforgit.Meta.Hashes.{is_in}
use baleforgit.Storage.{is_some}
use baleforgit.Table.{get, insert}

pub record BaleLru : Type 0 where
  pub map : List (Text × Bytes)
  -- the oldest first
  pub order : List Text
  pub bytes_used : ℕ
  pub budget : ℕ

abbrev pub new_lru : ℕ → BaleLru
new_lru budget = record { map = []; order = []; bytes_used = 0; budget = budget }

-- `remove(position(|k| k == key))`
unfoldable pub remove_first : Text → List Text → List Text
unfolding eq_bytes
remove_first key [] = []
remove_first key (k ∷ ks) =
    let rest = remove_first key ks in if eq_bytes key k then ks else k ∷ rest

-- `HashMap::remove`
unfoldable pub remove : Text → List (Text × Bytes) → List (Text × Bytes)
unfolding eq_bytes
remove key [] = []
remove key (e ∷ m) = let rest = remove key m in if eq_bytes key e.0 then rest else e ∷ rest

abbrev pub touch : Text → List Text → List Text
unfolding remove_first is_in
touch key order = if is_in key order then remove_first key order ++ key ∷ [] else order

unfoldable pub get_cached : Text → BaleLru → Option Bytes × BaleLru
unfolding get remove_first is_in
get_cached key lru =
    if is_some (get key lru.map)
    then (get key lru.map, record lru { order = touch key lru.order })
    else (none, lru)

-- The size of what was removed, if anything was.
abbrev pub held : Option Bytes → ℕ
held none = 0
held (some blob) = length blob

abbrev pub drop_victim : Text → List Text → BaleLru → BaleLru
unfolding get remove
drop_victim victim order lru = record lru {
  map = remove victim lru.map;
  order = order;
  bytes_used = lru.bytes_used - held (get victim lru.map);
}

-- The loop of `put` on the victims in their order.
unfoldable pub evict : ℕ → List Text → BaleLru → BaleLru
unfolding get remove
evict size [] lru = lru
evict size (victim ∷ order) lru =
    let rest = evict size order (drop_victim victim order lru) in
    if ltb lru.budget (lru.bytes_used + size) then rest else lru

abbrev pub store_blob : Text → Bytes → BaleLru → BaleLru
unfolding insert
store_blob key blob lru = record lru {
  map = insert key blob lru.map;
  order = lru.order ++ key ∷ [];
  bytes_used = lru.bytes_used + length blob;
}

unfoldable pub put_cached : Text → Bytes → BaleLru → BaleLru
unfolding evict insert
put_cached key blob lru =
    if ltb lru.budget (length blob)
    then lru
    else store_blob key blob (evict (length blob) lru.order lru)
