-- ===== src/Storage.antt =====
-- crates/bale-server-storage-mem/src/lib.rs: `MemBlobStore`. An operation returns its result beside
-- the new state, and an error leaves the state as it was. Each put holds the lock of its map while it
-- runs, and the counter that the two maps share is changed by one successful `compare_exchange`, so an
-- operation is one step.
pub mod Puts
pub mod Capacity
pub mod Lookup
pub mod Abstract
pub mod Ranges
pub mod Refined
use baleforgit.Prelude.{
  Bool, List, Option, Result, [], err, false, if◌then◌else◌, leb, length, ltb, min, none, ok, some,
  true, ℕ, ◌+◌, ◌>>=◌, ◌>>◌, ◌^◌,
}
use baleforgit.Core.{Bytes, CoreError, Hash32, bad_request, not_found}
use baleforgit.Table.{get, insert}
use baleforgit.Xorb.{slice}

pub record MemBlobStore : Type 0 where
  pub xorbs : List (Hash32 × Bytes)
  pub shards : List (Hash32 × Bytes)
  pub stored_bytes : ℕ
  pub max_bytes : Option ℕ

abbrev pub new : MemBlobStore
new = record { xorbs = []; shards = []; stored_bytes = 0; max_bytes = none }

abbrev pub with_max_bytes : ℕ → MemBlobStore → MemBlobStore
with_max_bytes limit s = record s { max_bytes = some limit }

-- `checked_add` of `u64`, then the comparison with the limit
unfoldable pub reserve_below : Option ℕ → ℕ → MemBlobStore → Result CoreError MemBlobStore
reserve_below none n s = ok s
reserve_below (some limit) n s =
    let next = s.stored_bytes + n in
    if leb (2 ^ 64) next
    then err bad_request
    else if ltb limit next
    then err bad_request
    else ok (record s { stored_bytes = next })

abbrev pub reserve : ℕ → MemBlobStore → Result CoreError MemBlobStore
reserve n s = reserve_below s.max_bytes n s

abbrev pub is_some {ℓ} : {A : Type ℓ} → Option A → Bool
is_some none = false
is_some (some a) = true

unfoldable pub put_xorb : Hash32 → Bytes → MemBlobStore → Result CoreError (Bool × MemBlobStore)
unfolding reserve_below get insert
put_xorb hash body s =
    if is_some (get hash s.xorbs)
    then ok (false, s)
    else do s' ← reserve (length body) s; ok (true, record s' { xorbs = insert hash body s'.xorbs })

unfoldable pub xorb_exists : Hash32 → MemBlobStore → Bool
unfolding get
xorb_exists hash s = is_some (get hash s.xorbs)

unfoldable pub get_range : ℕ → ℕ → Option Bytes → Result CoreError Bytes
get_range start end none = err not_found
get_range start end (some body) =
    if ltb (length body) start
    then err bad_request
    else ok (slice body start (min end (length body)))

unfoldable pub get_xorb_range : Hash32 → ℕ → ℕ → MemBlobStore → Result CoreError Bytes
unfolding get get_range
get_xorb_range hash start end s =
    if ltb end start then err bad_request else get_range start end (get hash s.xorbs)

unfoldable pub put_shard : Hash32 → Bytes → MemBlobStore → Result CoreError MemBlobStore
unfolding reserve_below get insert
put_shard hash body s = do
  s' ← (if is_some (get hash s.shards) then ok s else reserve (length body) s)
  ok (record s' { shards = insert hash body s'.shards })

abbrev pub found : Option Bytes → Result CoreError Bytes
found none = err not_found
found (some body) = ok body

unfoldable pub get_shard : Hash32 → MemBlobStore → Result CoreError Bytes
unfolding get
get_shard hash s = found (get hash s.shards)
