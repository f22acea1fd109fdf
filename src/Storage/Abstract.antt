-- ===== src/Storage/Abstract.antt =====
-- `MemBlobStore` and the abstract store, which remembers what was put, under a sequence of operations.
use baleforgit.Prelude.{
  Bool, List, Option, Result, [], err, false, if◌then◌else◌, leb, length, ltb, none, not, ok, some,
  stuck, true, ℕ, ◌&&◌, ◌+◌, ◌∷◌,
}
use baleforgit.Core.{Bytes, CoreError, Hash32, bad_request, eq_bytes, not_found}
use baleforgit.Storage.{MemBlobStore, get_shard, get_xorb_range, put_shard, put_xorb, xorb_exists}

pub data Op : Type 0 where
  add_xorb add_shard : Hash32 → Bytes → Op
  read_range : Hash32 → ℕ → ℕ → Op
  read_shard ask_xorb : Hash32 → Op

pub data Answer : Type 0 where
  inserted there : Bool → Answer
  accepted : Answer
  bytes_read : Result CoreError Bytes → Answer
  refused : CoreError → Answer
  unfinished : Answer

abbrev pub after_xorb :
    MemBlobStore → Result CoreError (Bool × MemBlobStore) → MemBlobStore × Answer
after_xorb s (ok (b, s')) = (s', inserted b)
after_xorb s (err e) = (s, refused e)
after_xorb s stuck = (s, unfinished)

abbrev pub after_shard : MemBlobStore → Result CoreError MemBlobStore → MemBlobStore × Answer
after_shard s (ok s') = (s', accepted)
after_shard s (err e) = (s, refused e)
after_shard s stuck = (s, unfinished)

unfoldable pub answer : Op → MemBlobStore → MemBlobStore × Answer
unfolding put_xorb put_shard get_xorb_range get_shard xorb_exists
answer (add_xorb h body) s = after_xorb s (put_xorb h body s)
answer (add_shard h body) s = after_shard s (put_shard h body s)
answer (read_range h start end) s = (s, bytes_read (get_xorb_range h start end s))
answer (read_shard h) s = (s, bytes_read (get_shard h s))
answer (ask_xorb h) s = (s, there (xorb_exists h s))

-- The answers of the store to a sequence of operations.
unfoldable pub answers : List Op → MemBlobStore → List Answer
unfolding answer
answers [] s = []
answers (op ∷ ops) s = let next = answer op s in next.1 ∷ answers ops next.0

-- What was put so far, the latest first.
pub data Event : Type 0 where
  xorb_event shard_event : Hash32 → Bytes → Event

abbrev pub or_else : Option Bytes → Option Bytes → Option Bytes
or_else none o = o
or_else (some body) o = some body

-- The first body that was put under a hash.
unfoldable pub first_xorb : Hash32 → List Event → Option Bytes
unfolding eq_bytes
first_xorb h [] = none
first_xorb h (xorb_event k body ∷ es) =
    let older = first_xorb h es in or_else older (if eq_bytes h k then some body else none)
first_xorb h (shard_event k body ∷ es) = first_xorb h es

-- The last.
unfoldable pub last_shard : Hash32 → List Event → Option Bytes
unfolding eq_bytes
last_shard h [] = none
last_shard h (xorb_event k body ∷ es) = last_shard h es
last_shard h (shard_event k body ∷ es) =
    let older = last_shard h es in if eq_bytes h k then some body else older

-- The bytes whose index is from `start` on and below `end`, where the first of them has index `i`.
unfoldable pub bytes_between : ℕ → ℕ → ℕ → Bytes → Bytes
bytes_between start end i [] = []
bytes_between start end i (x ∷ body) =
    let rest = bytes_between start end (i + 1) body in
    if leb start i && ltb i end then x ∷ rest else rest

abbrev pub was_put : Option Bytes → Bool
was_put none = false
was_put (some body) = true

abbrev pub promised_part : ℕ → ℕ → Option Bytes → Result CoreError Bytes
promised_part start end none = err not_found
promised_part start end (some body) =
    if leb start (length body) then ok (bytes_between start end 0 body) else err bad_request

-- A range that ends before it starts is refused whether or not there is a body.
abbrev pub promised_range : ℕ → ℕ → Option Bytes → Result CoreError Bytes
promised_range start end o = if leb start end then promised_part start end o else err bad_request

abbrev pub promised_shard : Option Bytes → Result CoreError Bytes
promised_shard none = err not_found
promised_shard (some body) = ok body

unfoldable pub promise : Op → List Event → List Event × Answer
unfolding first_xorb last_shard bytes_between
promise (add_xorb h body) es = (xorb_event h body ∷ es, inserted (not (was_put (first_xorb h es))))
promise (add_shard h body) es = (shard_event h body ∷ es, accepted)
promise (read_range h start end) es = (es, bytes_read (promised_range start end (first_xorb h es)))
promise (read_shard h) es = (es, bytes_read (promised_shard (last_shard h es)))
promise (ask_xorb h) es = (es, there (was_put (first_xorb h es)))

unfoldable pub promises : List Op → List Event → List Answer
unfolding promise
promises [] es = []
promises (op ∷ ops) es = let next = promise op es in next.1 ∷ promises ops next.0
