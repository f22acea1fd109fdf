-- ===== src/Filter/Clean.antt =====
-- crates/git-bale/src/filter_process.rs: `drain_clean_payload` and `do_clean`. A payload in a file is
-- verified and indexed by the same fingerprints as one in memory; only when its index is computed
-- differs, which no one sees.
use baleforgit.Prelude.{
  Bool, Option, Result, [], err, false, if◌then◌else◌, length, ltb, none, ok, some, stuck, suc,
  true, zero, ℕ, ◌&&◌, ◌*◌, ◌++◌, ◌+◌, ◌==◌, ◌>>=◌, ◌∷◌,
}
use baleforgit.Core.{Bytes, Text}
use baleforgit.Filter.{CacheEntry, RawConfig, Repo, Turn, Xet, XetFileInfo, status_success}
use baleforgit.Filter.CleanCache.{compute_chunks_from_slice, verify_chunks_in_memory}
use baleforgit.Filter.Pointer.{encode_pointer_string}
use baleforgit.Pkt.{PktError, flush, over_cap, packet, unexpected_packet}
use baleforgit.Pkt.Read.{read_packet, saturating_add}
use baleforgit.Pkt.Write.{write_all_then_flush, write_text_list}
use baleforgit.Table.{get, insert}

abbrev pub clean_payload_cap : ℕ
clean_payload_cap = 128 * 1024 * 1024 * 1024

pub data CleanPayload : Type 0 where
  in_memory spilled : Bytes → CleanPayload

abbrev pub payload_bytes : CleanPayload → Bytes
payload_bytes (in_memory bytes) = bytes
payload_bytes (spilled bytes) = bytes

abbrev pub extended : ℕ → CleanPayload → Bytes → CleanPayload
extended max_inline (spilled f) bytes = spilled (f ++ bytes)
extended max_inline (in_memory buf) bytes =
    if ltb max_inline (saturating_add (length buf) (length bytes))
    then spilled (buf ++ bytes)
    else in_memory (buf ++ bytes)

-- The loop takes four bytes at least in a round.
unfoldable pub drain_loop :
    ℕ → ℕ → Bytes → CleanPayload → ℕ → Result PktError (CleanPayload × ℕ × Bytes)
unfolding read_packet
drain_loop zero max_inline s payload total = stuck
drain_loop (suc fuel) max_inline s payload total = elim (read_packet s) [
  | ok (flush, rest) ↦ ok (payload, total, rest)
  | ok (packet bytes, rest) ↦
      let more =
        drain_loop fuel max_inline rest (extended max_inline payload bytes)
          (total + length bytes) in
      if ltb clean_payload_cap (saturating_add total (length bytes)) then err over_cap else more
  | ok (_, rest) ↦ err unexpected_packet
  | err e ↦ err e
  | stuck ↦ stuck
]

unfoldable pub drain_clean_payload : ℕ → Bytes → Result PktError (CleanPayload × ℕ × Bytes)
unfolding drain_loop
drain_clean_payload max_inline s = drain_loop (suc (length s)) max_inline s (in_memory []) 0

-- What both handlers answer: the list of the status, the content, and a second list.
unfoldable pub success_reply : Bytes → Result PktError Bytes
unfolding write_text_list write_all_then_flush
success_reply content = do
  head ← write_text_list (status_success ∷ [])
  body ← write_all_then_flush content
  tail ← write_text_list (status_success ∷ [])
  ok (head ++ (body ++ tail))

module _ {Objects : Type 0} (xet : Xet Objects) where
  abbrev pub or_empty : Option Objects → Objects
  or_empty none = xet.no_objects
  or_empty (some objects) = objects

  -- `handle_clean_in_memory` and `handle_clean`: the objects, the marker, the answer, the cache. The
  -- directory of the store is made first.
  unfoldable pub handle_clean :
      Text
      → Bytes
      → ℕ
      → Bytes
      → Repo Objects
      → Option (XetFileInfo × Objects)
      → Result PktError (Turn Objects)
  unfolding encode_pointer_string compute_chunks_from_slice success_reply insert
  handle_clean pathname content file_size rest repo none = ok (record {
    repo = record repo { store = some (or_empty repo.store) };
    rest = rest;
    out = [];
    failed = true;
  })
  handle_clean pathname content file_size rest repo (some (info, objects)) = do
    let pointer = encode_pointer_string xet info
    out ← success_reply pointer
    ok (record {
      repo = record repo {
        store = some objects;
        markers = insert info.hash file_size repo.markers;
        clean_cache =
            insert (xet.path_key pathname)
              (record {
                size = file_size;
                chunks = compute_chunks_from_slice xet content;
                pointer = pointer;
              })
              repo.clean_cache;
      };
      rest = rest;
      out = out;
      failed = false;
    })

  unfoldable pub cache_hit : Option CacheEntry → Bytes → ℕ → Bool
  unfolding verify_chunks_in_memory
  cache_hit none content file_size = false
  cache_hit (some entry) content file_size =
      entry.size == file_size && verify_chunks_in_memory xet entry.chunks content

  abbrev pub cached_pointer : Option CacheEntry → Text
  cached_pointer none = []
  cached_pointer (some entry) = entry.pointer

  abbrev pub answer_hit : Text → Bytes → Repo Objects → Result PktError (Turn Objects)
  unfolding success_reply
  answer_hit pointer rest repo = do
    out ← success_reply pointer
    ok (record { repo = repo; rest = rest; out = out; failed = false })

  unfoldable pub do_clean : RawConfig → Repo Objects → Text → Bytes → Result PktError (Turn Objects)
  unfolding drain_clean_payload handle_clean success_reply verify_chunks_in_memory get
  do_clean cfg repo pathname s = do
    (payload, file_size, rest) ← drain_clean_payload cfg.max_inline s
    let content = payload_bytes payload
    let entry = get (xet.path_key pathname) repo.clean_cache
    if cache_hit entry content file_size
        then answer_hit (cached_pointer entry) rest repo
        else handle_clean pathname content file_size rest repo
            (xet.clean_bytes content (or_empty repo.store))
