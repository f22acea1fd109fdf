-- ===== src/Meta/Xorbs.antt =====
-- crates/bale-server-meta-sqlite/src/lib.rs: the tables of xorbs, of their chunks and of their frames.
-- The numbers of a row are 32-bit words, which the columns hold as they are.
use baleforgit.Prelude.{
  Bool, List, Option, Result, [], err, false, if◌then◌else◌, leb, none, ok, some, take, ℕ, ◌&&◌,
  ◌++◌, ◌==◌, ◌>>=◌, ◌||◌, ◌∷◌,
}
use baleforgit.Core.{ChunkRow, CoreError, Hash32, XorbFrameRow, XorbInfo, eq_bytes, internal}
use baleforgit.Meta.{MetaStore, XorbChunk, XorbFrame}
use baleforgit.Meta.Hashes.{dedup_sorted_xorbs, is_in, leb_bytes}

unfoldable pub xorb_there : Hash32 → List XorbInfo → Bool
unfolding eq_bytes
xorb_there hash [] = false
xorb_there hash (x ∷ rows) = eq_bytes hash x.xorb || xorb_there hash rows

-- `INSERT OR IGNORE INTO xorbs`
unfoldable pub insert_xorb : XorbInfo → List XorbInfo → List XorbInfo
unfolding xorb_there
insert_xorb x rows = if xorb_there x.xorb rows then rows else rows ++ x ∷ []

unfoldable pub chunk_there : Hash32 → Hash32 → List XorbChunk → Bool
unfolding eq_bytes
chunk_there chunk_hash xorb [] = false
chunk_there chunk_hash xorb (r ∷ rows) =
    (eq_bytes chunk_hash r.chunk.chunk_hash && eq_bytes xorb r.xorb_hash)
    || chunk_there chunk_hash xorb rows

-- The batches of `INSERT OR IGNORE INTO chunks`.
unfoldable pub insert_chunks : Hash32 → List ChunkRow → List XorbChunk → List XorbChunk
unfolding chunk_there
insert_chunks xorb [] rows = rows
insert_chunks xorb (c ∷ cs) rows =
    let ignored = insert_chunks xorb cs rows in
    let inserted = insert_chunks xorb cs (rows ++ record { xorb_hash = xorb; chunk = c } ∷ []) in
    if chunk_there c.chunk_hash xorb rows then ignored else inserted

unfoldable pub register_xorb : XorbInfo → List ChunkRow → MetaStore → MetaStore
unfolding insert_xorb insert_chunks
register_xorb x cs db = record db {
  xorbs = insert_xorb x db.xorbs;
  chunks = insert_chunks x.xorb cs db.chunks;
}

-- `MetadataStore::xorb_exists`
unfoldable pub xorb_registered : Hash32 → MetaStore → Bool
unfolding xorb_there
xorb_registered hash db = xorb_there hash db.xorbs

unfoldable pub frame_there : Hash32 → ℕ → List XorbFrame → Bool
unfolding eq_bytes
frame_there hash i [] = false
frame_there hash i (r ∷ rows) =
    (eq_bytes hash r.xorb_hash && i == r.frame.frame_index) || frame_there hash i rows

-- The batches of `INSERT OR IGNORE INTO xorb_frames`.
unfoldable pub insert_frames : Hash32 → List XorbFrameRow → List XorbFrame → List XorbFrame
unfolding frame_there
insert_frames hash [] rows = rows
insert_frames hash (f ∷ fs) rows =
    let ignored = insert_frames hash fs rows in
    let inserted = insert_frames hash fs (rows ++ record { xorb_hash = hash; frame = f } ∷ []) in
    if frame_there hash f.frame_index rows then ignored else inserted

unfoldable pub register_xorb_layout : Hash32 → List XorbFrameRow → MetaStore → MetaStore
unfolding insert_frames
register_xorb_layout hash [] db = db
register_xorb_layout hash (f ∷ fs) db = record db {
  xorb_frames = insert_frames hash (f ∷ fs) db.xorb_frames;
}

-- `WHERE xorb_hash = ?`
unfoldable pub frames_of : Hash32 → List XorbFrame → List XorbFrameRow
unfolding eq_bytes
frames_of hash [] = []
frames_of hash (r ∷ rows) =
    let rest = frames_of hash rows in if eq_bytes hash r.xorb_hash then r.frame ∷ rest else rest

unfoldable pub insert_frame_in_order : XorbFrameRow → List XorbFrameRow → List XorbFrameRow
insert_frame_in_order f [] = f ∷ []
insert_frame_in_order f (g ∷ fs) =
    let rest = insert_frame_in_order f fs in
    if leb f.frame_index g.frame_index then f ∷ g ∷ fs else g ∷ rest

-- `ORDER BY frame_index ASC`
unfoldable pub order_by_frame : List XorbFrameRow → List XorbFrameRow
unfolding insert_frame_in_order
order_by_frame [] = []
order_by_frame (f ∷ fs) = insert_frame_in_order f (order_by_frame fs)

unfoldable pub xorb_frame_layout : Hash32 → MetaStore → List XorbFrameRow
unfolding frames_of order_by_frame
xorb_frame_layout hash db = order_by_frame (frames_of hash db.xorb_frames)

-- `ORDER BY xorb_hash, frame_index ASC`, where the row is not after the other
unfoldable pub leb_frame : XorbFrame → XorbFrame → Bool
unfolding eq_bytes leb_bytes
leb_frame r q =
    if eq_bytes r.xorb_hash q.xorb_hash
    then leb r.frame.frame_index q.frame.frame_index
    else leb_bytes r.xorb_hash q.xorb_hash

unfoldable pub insert_row_in_order : XorbFrame → List XorbFrame → List XorbFrame
unfolding leb_frame
insert_row_in_order r [] = r ∷ []
insert_row_in_order r (q ∷ rows) =
    let rest = insert_row_in_order r rows in if leb_frame r q then r ∷ q ∷ rows else q ∷ rest

-- `WHERE xorb_hash IN (…) ORDER BY xorb_hash, frame_index ASC`
unfoldable pub select_frames : List Hash32 → List XorbFrame → List XorbFrame
unfolding insert_row_in_order is_in
select_frames uniq [] = []
select_frames uniq (r ∷ rows) =
    let rest = select_frames uniq rows in
    if is_in r.xorb_hash uniq then insert_row_in_order r rest else rest

-- `out.entry(xorb).or_default().push(frame)`
unfoldable pub push_frame :
    XorbFrame → List (Hash32 × List XorbFrameRow) → List (Hash32 × List XorbFrameRow)
unfolding eq_bytes
push_frame r [] = (r.xorb_hash, r.frame ∷ []) ∷ []
push_frame r (e ∷ out) =
    let rest = push_frame r out in
    if eq_bytes r.xorb_hash e.0 then (e.0, e.1 ++ r.frame ∷ []) ∷ out else e ∷ rest

unfoldable pub group_frames :
    List XorbFrame → List (Hash32 × List XorbFrameRow) → List (Hash32 × List XorbFrameRow)
unfolding push_frame
group_frames [] out = out
group_frames (r ∷ rows) out = group_frames rows (push_frame r out)

unfoldable pub xorb_frame_layouts : List Hash32 → MetaStore → List (Hash32 × List XorbFrameRow)
unfolding dedup_sorted_xorbs select_frames group_frames
xorb_frame_layouts [] db = []
xorb_frame_layouts (x ∷ xs) db =
    group_frames (select_frames (dedup_sorted_xorbs (x ∷ xs)) db.xorb_frames) []

-- `WHERE hash = ?`, where a hash stands once
unfoldable pub find_xorb : Hash32 → List XorbInfo → Result CoreError XorbInfo
unfolding eq_bytes
find_xorb hash [] = err internal
find_xorb hash (x ∷ rows) =
    let rest = find_xorb hash rows in if eq_bytes hash x.xorb then ok x else rest

unfoldable pub xorbs_of_chunk : Hash32 → List XorbChunk → List Hash32
unfolding eq_bytes
xorbs_of_chunk hash [] = []
xorbs_of_chunk hash (r ∷ rows) =
    let rest = xorbs_of_chunk hash rows in
    if eq_bytes hash r.chunk.chunk_hash then r.xorb_hash ∷ rest else rest

abbrev pub near : ℕ → Option Hash32 → List XorbInfo → Result CoreError (List XorbInfo)
near limit none rows = ok []
near limit (some hash) rows = do x ← find_xorb hash rows; ok (take limit (x ∷ []))

-- `limit_1` is the row that the engine returns of a `LIMIT 1` without an order.
unfoldable pub xorbs_near_chunk :
    (List Hash32 → Option Hash32) → Hash32 → ℕ → MetaStore → Result CoreError (List XorbInfo)
unfolding xorbs_of_chunk find_xorb
xorbs_near_chunk limit_1 chunk_hash limit db =
    near limit (limit_1 (xorbs_of_chunk chunk_hash db.chunks)) db.xorbs

-- `WHERE xorb_hash = ?`
unfoldable pub chunks_of : Hash32 → List XorbChunk → List ChunkRow
unfolding eq_bytes
chunks_of hash [] = []
chunks_of hash (r ∷ rows) =
    let rest = chunks_of hash rows in if eq_bytes hash r.xorb_hash then r.chunk ∷ rest else rest

unfoldable pub insert_chunk_in_order : ChunkRow → List ChunkRow → List ChunkRow
insert_chunk_in_order c [] = c ∷ []
insert_chunk_in_order c (d ∷ cs) =
    let rest = insert_chunk_in_order c cs in
    if leb c.chunk_index d.chunk_index then c ∷ d ∷ cs else d ∷ rest

-- `ORDER BY chunk_index ASC`
unfoldable pub order_by_chunk : List ChunkRow → List ChunkRow
unfolding insert_chunk_in_order
order_by_chunk [] = []
order_by_chunk (c ∷ cs) = insert_chunk_in_order c (order_by_chunk cs)

unfoldable pub xorb_chunk_offsets : Hash32 → MetaStore → List ChunkRow
unfolding chunks_of order_by_chunk
xorb_chunk_offsets hash db = order_by_chunk (chunks_of hash db.chunks)
