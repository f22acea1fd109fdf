-- ===== src/Gc.antt =====
-- crates/git-bale/src/gc.rs, and the markers of crates/git-bale/src/staging.rs. What git has (gix) and
-- the JSON library are parameters. The markers are the files of `file-index`, each with its time; no
-- file operation fails, and the order of a directory is immaterial.
pub mod Reconcile
pub mod Sets
pub mod Walks
pub mod Named
pub mod Kept
pub mod Reclaimed
use baleforgit.Prelude.{
  Bool, List, Option, Result, [], err, false, if◌then◌else◌, leb, length, ltb, none, ok, some,
  stuck, true, ℕ, ◌&&◌, ◌==◌, ◌||◌, ◌∷◌,
}
use baleforgit.Core.{Bytes, Text}
use baleforgit.Filter.{XetFileInfo}
use baleforgit.Filter.Pointer.{PointerError, parse_pointer, pointer_max_bytes}
use baleforgit.Meta.Hashes.{is_in}

-- One entry of the index, or one change of a commit against its first parent.
pub record Entry : Type 0 where
  -- a file of the index; an addition or a modification that is a blob
  pub is_file : Bool
  pub oid : Bytes

pub record Git : Type 0 where
  pub index : List Entry
  -- the tips of the local and of the remote refs
  pub local_tips : List Bytes
  pub remote_tips : List Bytes
  -- the changes of the commits from some tips, less those from others; `none` where the walk cannot
  -- start, and for a commit that cannot be read
  pub rev_walk : List Bytes → List Bytes → Option (List (Option (List Entry)))
  -- `find_header` and `find_object`, for a blob
  pub find_blob : Bytes → Option Bytes
  -- `serde_json::from_str`
  pub from_json : Text → Option XetFileInfo
  -- a lock file of the index or of a ref is there
  pub git_op_in_flight : Bool

pub record Staging : Type 0 where
  pub markers : List (Text × ℕ)
  pub objects : List Text
  -- the pointer's hash of each entry of the clean cache, where it has one
  pub clean_cache : List (Text × Option Text)

pub record GcConfig : Type 0 where
  pub local_mode : Bool
  pub local_shared : Bool
  -- another process has the store's lock, or it cannot be taken
  pub locked : Bool
  pub grace : ℕ
  pub now : ℕ

abbrev pub lower_hex_digit : ℕ → Bool
lower_hex_digit c = (leb b'0' c && leb c b'9') || (leb b'a' c && leb c b'f')

unfoldable pub lower_hex_digits : Text → Bool
lower_hex_digits [] = true
lower_hex_digits (c ∷ s) = lower_hex_digit c && lower_hex_digits s

unfoldable pub is_64_lower_hex : Text → Bool
unfolding lower_hex_digits
is_64_lower_hex s = length s == 64 && lower_hex_digits s

-- `list_staged_files`, their names
unfoldable pub list_staged_files : List (Text × ℕ) → List Text
unfolding is_64_lower_hex
list_staged_files [] = []
list_staged_files (m ∷ ms) =
    let rest = list_staged_files ms in if is_64_lower_hex m.0 then m.0 ∷ rest else rest

abbrev pub hash_of : Result PointerError XetFileInfo → Option Text
hash_of (ok info) = some info.hash
hash_of (err e) = none
hash_of stuck = none

-- The file hash of the pointer that a blob is, by the checks of `consider_blob`.
abbrev pub pointer_in : (Text → Option XetFileInfo) → Option Bytes → Option Text
unfolding parse_pointer
pointer_in from_json none = none
pointer_in from_json (some body) =
    if length body == 0 || ltb pointer_max_bytes (length body)
    then none
    else hash_of (parse_pointer from_json body)

unfoldable pub pointer_at : Git → Bytes → Option Text
unfolding parse_pointer
pointer_at git oid = pointer_in git.from_json (git.find_blob oid)

pub record Walk : Type 0 where
  pub seen_blobs : List Bytes
  pub live : List Text

-- `live.insert(h)` of a set
unfoldable pub insert_live : Text → List Text → List Text
unfolding is_in
insert_live h live = if is_in h live then live else h ∷ live

abbrev pub add_wanted : List Text → Option Text → List Text → List Text
unfolding insert_live is_in
add_wanted want none live = live
add_wanted want (some h) live = if is_in h want then insert_live h live else live

abbrev pub no_tips : List Bytes → Bool
no_tips [] = true
no_tips (t ∷ ts) = false

module _ (git : Git) (want : List Text) where
  unfoldable pub consider_blob : Bytes → Walk → Walk
  unfolding pointer_at insert_live is_in
  consider_blob oid w = if is_in oid w.seen_blobs then w else record {
    seen_blobs = oid ∷ w.seen_blobs;
    live = add_wanted want (pointer_at git oid) w.live;
  }

  abbrev pub all_found : Walk → Bool
  all_found w = length w.live == length want

  -- Over the index, or the changes of a commit; it stops where all is found.
  unfoldable pub consider_entries : List Entry → Walk → Walk
  unfolding consider_blob
  consider_entries [] w = w
  consider_entries (e ∷ es) w =
      let skipped = consider_entries es w in
      let w' = consider_blob e.oid w in
      let rest = consider_entries es w' in
      if e.is_file then if all_found w' then w' else rest else skipped

  unfoldable pub walk_commits : List (Option (List Entry)) → Walk → Walk
  unfolding consider_entries
  walk_commits [] w = w
  walk_commits (none ∷ cs) w = walk_commits cs w
  walk_commits (some es ∷ cs) w =
      let w' = consider_entries es w in
      let rest = walk_commits cs w' in if all_found w' then w' else rest

  abbrev pub from_walk : Option (List (Option (List Entry))) → Walk → Walk
  unfolding walk_commits
  from_walk none w = w
  from_walk (some cs) w = walk_commits cs w

  -- The index is walked first; where it has all that is wanted, nothing else is.
  unfoldable pub reachable_hashes : List Bytes → List Bytes → List Text
  unfolding consider_entries walk_commits
  reachable_hashes tips hidden =
      let w = consider_entries git.index (record { seen_blobs = []; live = [] }) in
      if all_found w || no_tips tips then w.live else (from_walk (git.rev_walk tips hidden) w).live
