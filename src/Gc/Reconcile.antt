-- ===== src/Gc/Reconcile.antt =====
-- crates/git-bale/src/gc.rs: `reconcile`, and what it removes.
use baleforgit.Prelude.{
  Bool, List, Option, [], drop, false, if◌then◌else◌, leb, length, ltb, none, not, some, take, ℕ,
  ◌&&◌, ◌++◌, ◌-◌, ◌||◌, ◌∷◌,
}
use baleforgit.Core.{Text, drop_prefix, eq_bytes}
use baleforgit.Gc.{
  GcConfig, Git, Staging, is_64_lower_hex, list_staged_files, no_tips, reachable_hashes,
}
use baleforgit.Meta.Hashes.{is_in}

unfoldable pub marker_mtime : Text → List (Text × ℕ) → Option ℕ
unfolding eq_bytes
marker_mtime h [] = none
marker_mtime h (m ∷ ms) = let rest = marker_mtime h ms in if eq_bytes h m.0 then some m.1 else rest

-- `marker_age_exceeds`; a time in the future does not exceed.
abbrev pub age_exceeds : ℕ → ℕ → Option ℕ → Bool
age_exceeds grace now none = false
age_exceeds grace now (some mtime) = leb mtime now && ltb grace (now - mtime)

unfoldable pub live_hashes : GcConfig → Git → List Text → List Text
unfolding reachable_hashes
live_hashes cfg git want =
    if cfg.local_mode
    then reachable_hashes git want (git.local_tips ++ git.remote_tips) []
    else reachable_hashes git want git.local_tips git.remote_tips

unfoldable pub dead_hashes : GcConfig → List (Text × ℕ) → List Text → List Text → List Text
unfolding is_in marker_mtime
dead_hashes cfg markers live [] = []
dead_hashes cfg markers live (h ∷ want) =
    let rest = dead_hashes cfg markers live want in
    if not (is_in h live) && age_exceeds cfg.grace cfg.now (marker_mtime h markers)
    then h ∷ rest
    else rest

-- `remove_marker` of each
unfoldable pub remove_markers : List Text → List (Text × ℕ) → List (Text × ℕ)
unfolding is_in
remove_markers dead [] = []
remove_markers dead (m ∷ ms) =
    let rest = remove_markers dead ms in if is_in m.0 dead then rest else m ∷ rest

unfoldable pub unreachable : List Text → List Text → List Text
unfolding is_in
unreachable reachable [] = []
unreachable reachable (h ∷ hs) =
    let rest = unreachable reachable hs in if is_in h reachable then rest else h ∷ rest

unfoldable pub orphaned_hashes : GcConfig → Git → List Text → List Text → List Text
unfolding reachable_hashes unreachable
orphaned_hashes cfg git want dead =
    let reachable_anywhere = reachable_hashes git want (git.local_tips ++ git.remote_tips) [] in
    if cfg.local_mode || no_tips git.remote_tips then dead else unreachable reachable_anywhere dead

abbrev pub names_one : List Text → Option Text → Bool
unfolding is_in
names_one hashes none = false
names_one hashes (some h) = is_in h hashes

-- `clean_cache::forget_hashes`
unfoldable pub forget_hashes : List Text → List (Text × Option Text) → List (Text × Option Text)
unfolding is_in
forget_hashes hashes [] = []
forget_hashes hashes (e ∷ es) =
    let rest = forget_hashes hashes es in if names_one hashes e.1 then rest else e ∷ rest

abbrev pub is_64_hex : Option Text → Bool
unfolding is_64_lower_hex
is_64_hex none = false
is_64_hex (some s) = is_64_lower_hex s

-- The names "default.<hex>" and "<hex>.mdb".
unfoldable pub is_object_name : Text → Bool
unfolding is_64_lower_hex drop_prefix
is_object_name name =
    is_64_hex (drop_prefix (b'd' ∷ b'e' ∷ b'f' ∷ b'a' ∷ b'u' ∷ b'l' ∷ b't' ∷ b'.' ∷ []) name)
    || (leb 4 (length name)
        && eq_bytes (drop (length name - 4) name) (b'.' ∷ b'm' ∷ b'd' ∷ b'b' ∷ [])
        && is_64_lower_hex (take (length name - 4) name))

-- `remove_all_staged_objects`
unfoldable pub remove_objects : List Text → List Text
unfolding is_object_name
remove_objects [] = []
remove_objects (o ∷ os) =
    let rest = remove_objects os in if is_object_name o then rest else o ∷ rest

-- Once the dead markers are removed: with the last marker the objects go.
unfoldable pub swept : List Text → Staging → Staging
unfolding list_staged_files remove_objects
swept [] st = record st { markers = []; objects = remove_objects st.objects }
swept (h ∷ hs) st = st

unfoldable pub reclaim : GcConfig → Git → List Text → List Text → Staging → Staging
unfolding remove_markers forget_hashes orphaned_hashes swept list_staged_files
reclaim cfg git want [] st = st
reclaim cfg git want (d ∷ ds) st =
    let markers = remove_markers (d ∷ ds) st.markers in
    swept (list_staged_files markers) (record st {
      markers = markers;
      clean_cache = forget_hashes (orphaned_hashes cfg git want (d ∷ ds)) st.clean_cache;
    })

unfoldable pub reconcile : GcConfig → Git → Staging → Staging
unfolding list_staged_files live_hashes dead_hashes reclaim
reconcile cfg git st =
    let want = list_staged_files st.markers in
    if (cfg.local_mode && cfg.local_shared) || cfg.locked || git.git_op_in_flight
    then st
    else reclaim cfg git want (dead_hashes cfg st.markers (live_hashes cfg git want) want) st
