-- ===== src/Meta/Hashes.antt =====
-- crates/bale-server-meta-common/src/lib.rs: the list of an `IN (…)` clause.
use baleforgit.Prelude.{Bool, List, [], false, if◌then◌else◌, ltb, true, ◌&&◌, ◌==◌, ◌||◌, ◌∷◌}
use baleforgit.Core.{Bytes, Hash32, eq_bytes}

-- `cmp` of byte slices, where it is not `Greater`
unfoldable pub leb_bytes : Bytes → Bytes → Bool
leb_bytes [] ys = true
leb_bytes (x ∷ xs) [] = false
leb_bytes (x ∷ xs) (y ∷ ys) = ltb x y || (x == y && leb_bytes xs ys)

unfoldable pub insert_sorted : Hash32 → List Hash32 → List Hash32
unfolding leb_bytes
insert_sorted x [] = x ∷ []
insert_sorted x (y ∷ ys) =
    let rest = insert_sorted x ys in if leb_bytes x y then x ∷ y ∷ ys else y ∷ rest

-- `sort_by`
unfoldable pub sort_hashes : List Hash32 → List Hash32
unfolding insert_sorted
sort_hashes [] = []
sort_hashes (x ∷ xs) = insert_sorted x (sort_hashes xs)

-- `dedup_by`, after the element `last` that was kept
unfoldable pub dedup_after : Hash32 → List Hash32 → List Hash32
unfolding eq_bytes
dedup_after last [] = []
dedup_after last (x ∷ xs) =
    let same = dedup_after last xs in
    let other = dedup_after x xs in if eq_bytes x last then same else x ∷ other

abbrev pub dedup_hashes : List Hash32 → List Hash32
dedup_hashes [] = []
dedup_hashes (x ∷ xs) = x ∷ dedup_after x xs

unfoldable pub dedup_sorted_xorbs : List Hash32 → List Hash32
unfolding sort_hashes dedup_after
dedup_sorted_xorbs xorbs = dedup_hashes (sort_hashes xorbs)

-- `x IN (…)`
unfoldable pub is_in : Hash32 → List Hash32 → Bool
unfolding eq_bytes
is_in x [] = false
is_in x (y ∷ ys) = eq_bytes x y || is_in x ys
