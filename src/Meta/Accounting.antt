-- ===== src/Meta/Accounting.antt =====
-- What an owner stores, against what a shard adds to it and what a repository alone keeps.
use baleforgit.Prelude.{
  All, Bool, Bool-cases, List, [], ap, arith, false, inl, inr, map, not, ok, ok-injective, or_swap,
  refl, sym, true, ℕ, ◌&&◌, ◌++◌, ◌+◌, ◌<◌, ◌^◌, ◌||◌, ◌∙◌, ◌∷◌, ◌≡◌,
}
use baleforgit.Core.{FileTerm, Hash32, RepoRef, Text, XorbInfo, eq_bytes, owner}
use baleforgit.Meta.{MetaStore, TermRow, file_row, register_files, terms_exist, write_file_in_tx}
use baleforgit.Meta.Hashes.{
  dedup_after, dedup_hashes, dedup_sorted_xorbs, insert_sorted, is_in, leb_bytes, sort_hashes,
}
use baleforgit.Meta.Lookups.{insert_terms-new}
use baleforgit.Meta.References.{referenced-write_file_in_tx}
use baleforgit.Meta.Sums.{
  IsU32Xorbs, on_disk_of-Small, on_disk_of-same, sum_u64-ok, sum_u64-total, total, total-either,
}
use baleforgit.Meta.Terms.{rows_of}
use baleforgit.Meta.Usage.{
  of_owner, on_disk_of, referenced, stored_bytes_for_owner, sum_u64,
  unaccounted_xorb_bytes_for_owner,
}
use baleforgit.Table.{eq_bytes_refl, eq_bytes_sound}

-- The xorbs that the terms of some files name.
abbrev pub xorbs_of_files : List (Hash32 × List FileTerm) → List Hash32
xorbs_of_files [] = []
xorbs_of_files (f ∷ fs) = map (λ t. t.xorb) f.1 ++ xorbs_of_files fs

is_in-append : (x : Hash32) (xs ys : List Hash32) → is_in x (xs ++ ys) ≡ (is_in x xs || is_in x ys)
unfolding is_in
is_in-append x [] ys = refl
is_in-append x (y ∷ xs) ys =
    rw (is_in-append x xs ys) (assoc (eq_bytes x y) (is_in x xs) (is_in x ys))
  where
    assoc : (a b c : Bool) → (a || (b || c)) ≡ ((a || b) || c)
    assoc true b c = refl
    assoc false true c = refl
    assoc false false c = refl

is_in-insert_sorted :
    (x y : Hash32) (ys : List Hash32) → is_in x (insert_sorted y ys) ≡ (eq_bytes x y || is_in x ys)
unfolding is_in insert_sorted
is_in-insert_sorted x y [] = refl
is_in-insert_sorted x y (z ∷ ys) = elim (Bool-cases (leb_bytes y z)) [
  | inl e ↦ rw (e, insert_sorted) refl
  | inr e ↦
      rw (e, insert_sorted)
        (rw (is_in-insert_sorted x y ys, is_in)
          (or_swap (eq_bytes x z) (eq_bytes x y) (is_in x ys)))
]

is_in-sort_hashes : (x : Hash32) (xs : List Hash32) → is_in x (sort_hashes xs) ≡ is_in x xs
unfolding is_in sort_hashes
is_in-sort_hashes x [] = refl
is_in-sort_hashes x (y ∷ xs) =
    is_in-insert_sorted x y (sort_hashes xs) ∙ rw (is_in-sort_hashes x xs, is_in) refl

is_in-dedup_after :
    (x last : Hash32) (xs : List Hash32)
    → (eq_bytes x last || is_in x (dedup_after last xs)) ≡ (eq_bytes x last || is_in x xs)
unfolding is_in dedup_after
is_in-dedup_after x last [] = refl
is_in-dedup_after x last (y ∷ xs) = elim (Bool-cases (eq_bytes y last)) [
  | inl e ↦
      let same : y ≡ last = eq_bytes_sound y last e in
      rw (e, dedup_after)
        (is_in-dedup_after x last xs ∙ rw same (once (eq_bytes x last) (is_in x xs)))
  | inr e ↦ rw (e, dedup_after) (ap (λ b. eq_bytes x last || b) (is_in-dedup_after x y xs))
]
  where
    once : (a b : Bool) → (a || b) ≡ (a || (a || b))
    once true b = refl
    once false b = refl

-- The sorted list without repetitions has the same hashes.
is_in-dedup_sorted_xorbs :
    (x : Hash32) (xs : List Hash32) → is_in x (dedup_sorted_xorbs xs) ≡ is_in x xs
unfolding dedup_sorted_xorbs is_in
is_in-dedup_sorted_xorbs x xs = kept (sort_hashes xs) ∙ is_in-sort_hashes x xs
  where
    kept : (ys : List Hash32) → is_in x (dedup_hashes ys) ≡ is_in x ys
    kept [] = refl
    kept (y ∷ ys) = is_in-dedup_after x y ys

-- No term of the file is stored, nor is one after a registration of the files before it.
abbrev AllNew : RepoRef → List (Hash32 × List FileTerm) → MetaStore → Type 0
AllNew repo [] db = Unit
AllNew repo (f ∷ fs) db =
    (terms_exist f.0 db.file_terms ≡ false) × AllNew repo fs (write_file_in_tx f.0 repo f.1 db)

-- No two of the files have one hash, and no term of them is stored.
abbrev pub AreNew : List (Hash32 × List FileTerm) → List TermRow → Type 0
AreNew [] rows = Unit
AreNew (f ∷ fs) rows =
    (terms_exist f.0 rows ≡ false) × All (λ g. eq_bytes g.0 f.0 ≡ false) fs × AreNew fs rows

terms_exist-rows_of :
    (hash key : Hash32) (i : ℕ) (ts : List FileTerm) (rows : List TermRow)
    → eq_bytes hash key ≡ false
    → terms_exist hash (rows ++ rows_of key i ts) ≡ terms_exist hash rows
unfolding terms_exist
terms_exist-rows_of hash key i [] [] n = refl
terms_exist-rows_of hash key i (t ∷ ts) [] n = rw n (terms_exist-rows_of hash key (i + 1) ts [] n)
terms_exist-rows_of hash key i ts (r ∷ rows) n =
    ap (λ b. eq_bytes hash r.file_hash || b) (terms_exist-rows_of hash key i ts rows n)

AreNew-rows_of :
    (key : Hash32) (ts : List FileTerm) (fs : List (Hash32 × List FileTerm)) (rows : List TermRow)
    → All (λ g. eq_bytes g.0 key ≡ false) fs
    → AreNew fs rows
    → AreNew fs (rows ++ rows_of key 0 ts)
AreNew-rows_of key ts [] rows n h = tt
AreNew-rows_of key ts (f ∷ fs) rows n h =
    (terms_exist-rows_of f.0 key 0 ts rows n.0 ∙ h.0, h.1, AreNew-rows_of key ts fs rows n.1 h.2)

AreNew-AllNew :
    (repo : RepoRef) (fs : List (Hash32 × List FileTerm)) (db : MetaStore)
    → AreNew fs db.file_terms
    → AllNew repo fs db
unfolding write_file_in_tx
AreNew-AllNew repo [] db h = tt
AreNew-AllNew repo (f ∷ fs) db h = (
  h.0,
  AreNew-AllNew repo fs (write_file_in_tx f.0 repo f.1 db) (
      rw (h.0, insert_terms-new f.0 f.1 db.file_terms h.0)
        (AreNew-rows_of f.0 f.1 fs db.file_terms h.1 h.2)),
)

abbrev stored : Text → MetaStore → Hash32 → Bool
stored name db x = referenced (of_owner name) db.files x db.file_terms

stored-register_files :
    (repo : RepoRef) (fs : List (Hash32 × List FileTerm)) (db : MetaStore) (x : Hash32)
    → AllNew repo fs db
    → stored (owner repo) (register_files repo fs db) x
      ≡ (stored (owner repo) db x || is_in x (xorbs_of_files fs))
unfolding register_files is_in
stored-register_files repo [] db x h = none_new (stored (owner repo) db x)
  where
    none_new : (b : Bool) → b ≡ (b || false)
    none_new true = refl
    none_new false = refl
stored-register_files repo (f ∷ fs) db x h =
    let own : of_owner (owner repo) (file_row f.0 repo f.1) ≡ true = own_row in
    stored-register_files repo fs (write_file_in_tx f.0 repo f.1 db) x h.1
    ∙ rw
        (
          referenced-write_file_in_tx (of_owner (owner repo)) f.0 repo f.1 db x own h.0,
          is_in-append x (map (λ t. t.xorb) f.1) (xorbs_of_files fs),
        )
        (assoc (stored (owner repo) db x) (is_in x (map (λ t. t.xorb) f.1))
          (is_in x (xorbs_of_files fs)))
  where
    own_row : of_owner (owner repo) (file_row f.0 repo f.1) ≡ true
    own_row = eq_bytes_refl (owner repo)

    assoc : (a b c : Bool) → ((a || b) || c) ≡ (a || (b || c))
    assoc true b c = refl
    assoc false true c = refl
    assoc false false c = refl

xorbs-register_files :
    (repo : RepoRef) (fs : List (Hash32 × List FileTerm)) (db : MetaStore)
    → (register_files repo fs db).xorbs ≡ db.xorbs
unfolding register_files write_file_in_tx
xorbs-register_files repo [] db = refl
xorbs-register_files repo (f ∷ fs) db =
    xorbs-register_files repo fs (write_file_in_tx f.0 repo f.1 db)

unaccounted-total :
    (name : Text) (xs : List Hash32) (db : MetaStore) (delta : ℕ)
    → IsU32Xorbs db.xorbs
    → unaccounted_xorb_bytes_for_owner name xs db ≡ ok delta
    → delta ≡ total (on_disk_of (λ x. is_in x xs && not (stored name db x)) db.xorbs)
unfolding unaccounted_xorb_bytes_for_owner is_in on_disk_of
unaccounted-total name [] db delta h e = sym (ok-injective e) ∙ sym (nothing db.xorbs)
  where
    nothing : (rows : List XorbInfo) → total (on_disk_of (λ x. false) rows) ≡ 0
    nothing [] = refl
    nothing (x ∷ rows) = nothing rows
unaccounted-total name (y ∷ ys) db delta h e =
    let uniq : List Hash32 = dedup_sorted_xorbs (y ∷ ys) in
    sum_u64-ok (on_disk_of (λ x. is_in x uniq && not (stored name db x)) db.xorbs) delta
      (on_disk_of-Small (λ x. is_in x uniq && not (stored name db x)) db.xorbs h) e
    ∙ ap total (
        on_disk_of-same (λ x. is_in x uniq && not (stored name db x))
          (λ x. is_in x (y ∷ ys) && not (stored name db x)) db.xorbs
          (λ x. ap (λ b. b && not (stored name db x)) (is_in-dedup_sorted_xorbs x (y ∷ ys))))

-- Where none of the files has terms yet and none stands twice, the bytes that their owner stores after
-- their registration are those before and the unaccounted ones of the xorbs that the files name, if
-- the sum is below 2 ^ 63 and the recorded sizes of the xorbs are 32-bit words.
pub stored_bytes_for_owner-register_files :
    (repo : RepoRef) (fs : List (Hash32 × List FileTerm)) (db : MetaStore) (used delta : ℕ)
    → IsU32Xorbs db.xorbs
    → AreNew fs db.file_terms
    → stored_bytes_for_owner (owner repo) db ≡ ok used
    → unaccounted_xorb_bytes_for_owner (owner repo) (xorbs_of_files fs) db ≡ ok delta
    → used + delta < 2 ^ 63
    → stored_bytes_for_owner (owner repo) (register_files repo fs db) ≡ ok (used + delta)
unfolding stored_bytes_for_owner
stored_bytes_for_owner-register_files repo fs db used delta u32 new e d small =
    let name : Text = owner repo in
    let after : MetaStore = register_files repo fs db in
    let was : Hash32 → Bool = stored name db in
    let rows : List XorbInfo = db.xorbs in
    let before : used ≡ total (on_disk_of was rows) =
      sum_u64-ok (on_disk_of was rows) used (on_disk_of-Small was rows u32) e in
    let added : delta ≡ total (on_disk_of (λ x. is_in x (xorbs_of_files fs) && not (was x)) rows) =
      unaccounted-total name (xorbs_of_files fs) db delta u32 d in
    let selected : on_disk_of (stored name after) rows
        ≡ on_disk_of (λ x. was x || is_in x (xorbs_of_files fs)) rows =
      on_disk_of-same (stored name after) (λ x. was x || is_in x (xorbs_of_files fs)) rows
        (λ x. stored-register_files repo fs db x (AreNew-AllNew repo fs db new)) in
    let sum : total (on_disk_of (stored name after) rows) ≡ used + delta =
      ap total selected
      ∙ total-either was (λ x. is_in x (xorbs_of_files fs)) rows
      ∙ omega (arith, before, added) in
    ap (λ (xs : List XorbInfo). sum_u64 (on_disk_of (stored name after) xs))
      (xorbs-register_files repo fs db)
    ∙ sum_u64-total (on_disk_of (stored name after) rows) (omega (arith, sum, small))
    ∙ ap ok sum
