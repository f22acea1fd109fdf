-- ===== src/Meta/Lookups.antt =====
-- What a lookup returns after a registration.
-- What SQLite says of `LIMIT 1`: one of the rows, where there are any.
use baleforgit.Prelude.{
  ==_ne, ==_refl, All, Bool, Bool-cases, List, Option, [], ap, append-nil, append_assoc, arith,
  false, get_elem?, if◌then◌else◌, inl, inr, le→leb, lt→ltb, map, ok, refl, some, suc, sym, true,
  zero, ℕ, ◌&&◌, ◌++◌, ◌+◌, ◌<◌, ◌==◌, ◌^◌, ◌||◌, ◌∙◌, ◌∷◌, ◌≡◌, ◌≢◌, ◌≤◌,
}
use baleforgit.Core.{FileTerm, Hash32, RepoRef, Text, eq_bytes}
use baleforgit.Meta.{
  FileRow, MetaStore, TermRow, check_total, file_row, insert_in_order, insert_or_replace,
  insert_terms, is_file, lookup_file, nonneg_i64_to_u64, order_by_index, register_file,
  select_terms, serve_terms, term_sum, term_there, terms_exist, terms_of, totals_of,
  write_file_in_tx,
}
use baleforgit.Meta.Terms.{rows_of, terms_of-append}
use baleforgit.Table.{eq_bytes_refl}

pub record IsLimit1 (limit_1 : List ℕ → Option ℕ) : Type 0 where
  pub a_row :
      (x : ℕ) (xs : List ℕ)
      → (i : ℕ) × (y : ℕ) × (limit_1 (x ∷ xs) ≡ some y) × (get_elem? (x ∷ xs) i ≡ some y)

module _ (hash : Hash32) where
  no_terms : (rows : List TermRow) → terms_exist hash rows ≡ false → terms_of hash rows ≡ []
  unfolding terms_exist terms_of
  no_terms [] h = refl
  no_terms (r ∷ rows) h = elim (Bool-cases (eq_bytes hash r.file_hash)) [
    | inl e ↦ let p : true ≡ false = rw e at h in absurd (cc p)
    | inr e ↦
        let p : terms_exist hash rows ≡ false = rw e at h in rw (e, terms_of) (no_terms rows p)
  ]

  none_there :
      (i : ℕ) (rows : List TermRow) → terms_exist hash rows ≡ false → term_there hash i rows ≡ false
  unfolding terms_exist term_there
  none_there i [] h = refl
  none_there i (r ∷ rows) h = elim (Bool-cases (eq_bytes hash r.file_hash)) [
    | inl e ↦ let p : true ≡ false = rw e at h in absurd (cc p)
    | inr e ↦
        let p : terms_exist hash rows ≡ false = rw e at h in
        rw (e, term_there) (none_there i rows p)
  ]

  there_after :
      (i j : ℕ) (t : FileTerm) (rows : List TermRow)
      → i < j
      → term_there hash j rows ≡ false
      → term_there hash j (rows ++ record { file_hash = hash; term_index = i; term = t } ∷ [])
        ≡ false
  unfolding term_there
  there_after i j t [] lt h =
      let ne : (j == i) ≡ false = ==_ne (omega arith) in rw (eq_bytes_refl hash, ne) refl
  there_after i j t (r ∷ rows) lt h =
      let (p, q) =
        or_false (eq_bytes hash r.file_hash && j == r.term_index) (term_there hash j rows) h in
      rw (p, there_after i j t rows lt q) refl
    where
      or_false : (a b : Bool) → (a || b) ≡ false → (a ≡ false) × (b ≡ false)
      or_false false false e = (refl, refl)
      or_false false true e = absurd (cc e)
      or_false true b e = absurd (cc e)

  -- Where no row of the hash has an index from `i` on, all the terms are inserted.
  insert_terms-append :
      (i : ℕ) (ts : List FileTerm) (rows : List TermRow)
      → ((j : ℕ) → i ≤ j → term_there hash j rows ≡ false)
      → insert_terms hash i ts rows ≡ rows ++ rows_of hash i ts
  unfolding insert_terms
  insert_terms-append i [] rows h = sym (append-nil rows)
  insert_terms-append i (t ∷ ts) rows h =
      let row : TermRow = record { file_hash = hash; term_index = i; term = t } in
      rw (h i (omega arith), insert_terms)
        (insert_terms-append (i + 1) ts (rows ++ row ∷ [])
            (λ j le. there_after i j t rows (omega arith) (h j (omega arith)))
          ∙ append_assoc rows (row ∷ []) (rows_of hash (i + 1) ts))

  pub insert_terms-new :
      (ts : List FileTerm) (rows : List TermRow)
      → terms_exist hash rows ≡ false
      → insert_terms hash 0 ts rows ≡ rows ++ rows_of hash 0 ts
  insert_terms-new ts rows h = insert_terms-append 0 ts rows (λ j le. none_there j rows h)

  terms_of-rows_of :
      (i : ℕ) (ts : List FileTerm) → terms_of hash (rows_of hash i ts) ≡ rows_of hash i ts
  unfolding terms_of
  terms_of-rows_of i [] = refl
  terms_of-rows_of i (t ∷ ts) = rw (eq_bytes_refl hash, terms_of-rows_of (i + 1) ts) refl

  order_by_index-rows_of :
      (i : ℕ) (ts : List FileTerm) → order_by_index (rows_of hash i ts) ≡ rows_of hash i ts
  unfolding order_by_index insert_in_order
  order_by_index-rows_of i [] = refl
  order_by_index-rows_of i (t ∷ []) = refl
  order_by_index-rows_of i (t ∷ u ∷ ts) =
      rw (order_by_index-rows_of (i + 1) (u ∷ ts)) (rw (le→leb i (i + 1) (omega arith)) refl)

  map-rows_of : (i : ℕ) (ts : List FileTerm) → map (λ r. r.term) (rows_of hash i ts) ≡ ts
  map-rows_of i [] = refl
  map-rows_of i (t ∷ ts) = ap (λ l. t ∷ l) (map-rows_of (i + 1) ts)

  select_terms-write_file_in_tx :
      (repo : RepoRef) (ts : List FileTerm) (db : MetaStore)
      → terms_exist hash db.file_terms ≡ false
      → select_terms hash (write_file_in_tx hash repo ts db) ≡ ts
  unfolding select_terms write_file_in_tx
  select_terms-write_file_in_tx repo ts db h =
      let rows : terms_of hash (insert_terms hash 0 ts db.file_terms) ≡ rows_of hash 0 ts =
        ap (terms_of hash) (insert_terms-new ts db.file_terms h)
        ∙ terms_of-append hash db.file_terms (rows_of hash 0 ts)
        ∙ rw (no_terms db.file_terms h, terms_of-rows_of 0 ts) refl in
      rw (h, rows, order_by_index-rows_of 0 ts) (map-rows_of 0 ts)

  -- The rows but the one that a registration of the file in the repository replaces.
  unfoldable pub other_rows : Text → List FileRow → List FileRow
  unfolding is_file
  other_rows repo_id [] = []
  other_rows repo_id (r ∷ rows) =
      let rest = other_rows repo_id rows in if is_file hash repo_id r then rest else r ∷ rest

  -- All sizes of the file that other repositories have recorded are `n`.
  abbrev pub Recorded : Text → ℕ → List FileRow → Type 0
  Recorded repo_id n rows = All (λ m. m ≡ n) (totals_of hash (other_rows repo_id rows))

  totals_of-snoc :
      (n : ℕ) (row : FileRow) (rows : List FileRow)
      → row.file_hash ≡ hash
      → row.total_bytes ≡ n
      → All (λ m. m ≡ n) (totals_of hash rows)
      → All (λ m. m ≡ n) (totals_of hash (rows ++ row ∷ []))
        × (totals_of hash (rows ++ row ∷ []) ≢ [])
  unfolding totals_of
  totals_of-snoc n row [] e t h = rw (e, eq_bytes_refl hash, totals_of) ((t, tt), λ p. cc p)
  totals_of-snoc n row (r ∷ rows) e t h = elim (Bool-cases (eq_bytes hash r.file_hash)) [
    | inl own ↦
        let p : All (λ m. m ≡ n) (r.total_bytes ∷ totals_of hash rows) = rw own at h in
        rw (own, totals_of) ((p.0, (totals_of-snoc n row rows e t p.1).0), λ q. cc q)
    | inr foreign ↦
        let p : All (λ m. m ≡ n) (totals_of hash rows) = rw foreign at h in
        rw (foreign, totals_of) (totals_of-snoc n row rows e t p)
  ]

insert_or_replace-other_rows :
    (row : FileRow) (rows : List FileRow)
    → insert_or_replace row rows ≡ other_rows row.file_hash row.repo_id rows ++ row ∷ []
unfolding insert_or_replace other_rows
insert_or_replace-other_rows row [] = refl
insert_or_replace-other_rows row (r ∷ rows) =
    elim (Bool-cases (is_file row.file_hash row.repo_id r)) [
      | inl replaced ↦ rw replaced (insert_or_replace-other_rows row rows)
      | inr other ↦ rw other (ap (λ l. r ∷ l) (insert_or_replace-other_rows row rows))
    ]

All-get_elem? : (n i y : ℕ) (l : List ℕ) → All (λ m. m ≡ n) l → get_elem? l i ≡ some y → y ≡ n
All-get_elem? n i y [] h e = absurd (cc e)
All-get_elem? n zero y (x ∷ l) h e = cc (h.0, e)
All-get_elem? n (suc i) y (x ∷ l) h e = All-get_elem? n i y l h.1 e

limit_1-Recorded :
    (limit_1 : List ℕ → Option ℕ) (n : ℕ) (l : List ℕ)
    → IsLimit1 limit_1
    → All (λ m. m ≡ n) l
    → l ≢ []
    → limit_1 l ≡ some n
limit_1-Recorded limit_1 n [] v h ne = absurd (ne refl)
limit_1-Recorded limit_1 n (x ∷ xs) v h ne =
    let (i, y, e, g) = v.a_row x xs in e ∙ ap some (All-get_elem? n i y (x ∷ xs) h g)

Recorded-total :
    (limit_1 : List ℕ → Option ℕ) (hash : Hash32) (repo : RepoRef) (ts : List FileTerm)
    (db : MetaStore)
    → IsLimit1 limit_1
    → Recorded hash repo.repo_id (term_sum ts) db.files
    → limit_1 (totals_of hash (write_file_in_tx hash repo ts db).files) ≡ some (term_sum ts)
unfolding write_file_in_tx file_row
Recorded-total limit_1 hash repo ts db v h =
    let row : FileRow = file_row hash repo ts in
    let (all, some_row) =
      totals_of-snoc hash (term_sum ts) row (other_rows hash repo.repo_id db.files) refl refl h in
    ap (λ rows. limit_1 (totals_of hash rows)) (insert_or_replace-other_rows row db.files)
    ∙ limit_1-Recorded limit_1 (term_sum ts)
        (totals_of hash (other_rows hash repo.repo_id db.files ++ row ∷ [])) v all some_row

-- A file that had no terms, registered with a term list that is not empty and whose sum is an `i64`,
-- is looked up as just that list, if each size that other repositories have recorded for it is the
-- list's sum and `LIMIT 1` returns one of the rows; what this repository recorded before is replaced.
pub lookup_file-register_file :
    (limit_1 : List ℕ → Option ℕ) (hash : Hash32) (repo : RepoRef) (t : FileTerm)
    (ts : List FileTerm) (db : MetaStore)
    → IsLimit1 limit_1
    → terms_exist hash db.file_terms ≡ false
    → Recorded hash repo.repo_id (term_sum (t ∷ ts)) db.files
    → term_sum (t ∷ ts) < 2 ^ 63
    → lookup_file limit_1 hash (register_file hash repo (t ∷ ts) db) ≡ ok (some (t ∷ ts))
unfolding lookup_file serve_terms check_total nonneg_i64_to_u64
lookup_file-register_file limit_1 hash repo t ts db v fresh same small =
    let after : MetaStore = write_file_in_tx hash repo (t ∷ ts) db in
    let terms : select_terms hash after ≡ t ∷ ts =
      select_terms-write_file_in_tx hash repo (t ∷ ts) db fresh in
    let total : limit_1 (totals_of hash after.files) ≡ some (term_sum (t ∷ ts)) =
      Recorded-total limit_1 hash repo (t ∷ ts) db v same in
    rw (terms, total, lt→ltb (term_sum (t ∷ ts)) (2 ^ 63) small, ==_refl (term_sum (t ∷ ts))) refl
