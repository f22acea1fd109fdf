-- ===== src/Gc/Walks.antt =====
-- The walk over the index and the commits finds each wanted file hash that they name.
use baleforgit.Prelude.{
  ==_iff, All, Bool, Bool-cases, List, Option, [], ap, false, get_elem?, inl, inr, length, none,
  refl, some, subst, suc, sym, true, zero, ℕ, ◌||◌, ◌∙◌, ◌∷◌, ◌≡◌,
}
use baleforgit.Core.{Bytes, Text, eq_bytes}
use baleforgit.Gc.{
  Entry, Git, Walk, add_wanted, all_found, consider_blob, consider_entries, insert_live, pointer_at,
  walk_commits,
}
use baleforgit.Gc.Sets.{NoRepeat, Within, all_of-NoRepeat}
use baleforgit.Meta.Hashes.{is_in}
use baleforgit.Table.{eq_bytes_refl, eq_bytes_sound}

module _ (git : Git) (want : List Text) where
  -- A wanted hash that the blob names is live.
  abbrev pub Covers : Walk → Bytes → Type 0
  Covers w oid =
      (h : Text) → pointer_at git oid ≡ some h → is_in h want ≡ true → is_in h w.live ≡ true

  abbrev pub Seen : Walk → Type 0
  Seen w = (oid : Bytes) → is_in oid w.seen_blobs ≡ true → Covers w oid

  -- The live hashes are different and wanted, and those of the seen blobs are among them.
  pub record Good (w : Walk) : Type 0 where
    pub distinct : NoRepeat w.live
    pub wanted : Within w.live want
    pub seen : Seen w

  abbrev pub More : Walk → Walk → Type 0
  More w w' = (h : Text) → is_in h w.live ≡ true → is_in h w'.live ≡ true

  -- What `add_wanted` does to the live hashes.
  record Added (found : Option Text) (live live' : List Text) : Type 0 where
    distinct : NoRepeat live'
    wanted : Within live' want
    more : (h : Text) → is_in h live ≡ true → is_in h live' ≡ true
    has : (h : Text) → found ≡ some h → is_in h want ≡ true → is_in h live' ≡ true

  add_wanted-Added :
      (found : Option Text) (live : List Text)
      → NoRepeat live
      → Within live want
      → Added found live (add_wanted want found live)
  unfolding insert_live is_in
  add_wanted-Added none live n v = record {
    distinct = n;
    wanted = v;
    more = λ h e. e;
    has = λ h e k. absurd (cc e);
  }
  add_wanted-Added (some f) live n v = elim (Bool-cases (is_in f want)) [
    | inr foreign ↦ rw foreign (record {
      distinct = n;
      wanted = v;
      more = λ h e. e;
      has = λ h e k.
          let same : f ≡ h = cc e in
          let p : is_in f want ≡ true = subst (λ t. is_in t want ≡ true) (sym same) k in
          let q : true ≡ false = sym p ∙ foreign in absurd (cc q);
    })
    | inl own ↦ elim (Bool-cases (is_in f live)) [
      | inl there ↦
          rw (own, there)
            (record {
              distinct = n;
              wanted = v;
              more = λ h e. e;
              has = λ h e k. let same : f ≡ h = cc e in subst (λ t. is_in t live ≡ true) same there;
            })
      | inr absent ↦
          rw (own, absent)
            (record {
              distinct = (absent, n);
              wanted = (own, v);
              more = λ h e. rw (e, is_in) (either (eq_bytes h f));
              has = λ h e k. let same : f ≡ h = cc e in rw (same, eq_bytes_refl h) refl;
            })
    ]
  ]
    where
      either : (a : Bool) → (a || true) ≡ true
      either true = refl
      either false = refl

  record Stepped (w w' : Walk) (oid : Bytes) : Type 0 where
    good : Good w'
    more : More w w'
    covers : Covers w' oid

  consider_blob-Stepped :
      (oid : Bytes) (w : Walk) → Good w → Stepped w (consider_blob git want oid w) oid
  unfolding consider_blob is_in
  consider_blob-Stepped oid w v = elim (Bool-cases (is_in oid w.seen_blobs)) [
    | inl e ↦ rw (e, consider_blob) (record { good = v; more = λ h k. k; covers = v.seen oid e })
    | inr e ↦
        let a : Added (pointer_at git oid) w.live (add_wanted want (pointer_at git oid) w.live) =
          add_wanted-Added (pointer_at git oid) w.live v.distinct v.wanted in
        rw (e, consider_blob)
          (record {
            good = record {
              distinct = a.distinct;
              wanted = a.wanted;
              seen = λ o s h p k. elim (Bool-cases (eq_bytes o oid)) [
                | inl same ↦
                    let q : o ≡ oid = eq_bytes_sound o oid same in
                    a.has h (ap (pointer_at git) (sym q) ∙ p) k
                | inr other ↦
                    let s' : is_in o w.seen_blobs ≡ true = rw other at s in
                    a.more h (v.seen o s' h p k)
              ];
            };
            more = a.more;
            covers = a.has;
          })
  ]

  -- Where all is found, all is covered.
  pub found_all : (w : Walk) (oid : Bytes) → Good w → all_found git want w ≡ true → Covers w oid
  found_all w oid v e h p k =
      all_of-NoRepeat w.live want h v.distinct v.wanted ((==_iff (length w.live) (length want)).0 e)
        k

  -- The files of these entries are covered.
  abbrev pub AllCovered : Walk → List Entry → Type 0
  AllCovered w es = All (λ e. e.is_file ≡ true → Covers w e.oid) es

  all_covered : (w : Walk) (es : List Entry) → ((oid : Bytes) → Covers w oid) → AllCovered w es
  all_covered w [] h = tt
  all_covered w (e ∷ es) h = (λ f. h e.oid, all_covered w es h)

  pub record Walked (w w' : Walk) (es : List Entry) : Type 0 where
    pub good : Good w'
    pub more : More w w'
    pub covers : AllCovered w' es

  pub consider_entries-Walked :
      (es : List Entry) (w : Walk) → Good w → Walked w (consider_entries git want es w) es
  unfolding consider_entries
  consider_entries-Walked [] w v = record { good = v; more = λ h k. k; covers = tt }
  consider_entries-Walked (e ∷ es) w v = elim (Bool-cases e.is_file) [
    | inr skip ↦
        let r = consider_entries-Walked es w v in
        rw (skip, consider_entries)
          (record { good = r.good; more = r.more; covers = (λ f. absurd (cc f), r.covers) })
    | inl file ↦
        let w₁ : Walk = consider_blob git want e.oid w in
        let s : Stepped w w₁ e.oid = consider_blob-Stepped e.oid w v in
        elim (Bool-cases (all_found git want w₁)) [
          | inl full ↦
              let all : (oid : Bytes) → Covers w₁ oid = λ oid. found_all w₁ oid s.good full in
              rw (file, full, consider_entries)
                (record {
                  good = s.good;
                  more = s.more;
                  covers = (λ f. all e.oid, all_covered w₁ es all);
                })
          | inr go_on ↦
              let r : Walked w₁ (consider_entries git want es w₁) es =
                consider_entries-Walked es w₁ s.good in
              rw (file, go_on, consider_entries)
                (record {
                  good = r.good;
                  more = λ h k. r.more h (s.more h k);
                  covers = (λ f h p k. r.more h (s.covers h p k), r.covers);
                })
        ]
  ]

  pub AllCovered-More :
      (w w' : Walk) (es : List Entry) → More w w' → AllCovered w es → AllCovered w' es
  AllCovered-More w w' [] m h = tt
  AllCovered-More w w' (e ∷ es) m h = (λ f t p k. m t (h.0 f t p k), AllCovered-More w w' es m h.1)

  pub record Found (w w' : Walk) (cs : List (Option (List Entry))) : Type 0 where
    pub good : Good w'
    pub more : More w w'
    pub covers : (i : ℕ) (es : List Entry) → get_elem? cs i ≡ some (some es) → AllCovered w' es

  pub walk_commits-Found :
      (cs : List (Option (List Entry))) (w : Walk)
      → Good w
      → Found w (walk_commits git want cs w) cs
  unfolding walk_commits
  walk_commits-Found [] w v = record { good = v; more = λ h k. k; covers = λ i es e. absurd (cc e) }
  walk_commits-Found (none ∷ cs) w v =
      let r = walk_commits-Found cs w v in
      record { good = r.good; more = r.more; covers = λ i es e. later i es e r.covers }
    where
      later :
          (i : ℕ) (es : List Entry)
          → get_elem? (none ∷ cs) i ≡ some (some es)
          → ((i : ℕ) (es : List Entry)
              → get_elem? cs i ≡ some (some es)
              → AllCovered (walk_commits git want cs w) es)
          → AllCovered (walk_commits git want cs w) es
      later zero es e k = absurd (cc e)
      later (suc i) es e k = k i es e
  walk_commits-Found (some es ∷ cs) w v =
      let w₁ : Walk = consider_entries git want es w in
      let s : Walked w w₁ es = consider_entries-Walked es w v in
      elim (Bool-cases (all_found git want w₁)) [
        | inl full ↦
            rw (full, walk_commits)
              (record {
                good = s.good;
                more = s.more;
                covers = λ i es' e. all_covered w₁ es' (λ oid. found_all w₁ oid s.good full);
              })
        | inr go_on ↦
            let r : Found w₁ (walk_commits git want cs w₁) cs = walk_commits-Found cs w₁ s.good in
            rw (go_on, walk_commits)
              (record {
                good = r.good;
                more = λ h k. r.more h (s.more h k);
                covers = λ i es' e.
                    within w₁ i es' e r.covers
                      (AllCovered-More w₁ (walk_commits git want cs w₁) es r.more s.covers);
              })
      ]
    where
      within :
          (w₁ : Walk) (i : ℕ) (es' : List Entry)
          → get_elem? (some es ∷ cs) i ≡ some (some es')
          → ((i : ℕ) (es : List Entry)
              → get_elem? cs i ≡ some (some es)
              → AllCovered (walk_commits git want cs w₁) es)
          → AllCovered (walk_commits git want cs w₁) es
          → AllCovered (walk_commits git want cs w₁) es'
      within w₁ zero es' e k h =
          let same : es ≡ es' = cc e in
          subst (λ l. AllCovered (walk_commits git want cs w₁) l) same h
      within w₁ (suc i) es' e k h = k i es' e
