-- ===== src/Gc/Reclaimed.antt =====
-- What `reconcile` gives up.
use baleforgit.Prelude.{
  Bool-cases, List, Option, [], ap, false, if-both, inl, inr, none, not, refl, some, subst, sym,
  true, ℕ, ◌&&◌, ◌++◌, ◌||◌, ◌∙◌, ◌∷◌, ◌≡◌, ◌≢◌,
}
use baleforgit.Core.{Bytes, Text, eq_bytes}
use baleforgit.Gc.{
  Entry, GcConfig, Git, Staging, Walk, add_wanted, all_found, consider_blob, consider_entries,
  from_walk, insert_live, list_staged_files, no_tips, pointer_at, reachable_hashes, walk_commits,
}
use baleforgit.Gc.Reconcile.{
  age_exceeds, dead_hashes, forget_hashes, live_hashes, marker_mtime, orphaned_hashes, reclaim,
  reconcile, remove_markers, swept,
}
use baleforgit.Meta.Hashes.{is_in}
use baleforgit.Table.{eq_bytes_sound}

module _ (git : Git) (want : List Text) (h : Text)
    (unnamed : (oid : Bytes) → pointer_at git oid ≢ some h) where
  abbrev NotLive : Walk → Type 0
  NotLive w = is_in h w.live ≡ false

  add_wanted-other :
      (found : Option Text) (live : List Text)
      → found ≢ some h
      → is_in h live ≡ false
      → is_in h (add_wanted want found live) ≡ false
  unfolding insert_live is_in
  add_wanted-other none live n v = v
  add_wanted-other (some f) live n v =
      let other : eq_bytes h f ≡ false = elim (Bool-cases (eq_bytes h f)) [
        | inl same ↦ absurd (n (ap (λ t. some t) (sym (eq_bytes_sound h f same))))
        | inr e ↦ e
      ] in
      if-both (λ l. is_in h l ≡ false) (is_in f want)
        (if-both (λ l. is_in h l ≡ false) (is_in f live) v (rw (other, is_in) v)) v

  consider_blob-NotLive :
      (oid : Bytes) (w : Walk) → NotLive w → NotLive (consider_blob git want oid w)
  unfolding consider_blob
  consider_blob-NotLive oid w v =
      if-both NotLive (is_in oid w.seen_blobs) v
        (add_wanted-other (pointer_at git oid) w.live (unnamed oid) v)

  consider_entries-NotLive :
      (es : List Entry) (w : Walk) → NotLive w → NotLive (consider_entries git want es w)
  unfolding consider_entries
  consider_entries-NotLive [] w v = v
  consider_entries-NotLive (e ∷ es) w v =
      let w' : Walk = consider_blob git want e.oid w in
      let v' : NotLive w' = consider_blob-NotLive e.oid w v in
      if-both NotLive e.is_file
        (if-both NotLive (all_found git want w') v' (consider_entries-NotLive es w' v'))
        (consider_entries-NotLive es w v)

  walk_commits-NotLive :
      (cs : List (Option (List Entry))) (w : Walk)
      → NotLive w
      → NotLive (walk_commits git want cs w)
  unfolding walk_commits
  walk_commits-NotLive [] w v = v
  walk_commits-NotLive (none ∷ cs) w v = walk_commits-NotLive cs w v
  walk_commits-NotLive (some es ∷ cs) w v =
      let w' : Walk = consider_entries git want es w in
      let v' : NotLive w' = consider_entries-NotLive es w v in
      if-both NotLive (all_found git want w') v' (walk_commits-NotLive cs w' v')

  from_walk-NotLive :
      (o : Option (List (Option (List Entry)))) (w : Walk)
      → NotLive w
      → is_in h (from_walk git want o w).live ≡ false
  unfolding from_walk
  from_walk-NotLive none w v = v
  from_walk-NotLive (some cs) w v = walk_commits-NotLive cs w v

  reachable_hashes-NotLive :
      (tips hidden : List Bytes) → is_in h (reachable_hashes git want tips hidden) ≡ false
  unfolding reachable_hashes is_in
  reachable_hashes-NotLive tips hidden =
      let w : Walk = consider_entries git want git.index (record { seen_blobs = []; live = [] }) in
      let v : NotLive w =
        consider_entries-NotLive git.index (record { seen_blobs = []; live = [] }) refl in
      if-both (λ l. is_in h l ≡ false) (all_found git want w || no_tips tips) v
        (from_walk-NotLive (git.rev_walk tips hidden) w v)

  pub live_hashes-NotLive : (cfg : GcConfig) → is_in h (live_hashes cfg git want) ≡ false
  unfolding live_hashes
  live_hashes-NotLive cfg =
      if-both (λ l. is_in h l ≡ false) cfg.local_mode
        (reachable_hashes-NotLive (git.local_tips ++ git.remote_tips) [])
        (reachable_hashes-NotLive git.local_tips git.remote_tips)

dead_hashes-dead :
    (cfg : GcConfig) (markers : List (Text × ℕ)) (live want : List Text) (h : Text)
    → is_in h want ≡ true
    → is_in h live ≡ false
    → age_exceeds cfg.grace cfg.now (marker_mtime h markers) ≡ true
    → is_in h (dead_hashes cfg markers live want) ≡ true
unfolding dead_hashes is_in
dead_hashes-dead cfg markers live [] h e n a = absurd (cc e)
dead_hashes-dead cfg markers live (x ∷ want) h e n a = elim (Bool-cases (eq_bytes h x)) [
  | inl same ↦
      let p : h ≡ x = eq_bytes_sound h x same in
      let dies : (not (is_in x live) && age_exceeds cfg.grace cfg.now (marker_mtime x markers))
          ≡ true =
        subst
          (λ k.
            (not (is_in k live) && age_exceeds cfg.grace cfg.now (marker_mtime k markers)) ≡ true)
          p (rw (n, a) refl) in
      rw (dies, dead_hashes) (rw (same, is_in) refl)
  | inr other ↦
      let e' : is_in h want ≡ true = rw other at e in
      let ih : is_in h (dead_hashes cfg markers live want) ≡ true =
        dead_hashes-dead cfg markers live want h e' n a in
      if-both (λ l. is_in h l ≡ true)
        (not (is_in x live) && age_exceeds cfg.grace cfg.now (marker_mtime x markers))
        (rw (other, is_in) ih) ih
]

marker_mtime-removed :
    (h : Text) (dead : List Text) (ms : List (Text × ℕ))
    → is_in h dead ≡ true
    → marker_mtime h (remove_markers dead ms) ≡ none
unfolding marker_mtime remove_markers
marker_mtime-removed h dead [] e = refl
marker_mtime-removed h dead (m ∷ ms) e = elim (Bool-cases (is_in m.0 dead)) [
  | inl gone ↦ rw (gone, remove_markers) (marker_mtime-removed h dead ms e)
  | inr stays ↦
      let other : eq_bytes h m.0 ≡ false = elim (Bool-cases (eq_bytes h m.0)) [
        | inl same ↦
            let p : h ≡ m.0 = eq_bytes_sound h m.0 same in
            let q : is_in m.0 dead ≡ true = subst (λ k. is_in k dead ≡ true) p e in
            let r : true ≡ false = sym q ∙ stays in absurd (cc r)
        | inr n ↦ n
      ] in
      rw (stays, remove_markers) (rw (other, marker_mtime) (marker_mtime-removed h dead ms e))
]

reclaim-removed :
    (cfg : GcConfig) (git : Git) (want dead : List Text) (st : Staging) (h : Text)
    → is_in h dead ≡ true
    → marker_mtime h (reclaim cfg git want dead st).markers ≡ none
unfolding reclaim is_in marker_mtime
reclaim-removed cfg git want [] st h e = absurd (cc e)
reclaim-removed cfg git want (d ∷ ds) st h e =
    left (list_staged_files (remove_markers (d ∷ ds) st.markers))
      (record st {
        markers = remove_markers (d ∷ ds) st.markers;
        clean_cache = forget_hashes (orphaned_hashes cfg git want (d ∷ ds)) st.clean_cache;
      })
      (marker_mtime-removed h (d ∷ ds) st.markers e)
  where
    left :
        (hs : List Text) (st' : Staging)
        → marker_mtime h st'.markers ≡ none
        → marker_mtime h (swept hs st').markers ≡ none
    left [] st' n = refl
    left (x ∷ hs) st' n = n

-- Where the guards let `reconcile` run, a staged file that no blob of the repository names, and whose
-- marker is older than the grace, loses its marker.
pub reconcile-reclaims :
    (cfg : GcConfig) (git : Git) (st : Staging) (h : Text)
    → ((cfg.local_mode && cfg.local_shared) || cfg.locked || git.git_op_in_flight) ≡ false
    → is_in h (list_staged_files st.markers) ≡ true
    → ((oid : Bytes) → pointer_at git oid ≢ some h)
    → age_exceeds cfg.grace cfg.now (marker_mtime h st.markers) ≡ true
    → marker_mtime h (reconcile cfg git st).markers ≡ none
unfolding reconcile
reconcile-reclaims cfg git st h runs staged unnamed old =
    let want : List Text = list_staged_files st.markers in
    let live : List Text = live_hashes cfg git want in
    rw (runs, reconcile)
      (reclaim-removed cfg git want (dead_hashes cfg st.markers live want) st h (
        dead_hashes-dead cfg st.markers live want h staged
          (live_hashes-NotLive git want h unnamed cfg) old))
