-- ===== src/Tests/Gcs.antt =====
-- crates/git-bale/src/gc.rs on two staged files: one is in the index, the other is abandoned.
use baleforgit.Prelude.{
  Bool, Option, [], ap, false, inl, none, refl, replicate, some, true, ◌==◌, ◌∷◌, ◌≡◌, ◌≢◌,
}
use baleforgit.Core.{Bytes, Text}
use baleforgit.Filter.Pointer.{pointer_sentinel}
use baleforgit.Gc.{GcConfig, Git, Staging, is_64_lower_hex, list_staged_files, pointer_at}
use baleforgit.Gc.Kept.{Kept, reconcile-Kept}
use baleforgit.Gc.Named.{in_index}
use baleforgit.Gc.Reclaimed.{reconcile-reclaims}
use baleforgit.Gc.Reconcile.{age_exceeds, marker_mtime, reconcile}
use baleforgit.Meta.Hashes.{is_in}

abbrev in_use : Text
in_use = replicate 64 b'1'

abbrev abandoned : Text
abandoned = replicate 64 b'2'

abbrev sample_git : Git
sample_git = record {
  index = record { is_file = true; oid = 7 ∷ [] } ∷ [];
  local_tips = [];
  remote_tips = [];
  rev_walk = λ tips hidden. some [];
  find_blob = λ oid. some pointer_sentinel;
  from_json = λ text. some (record { hash = in_use; file_size = some 3 });
  git_op_in_flight = false;
}

abbrev cfg : GcConfig
cfg = record { local_mode = false; local_shared = false; locked = false; grace = 600; now = 1000 }

abbrev staging : Staging
staging = record {
  markers = (in_use, 0) ∷ (abandoned, 0) ∷ [];
  objects = [];
  clean_cache = (b'k' ∷ [], some abandoned) ∷ [];
}

in_use_hex : is_64_lower_hex in_use ≡ true
unfolding is_64_lower_hex
in_use_hex = refl

in_use_there : marker_mtime in_use staging.markers ≡ some 0
unfolding marker_mtime
in_use_there = refl

names_in_use : pointer_at sample_git (7 ∷ []) ≡ some in_use
unfolding pointer_at
names_in_use = refl

reconcile-Kept_example : Kept in_use 0 staging (reconcile cfg sample_git staging)
reconcile-Kept_example =
    reconcile-Kept cfg sample_git staging in_use 0 [] in_use_hex in_use_there refl refl
      (inl (in_index 0 (record { is_file = true; oid = 7 ∷ [] }) refl refl names_in_use))

abandoned_staged : is_in abandoned (list_staged_files staging.markers) ≡ true
unfolding is_in list_staged_files
abandoned_staged = refl

abbrev first_is_one : Option Text → Bool
first_is_one none = false
first_is_one (some []) = false
first_is_one (some (c ∷ s)) = c == b'1'

nothing_names : (oid : Bytes) → pointer_at sample_git oid ≢ some abandoned
unfolding pointer_at
nothing_names oid = λ p. let q : true ≡ false = ap first_is_one p in absurd (cc q)

abandoned_old : age_exceeds cfg.grace cfg.now (marker_mtime abandoned staging.markers) ≡ true
unfolding marker_mtime
abandoned_old = refl

reconcile-reclaims_example :
    marker_mtime abandoned (reconcile cfg sample_git staging).markers ≡ none
reconcile-reclaims_example =
    reconcile-reclaims cfg sample_git staging abandoned refl abandoned_staged nothing_names
      abandoned_old
