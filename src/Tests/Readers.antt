-- ===== src/Tests/Readers.antt =====
-- `BaleLru` of crates/git-bale/src/mount/reader.rs with a budget of five bytes.
use baleforgit.Prelude.{[], arith, none, refl, some, ◌∷◌, ◌≡◌}
use baleforgit.Core.{Bytes, Text}
use baleforgit.Reader.{BaleLru, get_cached, new_lru, put_cached}
use baleforgit.Reader.Cached.{Uses, added, get_cached-Uses, looked, unused}
use baleforgit.Reader.Evicted.{IsCache}
use baleforgit.Table.{get}

abbrev a_key : Text
a_key = b'a' ∷ []

abbrev b_key : Text
b_key = b'b' ∷ []

abbrev c_key : Text
c_key = b'c' ∷ []

abbrev three : Bytes
three = 1 ∷ 2 ∷ 3 ∷ []

abbrev two : Bytes
two = 4 ∷ 5 ∷ []

abbrev with_a : BaleLru
unfolding put_cached
with_a = put_cached a_key three (new_lru 5)

abbrev with_b : BaleLru
unfolding put_cached
with_b = put_cached b_key two with_a

abbrev looked_at : BaleLru
unfolding put_cached get_cached
looked_at = (get_cached a_key with_b).1

-- the blob that was looked at last stays
abbrev full : BaleLru
unfolding put_cached get_cached
full = put_cached c_key two looked_at

full_lem : full ≡ record {
  map = (a_key, three) ∷ (c_key, two) ∷ [];
  order = a_key ∷ c_key ∷ [];
  bytes_used = 5;
  budget = 5;
}
unfolding full
full_lem = refl

full-Uses : Uses (new_lru 5) full
unfolding full looked_at with_b with_a put_cached get_cached get
full-Uses = added c_key two (new_lru 5) looked_at refl (
    looked a_key (new_lru 5) with_b (
      added b_key two (new_lru 5) with_a refl
        (added a_key three (new_lru 5) (new_lru 5) refl (unused (new_lru 5)))))

full-b : get b_key full.map ≡ none
unfolding full looked_at with_b with_a put_cached get_cached get
full-b = refl

get_cached-Uses_example :
    IsCache full × (full.budget ≡ 5) × ((get_cached b_key (put_cached b_key two full)).0 ≡ some two)
get_cached-Uses_example = get_cached-Uses 5 full b_key two full-Uses full-b (omega arith)
