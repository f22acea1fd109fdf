-- ===== src/Shard/Swap.antt =====
-- The byte order of stored SHA-256 hashes.
use baleforgit.Prelude.{
  List, [], arith, drop, drop-append, length, length-append, length-drop, length-reverse,
  length-take, refl, reverse, subst, suc, take, take-append, take-append-drop, zero, ℕ, ◌*◌, ◌++◌,
  ◌∙◌, ◌∷◌, ◌≡◌, ◌≤◌,
}
use baleforgit.Core.{Hash32}
use baleforgit.Shard.{swap_groups, swap_u64_groups}
use baleforgit.Shard.Canonical.{Has32}
use mathlib.Core.List.{reverse-reverse}

swap_front :
    (h rest : List ℕ)
    → 8 ≤ length h
    → (take 8 (reverse (take 8 h) ++ rest) ≡ reverse (take 8 h))
      × (drop 8 (reverse (take 8 h) ++ rest) ≡ rest)
swap_front h rest e =
    let size : length (reverse (take 8 h)) ≡ 8 =
      length-reverse (take 8 h) ∙ omega (arith, length-take 8 h) in
    (
      subst (λ (n : ℕ). take n (reverse (take 8 h) ++ rest) ≡ reverse (take 8 h)) size
          (take-append (reverse (take 8 h)) rest),
      subst (λ (n : ℕ). drop n (reverse (take 8 h) ++ rest) ≡ rest) size
          (drop-append (reverse (take 8 h)) rest),
    )

swap_groups-swap_groups :
    (n : ℕ) (h : Hash32) → length h ≡ 8 * n → swap_groups n (swap_groups n h) ≡ h
unfolding swap_groups
swap_groups-swap_groups zero [] e = refl
swap_groups-swap_groups zero (x ∷ h) e = absurd (omega arith)
swap_groups-swap_groups (suc n) h e =
    let (front, back) = swap_front h (swap_groups n (drop 8 h)) (omega arith) in
    rw
      (
        front,
        back,
        reverse-reverse,
        swap_groups-swap_groups n (drop 8 h) (omega (arith, length-drop 8 h)),
      )
      (take-append-drop 8 h)

length-swap_groups : (n : ℕ) (h : Hash32) → length h ≡ 8 * n → length (swap_groups n h) ≡ 8 * n
unfolding swap_groups
length-swap_groups zero h e = omega arith
length-swap_groups (suc n) h e = omega (
  arith,
  length-append (reverse (take 8 h)) (swap_groups n (drop 8 h)),
  length-reverse (take 8 h),
  length-take 8 h,
  length-drop 8 h,
  length-swap_groups n (drop 8 h) (omega (arith, length-drop 8 h)),
)

-- On a hash of 32 bytes the swap is its own inverse.
pub swap_u64_groups-swap_u64_groups :
    (h : Hash32) → Has32 h → swap_u64_groups (swap_u64_groups h) ≡ h
unfolding swap_u64_groups
swap_u64_groups-swap_u64_groups h e = swap_groups-swap_groups 4 h e

pub length-swap_u64_groups : (h : Hash32) → Has32 h → Has32 (swap_u64_groups h)
unfolding swap_u64_groups
length-swap_u64_groups h e = length-swap_groups 4 h e
