-- ===== src/Prelude/Utf8.antt =====
-- The validity of UTF-8, as `str::from_utf8` checks it.
use baleforgit.Prelude.Tests.{if◌then◌else◌, leb, ltb, ◌==◌}
use Prim.Native.Nat.{ℕ, ◌-◌}
use mathlib.Core.Bool.{Bool, false, true, ◌&&◌}
use mathlib.Core.List.{List, [], ◌∷◌}

-- Between characters; in one that wants `n` more bytes, the next of them from `lo` to `hi`; refused.
pub data State : Type 0 where
  start : State
  more : ℕ → ℕ → ℕ → State
  bad : State

first_byte : ℕ → State
first_byte b =
    if ltb b 0x80
    then start
    else if leb 0xc2 b && leb b 0xdf
    then more 1 0x80 0xbf
    else if b == 0xe0
    then more 2 0xa0 0xbf
    else if b == 0xed
    then more 2 0x80 0x9f
    else if leb 0xe1 b && leb b 0xef
    then more 2 0x80 0xbf
    else if b == 0xf0
    then more 3 0x90 0xbf
    else if leb 0xf1 b && leb b 0xf3
    then more 3 0x80 0xbf
    else if b == 0xf4
    then more 3 0x80 0x8f
    else bad

step : State → ℕ → State
unfolding first_byte
step start b = first_byte b
step (more n lo hi) b =
    if leb lo b && leb b hi then if n == 1 then start else more (n - 1) 0x80 0xbf else bad
step bad b = bad

at_boundary : State → Bool
at_boundary start = true
at_boundary (more n lo hi) = false
at_boundary bad = false

run : State → List ℕ → State
unfolding step
run s [] = s
run s (b ∷ bs) = run (step s b) bs

unfoldable pub is_utf8 : List ℕ → Bool
unfolding run at_boundary
is_utf8 bs = at_boundary (run start bs)
