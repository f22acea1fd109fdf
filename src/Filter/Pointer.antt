-- ===== src/Filter/Pointer.antt =====
-- crates/git-bale/src/pointer.rs: the pointer file.
use baleforgit.Prelude.{
  Bool, List, Option, Result, [], drop, ensure, err, false, if◌then◌else◌, leb, length, ltb, map,
  min, none, ok, reverse, some, suc, take, true, zero, ℕ, ◌&&◌, ◌++◌, ◌==◌, ◌>>◌, ◌||◌, ◌∷◌,
}
use baleforgit.Core.{Bytes, Text}
use baleforgit.Filter.{Xet, XetFileInfo}
use baleforgit.Prelude.Utf8.{is_utf8}

abbrev pub pointer_max_bytes : ℕ
pointer_max_bytes = 4096

-- The text "hash" with its quotes.
abbrev pub pointer_sentinel : Text
pointer_sentinel = b'"' ∷ b'h' ∷ b'a' ∷ b's' ∷ b'h' ∷ b'"' ∷ []

pub data PointerError : Type 0 where
  too_large not_a_pointer json : PointerError

unfoldable pub starts_with : Bytes → Bytes → Bool
starts_with [] s = true
starts_with (p ∷ ps) [] = false
starts_with (p ∷ ps) (c ∷ s) = p == c && starts_with ps s

-- `contains`, and `windows(n).any(…)`
unfoldable pub contains : Bytes → Bytes → Bool
unfolding starts_with
contains p [] = starts_with p []
contains p (c ∷ s) = starts_with p (c ∷ s) || contains p s

-- The encodings of the characters that are white space in Unicode.
abbrev pub white_space : List Bytes
white_space =
    (0x09 ∷ [])
    ∷ (0x0a ∷ [])
    ∷ (0x0b ∷ [])
    ∷ (0x0c ∷ [])
    ∷ (0x0d ∷ [])
    ∷ (0x20 ∷ [])
    ∷ (0xc2 ∷ 0x85 ∷ [])
    ∷ (0xc2 ∷ 0xa0 ∷ [])
    ∷ (0xe1 ∷ 0x9a ∷ 0x80 ∷ [])
    ∷ (0xe2 ∷ 0x80 ∷ 0x80 ∷ [])
    ∷ (0xe2 ∷ 0x80 ∷ 0x81 ∷ [])
    ∷ (0xe2 ∷ 0x80 ∷ 0x82 ∷ [])
    ∷ (0xe2 ∷ 0x80 ∷ 0x83 ∷ [])
    ∷ (0xe2 ∷ 0x80 ∷ 0x84 ∷ [])
    ∷ (0xe2 ∷ 0x80 ∷ 0x85 ∷ [])
    ∷ (0xe2 ∷ 0x80 ∷ 0x86 ∷ [])
    ∷ (0xe2 ∷ 0x80 ∷ 0x87 ∷ [])
    ∷ (0xe2 ∷ 0x80 ∷ 0x88 ∷ [])
    ∷ (0xe2 ∷ 0x80 ∷ 0x89 ∷ [])
    ∷ (0xe2 ∷ 0x80 ∷ 0x8a ∷ [])
    ∷ (0xe2 ∷ 0x80 ∷ 0xa8 ∷ [])
    ∷ (0xe2 ∷ 0x80 ∷ 0xa9 ∷ [])
    ∷ (0xe2 ∷ 0x80 ∷ 0xaf ∷ [])
    ∷ (0xe2 ∷ 0x81 ∷ 0x9f ∷ [])
    ∷ (0xe3 ∷ 0x80 ∷ 0x80 ∷ [])
    ∷ []

abbrev pub any_length : List Bytes → Bytes → ℕ
unfolding starts_with
any_length [] s = 0
any_length (p ∷ ps) s = let rest = any_length ps s in if starts_with p s then length p else rest

unfoldable pub trim_while : ℕ → List Bytes → Bytes → Bytes
unfolding starts_with
trim_while zero spaces s = s
trim_while (suc fuel) spaces s =
    let n = any_length spaces s in
    let rest = trim_while fuel spaces (drop n s) in if n == 0 then s else rest

-- `str::trim`; a round takes a byte at least.
unfoldable pub trim : Text → Text
unfolding trim_while
trim s =
    let s' = trim_while (length s) white_space s in
    reverse (trim_while (length s') (map (λ p. reverse p) white_space) (reverse s'))

abbrev pub parsed_json : Option XetFileInfo → Result PointerError XetFileInfo
parsed_json none = err json
parsed_json (some info) = ok info

unfoldable pub looks_like_pointer : Bytes → Bool
unfolding contains
looks_like_pointer bytes =
    if ltb pointer_max_bytes (length bytes)
    then false
    else contains pointer_sentinel (take (min (length bytes) 64) bytes)

unfoldable pub encode_pointer_string : {Objects : Type 0} → Xet Objects → XetFileInfo → Text
encode_pointer_string xet info = xet.to_json info ++ 10 ∷ []

-- By `serde_json::from_str`.
unfoldable pub parse_pointer : (Text → Option XetFileInfo) → Bytes → Result PointerError XetFileInfo
unfolding is_utf8 contains trim
parse_pointer from_json bytes = do
  ensure (leb (length bytes) pointer_max_bytes) too_large
  ensure (is_utf8 bytes && contains pointer_sentinel bytes) not_a_pointer
  parsed_json (from_json (trim bytes))
