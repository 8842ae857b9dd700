-- ===== src/Text/Trim.antt =====
-- `strings.TrimSpace`, and `truncate` of internal/store/sqlite.go.
use mathlib.Core.List.{reverse}
use opencode_proxy.Base.{
  ℕ, ◌≤◌, Bool, ◌&&◌, ◌||◌, [], ◌∷◌, arith, ltb, leb, ◌==◌, if◌then◌else◌, length, take,
  length-take-le,
}
use opencode_proxy.Text.Core.{Text}

is_ascii_space : ℕ → Bool
is_ascii_space c = c == 32 || leb 9 c && leb c 13

-- The white space outside ASCII, as its bytes: U+0085, U+00A0; U+1680, U+2000 to U+200A, U+2028,
-- U+2029, U+202F, U+205F, U+3000.
is_space_pair : ℕ → ℕ → Bool
is_space_pair a b = a == 0xc2 && (b == 0x85 || b == 0xa0)

is_space_triple : ℕ → ℕ → ℕ → Bool
is_space_triple a b c =
    a == 0xe1 && b == 0x9a && c == 0x80
    || a == 0xe2 && b == 0x80 && (leb 0x80 c && leb c 0x8a || c == 0xa8 || c == 0xa9 || c == 0xaf)
    || a == 0xe2 && b == 0x81 && c == 0x9f
    || a == 0xe3 && b == 0x80 && c == 0x80

-- `TrimLeft` by white space, one character at a time.
unfoldable pub trim_left : Text → Text
unfolding is_ascii_space is_space_pair is_space_triple
trim_left [] = []
trim_left (a ∷ []) = if is_ascii_space a then [] else a ∷ []
trim_left (a ∷ b ∷ []) =
    let one = trim_left (b ∷ []) in
    if is_ascii_space a then one else if is_space_pair a b then [] else a ∷ b ∷ []
trim_left (a ∷ b ∷ c ∷ s) =
    let one = trim_left (b ∷ c ∷ s) in
    let two = trim_left (c ∷ s) in
    let three = trim_left s in
    if is_ascii_space a
    then one
    else if is_space_pair a b
    then two
    else if is_space_triple a b c
    then three
    else a ∷ b ∷ c ∷ s

-- The same from the right, on the reversed text.
trim_left_reversed : Text → Text
unfolding is_ascii_space is_space_pair is_space_triple
trim_left_reversed [] = []
trim_left_reversed (a ∷ []) = if is_ascii_space a then [] else a ∷ []
trim_left_reversed (a ∷ b ∷ []) =
    let one = trim_left_reversed (b ∷ []) in
    if is_ascii_space a then one else if is_space_pair b a then [] else a ∷ b ∷ []
trim_left_reversed (a ∷ b ∷ c ∷ s) =
    let one = trim_left_reversed (b ∷ c ∷ s) in
    let two = trim_left_reversed (c ∷ s) in
    let three = trim_left_reversed s in
    if is_ascii_space a
    then one
    else if is_space_pair b a
    then two
    else if is_space_triple c b a
    then three
    else a ∷ b ∷ c ∷ s

unfoldable pub trim_space : Text → Text
unfolding trim_left trim_left_reversed
trim_space s = reverse (trim_left_reversed (reverse (trim_left s)))

-- `len` counts bytes, and `v[:n]` cuts at a byte.
unfoldable pub truncate : Text → ℕ → Text
unfolding trim_space
truncate v n = let t = trim_space v in if ltb n (length t) then take n t else t

pub length-truncate : (v : Text) (n : ℕ) → length (truncate v n) ≤ n
unfolding truncate
length-truncate v n = ground (arith, length-take-le n (trim_space v))
