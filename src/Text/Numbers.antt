-- ===== src/Text/Numbers.antt =====
-- The numbers that package strconv and package fmt read: Atoi and ParseInt, ParseUint, and `%d`.
use opencode_proxy.Base.{
  ℕ, zero, suc, ◌+◌, ◌-◌, ◌*◌, ◌^◌, Bool, ◌&&◌, ◌||◌, [], ◌∷◌, Option, none, some, leb, ◌==◌,
  if◌then◌else◌,
}
use opencode_proxy.Base.Int.{ℤ, pos, negsuc}
use opencode_proxy.Text.Core.{Text}

abbrev pub is_digit : ℕ → Bool
is_digit c = leb b'0' c && leb c b'9'

-- The number that a text of digits writes.
unfoldable pub decimal : ℕ → Text → Option ℕ
decimal n [] = some n
decimal n (c ∷ s) =
    let later = decimal (n * 10 + (c - b'0')) s in if is_digit c then later else none

abbrev pub digits_of : Text → Option ℕ
digits_of [] = none
digits_of (c ∷ s) = decimal 0 (c ∷ s)

abbrev pub in_range : ℕ → Option ℕ → Option ℕ
in_range limit none = none
in_range limit (some n) = if leb n limit then some n else none

abbrev pub as_positive : Option ℕ → Option ℤ
as_positive none = none
as_positive (some n) = some (pos n)

abbrev pub as_negative : Option ℕ → Option ℤ
as_negative none = none
as_negative (some zero) = some (pos 0)
as_negative (some (suc n)) = some (negsuc n)

abbrev pub signed : (Text → Option ℕ) → Text → Option ℤ
signed read [] = none
signed read (c ∷ s) =
    if c == b'-'
    then as_negative (in_range (2 ^ 63) (read s))
    else if c == b'+'
    then as_positive (in_range (2 ^ 63 - 1) (read s))
    else as_positive (in_range (2 ^ 63 - 1) (read (c ∷ s)))

-- `strconv.Atoi` and `strconv.ParseInt(s, 10, 64)`: a sign or none, digits, and the range of an int64.
unfoldable pub atoi : Text → Option ℤ
unfolding decimal
atoi s = signed digits_of s

abbrev at_most : ℕ → ℕ → ℕ
at_most limit n = if leb n limit then n else limit

abbrev clamped_positive : Option ℕ → ℤ
clamped_positive none = pos 0
clamped_positive (some n) = pos (at_most (2 ^ 63 - 1) n)

abbrev clamped_negative : Option ℕ → ℤ
clamped_negative none = pos 0
clamped_negative (some zero) = pos 0
clamped_negative (some (suc n)) = negsuc (at_most (2 ^ 63 - 1) n)

-- The number that Atoi and ParseInt return beside an error too: the nearest int64 for a number out of
-- range, and 0 for a text that is none.
unfoldable pub number_of : Text → ℤ
unfolding decimal
number_of [] = pos 0
number_of (c ∷ s) =
    if c == b'-'
    then clamped_negative (digits_of s)
    else if c == b'+'
    then clamped_positive (digits_of s)
    else clamped_positive (digits_of (c ∷ s))

-- `strconv.ParseUint(s, 10, bits)`.
unfoldable pub parse_uint : ℕ → Text → Option ℕ
unfolding decimal
parse_uint bits s = in_range (2 ^ bits - 1) (digits_of s)

-- The digits in front of a text, as a number; what follows them is not read.
unfoldable pub leading_decimal : ℕ → Text → ℕ
leading_decimal n [] = n
leading_decimal n (c ∷ s) =
    let later = leading_decimal (n * 10 + (c - b'0')) s in if is_digit c then later else n

abbrev leading_digits : Text → Option ℕ
leading_digits [] = none
leading_digits (c ∷ s) = if is_digit c then some (leading_decimal 0 (c ∷ s)) else none

-- White space but for the newline, at which a scan without newlines ends.
abbrev is_blank : ℕ → Bool
is_blank c = c == 32 || c == 9 || leb 11 c && leb c 13

skip_blanks : Text → Text
skip_blanks [] = []
skip_blanks (c ∷ s) = let later = skip_blanks s in if is_blank c then later else c ∷ s

-- `%d` of `fmt.Sscanf`, into an int.
unfoldable pub scan_decimal : Text → Option ℤ
unfolding leading_decimal skip_blanks
scan_decimal s = signed leading_digits (skip_blanks s)
