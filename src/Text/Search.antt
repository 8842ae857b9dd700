-- ===== src/Text/Search.antt =====
-- `strings.ToLower`, `Contains`, `Split` at a byte and `Join`.
use opencode_proxy.Base.{
  ℕ, zero, suc, ◌+◌, ◌/◌, ◌%◌, ◌≡◌, refl, ltb, Bool, true, false, ◌&&◌, All, arith, List, [], ◌∷◌,
  ◌++◌, leb, ◌==◌, if◌then◌else◌,
}
use opencode_proxy.Text.Core.{Text, codes, has_prefix}

lower_byte : ℕ → ℕ
lower_byte c = if leb b'A' c && leb c b'Z' then c + 32 else c

-- Letters outside ASCII are left alone, but for the two whose lower case is ASCII (U+0130, U+212A):
-- the source looks for ASCII words in the result, and does nothing else with it.
unfoldable pub to_lower : Text → Text
unfolding lower_byte
to_lower [] = []
to_lower (a ∷ []) = lower_byte a ∷ []
to_lower (a ∷ b ∷ []) =
    if a == 0xc4 && b == 0xb0 then b'i' ∷ [] else lower_byte a ∷ lower_byte b ∷ []
to_lower (a ∷ b ∷ c ∷ s) =
    let one = to_lower (b ∷ c ∷ s) in
    let two = to_lower (c ∷ s) in
    let three = to_lower s in
    if a == 0xc4 && b == 0xb0
    then b'i' ∷ two
    else if a == 0xe2 && b == 0x84 && c == 0xaa
    then b'k' ∷ three
    else lower_byte a ∷ one

unfoldable pub contains : Text → Text → Bool
unfolding has_prefix
contains [] word = has_prefix word []
contains (c ∷ s) word = let rest = contains s word in if has_prefix word (c ∷ s) then true else rest

unfoldable pub push_first : ℕ → List Text → List Text
push_first c [] = (c ∷ []) ∷ []
push_first c (part ∷ parts) = (c ∷ part) ∷ parts

unfoldable pub split : ℕ → Text → List Text
unfolding push_first
split sep [] = [] ∷ []
split sep (c ∷ s) = let rest = split sep s in if c == sep then [] ∷ rest else push_first c rest

-- No byte of the text is the separator.
abbrev pub Lacks : ℕ → Text → Type 0
Lacks sep s = All (λ c. (c == sep) ≡ false) s

-- The parts of a text that is put together from them.
pub split-append :
    (sep : ℕ) (part rest : Text)
    → Lacks sep part
    → split sep (part ++ sep ∷ rest) ≡ part ∷ split sep rest
unfolding split push_first
split-append sep [] rest h = ground arith
split-append sep (c ∷ part) rest h = rw (h.0, split-append sep part rest h.1) refl

pub split-whole : (sep : ℕ) (part : Text) → Lacks sep part → split sep part ≡ part ∷ []
unfolding split push_first
split-whole sep [] h = refl
split-whole sep (c ∷ part) h = rw (h.0, split-whole sep part h.1) refl

unfoldable pub join : Text → List Text → Text
join sep [] = []
join sep (part ∷ []) = part
join sep (part ∷ next ∷ rest) = part ++ (sep ++ join sep (next ∷ rest))

-- `%d` of a number: its decimal digits, of which an int64 has at most 19.
decimal_digits : ℕ → ℕ → Text → Text
decimal_digits zero n tail = tail
decimal_digits (suc f) n tail =
    let digits = (b'0' + n % 10) ∷ tail in
    let more = decimal_digits f (n / 10) digits in if ltb n 10 then digits else more

unfoldable pub format_decimal : ℕ → Text
unfolding decimal_digits
format_decimal n = decimal_digits 20 n []

format_sixty_four : format_decimal 67108864 ≡ codes "67108864"
unfolding format_decimal
format_sixty_four = refl
