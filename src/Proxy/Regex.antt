-- ===== src/Proxy/Regex.antt =====
-- The regular expressions that internal/proxy/classifier.go hands to package regexp, on bytes, with
-- the preferences of its leftmost-first search.
use opencode_proxy.Base.{
  ℕ, zero, suc, ◌-◌, Bool, true, false, ◌||◌, ◌&&◌, List, [], ◌∷◌, ◌++◌, ltb, leb, ◌==◌,
  if◌then◌else◌, length, take, String, code,
}
use opencode_proxy.Text.{Text}

pub data Regex : Type 0 where
  empty : Regex
  one : (ℕ → Bool) → Regex
  seq : Regex → Regex → Regex
  alt : Regex → Regex → Regex
  many : Regex → Regex

abbrev append_each : (Text → List Text) → List Text → List Text
append_each f [] = []
append_each f (s ∷ ss) = f s ++ append_each f ss

-- Greedy repetition; an iteration that consumes nothing is not repeated, so that the length of the
-- text bounds the iterations.
many_rests : ℕ → (Text → List Text) → Text → List Text
many_rests zero f s = s ∷ []
many_rests (suc n) f s =
    append_each (λ r. if ltb (length r) (length s) then many_rests n f r else []) (f s) ++ s ∷ []

-- What can remain behind a match at the start of a text, the preferred match first.
unfoldable pub rests : Regex → Text → List Text
unfolding many_rests
rests empty s = s ∷ []
rests (one p) [] = []
rests (one p) (c ∷ s) = if p c then s ∷ [] else []
rests (seq a b) s = append_each (rests b) (rests a s)
rests (alt a b) s = rests a s ++ rests b s
rests (many a) s = many_rests (length s) (rests a) s

abbrev pub is_match : List Text → Bool
is_match [] = false
is_match (r ∷ rs) = true

-- `MatchString`: a match somewhere.
unfoldable pub match_string : Regex → Text → Bool
unfolding rests
match_string r [] = is_match (rests r [])
match_string r (c ∷ s) =
    let later = match_string r s in if is_match (rests r (c ∷ s)) then true else later

-- The text in front of a rest.
abbrev pub consumed : Text → Text → Text
consumed s rest = take (length s - length rest) s

abbrev pub byte : ℕ → Regex
byte c = one (λ d. d == c)

abbrev pub optional : Regex → Regex
optional r = alt r empty

abbrev pub some_of : Regex → Regex
some_of r = seq r (many r)

-- `\s` and `\d`.
abbrev pub space : Regex
space = one (λ c. c == 32 || c == 9 || c == 10 || c == 12 || c == 13)

abbrev pub digit : Regex
digit = one (λ c. leb b'0' c && leb c b'9')

-- A letter under `(?i)`; the letters k and s fold with a character outside ASCII too.
abbrev pub letter : ℕ → Regex
letter c =
    let plain = one (λ d. d == c || leb b'a' c && leb c b'z' && d == c - 32) in
    if c == b'k'
    then alt plain (seq (byte 0xe2) (seq (byte 0x84) (byte 0xaa)))
    else if c == b's'
    then alt plain (seq (byte 0xc5) (byte 0xbf))
    else plain

-- A literal under `(?i)`, given in lower case.
abbrev pub word : String → Regex
word String.[] = empty
word (String.◌∷◌ c s) = seq (letter (code c)) (word s)
