-- ===== src/Text/Paths.antt =====
-- `Clean` and `Join` of package path/filepath on Unix.
pub mod Names
use opencode_proxy.Base.{
  ℕ, ◌≡◌, Bool, true, false, ◌&&◌, ◌||◌, not, List, [], ◌∷◌, ◌++◌, ◌==◌, if◌then◌else◌,
}
use opencode_proxy.Text.Core.{Text, codes, text_eq}
use opencode_proxy.Text.Search.{Lacks, split, join}

abbrev pub slash : ℕ
slash = b'/'

unfoldable pub drop_last : List Text → List Text
drop_last [] = []
drop_last (s ∷ []) = []
drop_last (s ∷ t ∷ ss) = s ∷ drop_last (t ∷ ss)

-- Whether the last part leads upwards, or there is none.
unfoldable pub ends_above : List Text → Bool
unfolding text_eq
ends_above [] = true
ends_above (s ∷ []) = text_eq s (codes "..")
ends_above (s ∷ t ∷ ss) = ends_above (t ∷ ss)

-- A part that leads upwards: at the root it is dropped, and before any other part it stays.
abbrev pub go_up : Bool → List Text → List Text
go_up rooted parts =
    if not rooted && ends_above parts then parts ++ codes ".." ∷ [] else drop_last parts

unfoldable pub push_part : Bool → List Text → Text → List Text
unfolding drop_last ends_above text_eq
push_part rooted parts s =
    if text_eq s [] || text_eq s (codes ".")
    then parts
    else if text_eq s (codes "..")
    then go_up rooted parts
    else parts ++ s ∷ []

unfoldable pub push_parts : Bool → List Text → List Text → List Text
unfolding push_part
push_parts rooted parts [] = parts
push_parts rooted parts (s ∷ ss) = push_parts rooted (push_part rooted parts s) ss

abbrev pub is_rooted : Text → Bool
is_rooted [] = false
is_rooted (c ∷ s) = c == slash

-- The parts of the cleaned path.
unfoldable pub parts_of : Text → List Text
unfolding push_parts split
parts_of p = push_parts (is_rooted p) [] (split slash p)

unfoldable pub render : Bool → List Text → Text
unfolding join
render true parts = slash ∷ join (slash ∷ []) parts
render false [] = codes "."
render false (s ∷ ss) = join (slash ∷ []) (s ∷ ss)

unfoldable pub clean : Text → Text
unfolding render parts_of
clean p = render (is_rooted p) (parts_of p)

-- `Join` of two elements, of which empty ones are left out.
unfoldable pub join_path : Text → Text → Text
unfolding clean
join_path [] [] = []
join_path [] (d ∷ b) = clean (d ∷ b)
join_path (c ∷ a) [] = clean (c ∷ a)
join_path (c ∷ a) (d ∷ b) = clean ((c ∷ a) ++ slash ∷ d ∷ b)

-- A part that is the name of something in its directory.
abbrev pub is_name : Text → Bool
is_name s = not (text_eq s [] || text_eq s (codes ".")) && not (text_eq s (codes ".."))

abbrev pub IsName : Text → Type 0
IsName s = (is_name s ≡ true) × Lacks slash s
