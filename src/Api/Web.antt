-- ===== src/Api/Web.antt =====
-- `webHandler` of internal/httpapi/api.go: the file of the console that a request is answered with. The
-- file system, package mime and http.ServeFile are parameters.
use opencode_proxy.Base.{
  ℕ, ◌≡◌, ◌≢◌, refl, ap, ◌∙◌, inl, inr, Bool, ◌||◌, Bool-cases, List, [], ◌∷◌, ◌++◌, All,
  if◌then◌else◌, arith,
}
use opencode_proxy.Text.{Text, codes, text_eq, trim_prefix, strip_prefix, join}
use opencode_proxy.Text.Paths.{slash, clean, join_path, is_rooted, parts_of, render, IsName}
use opencode_proxy.Text.Paths.Names.{join_path-names, parts_of-IsName}
use opencode_proxy.Proxy.World.{World, set_header}

-- `is_file` is whether Stat succeeds with no directory; `content_type` is TypeByExtension of Ext.
pub record Files : Type 0 where
  pub is_file : Text → Bool
  pub content_type : Text → Text
  pub serve_file : Text → World → World

-- The path of the request below the directory.
abbrev pub named_or_index : Text → Text
named_or_index path =
    if text_eq path (codes ".") || text_eq path [] then codes "index.html" else path

unfoldable pub web_path : Text → Text
unfolding clean trim_prefix text_eq
web_path url = named_or_index (trim_prefix (codes "/") (clean url))

unfoldable pub web_file : Files → Text → Text → Text
unfolding web_path join_path
web_file f root url =
    let full = join_path root (web_path url) in
    if f.is_file full then full else join_path root (codes "index.html")

abbrev pub with_content_type : Text → World → World
with_content_type [] w = w
with_content_type (c ∷ t) w = set_header (codes "Content-Type") (c ∷ t) w

unfoldable pub web_handler : Files → Text → Text → World → World
unfolding web_file set_header
web_handler f root url w =
    let full = web_file f root url in f.serve_file full (with_content_type (f.content_type full) w)

-- The text is a list of names with slashes between them.
abbrev pub IsNames : Text → Type 0
IsNames path =
    (s : Text) × (ss : List Text) × All IsName (s ∷ ss) × (path ≡ join (slash ∷ []) (s ∷ ss))

index-IsNames : IsNames (codes "index.html")
unfolding join text_eq
index-IsNames = (codes "index.html", [], ((refl, ground arith), tt), refl)

rooted-IsNames :
    (parts : List Text) → All IsName parts → IsNames (named_or_index (join (slash ∷ []) parts))
unfolding join text_eq
rooted-IsNames [] a = index-IsNames
rooted-IsNames (s ∷ ss) a =
    let path = join (slash ∷ []) (s ∷ ss) in
    elim (Bool-cases (text_eq path (codes ".") || text_eq path [])) [
      | inl bare ↦ rw bare index-IsNames
      | inr named ↦ rw named (s, ss, a, refl)
    ]

web_path-IsNames : (rest : Text) → IsNames (web_path (slash ∷ rest))
unfolding web_path clean render trim_prefix strip_prefix
web_path-IsNames rest = rooted-IsNames (parts_of (slash ∷ rest)) (parts_of-IsName rest)

-- A path of names below a directory.
abbrev pub IsBelow : Text → Text → Type 0
IsBelow root full =
    (s : Text) × (ss : List Text) × All IsName (s ∷ ss)
    × (full ≡ render (is_rooted root) (parts_of root ++ s ∷ ss))

join_path-IsBelow :
    (c : ℕ) (root path : Text) → IsNames path → IsBelow (c ∷ root) (join_path (c ∷ root) path)
join_path-IsBelow c root path (s, ss, a, e) =
    (s, ss, a, ap (join_path (c ∷ root)) e ∙ join_path-names c root s ss a)

-- The file lies below the directory of the console, whatever the path of the request is: its parts are
-- the ones of the directory and then names, of which none is empty, `.` or `..` or has a slash. The path
-- begins with a slash, as net/http and the route have it, and the directory is given.
pub web_file-IsBelow :
    (f : Files) (root rest : Text) → root ≢ [] → IsBelow root (web_file f root (slash ∷ rest))
unfolding web_file
web_file-IsBelow f [] rest n = absurd (n refl)
web_file-IsBelow f (c ∷ root) rest n =
    let full = join_path (c ∷ root) (web_path (slash ∷ rest)) in
    elim (Bool-cases (f.is_file full)) [
      | inl there ↦ rw there (join_path-IsBelow c root _ (web_path-IsNames rest))
      | inr missing ↦ rw missing (join_path-IsBelow c root _ index-IsNames)
    ]
