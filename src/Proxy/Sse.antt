-- ===== src/Proxy/Sse.antt =====
-- Server-sent events: `readSSEEvent` and `eventData` of internal/proxy/service.go.
pub mod Reading
use opencode_proxy.Base.{
  ℕ, zero, suc, ◌+◌, ◌^◌, ◌*◌, ◌≡◌, refl, Bool, false, ◌||◌, List, [], ◌∷◌, ◌++◌, Option, none,
  some, leb, ◌==◌, if◌then◌else◌, length,
}
use opencode_proxy.Text.{
  Text, codes, text_eq, split, join, strip_prefix, trim_space, newline, carriage_return,
}

-- How a read ends: the end of the body, a failure of the connection, or an event over the limit.
pub data ReadError : Type 0 where
  eof broken too_large : ReadError

-- The bytes that a call returns, its error, and what it leaves to read.
pub record Read : Type 0 where
  pub event : Text
  pub failure : Option ReadError
  pub rest : Text

abbrev end_of_body : Bool → ReadError
end_of_body is_broken = if is_broken then broken else eof

abbrev is_blank_line : Text → Bool
is_blank_line line = text_eq line (newline ∷ []) || text_eq line (carriage_return ∷ newline ∷ [])

-- `buf` holds the lines before, `line` the bytes of the line that `ReadBytes('\n')` is reading. The
-- body is what the connection delivers, and whether it then fails.
read_from : ℕ → Bool → Text → Text → Text → Read
unfolding text_eq
read_from max is_broken buf line [] = record {
  event = buf ++ line;
  failure = some (end_of_body is_broken);
  rest = [];
}
read_from max is_broken buf line (c ∷ s) =
    let whole = line ++ c ∷ [] in
    let next_line = read_from max is_broken (buf ++ whole) [] s in
    let next_byte = read_from max is_broken buf whole s in
    let finished : Read = record { event = buf ++ whole; failure = none; rest = s } in
    let over : Read = record { event = []; failure = some too_large; rest = s } in
    if c == newline
    then if is_blank_line whole
      then finished
      else if leb (length (buf ++ whole)) max
      then next_line
      else over
    else next_byte

unfoldable pub read_sse_event : ℕ → Bool → Text → Read
unfolding read_from
read_sse_event max is_broken s = read_from max is_broken [] [] s

abbrev trim_carriage_return : Text → Text
trim_carriage_return [] = []
trim_carriage_return (c ∷ []) = if c == carriage_return then [] else c ∷ []
trim_carriage_return (c ∷ d ∷ s) = c ∷ trim_carriage_return (d ∷ s)

abbrev kept_value : Text → List Text
kept_value v = if text_eq v [] || text_eq v (codes "[DONE]") then [] else v ∷ []

data_of_line : Text → List Text
unfolding strip_prefix trim_space text_eq
data_of_line line = elim (strip_prefix (codes "data:") (trim_carriage_return line)) [
  | none ↦ []
  | some v ↦ kept_value (trim_space v)
]

data_of_lines : List Text → List Text
unfolding data_of_line
data_of_lines [] = []
data_of_lines (line ∷ lines) = data_of_line line ++ data_of_lines lines

unfoldable pub event_data : Text → Text
unfolding data_of_lines split join
event_data event = join (newline ∷ []) (data_of_lines (split newline event))

-- The limit of both calls, `2<<20`.
abbrev pub event_limit : ℕ
event_limit = 2 * 2 ^ 20

abbrev pub and_later : Option ReadError → Read → List Read → List Read
and_later none r later = r ∷ later
and_later (some e) r later = r ∷ []

-- The reads of a body up to the first that ends with an error. Each read but the last takes at least
-- one byte, so that the length of the body bounds their number.
unfoldable pub read_events : ℕ → ℕ → Bool → Text → List Read
read_events zero max is_broken s = []
read_events (suc fuel) max is_broken s =
    let r = read_sse_event max is_broken s in
    let later = read_events fuel max is_broken r.rest in and_later r.failure r later

data_lines : event_data (codes "data: a\r\nid: 7\r\ndata:[DONE]\ndata:  b \n\n") ≡ codes "a\nb"
unfolding event_data
data_lines = refl

first_event :
    (read_sse_event 100 false (codes "data: x\n\ndata: y\n\n")).event ≡ codes "data: x\n\n"
unfolding read_sse_event
first_event = refl
