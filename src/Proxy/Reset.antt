-- ===== src/Proxy/Reset.antt =====
-- `parseReset` and `parseHumanDuration` of internal/proxy/classifier.go.
use opencode_proxy.Base.{
  ℕ, zero, suc, ◌+◌, ◌-◌, ◌*◌, ◌/◌, ◌^◌, ◌≡◌, refl, Bool, true, false, ◌||◌, not, List, [], ◌∷◌,
  Option, none, some, ◌==◌, if◌then◌else◌, length,
}
use opencode_proxy.Base.Int.{ℤ, pos, negsuc, wrap_int64}
use opencode_proxy.Text.{Text, codes, trim_space, to_lower}
use opencode_proxy.Text.Numbers.{atoi}
use opencode_proxy.Time.{Time, add_duration, nanos_per_second, seconds, minutes, hours}
use opencode_proxy.Proxy.Json.{Codec}
use opencode_proxy.Proxy.Header.{Header, get}
use opencode_proxy.Proxy.Regex.{rests, consumed, many, space}
use opencode_proxy.Proxy.Patterns.{reset_in_prefix, duration_number, duration_unit}

-- `time.Duration(n) * time.Second`, in an int64.
abbrev pub seconds_duration : ℤ → ℤ
seconds_duration (pos n) = wrap_int64 (pos (n * nanos_per_second))
seconds_duration (negsuc n) = wrap_int64 (negsuc (suc n * nanos_per_second - 1))

-- A decimal number as its digits without the point, and how many of them stand behind it.
unfoldable pub parse_decimal : Bool → ℕ → ℕ → Text → ℕ × ℕ
parse_decimal seen n places [] = (n, places)
parse_decimal seen n places (c ∷ s) =
    if c == b'.'
    then parse_decimal true n places s
    else parse_decimal seen (n * 10 + (c - b'0')) (if seen then suc places else places) s

-- The unit of a part, by the first byte of its lower-case text.
abbrev unit_nanos : Text → ℕ
unit_nanos [] = 0
unit_nanos (c ∷ s) =
    if c == b'd'
    then hours 24
    else if c == b'h'
    then hours 1
    else if c == b'm'
    then minutes 1
    else if c == b's'
    then seconds 1
    else 0

-- `time.Duration(n * float64(unit))`. The product of floats is taken to be the exact product, which
-- it is up to the rounding of the last of 53 bits, and to fit an int64.
part_nanos : Text → Text → ℕ
unfolding parse_decimal to_lower
part_nanos number unit =
    let (n, places) = parse_decimal false 0 0 number in n * unit_nanos (to_lower unit) / 10 ^ places

abbrev first_unit : Text → List Text → Option (Text × Text)
first_unit s [] = none
first_unit s (r ∷ rs) = some (consumed s r, r)

-- The first way to go on from a number: white space, then a unit.
after_number : List Text → Option (Text × Text)
unfolding rests duration_unit
after_number [] = none
after_number (s ∷ ss) =
    let later = after_number ss in
    elim (first_unit s (rests duration_unit s)) [ none ↦ later | some u ↦ some u ]

-- A match of `durationPart` at the start: its nanoseconds and what remains.
part_at : Text → List Text → Option (ℕ × Text)
unfolding after_number part_nanos
part_at s [] = none
part_at s (r ∷ rs) =
    let later = part_at s rs in
    elim (after_number (rests (many space) r)) [
      | none ↦ later
      | some (unit, rest) ↦ some (part_nanos (consumed s r) unit, rest)
    ]

-- `FindAllStringSubmatch`, summed. A match consumes at least two bytes, so that the length of the
-- text bounds the rounds.
sum_parts : ℕ → Text → ℕ
unfolding part_at rests duration_number
sum_parts zero s = 0
sum_parts (suc f) [] = 0
sum_parts (suc f) (c ∷ s) = elim (part_at (c ∷ s) (rests duration_number (c ∷ s))) [
  | none ↦ sum_parts f s
  | some (n, rest) ↦ n + sum_parts f rest
]

unfoldable pub parse_human_duration : Text → ℕ
unfolding sum_parts
parse_human_duration s = sum_parts (suc (length s)) s

-- The group `([^\n.;]+)`: the longest run of such bytes.
abbrev in_group : ℕ → Bool
in_group c = not (c == 10 || c == b'.' || c == b';')

run_of : Text → Text
run_of [] = []
run_of (c ∷ s) = let later = run_of s in if in_group c then c ∷ later else []

-- The group behind the first way to match the prefix after which it is not empty.
first_group : List Text → Option Text
unfolding run_of
first_group [] = none
first_group ([] ∷ rs) = first_group rs
first_group ((c ∷ s) ∷ rs) =
    let later = first_group rs in if in_group c then some (run_of (c ∷ s)) else later

-- `resetInPattern.FindStringSubmatch`: the group of the leftmost match.
unfoldable pub find_reset_in : Text → Option Text
unfolding first_group rests reset_in_prefix
find_reset_in [] = none
find_reset_in (c ∷ s) =
    let later = find_reset_in s in
    elim (first_group (rests reset_in_prefix (c ∷ s))) [ none ↦ later | some g ↦ some g ]

abbrev pub retry_after : Text
retry_after = codes "Retry-After"

-- The message is searched when the header gives no time.
unfoldable pub reset_from_message : Text → Time → Option Time
unfolding find_reset_in parse_human_duration
reset_from_message message now = elim (find_reset_in message) [
  | none ↦ none
  | some g ↦ let d = parse_human_duration g in if d == 0 then none else some (now + d)
]

reset_from_date : Codec → Text → Text → Time → Option Time
unfolding reset_from_message
reset_from_date codec value message now = elim (codec.parse_http_time value) [
  | none ↦ reset_from_message message now
  | some t ↦ some t
]

reset_from_header : Codec → Text → Text → Time → Option Time
unfolding reset_from_date reset_from_message atoi trim_space add_duration
reset_from_header codec [] message now = reset_from_message message now
reset_from_header codec (c ∷ s) message now = elim (atoi (trim_space (c ∷ s))) [
  | none ↦ reset_from_date codec (c ∷ s) message now
  | some n ↦ some (add_duration now (seconds_duration n))
]

unfoldable pub parse_reset : Codec → Header → Text → Time → Option Time
unfolding reset_from_header get
parse_reset codec headers message now =
    reset_from_header codec (get retry_after headers) message now

one_day_three_hours : parse_human_duration (codes "1 day, 3.5 hours") ≡ hours 27 + minutes 30
unfolding parse_human_duration
one_day_three_hours = refl

reset_in_one_hour :
    reset_from_message (codes "5 hour usage limit reached. It will reset in 1 hour.") 7
    ≡ some (7 + hours 1)
unfolding reset_from_message
reset_in_one_hour = refl
