-- ===== src/Time.antt =====
-- time.Time as the nanoseconds since Go's zero time (the start of year 1, UTC), time.Duration as an
-- integer of nanoseconds, and the text in which internal/store/sqlite.go keeps a time (RFC 3339 with
-- nanoseconds, UTC), which its queries compare byte by byte.
pub mod Order
use opencode_proxy.Base.{
  ℕ, zero, suc, ◌+◌, ◌-◌, ◌*◌, ◌/◌, ◌%◌, ◌^◌, Bool, true, false, [], ◌∷◌, not, ltb, ◌==◌,
  if◌then◌else◌,
}
use opencode_proxy.Base.Int.{ℤ, pos, negsuc}
use opencode_proxy.Text.{Text}

abbrev pub Time : Type 0
Time = ℕ

abbrev pub nanos_per_second : ℕ
nanos_per_second = 10 ^ 9

-- `time.Duration(n) * time.Second` and the like.
abbrev pub seconds : ℕ → ℕ
seconds n = n * nanos_per_second

abbrev pub minutes : ℕ → ℕ
minutes n = n * (60 * nanos_per_second)

abbrev pub hours : ℕ → ℕ
hours n = n * (3600 * nanos_per_second)

-- `t.Add(d)`. A time of this program is far more than 292 years after year 1, so that no duration
-- reaches below zero.
unfoldable pub add_duration : Time → ℤ → Time
add_duration t (pos d) = t + d
add_duration t (negsuc d) = t - (d + 1)

-- `finished.Sub(started).Milliseconds()`, for times in order.
unfoldable pub milliseconds_between : Time → Time → ℕ
milliseconds_between started finished = (finished - started) / 10 ^ 6

-- Digits of a fraction below 10 ^ k, with no trailing zeros, then the zone `Z`.
fraction_digits : ℕ → ℕ → Text
fraction_digits zero v = b'Z' ∷ []
fraction_digits (suc k) v =
    let rest = fraction_digits k (v % 10 ^ k) in
    if v == 0 then b'Z' ∷ [] else (b'0' + v / 10 ^ k) ∷ rest

-- What follows the seconds in the text of a time.
unfoldable pub fraction_text : ℕ → Text
unfolding fraction_digits
fraction_text nanos = if nanos == 0 then b'Z' ∷ [] else b'.' ∷ fraction_digits 9 nanos

-- SQLite compares texts as their bytes.
unfoldable pub text_leb : Text → Text → Bool
text_leb [] t = true
text_leb (c ∷ s) [] = false
text_leb (c ∷ s) (d ∷ t) =
    let rest = text_leb s t in if ltb c d then true else if c == d then rest else false

-- `a <= b` on the stored texts. Up to the seconds a text has a fixed width and ordered fields, so
-- that it compares as the number of seconds; what follows is compared as text.
unfoldable pub stored_leb : Time → Time → Bool
unfolding fraction_text text_leb
stored_leb a b =
    let later =
      text_leb (fraction_text (a % nanos_per_second)) (fraction_text (b % nanos_per_second)) in
    if ltb (a / nanos_per_second) (b / nanos_per_second)
    then true
    else if a / nanos_per_second == b / nanos_per_second
    then later
    else false

-- `a < b` on the stored texts.
unfoldable pub stored_ltb : Time → Time → Bool
unfolding stored_leb
stored_ltb a b = not (stored_leb b a)
