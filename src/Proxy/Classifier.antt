-- ===== src/Proxy/Classifier.antt =====
-- `Classify` and `extractMessage` of internal/proxy/classifier.go.
pub mod Kinds
use opencode_proxy.Base.{
  ℕ, Bool, ◌&&◌, ◌||◌, List, [], ◌∷◌, Option, none, some, leb, ◌==◌, if◌then◌else◌,
}
use opencode_proxy.Text.{Text, codes, trim_space, to_lower, contains, join}
use opencode_proxy.Time.{Time}
use opencode_proxy.Store.Types.{
  ErrorKind, Window, balance, five_hours, weekly_or_monthly, weekly, monthly,
}
use opencode_proxy.Proxy.Json.{Codec, collect_strings}
use opencode_proxy.Proxy.Header.{Header}
use opencode_proxy.Proxy.Regex.{match_string}
use opencode_proxy.Proxy.Patterns.{quota_pattern, balance_pattern, auth_pattern, rate_pattern}
use opencode_proxy.Proxy.Reset.{parse_reset}

pub record Classification : Type 0 where
  pub kind : ErrorKind
  pub window : Option Window
  pub reset_at : Option Time
  pub message : Text

-- The zero value of the struct.
abbrev pub unclassified : Classification
unclassified = record { kind = ErrorKind.ok; window = none; reset_at = none; message = [] }

abbrev joined_or : List Text → Text → Text
joined_or [] plain = plain
joined_or (s ∷ ss) plain = join (codes " | ") (s ∷ ss)

unfoldable pub extract_message : Codec → Text → Text
unfolding trim_space join
extract_message codec [] = []
extract_message codec (c ∷ body) = elim (codec.unmarshal (c ∷ body)) [
  | none ↦ trim_space (c ∷ body)
  | some value ↦ joined_or (collect_strings value) (trim_space (c ∷ body))
]

-- The `switch` on the window of a quota error.
unfoldable pub quota_window_of : Text → Window
quota_window_of message =
    let lower = to_lower message in
    if match_string balance_pattern message
    then balance
    else if contains lower (codes "5 hour") || contains lower (codes "5-hour")
    then five_hours
    else if contains lower (codes "week") && contains lower (codes "month")
    then weekly_or_monthly
    else if contains lower (codes "week")
    then weekly
    else if contains lower (codes "month")
    then monthly
    else Window.unknown

unfoldable pub is_quota_message : Text → Bool
is_quota_message message =
    match_string quota_pattern message || match_string balance_pattern message

abbrev pub is_auth_failure : ℕ → Text → Bool
is_auth_failure status message =
    (status == 401 || status == 403) && match_string auth_pattern message

abbrev pub is_rate_limit : ℕ → Text → Bool
is_rate_limit status message = status == 429 || match_string rate_pattern message

-- `Classify` once the message is extracted.
unfoldable pub classify_message : Codec → ℕ → Header → Text → Time → Classification
classify_message codec status headers message now =
    let plain : Classification = record {
      kind = ErrorKind.ok;
      window = none;
      reset_at = none;
      message = message;
    } in
    if is_quota_message message
    then record {
      kind = ErrorKind.quota;
      window = some (quota_window_of message);
      reset_at = parse_reset codec headers message now;
      message = message;
    }
    else if is_auth_failure status message
    then record plain { kind = ErrorKind.auth }
    else if is_rate_limit status message
    then record plain {
      kind = ErrorKind.rate_limit;
      reset_at = parse_reset codec headers message now;
    }
    else if leb 500 status
    then record plain { kind = ErrorKind.upstream }
    else if leb 400 status
    then record plain { kind = ErrorKind.request }
    else plain

unfoldable pub classify : Codec → ℕ → Header → Text → Time → Classification
unfolding extract_message classify_message
classify codec status headers body now =
    classify_message codec status headers (extract_message codec body) now
