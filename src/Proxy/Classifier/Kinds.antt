-- ===== src/Proxy/Classifier/Kinds.antt =====
-- Which kind `Classify` of internal/proxy/classifier.go gives a response.
use opencode_proxy.Base.{
  ℕ, ◌≤◌, ◌<◌, ◌≡◌, ◌≢◌, ◌⊎◌, inl, inr, refl, Bool, true, false, Option, none, is_some, leb, ◌==◌,
  arith, Bool-cases,
}
use opencode_proxy.Text.{Text}
use opencode_proxy.Time.{Time}
use opencode_proxy.Store.Types.{ErrorKind}
use opencode_proxy.Proxy.Json.{Codec}
use opencode_proxy.Proxy.Header.{Header}
use opencode_proxy.Proxy.Regex.{match_string}
use opencode_proxy.Proxy.Patterns.{quota_pattern, balance_pattern, auth_pattern, rate_pattern}
use opencode_proxy.Proxy.Reset.{parse_reset}
use opencode_proxy.Proxy.Classifier.{
  Classification, extract_message, is_quota_message, is_auth_failure, is_rate_limit,
  classify_message, classify,
}

abbrev pub IsOnQuotas : Text → Type 0
IsOnQuotas m = (match_string quota_pattern m ≡ true) ⊎ (match_string balance_pattern m ≡ true)

abbrev pub IsNotOnQuotas : Text → Type 0
IsNotOnQuotas m = (match_string quota_pattern m ≡ false) × (match_string balance_pattern m ≡ false)

abbrev pub IsRefusal : ℕ → Text → Type 0
IsRefusal status m = ((status ≡ 401) ⊎ (status ≡ 403)) × (match_string auth_pattern m ≡ true)

abbrev pub IsNoRefusal : ℕ → Text → Type 0
IsNoRefusal status m = ((status ≢ 401) × (status ≢ 403)) ⊎ (match_string auth_pattern m ≡ false)

abbrev pub IsTooMany : ℕ → Text → Type 0
IsTooMany status m = (status ≡ 429) ⊎ (match_string rate_pattern m ≡ true)

abbrev pub IsNotTooMany : ℕ → Text → Type 0
IsNotTooMany status m = (status ≢ 429) × (match_string rate_pattern m ≡ false)

abbrev pub IsOrdinary : ℕ → Text → Type 0
IsOrdinary status m = IsNotOnQuotas m × IsNoRefusal status m × IsNotTooMany status m

-- What a kind says of the status and the message; no two kinds agree on them.
abbrev pub KindHolds : ℕ → Text → ErrorKind → Type 0
KindHolds status m ErrorKind.quota = IsOnQuotas m
KindHolds status m ErrorKind.auth = IsNotOnQuotas m × IsRefusal status m
KindHolds status m ErrorKind.rate_limit =
    IsNotOnQuotas m × IsNoRefusal status m × IsTooMany status m
KindHolds status m ErrorKind.upstream = IsOrdinary status m × (500 ≤ status)
KindHolds status m ErrorKind.request = IsOrdinary status m × (400 ≤ status) × (status < 500)
KindHolds status m ErrorKind.ok = IsOrdinary status m × (status < 400)
KindHolds status m ErrorKind.network = ⊥

-- Only an error of a quota has a window, and only one of a quota or of a rate has a time of reset.
abbrev pub DetailsHold : Option Time → Classification → Type 0
DetailsHold reset c = elim c.kind [
  | ErrorKind.quota ↦ (is_some c.window ≡ true) × (c.reset_at ≡ reset)
  | ErrorKind.rate_limit ↦ (is_some c.window ≡ false) × (c.reset_at ≡ reset)
  | _ ↦ (is_some c.window ≡ false) × (c.reset_at ≡ none)
]

on_quotas : (m : Text) → is_quota_message m ≡ true → IsOnQuotas m
unfolding is_quota_message
on_quotas m h = elim (Bool-cases (match_string quota_pattern m)) [
  | inl e ↦ inl e
  | inr e ↦ inr (ground arith)
]

not_on_quotas : (m : Text) → is_quota_message m ≡ false → IsNotOnQuotas m
unfolding is_quota_message
not_on_quotas m h = (ground arith, ground arith)

refusal : (status : ℕ) (m : Text) → is_auth_failure status m ≡ true → IsRefusal status m
refusal status m h = elim (Bool-cases (status == 401)) [
  | inl e ↦ (inl (ground arith), ground arith)
  | inr e ↦ (inr (ground arith), ground arith)
]

no_refusal : (status : ℕ) (m : Text) → is_auth_failure status m ≡ false → IsNoRefusal status m
no_refusal status m h = elim (Bool-cases (match_string auth_pattern m)) [
  | inl e ↦ inl (λ p. ground arith, λ p. ground arith)
  | inr e ↦ inr e
]

too_many : (status : ℕ) (m : Text) → is_rate_limit status m ≡ true → IsTooMany status m
too_many status m h = elim (Bool-cases (match_string rate_pattern m)) [
  | inl e ↦ inr e
  | inr e ↦ inl (ground arith)
]

not_too_many : (status : ℕ) (m : Text) → is_rate_limit status m ≡ false → IsNotTooMany status m
not_too_many status m h = (λ p. ground arith, ground arith)

module _ (codec : Codec) (status : ℕ) (headers : Header) (m : Text) (now : Time) where
  kind-Holds :
      (q a r u e : Bool)
      → is_quota_message m ≡ q
      → is_auth_failure status m ≡ a
      → is_rate_limit status m ≡ r
      → leb 500 status ≡ u
      → leb 400 status ≡ e
      → let c = classify_message codec status headers m now in
        KindHolds status m c.kind
        × DetailsHold (parse_reset codec headers m now) c
        × (c.message ≡ m)
  unfolding classify_message
  kind-Holds true a r u e eq ea er eu ee = rw eq (on_quotas m eq, (refl, refl), refl)
  kind-Holds false true r u e eq ea er eu ee =
      rw (eq, ea) ((not_on_quotas m eq, refusal status m ea), (refl, refl), refl)
  kind-Holds false false true u e eq ea er eu ee =
      rw (eq, ea, er)
        ((not_on_quotas m eq, no_refusal status m ea, too_many status m er), (refl, refl), refl)
  kind-Holds false false false true e eq ea er eu ee =
      rw (eq, ea, er, eu)
        (
          ((not_on_quotas m eq, no_refusal status m ea, not_too_many status m er), ground arith),
          (refl, refl),
          refl,
        )
  kind-Holds false false false false true eq ea er eu ee =
      rw (eq, ea, er, eu, ee)
        (
          (
            (not_on_quotas m eq, no_refusal status m ea, not_too_many status m er),
            ground arith,
            ground arith,
          ),
          (refl, refl),
          refl,
        )
  kind-Holds false false false false false eq ea er eu ee =
      rw (eq, ea, er, eu, ee)
        (
          ((not_on_quotas m eq, no_refusal status m ea, not_too_many status m er), ground arith),
          (refl, refl),
          refl,
        )

-- The kind of a response, by its status and its message. A message that matches the pattern of quotas
-- or that of balances is a quota error whatever the status is, also in a successful answer; any other
-- is an authentication error exactly with the status 401 or 403 and a text that matches the pattern of
-- authentication; any other is a rate limit exactly with the status 429 or a text of rates; the rest
-- are upstream errors from the status 500 on, request errors from 400 to 499, and no errors below. A
-- window is given exactly for quota errors, a time of reset only for those and for rate limits, and the
-- message is the extracted one.
pub classify_lem :
    (codec : Codec) (status : ℕ) (headers : Header) (body : Text) (now : Time)
    → let c = classify codec status headers body now in
      let m = extract_message codec body in
      KindHolds status m c.kind × DetailsHold (parse_reset codec headers m now) c × (c.message ≡ m)
unfolding classify
classify_lem codec status headers body now =
    kind-Holds codec status headers (extract_message codec body) now _ _ _ _ _ refl refl refl refl
      refl
