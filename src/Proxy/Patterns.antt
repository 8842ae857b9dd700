-- ===== src/Proxy/Patterns.antt =====
-- The patterns at the top of internal/proxy/classifier.go.
use opencode_proxy.Base.{true, not, ◌||◌, ◌==◌, ◌≡◌, refl}
use opencode_proxy.Text.{codes}
use opencode_proxy.Proxy.Regex.{
  Regex, one, seq, alt, many, byte, optional, some_of, space, digit, word, match_string,
}

unfoldable pub quota_pattern : Regex
quota_pattern = alt (word "usage limit reached") (
    alt (word "limit exhausted") (
      alt (word "quota exceeded") (
        alt (word "subscription quota") (
          alt (word "weekly/monthly limit exhausted") (
            alt (word "weekly usage limit") (
              alt (word "monthly usage limit")
                (seq (word "5") (seq (many space) (word "hour usage limit")))))))))

-- `.` is any character but a newline.
abbrev any : Regex
any = one (λ c. not (c == 10))

unfoldable pub balance_pattern : Regex
balance_pattern =
    alt
      (seq (word "insufficient") (
        seq (some_of space)
          (seq (optional (seq (word "account") (some_of space))) (word "balance"))))
      (alt
        (seq (word "insufficient")
          (seq (some_of space) (seq (word "credit") (optional (word "s")))))
        (alt
          (seq (word "not") (
            seq (some_of space) (
              seq (word "enough")
                (seq (some_of space) (seq (word "credit") (optional (word "s")))))))
          (alt
            (seq (word "credit") (
              seq (optional (word "s"))
                (seq (word "error") (seq (many any) (alt (word "balance") (word "billing"))))))
            (seq (word "manage")
              (seq (some_of space) (seq (word "your") (seq (some_of space) (word "billing"))))))))

-- `[ _-]`.
abbrev separator : Regex
separator = one (λ c. c == b' ' || c == b'_' || c == b'-')

unfoldable pub auth_pattern : Regex
auth_pattern = alt (word "invalid") (
    alt (word "expired") (
      alt (word "revoked") (
        alt (word "unauthorized") (
          alt (word "authentication")
            (alt (seq (word "api") (seq (optional separator) (word "key"))) (word "credential"))))))

unfoldable pub rate_pattern : Regex
rate_pattern = alt (seq (word "rate") (seq (optional separator) (word "limit"))) (
    alt (word "too many requests") (
      alt (seq (word "concurrenc") (alt (word "y") (word "ies")))
        (alt (word "overloaded") (word "temporarily unavailable"))))

-- `resetInPattern` up to its group. The full-width colon is its three bytes.
unfoldable pub reset_in_prefix : Regex
reset_in_prefix =
    seq
      (alt
        (seq (word "it") (
          seq (some_of space) (
            seq (word "will")
              (seq (some_of space) (seq (word "reset") (seq (some_of space) (word "in")))))))
        (alt (seq (word "reset") (seq (optional (word "s")) (seq (some_of space) (word "in"))))
          (seq (word "retry") (seq (some_of space) (word "in")))))
      (seq (many space) (
        seq (optional (alt (byte b':') (seq (byte 0xef) (seq (byte 0xbc) (byte 0x9a)))))
          (many space)))

-- The three parts of `durationPart`: the number, white space, the unit.
unfoldable pub duration_number : Regex
duration_number = seq (some_of digit) (optional (seq (byte b'.') (some_of digit)))

unfoldable pub duration_unit : Regex
duration_unit = alt (seq (word "day") (optional (word "s"))) (
    alt (word "d") (
      alt (seq (word "hour") (optional (word "s"))) (
        alt (seq (word "hr") (optional (word "s"))) (
          alt (word "h") (
            alt (seq (word "minute") (optional (word "s"))) (
              alt (seq (word "min") (optional (word "s"))) (
                alt (word "m") (
                  alt (seq (word "second") (optional (word "s")))
                    (alt (seq (word "sec") (optional (word "s"))) (word "s"))))))))))

quota_message : match_string quota_pattern (codes "Error: 5 Hour Usage limit hit") ≡ true
unfolding match_string quota_pattern
quota_message = refl

balance_message : match_string balance_pattern (codes "CreditsError | Insufficient balance") ≡ true
unfolding match_string balance_pattern
balance_message = refl
