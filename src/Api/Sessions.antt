-- ===== src/Api/Sessions.antt =====
-- `sessionStore` of internal/httpapi/auth.go. A session maps its token to the time at which it ends.
pub mod Lifetime
use opencode_proxy.Base.{
  Bool, true, false, List, [], ◌∷◌, Option, none, some, ltb, ◌+◌, if◌then◌else◌,
}
use opencode_proxy.Text.{Text}
use opencode_proxy.Text.Maps.{TextMap, lookup, remove, put}
use opencode_proxy.Time.{Time, hours}

abbrev pub Sessions : Type 0
Sessions = TextMap Time

-- `token` is what rand.Read draws, in hexadecimal.
unfoldable pub create : Text → Time → Sessions → Sessions
create token now s = put token (now + hours 12) s

-- An unknown or expired token is deleted.
abbrev pub is_valid_until : Text → Time → Sessions → Option Time → Bool × Sessions
is_valid_until token now s none = (false, remove token s)
is_valid_until token now s (some expires) =
    if ltb expires now then (false, remove token s) else (true, s)

unfoldable pub valid : Text → Time → Sessions → Bool × Sessions
valid token now s = is_valid_until token now s (lookup token s)

unfoldable pub delete : Text → Sessions → Sessions
delete token s = remove token s

unfoldable pub reset : Sessions → Sessions
reset s = []

-- A call of one of the methods, by any handler.
pub data SessionCall : Type 0 where
  created : Text → Time → SessionCall
  checked : Text → Time → SessionCall
  deleted : Text → SessionCall
  cleared : SessionCall

unfoldable pub session_step : SessionCall → Sessions → Sessions
session_step (created token now) s = create token now s
session_step (checked token now) s = (valid token now s).1
session_step (deleted token) s = delete token s
session_step cleared s = reset s

unfoldable pub session_run : List SessionCall → Sessions → Sessions
session_run [] s = s
session_run (c ∷ cs) s = session_run cs (session_step c s)
