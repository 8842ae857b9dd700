-- ===== src/Api/Enrollments.antt =====
-- `enrollmentStore` of internal/httpapi/client_setup.go: tickets, stored under the hash of their text.
-- The hash is crypto/sha256's, a parameter.
pub mod OneTime
use opencode_proxy.Base.{List, [], ◌∷◌, Option, none, some, ltb, ◌+◌, if◌then◌else◌}
use opencode_proxy.Text.{Text}
use opencode_proxy.Text.Maps.{TextMap, lookup, remove, put}
use opencode_proxy.Time.{Time, minutes}

pub record Enrollment : Type 0 where
  pub name : Text
  pub expires_at : Time

abbrev pub Tickets : Type 0
Tickets = TextMap Enrollment

-- The loop of `create` over the expired tickets.
unfoldable pub drop_expired : Time → Tickets → Tickets
drop_expired now [] = []
drop_expired now ((h, e) ∷ s) =
    let rest = drop_expired now s in if ltb e.expires_at now then rest else (h, e) ∷ rest

-- `ticket` is what rand.Read draws, in base64.
unfoldable pub enroll : (Text → Text) → Text → Text → Time → Tickets → Tickets
enroll hash ticket name now s =
    put (hash ticket) (record { name = name; expires_at = now + minutes 10 }) (drop_expired now s)

abbrev pub consumed_of : Text → Time → Tickets → Option Enrollment → Option Enrollment × Tickets
consumed_of h now s none = (none, s)
consumed_of h now s (some e) =
    if ltb e.expires_at now then (none, remove h s) else (some e, remove h s)

unfoldable pub consume : (Text → Text) → Text → Time → Tickets → Option Enrollment × Tickets
consume hash ticket now s = consumed_of (hash ticket) now s (lookup (hash ticket) s)

-- A call of one of the methods, by any handler.
pub data TicketCall : Type 0 where
  enrolled : Text → Text → Time → TicketCall
  consumed : Text → Time → TicketCall

unfoldable pub ticket_step : (Text → Text) → TicketCall → Tickets → Tickets
ticket_step hash (enrolled ticket name now) s = enroll hash ticket name now s
ticket_step hash (consumed ticket now) s = (consume hash ticket now s).1

unfoldable pub ticket_run : (Text → Text) → List TicketCall → Tickets → Tickets
ticket_run hash [] s = s
ticket_run hash (c ∷ cs) s = ticket_run hash cs (ticket_step hash c s)
