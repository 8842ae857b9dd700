-- ===== src/Api/Enrollments/OneTime.antt =====
-- A ticket of internal/httpapi/client_setup.go is consumed at most once, and only in time.
use opencode_proxy.Base.{
  ◌≡◌, ◌≤◌, refl, ◌∙◌, sym, subst, false, List, [], ◌∷◌, All, Option, none, some, leb, ltb, ◌+◌,
  arith, inl, inr, Bool-cases, if◌then◌else◌,
}
use opencode_proxy.Text.{Text, text_eq, text_eq_sound}
use opencode_proxy.Text.Maps.{lookup, lookup-put, lookup-put_ne, lookup-remove, lookup-remove_ne}
use opencode_proxy.Time.{Time, minutes}
use opencode_proxy.Api.Enrollments.{
  Enrollment, Tickets, drop_expired, enroll, consumed_of, consume, TicketCall, enrolled, consumed,
  ticket_step, ticket_run,
}

lookup-drop_missing :
    (h : Text) (now : Time) (s : Tickets) → lookup h s ≡ none → lookup h (drop_expired now s) ≡ none
unfolding lookup drop_expired
lookup-drop_missing h now [] e = refl
lookup-drop_missing h now ((k, v) ∷ s) e = elim (Bool-cases (text_eq k h)) [
  | inl same ↦ absurd (ground arith)
  | inr ne ↦ elim (Bool-cases (ltb v.expires_at now)) [
    | inl old ↦ rw old (lookup-drop_missing h now s (ground arith))
    | inr new ↦ rw (new, ne) (lookup-drop_missing h now s (ground arith))
  ]
]

-- A ticket that has not expired is kept; an older one with the same hash is never seen behind it.
lookup-drop_kept :
    (h : Text) (now : Time) (v : Enrollment) (s : Tickets)
    → lookup h s ≡ some v
    → now ≤ v.expires_at
    → lookup h (drop_expired now s) ≡ some v
unfolding lookup drop_expired
lookup-drop_kept h now v [] e le = e
lookup-drop_kept h now v ((k, u) ∷ s) e le = elim (Bool-cases (text_eq k h)) [
  | inl same ↦ ground arith
  | inr ne ↦ elim (Bool-cases (ltb u.expires_at now)) [
    | inl old ↦ rw old (lookup-drop_kept h now v s (ground arith) le)
    | inr new ↦ rw (new, ne) (lookup-drop_kept h now v s (ground arith) le)
  ]
]

-- A call that leaves a ticket alone: for another hash, and not after its end.
abbrev pub LeavesTicket : (Text → Text) → Text → Time → TicketCall → Type 0
LeavesTicket hash ticket expires (enrolled other name now) =
    (text_eq (hash other) (hash ticket) ≡ false) × (now ≤ expires)
LeavesTicket hash ticket expires (consumed other now) = text_eq (hash other) (hash ticket) ≡ false

-- A call that does not create a ticket with the hash.
abbrev pub EnrollsNot : (Text → Text) → Text → TicketCall → Type 0
EnrollsNot hash ticket (enrolled other name now) = text_eq (hash other) (hash ticket) ≡ false
EnrollsNot hash ticket (consumed other now) = Unit {0}

consumed_of-lookup :
    (h other : Text) (now : Time) (s : Tickets) (o : Option Enrollment)
    → text_eq other h ≡ false
    → lookup h (consumed_of other now s o).1 ≡ lookup h s
consumed_of-lookup h other now s none ne = refl
consumed_of-lookup h other now s (some e) ne = elim (Bool-cases (ltb e.expires_at now)) [
  | inl late ↦ rw late (lookup-remove_ne h other s ne)
  | inr early ↦ rw early (lookup-remove_ne h other s ne)
]

-- Once a ticket has been consumed, or where it is not there, its hash is free.
consumed_of-missing :
    (h : Text) (now : Time) (s : Tickets) (o : Option Enrollment)
    → lookup h s ≡ o
    → lookup h (consumed_of h now s o).1 ≡ none
consumed_of-missing h now s none e = e
consumed_of-missing h now s (some v) e = elim (Bool-cases (ltb v.expires_at now)) [
  | inl late ↦ rw late (lookup-remove h s)
  | inr early ↦ rw early (lookup-remove h s)
]

module _ (hash : Text → Text) (ticket : Text) where
  kept-step :
      (v : Enrollment) (c : TicketCall) (s : Tickets)
      → lookup (hash ticket) s ≡ some v
      → LeavesTicket hash ticket v.expires_at c
      → lookup (hash ticket) (ticket_step hash c s) ≡ some v
  unfolding ticket_step enroll consume
  kept-step v (enrolled other name now) s e h =
      lookup-put_ne (hash ticket) (hash other) _ (drop_expired now s) h.0
      ∙ lookup-drop_kept (hash ticket) now v s e h.1
  kept-step v (consumed other now) s e h =
      consumed_of-lookup (hash ticket) (hash other) now s _ h ∙ e

  kept-run :
      (v : Enrollment) (cs : List TicketCall) (s : Tickets)
      → lookup (hash ticket) s ≡ some v
      → All (LeavesTicket hash ticket v.expires_at) cs
      → lookup (hash ticket) (ticket_run hash cs s) ≡ some v
  unfolding ticket_run
  kept-run v [] s e a = e
  kept-run v (c ∷ cs) s e a = kept-run v cs (ticket_step hash c s) (kept-step v c s e a.0) a.1

  missing-step :
      (c : TicketCall) (s : Tickets)
      → lookup (hash ticket) s ≡ none
      → EnrollsNot hash ticket c
      → lookup (hash ticket) (ticket_step hash c s) ≡ none
  unfolding ticket_step enroll consume
  missing-step (enrolled other name now) s e h =
      lookup-put_ne (hash ticket) (hash other) _ (drop_expired now s) h
      ∙ lookup-drop_missing (hash ticket) now s e
  missing-step (consumed other now) s e h = elim (Bool-cases (text_eq (hash other) (hash ticket))) [
    | inl same ↦
        subst (λ h. lookup (hash ticket) (consumed_of h now s (lookup h s)).1 ≡ none)
          (sym (text_eq_sound (hash other) (hash ticket) same))
          (consumed_of-missing (hash ticket) now s (lookup (hash ticket) s) refl)
    | inr ne ↦ consumed_of-lookup (hash ticket) (hash other) now s _ ne ∙ e
  ]

  missing-run :
      (cs : List TicketCall) (s : Tickets)
      → lookup (hash ticket) s ≡ none
      → All (EnrollsNot hash ticket) cs
      → lookup (hash ticket) (ticket_run hash cs s) ≡ none
  unfolding ticket_run
  missing-run [] s e a = e
  missing-run (c ∷ cs) s e a = missing-run cs (ticket_step hash c s) (missing-step c s e a.0) a.1

  consume_of-missing :
      (now : Time) (s : Tickets)
      → lookup (hash ticket) s ≡ none
      → (consume hash ticket now s).0 ≡ none
  unfolding consume
  consume_of-missing now s e = rw e refl

  consume_of-kept :
      (now : Time) (s : Tickets) (v : Enrollment)
      → lookup (hash ticket) s ≡ some v
      → (consume hash ticket now s).0 ≡ (if leb now v.expires_at then some v else none)
  unfolding consume
  consume_of-kept now s v e = rw e (ground arith)

  -- A ticket can be consumed for ten minutes: after any calls that do not touch its hash, of which those
  -- that create tickets are made in that time, it gives the name it was created with exactly up to ten
  -- minutes after its creation.
  pub consume-enroll :
      (name : Text) (start now : Time) (cs : List TicketCall) (s : Tickets)
      → All (LeavesTicket hash ticket (start + minutes 10)) cs
      → (consume hash ticket now (ticket_run hash cs (enroll hash ticket name start s))).0 ≡ (
          if leb now (start + minutes 10)
          then some (record { name = name; expires_at = start + minutes 10 })
          else none)
  unfolding enroll
  consume-enroll name start now cs s a =
      consume_of-kept now _ (record { name = name; expires_at = start + minutes 10 })
        (kept-run (record { name = name; expires_at = start + minutes 10 }) cs _ (lookup-put _ _ _)
          a)

  consume-missing :
      (now : Time) (s : Tickets) → lookup (hash ticket) (consume hash ticket now s).1 ≡ none
  unfolding consume
  consume-missing now s = consumed_of-missing (hash ticket) now s (lookup (hash ticket) s) refl

  -- A ticket is consumed at most once: after a first attempt, successful or not, every other fails
  -- until a ticket with its hash is created.
  pub consume-consume :
      (start now : Time) (cs : List TicketCall) (s : Tickets)
      → All (EnrollsNot hash ticket) cs
      → (consume hash ticket now (ticket_run hash cs (consume hash ticket start s).1)).0 ≡ none
  consume-consume start now cs s a =
      consume_of-missing now _ (missing-run cs _ (consume-missing start s) a)
