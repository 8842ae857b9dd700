-- ===== src/Api/Sessions/Lifetime.antt =====
-- How long a session of internal/httpapi/auth.go is valid.
use opencode_proxy.Base.{
  ◌≡◌, ◌≤◌, refl, ◌∙◌, true, false, List, [], ◌∷◌, All, Option, none, some, leb, ltb, ◌+◌, arith,
  inl, inr, Bool-cases,
}
use opencode_proxy.Text.{Text, text_eq, text_eq_sound}
use opencode_proxy.Text.Maps.{lookup, lookup-put, lookup-put_ne, lookup-remove, lookup-remove_ne}
use opencode_proxy.Time.{Time, hours}
use opencode_proxy.Api.Sessions.{
  Sessions, create, is_valid_until, valid, delete, reset, SessionCall, created, checked, deleted,
  cleared, session_step, session_run,
}

-- A call that leaves a session alone: of another token, or a check no later than its end.
abbrev pub LeavesAlone : Text → Time → SessionCall → Type 0
LeavesAlone token expires (created other now) = text_eq other token ≡ false
LeavesAlone token expires (checked other now) = text_eq other token ≡ true → now ≤ expires
LeavesAlone token expires (deleted other) = text_eq other token ≡ false
LeavesAlone token expires cleared = ⊥

-- A call that does not create the token.
abbrev pub CreatesNot : Text → SessionCall → Type 0
CreatesNot token (created other now) = text_eq other token ≡ false
CreatesNot token (checked other now) = Unit {0}
CreatesNot token (deleted other) = Unit {0}
CreatesNot token cleared = Unit {0}

check_of-lookup :
    (other token : Text) (now : Time) (s : Sessions) (o : Option Time)
    → text_eq other token ≡ false
    → lookup token (is_valid_until other now s o).1 ≡ lookup token s
check_of-lookup other token now s none ne = lookup-remove_ne token other s ne
check_of-lookup other token now s (some expires) ne = elim (Bool-cases (ltb expires now)) [
  | inl e ↦ rw e (lookup-remove_ne token other s ne)
  | inr e ↦ rw e refl
]

checked-lookup :
    (other token : Text) (now expires : Time) (s : Sessions)
    → lookup token s ≡ some expires
    → (text_eq other token ≡ true → now ≤ expires)
    → lookup token (valid other now s).1 ≡ some expires
unfolding valid
checked-lookup other token now expires s e h = elim (Bool-cases (text_eq other token)) [
  | inl same ↦ rw (text_eq_sound other token same, e) (rw (late (h same)) e)
  | inr ne ↦ check_of-lookup other token now s (lookup other s) ne ∙ e
]
  where
    late : now ≤ expires → ltb expires now ≡ false
    late le = ground arith

step-lookup :
    (token : Text) (expires : Time) (c : SessionCall) (s : Sessions)
    → lookup token s ≡ some expires
    → LeavesAlone token expires c
    → lookup token (session_step c s) ≡ some expires
unfolding session_step create delete
step-lookup token expires (created other now) s e h =
    lookup-put_ne token other (now + hours 12) s h ∙ e
step-lookup token expires (checked other now) s e h = checked-lookup other token now expires s e h
step-lookup token expires (deleted other) s e h = lookup-remove_ne token other s h ∙ e
step-lookup token expires cleared s e h = absurd h

run-lookup :
    (token : Text) (expires : Time) (cs : List SessionCall) (s : Sessions)
    → lookup token s ≡ some expires
    → All (LeavesAlone token expires) cs
    → lookup token (session_run cs s) ≡ some expires
unfolding session_run
run-lookup token expires [] s e a = e
run-lookup token expires (c ∷ cs) s e a =
    run-lookup token expires cs (session_step c s) (step-lookup token expires c s e a.0) a.1

check_of-missing :
    (other token : Text) (now : Time) (s : Sessions) (o : Option Time)
    → lookup token s ≡ none
    → lookup token (is_valid_until other now s o).1 ≡ none
check_of-missing other token now s o e = elim (Bool-cases (text_eq other token)) [
  | inl same ↦ rw (text_eq_sound other token same) (self o)
  | inr ne ↦ check_of-lookup other token now s o ne ∙ e
]
  where
    self : (o : Option Time) → lookup token (is_valid_until token now s o).1 ≡ none
    self none = lookup-remove token s
    self (some expires) = elim (Bool-cases (ltb expires now)) [
      | inl late ↦ rw late (lookup-remove token s)
      | inr early ↦ rw early e
    ]

step-missing :
    (token : Text) (c : SessionCall) (s : Sessions)
    → lookup token s ≡ none
    → CreatesNot token c
    → lookup token (session_step c s) ≡ none
unfolding session_step create delete reset valid lookup
step-missing token (created other now) s e h = lookup-put_ne token other (now + hours 12) s h ∙ e
step-missing token (checked other now) s e h = check_of-missing other token now s _ e
step-missing token (deleted other) s e h = elim (Bool-cases (text_eq other token)) [
  | inl same ↦ rw (text_eq_sound other token same) (lookup-remove token s)
  | inr ne ↦ lookup-remove_ne token other s ne ∙ e
]
step-missing token cleared s e h = refl

run-missing :
    (token : Text) (cs : List SessionCall) (s : Sessions)
    → lookup token s ≡ none
    → All (CreatesNot token) cs
    → lookup token (session_run cs s) ≡ none
unfolding session_run
run-missing token [] s e a = e
run-missing token (c ∷ cs) s e a =
    run-missing token cs (session_step c s) (step-missing token c s e a.0) a.1

valid_of-lookup :
    (token : Text) (now : Time) (s : Sessions) (o : Option Time)
    → lookup token s ≡ o
    → (valid token now s).0 ≡ elim o [ none ↦ false | some expires ↦ leb now expires ]
unfolding valid
valid_of-lookup token now s none e = rw e refl
valid_of-lookup token now s (some expires) e = rw e (ground arith)

-- A session is valid for twelve hours: after any calls that do not touch its token, except checks
-- within that time, its token is valid exactly up to twelve hours after its creation.
pub valid-create :
    (token : Text) (start now : Time) (cs : List SessionCall) (s : Sessions)
    → All (LeavesAlone token (start + hours 12)) cs
    → (valid token now (session_run cs (create token start s))).0 ≡ leb now (start + hours 12)
unfolding create
valid-create token start now cs s a =
    valid_of-lookup token now _ (some (start + hours 12))
      (run-lookup token (start + hours 12) cs _ (lookup-put token (start + hours 12) s) a)

-- A session that is deleted, and every session after a reset, stays invalid until its token is
-- created again.
pub valid-delete :
    (token : Text) (now : Time) (cs : List SessionCall) (s : Sessions)
    → All (CreatesNot token) cs
    → ((valid token now (session_run cs (delete token s))).0 ≡ false)
      × ((valid token now (session_run cs (reset s))).0 ≡ false)
unfolding delete reset lookup
valid-delete token now cs s a = (
  valid_of-lookup token now _ none (run-missing token cs _ (lookup-remove token s) a),
  valid_of-lookup token now _ none (run-missing token cs _ refl a),
)
