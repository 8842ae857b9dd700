-- ===== src/Examples/Access.antt =====
-- The properties of sessions, tickets and the identity of the instance at concrete values.
use opencode_proxy.Base.{
  ◌≡◌, refl, Bool, true, List, [], ◌∷◌, none, some, leb, ◌+◌, if◌then◌else◌, arith,
}
use opencode_proxy.Text.{Text, codes, text_eq}
use opencode_proxy.Time.{hours, minutes}
use opencode_proxy.Api.Sessions.{create, valid, SessionCall, created, checked, session_run}
use opencode_proxy.Api.Sessions.Lifetime.{valid-create}
use opencode_proxy.Api.Enrollments.{enroll, consume, TicketCall, enrolled, consumed, ticket_run}
use opencode_proxy.Api.Enrollments.OneTime.{consume-consume, consume-enroll}
use opencode_proxy.Examples.Startup.{plain, hashing}
use opencode_proxy.Identity.{
  Client, DiskState, Instance, written, written_unreadable, Secrets, Outcome, initialize,
  rotate_access_key, issue_client_token, revoke_client_token, rename_client_token,
  authenticate_proxy,
}
use opencode_proxy.Identity.Rollback.{IsAtomic, operations-IsAtomic}
use opencode_proxy.Identity.Access.{authenticate-revoke}

-- Another session is made, and the first one is looked at.
abbrev pub session_calls : List SessionCall
session_calls = created (codes "bb") (hours 2) ∷ checked (codes "aa") (hours 3) ∷ []

valid-create_example :
    (valid (codes "aa") (hours 14) (session_run session_calls (create (codes "aa") (hours 1) []))).0
    ≡ leb (hours 14) (hours 1 + hours 12)
unfolding text_eq
valid-create_example =
    valid-create (codes "aa") (hours 1) (hours 14) session_calls [] (refl, ((λ _. omega arith), tt))

abbrev ticket_calls : List TicketCall
ticket_calls =
    enrolled (codes "t2") (codes "desk") (minutes 5) ∷ consumed (codes "t2") (minutes 6) ∷ []

consume-consume_example :
    (consume plain (codes "t1") (minutes 3) (
      ticket_run plain ticket_calls
        (consume plain
          (codes "t1")
          (minutes 2)
          (enroll plain (codes "t1") (codes "laptop") (minutes 1) [])).1)).0
    ≡ none
unfolding text_eq
consume-consume_example =
    consume-consume plain (codes "t1") (minutes 2) (minutes 3) ticket_calls
      (enroll plain (codes "t1") (codes "laptop") (minutes 1) []) (refl, (tt, tt))

-- Other tickets, within the ten minutes.
consume-enroll_example :
    (consume plain
      (codes "t1")
      (minutes 8)
      (ticket_run plain ticket_calls (enroll plain (codes "t1") (codes "laptop") (minutes 1) []))).0
    ≡ (if leb (minutes 8) (minutes 1 + minutes 10)
        then some (record { name = codes "laptop"; expires_at = minutes 1 + minutes 10 })
        else none)
unfolding text_eq
consume-enroll_example =
    consume-enroll plain (codes "t1") (codes "laptop") (minutes 1) (minutes 8) ticket_calls []
      ((refl, omega arith), (refl, tt))

abbrev pub first : DiskState
first = record {
  master_key = codes "m";
  admin_password_hash = codes "opm_1";
  proxy_token_hash = codes "opm_1";
  unified_access = true;
  clients = [];
  created_at = 0;
  updated_at = 0;
}

abbrev pub instance_of_first : Instance
instance_of_first = record { state = some first; file = some first }

operations-IsAtomic_example :
    ((master access_key : Text)
      → IsAtomic Secrets written_unreadable instance_of_first
          (initialize hashing written_unreadable master access_key 5 instance_of_first))
    × ((requested drawn : Text)
        → IsAtomic Text written_unreadable instance_of_first
            (rotate_access_key hashing written_unreadable requested drawn 5 instance_of_first))
    × ((name id token : Text)
        → IsAtomic
            (Client × Text)
            written_unreadable
            instance_of_first
            (issue_client_token hashing written_unreadable name id token 5 instance_of_first))
    × ((id : Text)
        → IsAtomic Bool written_unreadable instance_of_first
            (revoke_client_token written_unreadable id 5 instance_of_first))
    × ((id name : Text) (r : Outcome Client × Instance)
        → rename_client_token hashing written_unreadable id name 5 instance_of_first ≡ some r
        → IsAtomic Client written_unreadable instance_of_first r)
operations-IsAtomic_example = operations-IsAtomic hashing written_unreadable 5 instance_of_first

authenticate-revoke_example :
    let i =
      (revoke_client_token written
        (codes "id1")
        6
        (issue_client_token hashing written
          (codes "laptop")
          (codes "id1")
          (codes "opc_1")
          5
          instance_of_first).1).1 in
    (authenticate_proxy hashing (codes "opc_1") i ≡ none)
    × (i.state ≡ some (record first { updated_at = 6 }))
unfolding text_eq
authenticate-revoke_example =
    authenticate-revoke hashing (codes "laptop") (codes "id1") (codes "opc_1") 5 6 first
      (some first) refl (refl, tt) tt
