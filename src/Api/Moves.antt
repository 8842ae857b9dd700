-- ===== src/Api/Moves.antt =====
-- What the handlers of internal/httpapi may do to the state that they share: steps of the store, and
-- operations of the identity manager.
pub mod Pool
pub mod Import
pub mod Identities
pub mod Clients
pub mod Requests
pub mod Sound
use opencode_proxy.Base.{ℕ, ◌≢◌, Bool, true, false, if◌then◌else◌}
use opencode_proxy.Text.{Text}
use opencode_proxy.Store.Steps.{Reach, here, Reach-trans}
use opencode_proxy.Proxy.World.{World, write_json, write_header, set_header}
use opencode_proxy.Proxy.Failover.Answers.{write_json-Answers, write-Sends}
use opencode_proxy.Identity.{Persist, written_unreadable}
use opencode_proxy.Identity.Rollback.{IsBounded}
use opencode_proxy.Identity.Restart.{IsDurable}
use opencode_proxy.Api.Server.{
  Backend, Server, Answer, reply, write_text, write_more, set_response_header,
}

-- From one state to another: the database by steps of the store; the identity stays durable if no
-- write of its file ends with a failed Chmod, and holds at most 100 tokens.
pub record Moves (b : Backend) (p : Persist) (s t : Server) : Type 0 where
  pub reach : Reach s.world.db t.world.db
  pub durable :
      p ≢ written_unreadable → IsDurable b.hashing s.identity → IsDurable b.hashing t.identity
  pub bounded : IsBounded s.identity.state → IsBounded t.identity.state

module _ {b : Backend} {p : Persist} where
  pub Moves-refl : (s : Server) → Moves b p s s
  Moves-refl s = record { reach = here; durable = λ w d. d; bounded = λ c. c }

  pub Moves-trans : {s t u : Server} → Moves b p s t → Moves b p t u → Moves b p s u
  Moves-trans m n = record {
    reach = Reach-trans m.reach n.reach;
    durable = λ w d. n.durable w (m.durable w d);
    bounded = λ c. n.bounded (m.bounded c);
  }

  -- Where only the world changes.
  pub Moves-of_Reach :
      (s : Server) (w : World) → Reach s.world.db w.db → Moves b p s (record s { world = w })
  Moves-of_Reach s w r = record { reach = r; durable = λ x d. d; bounded = λ c. c }

  pub reply-Moves : (status : ℕ) (a : Answer) (s : Server) → Moves b p s (reply b status a s)
  unfolding reply
  reply-Moves status a s =
      Moves-of_Reach s (write_json b.env status (b.encode a) s.world)
        (write_json-Answers b.env status (b.encode a) s.world).reach

  pub write_text-Moves :
      (status : ℕ) (t : Text) (s : Server) → Moves b p s (write_text b status t s)
  unfolding write_text write_header
  write_text-Moves status t s =
      Moves-of_Reach s _ (write-Sends b.env t (write_header status s.world)).reach

  pub write_more-Moves : (t : Text) (s : Server) → Moves b p s (write_more b t s)
  unfolding write_more
  write_more-Moves t s = Moves-of_Reach s _ (write-Sends b.env t s.world).reach

  pub header-Moves : (name v : Text) (s : Server) → Moves b p s (set_response_header name v s)
  unfolding set_header
  header-Moves name v s = Moves-of_Reach s _ here

  pub header_status-Moves :
      (status : ℕ) (s : Server) → Moves b p s (record s { world = write_header status s.world })
  unfolding write_header
  header_status-Moves status s = Moves-of_Reach s _ here

  pub if-Moves :
      (c : Bool) (s t u : Server) → Moves b p s t → Moves b p s u → Moves b p s (if c then t else u)
  if-Moves true s t u m n = m
  if-Moves false s t u m n = n
