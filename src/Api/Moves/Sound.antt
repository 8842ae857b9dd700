-- ===== src/Api/Moves/Sound.antt =====
-- Any requests, whatever they ask and whoever sends them, keep what makes the service sound.
use opencode_proxy.Base.{◌≡◌, ◌≢◌, sym, subst, true, List, [], ◌∷◌, All, Option, some}
use opencode_proxy.Store.Steps.{Reach_invariant}
use opencode_proxy.Store.Consistency.{Step-IsConsistent}
use opencode_proxy.Store.Consistency.Tables.{IsConsistent}
use opencode_proxy.Identity.{DiskState, Instance, Persist, written_unreadable}
use opencode_proxy.Identity.Passwords.{Hashing}
use opencode_proxy.Identity.Rollback.{IsBounded}
use opencode_proxy.Time.{Time}
use opencode_proxy.Identity.Opening.{is_master_key, running, Legacy, open_manager, stored_of}
use opencode_proxy.Identity.Restart.{IsDurable, open_manager-stored}
use opencode_proxy.Api.Server.{Backend, Server}
use opencode_proxy.Api.Router.{handle, Request, serve_all}
use opencode_proxy.Api.Moves.Requests.{handle-Moves}

-- The table of keys is consistent, the file of the identity has what the memory has, with a key that
-- makes a cipher, and at most 100 tokens of clients are held.
pub record IsSound (b : Backend) (s : Server) : Type 0 where
  pub consistent : IsConsistent s.world.db
  pub durable : IsDurable b.hashing s.identity
  pub bounded : IsBounded s.identity.state

-- A request that draws 32 bytes where it draws a master key, and during which no write of the file ends
-- with a failed Chmod.
abbrev pub IsOrdinary : Backend → Request → Type 0
IsOrdinary b r =
    (is_master_key (b.hashing.unbase64_padded r.visit.master_key) ≡ true)
    × (r.visit.persist ≢ written_unreadable)

handle-IsSound :
    (b : Backend) (r : Request) (s : Server)
    → IsOrdinary b r
    → IsSound b s
    → IsSound b (handle b r.elapsed r.visit r.route s)
handle-IsSound b r s o k =
    let m = handle-Moves b r.visit r.elapsed r.route s o.0 in
    record {
      consistent = Reach_invariant Step-IsConsistent k.consistent m.reach;
      durable = m.durable o.1 k.durable;
      bounded = m.bounded k.bounded;
    }

served-IsSound :
    (b : Backend) (rs : List Request) (s : Server)
    → All (IsOrdinary b) rs
    → IsSound b s
    → IsSound b (serve_all b rs s)
unfolding serve_all
served-IsSound b [] s o k = k
served-IsSound b (r ∷ rs) s o k = served-IsSound b rs _ o.1 (handle-IsSound b r s o.0 k)

restarted :
    (h : Hashing) (p : Persist) (l : Legacy) (now : Time) (i : Instance) (d : DiskState)
    → i.state ≡ some d
    → IsDurable h i
    → (open_manager h p l now (stored_of i.file)).0 ≡ running i
restarted h p l now i d e k =
    subst
      (λ (o : Option DiskState).
        IsDurable h (record { state = o; file = i.file })
        → (open_manager h p l now (stored_of i.file)).0
          ≡ running (record { state = o; file = i.file }))
      (sym e) (open_manager-stored h p l now d i.file) k

-- After any requests, of whomever and to whatever routes, the service is as sound as before them: the
-- table of keys is consistent, at most 100 tokens are held, and the file of the identity has what the
-- memory has, so that a restart opens the same identity. Where a master key is drawn it has 32 bytes,
-- and no write of the file ends with a failed Chmod.
pub serve_all-IsSound :
    (b : Backend) (rs : List Request) (s : Server) (p : Persist) (l : Legacy) (now : Time)
    → All (IsOrdinary b) rs
    → IsSound b s
    → IsSound b (serve_all b rs s)
      × ((d : DiskState)
          → (serve_all b rs s).identity.state ≡ some d
          → (open_manager b.hashing p l now (stored_of (serve_all b rs s).identity.file)).0
            ≡ running (serve_all b rs s).identity)
serve_all-IsSound b rs s p l now o k =
    let sound = served-IsSound b rs s o k in
    (sound, λ d e. restarted b.hashing p l now (serve_all b rs s).identity d e sound.durable)
