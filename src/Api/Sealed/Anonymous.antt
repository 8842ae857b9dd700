-- ===== src/Api/Sealed/Anonymous.antt =====
-- What a request with no session, no token, no password and no ticket does in internal/httpapi: the
-- gates in front of the handlers, and the handlers without a gate.
use opencode_proxy.Base.{
  ℕ, ◌+◌, ◌≡◌, ◌≢◌, refl, Bool, true, false, not, Option, none, some, is_some, if◌then◌else◌,
}
use opencode_proxy.Store.Types.{Protocol}
use opencode_proxy.Text.{Text, codes, trim_space}
use opencode_proxy.Proxy.World.{World, Incoming, set_header, error_body}
use opencode_proxy.Proxy.Failover.Answers.{Replies, write_json-Replies}
use opencode_proxy.Identity.{Instance, Principal, authenticate_proxy}
use opencode_proxy.Identity.Opening.{is_initialized}
use opencode_proxy.Api.Enrollments.{Enrollment, consume}
use opencode_proxy.Api.Gates.{
  Gate, setup_required, unauthenticated, cross_origin, admitted, admin_auth, proxy_token,
  proxy_auth, if_ready,
}
use opencode_proxy.Api.Server.{Backend, Visit, Server, reply, write_text, no_store, setup_needed}
use opencode_proxy.Api.Account.{setup_status, setup_initialize, is_password, login}
use opencode_proxy.Api.Clients.{
  client_install, enroll_named, normalize_client_base_url, enroll_at, client_enroll,
}
use opencode_proxy.Api.Router.{
  PublicRoute, AdminRoute, Route, open_to_all, for_admin, models, inference, serve_public, gated,
  through_admin_auth, models_for, routed, proxy_auth_models, security_headers, handle,
}
use opencode_proxy.Api.Sealed.{
  IsAnswered, reply-IsAnswered, error-IsAnswered, serve_public-IsAnswered,
}

-- The credentials of a request to a handler without a gate are the password of a login, the ticket of
-- an enrolment, and for the setup that there has been none.
abbrev pub IsOutside : Backend → Server → PublicRoute → Type 0
IsOutside b s PublicRoute.post_setup_initialize = is_initialized s.identity ≡ true
IsOutside b s (PublicRoute.post_enroll (some (pairing, url))) =
    (consume b.ticket_hash (trim_space pairing) s.world.clock s.tickets).0 ≡ none
IsOutside b s (PublicRoute.post_login p) = is_password b p s.identity ≡ false
IsOutside b s _ = Unit

-- A request at the time of `s` that no gate lets through.
abbrev pub IsAnonymous : Backend → Visit → Server → Route → Type 0
IsAnonymous b v s (open_to_all r) = IsOutside b s r
IsAnonymous b v s (for_admin r) =
    (admin_auth (is_initialized s.identity) v.request s.world.clock s.sessions).0 ≢ admitted
IsAnonymous b v s (models header) =
    authenticate_proxy b.hashing (proxy_token header) s.identity ≡ none
IsAnonymous b v s (inference protocol r id) =
    authenticate_proxy b.hashing (proxy_token r.header) s.identity ≡ none

-- Answered, with the identity as it was.
abbrev pub IsKept : Server → Server → Type 0
IsKept s t = IsAnswered s t × (t.identity ≡ s.identity)

module _ (b : Backend) (v : Visit) where
  gated-IsKept :
      (r : AdminRoute) (g : Gate) (s : Server) → g ≢ admitted → IsKept s (gated b v r g s)
  unfolding reply
  gated-IsKept r setup_required s n =
      (reply-IsAnswered b 503 (setup_needed (codes "instance setup is required")) s, refl)
  gated-IsKept r unauthenticated s n =
      (error-IsAnswered b 401 "admin authentication required" s, refl)
  gated-IsKept r cross_origin s n = (error-IsAnswered b 403 "cross-origin request rejected" s, refl)
  gated-IsKept r admitted s n = absurd (n refl)

  if-kept :
      (c : Bool) (t u : Server) (i : Instance)
      → t.identity ≡ i
      → u.identity ≡ i
      → (if c then t else u).identity ≡ i
  if-kept true t u i m n = m
  if-kept false t u i m n = n

  named-kept :
      (base : Text) (e : Option Enrollment) (s : Server)
      → e ≡ none
      → (enroll_named b v base e s).identity ≡ s.identity
  unfolding reply
  named-kept base none s m = refl
  named-kept base (some e) s m = absurd (apart e m)
    where
      apart : (e : Enrollment) → some e ≢ none
      apart e m = cc

  at-kept :
      (pairing : Text) (base : Option Text) (s : Server)
      → (consume b.ticket_hash (trim_space pairing) s.world.clock s.tickets).0 ≡ none
      → (enroll_at b v pairing base s).identity ≡ s.identity
  unfolding reply
  at-kept pairing none s m = refl
  at-kept pairing (some base) s m =
      let (e, rest) = consume b.ticket_hash (trim_space pairing) s.world.clock s.tickets in
      named-kept base e (record s { tickets = rest }) m

  outside-kept :
      (r : PublicRoute) (s : Server)
      → IsOutside b s r
      → (serve_public b v r s).identity ≡ s.identity
  unfolding serve_public setup_status setup_initialize client_install client_enroll login reply
      write_text set_header
  outside-kept PublicRoute.get_live s o = refl
  outside-kept PublicRoute.get_ready s o = refl
  outside-kept PublicRoute.get_setup_status s o = refl
  outside-kept PublicRoute.post_setup_initialize s o = rw o refl
  outside-kept (PublicRoute.get_install p) s o = refl
  outside-kept (PublicRoute.post_enroll none) s o =
      if-kept (is_initialized s.identity) _ _ s.identity refl refl
  outside-kept (PublicRoute.post_enroll (some (pairing, url))) s o =
      if-kept (is_initialized s.identity) _ _ s.identity
        (at-kept pairing (normalize_client_base_url b url) (no_store s) o) refl
  outside-kept (PublicRoute.post_login p) s o =
      if-kept (not (is_initialized s.identity)) _ _ s.identity refl (rw o refl)

  refused_models-Replies :
      (ready : Bool) (p : Option Principal) (w : World)
      → p ≡ none
      → (status : ℕ) × Replies status w (models_for b.env ready p w)
  refused_models-Replies false p w e = (
    503,
    write_json-Replies b.env 503
        (error_body (codes "OpencodeProxy setup is required") "setup_required") w,
  )
  refused_models-Replies true none w e = (
    401,
    write_json-Replies b.env 401 (error_body (codes "Invalid proxy token") "authentication_error")
        w,
  )
  refused_models-Replies true (some p) w e = absurd (apart p e)
    where
      apart : (p : Principal) → some p ≢ none
      apart p e = cc

  refused_inference-Replies :
      (ready : Bool) (p : Option Principal) (protocol : Protocol) (r : Incoming) (id : Text)
      (w : World)
      → p ≡ none
      → (status : ℕ) × Replies status w (if_ready b.env p protocol r id w ready)
  refused_inference-Replies false p protocol r id w e = (
    503,
    write_json-Replies b.env 503
        (error_body (codes "OpencodeProxy setup is required") "setup_required") w,
  )
  refused_inference-Replies true none protocol r id w e = (
    401,
    write_json-Replies b.env 401 (error_body (codes "Invalid proxy token") "authentication_error")
        w,
  )
  refused_inference-Replies true (some p) protocol r id w e = absurd (apart p e)
    where
      apart : (p : Principal) → some p ≢ none
      apart p e = cc

  routed-IsKept : (r : Route) (s : Server) → IsAnonymous b v s r → IsKept s (routed b v r s)
  unfolding through_admin_auth proxy_auth_models proxy_auth
  routed-IsKept (open_to_all r) s o = (serve_public-IsAnswered b v r s, outside-kept r s o)
  routed-IsKept (for_admin r) s o =
      let (gate, sessions) =
        admin_auth (is_initialized s.identity) v.request s.world.clock s.sessions in
      gated-IsKept r gate (record s { sessions = sessions }) o
  routed-IsKept (models header) s o = (
    refused_models-Replies (is_some s.identity.state)
        (authenticate_proxy b.hashing (proxy_token header) s.identity) s.world o,
    refl,
  )
  routed-IsKept (inference protocol r id) s o = (
    refused_inference-Replies (is_some s.identity.state)
        (authenticate_proxy b.hashing (proxy_token r.header) s.identity) protocol r id s.world o,
    refl,
  )

-- The server as the request finds it.
abbrev pub later : ℕ → Server → Server
later elapsed s = record s { world = record s.world { clock = s.world.clock + elapsed } }

-- A request that no gate lets through, and one to a handler without a gate that brings no password, no
-- open ticket and is not the first setup, is answered with one status line and only bytes behind it:
-- the upstream is not called, and the database and the identity are as they were.
pub handle-IsKept :
    (b : Backend) (elapsed : ℕ) (v : Visit) (r : Route) (s : Server)
    → IsAnonymous b v (later elapsed s) r
    → IsKept s (handle b elapsed v r s)
unfolding handle security_headers set_header
handle-IsKept b elapsed v r s o = routed-IsKept b v r (security_headers (later elapsed s)) o
