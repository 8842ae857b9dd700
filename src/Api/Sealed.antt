-- ===== src/Api/Sealed.antt =====
-- What a request without credentials can do in internal/httpapi.
pub mod Anonymous
use opencode_proxy.Base.{
  ℕ, ◌+◌, refl, Bool, true, false, not, Option, none, some, String, ◌++◌, if◌then◌else◌,
}
use opencode_proxy.Text.{Text, codes, trim_space}
use opencode_proxy.Proxy.World.{set_header}
use opencode_proxy.Proxy.Failover.Answers.{Replies, write_json-Replies, written-Replies}
use opencode_proxy.Identity.{
  Outcome, done, refused, already_initialized, Secrets, Client, initialize,
}
use opencode_proxy.Identity.Opening.{is_initialized}
use opencode_proxy.Api.Enrollments.{Enrollment, consume}
use opencode_proxy.Api.Gates.{same_origin}
use opencode_proxy.Api.Server.{
  Backend, Visit, Server, Answer, reply, reply_error, write_text, set_response_header, no_store,
  not_found_page, error_text, setup_needed, initialized, initialized_with, acknowledged,
  enrolled_client, health, ready,
}
use opencode_proxy.Api.Account.{
  set_up, open_session, setup_status, setup_result, setup_initialize, is_password, login,
}
use opencode_proxy.Api.Clients.{
  client_install, install_type, normalize_client_base_url, issue_for, with_identity,
  enrolled_answer, enroll_named, enroll_at, enroll_decoded, client_enroll,
}
use opencode_proxy.Api.Providers.{client_providers, default_model}
use opencode_proxy.Api.Router.{PublicRoute, serve_public}

-- One status line and only bytes behind it; no call of the upstream, and the database as it was.
abbrev pub IsAnswered : Server → Server → Type 0
IsAnswered s t = (status : ℕ) × Replies status s.world t.world

module _ (b : Backend) where
  reply-IsAnswered : (status : ℕ) (a : Answer) (s : Server) → IsAnswered s (reply b status a s)
  unfolding reply
  reply-IsAnswered status a s = (status, write_json-Replies b.env status (b.encode a) s.world)

  error-IsAnswered :
      (status : ℕ) (message : String) (s : Server) → IsAnswered s (reply_error b status message s)
  error-IsAnswered status message s = reply-IsAnswered status (error_text (codes message)) s

  text-IsAnswered : (status : ℕ) (x : Text) (s : Server) → IsAnswered s (write_text b status x s)
  unfolding write_text
  text-IsAnswered status x s = (status, written-Replies b.env x status s.world s.world refl refl)

  not_found-IsAnswered : (s : Server) → IsAnswered s (not_found_page b s)
  unfolding set_header
  not_found-IsAnswered s = text-IsAnswered 404 (codes "404 page not found\n") (
      set_response_header (codes "X-Content-Type-Options") (codes "nosniff")
        (set_response_header (codes "Content-Type") (codes "text/plain; charset=utf-8") s))

  if-IsAnswered :
      (c : Bool) (s t u : Server)
      → IsAnswered s t
      → IsAnswered s u
      → IsAnswered s (if c then t else u)
  if-IsAnswered true s t u m n = m
  if-IsAnswered false s t u m n = n

  module _ (v : Visit) where
    setup_result-IsAnswered :
        (r : Outcome Secrets) (s : Server) → IsAnswered s (setup_result b v r s)
    unfolding set_header
    setup_result-IsAnswered (done x) s =
        reply-IsAnswered 201 (initialized_with x) (open_session b v s)
    setup_result-IsAnswered (refused already_initialized) s = not_found-IsAnswered s
    setup_result-IsAnswered (refused _) s = error-IsAnswered 500 "internal server error" s

    set_up-IsAnswered : (s : Server) → IsAnswered s (set_up b v s)
    set_up-IsAnswered s =
        let (result, new) =
          initialize b.hashing v.persist v.master_key v.access_key s.world.clock s.identity in
        setup_result-IsAnswered result (with_identity new s)

    setup-IsAnswered : (s : Server) → IsAnswered s (setup_initialize b v s)
    unfolding setup_initialize set_header
    setup-IsAnswered s =
        if-IsAnswered (is_initialized s.identity) s (not_found_page b (no_store s)) _
          (not_found-IsAnswered (no_store s))
          (if-IsAnswered (not (same_origin v.request)) s
            (reply_error b 403 "cross-origin request rejected" (no_store s)) _
            (error-IsAnswered 403 "cross-origin request rejected" (no_store s))
            (set_up-IsAnswered (no_store s)))

    login-IsAnswered : (p : Option Text) (s : Server) → IsAnswered s (login b v p s)
    unfolding login set_header
    login-IsAnswered p s =
        if-IsAnswered (not (is_initialized s.identity)) s
          (reply b 503 (setup_needed (codes "instance setup is required")) s) _
          (reply-IsAnswered 503 (setup_needed (codes "instance setup is required")) s)
          (if-IsAnswered (is_password b p s.identity) s
            (reply b 200 acknowledged (open_session b v s)) _
            (reply-IsAnswered 200 acknowledged (open_session b v s))
            (error-IsAnswered 401 "invalid password" s))

    enrolled-IsAnswered :
        (base : Text) (r : Outcome (Client × Text)) (s : Server)
        → IsAnswered s (enrolled_answer b base r s)
    enrolled-IsAnswered base (refused e) s = error-IsAnswered 500 "internal server error" s
    enrolled-IsAnswered base (done (client, token)) s =
        reply-IsAnswered 201
          (enrolled_client client token default_model (client_providers (base ++ codes "/v1"))) s

    named-IsAnswered :
        (base : Text) (e : Option Enrollment) (s : Server)
        → IsAnswered s (enroll_named b v base e s)
    named-IsAnswered base none s =
        error-IsAnswered 401 "pairing ticket is invalid, expired, or already used" s
    named-IsAnswered base (some e) s =
        let (result, new) = issue_for b v e.name s in
        enrolled-IsAnswered base result (with_identity new s)

    at-IsAnswered :
        (pairing : Text) (base : Option Text) (s : Server)
        → IsAnswered s (enroll_at b v pairing base s)
    at-IsAnswered pairing none s = error-IsAnswered 400 "base_url must be an HTTP or HTTPS origin" s
    at-IsAnswered pairing (some base) s =
        let (e, rest) = consume b.ticket_hash (trim_space pairing) s.world.clock s.tickets in
        named-IsAnswered base e (record s { tickets = rest })

    decoded-IsAnswered :
        (input : Option (Text × Text)) (s : Server) → IsAnswered s (enroll_decoded b v input s)
    decoded-IsAnswered none s = error-IsAnswered 400 "invalid request" s
    decoded-IsAnswered (some (pairing, url)) s =
        at-IsAnswered pairing (normalize_client_base_url b url) s

    serve_public-IsAnswered : (r : PublicRoute) (s : Server) → IsAnswered s (serve_public b v r s)
    unfolding serve_public setup_status client_install client_enroll set_header
    serve_public-IsAnswered PublicRoute.get_live s = reply-IsAnswered 200 (health (codes "ok")) s
    serve_public-IsAnswered PublicRoute.get_ready s =
        reply-IsAnswered 200 (ready (is_initialized s.identity)) s
    serve_public-IsAnswered PublicRoute.get_setup_status s =
        reply-IsAnswered 200 (initialized (is_initialized s.identity)) (no_store s)
    serve_public-IsAnswered PublicRoute.post_setup_initialize s = setup-IsAnswered s
    serve_public-IsAnswered (PublicRoute.get_install power_shell) s =
        text-IsAnswered 200 (b.install_script power_shell) (
          set_response_header (codes "Cache-Control") (codes "public, max-age=300")
            (set_response_header (codes "Content-Type") (install_type power_shell) s))
    serve_public-IsAnswered (PublicRoute.post_enroll input) s =
        if-IsAnswered (is_initialized s.identity) s (enroll_decoded b v input (no_store s)) _
          (decoded-IsAnswered input (no_store s))
          (reply-IsAnswered 503 (error_text (codes "instance setup is required")) (no_store s))
    serve_public-IsAnswered (PublicRoute.post_login p) s = login-IsAnswered p s
