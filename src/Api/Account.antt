-- ===== src/Api/Account.antt =====
-- The setup, the login and the access key: `setupStatus`, `setupInitialize`, `login`, `logout`,
-- `accessKeyStatus` and `changeAccessKey` of internal/httpapi/api.go.
use opencode_proxy.Base.{Bool, false, not, Option, none, some, if◌then◌else◌}
use opencode_proxy.Text.{Text, codes}
use opencode_proxy.Identity.{
  Instance, Outcome, done, refused, already_initialized, Secrets, initialize, rotate_access_key,
}
use opencode_proxy.Identity.Opening.{is_initialized, verify_admin, unified_access_enabled}
use opencode_proxy.Api.Sessions.{create, delete, reset}
use opencode_proxy.Api.Gates.{same_origin}
use opencode_proxy.Api.Server.{
  Backend, Visit, Server, setup_needed, identity_error, acknowledged, initialized, initialized_with,
  unified, access_key_changed, reply, reply_error, server_error, set_response_header, no_store,
  not_found_page,
}

-- `sessions.create` and the cookie of the session.
abbrev pub open_session : Backend → Visit → Server → Server
open_session b v s =
    set_response_header (codes "Set-Cookie") (b.session_cookie v.session_token v.is_tls)
      (record s { sessions = create v.session_token s.world.clock s.sessions })

unfoldable pub setup_status : Backend → Server → Server
setup_status b s = reply b 200 (initialized (is_initialized s.identity)) (no_store s)

abbrev pub setup_result : Backend → Visit → Outcome Secrets → Server → Server
setup_result b v (done secrets) s = reply b 201 (initialized_with secrets) (open_session b v s)
setup_result b v (refused already_initialized) s = not_found_page b s
setup_result b v (refused e) s = server_error b s

-- Behind the early tests: `Manager.Initialize`, and its result.
abbrev pub set_up : Backend → Visit → Server → Server
set_up b v s =
    let (result, new) =
      initialize b.hashing v.persist v.master_key v.access_key s.world.clock s.identity in
    setup_result b v result (record s { identity = new })

unfoldable pub setup_initialize : Backend → Visit → Server → Server
unfolding same_origin
setup_initialize b v s =
    if is_initialized s.identity
    then not_found_page b (no_store s)
    else if not (same_origin v.request)
    then reply_error b 403 "cross-origin request rejected" (no_store s)
    else set_up b v (no_store s)

abbrev pub is_password : Backend → Option Text → Instance → Bool
is_password b none i = false
is_password b (some password) i = verify_admin b.hashing password i

-- `login`; `none` is a body that is no JSON.
unfoldable pub login : Backend → Visit → Option Text → Server → Server
login b v password s =
    if not (is_initialized s.identity)
    then reply b 503 (setup_needed (codes "instance setup is required")) s
    else if is_password b password s.identity
    then reply b 200 acknowledged (open_session b v s)
    else reply_error b 401 "invalid password" s

abbrev pub without_session : Option Text → Server → Server
without_session none s = s
without_session (some token) s = record s { sessions = delete token s.sessions }

unfoldable pub logout : Backend → Visit → Server → Server
logout b v s =
    reply b 200 acknowledged (
      set_response_header (codes "Set-Cookie") b.expired_cookie
        (without_session v.request.cookie s))

unfoldable pub access_key_status : Backend → Server → Server
access_key_status b s = reply b 200 (unified (unified_access_enabled s.identity)) s

abbrev pub access_key_result : Backend → Visit → Outcome Text → Server → Server
access_key_result b v (refused e) s = reply b 400 (identity_error e) s
access_key_result b v (done key) s =
    reply b 200 (access_key_changed key)
      (open_session b v (record s { sessions = reset s.sessions }))

abbrev pub change_to : Backend → Visit → Text → Server → Server
change_to b v requested s =
    let (result, new) =
      rotate_access_key b.hashing v.persist requested v.access_key s.world.clock s.identity in
    access_key_result b v result (record s { identity = new })

-- `changeAccessKey`; `none` is a body that is no JSON or over 8 KiB.
unfoldable pub change_access_key : Backend → Visit → Option Text → Server → Server
change_access_key b v none s = reply_error b 400 "invalid request" (no_store s)
change_access_key b v (some requested) s = change_to b v requested (no_store s)
