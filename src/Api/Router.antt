-- ===== src/Api/Router.antt =====
-- `Router` of internal/httpapi/api.go: which handler is behind which gate. The matching of methods and
-- paths is chi's; a request comes as the route it has matched, with its decoded body. The handler of
-- the files of the console is in Web.
use opencode_proxy.Base.{ℕ, ◌+◌, Bool, true, false, List, [], ◌∷◌, Option, none, some, is_some}
use opencode_proxy.Text.{Text, codes}
use opencode_proxy.Store.Types.{Settings, Protocol}
use opencode_proxy.Proxy.Header.{Header}
use opencode_proxy.Proxy.World.{Env, World, Incoming, write_json, error_body}
use opencode_proxy.Proxy.Models.{handle_models}
use opencode_proxy.Identity.{Instance, Principal, authenticate_proxy}
use opencode_proxy.Identity.Opening.{is_initialized}
use opencode_proxy.Api.Keys.{KeyInput}
use opencode_proxy.Api.Gates.{
  Gate, setup_required, unauthenticated, cross_origin, admitted, admin_auth, proxy_auth,
  proxy_token,
}
use opencode_proxy.Api.Server.{
  Backend, Visit, Server, setup_needed, authenticated, health, ready, reply, reply_error,
  set_response_header,
}
use opencode_proxy.Api.Account.{
  setup_status, setup_initialize, login, logout, access_key_status, change_access_key,
}
use opencode_proxy.Api.Pool.{
  CreateInput, list_all_keys, create_key_handler, update_key_handler, delete_key_handler,
  activate_key_handler, test_key_handler,
}
use opencode_proxy.Api.Import.{ImportInput, import_keys}
use opencode_proxy.Api.Clients.{
  client_install, create_client_enrollment, client_enroll, list_tokens, create_client_token,
  rename_token, revoke_token,
}
use opencode_proxy.Api.Overview.{
  show_settings, update_settings_handler, show_requests, show_dashboard, client_dashboard, events,
}

-- The routes behind `adminAuth`.
pub data AdminRoute : Type 0 where
  get_me : AdminRoute
  post_logout : AdminRoute
  get_keys : AdminRoute
  post_keys : Option CreateInput → AdminRoute
  post_keys_import : Option ImportInput → AdminRoute
  patch_key : Text → Option KeyInput → AdminRoute
  delete_key : Text → AdminRoute
  post_key_activate : Text → AdminRoute
  post_key_test : Text → Bool → AdminRoute
  get_settings : AdminRoute
  put_settings : Option Settings → AdminRoute
  get_access_key : AdminRoute
  put_access_key : Option Text → AdminRoute
  get_client_tokens : AdminRoute
  post_client_tokens : Option Text → AdminRoute
  patch_client_token : Text → Option Text → AdminRoute
  post_client_enrollments : Option Text → AdminRoute
  delete_client_token : Text → AdminRoute
  get_client_dashboard : Text → AdminRoute
  get_requests : Text → Text → Text → AdminRoute
  get_dashboard : Text → AdminRoute
  get_stream : ℕ → AdminRoute

-- The routes without a gate.
pub data PublicRoute : Type 0 where
  get_live : PublicRoute
  get_ready : PublicRoute
  get_setup_status : PublicRoute
  post_setup_initialize : PublicRoute
  get_install : Bool → PublicRoute
  post_enroll : Option (Text × Text) → PublicRoute
  post_login : Option Text → PublicRoute

-- `models` and `inference` are behind `proxyAuth`; the text is the id that the request is given.
pub data Route : Type 0 where
  open_to_all : PublicRoute → Route
  for_admin : AdminRoute → Route
  models : Header → Route
  inference : Protocol → Incoming → Text → Route

unfoldable pub serve_admin : Backend → Visit → AdminRoute → Server → Server
unfolding logout list_all_keys create_key_handler import_keys update_key_handler delete_key_handler
    activate_key_handler test_key_handler show_settings update_settings_handler access_key_status
    change_access_key list_tokens create_client_token rename_token create_client_enrollment
    revoke_token client_dashboard show_requests show_dashboard events
serve_admin b v get_me s = reply b 200 authenticated s
serve_admin b v post_logout s = logout b v s
serve_admin b v get_keys s = list_all_keys b s
serve_admin b v (post_keys input) s = create_key_handler b input s
serve_admin b v (post_keys_import input) s = import_keys b input s
serve_admin b v (patch_key id input) s = update_key_handler b id input s
serve_admin b v (delete_key id) s = delete_key_handler b id s
serve_admin b v (post_key_activate id) s = activate_key_handler b id s
serve_admin b v (post_key_test id with_inference) s = test_key_handler b id with_inference s
serve_admin b v get_settings s = show_settings b s
serve_admin b v (put_settings input) s = update_settings_handler b input s
serve_admin b v get_access_key s = access_key_status b s
serve_admin b v (put_access_key input) s = change_access_key b v input s
serve_admin b v get_client_tokens s = list_tokens b s
serve_admin b v (post_client_tokens input) s = create_client_token b v input s
serve_admin b v (patch_client_token id input) s = rename_token b v id input s
serve_admin b v (post_client_enrollments input) s = create_client_enrollment b v input s
serve_admin b v (delete_client_token id) s = revoke_token b v id s
serve_admin b v (get_client_dashboard window) s = client_dashboard b window s
serve_admin b v (get_requests limit key_id model) s = show_requests b limit key_id model s
serve_admin b v (get_dashboard window) s = show_dashboard b window s
serve_admin b v (get_stream n) s = events b n s

unfoldable pub serve_public : Backend → Visit → PublicRoute → Server → Server
unfolding setup_status setup_initialize client_install client_enroll login
serve_public b v get_live s = reply b 200 (health (codes "ok")) s
serve_public b v get_ready s = reply b 200 (ready (is_initialized s.identity)) s
serve_public b v get_setup_status s = setup_status b s
serve_public b v post_setup_initialize s = setup_initialize b v s
serve_public b v (get_install power_shell) s = client_install b power_shell s
serve_public b v (post_enroll input) s = client_enroll b v input s
serve_public b v (post_login password) s = login b v password s

-- What `adminAuth` answers, or the handler behind it.
abbrev pub gated : Backend → Visit → AdminRoute → Gate → Server → Server
gated b v r setup_required s = reply b 503 (setup_needed (codes "instance setup is required")) s
gated b v r unauthenticated s = reply_error b 401 "admin authentication required" s
gated b v r cross_origin s = reply_error b 403 "cross-origin request rejected" s
gated b v r admitted s = serve_admin b v r s

unfoldable pub through_admin_auth : Backend → Visit → AdminRoute → Server → Server
unfolding admin_auth
through_admin_auth b v r s =
    let (gate, sessions) =
      admin_auth (is_initialized s.identity) v.request s.world.clock s.sessions in
    gated b v r gate (record s { sessions = sessions })

abbrev pub models_for : Env → Bool → Option Principal → World → World
models_for env false p w =
    write_json env 503 (error_body (codes "OpencodeProxy setup is required") "setup_required") w
models_for env true none w =
    write_json env 401 (error_body (codes "Invalid proxy token") "authentication_error") w
models_for env true (some p) w = handle_models env w

-- `proxyAuth` in front of `HandleModels`.
unfoldable pub proxy_auth_models : Backend → Instance → Header → World → World
unfolding proxy_token authenticate_proxy
proxy_auth_models b i header w =
    models_for b.env (is_some i.state) (authenticate_proxy b.hashing (proxy_token header) i) w

-- `securityHeaders`, on a new response.
abbrev pub content_policy : Text
content_policy =
    codes
      "default-src 'self'; style-src 'self' 'unsafe-inline'; script-src 'self'; connect-src 'self'"

unfoldable pub security_headers : Server → Server
security_headers s = set_response_header (codes "Content-Security-Policy") content_policy (
    set_response_header (codes "Referrer-Policy") (codes "no-referrer") (
      set_response_header (codes "X-Frame-Options") (codes "DENY") (
        set_response_header (codes "X-Content-Type-Options") (codes "nosniff")
          (record s { world = record s.world { header = [] } }))))

abbrev pub routed : Backend → Visit → Route → Server → Server
routed b v (open_to_all r) s = serve_public b v r s
routed b v (for_admin r) s = through_admin_auth b v r s
routed b v (models header) s = record s { world = proxy_auth_models b s.identity header s.world }
routed b v (inference protocol incoming id) s = record s {
  world = proxy_auth b.env b.hashing s.identity protocol incoming id s.world;
}

-- A request, some time after the one before it.
unfoldable pub handle : Backend → ℕ → Visit → Route → Server → Server
unfolding security_headers
handle b elapsed v r s =
    routed b v r
      (security_headers (record s { world = record s.world { clock = s.world.clock + elapsed } }))

-- Requests one after another.
pub record Request : Type 0 where
  pub elapsed : ℕ
  pub visit : Visit
  pub route : Route

unfoldable pub serve_all : Backend → List Request → Server → Server
unfolding handle
serve_all b [] s = s
serve_all b (r ∷ rs) s = serve_all b rs (handle b r.elapsed r.visit r.route s)
