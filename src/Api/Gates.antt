-- ===== src/Api/Gates.antt =====
-- `adminAuth`, `proxyAuth` and `sameOrigin` of internal/httpapi/auth.go: who gets to the handlers of
-- the console and of the proxy.
pub mod Entry
pub mod Revoked
use opencode_proxy.Base.{
  Bool, true, false, ◌&&◌, ◌||◌, not, [], ◌∷◌, ◌++◌, Option, none, some, is_some, if◌then◌else◌,
  exists,
}
use opencode_proxy.Text.{Text, codes, text_eq, trim_space, trim_prefix}
use opencode_proxy.Time.{Time}
use opencode_proxy.Store.Types.{Protocol}
use opencode_proxy.Store.Telemetry.{master_id, master_name}
use opencode_proxy.Proxy.Header.{Header, get}
use opencode_proxy.Proxy.World.{Env, World, Incoming, write_json, error_body}
use opencode_proxy.Proxy.Inference.{handle_inference}
use opencode_proxy.Api.Sessions.{Sessions, valid}
use opencode_proxy.Identity.Passwords.{Hashing}
use opencode_proxy.Identity.{Instance, Principal, master, client, authenticate_proxy}

-- A request of the console, with the session cookie where it has one.
pub record AdminRequest : Type 0 where
  pub method : Text
  pub cookie : Option Text
  pub header : Header
  pub host : Text

unfoldable pub same_origin : AdminRequest → Bool
unfolding get
same_origin r =
    let origin = get (codes "Origin") r.header in
    text_eq origin []
    || text_eq origin (codes "http://" ++ r.host)
    || text_eq origin (codes "https://" ++ r.host)

-- Refused with a status, or passed to the handler.
pub data Gate : Type 0 where
  setup_required : Gate
  unauthenticated : Gate
  cross_origin : Gate
  admitted : Gate

unfoldable pub is_safe_method : Text → Bool
is_safe_method m = exists (text_eq m) (codes "GET" ∷ codes "HEAD" ∷ codes "OPTIONS" ∷ [])

abbrev pub checked_session : Option Text → Time → Sessions → Bool × Sessions
checked_session none now s = (false, s)
checked_session (some token) now s = valid token now s

abbrev pub gate_of : AdminRequest → Bool → Gate
gate_of r false = unauthenticated
gate_of r true =
    if not (is_safe_method r.method) && not (same_origin r) then cross_origin else admitted

-- `adminAuth` on an instance that is initialised or not.
unfoldable pub admin_auth : Bool → AdminRequest → Time → Sessions → Gate × Sessions
admin_auth false r now s = (setup_required, s)
admin_auth true r now s = let c = checked_session r.cookie now s in (gate_of r c.0, c.1)

abbrev pub api_key_if_empty : Header → Text → Text
api_key_if_empty h [] = get (codes "X-Api-Key") h
api_key_if_empty h (c ∷ t) = c ∷ t

-- The token of a request: behind `Bearer `, or under `X-Api-Key`.
unfoldable pub proxy_token : Header → Text
proxy_token h =
    api_key_if_empty h (trim_space (trim_prefix (codes "Bearer ") (get (codes "Authorization") h)))

abbrev pub principal_id : Principal → Text
principal_id master = master_id
principal_id (client id name) = id

abbrev pub principal_name : Principal → Text
principal_name master = master_name
principal_name (client id name) = name

-- `WithProxyPrincipal`.
abbrev pub on_behalf_of : Principal → Incoming → Incoming
on_behalf_of p r = record r { client_id = principal_id p; client_name = principal_name p }

abbrev pub passed_on : Env → Protocol → Incoming → Text → World → Option Principal → World
passed_on env protocol r request_id w none =
    write_json env 401 (error_body (codes "Invalid proxy token") "authentication_error") w
passed_on env protocol r request_id w (some p) =
    handle_inference env protocol (on_behalf_of p r) request_id w

abbrev pub if_ready : Env → Option Principal → Protocol → Incoming → Text → World → Bool → World
if_ready env p protocol r request_id w false =
    write_json env 503 (error_body (codes "OpencodeProxy setup is required") "setup_required") w
if_ready env p protocol r request_id w true = passed_on env protocol r request_id w p

-- `proxyAuth` in front of `HandleInference`.
unfoldable pub proxy_auth : Env → Hashing → Instance → Protocol → Incoming → Text → World → World
proxy_auth env h i protocol r request_id w =
    if_ready env (authenticate_proxy h (proxy_token r.header) i) protocol r request_id w
      (is_some i.state)
