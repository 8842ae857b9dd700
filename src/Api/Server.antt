-- ===== src/Api/Server.antt =====
-- The state that the handlers of internal/httpapi share (`API` and what it points to), and how they
-- answer. The encoding of answers as JSON, the cookies of net/http, net/url and the decoders of
-- request bodies are outside; a body reaches its handler decoded, or as `none`.
use opencode_proxy.Base.{ℕ, Bool, List, Option, String}
use opencode_proxy.Text.{Text, codes}
use opencode_proxy.Time.{Time}
use opencode_proxy.Store.Types.{Key, Settings}
use opencode_proxy.Store.Reports.{ClientAggregate, ReportedRequest}
use opencode_proxy.Store.Reports.Dashboard.{DashboardReport}
use opencode_proxy.Proxy.Json.{Json}
use opencode_proxy.Proxy.World.{Env, World, write_json, set_header, write_header, write}
use opencode_proxy.Proxy.Probe.{TestResult}
use opencode_proxy.Identity.Passwords.{Hashing}
use opencode_proxy.Identity.{Client, Instance, Persist, Secrets, IdentityError}
use opencode_proxy.Api.Sessions.{Sessions}
use opencode_proxy.Api.Enrollments.{Tickets}
use opencode_proxy.Api.Gates.{AdminRequest}

-- `keyImportResult`.
pub data ImportStatus : Type 0 where
  imported : ImportStatus
  duplicate : ImportStatus
  failed : ImportStatus

pub record ImportResult : Type 0 where
  pub line : ℕ
  pub name : Text
  pub fingerprint : Text
  pub status : ImportStatus
  pub error : Text
  pub key : Option Key
  pub test : Option TestResult

-- `clientDashboardItem`; a client that is only known from its requests has no time of creation.
pub record ClientItem : Type 0 where
  pub id : Text
  pub name : Text
  pub is_master : Bool
  pub is_active : Bool
  pub created_at : Option Time
  pub aggregate : Option ClientAggregate

-- What is handed to writeJSON.
pub data Answer : Type 0 where
  error_text : Text → Answer
  setup_needed : Text → Answer
  identity_error : IdentityError → Answer
  acknowledged : Answer
  authenticated : Answer
  health : Text → Answer
  ready : Bool → Answer
  initialized : Bool → Answer
  initialized_with : Secrets → Answer
  unified : Bool → Answer
  access_key_changed : Text → Answer
  all_keys : List Key → Answer
  one_key : Key → Answer
  created_key : Option Key → TestResult → Answer
  import_summary : ℕ → ℕ → ℕ → ℕ → List ImportResult → Answer
  test_result : TestResult → Answer
  test_error : TestResult → Answer
  settings : Settings → Answer
  requests : List ReportedRequest → Answer
  dashboard : DashboardReport → Answer
  client_tokens : List Client → Answer
  one_client : Client → Answer
  issued_token : Client → Text → Answer
  ticket : Text → Time → Answer
  enrolled_client : Client → Text → Text → Json → Answer
  client_dashboard : List ClientItem → Answer

-- `url.URL`, in the part that is looked at.
pub record Url : Type 0 where
  pub scheme : Text
  pub host : Text
  pub has_user : Bool
  pub path : Text
  pub raw_query : Text
  pub fragment : Text

pub record Backend : Type 0 where
  pub env : Env
  pub hashing : Hashing
  pub encode : Answer → Json
  pub fingerprint_of : Text → Text
  pub encrypt : Text → Option Text
  pub ticket_hash : Text → Text
  pub session_cookie : Text → Bool → Text
  pub expired_cookie : Text
  pub parse_url : Text → Option Url
  pub url_text : Url → Text
  pub install_script : Bool → Text

-- One request to the console: its parts, what its handler draws, and how a write of the identity's
-- file ends that it causes.
pub record Visit : Type 0 where
  pub request : AdminRequest
  pub is_tls : Bool
  pub persist : Persist
  pub session_token : Text
  pub ticket : Text
  pub access_key : Text
  pub master_key : Text
  pub client_id : Text
  pub client_token : Text

pub record Server : Type 0 where
  pub world : World
  pub identity : Instance
  pub sessions : Sessions
  pub tickets : Tickets

-- `writeJSON(w, status, v)`.
unfoldable pub reply : Backend → ℕ → Answer → Server → Server
unfolding write_json
reply b status a s = record s { world = write_json b.env status (b.encode a) s.world }

abbrev pub reply_error : Backend → ℕ → String → Server → Server
reply_error b status message s = reply b status (error_text (codes message)) s

-- `serverError`; what it logs is not modelled.
abbrev pub server_error : Backend → Server → Server
server_error b s = reply_error b 500 "internal server error" s

abbrev pub set_response_header : Text → Text → Server → Server
set_response_header name value s = record s { world = set_header name value s.world }

abbrev pub no_store : Server → Server
no_store s = set_response_header (codes "Cache-Control") (codes "no-store") s

-- `w.WriteHeader(http.StatusNoContent)`.
abbrev pub no_content : Server → Server
no_content s = record s { world = write_header 204 s.world }

-- A status line and bytes that are no JSON.
unfoldable pub write_text : Backend → ℕ → Text → Server → Server
unfolding write_header write
write_text b status body s = record s { world = (write b.env body (write_header status s.world)).0 }

-- More bytes behind the status line.
unfoldable pub write_more : Backend → Text → Server → Server
unfolding write
write_more b body s = record s { world = (write b.env body s.world).0 }

-- `http.NotFound(w, r)`.
abbrev pub not_found_page : Backend → Server → Server
not_found_page b s = write_text b 404 (codes "404 page not found\n") (
    set_response_header (codes "X-Content-Type-Options") (codes "nosniff")
      (set_response_header (codes "Content-Type") (codes "text/plain; charset=utf-8") s))
