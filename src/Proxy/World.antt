-- ===== src/Proxy/World.antt =====
-- The world of the handlers of internal/proxy/service.go: the database, the clock, the response that
-- is written to the client, and the log of what crosses the network. What is outside the program
-- (the upstream, the client's connection, the key cipher) is a parameter, `Env`.
use opencode_proxy.Base.{
  ℕ, suc, ◌+◌, Bool, true, false, List, [], ◌∷◌, ◌++◌, Option, none, some, ◌==◌, if◌then◌else◌,
  String,
}
use opencode_proxy.Text.{Text, codes, newline}
use opencode_proxy.Time.{Time}
use opencode_proxy.Store.Types.{Db, Protocol, openai, anthropic}
use opencode_proxy.Proxy.Json.{Json, Codec, str, obj, end, field}
use opencode_proxy.Proxy.Header.{Header, set, copy_request_headers}
use opencode_proxy.Proxy.Request.{Body, RequestMeta}

pub record UpstreamRequest : Type 0 where
  pub url : Text
  pub query : Text
  pub header : Header
  pub body : Text

-- `latency` passes until the headers and the first bytes are there, `transfer` until the body is.
pub record Response : Type 0 where
  pub status : ℕ
  pub header : Header
  pub body : Body
  pub latency : ℕ
  pub transfer : ℕ

-- `client.Do`: an error of the network, or a response.
pub data Reply : Type 0 where
  failed : ℕ → Reply
  answered : Response → Reply

pub record Env : Type 0 where
  pub upstream_base_url : Text
  pub max_request_bytes : ℕ
  pub codec : Codec
  pub decode_meta : Text → RequestMeta
  pub decrypt : Text → Option Text
  -- the text of an error of the client's connection
  pub broken_message : Text
  -- the text of an error of the upstream's connection
  pub network_message : Text
  -- the reply to the n-th call
  pub upstream : ℕ → UpstreamRequest → Reply
  -- whether the n-th write reaches the client
  pub accepts : ℕ → Bool

-- A call of the upstream with a key, the status line and headers to the client, bytes to the client.
pub data Event : Type 0 where
  called : ℕ → UpstreamRequest → Event
  responded : ℕ → Header → Event
  sent : Text → Event

pub record World : Type 0 where
  pub db : Db
  pub clock : Time
  pub header : Header
  pub log : List Event
  pub calls : ℕ
  pub writes : ℕ

-- A request of a client, with what `ProxyPrincipalFromContext` finds.
pub record Incoming : Type 0 where
  pub body : Body
  pub header : Header
  pub raw_query : Text
  pub client_id : Text
  pub client_name : Text

unfoldable pub set_header : Text → Text → World → World
unfolding set
set_header name value w = record w { header = set name value w.header }

-- `w.WriteHeader(status)`.
unfoldable pub write_header : ℕ → World → World
write_header status w = record w { log = w.log ++ responded status w.header ∷ [] }

-- `w.Write(b)`, and whether it succeeds.
unfoldable pub write : Env → Text → World → World × Bool
write env b w =
    if env.accepts w.writes
    then (record w { log = w.log ++ sent b ∷ []; writes = suc w.writes }, true)
    else (record w { writes = suc w.writes }, false)

unfoldable pub error_body : Text → String → Json
error_body message kind = obj (
    field (codes "error")
      (obj (field (codes "message") (str message) (field (codes "type") (str (codes kind)) end)))
      end)

-- `writeJSON`.
unfoldable pub write_json : Env → ℕ → Json → World → World
unfolding set_header write_header write
write_json env status value w =
    (write env (env.codec.marshal value ++ newline ∷ [])
      (write_header status (set_header (codes "Content-Type") (codes "application/json") w))).0

abbrev pub pass : ℕ → World → World
pass d w = record w { clock = w.clock + d }

-- Trailing slashes off: `strings.TrimRight(url, "/")`.
unfoldable pub trim_slashes : Text → Text
trim_slashes [] = []
trim_slashes (c ∷ s) = elim (trim_slashes s) [
  | [] ↦ if c == b'/' then [] else c ∷ []
  | d ∷ rest ↦ c ∷ d ∷ rest
]

abbrev pub endpoint : Protocol → Text
endpoint openai = codes "/chat/completions"
endpoint anthropic = codes "/messages"

abbrev pub set_api_key : Protocol → Text → Header → Header
set_api_key openai secret h = h
set_api_key anthropic secret h = set (codes "X-Api-Key") secret h

-- The request of `callUpstream`.
unfoldable pub upstream_request : Env → Header → Text → Protocol → Text → Text → UpstreamRequest
unfolding trim_slashes set copy_request_headers
upstream_request env header query protocol body secret = record {
  url = trim_slashes env.upstream_base_url ++ endpoint protocol;
  query = query;
  header = set (codes "Content-Type") (codes "application/json") (
      set_api_key protocol secret
        (set (codes "Authorization") (codes "Bearer " ++ secret) (copy_request_headers [] header)));
  body = body;
}

abbrev pub reply_latency : Reply → ℕ
reply_latency (failed d) = d
reply_latency (answered r) = r.latency

abbrev pub response_of : Reply → Option Response
response_of (failed d) = none
response_of (answered r) = some r

-- `s.client.Do(req)`, on behalf of a key.
unfoldable pub do_request : Env → ℕ → UpstreamRequest → World → World × Option Response
do_request env key_id req w =
    let reply = env.upstream w.calls req in
    (
      record w {
        clock = w.clock + reply_latency reply;
        log = w.log ++ called key_id req ∷ [];
        calls = suc w.calls;
      },
      response_of reply,
    )
