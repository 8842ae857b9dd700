-- ===== src/Proxy/Inference.antt =====
-- `HandleInference` of internal/proxy/service.go: the loop over the keys, and what stands around it.
mod State
mod Round
pub use State.{
  Call, Loop, Verdict, go_on, stop, reset_or_fallback, with_db, log_attempt, fail_key, use_key,
  upstream_id,
}
unfoldable pub use State.{
  probe_interval, record_key_failure, promote_if_needed, finish, finish_unavailable, attempt_record,
  is_event_stream,
}
pub use Round.{
  stream_verdict, body_verdict, key_verdict, stream_class, stream_outcome, settle_key, body_outcome,
  response_limit,
}
unfoldable pub use Round.{
  network_failure, stream_failover, stream_done, try_stream, body_failover, body_done, try_body,
  try_reply, try_key,
}
use opencode_proxy.Base.{
  ℕ, suc, Bool, false, ◌&&◌, List, [], ◌∷◌, Option, none, some, ◌==◌, if◌then◌else◌, length,
}
use opencode_proxy.Text.{Text, codes}
use opencode_proxy.Time.{Time}
use opencode_proxy.Store.Types.{
  Key, RequestRecord, pending, error, ErrorKind, kind, no_available_key, Protocol, openai,
  anthropic, after, Settings,
}
use opencode_proxy.Store.Keys.{mark_half_open_due}
use opencode_proxy.Store.Routing.{eligible_keys}
use opencode_proxy.Store.Telemetry.{no_usage, get_settings, begin_request}
use opencode_proxy.Proxy.Header.{Header, copy_response_headers}
use opencode_proxy.Proxy.Classifier.{unclassified}
use opencode_proxy.Proxy.Request.{
  RequestMeta, Limited, within, failing, read_limited, ensure_stream_usage,
}
use opencode_proxy.Proxy.World.{
  Env, World, Incoming, set_header, write_header, write, write_json, error_body,
}
use opencode_proxy.Proxy.Stream.{is_empty}

abbrev pub copy_last : Option Header → World → World
copy_last none w = w
copy_last (some h) w = record w { header = copy_response_headers w.header h }

-- Behind the loop: every key has failed.
unfoldable pub all_failed : Env → Call → ℕ → Loop → World
all_failed env call key_count l =
    let status = if l.last_status == 0 then 503 else l.last_status in
    let r : RequestRecord = record l.request {
      attempt_count = key_count;
      http_status = status;
      outcome = error;
      error_class = kind l.last_class.kind;
    } in
    let finished = finish r no_usage call.started (copy_last l.last_header l.world) in
    let body =
      if is_empty l.last_body
      then codes
          "{\"error\":{\"message\":\"All inference keys are unavailable\",\"type\":\"opencodeproxy_unavailable\"}}"
      else l.last_body in
    (write env body (write_header status finished)).0

unfoldable pub try_keys : Env → Call → ℕ → ℕ → List Key → Loop → World
try_keys env call key_count tried [] l = all_failed env call key_count l
try_keys env call key_count tried (key ∷ keys) l = elim (try_key env call key (suc tried) l) [
  | go_on l' ↦ try_keys env call key_count (suc tried) keys l'
  | stop w ↦ w
]

abbrev pub no_loop : RequestRecord → World → Loop
no_loop r w = record {
  world = w;
  request = r;
  last_status = 0;
  last_header = none;
  last_body = [];
  last_class = unclassified;
}

unfoldable pub no_key : Env → RequestRecord → Time → World → World
no_key env r started w =
    write_json env 503
      (error_body (codes "No inference key is currently available") "opencodeproxy_unavailable")
      (finish_unavailable r started no_available_key w)

-- With the keys in the order of `EligibleKeys`.
unfoldable pub serve_keys : Env → Call → RequestRecord → List Key → World → World
serve_keys env call r [] w = no_key env r call.started w
serve_keys env call r (key ∷ keys) w =
    try_keys env call (length (key ∷ keys)) 0 (key ∷ keys) (no_loop r w)

abbrev pub wants_stream_usage : Protocol → RequestMeta → Settings → Bool
wants_stream_usage openai meta settings = meta.stream && settings.force_stream_usage
wants_stream_usage anthropic meta settings = false

unfoldable pub new_record : Call → RequestRecord
new_record call = record {
  id = call.request_id;
  started_at = call.started;
  finished_at = none;
  client_id = call.incoming.client_id;
  client_name = call.incoming.client_name;
  protocol = call.protocol;
  model = call.meta.model;
  stream = call.meta.stream;
  request_bytes = length call.body;
  message_count = call.meta.message_count;
  tool_count = call.meta.tool_count;
  final_key_id = none;
  attempt_count = 0;
  http_status = 0;
  outcome = pending;
  error_class = kind ErrorKind.ok;
  latency_ms = 0;
  ttft_ms = none;
}

-- The request is recorded, cooling keys that are due are opened, and the keys are tried.
unfoldable pub serve : Env → Call → World → World
serve env call w =
    let r = new_record call in
    let begun = with_db (after w.db (begin_request r w.db)) w in
    let opened = with_db (mark_half_open_due begun.clock begun.db) begun in
    serve_keys env call r (eligible_keys opened.db) opened

abbrev pub prepared : Env → Protocol → Incoming → Text → Text → World → Call
prepared env protocol incoming request_id content w =
    let meta = env.decode_meta content in
    record {
      protocol = protocol;
      incoming = incoming;
      body =
          if wants_stream_usage protocol meta (get_settings w.db)
          then ensure_stream_usage env.codec content
          else content;
      meta = meta;
      started = w.clock;
      request_id = request_id;
    }

abbrev pub admitted : Env → Protocol → Incoming → Text → World → Limited → World
admitted env protocol incoming request_id w (failing message) =
    write_json env 413 (error_body message "request_too_large") w
admitted env protocol incoming request_id w (within content) =
    serve env (prepared env protocol incoming request_id content w) w

-- `request_id` is what `newID` draws.
unfoldable pub handle_inference : Env → Protocol → Incoming → Text → World → World
handle_inference env protocol incoming request_id w0 =
    admitted env protocol incoming request_id
      (set_header (codes "X-OpencodeProxy-Request-Id") request_id w0)
      (read_limited env.broken_message env.max_request_bytes incoming.body)
