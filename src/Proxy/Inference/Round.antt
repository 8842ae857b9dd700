-- ===== src/Proxy/Inference/Round.antt =====
-- One round of the loop of `HandleInference` of internal/proxy/service.go: one key is tried.
use opencode_proxy.Base.{ℕ, ◌*◌, ◌^◌, [], Option, none, some, leb, ltb, if◌then◌else◌}
use opencode_proxy.Text.{Text, codes}
use opencode_proxy.Time.{Time}
use opencode_proxy.Store.Types.{
  Key, RequestRecord, Outcome, success, error, failover, ErrorKind, kind,
}
use opencode_proxy.Store.Telemetry.{no_usage}
use opencode_proxy.Proxy.Header.{copy_response_headers}
use opencode_proxy.Proxy.Classifier.{Classification, classify}
use opencode_proxy.Proxy.Usage.{observe_json}
use opencode_proxy.Proxy.Request.{read_all_limited}
use opencode_proxy.Proxy.World.{
  Env, World, Response, write_header, write, write_json, error_body, pass, upstream_request,
  do_request,
}
use opencode_proxy.Proxy.Stream.{StreamResult, forward_stream, is_key_failure}
use opencode_proxy.Proxy.Inference.State.{
  Call, Loop, Verdict, go_on, stop, finish, attempt_record, log_attempt, fail_key, use_key,
  upstream_id, is_event_stream,
}

-- The branch for an error of the network.
unfoldable pub network_failure : Env → Call → Key → ℕ → Time → RequestRecord → World → World
network_failure env call key attempt_no attempt_start r w =
    let logged =
      log_attempt (attempt_record call key attempt_no attempt_start 0 error ErrorKind.network [] w)
        w in
    let r' : RequestRecord = record r {
      final_key_id = some key.id;
      attempt_count = attempt_no;
      http_status = 502;
      outcome = error;
      error_class = kind ErrorKind.network;
    } in
    write_json env 502
      (error_body (codes "OpenCode upstream request failed") "upstream_network_error")
      (finish r' no_usage call.started logged)

-- A stream whose first event is a failure of the key: on to the next key.
unfoldable pub stream_failover :
    Call → Key → ℕ → Time → Response → Classification → Text → Loop → World → Loop
stream_failover call key attempt_no attempt_start resp c first_event l w =
    let failed = fail_key key c w in
    record l {
      world =
          log_attempt
            (attempt_record call key attempt_no attempt_start 429 failover c.kind (upstream_id resp)
              failed)
            failed;
      request = record l.request { final_key_id = some key.id };
      last_status = 429;
      last_body = first_event;
      last_class = c;
    }

abbrev pub stream_class : StreamResult → ErrorKind
stream_class result = elim result.late_error [
  | some c ↦ c.kind
  | none ↦ if result.copy_err then ErrorKind.network else ErrorKind.ok
]

abbrev pub stream_outcome : StreamResult → Outcome
stream_outcome result = elim result.late_error [
  | some c ↦ error
  | none ↦ if result.copy_err then error else success
]

abbrev pub settle_key : Key → StreamResult → World → World
settle_key key result w = elim result.late_error [
  | some c ↦ fail_key key c w
  | none ↦ use_key key w
]

-- A stream that went to the client, to its end or not.
unfoldable pub stream_done :
    Call → Key → ℕ → Time → Response → StreamResult → RequestRecord → World → World
stream_done call key attempt_no attempt_start resp result r w =
    let settled = settle_key key result w in
    let logged =
      log_attempt
        (attempt_record call key attempt_no attempt_start resp.status (stream_outcome result)
          (stream_class result) (upstream_id resp) settled)
        settled in
    let r' : RequestRecord = record r {
      final_key_id = some key.id;
      attempt_count = attempt_no;
      http_status = resp.status;
      outcome = stream_outcome result;
      error_class = kind (stream_class result);
      ttft_ms = result.ttft;
    } in
    finish r' result.usage call.started logged

abbrev pub stream_verdict :
    Call → Key → ℕ → Time → Response → StreamResult → Loop → World → Option Classification → Verdict
stream_verdict call key attempt_no attempt_start resp result l w none =
    stop (stream_done call key attempt_no attempt_start resp result l.request w)
stream_verdict call key attempt_no attempt_start resp result l w (some c) =
    if is_key_failure c.kind
    then go_on (stream_failover call key attempt_no attempt_start resp c result.first_event l w)
    else stop (stream_done call key attempt_no attempt_start resp result l.request w)

unfoldable pub try_stream : Env → Call → Key → ℕ → Time → Response → Loop → World → Verdict
try_stream env call key attempt_no attempt_start resp l w0 =
    let (result, w) = forward_stream env call.protocol resp call.started w0 in
    stream_verdict call key attempt_no attempt_start resp result l w result.first_error

-- A whole response that is a failure of the key: on to the next key.
unfoldable pub body_failover :
    Call → Key → ℕ → Time → Response → Text → Classification → Loop → World → Loop
body_failover call key attempt_no attempt_start resp body c l w =
    let failed = fail_key key c w in
    record l {
      world =
          log_attempt
            (attempt_record call key attempt_no attempt_start resp.status failover c.kind
              (upstream_id resp) failed)
            failed;
      request = record l.request { final_key_id = some key.id };
      last_status = resp.status;
      last_header = some resp.header;
      last_body = body;
      last_class = c;
    }

abbrev pub body_outcome : ℕ → Outcome
body_outcome status = if leb 400 status then error else success

-- Any other whole response goes to the client.
unfoldable pub body_done :
    Env → Call → Key → ℕ → Time → Response → Text → Classification → RequestRecord → World → World
body_done env call key attempt_no attempt_start resp body c r w =
    let logged =
      log_attempt
        (attempt_record call key attempt_no attempt_start resp.status (body_outcome resp.status)
          c.kind (upstream_id resp) w)
        w in
    let settled = if ltb resp.status 400 then use_key key logged else logged in
    let r' : RequestRecord = record r {
      final_key_id = some key.id;
      attempt_count = attempt_no;
      http_status = resp.status;
      outcome = body_outcome resp.status;
      error_class = kind c.kind;
    } in
    let finished =
      finish r' (observe_json env.codec call.protocol body no_usage) call.started settled in
    (write env body (
      write_header resp.status
        (record finished { header = copy_response_headers finished.header resp.header }))).0

-- The limit of the read, `128<<20`.
abbrev pub response_limit : ℕ
response_limit = 128 * 2 ^ 20

abbrev pub body_verdict :
    Env → Call → Key → ℕ → Time → Response → Loop → World → Option Text → Verdict
body_verdict env call key attempt_no attempt_start resp l w none = stop (
    write_json env 502 (error_body (codes "Could not read OpenCode response") "upstream_read_error")
      w)
body_verdict env call key attempt_no attempt_start resp l w (some body) =
    let c = classify env.codec resp.status resp.header body w.clock in
    if is_key_failure c.kind
    then go_on (body_failover call key attempt_no attempt_start resp body c l w)
    else stop (body_done env call key attempt_no attempt_start resp body c l.request w)

unfoldable pub try_body : Env → Call → Key → ℕ → Time → Response → Loop → World → Verdict
try_body env call key attempt_no attempt_start resp l w0 =
    body_verdict env call key attempt_no attempt_start resp l (pass resp.transfer w0)
      (read_all_limited response_limit resp.body)

unfoldable pub try_reply : Env → Call → Key → ℕ → Time → Option Response → Loop → World → Verdict
try_reply env call key attempt_no attempt_start none l w =
    stop (network_failure env call key attempt_no attempt_start l.request w)
try_reply env call key attempt_no attempt_start (some resp) l w =
    if is_event_stream call.meta resp
    then try_stream env call key attempt_no attempt_start resp l w
    else try_body env call key attempt_no attempt_start resp l w

abbrev pub key_verdict : Env → Call → Key → ℕ → Loop → Option Text → Verdict
key_verdict env call key attempt_no l none = go_on l
key_verdict env call key attempt_no l (some secret) =
    let req =
      upstream_request env call.incoming.header call.incoming.raw_query call.protocol call.body
        secret in
    let (w, reply) = do_request env key.id req l.world in
    try_reply env call key attempt_no l.world.clock reply l w

-- One round of the loop. A key that cannot be decrypted is skipped.
unfoldable pub try_key : Env → Call → Key → ℕ → Loop → Verdict
try_key env call key attempt_no l =
    key_verdict env call key attempt_no l (env.decrypt key.encrypted_key)
