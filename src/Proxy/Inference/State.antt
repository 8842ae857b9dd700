-- ===== src/Proxy/Inference/State.antt =====
-- The bookkeeping of `HandleInference` of internal/proxy/service.go: `recordKeyFailure`,
-- `promoteIfNeeded`, `finish`, `finishUnavailable`, and the variables of its loop. A call of the store
-- whose error the source drops is `after`.
use opencode_proxy.Base.{ℕ, Bool, ◌&&◌, Option, none, some, leb, ltb, if◌then◌else◌}
use opencode_proxy.Base.Int.{ℤ, pos, ltb_ℤ}
use opencode_proxy.Text.{Text, codes, contains, to_lower}
use opencode_proxy.Time.{Time, add_duration, milliseconds_between, minutes}
use opencode_proxy.Store.Types.{
  Key, Db, Usage, RequestRecord, AttemptRecord, Outcome, error, ErrorKind, ErrorClass, Protocol,
  after, is_active, Settings,
}
use opencode_proxy.Store.Keys.{mark_invalid, mark_quota, mark_used, set_active}
use opencode_proxy.Store.Telemetry.{no_usage, get_settings, add_attempt, finish_request}
use opencode_proxy.Proxy.Header.{Header, get}
use opencode_proxy.Proxy.Reset.{seconds_duration}
use opencode_proxy.Proxy.Classifier.{Classification}
use opencode_proxy.Proxy.Request.{RequestMeta}
use opencode_proxy.Proxy.World.{World, Incoming, Response}

-- The wait after a quota error that names no reset.
unfoldable pub probe_interval : Settings → ℤ
probe_interval settings =
    if ltb_ℤ settings.probe_interval_sec (pos 60)
    then pos (minutes 15)
    else seconds_duration settings.probe_interval_sec

abbrev pub reset_or_fallback : Option Time → Settings → Time → Time
reset_or_fallback none settings now = add_duration now (probe_interval settings)
reset_or_fallback (some t) settings now = t

-- `recordKeyFailure`.
unfoldable pub record_key_failure : ℕ → Classification → Time → Db → Db
record_key_failure id c now db = elim c.kind [
  | ErrorKind.auth ↦ mark_invalid id c.message now db
  | ErrorKind.quota ↦ after db (
      mark_quota id c.window (some (reset_or_fallback c.reset_at (get_settings db) now)) c.message
        now db)
  | _ ↦ db
]

abbrev pub with_db : Db → World → World
with_db db w = record w { db = db }

-- `promoteIfNeeded`, from the role that the key had when it was selected.
unfoldable pub promote_if_needed : Key → World → World
promote_if_needed key w =
    if is_active key.pool_role then w else with_db (after w.db (set_active key.id w.clock w.db)) w

unfoldable pub finish : RequestRecord → Usage → Time → World → World
finish r u started w =
    let done : RequestRecord = record r {
      finished_at = some w.clock;
      latency_ms = milliseconds_between started w.clock;
    } in
    with_db (after w.db (finish_request done u w.db)) w

unfoldable pub finish_unavailable : RequestRecord → Time → ErrorClass → World → World
unfolding finish
finish_unavailable r started class w =
    finish (record r { http_status = 503; outcome = error; error_class = class }) no_usage started w

-- What stays the same while the keys are tried.
pub record Call : Type 0 where
  pub protocol : Protocol
  pub incoming : Incoming
  pub body : Text
  pub meta : RequestMeta
  pub started : Time
  pub request_id : Text

-- The variables of the loop.
pub record Loop : Type 0 where
  pub world : World
  pub request : RequestRecord
  pub last_status : ℕ
  pub last_header : Option Header
  pub last_body : Text
  pub last_class : Classification

-- One round either goes on to the next key or has answered the client.
pub data Verdict : Type 0 where
  go_on : Loop → Verdict
  stop : World → Verdict

unfoldable pub attempt_record :
    Call → Key → ℕ → Time → ℕ → Outcome → ErrorKind → Text → World → AttemptRecord
attempt_record call key attempt_no attempt_start status outcome class upstream w = record {
  request_id = call.request_id;
  key_id = key.id;
  attempt_no = attempt_no;
  started_at = attempt_start;
  finished_at = w.clock;
  http_status = status;
  outcome = outcome;
  error_class = class;
  upstream_request = upstream;
  latency_ms = milliseconds_between attempt_start w.clock;
}

abbrev pub log_attempt : AttemptRecord → World → World
log_attempt a w = with_db (after w.db (add_attempt a w.db)) w

abbrev pub fail_key : Key → Classification → World → World
fail_key key c w = with_db (record_key_failure key.id c w.clock w.db) w

abbrev pub use_key : Key → World → World
use_key key w = promote_if_needed key (with_db (mark_used key.id w.clock w.db) w)

abbrev pub upstream_id : Response → Text
upstream_id resp = get (codes "X-Request-Id") resp.header

unfoldable pub is_event_stream : RequestMeta → Response → Bool
is_event_stream meta resp =
    meta.stream
    && leb 200 resp.status
    && ltb resp.status 300
    && contains (to_lower (get (codes "Content-Type") resp.header)) (codes "text/event-stream")
