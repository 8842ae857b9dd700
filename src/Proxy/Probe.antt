-- ===== src/Proxy/Probe.antt =====
-- `TestKey` of internal/proxy/service.go: a key is tried with the model catalog and, if that is asked
-- for, with a short inference.
pub mod Rows
pub mod Outcome
pub mod Calls
use opencode_proxy.Base.{
  ℕ, ◌*◌, ◌^◌, Bool, true, false, [], Option, none, some, if◌then◌else◌, take,
}
use opencode_proxy.Base.Int.{pos}
use opencode_proxy.Text.{Text, codes}
use opencode_proxy.Store.Types.{Key, Db, openai, AuthState, ControlState}
use opencode_proxy.Store.Keys.{mark_checked, mark_used}
use opencode_proxy.Store.Telemetry.{get_settings}
use opencode_proxy.Proxy.Json.{Json, boolean, num, str, arr, obj, nil, cons, end, field}
use opencode_proxy.Proxy.Classifier.{Classification, classify}
use opencode_proxy.Proxy.Request.{Body}
use opencode_proxy.Proxy.World.{
  Env, World, Response, UpstreamRequest, pass, upstream_request, do_request,
}
use opencode_proxy.Proxy.Stream.{is_key_failure}
use opencode_proxy.Proxy.Inference.{with_db, fail_key}
use opencode_proxy.Proxy.Models.{models_request, mark_refused, is_success}

-- The map or the error that is returned.
pub data TestResult : Type 0 where
  failed_call : TestResult
  models_failed : ℕ → Text → TestResult
  models_ok : TestResult
  key_failed : ℕ → Classification → TestResult
  inference_ok : ℕ → TestResult
  inference_failed : ℕ → Classification → TestResult

-- `io.ReadAll(io.LimitReader(body, 2<<20))` with its error dropped.
abbrev pub probe_body : Body → Text
probe_body b = take (2 * 2 ^ 20) b.content

-- The members in the order in which json.Marshal writes a map.
unfoldable pub probe_payload : Text → Json
probe_payload model =
    let message = obj (
      field (codes "content") (str (codes "Reply with only OK"))
        (field (codes "role") (str (codes "user")) end)) in
    obj (
      field (codes "max_tokens") (num (pos 2)) (
        field (codes "messages") (arr (cons message nil))
          (field (codes "model") (str model) (field (codes "stream") (boolean false) end))))

-- `GET /models` with the key, and what the store is told of a failure.
pub data Check : Type 0 where
  unchecked : TestResult → World → Check
  checked : World → Check

abbrev pub check_of_response : Env → Key → Response → World → Check
check_of_response env key resp w =
    let c = classify env.codec resp.status resp.header (probe_body resp.body) w.clock in
    if is_success resp.status
    then checked (
        with_db (mark_checked key.id AuthState.valid ControlState.reachable none [] w.clock w.db) w)
    else unchecked (models_failed resp.status c.message) (mark_refused key c w)

abbrev pub check_of_reply : Env → Key → World → Option Response → Check
check_of_reply env key w none = unchecked failed_call (
    with_db
      (mark_checked key.id AuthState.unknown ControlState.degraded none env.network_message w.clock
        w.db)
      w)
check_of_reply env key w (some resp) = check_of_response env key resp (pass resp.transfer w)

unfoldable pub check_models : Env → Key → Text → World → Check
check_models env key secret w =
    let (called, reply) = do_request env key.id (models_request env secret) w in
    check_of_reply env key called reply

abbrev pub probe_of_response : Env → Key → Response → World → TestResult × World
probe_of_response env key resp w =
    let c = classify env.codec resp.status resp.header (probe_body resp.body) w.clock in
    if is_key_failure c.kind
    then (key_failed resp.status c, fail_key key c w)
    else if is_success resp.status
    then (inference_ok resp.status, with_db (mark_used key.id w.clock w.db) w)
    else (inference_failed resp.status c, w)

abbrev pub probe_of_reply : Env → Key → World → Option Response → TestResult × World
probe_of_reply env key w none = (failed_call, w)
probe_of_reply env key w (some resp) = probe_of_response env key resp (pass resp.transfer w)

-- The probe itself: a request without headers or query of a client.
abbrev pub probe_request : Env → Text → Db → UpstreamRequest
probe_request env secret db =
    upstream_request env [] [] openai
      (env.codec.marshal (probe_payload (get_settings db).probe_model)) secret

unfoldable pub probe_inference : Env → Key → Text → World → TestResult × World
probe_inference env key secret w =
    let (called, reply) = do_request env key.id (probe_request env secret w.db) w in
    probe_of_reply env key called reply

abbrev pub after_check : Env → Key → Text → Bool → Check → TestResult × World
after_check env key secret inference (unchecked r w) = (r, w)
after_check env key secret false (checked w) = (models_ok, w)
after_check env key secret true (checked w) = probe_inference env key secret w

abbrev pub test_with : Env → Key → Bool → World → Option Text → TestResult × World
test_with env key inference w none = (failed_call, w)
test_with env key inference w (some secret) =
    after_check env key secret inference (check_models env key secret w)

unfoldable pub test_key : Env → Key → Bool → World → TestResult × World
test_key env key inference w = test_with env key inference w (env.decrypt key.encrypted_key)
