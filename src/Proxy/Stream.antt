-- ===== src/Proxy/Stream.antt =====
-- `forwardStream` of internal/proxy/service.go.
pub mod Relay
mod Copies
use opencode_proxy.Base.{
  ℕ, suc, Bool, true, false, List, [], ◌∷◌, Option, none, some, if◌then◌else◌, length,
}
use opencode_proxy.Text.{Text}
use opencode_proxy.Time.{Time, milliseconds_between}
use opencode_proxy.Store.Types.{Usage, Protocol, ErrorKind}
use opencode_proxy.Store.Telemetry.{no_usage}
use opencode_proxy.Proxy.Header.{copy_response_headers}
use opencode_proxy.Proxy.Classifier.{Classification, classify}
use opencode_proxy.Proxy.Usage.{observe_json}
use opencode_proxy.Proxy.Sse.{
  Read, ReadError, eof, broken, too_large, event_data, event_limit, read_events,
}
use opencode_proxy.Proxy.World.{Env, World, Response, write_header, write, pass}

pub record StreamResult : Type 0 where
  pub usage : Usage
  pub ttft : Option ℕ
  pub first_error : Option Classification
  pub late_error : Option Classification
  pub first_event : Text
  pub copy_err : Bool

-- `Kind == ErrorQuota || Kind == ErrorAuth`: the failures of a key.
abbrev pub is_key_failure : ErrorKind → Bool
is_key_failure ErrorKind.quota = true
is_key_failure ErrorKind.auth = true
is_key_failure _ = false

abbrev pub is_empty : Text → Bool
is_empty [] = true
is_empty (c ∷ s) = false

abbrev pub no_error : Usage → StreamResult
no_error usage = record {
  usage = usage;
  ttft = none;
  first_error = none;
  late_error = none;
  first_event = [];
  copy_err = false;
}

-- What the loop keeps from one event to the next.
pub record Progress : Type 0 where
  pub usage : Usage
  pub late_error : Option Classification

abbrev pub classify_data : Env → Response → Text → World → Classification
classify_data env resp d w = classify env.codec resp.status resp.header d w.clock

-- The part of a round that looks at the data of an event.
unfoldable pub observe_event : Env → Protocol → Response → Text → World → Progress → Progress
observe_event env protocol resp [] w p = p
observe_event env protocol resp (c ∷ d) w p =
    let classification = classify_data env resp (c ∷ d) w in
    record {
      usage = observe_json env.codec protocol (c ∷ d) p.usage;
      late_error = if is_key_failure classification.kind then some classification else p.late_error;
    }

abbrev pub ended : Option ℕ → Progress → Bool → StreamResult
ended ttft p copy_err = record (no_error p.usage) {
  ttft = ttft;
  late_error = p.late_error;
  copy_err = copy_err;
}

abbrev pub is_failed_read : Option ReadError → Bool
is_failed_read none = false
is_failed_read (some eof) = false
is_failed_read (some broken) = true
is_failed_read (some too_large) = true

-- How a round ends: by a failed write, by the error of the read, or by the next round.
unfoldable pub round_end {ℓ} : {A : Type ℓ} → Bool → Option ReadError → A → A → A → A
round_end false failure onward stopped unwritten = unwritten
round_end true none onward stopped unwritten = onward
round_end true (some e) onward stopped unwritten = stopped

-- The loop over the events behind the first. Behind an end of the body there is nothing to read.
unfoldable pub forward_rest :
    Env → Protocol → Response → Option ℕ → List Read → Progress → World → StreamResult × World
unfolding observe_event write
forward_rest env protocol resp ttft [] p w = (ended ttft p false, w)
forward_rest env protocol resp ttft (r ∷ rs) p w =
    let p' = observe_event env protocol resp (event_data r.event) w p in
    let written = if is_empty r.event then (w, true) else write env r.event w in
    let onward = forward_rest env protocol resp ttft rs p' written.0 in
    let stopped : StreamResult × World = (ended ttft p' (is_failed_read r.failure), written.0) in
    round_end written.1 r.failure onward stopped (ended ttft p' true, written.0)

-- From the response's header on, with the first event and its data.
unfoldable pub forward_from :
    Env → Protocol → Response → Time → Read → List Read → World → StreamResult × World
unfolding forward_rest write_header write copy_response_headers
forward_from env protocol resp started r rs w0 =
    let w =
      write_header resp.status
        (record w0 { header = copy_response_headers w0.header resp.header }) in
    let data_of = event_data r.event in
    let usage =
      if is_empty data_of then no_usage else observe_json env.codec protocol data_of no_usage in
    let p : Progress = record { usage = usage; late_error = none } in
    let ttft = some (milliseconds_between started w.clock) in
    let written = write env r.event w in
    let onward = forward_rest env protocol resp ttft rs p (pass resp.transfer written.0) in
    let unseen = forward_rest env protocol resp none rs p (pass resp.transfer w) in
    if is_empty r.event
    then unseen
    else if written.1
    then onward
    else (ended ttft p true, written.0)

abbrev pub refused : Classification → Text → StreamResult
refused c event = record (no_error no_usage) { first_error = some c; first_event = event }

-- The first event decides: a failure of the key in it is returned before anything is written.
unfoldable pub forward_first :
    Env → Protocol → Response → Time → Read → List Read → World → StreamResult × World
unfolding forward_from
forward_first env protocol resp started r rs w =
    let data_of = event_data r.event in
    let classification = classify_data env resp data_of w in
    let forwarded = forward_from env protocol resp started r rs w in
    if is_failed_read r.failure
    then (record (no_error no_usage) { copy_err = true }, w)
    else if is_empty data_of
    then forwarded
    else if is_key_failure classification.kind
    then (refused classification data_of, w)
    else forwarded

-- A body has a first read, whatever it holds.
unfoldable pub forward_reads :
    Env → Protocol → Response → Time → List Read → World → StreamResult × World
unfolding forward_first
forward_reads env protocol resp started [] w = (no_error no_usage, w)
forward_reads env protocol resp started (r ∷ rs) w = forward_first env protocol resp started r rs w

unfoldable pub forward_stream : Env → Protocol → Response → Time → World → StreamResult × World
unfolding forward_reads read_events
forward_stream env protocol resp started w =
    forward_reads env protocol resp started
      (read_events (suc (length resp.body.content)) event_limit resp.body.is_broken
        resp.body.content)
      w
