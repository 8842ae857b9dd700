-- ===== src/Examples/Proxy.antt =====
-- The properties of internal/proxy at a request that the upstream refuses with the first key.
use opencode_proxy.Base.{◌≡◌, ◌≤◌, ◌+◌, ◌-◌, refl, false, none, some, ◌⊎◌, length, arith}
use opencode_proxy.Base.Int.{pos}
use opencode_proxy.Text.{codes}
use opencode_proxy.Store.Types.{openai}
use opencode_proxy.Store.Telemetry.{no_usage}
use opencode_proxy.Store.Routing.{eligible_keys}
use opencode_proxy.Proxy.Request.{within, read_limited}
use opencode_proxy.Proxy.Sse.{read_events, event_limit, read_sse_event, event_data}
use opencode_proxy.Proxy.Regex.{match_string}
use opencode_proxy.Proxy.Patterns.{quota_pattern, balance_pattern, rate_pattern}
use opencode_proxy.Proxy.Classifier.{classify, is_quota_message}
use opencode_proxy.Proxy.Sse.Reading.{
  IsComplete, all_events, read_events-IsComplete, all_events-read_events,
}
use opencode_proxy.Proxy.Usage.{observe_openai}
use opencode_proxy.Proxy.Usage.Accounting.{amount, openai_split}
use opencode_proxy.Proxy.Usage.Reported.{Report}
use opencode_proxy.Proxy.Stream.{forward_stream, round_end}
use opencode_proxy.Proxy.Stream.Relay.{Relays, forward_stream-Relays}
use opencode_proxy.Proxy.Inference.{handle_inference}
use opencode_proxy.Proxy.Failover.Answers.{Replies}
use opencode_proxy.Proxy.Failover.Calls.{Serves}
use opencode_proxy.Proxy.Failover.Order.{Asked, Unread, selecting_db}
use opencode_proxy.Proxy.Failover.Requests.{
  announced, prepared_call, body_read, handle_inference-Serves,
}
use opencode_proxy.Proxy.Failover.Limits.{IsRefusedBody, handle_inference-body_read}
use opencode_proxy.Examples.{
  env, incoming, long_incoming, world, later, stream_body, stream_response,
}

body_is_read : body_read env openai incoming (codes "r1") world ≡ within incoming.body.content
unfolding read_limited
body_is_read = refl

handle_inference-Serves_example :
    Serves
      (Asked env (prepared_call env openai incoming (codes "r1") world incoming.body.content))
      (Unread env)
      (eligible_keys (
        selecting_db
          (prepared_call env openai incoming (codes "r1") world incoming.body.content)
          (announced env openai incoming (codes "r1") world)))
      world
      (handle_inference env openai incoming (codes "r1") world)
handle_inference-Serves_example =
    handle_inference-Serves env openai incoming (codes "r1") world incoming.body.content
      body_is_read

handle_inference-body_read_example :
    (IsRefusedBody env.max_request_bytes long_incoming.body
      × Replies 413 world (handle_inference env openai long_incoming (codes "r1") world))
    ⊎ ((length long_incoming.body.content ≤ env.max_request_bytes)
        × (long_incoming.body.is_broken ≡ false)
        × (body_read env openai long_incoming (codes "r1") world
            ≡ within long_incoming.body.content))
handle_inference-body_read_example =
    handle_inference-body_read env openai long_incoming (codes "r1") world (omega arith)

no_first_error : (forward_stream env openai stream_response later world).0.first_error ≡ none
unfolding forward_stream read_sse_event event_data classify is_quota_message match_string
    quota_pattern balance_pattern rate_pattern round_end
no_first_error = refl

no_copy_err : (forward_stream env openai stream_response later world).0.copy_err ≡ false
unfolding forward_stream read_sse_event event_data classify is_quota_message match_string
    quota_pattern balance_pattern rate_pattern round_end
no_copy_err = refl

forward_stream-Relays_example :
    Relays stream_response stream_body world
      (forward_stream env openai stream_response later world).1
forward_stream-Relays_example =
    forward_stream-Relays env openai stream_response later world no_first_error no_copy_err

read_events-IsComplete_example : IsComplete (read_events 25 event_limit false stream_body)
read_events-IsComplete_example =
    read_events-IsComplete 25 event_limit false stream_body (omega arith)

all_events-read_events_example :
    all_events (read_events 25 event_limit false stream_body) ≡ stream_body
unfolding read_events read_sse_event
all_events-read_events_example =
    all_events-read_events 25 event_limit false stream_body (omega arith)
      ((λ e. cc), ((λ e. cc), ((λ e. cc), tt)))

-- An input and then an output.
abbrev message_start : Report
message_start = record { uncached = some (pos 3); read = none; write = some (pos 4); output = none }

abbrev message_delta : Report
message_delta = record { uncached = none; read = none; write = none; output = some (pos 8) }

openai_split_example :
    let b = observe_openai (some (pos 10)) none (some (pos 4)) none none no_usage in
    (b.total_input ≡ some (pos 10))
    × (b.cache_read ≡ some (pos 4))
    × (b.input_uncached ≡ some (pos (10 - 4)))
    × (4 ≤ 10 → amount b.input_uncached + amount b.cache_read ≡ amount b.total_input)
openai_split_example = openai_split 10 4 none none none no_usage (omega arith) (omega arith)
