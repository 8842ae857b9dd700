-- ===== src/Examples/Failover.antt =====
-- The failover of HandleInference: the first key has met its quota, and the second one answers.
use opencode_proxy.Base.{ℕ, zero, suc, ◌≡◌, refl, true, false, [], ◌∷◌, none}
use opencode_proxy.Text.{codes, contains, to_lower, text_eq}
use opencode_proxy.Store.Types.{Key, QuotaState, openai}
use opencode_proxy.Store.Routing.{eligible_keys}
use opencode_proxy.Proxy.Request.{read_limited, read_all_limited}
use opencode_proxy.Proxy.World.{Env, World, Response, Reply, answered, set_header}
use opencode_proxy.Proxy.Inference.{handle_inference, is_event_stream, Call}
use opencode_proxy.Proxy.Classifier.{classify, is_quota_message}
use opencode_proxy.Proxy.Regex.{match_string}
use opencode_proxy.Proxy.Patterns.{quota_pattern, balance_pattern, rate_pattern}
use opencode_proxy.Proxy.Header.{get}
use opencode_proxy.Store.Keys.{mark_half_open_due}
use opencode_proxy.Store.Telemetry.{begin_request}
use opencode_proxy.Proxy.Failover.Order.{selecting_db}
use opencode_proxy.Proxy.Failover.Requests.{announced, prepared_call}
use opencode_proxy.Proxy.Failover.Delivery.{handle_inference-delivery, delivery, IsWhole}
use opencode_proxy.Examples.{env, incoming, world, first_key, second_key, two_keys, quota_response}

abbrev spare_key : Key
spare_key = record second_key {
  quota_state = QuotaState.available;
  quota_window = none;
  cooling_until = none;
}

abbrev pair_world : World
pair_world = record world { db = record two_keys { keys = first_key ∷ spare_key ∷ [] } }

abbrev good_response : Response
good_response = record {
  status = 200;
  header = (codes "Content-Type", codes "application/json" ∷ []) ∷ [];
  body = record { content = codes "{}"; is_broken = false };
  latency = 5;
  transfer = 7;
}

abbrev refuse_first : ℕ → Reply
refuse_first zero = answered quota_response
refuse_first (suc n) = answered good_response

abbrev pair_env : Env
pair_env = record env { upstream = λ n r. refuse_first n }

abbrev request_call : Call
request_call = prepared_call pair_env openai incoming (codes "r1") pair_world incoming.body.content

pair_eligible :
    eligible_keys
      (selecting_db request_call (announced pair_env openai incoming (codes "r1") pair_world))
    ≡ first_key ∷ spare_key ∷ []
unfolding eligible_keys mark_half_open_due begin_request set_header
pair_eligible = refl

first_refuses :
    IsWhole pair_env request_call true
      (answered quota_response)
      quota_response
      (codes "weekly usage limit")
unfolding read_all_limited is_event_stream classify is_quota_message match_string quota_pattern
first_refuses = (refl, refl, refl, λ now. refl)

spare_answers :
    IsWhole pair_env request_call false (answered good_response) good_response (codes "{}")
unfolding read_all_limited is_event_stream classify is_quota_message match_string quota_pattern
    contains to_lower get text_eq balance_pattern rate_pattern
spare_answers = (refl, refl, refl, λ now. refl)

handle_inference-delivery_example :
    (handle_inference pair_env openai incoming (codes "r1") pair_world).log
    ≡ delivery pair_env request_call
        (announced pair_env openai incoming (codes "r1") pair_world).header
        (first_key ∷ spare_key ∷ [])
        good_response
        (codes "{}")
unfolding read_limited
handle_inference-delivery_example =
    handle_inference-delivery pair_env openai incoming (codes "r1") pair_world incoming.body.content
      false (first_key ∷ []) spare_key [] good_response (codes "{}") refl pair_eligible
      (
        (codes "sk-one", refl),
        (quota_response, codes "weekly usage limit", first_refuses),
        ((codes "sk-two", refl), spare_answers),
      )
      tt refl
