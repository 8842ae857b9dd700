-- ===== src/Examples/Reports.antt =====
-- The reports of the store on three requests: one that has been answered, one that has failed, and one
-- that is still running.
use opencode_proxy.Base.{refl, ◌≡◌, true, [], ◌∷◌, none, some, filter, count, All}
use opencode_proxy.Base.Int.{pos}
use opencode_proxy.Base.Groups.{sum_of}
use opencode_proxy.Text.{Text, codes, text_eq}
use opencode_proxy.Time.{Time}
use opencode_proxy.Store.Types.{
  Db, Outcome, pending, success, error, ErrorClass, ok, RequestRow, Usage, UsageState, openai,
}
use opencode_proxy.Store.Reports.{
  ClientAggregate, client_aggregates, is_since, is_pending, is_failure,
}
use opencode_proxy.Store.Reports.Columns.{totals_of, adding_totals}
use opencode_proxy.Store.Reports.Dashboard.{dashboard}
use opencode_proxy.Store.Reports.Conserved.{with_failures, reports-agree}
use opencode_proxy.Store.Reports.Counted.{Counts, client_aggregates-Counts}
use opencode_proxy.Time.{stored_leb}
use opencode_proxy.Identity.{Client}
use opencode_proxy.Api.Overview.{client_items}
use opencode_proxy.Api.Overview.Complete.{item_totals, client_items-sum}
use opencode_proxy.Examples.{two_keys}

abbrev usage : Usage
usage = record {
  input_uncached = some (pos 10);
  cache_read = some (pos 4);
  cache_write = none;
  output_tokens = some (pos 7);
  reasoning_tokens = none;
  total_input = some (pos 14);
  total_tokens = some (pos 21);
  state = UsageState.complete;
  raw_json = [];
}

abbrev row : Text → Text → Time → Outcome → RequestRow
row id client start outcome = record {
  record_of = record {
    id = id;
    started_at = start;
    finished_at = none;
    client_id = client;
    client_name = client;
    protocol = openai;
    model = codes "m";
    stream = true;
    request_bytes = 10;
    message_count = 1;
    tool_count = 0;
    final_key_id = some 1;
    attempt_count = 1;
    http_status = 200;
    outcome = outcome;
    error_class = ErrorClass.kind ok;
    latency_ms = 20;
    ttft_ms = none;
  };
  usage = usage;
}

abbrev reported : Db
reported = record two_keys {
  requests =
      row (codes "r1") (codes "laptop") 5 success
      ∷ row (codes "r2") (codes "desk") 6 error
      ∷ row (codes "r3") (codes "laptop") 7 pending
      ∷ [];
}

reports-agree_example :
    ((dashboard 0 reported).totals
      ≡ with_failures
          (count is_pending (filter (is_since 0) reported.requests))
          (sum_of adding_totals (λ (a : ClientAggregate). a.totals) (client_aggregates 0 reported)))
    × (sum_of adding_totals (λ p. p.totals) (dashboard 0 reported).timeline_points
        ≡ (dashboard 0 reported).totals)
reports-agree_example = reports-agree 0 reported

client_aggregates-Counts_example :
    All
      (λ (a : ClientAggregate).
        Counts
          (filter
            (λ r. text_eq r.record_of.client_id a.client_id)
            (filter (λ r. stored_leb 0 r.record_of.started_at) reported.requests))
          a.totals)
      (client_aggregates 0 reported)
client_aggregates-Counts_example = client_aggregates-Counts 0 reported

abbrev laptop : Client
laptop = record {
  id = codes "laptop";
  name = codes "Laptop";
  token_hash = codes "h";
  created_at = 1;
}

client_items-sum_example :
    sum_of adding_totals item_totals (client_items (laptop ∷ []) (client_aggregates 0 reported))
    ≡ totals_of is_failure (filter (is_since 0) reported.requests)
unfolding text_eq
client_items-sum_example = client_items-sum (laptop ∷ []) 0 reported (refl, (refl, tt))
