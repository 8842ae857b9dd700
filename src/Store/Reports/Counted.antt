-- ===== src/Store/Reports/Counted.antt =====
-- What an item of `ClientAggregates` of internal/store/sqlite.go counts, said of the rows.
use opencode_proxy.Base.{
  ◌≡◌, refl, sym, subst, ap, ◌∙◌, Bool, true, false, List, [], ◌∷◌, Option, none, some, leb, length,
  filter, count, All, All-map, arith,
}
use opencode_proxy.Base.Int.{ℤ, pos, ◌+ℤ◌, zero-+ℤ}
use opencode_proxy.Base.Groups.{sum_of}
use opencode_proxy.Text.{text_eq}
use opencode_proxy.Time.{Time, stored_leb}
use opencode_proxy.Store.Types.{Db, RequestRow, Outcome, UsageState}
use opencode_proxy.Store.Reports.Columns.{Totals, totals_of, row_totals, add_totals, number_of}
use opencode_proxy.Store.Reports.{ClientAggregate, client_aggregates, is_failure}
use opencode_proxy.Store.Reports.Conserved.{client_aggregates-rows}

-- The sum of the values that are reported.
abbrev pub reported : Option ℤ → ℤ → ℤ
reported none rest = rest
reported (some n) rest = n +ℤ rest

unfoldable pub sum_reported : (RequestRow → Option ℤ) → List RequestRow → ℤ
sum_reported f [] = pos 0
sum_reported f (r ∷ rows) = reported (f r) (sum_reported f rows)

abbrev pub has_succeeded : RequestRow → Bool
has_succeeded r = elim r.record_of.outcome [
  | Outcome.success ↦ true
  | Outcome.pending ↦ false
  | Outcome.error ↦ false
  | Outcome.failover ↦ false
]

abbrev pub has_failed : RequestRow → Bool
has_failed r = elim r.record_of.outcome [
  | Outcome.error ↦ true
  | Outcome.failover ↦ true
  | Outcome.success ↦ false
  | Outcome.pending ↦ false
]

abbrev pub was_retried : RequestRow → Bool
was_retried r = leb 2 r.record_of.attempt_count

abbrev pub has_whole_usage : RequestRow → Bool
has_whole_usage r = elim r.usage.state [ UsageState.complete ↦ true | _ ↦ false ]

-- The counts and sums are those of the rows.
pub record Counts (rows : List RequestRow) (t : Totals) : Type 0 where
  pub requests : t.requests ≡ length rows
  pub successes : t.successes ≡ count has_succeeded rows
  pub failures : t.failures ≡ count has_failed rows
  pub failovers : t.failovers ≡ count was_retried rows
  pub usage_complete : t.usage_complete ≡ count has_whole_usage rows
  pub input_uncached : t.input_uncached ≡ sum_reported (λ r. r.usage.input_uncached) rows
  pub cache_read : t.cache_read ≡ sum_reported (λ r. r.usage.cache_read) rows
  pub cache_write : t.cache_write ≡ sum_reported (λ r. r.usage.cache_write) rows
  pub output_tokens : t.output_tokens ≡ sum_reported (λ r. r.usage.output_tokens) rows

Counts-add :
    (r : RequestRow) (rows : List RequestRow) (t : Totals)
    → Counts rows t
    → Counts (r ∷ rows) (add_totals (row_totals is_failure r) t)
unfolding add_totals sum_reported
Counts-add r rows t c = record {
  requests = ground (arith, c.requests);
  successes = ground (arith, c.successes);
  failures = ground (arith, c.failures);
  failovers = ground (arith, c.failovers);
  usage_complete = ground (arith, c.usage_complete);
  input_uncached = adds r.usage.input_uncached c.input_uncached;
  cache_read = adds r.usage.cache_read c.cache_read;
  cache_write = adds r.usage.cache_write c.cache_write;
  output_tokens = adds r.usage.output_tokens c.output_tokens;
}
  where
    adds : (v : Option ℤ) {a b : ℤ} → a ≡ b → number_of v +ℤ a ≡ reported v b
    adds none {a} e = zero-+ℤ a ∙ e
    adds (some n) e = ap (λ x. n +ℤ x) e

Counts-totals_of : (rows : List RequestRow) → Counts rows (totals_of is_failure rows)
unfolding totals_of sum_of sum_reported
Counts-totals_of [] = record {
  requests = refl;
  successes = refl;
  failures = refl;
  failovers = refl;
  usage_complete = refl;
  input_uncached = refl;
  cache_read = refl;
  cache_write = refl;
  output_tokens = refl;
}
Counts-totals_of (r ∷ rows) = Counts-add r rows _ (Counts-totals_of rows)

-- Each item of ClientAggregates has the counts and sums of the rows of its client since the given
-- time: of all of them, of those with the outcome success, of those with the outcome error or
-- failover, of those with at least two attempts, and of those with a complete usage; and of their
-- tokens where they are reported.
pub client_aggregates-Counts :
    (since : Time) (db : Db)
    → All
        (λ (a : ClientAggregate).
          Counts
            (filter
              (λ r. text_eq r.record_of.client_id a.client_id)
              (filter (λ r. stored_leb since r.record_of.started_at) db.requests))
            a.totals)
        (client_aggregates since db)
client_aggregates-Counts since db =
    All-map _ _ (λ a e. subst (Counts _) (sym e) (Counts-totals_of _)) (client_aggregates since db)
      (client_aggregates-rows since db)
