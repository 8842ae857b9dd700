-- ===== src/Store/Reports/Conserved.antt =====
-- The reports of internal/store/sqlite.go agree: what the clients, the hours and the dashboard count.
use opencode_proxy.Base.{
  ℕ, ◌+◌, ◌≡◌, refl, sym, ap, ◌∙◌, List, [], ◌∷◌, filter, count, All, All-map, All-mapped, arith,
  ◌==◌, ltb, suc, if◌then◌else◌,
}
use opencode_proxy.Base.Sorting.{order_by-All}
use opencode_proxy.Base.Groups.{
  sum_of, group_by, rows_with, group_by-rows, sum_of-order_by, sum_of-map, sum_of-group_by,
}
use opencode_proxy.Text.{text_eq, text_eq_iff}
use opencode_proxy.Time.{Time}
use opencode_proxy.Store.Types.{Db, RequestRow, Outcome}
use opencode_proxy.Store.Reports.Columns.{
  Totals, totals_of, add_totals, row_totals, adding_totals, totals-ext, one_if,
}
use opencode_proxy.Store.Reports.{
  ClientAggregate, client_aggregate, client_aggregates, most_requests, client_of, is_since,
  is_failure, is_unsuccessful, is_pending,
}
use opencode_proxy.Store.Reports.Dashboard.{dashboard, timeline, timeline_point, hour_of}

-- The totals with as many more failures.
abbrev pub with_failures : ℕ → Totals → Totals
with_failures n t = record t { failures = t.failures + n }

pub clients-sum :
    (since : Time) (db : Db)
    → sum_of adding_totals (λ (a : ClientAggregate). a.totals) (client_aggregates since db)
      ≡ totals_of is_failure (filter (is_since since) db.requests)
unfolding client_aggregates client_aggregate totals_of
clients-sum since db =
    let rows = filter (is_since since) db.requests in
    sum_of-map adding_totals (λ a. a.totals) client_aggregate _
    ∙ (sum_of-order_by adding_totals (λ g. sum_of adding_totals (row_totals is_failure) g.1)
          most_requests (group_by text_eq client_of rows)
        ∙ sum_of-group_by text_eq adding_totals (row_totals is_failure) client_of rows)

timeline-sum :
    (rows : List RequestRow)
    → sum_of adding_totals (λ p. p.totals) (timeline rows) ≡ totals_of is_unsuccessful rows
unfolding timeline totals_of
timeline-sum rows =
    sum_of-map adding_totals (λ p. p.totals) timeline_point _
    ∙ (sum_of-order_by adding_totals (λ g. sum_of adding_totals (row_totals is_unsuccessful) g.1)
          (λ a b. ltb a.0 b.0) (group_by ◌==◌ hour_of rows)
        ∙ sum_of-group_by ◌==◌ adding_totals (row_totals is_unsuccessful) hour_of rows)

row-failures :
    (r : RequestRow) (n : ℕ) (t : Totals)
    → add_totals (row_totals is_unsuccessful r) (with_failures n t)
      ≡ with_failures (if is_pending r then suc n else n) (add_totals (row_totals is_failure r) t)
unfolding add_totals
row-failures r n t =
    totals-ext _ _ refl refl (more r.record_of.outcome refl) refl refl refl refl refl refl
  where
    more :
        (o : Outcome)
        → r.record_of.outcome ≡ o
        → one_if (is_unsuccessful r) + (t.failures + n)
          ≡ one_if (is_failure r) + t.failures + (if is_pending r then suc n else n)
    more Outcome.pending e = rw e (omega arith)
    more Outcome.success e = rw e (omega arith)
    more Outcome.error e = rw e (omega arith)
    more Outcome.failover e = rw e (omega arith)

pending-failures :
    (rows : List RequestRow)
    → totals_of is_unsuccessful rows
      ≡ with_failures (count is_pending rows) (totals_of is_failure rows)
unfolding totals_of sum_of add_totals
pending-failures [] = refl
pending-failures (r ∷ rows) =
    ap (add_totals (row_totals is_unsuccessful r)) (pending-failures rows)
    ∙ row-failures r (count is_pending rows) (totals_of is_failure rows)

-- The counts and sums of the clients are together those of the dashboard, except that the dashboard
-- counts the pending requests as failures too; and the points of the timeline are together the totals
-- of the dashboard.
pub reports-agree :
    (since : Time) (db : Db)
    → let clients =
        sum_of adding_totals (λ (a : ClientAggregate). a.totals) (client_aggregates since db) in
      ((dashboard since db).totals
        ≡ with_failures (count is_pending (filter (is_since since) db.requests)) clients)
      × (sum_of adding_totals (λ p. p.totals) (dashboard since db).timeline_points
          ≡ (dashboard since db).totals)
unfolding dashboard
reports-agree since db =
    let rows = filter (is_since since) db.requests in
    (
      pending-failures rows
          ∙ ap (with_failures (count is_pending rows)) (sym (clients-sum since db)),
      timeline-sum rows,
    )

-- Each item of ClientAggregates counts and adds up exactly the rows of its client since the given time.
pub client_aggregates-rows :
    (since : Time) (db : Db)
    → All
        (λ (a : ClientAggregate).
          a.totals
          ≡ totals_of is_failure
              (rows_with text_eq client_of a.client_id (filter (is_since since) db.requests)))
        (client_aggregates since db)
unfolding client_aggregates client_aggregate
client_aggregates-rows since db =
    let rows = filter (is_since since) db.requests in
    All-mapped client_aggregate _ _ (
      order_by-All _ most_requests (group_by text_eq client_of rows) (
        All-map _ _ (λ g e. ap (totals_of is_failure) e) (group_by text_eq client_of rows)
          (group_by-rows text_eq text_eq_iff client_of rows)))
