-- ===== src/Store/Reports.antt =====
-- The reports of internal/store/sqlite.go: RecentRequests, ClientAggregates and Dashboard. SUM is exact
-- as long as it stays within an int64, beyond which SQLite reports an error, and an average is exact
-- for sums below 2^52.
pub mod Columns
pub mod Dashboard
pub mod Conserved
pub mod Counted
pub mod Recent
use opencode_proxy.Base.{
  ℕ, zero, suc, ◌+◌, ◌*◌, ◌/◌, Bool, true, false, ◌&&◌, not, List, [], ◌∷◌, Option, none, some, ltb,
  ◌==◌, if◌then◌else◌, length, filter, map, take,
}
use opencode_proxy.Base.Int.{ℤ, pos, negsuc}
use opencode_proxy.Base.Sorting.{order_by}
use opencode_proxy.Base.Groups.{group_by}
use opencode_proxy.Text.{Text, text_eq}
use opencode_proxy.Time.{Time, stored_leb, text_leb}
use opencode_proxy.Store.Types.{Key, Db, RequestRow, Outcome}
use opencode_proxy.Store.Rows.{key_row}
use opencode_proxy.Store.Reports.Columns.{Totals, totals_of, is_success}

-- `WHERE started_at>=?`.
abbrev pub is_since : Time → RequestRow → Bool
is_since since r = stored_leb since r.record_of.started_at

abbrev pub is_pending : RequestRow → Bool
is_pending r = elim r.record_of.outcome [ Outcome.pending ↦ true | _ ↦ false ]

-- `outcome!='success'`.
abbrev pub is_unsuccessful : RequestRow → Bool
is_unsuccessful r = not (is_success r)

-- `outcome!='' AND outcome!='success'`.
abbrev pub is_failure : RequestRow → Bool
is_failure r = not (is_pending r) && not (is_success r)

abbrev pub is_finished : RequestRow → Bool
is_finished r = not (is_pending r)

abbrev pub client_of : RequestRow → Text
client_of r = r.record_of.client_id

pub record ClientAggregate : Type 0 where
  pub client_id : Text
  pub client_name : Text
  pub totals : Totals
  pub avg_latency_ms : ℕ

-- `MAX` of a text column.
unfoldable pub max_name : List RequestRow → Text
max_name [] = []
max_name (r ∷ rows) =
    let rest = max_name rows in
    if text_leb rest r.record_of.client_name then r.record_of.client_name else rest

unfoldable pub latency_sum : List RequestRow → ℕ
latency_sum [] = 0
latency_sum (r ∷ rows) = r.record_of.latency_ms + latency_sum rows

abbrev pub rounded_quotient : ℕ → ℕ → ℕ
rounded_quotient total zero = 0
rounded_quotient total (suc n) = (2 * total + suc n) / (2 * suc n)

-- `CAST(ROUND(COALESCE(AVG(latency_ms),0)) AS INTEGER)`.
unfoldable pub average_latency : List RequestRow → ℕ
unfolding latency_sum
average_latency rows = rounded_quotient (latency_sum rows) (length rows)

unfoldable pub client_aggregate : Text × List RequestRow → ClientAggregate
unfolding max_name average_latency totals_of
client_aggregate (id, rows) = record {
  client_id = id;
  client_name = max_name rows;
  totals = totals_of is_failure rows;
  avg_latency_ms = average_latency (filter is_finished rows);
}

-- `ORDER BY COUNT(*) DESC,client_id`.
abbrev pub most_requests : Text × List RequestRow → Text × List RequestRow → Bool
most_requests a b =
    if ltb (length b.1) (length a.1)
    then true
    else if ltb (length a.1) (length b.1)
    then false
    else not (text_leb b.0 a.0)

unfoldable pub client_aggregates : Time → Db → List ClientAggregate
unfolding client_aggregate order_by group_by
client_aggregates since db =
    map client_aggregate
      (order_by most_requests (group_by text_eq client_of (filter (is_since since) db.requests)))

-- A row with the name that `LEFT JOIN keys` finds.
pub record ReportedRequest : Type 0 where
  pub row : RequestRow
  pub final_key_name : Text

abbrev pub key_name_of : Option Key → Text
key_name_of none = []
key_name_of (some k) = k.name

abbrev pub joined_name : List Key → Option ℕ → Text
joined_name keys none = []
joined_name keys (some id) = key_name_of (key_row id keys)

-- `limit <= 0 || limit > 500`.
abbrev pub limit_of : ℤ → ℕ
limit_of (negsuc n) = 100
limit_of (pos n) = if n == 0 then 100 else if ltb 500 n then 100 else n

abbrev pub has_final_key : ℤ → RequestRow → Bool
has_final_key (negsuc n) r = true
has_final_key (pos zero) r = true
has_final_key (pos (suc n)) r = elim r.record_of.final_key_id [ none ↦ false | some k ↦ k == suc n ]

abbrev pub has_model : Text → RequestRow → Bool
has_model [] r = true
has_model (c ∷ model) r = text_eq r.record_of.model (c ∷ model)

-- `ORDER BY r.started_at DESC`.
abbrev pub later_start : RequestRow → RequestRow → Bool
later_start a b = not (stored_leb a.record_of.started_at b.record_of.started_at)

unfoldable pub recent_requests : ℤ → ℤ → Text → Db → List ReportedRequest
unfolding order_by
recent_requests limit key_id model db =
    map (λ r. record { row = r; final_key_name = joined_name db.keys r.record_of.final_key_id })
      (take (limit_of limit) (
        order_by later_start
          (filter (λ r. has_final_key key_id r && has_model model r) db.requests)))
