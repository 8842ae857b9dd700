-- ===== src/Store/Reports/Dashboard.antt =====
-- `Dashboard` of internal/store/sqlite.go.
use opencode_proxy.Base.{
  ℕ, suc, ◌/◌, Bool, false, not, List, [], ◌∷◌, Option, none, some, ltb, ◌==◌, if◌then◌else◌,
  filter, map,
}
use opencode_proxy.Base.Sorting.{order_by}
use opencode_proxy.Base.Groups.{group_by}
use opencode_proxy.Text.{Text, codes}
use opencode_proxy.Text.Maps.{TextMap, lookup, put}
use opencode_proxy.Time.{Time, hours}
use opencode_proxy.Store.Types.{Key, Db, RequestRow, QuotaState, is_invalid}
use opencode_proxy.Store.Routing.{list_keys, has_active_role}
use opencode_proxy.Store.Reports.Columns.{Totals, totals_of}
use opencode_proxy.Store.Reports.{is_since, is_unsuccessful, average_latency}

abbrev pub quota_label : QuotaState → Text
quota_label QuotaState.unknown = codes "unknown"
quota_label QuotaState.available = codes "available"
quota_label QuotaState.cooling = codes "cooling"
quota_label QuotaState.half_open = codes "half_open"

abbrev pub key_label : Key → Text
key_label k =
    if not k.admin_enabled
    then codes "disabled"
    else if is_invalid k.auth_state
    then codes "invalid"
    else quota_label k.quota_state

abbrev pub one_more : Option ℕ → ℕ
one_more none = 1
one_more (some n) = suc n

-- `d.KeyCounts[label]++` for each key.
unfoldable pub count_labels : TextMap ℕ → List Key → TextMap ℕ
unfolding lookup put
count_labels counts [] = counts
count_labels counts (k ∷ ks) =
    count_labels (put (key_label k) (one_more (lookup (key_label k) counts)) counts) ks

-- The last key of the list with the active role.
unfoldable pub last_active : Option Key → List Key → Option Key
last_active found [] = found
last_active found (k ∷ ks) = last_active (if has_active_role k then some k else found) ks

-- Of the common columns, the struct has the count and those of the usage.
pub record TimelinePoint : Type 0 where
  pub bucket : Time
  pub totals : Totals

-- `strftime('%Y-%m-%dT%H:00:00Z',started_at)`, as a time.
abbrev pub hour_of : RequestRow → Time
hour_of r = hours (r.record_of.started_at / hours 1)

abbrev pub timeline_point : ℕ × List RequestRow → TimelinePoint
timeline_point (hour, rows) = record { bucket = hour; totals = totals_of is_unsuccessful rows }

unfoldable pub timeline : List RequestRow → List TimelinePoint
unfolding order_by group_by totals_of
timeline rows = map timeline_point (order_by (λ a b. ltb a.0 b.0) (group_by ◌==◌ hour_of rows))

-- Of the common columns, the struct has those up to the usage but for failures and failovers.
pub record KeyAggregate : Type 0 where
  pub key_id : ℕ
  pub key_name : Text
  pub totals : Totals
  pub avg_latency_ms : ℕ

abbrev pub is_of_key : ℕ → RequestRow → Bool
is_of_key id r = elim r.record_of.final_key_id [ none ↦ false | some k ↦ k == id ]

abbrev pub key_aggregate : List RequestRow → Key → KeyAggregate
key_aggregate rows k = record {
  key_id = k.id;
  key_name = k.name;
  totals = totals_of is_unsuccessful (filter (is_of_key k.id) rows);
  avg_latency_ms = average_latency (filter (is_of_key k.id) rows);
}

-- `totals` has the columns of the first query, of which a point of the timeline and a key show a part.
pub record DashboardReport : Type 0 where
  pub active_key : Option Key
  pub key_counts : TextMap ℕ
  pub totals : Totals
  pub timeline_points : List TimelinePoint
  pub by_key : List KeyAggregate

unfoldable pub dashboard : Time → Db → DashboardReport
unfolding count_labels last_active totals_of timeline average_latency list_keys
dashboard since db =
    let rows = filter (is_since since) db.requests in
    record {
      active_key = last_active none (list_keys db);
      key_counts = count_labels [] (list_keys db);
      totals = totals_of is_unsuccessful rows;
      timeline_points = timeline rows;
      by_key = map (key_aggregate rows) (list_keys db);
    }
