-- ===== src/Api/Overview.antt =====
-- The handlers of settings and reports in internal/httpapi: `getSettings`, `updateSettings`,
-- `requests`, `dashboard`, `dashboardWindow`, `events` and `clientDashboard`.
pub mod Complete
use opencode_proxy.Base.{
  ℕ, zero, suc, ◌-◌, ◌*◌, Bool, true, false, ◌&&◌, not, List, ◌∷◌, ◌++◌, Option, none, some,
  if◌then◌else◌, filter, find, map, exists,
}
use opencode_proxy.Base.Sorting.{order_by}
use opencode_proxy.Text.{Text, codes, text_eq}
use opencode_proxy.Text.Numbers.{number_of}
use opencode_proxy.Time.{hours, text_leb}
use opencode_proxy.Store.Types.{Settings}
use opencode_proxy.Store.Telemetry.{get_settings, master_id, master_name}
use opencode_proxy.Store.Reports.{ClientAggregate, client_aggregates, recent_requests}
use opencode_proxy.Store.Reports.Dashboard.{dashboard}
use opencode_proxy.Identity.{Client}
use opencode_proxy.Identity.Opening.{list_client_tokens}
use opencode_proxy.Api.Keys.{AdminReply, accepted, change_settings}
use opencode_proxy.Api.Server.{
  Backend, Server, ClientItem, Answer, reply, reply_error, set_response_header, write_text,
  write_more,
}
use opencode_proxy.Api.Pool.{with_server_db}

unfoldable pub show_settings : Backend → Server → Server
unfolding get_settings
show_settings b s = reply b 200 (Answer.settings (get_settings s.world.db)) s

abbrev pub settings_answer : Backend → Option Settings → AdminReply → Server → Server
settings_answer b (some v) accepted s = reply b 200 (Answer.settings v) s
settings_answer b (some v) a s = reply_error b 400 "invalid settings" s
settings_answer b none a s = reply_error b 400 "invalid JSON" s

unfoldable pub update_settings_handler : Backend → Option Settings → Server → Server
unfolding change_settings
update_settings_handler b input s =
    let (a, db) = change_settings input s.world.db in
    settings_answer b input a (with_server_db db s)

-- The errors of strconv are dropped.
unfoldable pub show_requests : Backend → Text → Text → Text → Server → Server
unfolding number_of recent_requests
show_requests b limit key_id model s =
    reply b 200
      (Answer.requests (recent_requests (number_of limit) (number_of key_id) model s.world.db)) s

unfoldable pub dashboard_window : Text → ℕ
dashboard_window value =
    if text_eq value (codes "24h")
    then hours 24
    else if text_eq value (codes "7d")
    then hours (7 * 24)
    else if text_eq value (codes "30d")
    then hours (30 * 24)
    else hours 5

unfoldable pub show_dashboard : Backend → Text → Server → Server
unfolding dashboard dashboard_window
show_dashboard b window s =
    reply b 200 (Answer.dashboard (dashboard (s.world.clock - dashboard_window window) s.world.db))
      s

-- The item of a client: its row of the report, if it has one. The ids of clients are drawn, and here
-- distinct.
abbrev pub has_client_id : Text → ClientAggregate → Bool
has_client_id id a = text_eq a.client_id id

abbrev pub master_item : List ClientAggregate → ClientItem
master_item aggregates = record {
  id = master_id;
  name = master_name;
  is_master = true;
  is_active = true;
  created_at = none;
  aggregate = find (has_client_id master_id) aggregates;
}

abbrev pub client_item : List ClientAggregate → Client → ClientItem
client_item aggregates c = record {
  id = c.id;
  name = c.name;
  is_master = false;
  is_active = true;
  created_at = some c.created_at;
  aggregate = find (has_client_id c.id) aggregates;
}

abbrev pub former_item : ClientAggregate → ClientItem
former_item a = record {
  id = a.client_id;
  name = a.client_name;
  is_master = false;
  is_active = false;
  created_at = none;
  aggregate = some a;
}

-- What is left of the map: the clients that hold no token any more.
abbrev pub is_former : List Client → ClientAggregate → Bool
is_former clients a =
    not (text_eq a.client_id master_id) && not (exists (λ c. text_eq a.client_id c.id) clients)

-- `sort.SliceStable` by name, behind the master; the former clients come in any order before it.
unfoldable pub client_items : List Client → List ClientAggregate → List ClientItem
unfolding order_by text_leb
client_items clients aggregates =
    master_item aggregates
    ∷ order_by (λ x y. text_leb x.name y.name)
        (map (client_item aggregates) clients
          ++ map former_item (filter (is_former clients) aggregates))

unfoldable pub client_dashboard : Backend → Text → Server → Server
unfolding client_items client_aggregates dashboard_window
client_dashboard b window s =
    reply b 200
      (Answer.client_dashboard (
        client_items (list_client_tokens s.identity)
          (client_aggregates (s.world.clock - dashboard_window window) s.world.db)))
      s

abbrev pub tick : Text
tick = codes "event: tick\ndata: {}\n\n"

-- The loop of `events`, which writes until the client is gone: here after some more ticks.
unfoldable pub ticks : Backend → ℕ → Server → Server
ticks b zero s = s
ticks b (suc n) s = ticks b n (write_more b tick s)

unfoldable pub events : Backend → ℕ → Server → Server
unfolding ticks
events b n s = ticks b n (
    write_text b 200 tick (
      set_response_header (codes "Cache-Control") (codes "no-cache")
        (set_response_header (codes "Content-Type") (codes "text/event-stream") s)))
