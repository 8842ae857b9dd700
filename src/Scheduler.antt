-- ===== src/Scheduler.antt =====
-- internal/scheduler/scheduler.go: the periodic run, which opens the cooling keys that are due, probes
-- the half-open ones, and purges old records.
pub mod Selecting
use opencode_proxy.Base.{
  ℕ, Bool, true, false, ◌&&◌, not, List, [], ◌∷◌, Option, none, some, or_else, if◌then◌else◌,
}
use opencode_proxy.Base.Int.{sub_ℕ, ltb_ℤ}
use opencode_proxy.Time.{Time, add_duration}
use opencode_proxy.Store.Types.{Key, Settings, is_half_open}
use opencode_proxy.Store.Keys.{mark_half_open_due}
use opencode_proxy.Store.Telemetry.{get_settings, purge_before}
use opencode_proxy.Store.Routing.{list_keys}
use opencode_proxy.Proxy.Reset.{seconds_duration}
use opencode_proxy.Proxy.World.{Env, World}
use opencode_proxy.Proxy.Inference.{with_db}
use opencode_proxy.Proxy.Probe.{test_key}

-- `key.LastCheckedAt != nil && now.Sub(*key.LastCheckedAt) < probe interval`.
abbrev pub checked_lately : Settings → Time → Option Time → Bool
checked_lately settings now none = false
checked_lately settings now (some t) =
    ltb_ℤ (sub_ℕ now t) (seconds_duration settings.probe_interval_sec)

-- The tests of the loop that do not `continue`.
unfoldable pub is_probed : Settings → Time → Key → Bool
is_probed settings now key =
    (is_half_open key.quota_state && key.admin_enabled)
    && or_else key.auto_probe_override settings.auto_probe_enabled
    && not (checked_lately settings now key.last_checked_at)

-- The loop over the keys as they were listed, at the time `now` before it.
unfoldable pub probe_keys : Env → Settings → Time → List Key → World → World
probe_keys env settings now [] w = w
probe_keys env settings now (key ∷ keys) w =
    let probed = if is_probed settings now key then (test_key env key true w).1 else w in
    probe_keys env settings now keys probed

-- `run`, with the configured retention of events.
unfoldable pub run : Env → ℕ → World → World
run env event_retention w =
    let opened = with_db (mark_half_open_due w.clock w.db) w in
    let probed =
      probe_keys env (get_settings opened.db) opened.clock (list_keys opened.db) opened in
    with_db (purge_before (add_duration probed.clock (sub_ℕ 0 event_retention)) probed.db) probed
