-- ===== src/Store/Opened.antt =====
-- The database that `migrate` of internal/store/sqlite.go leaves in a new file, and what the operations
-- can make of it.
use opencode_proxy.Base.{true, [], none, arith}
use opencode_proxy.Base.Int.{pos}
use opencode_proxy.Text.{codes}
use opencode_proxy.Store.Types.{Db}
use opencode_proxy.Store.Steps.{Reach, Reach_invariant}
use opencode_proxy.Store.Consistency.{Step-IsConsistent}
use opencode_proxy.Store.Consistency.Tables.{IsConsistent}

-- Empty tables, and the one row of settings with the defaults of its columns.
abbrev pub migrated : Db
migrated = record {
  keys = [];
  next_key_id = 1;
  settings = record {
    auto_probe_enabled = true;
    force_stream_usage = true;
    probe_model = codes "mimo-v2.5";
    probe_interval_sec = pos 900;
    models_cache_sec = pos 600;
  };
  requests = [];
  attempts = [];
  quota_events = [];
  model_cache = none;
}

migrated-IsConsistent : IsConsistent migrated
migrated-IsConsistent = record {
  ascending = omega arith;
  single_active = omega arith;
  active_enabled = tt;
  recoverable = tt;
}

-- By whatever steps of the store, in whatever order, a new database changes, its table of keys stays
-- consistent: ids are distinct and below the counter, at most one key is active, it is enabled, and a
-- cooling key has a time of reset.
pub reachable-IsConsistent : (db : Db) → Reach migrated db → IsConsistent db
reachable-IsConsistent db r = Reach_invariant Step-IsConsistent migrated-IsConsistent r
