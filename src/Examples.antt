-- ===== src/Examples.antt =====
-- Concrete databases and requests, for the examples of the modules below: two keys, of which the
-- upstream refuses the first.
pub mod Store
pub mod Proxy
pub mod Failover
pub mod Keys
pub mod Startup
pub mod Access
pub mod Gates
pub mod Console
pub mod Reports
pub mod Service
pub mod Web
use opencode_proxy.Base.{ℕ, zero, suc, true, false, [], ◌∷◌, none, some, ◌*◌, ◌+◌, refl, arith}
use opencode_proxy.Base.Int.{pos}
use opencode_proxy.Text.{Text, codes}
use opencode_proxy.Time.{Time, nanos_per_second}
use opencode_proxy.Store.Types.{
  Key, Db, Settings, AuthState, QuotaState, ControlState, PoolRole, Window,
}
use opencode_proxy.Store.Consistency.Tables.{IsConsistent}
use opencode_proxy.Proxy.Json.{Codec}
use opencode_proxy.Proxy.World.{Env, World, Incoming, Response, Reply, answered}

abbrev pub reset_second : ℕ
reset_second = 1000

-- A key that serves.
abbrev pub first_key : Key
first_key = record {
  id = 1;
  name = codes "first";
  encrypted_key = codes "sk-one";
  fingerprint = codes "f1";
  priority = pos 1;
  admin_enabled = true;
  auth_state = AuthState.valid;
  quota_state = QuotaState.available;
  control_state = ControlState.reachable;
  pool_role = PoolRole.active;
  quota_window = none;
  cooling_until = none;
  last_error = [];
  last_used_at = none;
  last_checked_at = none;
  auto_probe_override = none;
  created_at = 0;
  updated_at = 0;
}

-- A key that cools until the second 1000.
abbrev pub second_key : Key
second_key = record {
  id = 2;
  name = codes "second";
  encrypted_key = codes "sk-two";
  fingerprint = codes "f2";
  priority = pos 2;
  admin_enabled = true;
  auth_state = AuthState.valid;
  quota_state = QuotaState.cooling;
  control_state = ControlState.reachable;
  pool_role = PoolRole.standby;
  quota_window = some Window.weekly;
  cooling_until = some (reset_second * nanos_per_second);
  last_error = [];
  last_used_at = none;
  last_checked_at = none;
  auto_probe_override = none;
  created_at = 0;
  updated_at = 0;
}

abbrev pub settings : Settings
settings = record {
  auto_probe_enabled = true;
  force_stream_usage = false;
  probe_model = codes "m";
  probe_interval_sec = pos 900;
  models_cache_sec = pos 300;
}

abbrev pub two_keys : Db
two_keys = record {
  keys = first_key ∷ second_key ∷ [];
  next_key_id = 3;
  settings = settings;
  requests = [];
  attempts = [];
  quota_events = [];
  model_cache = none;
}

pub two_keys-IsConsistent : IsConsistent two_keys
two_keys-IsConsistent = record {
  ascending = (omega arith, (omega arith, omega arith));
  single_active = omega arith;
  active_enabled = ((λ _. refl), ((λ e. cc), tt));
  recoverable = ((λ e. cc), ((λ _. refl), tt));
}

-- A time after the reset of the second key.
abbrev pub later : Time
later = (reset_second + 1) * nanos_per_second

abbrev pub stream_body : Text
stream_body = codes "data: {}\n\ndata: [DONE]\n\n"

abbrev pub stream_response : Response
stream_response = record {
  status = 200;
  header = (codes "Content-Type", codes "text/event-stream" ∷ []) ∷ [];
  body = record { content = stream_body; is_broken = false };
  latency = 5;
  transfer = 7;
}

abbrev pub quota_response : Response
quota_response = record {
  status = 429;
  header = (codes "Retry-After", codes "60" ∷ []) ∷ [];
  body = record { content = codes "weekly usage limit"; is_broken = false };
  latency = 5;
  transfer = 7;
}

abbrev pub no_json : Codec
no_json = record { unmarshal = λ t. none; marshal = λ v. codes "{}"; parse_http_time = λ t. none }

abbrev pub reply_number : ℕ → Reply
reply_number zero = answered quota_response
reply_number (suc n) = answered stream_response

abbrev pub env : Env
env = record {
  upstream_base_url = codes "https://opencode.ai/zen/v1/";
  max_request_bytes = 100;
  codec = no_json;
  decode_meta = λ t. record { model = codes "m"; stream = true; message_count = 1; tool_count = 0 };
  decrypt = λ t. some t;
  broken_message = codes "unexpected EOF";
  network_message = codes "connection refused";
  upstream = λ n r. reply_number n;
  accepts = λ n. true;
}

abbrev pub incoming : Incoming
incoming = record {
  body = record { content = codes "{\"stream\":true}"; is_broken = false };
  header = (codes "Authorization", codes "Bearer ocp-secret" ∷ []) ∷ [];
  raw_query = [];
  client_id = codes "laptop";
  client_name = codes "Laptop";
}

-- A request that is longer than the limit of `env` allows.
abbrev pub long_incoming : Incoming
long_incoming = record incoming {
  body = record {
    content =
        codes
          "0123456789012345678901234567890123456789012345678901234567890123456789012345678901234567890123456789+";
    is_broken = false;
  };
}

abbrev pub world : World
world = record { db = two_keys; clock = later; header = []; log = []; calls = 0; writes = 0 }
