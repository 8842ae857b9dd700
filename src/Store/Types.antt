-- ===== src/Store/Types.antt =====
-- internal/store/types.go, and the tables of `migrate` in internal/store/sqlite.go.
use opencode_proxy.Base.{ℕ, Bool, List, Option}
use opencode_proxy.Base.Int.{ℤ}
use opencode_proxy.Text.{Text}
use opencode_proxy.Time.{Time}

-- The texts that the program writes to the state columns.
pub data AuthState : Type 0 where
  unknown valid invalid : AuthState

pub data QuotaState : Type 0 where
  unknown available cooling half_open : QuotaState

pub data ControlState : Type 0 where
  unknown reachable degraded : ControlState

pub data PoolRole : Type 0 where
  standby active : PoolRole

-- The values of `Classification.Window`; the empty text is the absence of one.
pub data Window : Type 0 where
  balance five_hours weekly_or_monthly weekly monthly unknown : Window

pub record Key : Type 0 where
  pub id : ℕ
  pub name : Text
  pub encrypted_key : Text
  pub fingerprint : Text
  pub priority : ℤ
  pub admin_enabled : Bool
  pub auth_state : AuthState
  pub quota_state : QuotaState
  pub control_state : ControlState
  pub pool_role : PoolRole
  pub quota_window : Option Window
  pub cooling_until : Option Time
  pub last_error : Text
  pub last_used_at : Option Time
  pub last_checked_at : Option Time
  pub auto_probe_override : Option Bool
  pub created_at : Time
  pub updated_at : Time

pub record Settings : Type 0 where
  pub auto_probe_enabled : Bool
  pub force_stream_usage : Bool
  pub probe_model : Text
  pub probe_interval_sec : ℤ
  pub models_cache_sec : ℤ

-- `ErrorKind` of internal/proxy/classifier.go; the empty text is `ok`.
pub data ErrorKind : Type 0 where
  ok quota auth rate_limit upstream request network : ErrorKind

-- The column `error_class`: a kind, or the class that `finishUnavailable` is given.
pub data ErrorClass : Type 0 where
  kind : ErrorKind → ErrorClass
  no_available_key : ErrorClass

-- The column `outcome`; the empty text is `pending`.
pub data Outcome : Type 0 where
  pending success error failover : Outcome

pub data Protocol : Type 0 where
  openai anthropic : Protocol

pub data UsageState : Type 0 where
  unavailable partial complete : UsageState

pub record Usage : Type 0 where
  pub input_uncached : Option ℤ
  pub cache_read : Option ℤ
  pub cache_write : Option ℤ
  pub output_tokens : Option ℤ
  pub reasoning_tokens : Option ℤ
  pub total_input : Option ℤ
  pub total_tokens : Option ℤ
  pub state : UsageState
  pub raw_json : Text

-- A row of `proxy_requests` without its usage columns.
pub record RequestRecord : Type 0 where
  pub id : Text
  pub started_at : Time
  pub finished_at : Option Time
  pub client_id : Text
  pub client_name : Text
  pub protocol : Protocol
  pub model : Text
  pub stream : Bool
  pub request_bytes : ℕ
  pub message_count : ℕ
  pub tool_count : ℕ
  pub final_key_id : Option ℕ
  pub attempt_count : ℕ
  pub http_status : ℕ
  pub outcome : Outcome
  pub error_class : ErrorClass
  pub latency_ms : ℕ
  pub ttft_ms : Option ℕ

pub record RequestRow : Type 0 where
  pub record_of : RequestRecord
  pub usage : Usage

pub record AttemptRecord : Type 0 where
  pub request_id : Text
  pub key_id : ℕ
  pub attempt_no : ℕ
  pub started_at : Time
  pub finished_at : Time
  pub http_status : ℕ
  pub outcome : Outcome
  pub error_class : ErrorKind
  pub upstream_request : Text
  pub latency_ms : ℕ

pub record QuotaEvent : Type 0 where
  pub key_id : ℕ
  pub window : Option Window
  pub detected_at : Time
  pub reset_at : Option Time
  pub message : Text

pub record ModelCacheRow : Type 0 where
  pub body : Text
  pub fetched_at : Time
  pub source_key_id : Option ℕ

-- `next_key_id` is the counter of AUTOINCREMENT: it lies above every id that was ever given.
pub record Db : Type 0 where
  pub keys : List Key
  pub next_key_id : ℕ
  pub settings : Settings
  pub requests : List RequestRow
  pub attempts : List AttemptRecord
  pub quota_events : List QuotaEvent
  pub model_cache : Option ModelCacheRow

pub data StoreError : Type 0 where
  unique_violation foreign_key_violation not_found : StoreError

pub data Result {ℓ} (A : Type ℓ) : Type ℓ where
  ok : A → Result A
  err : StoreError → Result A

-- `_ = s.store.F(…)`: the caller goes on, from the database that a failed call left as it was.
abbrev pub after : Db → Result Db → Db
after db (ok new) = new
after db (err e) = db

-- The tests of the WHERE clauses.
abbrev pub is_invalid : AuthState → Bool
is_invalid AuthState.invalid = Bool.true
is_invalid _ = Bool.false

abbrev pub is_cooling : QuotaState → Bool
is_cooling QuotaState.cooling = Bool.true
is_cooling _ = Bool.false

abbrev pub is_half_open : QuotaState → Bool
is_half_open QuotaState.half_open = Bool.true
is_half_open _ = Bool.false

abbrev pub is_active : PoolRole → Bool
is_active PoolRole.active = Bool.true
is_active PoolRole.standby = Bool.false
