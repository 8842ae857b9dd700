-- ===== src/Store/Telemetry.antt =====
-- The operations of internal/store/sqlite.go on settings, requests, attempts and the model cache.
use opencode_proxy.Base.{
  ℕ, Bool, true, ◌&&◌, ◌||◌, List, [], ◌∷◌, ◌++◌, Option, none, some, if◌then◌else◌, exists, filter,
  map, not,
}
use opencode_proxy.Text.{Text, text_eq, codes}
use opencode_proxy.Time.{Time, stored_ltb}
use opencode_proxy.Store.Types.{
  Key, Db, Settings, RequestRecord, RequestRow, AttemptRecord, Usage, UsageState, ModelCacheRow,
  Result, ok, err, unique_violation, foreign_key_violation, not_found,
}
use opencode_proxy.Store.Rows.{key_exists}

-- The identity of a client that authenticated with the master token: `master` and its name.
abbrev pub master_id : Text
master_id = codes "master"

abbrev pub master_name : Text
master_name =
    0xe4 ∷ 0xb8 ∷ 0xbb ∷ 0xe8 ∷ 0xae ∷ 0xbf ∷ 0xe9 ∷ 0x97 ∷ 0xae ∷ 0xe5 ∷ 0xaf ∷ 0x86 ∷ 0xe9 ∷ 0x92
    ∷ 0xa5 ∷ []

-- `GetSettings` and `UpdateSettings`: the table has its one row from `migrate` on.
unfoldable pub get_settings : Db → Settings
get_settings db = db.settings

unfoldable pub update_settings : Settings → Db → Db
update_settings v db = record db { settings = v }

abbrev pub no_usage : Usage
no_usage = record {
  input_uncached = none;
  cache_read = none;
  cache_write = none;
  output_tokens = none;
  reasoning_tokens = none;
  total_input = none;
  total_tokens = none;
  state = UsageState.unavailable;
  raw_json = [];
}

abbrev pub has_request_id : Text → RequestRow → Bool
has_request_id id r = text_eq r.record_of.id id

abbrev pub or_default : Text → Text → Text
or_default [] d = d
or_default (c ∷ s) d = c ∷ s

-- The row has the columns of the record that the statement lists, and the table's defaults for the
-- others, which the record of a new request has too.
unfoldable pub begin_request : RequestRecord → Db → Result Db
begin_request r db =
    let row : RequestRow = record {
      record_of = record r {
        client_id = or_default r.client_id master_id;
        client_name = or_default r.client_name master_name;
      };
      usage = no_usage;
    } in
    if exists (has_request_id r.id) db.requests
    then err unique_violation
    else ok (record db { requests = db.requests ++ row ∷ [] })

unfoldable pub add_attempt : AttemptRecord → Db → Result Db
add_attempt a db =
    if exists (has_request_id a.request_id) db.requests && key_exists a.key_id db.keys
    then ok (record db { attempts = db.attempts ++ a ∷ [] })
    else err foreign_key_violation

abbrev pub finished_row : RequestRecord → Usage → RequestRow → RequestRow
finished_row r usage old = record {
  record_of = record old.record_of {
    finished_at = r.finished_at;
    final_key_id = r.final_key_id;
    attempt_count = r.attempt_count;
    http_status = r.http_status;
    outcome = r.outcome;
    error_class = r.error_class;
    latency_ms = r.latency_ms;
    ttft_ms = r.ttft_ms;
  };
  usage = usage;
}

abbrev pub key_reference_holds : Option ℕ → List Key → Bool
key_reference_holds none ks = true
key_reference_holds (some id) ks = key_exists id ks

update_requests : Text → (RequestRow → RequestRow) → List RequestRow → List RequestRow
update_requests id f [] = []
update_requests id f (r ∷ rs) = (if has_request_id id r then f r else r) ∷ update_requests id f rs

-- A row that would refer to a deleted key is refused by its foreign key; no row is no error.
unfoldable pub finish_request : RequestRecord → Usage → Db → Result Db
unfolding update_requests
finish_request r usage db =
    if key_reference_holds r.final_key_id db.keys || not (exists (has_request_id r.id) db.requests)
    then ok (record db { requests = update_requests r.id (finished_row r usage) db.requests })
    else err foreign_key_violation

abbrev pub has_client : Text → RequestRow → Bool
has_client id r = text_eq r.record_of.client_id id

unfoldable pub rename_request_client : Text → Text → Db → Db
rename_request_client id name db = record db {
  requests =
      map
        (λ r.
          if has_client id r
          then record r { record_of = record r.record_of { client_name = name } }
          else r)
        db.requests;
}

unfoldable pub save_model_cache : Text → ℕ → Time → Db → Result Db
save_model_cache body key_id now db =
    let row : ModelCacheRow = record {
      body = body;
      fetched_at = now;
      source_key_id = some key_id;
    } in
    if key_exists key_id db.keys
    then ok (record db { model_cache = some row })
    else err foreign_key_violation

unfoldable pub model_cache : Db → Result ModelCacheRow
model_cache db = elim db.model_cache [ none ↦ err not_found | some c ↦ ok c ]

abbrev pub is_kept : Time → RequestRow → Bool
is_kept before r = not (stored_ltb r.record_of.started_at before)

-- The attempts of a deleted request go with it.
unfoldable pub purge_before : Time → Db → Db
purge_before before db =
    let kept = filter (is_kept before) db.requests in
    record db {
      requests = kept;
      attempts = filter (λ a. exists (has_request_id a.request_id) kept) db.attempts;
    }
