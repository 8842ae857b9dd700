-- ===== src/Store/Keys.antt =====
-- The operations of internal/store/sqlite.go on the table of keys. `now` is the time that the call
-- reads; an operation that reads the clock twice is taken to read the same time.
use opencode_proxy.Base.{
  ℕ, suc, Bool, false, ◌&&◌, [], ◌∷◌, ◌++◌, Option, none, some, if◌then◌else◌, exists, filter, map,
  not, or_else, ◌==◌,
}
use opencode_proxy.Base.Int.{ℤ}
use opencode_proxy.Text.{Text, text_eq, truncate}
use opencode_proxy.Time.{Time, stored_leb}
use opencode_proxy.Store.Types.{
  Key, Db, AuthState, QuotaState, ControlState, PoolRole, Window, Result, ok, err, unique_violation,
  foreign_key_violation, not_found, QuotaEvent, RequestRow, ModelCacheRow, is_cooling, is_active,
}
use opencode_proxy.Store.Rows.{
  update_where, update_key_row, has_id, key_row, key_exists, delete_row,
}

-- What `persistKey` of internal/httpapi/api.go hands to `CreateKey`.
pub record NewKey : Type 0 where
  pub name : Text
  pub encrypted_key : Text
  pub fingerprint : Text
  pub priority : ℤ
  pub admin_enabled : Bool
  pub auth_state : AuthState
  pub quota_state : QuotaState
  pub control_state : ControlState

-- The inserted row, with the defaults of the table.
abbrev pub inserted_key : ℕ → NewKey → Time → Key
inserted_key id key now = record {
  id = id;
  name = key.name;
  encrypted_key = key.encrypted_key;
  fingerprint = key.fingerprint;
  priority = key.priority;
  admin_enabled = key.admin_enabled;
  auth_state = key.auth_state;
  quota_state = key.quota_state;
  control_state = key.control_state;
  pool_role = PoolRole.standby;
  quota_window = none;
  cooling_until = none;
  last_error = [];
  last_used_at = none;
  last_checked_at = none;
  auto_probe_override = none;
  created_at = now;
  updated_at = now;
}

abbrev pub has_fingerprint : Text → Key → Bool
has_fingerprint f k = text_eq k.fingerprint f

unfoldable pub create_key : NewKey → Time → Db → Result (Db × Key)
create_key key now db =
    let row = inserted_key db.next_key_id key now in
    if exists (has_fingerprint key.fingerprint) db.keys
    then err unique_violation
    else ok (record db { keys = db.keys ++ row ∷ []; next_key_id = suc db.next_key_id }, row)

unfoldable pub key_by_id : ℕ → Db → Result Key
key_by_id id db = elim (key_row id db.keys) [ none ↦ err not_found | some k ↦ ok k ]

abbrev pub edited_key : Text → ℤ → Bool → Option Bool → Time → Key → Key
edited_key name priority enabled override now k = record k {
  name = name;
  priority = priority;
  admin_enabled = enabled;
  auto_probe_override = override;
  pool_role = if enabled then k.pool_role else PoolRole.standby;
  updated_at = now;
}

-- The row is read back: a missing id changes nothing and is `not_found`.
unfoldable pub update_key : ℕ → Text → ℤ → Bool → Option Bool → Time → Db → Db × Result Key
unfolding update_where key_by_id
update_key id name priority enabled override now db =
    let new = record db {
      keys = update_key_row id (edited_key name priority enabled override now) db.keys;
    } in
    (new, key_by_id id new)

abbrev pub forget_final_key : ℕ → RequestRow → RequestRow
forget_final_key id r = record r {
  record_of = record r.record_of {
    final_key_id = elim r.record_of.final_key_id [
      | none ↦ none
      | some k ↦ if k == id then none else some k
    ];
  };
}

abbrev pub forget_source_key : ℕ → ModelCacheRow → ModelCacheRow
forget_source_key id c = record c {
  source_key_id = elim c.source_key_id [ none ↦ none | some k ↦ if k == id then none else some k ];
}

-- With the foreign keys: attempts and quota events go with their key, and other references to it
-- become NULL.
unfoldable pub delete_key : ℕ → Db → Db
delete_key id db = record db {
  keys = delete_row id db.keys;
  requests = map (forget_final_key id) db.requests;
  attempts = filter (λ a. not (a.key_id == id)) db.attempts;
  quota_events = filter (λ e. not (e.key_id == id)) db.quota_events;
  model_cache = elim db.model_cache [ none ↦ none | some c ↦ some (forget_source_key id c) ];
}

abbrev pub demoted : Time → Key → Key
demoted now k = record k { pool_role = PoolRole.standby; updated_at = now }

abbrev pub promoted : Time → Key → Key
promoted now k = record k { pool_role = PoolRole.active; updated_at = now }

abbrev pub is_enabled_id : ℕ → Key → Bool
is_enabled_id id k = has_id id k && k.admin_enabled

-- One transaction. Ids are unique, so that `RowsAffected` is 1 exactly if such a row is there; else
-- the transaction is rolled back.
unfoldable pub set_active : ℕ → Time → Db → Result Db
unfolding update_where
set_active id now db =
    let cleared = update_where (λ k. is_active k.pool_role) (demoted now) db.keys in
    if exists (is_enabled_id id) cleared
    then ok (record db { keys = update_where (is_enabled_id id) (promoted now) cleared })
    else err not_found

-- `none` for the empty text that leaves the quota state.
unfoldable pub mark_checked :
    ℕ → AuthState → ControlState → Option QuotaState → Text → Time → Db → Db
unfolding update_where
mark_checked id auth control quota last_error now db = record db {
  keys =
      update_key_row id
        (λ k. record k {
          auth_state = auth;
          control_state = control;
          quota_state = or_else quota k.quota_state;
          last_error = truncate last_error 1000;
          last_checked_at = some now;
          updated_at = now;
        })
        db.keys;
}

unfoldable pub mark_used : ℕ → Time → Db → Db
unfolding update_where
mark_used id now db = record db {
  keys =
      update_key_row id
        (λ k. record k {
          auth_state = AuthState.valid;
          control_state = ControlState.reachable;
          quota_state = QuotaState.available;
          quota_window = none;
          cooling_until = none;
          last_error = [];
          last_used_at = some now;
          updated_at = now;
        })
        db.keys;
}

unfoldable pub mark_invalid : ℕ → Text → Time → Db → Db
unfolding update_where
mark_invalid id message now db = record db {
  keys =
      update_key_row id
        (λ k. record k {
          auth_state = AuthState.invalid;
          pool_role = PoolRole.standby;
          last_error = truncate message 1000;
          last_checked_at = some now;
          updated_at = now;
        })
        db.keys;
}

abbrev pub cooled : Option Window → Option Time → Text → Time → Key → Key
cooled window reset message now k = record k {
  quota_state = QuotaState.cooling;
  pool_role = PoolRole.standby;
  quota_window = window;
  cooling_until = reset;
  last_error = truncate message 1000;
  last_checked_at = some now;
  updated_at = now;
}

-- One transaction: the event of a key that is gone is refused by its foreign key.
unfoldable pub mark_quota : ℕ → Option Window → Option Time → Text → Time → Db → Result Db
unfolding update_where
mark_quota id window reset message now db =
    let event : QuotaEvent = record {
      key_id = id;
      window = window;
      detected_at = now;
      reset_at = reset;
      message = truncate message 1000;
    } in
    if key_exists id db.keys
    then ok (record db {
      keys = update_key_row id (cooled window reset message now) db.keys;
      quota_events = db.quota_events ++ event ∷ [];
    })
    else err foreign_key_violation

-- `quota_state='cooling' AND cooling_until IS NOT NULL AND cooling_until<=?`.
abbrev pub is_due : Time → Key → Bool
is_due now k =
    is_cooling k.quota_state && elim k.cooling_until [ none ↦ false | some t ↦ stored_leb t now ]

unfoldable pub mark_half_open_due : Time → Db → Db
unfolding update_where
mark_half_open_due now db = record db {
  keys =
      update_where (is_due now)
        (λ k. record k { quota_state = QuotaState.half_open; updated_at = now }) db.keys;
}
