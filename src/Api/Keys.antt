-- ===== src/Api/Keys.antt =====
-- `persistKey`, `updateKey`, `activateKey` and `updateSettings` of internal/httpapi/api.go, on the
-- database and with the decoded request. The cipher and the fingerprint are parameters.
pub mod Activated
pub mod Console
use opencode_proxy.Base.{
  ℕ, Bool, true, false, ◌||◌, not, [], ◌∷◌, ◌++◌, Option, none, some, or_else, if◌then◌else◌,
}
use opencode_proxy.Base.Int.{ℤ, pos, ltb_ℤ}
use opencode_proxy.Text.{Text, codes, text_eq, trim_space}
use opencode_proxy.Time.{Time}
use opencode_proxy.Store.Types.{
  Key, Db, Settings, Result, ok, err, StoreError, not_found, AuthState, QuotaState, ControlState,
  is_invalid, is_cooling,
}
use opencode_proxy.Store.Keys.{NewKey, create_key, key_by_id, update_key, set_active}
use opencode_proxy.Store.Telemetry.{update_settings}

-- What is answered: 200, 404, 400, 409 or 500.
pub data AdminReply : Type 0 where
  accepted : AdminReply
  missing : AdminReply
  invalid_request : AdminReply
  conflict : AdminReply
  server_failure : AdminReply

-- `notFoundOrError`.
abbrev pub not_found_or_error : StoreError → AdminReply
not_found_or_error StoreError.not_found = missing
not_found_or_error StoreError.unique_violation = server_failure
not_found_or_error StoreError.foreign_key_violation = server_failure

abbrev pub is_activatable : Key → Bool
is_activatable k = not (not k.admin_enabled || is_invalid k.auth_state || is_cooling k.quota_state)

abbrev pub activated : Db → Result Db → AdminReply × Db
activated db (ok new) = (accepted, new)
activated db (err e) = (server_failure, db)

abbrev pub activate_found : ℕ → Time → Db → Result Key → AdminReply × Db
activate_found id now db (err e) = (not_found_or_error e, db)
activate_found id now db (ok k) =
    if is_activatable k then activated db (set_active id now db) else (conflict, db)

unfoldable pub activate_key : ℕ → Time → Db → AdminReply × Db
activate_key id now db = activate_found id now db (key_by_id id db)

-- The decoded body of `updateKey`.
pub record KeyInput : Type 0 where
  pub name : Option Text
  pub priority : Option ℤ
  pub admin_enabled : Option Bool
  pub auto_probe_mode : Option Text

-- The `switch` on the mode: `none` is an unknown one.
unfoldable pub override_of : Option Text → Option Bool → Option (Option Bool)
override_of none current = some current
override_of (some mode) current =
    if text_eq mode (codes "inherit")
    then some none
    else if text_eq mode (codes "enabled")
    then some (some true)
    else if text_eq mode (codes "disabled")
    then some (some false)
    else none

abbrev pub name_of : Option Text → Text → Text
name_of none current = current
name_of (some name) current = trim_space name

abbrev pub replied : Db × Result Key → AdminReply × Db
replied (new, ok k) = (accepted, new)
replied (new, err e) = (server_failure, new)

abbrev pub edit_found : ℕ → KeyInput → Time → Db → Key → Option (Option Bool) → AdminReply × Db
edit_found id input now db k none = (invalid_request, db)
edit_found id input now db k (some override) = replied (
    update_key id (name_of input.name k.name) (or_else input.priority k.priority)
      (or_else input.admin_enabled k.admin_enabled) override now db)

abbrev pub edit_decoded : ℕ → Option KeyInput → Time → Db → Key → AdminReply × Db
edit_decoded id none now db k = (invalid_request, db)
edit_decoded id (some input) now db k =
    edit_found id input now db k (override_of input.auto_probe_mode k.auto_probe_override)

abbrev pub edit_current : ℕ → Option KeyInput → Time → Db → Result Key → AdminReply × Db
edit_current id input now db (err e) = (not_found_or_error e, db)
edit_current id input now db (ok k) = edit_decoded id input now db k

-- `updateKey`; `none` is a body that is no JSON.
unfoldable pub edit_key : ℕ → Option KeyInput → Time → Db → AdminReply × Db
edit_key id input now db = edit_current id input now db (key_by_id id db)

abbrev pub is_bad_settings : Settings → Bool
is_bad_settings v =
    text_eq v.probe_model []
    || ltb_ℤ v.probe_interval_sec (pos 60)
    || ltb_ℤ v.models_cache_sec (pos 30)

-- The handler `updateSettings`; `none` is a body that is no JSON.
unfoldable pub change_settings : Option Settings → Db → AdminReply × Db
change_settings none db = (invalid_request, db)
change_settings (some v) db =
    if is_bad_settings v then (invalid_request, db) else (accepted, update_settings v db)

abbrev pub named_or : Text → Text → Text
named_or [] fingerprint = codes "Key " ++ fingerprint
named_or (c ∷ name) fingerprint = c ∷ name

abbrev pub created_with : Text → Text → ℤ → Time → Db → Option Text → Option (Result (Db × Key))
created_with name fingerprint priority now db none = none
created_with name fingerprint priority now db (some encrypted) =
    let key : NewKey = record {
      name = named_or (trim_space name) fingerprint;
      encrypted_key = encrypted;
      fingerprint = fingerprint;
      priority = priority;
      admin_enabled = true;
      auth_state = AuthState.unknown;
      quota_state = QuotaState.unknown;
      control_state = ControlState.unknown;
    } in
    some (create_key key now db)

-- `persistKey`; `none` is an error of the cipher.
unfoldable pub persist_key :
    (Text → Text) → (Text → Option Text) → Text → Text → ℤ → Time → Db → Option (Result (Db × Key))
persist_key fingerprint_of encrypt_secret name raw_key priority now db =
    let secret = trim_space raw_key in
    created_with name (fingerprint_of secret) priority now db (encrypt_secret secret)
