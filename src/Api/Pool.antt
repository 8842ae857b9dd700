-- ===== src/Api/Pool.antt =====
-- The handlers of the pool of keys in internal/httpapi/api.go: `listKeys`, `createKey`, `updateKey`,
-- `deleteKey`, `activateKey`, `testKey`, and `pathID`.
use opencode_proxy.Base.{ℕ, Bool, true, false, [], ◌∷◌, Option, none, some, if◌then◌else◌, ◌==◌}
use opencode_proxy.Base.Int.{ℤ, pos, negsuc}
use opencode_proxy.Text.{Text, trim_space}
use opencode_proxy.Text.Numbers.{atoi}
use opencode_proxy.Store.Types.{Key, Db, Result, ok, err, unique_violation, not_found}
use opencode_proxy.Store.Keys.{key_by_id, delete_key}
use opencode_proxy.Store.Routing.{list_keys}
use opencode_proxy.Proxy.Probe.{TestResult, failed_call, test_key}
use opencode_proxy.Api.Keys.{
  AdminReply, accepted, missing, invalid_request, conflict, server_failure, not_found_or_error,
  KeyInput, edit_key, activate_key, persist_key,
}
use opencode_proxy.Api.Server.{
  Backend, Server, acknowledged, all_keys, one_key, created_key, test_result, test_error, reply,
  reply_error, server_error, no_content,
}

abbrev pub with_server_db : Db → Server → Server
with_server_db db s = record s { world = record s.world { db = db } }

-- `pathID`: the id in the path, or an answer.
abbrev pub if_id : Backend → (ℤ → Server) → Server → Option ℤ → Server
if_id b handler s none = reply_error b 400 "invalid id" s
if_id b handler s (some id) = handler id

abbrev pub with_id : Backend → Text → (ℤ → Server) → Server → Server
with_id b text handler s = if_id b handler s (atoi text)

-- The row of an id; no row has a negative one.
abbrev pub key_of : ℤ → Db → Result Key
key_of (negsuc n) db = err not_found
key_of (pos n) db = key_by_id n db

-- What the handlers answer where the database has done nothing.
abbrev pub refuse : Backend → AdminReply → Server → Server
refuse b accepted s = reply b 200 acknowledged s
refuse b missing s = reply_error b 404 "not found" s
refuse b invalid_request s = reply_error b 400 "invalid JSON" s
refuse b conflict s = reply_error b 409 "key is not eligible for activation" s
refuse b server_failure s = server_error b s

unfoldable pub list_all_keys : Backend → Server → Server
unfolding list_keys
list_all_keys b s = reply b 200 (all_keys (list_keys s.world.db)) s

-- The body of `createKey`.
pub record CreateInput : Type 0 where
  pub name : Text
  pub key : Text
  pub priority : ℤ
  pub test_inference : Bool

abbrev pub is_zero : ℤ → Bool
is_zero (pos n) = n == 0
is_zero (negsuc n) = false

abbrev pub priority_or_default : ℤ → ℤ
priority_or_default p = if is_zero p then pos 100 else p

abbrev pub found : Result Key → Option Key
found (ok k) = some k
found (err e) = none

-- `TestKey` of a new key, then its row as it is now.
abbrev pub tested : Backend → Key → Bool → Server → TestResult × Server
tested b key inference s =
    let (result, world) = test_key b.env key inference s.world in
    (result, record s { world = world })

abbrev pub created : Backend → CreateInput → Server → Option (Result (Db × Key)) → Server
created b input s none = server_error b s
created b input s (some (err unique_violation)) = reply_error b 409 "key already exists" s
created b input s (some (err e)) = server_error b s
created b input s (some (ok (db, key))) =
    let (result, new) = tested b key input.test_inference (with_server_db db s) in
    reply b 201 (created_key (found (key_by_id key.id new.world.db)) result) new

abbrev pub persisted : Backend → Text → Text → ℤ → Server → Option (Result (Db × Key))
persisted b name key priority s =
    persist_key b.fingerprint_of b.encrypt name key priority s.world.clock s.world.db

abbrev pub is_empty : Text → Bool
is_empty [] = true
is_empty (c ∷ s) = false

unfoldable pub create_key_handler : Backend → Option CreateInput → Server → Server
create_key_handler b none s = reply_error b 400 "key is required" s
create_key_handler b (some input) s =
    if is_empty (trim_space input.key)
    then reply_error b 400 "key is required" s
    else created b input s (persisted b input.name input.key (priority_or_default input.priority) s)

abbrev pub updated_row : Backend → Server → Result Key → Server
updated_row b s (ok k) = reply b 200 (one_key k) s
updated_row b s (err e) = server_error b s

abbrev pub updated_answer : Backend → ℕ → Option KeyInput → AdminReply → Server → Server
updated_answer b id input accepted s = updated_row b s (key_by_id id s.world.db)
updated_answer b id (some input) invalid_request s =
    reply_error b 400 "auto_probe_mode must be inherit, enabled, or disabled" s
updated_answer b id input a s = refuse b a s

abbrev pub update_row : Backend → Option KeyInput → Server → ℤ → Server
update_row b input s (negsuc n) = refuse b missing s
update_row b input s (pos n) =
    let (a, db) = edit_key n input s.world.clock s.world.db in
    updated_answer b n input a (with_server_db db s)

unfoldable pub update_key_handler : Backend → Text → Option KeyInput → Server → Server
unfolding edit_key
update_key_handler b id input s = with_id b id (update_row b input s) s

abbrev pub delete_row : ℤ → Db → Db
delete_row (negsuc n) db = db
delete_row (pos n) db = delete_key n db

unfoldable pub delete_key_handler : Backend → Text → Server → Server
unfolding delete_key
delete_key_handler b id s =
    with_id b id (λ n. no_content (with_server_db (delete_row n s.world.db) s)) s

abbrev pub activate_row : Backend → Server → ℤ → Server
activate_row b s (negsuc n) = refuse b missing s
activate_row b s (pos n) =
    let (a, db) = activate_key n s.world.clock s.world.db in refuse b a (with_server_db db s)

unfoldable pub activate_key_handler : Backend → Text → Server → Server
unfolding activate_key
activate_key_handler b id s = with_id b id (activate_row b s) s

-- An error of TestKey is answered with 502.
abbrev pub tested_answer : Backend → TestResult × Server → Server
tested_answer b (failed_call, s) = reply b 502 (test_error failed_call) s
tested_answer b (r, s) = reply b 200 (test_result r) s

abbrev pub test_row : Backend → Bool → Server → Result Key → Server
test_row b inference s (err e) = refuse b (not_found_or_error e) s
test_row b inference s (ok k) = tested_answer b (tested b k inference s)

-- `testKey`; a body that is no JSON asks for no inference.
unfoldable pub test_key_handler : Backend → Text → Bool → Server → Server
unfolding test_key
test_key_handler b id inference s =
    with_id b id (λ n. test_row b inference s (key_of n s.world.db)) s
