-- ===== src/Api/Import.antt =====
-- `importKeys` of internal/httpapi/api.go.
pub mod Tally
use opencode_proxy.Base.{
  ℕ, suc, ◌+◌, Bool, true, false, ◌||◌, List, [], ◌∷◌, ◌++◌, Option, none, some, ltb, ◌==◌,
  if◌then◌else◌, length, exists,
}
use opencode_proxy.Base.Int.{ℤ, pos, ◌+ℤ◌, wrap_int64}
use opencode_proxy.Text.{Text, codes, text_eq, trim_space, format_decimal}
use opencode_proxy.Store.Types.{Key, Db, Result, ok, err, unique_violation}
use opencode_proxy.Store.Keys.{key_by_id}
use opencode_proxy.Proxy.Probe.{TestResult}
use opencode_proxy.Api.Server.{
  Backend, Server, ImportStatus, imported, duplicate, failed, ImportResult, import_summary, reply,
  reply_error,
}
use opencode_proxy.Api.Pool.{
  with_server_db, priority_or_default, is_empty, found, tested, persisted,
}

pub record ImportInput : Type 0 where
  pub keys : List Text
  pub name_prefix : Text
  pub priority : ℤ
  pub validate : Bool
  pub test_inference : Bool

abbrev pub max_import_keys : ℕ
max_import_keys = 100

-- The variables of the loop: the fingerprints seen, the results, and the counts.
pub record Import : Type 0 where
  pub server : Server
  pub seen : List Text
  pub results : List ImportResult
  pub imported_count : ℕ
  pub duplicates : ℕ
  pub failures : ℕ

abbrev pub two_digits : ℕ → Text
two_digits n = if ltb n 10 then b'0' ∷ format_decimal n else format_decimal n

abbrev pub import_name : ImportInput → Text → ℕ → Text
import_name input fingerprint line =
    let prefix = trim_space input.name_prefix in
    if is_empty prefix
    then codes "Key " ++ fingerprint
    else if ltb 1 (length input.keys)
    then prefix ++ (codes " " ++ two_digits line)
    else prefix

abbrev pub bare_result : ℕ → Text → Text → ImportStatus → Text → ImportResult
bare_result line name fingerprint status error = record {
  line = line;
  name = name;
  fingerprint = fingerprint;
  status = status;
  error = error;
  key = none;
  test = none;
}

abbrev pub count_failed : ImportResult → Import → Import
count_failed r i = record i { results = i.results ++ r ∷ []; failures = suc i.failures }

abbrev pub count_duplicate : ImportResult → Import → Import
count_duplicate r i = record i { results = i.results ++ r ∷ []; duplicates = suc i.duplicates }

abbrev pub tested_if : Backend → Bool → Bool → Key → Server → Option TestResult × Server
tested_if b false inference key s = (none, s)
tested_if b true inference key s =
    let (result, new) = tested b key inference s in (some result, new)

-- What becomes of a key that `persistKey` was given.
abbrev pub import_persisted :
    Backend → ImportInput → ℕ → Text → Text → Import → Option (Result (Db × Key)) → Import
import_persisted b input line name fingerprint i none =
    count_failed (bare_result line name fingerprint failed (codes "could not save key")) i
import_persisted b input line name fingerprint i (some (err unique_violation)) =
    count_duplicate (bare_result line name fingerprint duplicate (codes "key already exists")) i
import_persisted b input line name fingerprint i (some (err e)) =
    count_failed (bare_result line name fingerprint failed (codes "could not save key")) i
import_persisted b input line name fingerprint i (some (ok (db, key))) =
    let (test, new) =
      tested_if b (input.validate || input.test_inference) input.test_inference key
        (with_server_db db i.server) in
    record i {
      server = new;
      results =
          i.results
          ++ (record {
            line = line;
            name = name;
            fingerprint = fingerprint;
            status = imported;
            error = [];
            key = found (key_by_id key.id new.world.db);
            test = test;
          }
              ∷ []);
      imported_count = suc i.imported_count;
    }

-- A key that is no copy of an earlier one.
abbrev pub import_new : Backend → ImportInput → ℕ → Text → Text → Import → Import
import_new b input index secret fingerprint i =
    let name = import_name input fingerprint (suc index) in
    import_persisted b input (suc index) name fingerprint (record i { seen = fingerprint ∷ i.seen })
      (persisted b name secret (wrap_int64 (priority_or_default input.priority +ℤ pos index))
        i.server)

-- One round of the loop, with the index of the key.
unfoldable pub import_key : Backend → ImportInput → ℕ → Text → Import → Import
import_key b input index raw i =
    let secret = trim_space raw in
    let fingerprint = b.fingerprint_of secret in
    if is_empty secret
    then count_failed (bare_result (suc index) [] [] failed (codes "empty key")) i
    else if ltb 4096 (length secret)
    then count_failed (bare_result (suc index) [] [] failed (codes "key is too long")) i
    else if exists (text_eq fingerprint) i.seen
    then count_duplicate
        (bare_result (suc index) [] fingerprint duplicate (codes "duplicate key in this import")) i
    else import_new b input index secret fingerprint i

unfoldable pub import_loop : Backend → ImportInput → ℕ → List Text → Import → Import
unfolding import_key
import_loop b input index [] i = i
import_loop b input index (raw ∷ raws) i =
    import_loop b input (suc index) raws (import_key b input index raw i)

abbrev pub nothing_imported : Server → Import
nothing_imported s = record {
  server = s;
  seen = [];
  results = [];
  imported_count = 0;
  duplicates = 0;
  failures = 0;
}

abbrev pub summary_of : Backend → ImportInput → Import → Server
summary_of b input i =
    reply b 200
      (import_summary (length input.keys) i.imported_count i.duplicates i.failures i.results)
      i.server

-- `none` is a body that is no JSON or over 1 MiB.
unfoldable pub import_keys : Backend → Option ImportInput → Server → Server
unfolding import_loop
import_keys b none s = reply_error b 400 "invalid JSON" s
import_keys b (some input) s =
    if length input.keys == 0
    then reply_error b 400 "at least one key is required" s
    else if ltb max_import_keys (length input.keys)
    then reply_error b 400 "at most 100 keys can be imported at once" s
    else summary_of b input (import_loop b input 0 input.keys (nothing_imported s))
