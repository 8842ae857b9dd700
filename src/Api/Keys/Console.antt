-- ===== src/Api/Keys/Console.antt =====
-- The console's operations of internal/httpapi/api.go move the database by steps of the store, and
-- keep the settings within their bounds.
use opencode_proxy.Base.{
  ℕ, ◌≡◌, refl, Bool, true, false, Option, none, some, if◌then◌else◌, Bool-cases, inl, inr,
}
use opencode_proxy.Base.Int.{ℤ}
use opencode_proxy.Text.{Text}
use opencode_proxy.Time.{Time}
use opencode_proxy.Store.Types.{Key, Db, Settings, Result, ok, err, after}
use opencode_proxy.Store.Keys.{key_by_id, set_active, update_key}
use opencode_proxy.Store.Telemetry.{get_settings, update_settings}
use opencode_proxy.Store.Steps.{Reach, here, next, activate, update, settle, create, after_create}
use opencode_proxy.Api.Keys.{
  AdminReply, conflict, KeyInput, activated, activate_found, activate_key, override_of, replied,
  edit_found, edit_current, edit_key, is_bad_settings, change_settings, created_with, persist_key,
}

activated-Reach :
    (id : ℕ) (now : Time) (db : Db) (r : Result Db)
    → Reach db (after db r)
    → Reach db (activated db r).1
activated-Reach id now db (ok new) h = h
activated-Reach id now db (err e) h = here

decided-Reach :
    (b : Bool) (db : Db) (x : AdminReply × Db)
    → Reach db x.1
    → Reach db (if b then x else (conflict, db)).1
decided-Reach true db x h = h
decided-Reach false db x h = here

pub activate_key-Reach : (id : ℕ) (now : Time) (db : Db) → Reach db (activate_key id now db).1
unfolding activate_key
activate_key-Reach id now db = go (key_by_id id db)
  where
    go : (r : Result Key) → Reach db (activate_found id now db r).1
    go (err e) = here
    go (ok k) =
        decided-Reach _ db (activated db (set_active id now db))
          (activated-Reach id now db (set_active id now db) (next here (activate id now)))

replied-Reach : (db : Db) (x : Db × Result Key) → Reach db x.0 → Reach db (replied x).1
replied-Reach db (new, ok k) h = h
replied-Reach db (new, err e) h = h

pub edit_key-Reach :
    (id : ℕ) (input : Option KeyInput) (now : Time) (db : Db)
    → Reach db (edit_key id input now db).1
unfolding edit_key
edit_key-Reach id input now db = go (key_by_id id db) input
  where
    edited :
        (i : KeyInput) (k : Key) (o : Option (Option Bool))
        → Reach db (edit_found id i now db k o).1
    edited i k none = here
    edited i k (some override) =
        replied-Reach db (update_key id _ _ _ override now db)
          (next here (update id _ _ _ override now))

    go : (r : Result Key) (i : Option KeyInput) → Reach db (edit_current id i now db r).1
    go (err e) i = here
    go (ok k) none = here
    go (ok k) (some i) = edited i k (override_of i.auto_probe_mode k.auto_probe_override)

pub change_settings-Reach : (v : Option Settings) (db : Db) → Reach db (change_settings v db).1
unfolding change_settings
change_settings-Reach none db = here
change_settings-Reach (some v) db = elim (Bool-cases (is_bad_settings v)) [
  | inl bad ↦ rw bad here
  | inr good ↦ rw good (next here (settle v))
]

-- The database after `persistKey`, which an error leaves as it was.
abbrev pub after_persist : Db → Option (Result (Db × Key)) → Db
after_persist db none = db
after_persist db (some r) = after_create db r

pub persist_key-Reach :
    (fingerprint_of : Text → Text) (encrypt_secret : Text → Option Text) (name raw_key : Text)
    (priority : ℤ) (now : Time) (db : Db)
    → Reach db
        (after_persist db (persist_key fingerprint_of encrypt_secret name raw_key priority now db))
unfolding persist_key
persist_key-Reach fingerprint_of encrypt_secret name raw_key priority now db =
    go _ (encrypt_secret _)
  where
    go :
        (f : Text) (e : Option Text)
        → Reach db (after_persist db (created_with name f priority now db e))
    go f none = here
    go f (some e) = next here (create _ now refl)

-- Settings that a probe and the cache can use.
abbrev pub IsUsable : Settings → Type 0
IsUsable v = is_bad_settings v ≡ false

change_settings-IsUsable :
    (v : Option Settings) (db : Db)
    → IsUsable (get_settings db)
    → IsUsable (get_settings (change_settings v db).1)
unfolding change_settings get_settings update_settings
change_settings-IsUsable none db h = h
change_settings-IsUsable (some v) db h = elim (Bool-cases (is_bad_settings v)) [
  | inl bad ↦ rw bad h
  | inr good ↦ rw good good
]

-- The operations of the console move the database by steps of the store, whatever they are asked, and
-- usable settings stay usable: a probe model is set, probes are at least a minute apart, and the
-- catalog is kept for at least 30 seconds.
pub console-Reach :
    (db : Db) (now : Time)
    → ((id : ℕ) → Reach db (activate_key id now db).1)
      × ((id : ℕ) (input : Option KeyInput) → Reach db (edit_key id input now db).1)
      × ((fingerprint_of : Text → Text) (encrypt_secret : Text → Option Text) (name raw_key : Text)
            (priority : ℤ)
          → Reach db (
              after_persist db
                (persist_key fingerprint_of encrypt_secret name raw_key priority now db)))
      × ((v : Option Settings)
          → Reach db (change_settings v db).1
            × (IsUsable (get_settings db) → IsUsable (get_settings (change_settings v db).1)))
console-Reach db now = (
  λ id. activate_key-Reach id now db,
  λ id input. edit_key-Reach id input now db,
  λ f e name raw priority. persist_key-Reach f e name raw priority now db,
  λ v. (change_settings-Reach v db, change_settings-IsUsable v db),
)
