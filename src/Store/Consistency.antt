-- ===== src/Store/Consistency.antt =====
-- The invariants of the table of keys, kept by every operation of internal/store/sqlite.go.
pub mod Tables
pub use Tables.{Ascending, ActiveIsEnabled, IsRecoverable, IsConsistent}
use Tables.{
  Ascending-update_where, All-update_where, active-update_where-le, active-update_where-touched,
  Ascending-filter, Ascending-append, count-filter-le, count-append_one, single_id, count-and-le,
}
use opencode_proxy.Base.{
  ℕ, ◌≡◌, refl, inl, inr, Bool, true, false, List, [], ◌∷◌, Option, some, arith, count, exists,
  All-append, All-filter, Bool-cases, not,
}
use opencode_proxy.Base.Int.{ℤ}
use opencode_proxy.Text.{Text}
use opencode_proxy.Time.{Time}
use opencode_proxy.Store.Types.{Key, Db, Window, after, is_active, is_cooling}
use opencode_proxy.Store.Rows.{update_where, has_id}
use opencode_proxy.Store.Routing.{has_active_role}
use opencode_proxy.Store.Keys.{
  NewKey, create_key, update_key, delete_key, set_active, mark_checked, mark_used, mark_invalid,
  mark_quota, mark_half_open_due, has_fingerprint, edited_key, demoted, promoted, is_enabled_id,
  inserted_key, cooled,
}
use opencode_proxy.Store.Telemetry.{
  update_settings, begin_request, add_attempt, finish_request, rename_request_client,
  save_model_cache, purge_before,
}
use opencode_proxy.Store.Steps.{
  Step, create, update, delete, activate, check, used, invalidate, cool, half_open, settle, begin,
  attempt, finish, rename, cache, purge, after_create,
}

-- An UPDATE that keeps ids and promotes nobody, and that keeps the two predicates on a row.
update-IsConsistent :
    (p : Key → Bool) (f : Key → Key) (db new : Db)
    → new.keys ≡ update_where p f db.keys
    → new.next_key_id ≡ db.next_key_id
    → ((k : Key) → (f k).id ≡ k.id)
    → ((k : Key) → has_active_role (f k) ≡ true → has_active_role k ≡ true)
    → ((k : Key) → p k ≡ true → ActiveIsEnabled k → ActiveIsEnabled (f k))
    → ((k : Key) → p k ≡ true → IsRecoverable k → IsRecoverable (f k))
    → IsConsistent db
    → IsConsistent new
update-IsConsistent p f db new e n same only enabled recovers c = record {
  ascending = rw (e, n) (Ascending-update_where p f same 0 db.keys db.next_key_id c.ascending);
  single_active = rw e (omega (arith, active-update_where-le p f only db.keys, c.single_active));
  active_enabled = rw e (All-update_where p f ActiveIsEnabled enabled db.keys c.active_enabled);
  recoverable = rw e (All-update_where p f IsRecoverable recovers db.keys c.recoverable);
}

-- An operation that does not touch the table of keys.
frame-IsConsistent :
    (db new : Db)
    → new.keys ≡ db.keys
    → new.next_key_id ≡ db.next_key_id
    → IsConsistent db
    → IsConsistent new
frame-IsConsistent db new e n c = record {
  ascending = rw (e, n) c.ascending;
  single_active = rw e c.single_active;
  active_enabled = rw e c.active_enabled;
  recoverable = rw e c.recoverable;
}

append-IsConsistent :
    (db : Db) (key : NewKey) (now : Time)
    → is_cooling key.quota_state ≡ false
    → IsConsistent db
    → IsConsistent (after_create db (create_key key now db))
unfolding create_key
append-IsConsistent db key now h c =
    elim (Bool-cases (exists (has_fingerprint key.fingerprint) db.keys)) [
      | inl e ↦ rw e c
      | inr e ↦ rw e (record {
        ascending = Ascending-append 0 db.keys row c.ascending;
        single_active =
            omega (arith, count-append_one has_active_role db.keys row refl, c.single_active);
        active_enabled =
            All-append ActiveIsEnabled db.keys (row ∷ []) c.active_enabled (λ e. cc, tt);
        recoverable = All-append IsRecoverable db.keys (row ∷ []) c.recoverable (λ e. cc, tt);
      })
    ]
  where
    row : Key
    row = inserted_key db.next_key_id key now

-- Clearing the active role leaves no active key.
none_active :
    (now : Time) (ks : List Key)
    → count has_active_role (update_where (λ k. is_active k.pool_role) (demoted now) ks) ≡ 0
unfolding update_where
none_active now [] = refl
none_active now (k ∷ ks) = ground (arith, none_active now ks)

activate-IsConsistent :
    (id : ℕ) (now : Time) (db : Db)
    → IsConsistent db
    → IsConsistent (after db (set_active id now db))
unfolding set_active
activate-IsConsistent id now db c = elim (Bool-cases (exists (is_enabled_id id) cleared)) [
  | inl e ↦ rw e (record {
    ascending =
        Ascending-update_where _ (promoted now) (λ k. refl) 0 cleared db.next_key_id ascending;
    single_active = omega (
      arith,
      active-update_where-touched (is_enabled_id id) (promoted now) cleared,
      none_active now db.keys,
      count-and-le (has_id id) (λ k. k.admin_enabled) cleared,
      single_id id 0 cleared db.next_key_id ascending,
    );
    active_enabled =
        All-update_where _ (promoted now) ActiveIsEnabled (λ k q h a. ground arith) cleared
          (All-update_where _ (demoted now) ActiveIsEnabled (λ k q h a. cc) db.keys
            c.active_enabled);
    recoverable =
        All-update_where _ (promoted now) IsRecoverable (λ k q h. h) cleared
          (All-update_where _ (demoted now) IsRecoverable (λ k q h. h) db.keys c.recoverable);
  })
  | inr e ↦ rw e c
]
  where
    cleared : List Key
    cleared = update_where (λ k. is_active k.pool_role) (demoted now) db.keys

    ascending : Ascending 0 cleared db.next_key_id
    ascending =
        Ascending-update_where _ (demoted now) (λ k. refl) 0 db.keys db.next_key_id c.ascending

-- An administrator's edit demotes a key that it disables.
edit-IsConsistent :
    (id : ℕ) (name : Text) (priority : ℤ) (enabled : Bool) (override : Option Bool) (now : Time)
    (db : Db)
    → IsConsistent db
    → IsConsistent (update_key id name priority enabled override now db).0
unfolding update_key
edit-IsConsistent id name priority enabled override now db =
    update-IsConsistent (has_id id) (edited_key name priority enabled override now) db _ refl refl
      (λ k. refl) (λ k a. ground arith) (λ k q h a. ground arith) (λ k q h. h)

delete-IsConsistent : (id : ℕ) (db : Db) → IsConsistent db → IsConsistent (delete_key id db)
unfolding delete_key
delete-IsConsistent id db c = record {
  ascending = Ascending-filter _ 0 db.keys db.next_key_id c.ascending;
  single_active =
      omega
        (arith, count-filter-le has_active_role (λ k. not (has_id id k)) db.keys, c.single_active);
  active_enabled = All-filter ActiveIsEnabled _ db.keys c.active_enabled;
  recoverable = All-filter IsRecoverable _ db.keys c.recoverable;
}

cool-IsConsistent :
    (id : ℕ) (window : Option Window) (reset : Time) (message : Text) (now : Time) (db : Db)
    → IsConsistent db
    → IsConsistent (after db (mark_quota id window (some reset) message now db))
unfolding mark_quota
cool-IsConsistent id window reset message now db c =
    elim (Bool-cases (exists (has_id id) db.keys)) [
      | inl e ↦ rw e (
          update-IsConsistent (has_id id) (cooled window (some reset) message now) db _ refl refl
            (λ k. refl) (λ k a. cc) (λ k q h a. cc) (λ k q h a. refl) c)
      | inr e ↦ rw e c
    ]

-- One call of any operation keeps the table of keys consistent: ids are distinct and below the
-- counter, at most one key is active, it is enabled, and a cooling key has a time of reset. As the
-- callers of the program do, no call creates a key as cooling or cools one without a time of reset.
pub Step-IsConsistent : (db new : Db) → IsConsistent db → Step db new → IsConsistent new
unfolding mark_checked mark_used mark_invalid mark_half_open_due update_settings
    rename_request_client purge_before begin_request add_attempt finish_request save_model_cache
Step-IsConsistent db new c (create key now h) = append-IsConsistent db key now h c
Step-IsConsistent db new c (update id name priority enabled override now) =
    edit-IsConsistent id name priority enabled override now db c
Step-IsConsistent db new c (delete id) = delete-IsConsistent id db c
Step-IsConsistent db new c (activate id now) = activate-IsConsistent id now db c
Step-IsConsistent db new c (check id auth control message now) =
    update-IsConsistent (has_id id) _ db _ refl refl (λ k. refl) (λ k a. a) (λ k q h. h)
      (λ k q h. h) c
Step-IsConsistent db new c (used id now) =
    update-IsConsistent (has_id id) _ db _ refl refl (λ k. refl) (λ k a. a) (λ k q h. h)
      (λ k q h e. cc) c
Step-IsConsistent db new c (invalidate id message now) =
    update-IsConsistent (has_id id) _ db _ refl refl (λ k. refl) (λ k a. cc) (λ k q h e. cc)
      (λ k q h. h) c
Step-IsConsistent db new c (cool id window reset message now) =
    cool-IsConsistent id window reset message now db c
Step-IsConsistent db new c (half_open now) =
    update-IsConsistent _ _ db _ refl refl (λ k. refl) (λ k a. a) (λ k q h. h) (λ k q h e. cc) c
Step-IsConsistent db new c (settle v) = frame-IsConsistent db _ refl refl c
Step-IsConsistent db new c (begin r) = frame-IsConsistent db _ (ground arith) (ground arith) c
Step-IsConsistent db new c (attempt a) = frame-IsConsistent db _ (ground arith) (ground arith) c
Step-IsConsistent db new c (finish r u) = frame-IsConsistent db _ (ground arith) (ground arith) c
Step-IsConsistent db new c (rename id name) = frame-IsConsistent db _ refl refl c
Step-IsConsistent db new c (cache body id now) =
    frame-IsConsistent db _ (ground arith) (ground arith) c
Step-IsConsistent db new c (purge before) = frame-IsConsistent db _ refl refl c
