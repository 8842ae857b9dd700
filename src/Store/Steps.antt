-- ===== src/Store/Steps.antt =====
-- The database as a transition system: one step is one call of an operation of internal/store, by
-- whichever goroutine, with whatever arguments; a call that fails leaves the database as it was.
use opencode_proxy.Base.{ℕ, Bool, false, Option, some, ◌≡◌}
use opencode_proxy.Base.Int.{ℤ}
use opencode_proxy.Text.{Text}
use opencode_proxy.Time.{Time}
use opencode_proxy.Store.Types.{
  Db, Key, AuthState, ControlState, Window, Settings, RequestRecord, AttemptRecord, Usage, Result,
  ok, err, after, is_cooling,
}
use opencode_proxy.Store.Keys.{
  NewKey, create_key, update_key, delete_key, set_active, mark_checked, mark_used, mark_invalid,
  mark_quota, mark_half_open_due,
}
use opencode_proxy.Store.Telemetry.{
  update_settings, begin_request, add_attempt, finish_request, rename_request_client,
  save_model_cache, purge_before,
}

abbrev pub after_create : Db → Result (Db × Key) → Db
after_create db (ok (new, key)) = new
after_create db (err e) = db

-- A recorded quota failure has a time of reset (`recordKeyFailure`), and no key is created cooling
-- (`persistKey`): the callers are the only ones that the program has.
pub data Step (db : Db) : Db → Type 0 where
  create :
      (key : NewKey) (now : Time)
      → is_cooling key.quota_state ≡ false
      → Step db (after_create db (create_key key now db))
  update :
      (id : ℕ) (name : Text) (priority : ℤ) (enabled : Bool) (override : Option Bool) (now : Time)
      → Step db (update_key id name priority enabled override now db).0
  delete : (id : ℕ) → Step db (delete_key id db)
  activate : (id : ℕ) (now : Time) → Step db (after db (set_active id now db))
  check :
      (id : ℕ) (auth : AuthState) (control : ControlState) (message : Text) (now : Time)
      → Step db (mark_checked id auth control Option.none message now db)
  used : (id : ℕ) (now : Time) → Step db (mark_used id now db)
  invalidate : (id : ℕ) (message : Text) (now : Time) → Step db (mark_invalid id message now db)
  cool :
      (id : ℕ) (window : Option Window) (reset : Time) (message : Text) (now : Time)
      → Step db (after db (mark_quota id window (some reset) message now db))
  half_open : (now : Time) → Step db (mark_half_open_due now db)
  settle : (v : Settings) → Step db (update_settings v db)
  begin : (r : RequestRecord) → Step db (after db (begin_request r db))
  attempt : (a : AttemptRecord) → Step db (after db (add_attempt a db))
  finish : (r : RequestRecord) (u : Usage) → Step db (after db (finish_request r u db))
  rename : (id name : Text) → Step db (rename_request_client id name db)
  cache :
      (body : Text) (key_id : ℕ) (now : Time)
      → Step db (after db (save_model_cache body key_id now db))
  purge : (before : Time) → Step db (purge_before before db)

pub data Reach (db : Db) : Db → Type 0 where
  here : Reach db db
  next : {mid new : Db} → Reach db mid → Step mid new → Reach db new

pub Reach-trans : {a b c : Db} → Reach a b → Reach b c → Reach a c
Reach-trans r here = r
Reach-trans r (next s st) = next (Reach-trans r s) st

-- An invariant of the steps holds in every database that they reach.
pub Reach_invariant {ℓ} :
    {P : Db → Type ℓ} → ((a b : Db) → P a → Step a b → P b) → {a b : Db} → P a → Reach a b → P b
Reach_invariant keep h here = h
Reach_invariant keep h (next {mid = m} {new = n} r st) = keep m n (Reach_invariant keep h r) st
