-- ===== src/Api/Keys/Activated.antt =====
-- What an activation in the console means for the next request.
use opencode_proxy.Base.{
  ℕ, ◌≡◌, refl, ap, sym, subst, ◌∙◌, inl, inr, Bool, true, false, List, [], ◌∷◌, none, some, Member,
  arith, if◌then◌else◌, Bool-cases,
}
use opencode_proxy.Time.{Time}
use opencode_proxy.Store.Types.{Key, Db, Result, ok, err, after, is_active, StoreError}
use opencode_proxy.Store.Rows.{key_row, has_id, update_where}
use opencode_proxy.Store.Routing.{eligible_keys, has_active_role, is_eligible}
use opencode_proxy.Store.Keys.{set_active, key_by_id, is_enabled_id, promoted, demoted}
use opencode_proxy.Store.Steps.{activate}
use opencode_proxy.Store.Consistency.{Step-IsConsistent}
use opencode_proxy.Store.Consistency.Tables.{IsConsistent}
use opencode_proxy.Store.Selection.ActiveFirst.{active_key_first}
use opencode_proxy.Store.Lifecycle.{touched, key_row-update_where, key_row-id}
use opencode_proxy.Api.Keys.{
  AdminReply, accepted, conflict, server_failure, not_found_or_error, is_activatable, activated,
  activate_found, activate_key,
}

key_row-Member : (id : ℕ) (k : Key) (ks : List Key) → key_row id ks ≡ some k → Member k ks
key_row-Member id k [] e = absurd (apart e)
  where
    apart : none ≡ some k → ⊥
    apart e = cc
key_row-Member id k (j ∷ ks) e = elim (Bool-cases (has_id id j)) [
  | inl same ↦ inl (ground arith)
  | inr other ↦ inr (key_row-Member id k ks (ground arith))
]

-- The row of the id behind a successful activation.
abbrev active_row : ℕ → Time → Key → Key
active_row id now k =
    let cleared = if is_active k.pool_role then demoted now k else k in
    if is_enabled_id id cleared then promoted now cleared else cleared

-- The table behind a successful activation.
abbrev activated_keys : ℕ → Time → List Key → List Key
activated_keys id now ks =
    update_where (is_enabled_id id) (promoted now)
      (update_where (λ k. is_active k.pool_role) (demoted now) ks)

ok-keys :
    (b : Bool) (x new : Db) (e : StoreError)
    → (if b then ok x else err e) ≡ ok new
    → new.keys ≡ x.keys
ok-keys true x new e h = ap (λ d. d.keys) (sym (same h))
  where
    same : Result.ok x ≡ Result.ok new → x ≡ new
    same h = cc
ok-keys false x new e h = absurd (apart h)
  where
    apart : err e ≡ Result.ok new → ⊥
    apart h = cc

set_active-keys :
    (id : ℕ) (now : Time) (db new : Db)
    → set_active id now db ≡ ok new
    → new.keys ≡ activated_keys id now db.keys
unfolding set_active
set_active-keys id now db new h = ok-keys _ _ new _ h

key_row-activated_keys :
    (id : ℕ) (now : Time) (k : Key) (ks : List Key)
    → key_row id ks ≡ some k
    → key_row id (activated_keys id now ks) ≡ some (active_row id now k)
key_row-activated_keys id now k ks e =
    key_row-update_where (is_enabled_id id) (promoted now) (λ j. refl) id _
    ∙ ap (touched (is_enabled_id id) (promoted now)) (
        key_row-update_where (λ j. is_active j.pool_role) (demoted now) (λ j. refl) id ks
        ∙ ap (touched (λ j. is_active j.pool_role) (demoted now)) e)

active_row-eligible :
    (id : ℕ) (now : Time) (k : Key)
    → k.id ≡ id
    → is_activatable k ≡ true
    → (has_active_role (active_row id now k) ≡ true)
      × (is_eligible (active_row id now k) ≡ true)
      × ((active_row id now k).id ≡ id)
active_row-eligible id now k e a = elim (Bool-cases (is_active k.pool_role)) [
  | inl old ↦ rw old (ground arith, ground arith, ground arith)
  | inr new ↦ rw new (ground arith, ground arith, ground arith)
]

accepted-only :
    (a : AdminReply) (x new : Db)
    → (let p : AdminReply × Db = (a, x) in p) ≡ (accepted, new)
    → (a ≡ accepted) × (x ≡ new)
accepted-only a x new h = (ap (λ p. p.0) h, ap (λ p. p.1) h)

decided-ok :
    (b : Bool) (db new : Db) (r : Result Db)
    → (if b then activated db r else (conflict, db)) ≡ (accepted, new)
    → (b ≡ true) × (r ≡ ok new)
decided-ok true db new (ok x) h = (refl, ap Result.ok (accepted-only accepted x new h).1)
decided-ok true db new (err e) h = absurd (apart (accepted-only server_failure db new h).0)
  where
    apart : server_failure ≡ accepted → ⊥
    apart e = cc
decided-ok false db new r h = absurd (apart (accepted-only conflict db new h).0)
  where
    apart : conflict ≡ accepted → ⊥
    apart e = cc

error-refused : (e : StoreError) → not_found_or_error e ≡ accepted → ⊥
error-refused StoreError.not_found h = cc
error-refused StoreError.unique_violation h = cc
error-refused StoreError.foreign_key_violation h = cc

found-ok :
    (id : ℕ) (now : Time) (db new : Db) (r : Result Key)
    → activate_found id now db r ≡ (accepted, new)
    → (k : Key) × (r ≡ ok k) × (is_activatable k ≡ true) × (set_active id now db ≡ ok new)
found-ok id now db new (err e) h =
    absurd (error-refused e (accepted-only (not_found_or_error e) db new h).0)
found-ok id now db new (ok k) h =
    let d = decided-ok (is_activatable k) db new (set_active id now db) h in (k, refl, d.0, d.1)

key_row-key_by_id :
    (id : ℕ) (k : Key) (db : Db) → key_by_id id db ≡ ok k → key_row id db.keys ≡ some k
unfolding key_by_id
key_row-key_by_id id k db e = ground arith

-- After an activation that is accepted on a consistent database, the key with the id is the first that
-- the next request tries.
pub activate_key-eligible_keys :
    (id : ℕ) (now : Time) (db new : Db)
    → IsConsistent db
    → activate_key id now db ≡ (accepted, new)
    → (k : Key) × (rest : List Key) × (k.id ≡ id) × (eligible_keys new ≡ k ∷ rest)
unfolding activate_key
activate_key-eligible_keys id now db new c h =
    let (k, found, fit, set) = found-ok id now db new (key_by_id id db) h in
    let row = key_row-key_by_id id k db found in
    let (role, eligible, same) = active_row-eligible id now k (key_row-id id k db.keys row) fit in
    let keys = set_active-keys id now db new set in
    let member =
      key_row-Member id (active_row id now k) new.keys
        (ap (key_row id) keys ∙ key_row-activated_keys id now k db.keys row) in
    let consistent =
      subst IsConsistent (ap (after db) set) (Step-IsConsistent db _ c (activate id now)) in
    let (rest, first) =
      active_key_first new (active_row id now k) consistent member role eligible in
    (active_row id now k, rest, same, first)
