-- ===== src/Store/Activation.antt =====
-- `SetActive` of internal/store/sqlite.go.
use opencode_proxy.Base.{
  ℕ, suc, ◌<◌, ◌≡◌, refl, inl, inr, ◌⊎◌, true, false, List, [], ◌∷◌, arith, exists, All, Bool-cases,
}
use opencode_proxy.Time.{Time}
use opencode_proxy.Store.Types.{Key, Db, ok, err, after, is_active, not_found}
use opencode_proxy.Store.Rows.{update_where, has_id}
use opencode_proxy.Store.Routing.{has_active_role}
use opencode_proxy.Store.Keys.{set_active, is_enabled_id, demoted, promoted}
use opencode_proxy.Store.Consistency.{IsConsistent, Ascending}

above_id :
    (id lo : ℕ) (ks : List Key) (hi : ℕ)
    → Ascending lo ks hi
    → id < lo
    → All (λ k. has_id id k ≡ is_enabled_id id k) ks × (exists (is_enabled_id id) ks ≡ false)
above_id id lo [] hi a lt = (tt, refl)
above_id id lo (k ∷ ks) hi a lt =
    let rest = above_id id (suc k.id) ks hi a.1 (omega arith) in
    ((ground arith, rest.0), ground arith)

-- Where a row with the id is enabled, it is the only one with the id.
enabled_is_unique :
    (id lo : ℕ) (ks : List Key) (hi : ℕ)
    → Ascending lo ks hi
    → exists (is_enabled_id id) ks ≡ true
    → All (λ k. has_id id k ≡ is_enabled_id id k) ks
enabled_is_unique id lo [] hi a e = tt
enabled_is_unique id lo (k ∷ ks) hi a e = elim (Bool-cases (has_id id k)) [
  | inl same ↦ let rest = above_id id (suc k.id) ks hi a.1 (ground arith) in (ground arith, rest.0)
  | inr other ↦ (ground arith, enabled_is_unique id (suc k.id) ks hi a.1 (ground arith))
]

promote_cleared :
    (id : ℕ) (now : Time) (ks : List Key)
    → All (λ k. has_id id k ≡ is_enabled_id id k) ks
    → All
        (λ k. has_active_role k ≡ has_id id k)
        (update_where
          (is_enabled_id id)
          (promoted now)
          (update_where (λ k. is_active k.pool_role) (demoted now) ks))
unfolding update_where
promote_cleared id now [] a = tt
promote_cleared id now (k ∷ ks) a = (ground arith, promote_cleared id now ks a.1)

exists-cleared :
    (id : ℕ) (now : Time) (ks : List Key)
    → exists (is_enabled_id id) (update_where (λ k. is_active k.pool_role) (demoted now) ks)
      ≡ exists (is_enabled_id id) ks
unfolding update_where
exists-cleared id now [] = refl
exists-cleared id now (k ∷ ks) = ground (arith, exists-cleared id now ks)

-- On a consistent database `SetActive` makes the given key the active one and every other key a
-- standby if the key is there and enabled; else it fails with `not_found` and changes nothing.
pub set_active_lem :
    (id : ℕ) (now : Time) (db : Db)
    → IsConsistent db
    → ((exists (is_enabled_id id) db.keys ≡ true)
        × ((new : Db) × (set_active id now db ≡ ok new)
            × All (λ k. has_active_role k ≡ has_id id k) new.keys))
      ⊎ ((exists (is_enabled_id id) db.keys ≡ false)
          × (set_active id now db ≡ err not_found)
          × (after db (set_active id now db) ≡ db))
unfolding set_active
set_active_lem id now db c = elim (Bool-cases (exists (is_enabled_id id) db.keys)) [
  | inl e ↦ inl (
    e,
    (
      record db {
        keys =
            update_where (is_enabled_id id) (promoted now)
              (update_where (λ k. is_active k.pool_role) (demoted now) db.keys);
      },
      rw (exists-cleared id now db.keys, e) refl,
      promote_cleared id now db.keys (enabled_is_unique id 0 db.keys db.next_key_id c.ascending e),
    ),
  )
  | inr e ↦
      inr
        (e, rw (exists-cleared id now db.keys, e) refl, rw (exists-cleared id now db.keys, e) refl)
]
