-- ===== src/Store/Lifecycle.antt =====
-- Activation, cooling and recovery of a key, as the database keeps them.
use opencode_proxy.Base.{
  ℕ, ◌+◌, ◌*◌, ◌/◌, ◌<◌, ◌≡◌, refl, Bool, true, List, [], ◌∷◌, Option, none, some, arith,
  if◌then◌else◌, exists,
}
use opencode_proxy.Text.{Text}
use opencode_proxy.Time.{Time, nanos_per_second, stored_leb}
use opencode_proxy.Time.Order.{stored_leb-leb, whole_second_misordered}
use opencode_proxy.Store.Types.{Key, Db, QuotaState, Window, ok, after}
use opencode_proxy.Store.Rows.{update_where, has_id, key_row}
use opencode_proxy.Store.Keys.{mark_half_open_due, mark_quota, key_by_id, is_due, cooled}

abbrev pub touched : (Key → Bool) → (Key → Key) → Option Key → Option Key
touched p f none = none
touched p f (some k) = some (if p k then f k else k)

-- A row of the table after an UPDATE that keeps ids.
pub key_row-update_where :
    (p : Key → Bool) (f : Key → Key)
    → ((k : Key) → (f k).id ≡ k.id)
    → (id : ℕ) (ks : List Key) → key_row id (update_where p f ks) ≡ touched p f (key_row id ks)
unfolding update_where
key_row-update_where p f same id [] = refl
key_row-update_where p f same id (k ∷ ks) =
    ground (arith, same k, key_row-update_where p f same id ks)

pub key_row-id : (id : ℕ) (k : Key) (ks : List Key) → key_row id ks ≡ some k → k.id ≡ id
key_row-id id k [] e = cc
key_row-id id k (j ∷ ks) e = ground (arith, key_row-id id k ks)

pub exists-key_row :
    (id : ℕ) (k : Key) (ks : List Key) → key_row id ks ≡ some k → exists (has_id id) ks ≡ true
exists-key_row id k [] e = cc
exists-key_row id k (j ∷ ks) e = ground (arith, exists-key_row id k ks)

-- An update of the row of one id: that row, and the rows of the others.
pub key_row-update_self :
    (f : Key → Key)
    → ((k : Key) → (f k).id ≡ k.id)
    → (id : ℕ) (k : Key) (ks : List Key) → key_row id ks ≡ some k
    → key_row id (update_where (has_id id) f ks) ≡ some (f k)
key_row-update_self f same id k ks e =
    ground (arith, key_row-update_where (has_id id) f same id ks, key_row-id id k ks e)

pub key_row-update_ne :
    (f : Key → Key)
    → ((k : Key) → (f k).id ≡ k.id)
    → (id other : ℕ) (ks : List Key) → (other ≡ id → ⊥)
    → key_row other (update_where (has_id id) f ks) ≡ key_row other ks
unfolding update_where
key_row-update_ne f same id other [] ne = refl
key_row-update_ne f same id other (k ∷ ks) ne =
    ground (arith, same k, key_row-update_ne f same id other ks ne)

abbrev pub half_opened : Time → Key → Key
half_opened now k = record k { quota_state = QuotaState.half_open; updated_at = now }

-- What the statement does to the row of one id.
key_by_id-mark_half_open_due :
    (id : ℕ) (k : Key) (now : Time) (db : Db)
    → key_by_id id db ≡ ok k
    → key_by_id id (mark_half_open_due now db) ≡ ok (if is_due now k then half_opened now k else k)
unfolding key_by_id mark_half_open_due
key_by_id-mark_half_open_due id k now db e =
    ground (arith, key_row-update_where (is_due now) (half_opened now) (λ j. refl) id db.keys)

is_due_lem :
    (k : Key) (t now : Time)
    → k.quota_state ≡ QuotaState.cooling
    → k.cooling_until ≡ some t
    → is_due now k ≡ stored_leb t now
is_due_lem k t now c u = ground arith

-- A cooling key whose time of reset lies in an earlier second than now becomes half open and is
-- otherwise unchanged; one whose reset lies in a later second stays as it is.
pub mark_half_open_due_lem :
    (id : ℕ) (k : Key) (t now : Time) (db : Db)
    → key_by_id id db ≡ ok k
    → k.quota_state ≡ QuotaState.cooling
    → k.cooling_until ≡ some t
    → (t / nanos_per_second < now / nanos_per_second
        → key_by_id id (mark_half_open_due now db) ≡ ok (half_opened now k))
      × (now / nanos_per_second < t / nanos_per_second
          → key_by_id id (mark_half_open_due now db) ≡ ok k)
mark_half_open_due_lem id k t now db e c u = (
  λ lt. ground (
    arith,
    key_by_id-mark_half_open_due id k now db e,
    is_due_lem k t now c u,
    stored_leb-leb t now (omega arith),
  ),
  λ lt. ground (
    arith,
    key_by_id-mark_half_open_due id k now db e,
    is_due_lem k t now c u,
    stored_leb-leb t now (omega arith),
  ),
)

-- Within the second of a reset that falls on a whole second, the key stays cooling although the
-- reset has passed.
pub half_open_late :
    (id : ℕ) (k : Key) (s n : ℕ) (db : Db)
    → key_by_id id db ≡ ok k
    → k.quota_state ≡ QuotaState.cooling
    → k.cooling_until ≡ some (s * nanos_per_second)
    → 0 < n
    → n < nanos_per_second
    → key_by_id id (mark_half_open_due (s * nanos_per_second + n) db) ≡ ok k
half_open_late id k s n db e c u lo hi = ground (
  arith,
  key_by_id-mark_half_open_due id k (s * nanos_per_second + n) db e,
  is_due_lem k (s * nanos_per_second) (s * nanos_per_second + n) c u,
  whole_second_misordered s n lo hi,
)

-- `MarkQuota` of a key that is there sets that key cooling and on standby, until the given reset,
-- and leaves every other key as it is.
pub mark_quota_lem :
    (id other : ℕ) (k : Key) (window : Option Window) (reset : Time) (message : Text) (now : Time)
    (db : Db)
    → key_by_id id db ≡ ok k
    → (key_by_id id (after db (mark_quota id window (some reset) message now db))
        ≡ ok (cooled window (some reset) message now k))
      × ((other ≡ id → ⊥)
          → key_by_id other (after db (mark_quota id window (some reset) message now db))
            ≡ key_by_id other db)
unfolding key_by_id mark_quota
mark_quota_lem id other k window reset message now db e = (
  ground (arith, self, exists-key_row id k db.keys),
  λ ne. ground (arith, key_row-update_ne f (λ j. refl) id other db.keys ne),
)
  where
    f : Key → Key
    f = cooled window (some reset) message now

    found : key_row id db.keys ≡ some k
    found = ground arith

    self : key_row id (update_where (has_id id) f db.keys) ≡ some (f k)
    self = key_row-update_self f (λ j. refl) id k db.keys found
