-- ===== src/Store/Consistency/Tables.antt =====
-- What a consistent table of keys is, and how UPDATE by a function and DELETE treat it.
use opencode_proxy.Base.{
  ℕ, suc, ◌+◌, ◌≤◌, ◌<◌, ◌≡◌, refl, inl, inr, Bool, true, false, ◌&&◌, List, [], ◌∷◌, ◌++◌, arith,
  is_some, filter, count, All, Bool-cases,
}
use opencode_proxy.Store.Types.{Key, Db, is_cooling}
use opencode_proxy.Store.Rows.{update_where, has_id}
use opencode_proxy.Store.Routing.{has_active_role}

-- Ids ascend along the table, from `lo` on, and stay below `hi`: so no id occurs twice.
abbrev pub Ascending : ℕ → List Key → ℕ → Type 0
Ascending lo [] hi = lo ≤ hi
Ascending lo (k ∷ ks) hi = (lo ≤ k.id) × Ascending (suc k.id) ks hi

-- The active key is one that the administrator has not disabled.
abbrev pub ActiveIsEnabled : Key → Type 0
ActiveIsEnabled k = has_active_role k ≡ true → k.admin_enabled ≡ true

-- A cooling key has a time at which it is tried again.
abbrev pub IsRecoverable : Key → Type 0
IsRecoverable k = is_cooling k.quota_state ≡ true → is_some k.cooling_until ≡ true

pub record IsConsistent (db : Db) : Type 0 where
  pub ascending : Ascending 0 db.keys db.next_key_id
  pub single_active : count has_active_role db.keys ≤ 1
  pub active_enabled : All ActiveIsEnabled db.keys
  pub recoverable : All IsRecoverable db.keys

module _ (p : Key → Bool) (f : Key → Key) where
  pub Ascending-update_where :
      ((k : Key) → (f k).id ≡ k.id)
      → (lo : ℕ) (ks : List Key) (hi : ℕ) → Ascending lo ks hi
      → Ascending lo (update_where p f ks) hi
  unfolding update_where
  Ascending-update_where same lo [] hi h = h
  Ascending-update_where same lo (k ∷ ks) hi h = elim (Bool-cases (p k)) [
    | inl e ↦ rw (e, same k) (h.0, Ascending-update_where same (suc k.id) ks hi h.1)
    | inr e ↦ rw e (h.0, Ascending-update_where same (suc k.id) ks hi h.1)
  ]

  pub All-update_where {ℓ} :
      (P : Key → Type ℓ)
      → ((k : Key) → p k ≡ true → P k → P (f k))
      → (ks : List Key) → All P ks
      → All P (update_where p f ks)
  unfolding update_where
  All-update_where P keep [] h = h
  All-update_where P keep (k ∷ ks) h = elim (Bool-cases (p k)) [
    | inl e ↦ rw e (keep k e h.0, All-update_where P keep ks h.1)
    | inr e ↦ rw e (h.0, All-update_where P keep ks h.1)
  ]

  -- An update that activates no key adds no active key.
  pub active-update_where-le :
      ((k : Key) → has_active_role (f k) ≡ true → has_active_role k ≡ true)
      → (ks : List Key) → count has_active_role (update_where p f ks) ≤ count has_active_role ks
  unfolding update_where
  active-update_where-le only [] = omega arith
  active-update_where-le only (k ∷ ks) = ground (arith, only k, active-update_where-le only ks)

  -- Any update adds at most the keys that it touches.
  pub active-update_where-touched :
      (ks : List Key)
      → count has_active_role (update_where p f ks) ≤ count has_active_role ks + count p ks
  unfolding update_where
  active-update_where-touched [] = omega arith
  active-update_where-touched (k ∷ ks) = ground (arith, active-update_where-touched ks)

pub Ascending-weaken :
    (lo lo' : ℕ) (ks : List Key) (hi : ℕ) → lo ≤ lo' → Ascending lo' ks hi → Ascending lo ks hi
Ascending-weaken lo lo' [] hi h a = omega arith
Ascending-weaken lo lo' (k ∷ ks) hi h a = (omega arith, a.1)

pub Ascending-filter :
    (p : Key → Bool) (lo : ℕ) (ks : List Key) (hi : ℕ)
    → Ascending lo ks hi
    → Ascending lo (filter p ks) hi
Ascending-filter p lo [] hi h = h
Ascending-filter p lo (k ∷ ks) hi h = elim (Bool-cases (p k)) [
  | inl e ↦ rw e (h.0, Ascending-filter p (suc k.id) ks hi h.1)
  | inr e ↦
      rw e (Ascending-filter p lo ks hi (Ascending-weaken lo (suc k.id) ks hi (omega arith) h.1))
]

pub Ascending-append :
    (lo : ℕ) (ks : List Key) (k : Key)
    → Ascending lo ks k.id
    → Ascending lo (ks ++ k ∷ []) (suc k.id)
Ascending-append lo [] k h = (h, omega arith)
Ascending-append lo (j ∷ ks) k h = (h.0, Ascending-append (suc j.id) ks k h.1)

pub count-filter-le : (p q : Key → Bool) (ks : List Key) → count p (filter q ks) ≤ count p ks
count-filter-le p q [] = omega arith
count-filter-le p q (k ∷ ks) = ground (arith, count-filter-le p q ks)

pub count-append_one :
    (p : Key → Bool) (ks : List Key) (k : Key) → p k ≡ false → count p (ks ++ k ∷ []) ≡ count p ks
count-append_one p [] k h = ground arith
count-append_one p (j ∷ ks) k h = ground (arith, count-append_one p ks k h)

-- Below the smallest id of the table there is no row, and each id has at most one.
no_id_below :
    (id lo : ℕ) (ks : List Key) (hi : ℕ) → Ascending lo ks hi → id < lo → count (has_id id) ks ≡ 0
no_id_below id lo [] hi h lt = refl
no_id_below id lo (k ∷ ks) hi h lt = ground (arith, no_id_below id (suc k.id) ks hi h.1)

pub single_id : (id lo : ℕ) (ks : List Key) (hi : ℕ) → Ascending lo ks hi → count (has_id id) ks ≤ 1
single_id id lo [] hi h = omega arith
single_id id lo (k ∷ ks) hi h =
    ground (arith, single_id id (suc k.id) ks hi h.1, no_id_below id (suc k.id) ks hi h.1)

pub count-and-le : (p q : Key → Bool) (ks : List Key) → count (λ k. p k && q k) ks ≤ count p ks
count-and-le p q [] = omega arith
count-and-le p q (k ∷ ks) = ground (arith, count-and-le p q ks)
