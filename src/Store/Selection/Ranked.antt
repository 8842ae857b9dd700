-- ===== src/Store/Selection/Ranked.antt =====
-- What the query of `EligibleKeys` of internal/store/sqlite.go returns, said of the columns.
use mathlib.Core.List.Perm
use opencode_proxy.Base.{
  ◌≤◌, ◌≡◌, ◌≢◌, ◌⊎◌, inl, inr, true, false, List, [], ◌∷◌, ◌++◌, not, arith, filter, All, All-map,
  Perm, Bool-cases,
}
use opencode_proxy.Base.Int.{◌≤ℤ◌}
use opencode_proxy.Base.Sorting.{IsOrdered, perm-partition, filter-holds}
use opencode_proxy.Store.Types.{Key, Db, AuthState, QuotaState, PoolRole, is_invalid, is_cooling}
use opencode_proxy.Store.Routing.{first_by, has_active_role, is_eligible, eligible_keys}
use opencode_proxy.Store.Selection.{eligible_keys-Perm, eligible_keys-All}

-- The key is enabled, is not known to be invalid, and is not cooling.
abbrev pub MayServe : Key → Type 0
MayServe k =
    (k.admin_enabled ≡ true)
    × (k.auth_state ≢ AuthState.invalid)
    × (k.quota_state ≢ QuotaState.cooling)

abbrev pub MayNotServe : Key → Type 0
MayNotServe k =
    (k.admin_enabled ≡ false)
    ⊎ (k.auth_state ≡ AuthState.invalid)
    ⊎ (k.quota_state ≡ QuotaState.cooling)

-- The key may stand before the other: an active key before a standby one, and with the same role the
-- smaller priority first, and then the smaller id.
abbrev pub RanksBefore : Key → Key → Type 0
RanksBefore k j =
    (j.pool_role ≡ PoolRole.active → k.pool_role ≡ PoolRole.active)
    × (k.pool_role ≡ j.pool_role → k.priority ≤ℤ j.priority)
    × (k.pool_role ≡ j.pool_role → k.priority ≡ j.priority → k.id ≤ j.id)

abbrev pub IsRanked : List Key → Type 0
IsRanked [] = Unit {0}
IsRanked (k ∷ ks) = All (RanksBefore k) ks × IsRanked ks

not_invalid : (a : AuthState) → is_invalid a ≡ false → a ≢ AuthState.invalid
not_invalid a h = λ e. ground arith

not_cooling : (q : QuotaState) → is_cooling q ≡ false → q ≢ QuotaState.cooling
not_cooling q h = λ e. ground arith

invalid_of : (a : AuthState) → is_invalid a ≡ true → a ≡ AuthState.invalid
invalid_of a h = ground arith

cooling_of : (q : QuotaState) → is_cooling q ≡ true → q ≡ QuotaState.cooling
cooling_of q h = ground arith

pub MayServe-of : (k : Key) → is_eligible k ≡ true → MayServe k
MayServe-of k h = (
  ground arith,
  not_invalid k.auth_state (ground arith),
  not_cooling k.quota_state (ground arith),
)

MayNotServe-of : (k : Key) → not (is_eligible k) ≡ true → MayNotServe k
MayNotServe-of k h = elim (Bool-cases k.admin_enabled) [
  | inr e ↦ inl e
  | inl e ↦ elim (Bool-cases (is_invalid k.auth_state)) [
    | inl i ↦ inr (inl (invalid_of k.auth_state i))
    | inr i ↦ inr (inr (cooling_of k.quota_state (ground arith)))
  ]
]

RanksBefore-of : (k j : Key) → first_by has_active_role j k ≡ false → RanksBefore k j
RanksBefore-of k j h = (λ e. ground arith, λ e. ground arith, λ e p. ground arith)

IsRanked-of : (ks : List Key) → IsOrdered (first_by has_active_role) ks → IsRanked ks
IsRanked-of [] o = tt
IsRanked-of (k ∷ ks) o = (All-map _ _ (λ j h. RanksBefore-of k j h) ks o.0, IsRanked-of ks o.1)

-- `EligibleKeys` splits the table: the keys that it lists and the ones that it leaves out are
-- together the keys of the table, each as often as the table holds it. A key that is listed is
-- enabled, not invalid and not cooling; one that is left out is disabled, invalid or cooling. In the
-- list an active key stands before a standby one, and of two with the same role the one with the
-- smaller priority, or with the same priority the one with the smaller id, stands first.
pub eligible_keys_lem :
    (db : Db)
    → (others : List Key) × Perm (eligible_keys db ++ others) db.keys
      × All MayServe (eligible_keys db)
      × All MayNotServe others
      × IsRanked (eligible_keys db)
eligible_keys_lem db =
    let others = filter (λ k. not (is_eligible k)) db.keys in
    (
      others,
      Perm.trans (Perm.append_right others (eligible_keys-Perm db).0)
          (perm-partition is_eligible db.keys),
      All-map _ _ (λ k h. MayServe-of k h) (eligible_keys db) (eligible_keys-All db),
      All-map _ _ (λ k h. MayNotServe-of k h) others
          (filter-holds (λ k. not (is_eligible k)) db.keys),
      IsRanked-of (eligible_keys db) (eligible_keys-Perm db).1,
    )
