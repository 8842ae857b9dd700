-- ===== src/Proxy/Probe/Rows.antt =====
-- What a failure of a key, by `recordKeyFailure` of internal/proxy/service.go, leaves in its row.
use opencode_proxy.Base.{
  ℕ, ◌≡◌, refl, inl, inr, true, false, List, [], ◌∷◌, All, exists, arith, Bool-cases,
}
use opencode_proxy.Time.{Time}
use opencode_proxy.Store.Types.{Key, Db, ErrorKind, AuthState, QuotaState, PoolRole}
use opencode_proxy.Store.Rows.{update_where, has_id}
use opencode_proxy.Store.Keys.{mark_invalid, mark_quota}
use opencode_proxy.Proxy.Classifier.{Classification}
use opencode_proxy.Proxy.World.{World}
use opencode_proxy.Proxy.Inference.{record_key_failure, fail_key}

-- What a failure says of a key.
abbrev pub FailureHolds : ErrorKind → Key → Type 0
FailureHolds ErrorKind.quota k =
    (k.quota_state ≡ QuotaState.cooling) × (k.pool_role ≡ PoolRole.standby)
FailureHolds ErrorKind.auth k =
    (k.auth_state ≡ AuthState.invalid) × (k.pool_role ≡ PoolRole.standby)
FailureHolds _ k = Unit {0}

-- The row of the id, where there is one, has the property.
abbrev pub RowHolds {ℓ} : (Key → Type ℓ) → ℕ → Db → Type ℓ
RowHolds P id db = All (λ k. has_id id k ≡ true → P k) db.keys

pub All-touched {ℓ} :
    (P : Key → Type ℓ) (id : ℕ) (f : Key → Key)
    → ((k : Key) → P (f k))
    → (ks : List Key) → All (λ k. has_id id k ≡ true → P k) (update_where (has_id id) f ks)
unfolding update_where
All-touched P id f h [] = tt
All-touched P id f h (k ∷ ks) = elim (Bool-cases (has_id id k)) [
  | inl e ↦ rw e ((λ _. h k), All-touched P id f h ks)
  | inr e ↦ rw e ((λ t. absurd (ground arith)), All-touched P id f h ks)
]

pub All-missing {ℓ} :
    (P : Key → Type ℓ) (id : ℕ) (ks : List Key)
    → exists (has_id id) ks ≡ false
    → All (λ k. has_id id k ≡ true → P k) ks
All-missing P id [] h = tt
All-missing P id (k ∷ ks) h = ((λ t. absurd (ground arith)), All-missing P id ks (ground arith))

pub All-trivial {ℓ} :
    (P : Key → Type ℓ) (id : ℕ) (ks : List Key)
    → ((k : Key) → P k)
    → All (λ k. has_id id k ≡ true → P k) ks
All-trivial P id [] h = tt
All-trivial P id (k ∷ ks) h = ((λ _. h k), All-trivial P id ks h)

record_failure-RowHolds :
    (kind : ErrorKind) (id : ℕ) (c : Classification) (now : Time) (db : Db)
    → c.kind ≡ kind
    → RowHolds (FailureHolds kind) id (record_key_failure id c now db)
unfolding record_key_failure mark_invalid mark_quota
record_failure-RowHolds ErrorKind.auth id c now db e =
    rw e (All-touched _ id _ (λ k. (refl, refl)) db.keys)
record_failure-RowHolds ErrorKind.quota id c now db e =
    elim (Bool-cases (exists (has_id id) db.keys)) [
      | inl there ↦ rw (e, there) (All-touched _ id _ (λ k. (refl, refl)) db.keys)
      | inr gone ↦ rw (e, gone) (All-missing _ id db.keys gone)
    ]
record_failure-RowHolds _ id c now db e = rw e (All-trivial _ id db.keys (λ k. tt))

pub fail_key-RowHolds :
    (key : Key) (c : Classification) (w : World)
    → RowHolds (FailureHolds c.kind) key.id (fail_key key c w).db
fail_key-RowHolds key c w = record_failure-RowHolds c.kind key.id c w.clock w.db refl

pub All-each {ℓ} :
    (P Q : Key → Type ℓ) (id : ℕ) (ks : List Key)
    → ((k : Key) → P k → Q k)
    → All (λ k. has_id id k ≡ true → P k) ks
    → All (λ k. has_id id k ≡ true → Q k) ks
All-each P Q id [] f a = tt
All-each P Q id (k ∷ ks) f a = ((λ e. f k (a.0 e)), All-each P Q id ks f a.1)
