-- ===== src/Proxy/Probe/Outcome.antt =====
-- What `TestKey` of internal/proxy/service.go leaves in the store, and what it calls.
use opencode_proxy.Base.{ℕ, ◌≡◌, ◌⊎◌}
use opencode_proxy.Text.{Text}
use opencode_proxy.Store.Types.{Key, AuthState, QuotaState, ControlState, PoolRole}
use opencode_proxy.Proxy.World.{World}
use opencode_proxy.Proxy.Header.{Header}
use opencode_proxy.Proxy.Classifier.Kinds.{IsOnQuotas, IsNoRefusal}
use opencode_proxy.Proxy.Probe.{
  TestResult, failed_call, models_failed, models_ok, key_failed, inference_ok, inference_failed,
  Check, unchecked, checked,
}
use opencode_proxy.Proxy.Probe.Rows.{FailureHolds, RowHolds}

abbrev pub IsVerified : Key → Type 0
IsVerified k = (k.auth_state ≡ AuthState.valid) × (k.control_state ≡ ControlState.reachable)

-- What a result says of a key, whose secret may be `Unreadable`.
abbrev pub ResultHolds : Type 0 → TestResult → Key → Type 0
ResultHolds Unreadable failed_call k =
    Unreadable
    ⊎ ((k.auth_state ≡ AuthState.unknown) × (k.control_state ≡ ControlState.degraded))
    ⊎ IsVerified k
ResultHolds Unreadable (models_failed status message) k =
    IsOnQuotas message
    ⊎ IsNoRefusal status message
    ⊎ ((k.auth_state ≡ AuthState.invalid) × (k.pool_role ≡ PoolRole.standby))
ResultHolds Unreadable models_ok k = IsVerified k
ResultHolds Unreadable (key_failed status c) k = FailureHolds c.kind k
ResultHolds Unreadable (inference_ok status) k =
    (k.auth_state ≡ AuthState.valid) × (k.quota_state ≡ QuotaState.available)
ResultHolds Unreadable (inference_failed status c) k = IsVerified k

-- What a result says holds in the database that it comes with.
abbrev Tells : Type 0 → ℕ → TestResult × World → Type 0
Tells U id r = RowHolds (ResultHolds U r.0) id r.1.db

-- Behind the check of the models: its own result, or a key that is marked as valid.
abbrev CheckTells : Type 0 → ℕ → Check → Type 0
CheckTells U id (unchecked r w) = Tells U id (r, w)
CheckTells U id (checked w) = RowHolds IsVerified id w.db
