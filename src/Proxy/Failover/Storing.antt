-- ===== src/Proxy/Failover/Storing.antt =====
-- The bookkeeping of `HandleInference` (internal/proxy/service.go) sends nothing, and moves the database
-- by its operations.
use opencode_proxy.Base.{ℕ, ◌≡◌, refl, inl, inr, Option, none, some, Bool-cases}
use opencode_proxy.Time.{Time}
use opencode_proxy.Store.Types.{
  Key, Db, Usage, RequestRecord, AttemptRecord, ErrorKind, error, ErrorClass, is_active,
}
use opencode_proxy.Store.Steps.{
  Reach, here, next, activate, used, invalidate, cool, attempt, Step.finish as finish_step,
}
use opencode_proxy.Proxy.Classifier.{Classification}
use opencode_proxy.Proxy.World.{World}
use opencode_proxy.Proxy.Stream.{StreamResult}
use opencode_proxy.Proxy.Inference.{
  record_key_failure, promote_if_needed, finish, finish_unavailable, with_db, log_attempt, fail_key,
  use_key, settle_key,
}
use opencode_proxy.Proxy.Failover.Answers.{Quiet, Quiet-refl, Quiet-trans}

pub with_db-Quiet : (w : World) (db : Db) → Reach w.db db → Quiet w (with_db db w)
with_db-Quiet w db r = record { reach = r; same = refl }

pub log_attempt-Quiet : (a : AttemptRecord) (w : World) → Quiet w (log_attempt a w)
log_attempt-Quiet a w = with_db-Quiet w _ (next here (attempt a))

pub finish-Quiet : (r : RequestRecord) (u : Usage) (t : Time) (w : World) → Quiet w (finish r u t w)
unfolding finish
finish-Quiet r u t w = with_db-Quiet w _ (next here (finish_step _ u))

pub finish_unavailable-Quiet :
    (r : RequestRecord) (t : Time) (c : ErrorClass) (w : World)
    → Quiet w (finish_unavailable r t c w)
unfolding finish_unavailable
finish_unavailable-Quiet r t c w =
    finish-Quiet (record r { http_status = 503; outcome = error; error_class = c }) _ t w

failure-Reach :
    (k : ErrorKind) (id : ℕ) (c : Classification) (now : Time) (db : Db)
    → c.kind ≡ k
    → Reach db (record_key_failure id c now db)
unfolding record_key_failure
failure-Reach ErrorKind.auth id c now db e = rw e (next here (invalidate id c.message now))
failure-Reach ErrorKind.quota id c now db e = rw e (next here (cool id c.window _ c.message now))
failure-Reach _ id c now db e = rw e here

pub fail_key-Quiet : (key : Key) (c : Classification) (w : World) → Quiet w (fail_key key c w)
fail_key-Quiet key c w = with_db-Quiet w _ (failure-Reach c.kind key.id c w.clock w.db refl)

promote-Quiet : (key : Key) (w : World) → Quiet w (promote_if_needed key w)
unfolding promote_if_needed
promote-Quiet key w = elim (Bool-cases (is_active key.pool_role)) [
  | inl e ↦ rw e (Quiet-refl w)
  | inr e ↦ rw e (with_db-Quiet w _ (next here (activate key.id w.clock)))
]

pub use_key-Quiet : (key : Key) (w : World) → Quiet w (use_key key w)
use_key-Quiet key w =
    Quiet-trans (with_db-Quiet w _ (next here (used key.id w.clock))) (promote-Quiet key _)

late-Quiet :
    (late : Option Classification) (key : Key) (result : StreamResult) (w : World)
    → result.late_error ≡ late
    → Quiet w (settle_key key result w)
late-Quiet none key result w e = rw e (use_key-Quiet key w)
late-Quiet (some c) key result w e = rw e (fail_key-Quiet key c w)

pub settle_key-Quiet :
    (key : Key) (result : StreamResult) (w : World) → Quiet w (settle_key key result w)
settle_key-Quiet key result w = late-Quiet result.late_error key result w refl
