-- ===== src/Examples/Store.antt =====
-- The properties of internal/store at the two keys.
use opencode_proxy.Base.{
  ◌≡◌, ◌<◌, refl, ◌+◌, ◌*◌, ◌/◌, ◌⊎◌, inl, true, false, ◌∷◌, some, exists, Perm, All, List, arith,
}
use opencode_proxy.Text.{codes}
use opencode_proxy.Time.{nanos_per_second}
use opencode_proxy.Store.Opened.{migrated, reachable-IsConsistent}
use opencode_proxy.Base.Int.{pos}
use opencode_proxy.Store.Types.{
  AuthState, QuotaState, ControlState, Key, Db, Window, ok, err, after, not_found,
}
use opencode_proxy.Store.Rows.{has_id}
use opencode_proxy.Store.Keys.{
  NewKey, create_key, set_active, is_enabled_id, mark_half_open_due, mark_quota, key_by_id,
}
use opencode_proxy.Store.Routing.{eligible_keys, has_active_role}
use opencode_proxy.Store.Steps.{here, next, create, activate, cool, after_create}
use opencode_proxy.Store.Consistency.{Step-IsConsistent}
use opencode_proxy.Store.Consistency.Tables.{IsConsistent}
use opencode_proxy.Base.{◌++◌}
use opencode_proxy.Store.Selection.Ranked.{MayServe, MayNotServe, IsRanked, eligible_keys_lem}
use opencode_proxy.Store.Selection.ActiveFirst.{active_key_first}
use opencode_proxy.Store.Activation.{set_active_lem}
use opencode_proxy.Store.Lifecycle.{mark_half_open_due_lem, half_open_late, half_opened}
use opencode_proxy.Examples.{
  first_key, second_key, two_keys, two_keys-IsConsistent, reset_second, later,
}

abbrev new_key : NewKey
new_key = record {
  name = codes "first";
  encrypted_key = codes "c1";
  fingerprint = codes "f1";
  priority = pos 0;
  admin_enabled = true;
  auth_state = AuthState.valid;
  quota_state = QuotaState.unknown;
  control_state = ControlState.reachable;
}

-- A key is created in the new database, made the active one, and cools.
abbrev created : Db
created = after_create migrated (create_key new_key later migrated)

abbrev activated : Db
activated = after created (set_active 1 later created)

abbrev cooling : Db
cooling =
    after activated (mark_quota 1 (some Window.weekly) (some later) (codes "limit") later activated)

cooling-IsConsistent : IsConsistent cooling
cooling-IsConsistent = reachable-IsConsistent cooling (
    next (next (next here (create new_key later refl)) (activate 1 later))
      (cool 1 (some Window.weekly) later (codes "limit") later))

Step-IsConsistent_example :
    IsConsistent (
      after two_keys
        (mark_quota 1 (some Window.weekly) (some later) (codes "limit") later two_keys))
Step-IsConsistent_example =
    Step-IsConsistent two_keys
      (after two_keys
        (mark_quota 1 (some Window.weekly) (some later) (codes "limit") later two_keys))
      two_keys-IsConsistent (cool 1 (some Window.weekly) later (codes "limit") later)

active_key_first_example : (rest : List Key) × (eligible_keys two_keys ≡ first_key ∷ rest)
active_key_first_example =
    active_key_first two_keys first_key two_keys-IsConsistent (inl refl) refl refl

eligible_keys_lem_example :
    (others : List Key) × Perm (eligible_keys two_keys ++ others) two_keys.keys
    × All MayServe (eligible_keys two_keys)
    × All MayNotServe others
    × IsRanked (eligible_keys two_keys)
eligible_keys_lem_example = eligible_keys_lem two_keys

set_active_lem_example :
    ((exists (is_enabled_id 2) two_keys.keys ≡ true)
      × ((new : Db) × (set_active 2 later two_keys ≡ ok new)
          × All (λ k. has_active_role k ≡ has_id 2 k) new.keys))
    ⊎ ((exists (is_enabled_id 2) two_keys.keys ≡ false)
        × (set_active 2 later two_keys ≡ err not_found)
        × (after two_keys (set_active 2 later two_keys) ≡ two_keys))
set_active_lem_example = set_active_lem 2 later two_keys two_keys-IsConsistent

second_found : key_by_id 2 two_keys ≡ ok second_key
unfolding key_by_id
second_found = refl

mark_half_open_due_lem_example :
    (reset_second * nanos_per_second / nanos_per_second < later / nanos_per_second
      → key_by_id 2 (mark_half_open_due later two_keys) ≡ ok (half_opened later second_key))
    × (later / nanos_per_second < reset_second * nanos_per_second / nanos_per_second
        → key_by_id 2 (mark_half_open_due later two_keys) ≡ ok second_key)
mark_half_open_due_lem_example =
    mark_half_open_due_lem 2 second_key (reset_second * nanos_per_second) later two_keys
      second_found refl refl

half_open_late_example :
    key_by_id 2 (mark_half_open_due (reset_second * nanos_per_second + 5) two_keys) ≡ ok second_key
half_open_late_example =
    half_open_late 2 second_key reset_second 5 two_keys second_found refl refl (omega arith)
      (omega arith)
