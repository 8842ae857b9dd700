-- ===== src/Store/Routing.antt =====
-- The two queries of internal/store/sqlite.go that choose keys, and `ListKeys`: WHERE, then ORDER BY.
use opencode_proxy.Base.{Bool, true, false, ◌&&◌, not, List, if◌then◌else◌, ltb, filter}
use opencode_proxy.Base.Int.{ltb_ℤ}
use opencode_proxy.Base.Sorting.{order_by}
use opencode_proxy.Store.Types.{Key, Db, ControlState, is_invalid, is_cooling, is_active}

-- `priority ASC, id ASC`.
abbrev pub by_priority : Key → Key → Bool
by_priority a b =
    if ltb_ℤ a.priority b.priority
    then true
    else if ltb_ℤ b.priority a.priority
    then false
    else ltb a.id b.id

-- `CASE … THEN 0 ELSE 1 END, priority ASC, id ASC`.
abbrev pub first_by : (Key → Bool) → Key → Key → Bool
first_by p a b =
    if p a then (if p b then by_priority a b else true) else if p b then false else by_priority a b

abbrev pub has_active_role : Key → Bool
has_active_role k = is_active k.pool_role

abbrev pub is_reachable : Key → Bool
is_reachable k = elim k.control_state [ ControlState.reachable ↦ true | _ ↦ false ]

abbrev pub is_eligible : Key → Bool
is_eligible k = k.admin_enabled && not (is_invalid k.auth_state) && not (is_cooling k.quota_state)

abbrev pub may_authenticate : Key → Bool
may_authenticate k = k.admin_enabled && not (is_invalid k.auth_state)

unfoldable pub list_keys : Db → List Key
unfolding order_by
list_keys db = order_by by_priority db.keys

unfoldable pub eligible_keys : Db → List Key
unfolding order_by
eligible_keys db = order_by (first_by has_active_role) (filter is_eligible db.keys)

unfoldable pub auth_valid_keys : Db → List Key
unfolding order_by
auth_valid_keys db = order_by (first_by is_reachable) (filter may_authenticate db.keys)
