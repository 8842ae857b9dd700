-- ===== src/Store/Selection.antt =====
-- What the queries `EligibleKeys` and `ListKeys` of internal/store/sqlite.go return.
pub mod ActiveFirst
pub mod Ranked
use mathlib.Core.List.Perm
use opencode_proxy.Base.{
  ◌≡◌, inl, inr, Bool, true, List, [], ◌∷◌, arith, filter, All, Perm, Bool-cases,
}
use opencode_proxy.Store.Types.{Key, Db}
use opencode_proxy.Base.Sorting.{
  IsOrdered, IsWeakOrder, order_by-perm, order_by-IsOrdered, order_by-All, filter-holds,
}
use opencode_proxy.Store.Routing.{
  by_priority, first_by, has_active_role, is_eligible, eligible_keys,
}

by_priority-IsWeakOrder : IsWeakOrder by_priority
by_priority-IsWeakOrder = record { asym = λ a b h. ground arith; trans = λ a b c h k. ground arith }

first_by-IsWeakOrder : (p : Key → Bool) → IsWeakOrder (first_by p)
first_by-IsWeakOrder p = record {
  asym = λ a b h. ground (arith, by_priority-IsWeakOrder.asym a b);
  trans = λ a b c h k. ground (arith, by_priority-IsWeakOrder.trans a b c);
}

-- `EligibleKeys` returns each key of the table that is enabled, not invalid and not cooling, exactly
-- as often as the table holds it, and in the order of role, priority and id.
pub eligible_keys-Perm :
    (db : Db)
    → Perm (eligible_keys db) (filter is_eligible db.keys)
      × IsOrdered (first_by has_active_role) (eligible_keys db)
unfolding eligible_keys
eligible_keys-Perm db = (
  order_by-perm (first_by has_active_role) (filter is_eligible db.keys),
  order_by-IsOrdered (first_by has_active_role) (first_by-IsWeakOrder has_active_role)
      (filter is_eligible db.keys),
)

pub eligible_keys-All : (db : Db) → All (λ k. is_eligible k ≡ true) (eligible_keys db)
unfolding eligible_keys
eligible_keys-All db =
    order_by-All _ (first_by has_active_role) _ (filter-holds is_eligible db.keys)
