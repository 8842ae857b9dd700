-- ===== src/Store/Selection/ActiveFirst.antt =====
-- The fixed use of the active key: `HandleInference` of internal/proxy/service.go tries the keys in
-- the order of `EligibleKeys`, and that order begins with the active key.
use opencode_proxy.Base.{
  ◌≤◌, ◌≡◌, refl, inl, inr, Bool, true, List, [], ◌∷◌, arith, count, filter, All, Member,
  Bool-cases,
}
use opencode_proxy.Store.Types.{Key, Db}
use opencode_proxy.Base.Sorting.{insert_by, order_by, IsOrdered}
use opencode_proxy.Store.Routing.{first_by, has_active_role, is_eligible, eligible_keys}
use opencode_proxy.Store.Consistency.{IsConsistent}
use opencode_proxy.Store.Selection.{IsOrdered, eligible_keys-Perm}

later :
    (x k j : Key) (ks inserted : List Key)
    → (Member x (k ∷ ks) → Member x inserted)
    → Member x (k ∷ j ∷ ks)
    → Member x (j ∷ inserted)
later x k j ks inserted f (inl p) = inr (f (inl p))
later x k j ks inserted f (inr (inl p)) = inl p
later x k j ks inserted f (inr (inr p)) = inr (f (inr p))

module _ (before : Key → Key → Bool) where
  insert_by-Member :
      (x k : Key) (ks : List Key) → Member x (k ∷ ks) → Member x (insert_by before k ks)
  unfolding insert_by
  insert_by-Member x k [] m = m
  insert_by-Member x k (j ∷ ks) m = elim (Bool-cases (before k j)) [
    | inl e ↦ rw e m
    | inr e ↦ rw e (later x k j ks (insert_by before k ks) (λ q. insert_by-Member x k ks q) m)
  ]

  order_by-Member : (x : Key) (ks : List Key) → Member x ks → Member x (order_by before ks)
  unfolding order_by
  order_by-Member x [] m = m
  order_by-Member x (k ∷ ks) (inl e) = insert_by-Member x k (order_by before ks) (inl e)
  order_by-Member x (k ∷ ks) (inr m) =
      insert_by-Member x k (order_by before ks) (inr (order_by-Member x ks m))

  count-insert_by :
      (p : Key → Bool) (k : Key) (ks : List Key)
      → count p (insert_by before k ks) ≡ count p (k ∷ ks)
  unfolding insert_by
  count-insert_by p k [] = refl
  count-insert_by p k (j ∷ ks) = ground (arith, count-insert_by p k ks)

  count-order_by : (p : Key → Bool) (ks : List Key) → count p (order_by before ks) ≡ count p ks
  unfolding order_by
  count-order_by p [] = refl
  count-order_by p (k ∷ ks) =
      ground (arith, count-insert_by p k (order_by before ks), count-order_by p ks)

filter-Member :
    (p : Key → Bool) (x : Key) (ks : List Key) → p x ≡ true → Member x ks → Member x (filter p ks)
filter-Member p x [] h m = m
filter-Member p x (k ∷ ks) h (inl e) = ground arith
filter-Member p x (k ∷ ks) h (inr m) = elim (Bool-cases (p k)) [
  | inl e ↦ rw e (inr (filter-Member p x ks h m))
  | inr e ↦ rw e (filter-Member p x ks h m)
]

count-filter-le : (p q : Key → Bool) (ks : List Key) → count p (filter q ks) ≤ count p ks
count-filter-le p q [] = omega arith
count-filter-le p q (k ∷ ks) = ground (arith, count-filter-le p q ks)

count_pos : (p : Key → Bool) (x : Key) (ks : List Key) → p x ≡ true → Member x ks → 1 ≤ count p ks
count_pos p x [] h m = absurd m
count_pos p x (k ∷ ks) h (inl e) = ground arith
count_pos p x (k ∷ ks) h (inr m) = ground (arith, count_pos p x ks h m)

All_at {ℓ} : (P : Key → Type ℓ) (x : Key) (ks : List Key) → All P ks → Member x ks → P x
All_at P x [] a m = absurd m
All_at P x (k ∷ ks) a (inl e) = rw e a.0
All_at P x (k ∷ ks) a (inr m) = All_at P x ks a.1 m

head_of_ordered :
    (k : Key) (ks : List Key)
    → has_active_role k ≡ true
    → Member k ks
    → count has_active_role ks ≤ 1
    → IsOrdered (first_by has_active_role) ks
    → (rest : List Key) × (ks ≡ k ∷ rest)
head_of_ordered k [] a m c o = absurd m
head_of_ordered k (j ∷ ks) a (inl e) c o = (ks, cc)
head_of_ordered k (j ∷ ks) a (inr m) c o =
    absurd (ground (arith, count_pos has_active_role k ks a m, All_at _ k ks o.0 m))

-- In a consistent database an active key that is eligible is the first that a request tries.
pub active_key_first :
    (db : Db) (k : Key)
    → IsConsistent db
    → Member k db.keys
    → has_active_role k ≡ true
    → is_eligible k ≡ true
    → (rest : List Key) × (eligible_keys db ≡ k ∷ rest)
unfolding eligible_keys
active_key_first db k c m a e =
    head_of_ordered k (eligible_keys db) a
      (order_by-Member _ k (filter is_eligible db.keys) (filter-Member is_eligible k db.keys e m))
      (omega (
        arith,
        count-order_by (first_by has_active_role) has_active_role (filter is_eligible db.keys),
        count-filter-le has_active_role is_eligible db.keys,
        c.single_active,
      ))
      (eligible_keys-Perm db).1
