-- ===== src/Base/Sorting.antt =====
-- ORDER BY, as an insertion sort by a test.
use mathlib.Core.List.Perm
use opencode_proxy.Base.Tests.{if◌then◌else◌, Bool-cases}
use opencode_proxy.Base.Lists.{All, filter}
use mathlib.Core.Path.{◌≡◌}
use mathlib.Core.Logic.{inl, inr}
use mathlib.Core.Bool.{Bool, true, false, not}
use mathlib.Core.List.{List, [], ◌∷◌, ◌++◌, Perm}

-- ORDER BY by insertion.
unfoldable pub insert_by {ℓ} : {A : Type ℓ} → (A → A → Bool) → A → List A → List A
insert_by before k [] = k ∷ []
insert_by before k (j ∷ ks) =
    let rest = insert_by before k ks in if before k j then k ∷ j ∷ ks else j ∷ rest

unfoldable pub order_by {ℓ} : {A : Type ℓ} → (A → A → Bool) → List A → List A
unfolding insert_by
order_by before [] = []
order_by before (k ∷ ks) = insert_by before k (order_by before ks)

module _ {A : Type 0} where
  pub insert_by-perm :
      (before : A → A → Bool) (k : A) (ks : List A) → Perm (insert_by before k ks) (k ∷ ks)
  unfolding insert_by
  insert_by-perm before k [] = Perm.refl (k ∷ [])
  insert_by-perm before k (j ∷ ks) = elim (Bool-cases (before k j)) [
    | inl e ↦ rw e (Perm.refl (k ∷ j ∷ ks))
    | inr e ↦ rw e (Perm.trans (Perm.cons j (insert_by-perm before k ks)) (Perm.swap k j ks))
  ]

  pub order_by-perm : (before : A → A → Bool) (ks : List A) → Perm (order_by before ks) ks
  unfolding order_by
  order_by-perm before [] = Perm.refl []
  order_by-perm before (k ∷ ks) =
      Perm.trans (insert_by-perm before k (order_by before ks))
        (Perm.cons k (order_by-perm before ks))

  -- No key stands before one that the order puts in front of it.
  abbrev pub IsOrdered : (A → A → Bool) → List A → Type 0
  IsOrdered before [] = Unit
  IsOrdered before (k ∷ ks) = All (λ j. before j k ≡ false) ks × IsOrdered before ks

  -- What ORDER BY needs of its test.
  pub record IsWeakOrder (before : A → A → Bool) : Type 0 where
    pub asym : (a b : A) → before a b ≡ true → before b a ≡ false
    pub trans : (a b c : A) → before b a ≡ false → before c b ≡ false → before c a ≡ false

  pub insert_by-All :
      (before : A → A → Bool) (P : A → Type 0) (k : A) (ks : List A)
      → P k
      → All P ks
      → All P (insert_by before k ks)
  unfolding insert_by
  insert_by-All before P k [] h a = (h, tt)
  insert_by-All before P k (j ∷ ks) h a = elim (Bool-cases (before k j)) [
    | inl e ↦ rw e (h, a)
    | inr e ↦ rw e (a.0, insert_by-All before P k ks h a.1)
  ]

  pub order_by-All :
      (P : A → Type 0) (before : A → A → Bool) (ks : List A) → All P ks → All P (order_by before ks)
  unfolding order_by
  order_by-All P before [] a = tt
  order_by-All P before (k ∷ ks) a =
      insert_by-All before P k (order_by before ks) a.0 (order_by-All P before ks a.1)

  module _ (before : A → A → Bool) (w : IsWeakOrder before) where
    All-trans :
        (k j : A) (ks : List A)
        → before j k ≡ false
        → All (λ i. before i j ≡ false) ks
        → All (λ i. before i k ≡ false) ks
    All-trans k j [] h a = tt
    All-trans k j (i ∷ ks) h a = (w.trans k j i h a.0, All-trans k j ks h a.1)

    insert_by-IsOrdered :
        (k : A) (ks : List A) → IsOrdered before ks → IsOrdered before (insert_by before k ks)
    unfolding insert_by
    insert_by-IsOrdered k [] o = (tt, tt)
    insert_by-IsOrdered k (j ∷ ks) o = elim (Bool-cases (before k j)) [
      | inl e ↦ rw e ((w.asym k j e, All-trans k j ks (w.asym k j e) o.0), o)
      | inr e ↦
          rw e (
            insert_by-All before (λ i. before i j ≡ false) k ks e o.0,
            insert_by-IsOrdered k ks o.1,
          )
    ]

    pub order_by-IsOrdered : (ks : List A) → IsOrdered before (order_by before ks)
    unfolding order_by
    order_by-IsOrdered [] = tt
    order_by-IsOrdered (k ∷ ks) = insert_by-IsOrdered k (order_by before ks) (order_by-IsOrdered ks)

module _ {A : Type 0} where
  perm-middle : (k : A) (xs ys : List A) → Perm (xs ++ k ∷ ys) (k ∷ xs ++ ys)
  perm-middle k [] ys = Perm.refl (k ∷ ys)
  perm-middle k (x ∷ xs) ys =
      Perm.trans (Perm.cons x (perm-middle k xs ys)) (Perm.swap k x (xs ++ ys))

  -- What a test keeps and what it drops are together the list.
  pub perm-partition :
      (p : A → Bool) (ks : List A) → Perm (filter p ks ++ filter (λ k. not (p k)) ks) ks
  perm-partition p [] = Perm.refl []
  perm-partition p (k ∷ ks) = elim (Bool-cases (p k)) [
    | inl e ↦ rw e (Perm.cons k (perm-partition p ks))
    | inr e ↦ rw e (
        Perm.trans (perm-middle k (filter p ks) (filter (λ j. not (p j)) ks))
          (Perm.cons k (perm-partition p ks)))
  ]

  pub filter-holds : (p : A → Bool) (ks : List A) → All (λ k. p k ≡ true) (filter p ks)
  filter-holds p [] = tt
  filter-holds p (k ∷ ks) = elim (Bool-cases (p k)) [
    | inl e ↦ rw e (e, filter-holds p ks)
    | inr e ↦ rw e (filter-holds p ks)
  ]
