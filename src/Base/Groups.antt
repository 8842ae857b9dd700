-- ===== src/Base/Groups.antt =====
-- GROUP BY: the rows of a table by the value of a column, and sums over them.
use mathlib.Core.Path.{◌≡◌, refl, sym, ap, ◌∙◌, subst}
use mathlib.Core.Logic.{◌↔◌, inl, inr}
use mathlib.Core.Bool.{Bool, true, false}
use mathlib.Core.List.{List, [], ◌∷◌, map}
use native.Mathlib.Omega.{arith}
use opencode_proxy.Base.Tests.{if◌then◌else◌, Bool-cases}
use opencode_proxy.Base.Lists.{All, All-map, filter}
use opencode_proxy.Base.Sorting.{insert_by, order_by}

module _ {K : Type 0} (same : K → K → Bool)
    (same_iff : (a b : K) → (same a b ≡ true) ↔ (a ≡ b)) where
  pub same_sym : (a b : K) → same a b ≡ false → same b a ≡ false
  same_sym a b h = elim (Bool-cases (same b a)) [
    | inl e ↦ absurd (apart (sym h ∙ (same_iff a b).1 (sym ((same_iff b a).0 e))))
    | inr e ↦ e
  ]
    where
      apart : false ≡ true → ⊥
      apart e = cc

module _ {K A : Type 0} (same : K → K → Bool) where
  unfoldable pub insert_group : K → A → List (K × List A) → List (K × List A)
  insert_group k a [] = (k, a ∷ []) ∷ []
  insert_group k a ((j, g) ∷ gs) =
      let rest = insert_group k a gs in if same j k then (j, a ∷ g) ∷ gs else (j, g) ∷ rest

  unfoldable pub group_by : (A → K) → List A → List (K × List A)
  unfolding insert_group
  group_by key [] = []
  group_by key (a ∷ as') = insert_group (key a) a (group_by key as')

  -- The rows of one value.
  abbrev pub rows_with : (A → K) → K → List A → List A
  rows_with key k rows = filter (λ a. same (key a) k) rows

  abbrev pub IsNew : K → List (K × List A) → Type 0
  IsNew k gs = All (λ g. same g.0 k ≡ false) gs

  abbrev pub AreDistinct : List (K × List A) → Type 0
  AreDistinct [] = Unit
  AreDistinct ((k, g) ∷ gs) = IsNew k gs × AreDistinct gs

  -- The group of a value, empty where there is none.
  group_of : K → List (K × List A) → List A
  group_of k [] = []
  group_of k ((j, g) ∷ gs) = let rest = group_of k gs in if same j k then g else rest

  module _ (same_iff : (a b : K) → (same a b ≡ true) ↔ (a ≡ b)) where
    insert_group-IsNew :
        (i k : K) (a : A) (gs : List (K × List A))
        → same k i ≡ false
        → IsNew i gs
        → IsNew i (insert_group k a gs)
    unfolding insert_group
    insert_group-IsNew i k a [] h n = (h, tt)
    insert_group-IsNew i k a ((j, g) ∷ gs) h n = elim (Bool-cases (same j k)) [
      | inl e ↦ rw e n
      | inr e ↦ rw e (n.0, insert_group-IsNew i k a gs h n.1)
    ]

    insert_group-AreDistinct :
        (k : K) (a : A) (gs : List (K × List A))
        → AreDistinct gs
        → AreDistinct (insert_group k a gs)
    unfolding insert_group
    insert_group-AreDistinct k a [] d = (tt, tt)
    insert_group-AreDistinct k a ((j, g) ∷ gs) d = elim (Bool-cases (same j k)) [
      | inl e ↦ rw e d
      | inr e ↦ rw e (
        insert_group-IsNew j k a gs (same_sym same same_iff j k e) d.0,
        insert_group-AreDistinct k a gs d.1,
      )
    ]

    group_of-insert_group :
        (i k : K) (a : A) (gs : List (K × List A))
        → group_of i (insert_group k a gs) ≡ (if same k i then a ∷ group_of i gs else group_of i gs)
    unfolding group_of insert_group
    group_of-insert_group i k a [] = ground arith
    group_of-insert_group i k a ((j, g) ∷ gs) = elim (Bool-cases (same j k)) [
      | inl e ↦ rw e (ground (arith, ap (λ x. same x i) ((same_iff j k).0 e)))
      | inr e ↦ rw e (ground (arith, group_of-insert_group i k a gs, apart_by i j k e))
    ]
      where
        apart_by : (i j k : K) → same j k ≡ false → same j i ≡ true → same k i ≡ false
        apart_by i j k n h =
            subst (λ x. same k x ≡ false) ((same_iff j i).0 h) (same_sym same same_iff j k n)

    pub group_by-AreDistinct : (key : A → K) (rows : List A) → AreDistinct (group_by key rows)
    unfolding group_by
    group_by-AreDistinct key [] = tt
    group_by-AreDistinct key (a ∷ rows) =
        insert_group-AreDistinct (key a) a (group_by key rows) (group_by-AreDistinct key rows)

    group_of-group_by :
        (key : A → K) (k : K) (rows : List A)
        → group_of k (group_by key rows) ≡ rows_with key k rows
    unfolding group_by group_of
    group_of-group_by key k [] = refl
    group_of-group_by key k (a ∷ rows) =
        group_of-insert_group k (key a) a (group_by key rows)
        ∙ ap (λ g. if same (key a) k then a ∷ g else g) (group_of-group_by key k rows)

    group_of-own : (gs : List (K × List A)) → AreDistinct gs → All (λ g. group_of g.0 gs ≡ g.1) gs
    unfolding group_of
    group_of-own [] d = tt
    group_of-own ((k, g) ∷ gs) d =
        (rw ((same_iff k k).1 refl) refl, later gs d.0 (group_of-own gs d.1))
      where
        later :
            (hs : List (K × List A))
            → IsNew k hs
            → All (λ h. group_of h.0 gs ≡ h.1) hs
            → All (λ h. (if same k h.0 then g else group_of h.0 gs) ≡ h.1) hs
        later [] n a = tt
        later (h ∷ hs) n a = (rw (same_sym same same_iff h.0 k n.0) a.0, later hs n.1 a.1)

    -- Each group has exactly the rows with its value.
    pub group_by-rows :
        (key : A → K) (rows : List A) → All (λ g. g.1 ≡ rows_with key g.0 rows) (group_by key rows)
    group_by-rows key rows =
        All-map (λ g. group_of g.0 (group_by key rows) ≡ g.1) (λ g. g.1 ≡ rows_with key g.0 rows)
          (λ g e. sym e ∙ group_of-group_by key g.0 rows) (group_by key rows)
          (group_of-own (group_by key rows) (group_by-AreDistinct key rows))

-- Sums in a commutative monoid.
pub record Adding (M : Type 0) : Type 0 where
  pub zero : M
  pub add : M → M → M
  pub add_assoc : (a b c : M) → add (add a b) c ≡ add a (add b c)
  pub add_comm : (a b : M) → add a b ≡ add b a
  pub zero-add : (a : M) → add zero a ≡ a

module _ {M : Type 0} (m : Adding M) where
  pub add_swap : (a b c : M) → m.add a (m.add b c) ≡ m.add b (m.add a c)
  add_swap a b c =
      sym (m.add_assoc a b c) ∙ (ap (λ x. m.add x c) (m.add_comm a b) ∙ m.add_assoc b a c)

module _ {A M : Type 0} (m : Adding M) where
  unfoldable pub sum_of : (A → M) → List A → M
  sum_of f [] = m.zero
  sum_of f (a ∷ rows) = m.add (f a) (sum_of f rows)

  sum_of-insert_by :
      (f : A → M) (before : A → A → Bool) (a : A) (rows : List A)
      → sum_of f (insert_by before a rows) ≡ m.add (f a) (sum_of f rows)
  unfolding sum_of insert_by
  sum_of-insert_by f before a [] = refl
  sum_of-insert_by f before a (b ∷ rows) = elim (Bool-cases (before a b)) [
    | inl e ↦ rw e refl
    | inr e ↦ rw (e, sum_of-insert_by f before a rows) (add_swap m (f b) (f a) (sum_of f rows))
  ]

  -- The order of the rows does not matter.
  pub sum_of-order_by :
      (f : A → M) (before : A → A → Bool) (rows : List A)
      → sum_of f (order_by before rows) ≡ sum_of f rows
  unfolding sum_of order_by
  sum_of-order_by f before [] = refl
  sum_of-order_by f before (a ∷ rows) =
      sum_of-insert_by f before a (order_by before rows)
      ∙ ap (m.add (f a)) (sum_of-order_by f before rows)

module _ {A B M : Type 0} (m : Adding M) where
  pub sum_of-map :
      (f : B → M) (g : A → B) (rows : List A)
      → sum_of m f (map g rows) ≡ sum_of m (λ a. f (g a)) rows
  unfolding sum_of
  sum_of-map f g [] = refl
  sum_of-map f g (a ∷ rows) = ap (m.add (f (g a))) (sum_of-map f g rows)

module _ {K A M : Type 0} (same : K → K → Bool) (m : Adding M) (f : A → M) where
  sum_of-insert_group :
      (k : K) (a : A) (gs : List (K × List A))
      → sum_of m (λ g. sum_of m f g.1) (insert_group same k a gs)
        ≡ m.add (f a) (sum_of m (λ g. sum_of m f g.1) gs)
  unfolding sum_of insert_group
  sum_of-insert_group k a [] =
      m.add_assoc (f a) m.zero m.zero ∙ ap (m.add (f a)) (m.zero-add m.zero)
  sum_of-insert_group k a ((j, g) ∷ gs) = elim (Bool-cases (same j k)) [
    | inl e ↦ rw e (m.add_assoc (f a) (sum_of m f g) (sum_of m (λ h. sum_of m f h.1) gs))
    | inr e ↦
        rw (e, sum_of-insert_group k a gs)
          (add_swap m (sum_of m f g) (f a) (sum_of m (λ h. sum_of m f h.1) gs))
  ]

  -- The sums of the groups are together the sum of all rows.
  pub sum_of-group_by :
      (key : A → K) (rows : List A)
      → sum_of m (λ g. sum_of m f g.1) (group_by same key rows) ≡ sum_of m f rows
  unfolding sum_of group_by
  sum_of-group_by key [] = refl
  sum_of-group_by key (a ∷ rows) =
      sum_of-insert_group (key a) a (group_by same key rows)
      ∙ ap (m.add (f a)) (sum_of-group_by key rows)
