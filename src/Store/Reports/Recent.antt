-- ===== src/Store/Reports/Recent.antt =====
-- What `RecentRequests` of internal/store/sqlite.go returns.
use mathlib.Core.List.Perm
use opencode_proxy.Base.{ℕ, ◌≤◌, ◌≡◌, ◌≢◌, ◌⊎◌, some, All, true, List, [], ◌∷◌, length, ◌++◌, Perm}
use opencode_proxy.Base.Int.{ℤ, pos, ◌≤ℤ◌}
use opencode_proxy.Text.{Text}
use opencode_proxy.Time.{Time, stored_leb}
use opencode_proxy.Store.Types.{RequestRow}

-- At most as many rows as are asked for, and 100 where that is not from 1 to 500.
abbrev pub LimitIs : ℤ → ℕ → Type 0
LimitIs limit n =
    (1 ≤ n)
    × (n ≤ 500)
    × ((k : ℕ) → limit ≡ pos k → 1 ≤ k → k ≤ 500 → n ≡ k)
    × (limit ≤ℤ pos 0 ⊎ pos 501 ≤ℤ limit → n ≡ 100)

-- A row that is asked for: the key that is given, if one is, served it last, and it asked for the model
-- that is given, if one is.
abbrev pub IsAskedFor : ℤ → Text → RequestRow → Type 0
IsAskedFor key_id model r =
    ((k : ℕ) → key_id ≡ pos k → 1 ≤ k → r.record_of.final_key_id ≡ some k)
    × (model ≢ [] → r.record_of.model ≡ model)

abbrev pub IsNotAskedFor : ℤ → Text → RequestRow → Type 0
IsNotAskedFor key_id model r =
    ((k : ℕ) × (key_id ≡ pos k) × (1 ≤ k) × (r.record_of.final_key_id ≢ some k))
    ⊎ ((model ≢ []) × (r.record_of.model ≢ model))

-- Each row started no earlier than the ones behind it, by the stored texts.
abbrev pub IsLatestFirst : List RequestRow → Type 0
IsLatestFirst [] = Unit {0}
IsLatestFirst (r ∷ rows) =
    All (λ j. stored_leb j.record_of.started_at r.record_of.started_at ≡ true) rows
    × IsLatestFirst rows

-- The rows that are listed, of all those of the table.
abbrev pub IsListing : ℤ → ℤ → Text → List RequestRow → List RequestRow → Type 0
IsListing limit key_id model rows listed =
    (cut : List RequestRow) × (others : List RequestRow) × (n : ℕ) × LimitIs limit n
    × Perm ((listed ++ cut) ++ others) rows
    × All (IsAskedFor key_id model) (listed ++ cut)
    × All (IsNotAskedFor key_id model) others
    × IsLatestFirst (listed ++ cut)
    × (length listed ≤ n)
    × ((cut ≡ []) ⊎ (length listed ≡ n))
