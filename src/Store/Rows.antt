-- ===== src/Store/Rows.antt =====
-- UPDATE, DELETE and SELECT of the table of keys by id.
use opencode_proxy.Base.{
  ℕ, Bool, List, [], ◌∷◌, Option, ◌==◌, if◌then◌else◌, not, find, exists, filter,
}
use opencode_proxy.Store.Types.{Key}

-- `UPDATE keys SET … WHERE p`.
unfoldable pub update_where : (Key → Bool) → (Key → Key) → List Key → List Key
update_where p f [] = []
update_where p f (k ∷ ks) = (if p k then f k else k) ∷ update_where p f ks

abbrev pub has_id : ℕ → Key → Bool
has_id id k = k.id == id

-- `UPDATE keys SET … WHERE id=?`.
abbrev pub update_key_row : ℕ → (Key → Key) → List Key → List Key
update_key_row id f ks = update_where (has_id id) f ks

-- `SELECT … WHERE id=?`.
abbrev pub key_row : ℕ → List Key → Option Key
key_row id ks = find (has_id id) ks

abbrev pub key_exists : ℕ → List Key → Bool
key_exists id ks = exists (has_id id) ks

-- `DELETE FROM keys WHERE id=?`.
abbrev pub delete_row : ℕ → List Key → List Key
delete_row id ks = filter (λ k. not (has_id id k)) ks
