-- ===== src/Text/Maps.antt =====
-- A Go map with strings as keys, as an association list.
use opencode_proxy.Base.{
  ◌≡◌, refl, false, List, [], ◌∷◌, Option, none, some, arith, if◌then◌else◌, inl, inr, Bool-cases,
}
use opencode_proxy.Text.Core.{Text, text_eq, text_eq_sound, text_eq_refl}

abbrev pub TextMap {ℓ} : Type ℓ → Type ℓ
TextMap V = List (Text × V)

-- `v, ok := m[key]`.
unfoldable pub lookup {ℓ} : {V : Type ℓ} → Text → TextMap V → Option V
lookup key [] = none
lookup key ((k, v) ∷ m) = let later = lookup key m in if text_eq k key then some v else later

-- `delete(m, key)`.
unfoldable pub remove {ℓ} : {V : Type ℓ} → Text → TextMap V → TextMap V
remove key [] = []
remove key ((k, v) ∷ m) =
    let later = remove key m in if text_eq k key then later else (k, v) ∷ later

-- `m[key] = v`.
unfoldable pub put {ℓ} : {V : Type ℓ} → Text → V → TextMap V → TextMap V
put key v m = (key, v) ∷ remove key m

module _ {ℓ} {V : Type ℓ} where
  pub lookup-put : (key : Text) (v : V) (m : TextMap V) → lookup key (put key v m) ≡ some v
  unfolding lookup put
  lookup-put key v m = rw (text_eq_refl key) refl

  pub lookup-remove : (key : Text) (m : TextMap V) → lookup key (remove key m) ≡ none
  unfolding lookup remove
  lookup-remove key [] = refl
  lookup-remove key ((k, v) ∷ m) = elim (Bool-cases (text_eq k key)) [
    | inl e ↦ rw e (lookup-remove key m)
    | inr e ↦ rw (e, e) (lookup-remove key m)
  ]

  pub lookup-remove_ne :
      (key other : Text) (m : TextMap V)
      → text_eq other key ≡ false
      → lookup key (remove other m) ≡ lookup key m
  unfolding lookup remove
  lookup-remove_ne key other [] ne = refl
  lookup-remove_ne key other ((k, v) ∷ m) ne = elim (Bool-cases (text_eq k other)) [
    | inl e ↦ rw (e, text_eq_sound k other e, ne) (lookup-remove_ne key other m ne)
    | inr e ↦ rw e (ground (arith, lookup-remove_ne key other m ne))
  ]

  pub lookup-put_ne :
      (key other : Text) (v : V) (m : TextMap V)
      → text_eq other key ≡ false
      → lookup key (put other v m) ≡ lookup key m
  unfolding lookup put
  lookup-put_ne key other v m ne = rw ne (lookup-remove_ne key other m ne)
