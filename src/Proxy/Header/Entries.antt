-- ===== src/Proxy/Header/Entries.antt =====
-- What the functions on http.Header of internal/proxy/service.go, `copyRequestHeaders` among them, do to
-- the entries of a name.
use opencode_proxy.Base.{
  ◌≡◌, refl, ◌∙◌, sym, ap, Bool, true, false, List, [], ◌∷◌, All, arith, if◌then◌else◌, Bool-cases,
  inl, inr,
}
use opencode_proxy.Text.{Text, text_eq, text_eq_sound, text_eq_refl}
use opencode_proxy.Proxy.Header.{
  Header, get, add, set, add_all, dropped_from_request, copy_request_headers,
}

-- No entry has the name.
abbrev pub Lacks : Text → Header → Type 0
Lacks name h = All (λ e. text_eq e.0 name ≡ false) h

-- Every entry with the name has exactly these values.
abbrev pub Only : Text → List Text → Header → Type 0
Only name vs h = All (λ e. text_eq e.0 name ≡ true → e.1 ≡ vs) h

Only-of_Lacks : (name : Text) (vs : List Text) (h : Header) → Lacks name h → Only name vs h
Only-of_Lacks name vs [] a = tt
Only-of_Lacks name vs (e ∷ h) a =
    ((λ t. absurd (bool_apart (sym t ∙ a.0))), Only-of_Lacks name vs h a.1)
  where
    bool_apart : true ≡ false → ⊥
    bool_apart p = ground arith

pub get-set : (name value : Text) (h : Header) → get name (set name value h) ≡ value
unfolding get set
get-set name value [] = ground (arith, text_eq_refl name)
get-set name value ((k, []) ∷ h) = ground (arith, get-set name value h)
get-set name value ((k, v ∷ vs) ∷ h) = ground (arith, get-set name value h)

pub get-set_ne :
    (name other value : Text) (h : Header)
    → text_eq name other ≡ false
    → get other (set name value h) ≡ get other h
unfolding get set
get-set_ne name other value [] ne = ground arith
get-set_ne name other value ((k, []) ∷ h) ne = elim (Bool-cases (text_eq k name)) [
  | inl e ↦ rw (text_eq_sound k name e) (ground (arith, text_eq_refl name))
  | inr e ↦ ground (arith, get-set_ne name other value h ne)
]
get-set_ne name other value ((k, v ∷ vs) ∷ h) ne = elim (Bool-cases (text_eq k name)) [
  | inl e ↦ rw (text_eq_sound k name e) (ground (arith, text_eq_refl name))
  | inr e ↦ ground (arith, get-set_ne name other value h ne)
]

pub get-Lacks : (name : Text) (h : Header) → Lacks name h → get name h ≡ []
unfolding get
get-Lacks name [] a = refl
get-Lacks name ((k, []) ∷ h) a = ground (arith, get-Lacks name h a.1)
get-Lacks name ((k, v ∷ vs) ∷ h) a = ground (arith, get-Lacks name h a.1)

pub set-Only :
    (name value : Text) (h : Header) → Lacks name h → Only name (value ∷ []) (set name value h)
unfolding set
set-Only name value [] a = ((λ _. refl), tt)
set-Only name value ((k, vs) ∷ h) a =
    rw a.0 ((λ t. absurd (ground arith)), set-Only name value h a.1)

-- A set of another name leaves a property of this name alone.
pub set-Only_ne :
    (name other value : Text) (vs : List Text) (h : Header)
    → text_eq name other ≡ false
    → Only other vs h
    → Only other vs (set name value h)
unfolding set
set-Only_ne name other value vs [] ne a = ((λ t. absurd (ground arith)), tt)
set-Only_ne name other value vs ((k, us) ∷ h) ne a = elim (Bool-cases (text_eq k name)) [
  | inl e ↦ rw e ((λ t. absurd (same e t)), a.1)
  | inr e ↦ rw e (a.0, set-Only_ne name other value vs h ne a.1)
]
  where
    same : text_eq k name ≡ true → text_eq k other ≡ true → ⊥
    same e t = apart (sym t ∙ (ap (λ n. text_eq n other) (text_eq_sound k name e) ∙ ne))
      where
        apart : true ≡ false → ⊥
        apart p = ground arith

pub set-Lacks_ne :
    (name other value : Text) (h : Header)
    → text_eq name other ≡ false
    → Lacks other h
    → Lacks other (set name value h)
unfolding set
set-Lacks_ne name other value [] ne a = (ne, tt)
set-Lacks_ne name other value ((k, us) ∷ h) ne a = elim (Bool-cases (text_eq k name)) [
  | inl e ↦ rw e (a.0, a.1)
  | inr e ↦ rw e (a.0, set-Lacks_ne name other value h ne a.1)
]

pub add-Lacks :
    (name k v : Text) (h : Header) → text_eq k name ≡ false → Lacks name h → Lacks name (add k v h)
unfolding add
add-Lacks name k v [] ne a = (ne, tt)
add-Lacks name k v ((j, vs) ∷ h) ne a = elim (Bool-cases (text_eq j k)) [
  | inl e ↦ rw e (a.0, a.1)
  | inr e ↦ rw e (a.0, add-Lacks name k v h ne a.1)
]

pub add_all-Lacks :
    (name k : Text) (vs : List Text) (h : Header)
    → text_eq k name ≡ false
    → Lacks name h
    → Lacks name (add_all k vs h)
unfolding add_all
add_all-Lacks name k [] h ne a = a
add_all-Lacks name k (v ∷ vs) h ne a =
    add_all-Lacks name k vs (add k v h) ne (add-Lacks name k v h ne a)

-- A header whose name is dropped is not passed on, whatever the client sends.
pub copy-Lacks :
    (name : Text) (src dst : Header)
    → dropped_from_request name ≡ true
    → Lacks name dst
    → Lacks name (copy_request_headers dst src)
unfolding copy_request_headers
copy-Lacks name [] dst d a = a
copy-Lacks name ((k, vs) ∷ src) dst d a =
    copy-Lacks name src _ d (kept (dropped_from_request k) refl)
  where
    kept :
        (b : Bool) → dropped_from_request k ≡ b → Lacks name (if b then dst else add_all k vs dst)
    kept true e = a
    kept false e = add_all-Lacks name k vs dst (other (text_eq k name) refl) a
      where
        other : (b : Bool) → text_eq k name ≡ b → text_eq k name ≡ false
        other false t = t
        other true t =
            absurd (apart (sym d ∙ (ap dropped_from_request (sym (text_eq_sound k name t)) ∙ e)))
          where
            apart : true ≡ false → ⊥
            apart p = ground arith
