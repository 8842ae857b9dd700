-- ===== src/Identity/Rollback.antt =====
-- What the operations of internal/identity/manager.go leave in memory and on disk.
use opencode_proxy.Base.{
  suc, ◌≡◌, ◌≢◌, ◌≤◌, refl, ap, sym, subst, Bool, true, false, List, [], ◌∷◌, ◌++◌, Option, none,
  some, leb, length, exists, arith, if◌then◌else◌,
}
use opencode_proxy.Text.{Text, trim_space}
use opencode_proxy.Time.{Time}
use opencode_proxy.Identity.Passwords.{Hashing}
use opencode_proxy.Identity.{
  Client, DiskState, Instance, Persist, written, unwritten, written_unreadable, IdentityError,
  bad_name, Outcome, done, refused, persist, Secrets, initialize, initialize_from, first_state,
  rotate_access_key, rotate_from, rotated, or_drawn, is_bad_access_key, issue_client_token,
  issue_from, issued, client_name, rename_client_token, rename_from, rename_found, is_bad_name,
  rename_first, find_client, revoke_client_token, revoke_from, revoke_found, remove_first,
  has_client_id,
}

-- A state holds at most 100 tokens of clients.
abbrev pub IsBounded : Option DiskState → Type 0
IsBounded none = Unit {0}
IsBounded (some s) = length s.clients ≤ 100

-- An operation that succeeds leaves the file and the memory alike. One that fails leaves the memory as
-- it was, and the file too unless only its last Chmod failed. The bound on the tokens is kept.
pub record IsAtomic {ℓ} (A : Type ℓ) (p : Persist) (i : Instance) (r : Outcome A × Instance)
    : Type ℓ where
  pub on_success : (a : A) → r.0 ≡ done a → (r.1.file ≡ r.1.state) × (r.1.state ≢ none)
  pub on_failure :
      (e : IdentityError)
      → r.0 ≡ refused e
      → (r.1.state ≡ i.state) × (p ≢ written_unreadable → r.1.file ≡ i.file)
  pub bounded : IsBounded i.state → IsBounded r.1.state

refused-done {ℓ} : {A : Type ℓ} (a : A) (e : IdentityError) → refused e ≡ done a → ⊥
refused-done a e h = cc

some-none {ℓ} : {A : Type ℓ} (a : A) → some a ≢ none
some-none a h = cc

refused-IsAtomic {ℓ} :
    {A : Type ℓ} (p : Persist) (e : IdentityError) (i : Instance) → IsAtomic A p i (refused e, i)
refused-IsAtomic p e i = record {
  on_success = λ a h. absurd (refused-done a e h);
  on_failure = λ e' h. (refl, λ _. refl);
  bounded = λ b. b;
}

persist-IsAtomic {ℓ} :
    {A : Type ℓ} (p : Persist) (new : DiskState) (a : A) (i : Instance)
    → (IsBounded i.state → length new.clients ≤ 100)
    → IsAtomic A p i (persist p new a i)
unfolding persist
persist-IsAtomic written new a i b = record {
  on_success = λ x h. (refl, some-none new);
  on_failure = λ e h. absurd (refused-done a e (sym h));
  bounded = b;
}
persist-IsAtomic unwritten new a i b = refused-IsAtomic unwritten _ i
persist-IsAtomic written_unreadable new a i b = record {
  on_success = λ x h. absurd (refused-done x _ h);
  on_failure = λ e h. (refl, λ n. absurd (n refl));
  bounded = λ c. c;
}

IsAtomic-if {ℓ} :
    {A : Type ℓ} (p : Persist) (i : Instance) (b : Bool) (e : IdentityError)
    (r : Outcome A × Instance)
    → (b ≡ false → IsAtomic A p i r)
    → IsAtomic A p i (if b then (refused e, i) else r)
IsAtomic-if p i true e r h = refused-IsAtomic p e i
IsAtomic-if p i false e r h = h refl

length-rename_first :
    (id name : Text) (cs : List Client) → length (rename_first id name cs) ≡ length cs
unfolding rename_first
length-rename_first id name [] = refl
length-rename_first id name (c ∷ cs) = ground (arith, length-rename_first id name cs)

length-remove_first : (id : Text) (cs : List Client) → length (remove_first id cs) ≤ length cs
unfolding remove_first
length-remove_first id [] = omega arith
length-remove_first id (c ∷ cs) = ground (arith, length-remove_first id cs)

length-append_one : (cs : List Client) (c : Client) → length (cs ++ c ∷ []) ≡ suc (length cs)
length-append_one [] c = refl
length-append_one (d ∷ cs) c = ap suc (length-append_one cs c)

some-injective {ℓ} : {A : Type ℓ} {a b : A} → some a ≡ some b → a ≡ b
some-injective e = cc

module _ (h : Hashing) (p : Persist) (now : Time) (i : Instance) where
  pub initialize-IsAtomic :
      (master access_key : Text) → IsAtomic Secrets p i (initialize h p master access_key now i)
  unfolding initialize
  initialize-IsAtomic master access_key = go i.state
    where
      go :
          (s : Option DiskState)
          → IsAtomic Secrets p i (initialize_from h p master access_key now i s)
      go none = persist-IsAtomic p (first_state h master access_key now) _ i (λ _. omega arith)
      go (some s) = refused-IsAtomic p _ i

  pub rotate-IsAtomic :
      (requested drawn : Text) → IsAtomic Text p i (rotate_access_key h p requested drawn now i)
  unfolding rotate_access_key
  rotate-IsAtomic requested drawn = go i.state refl
    where
      key : Text
      key = or_drawn (trim_space requested) drawn

      go : (s : Option DiskState) → i.state ≡ s → IsAtomic Text p i (rotate_from h p key now i s)
      go none e = refused-IsAtomic p _ i
      go (some s) e =
          IsAtomic-if p i (is_bad_access_key h key) _ _
            (λ _. persist-IsAtomic p (rotated h key now s) key i (λ b. subst IsBounded e b))

  pub issue-IsAtomic :
      (name id token : Text)
      → IsAtomic (Client × Text) p i (issue_client_token h p name id token now i)
  unfolding issue_client_token
  issue-IsAtomic name id token = go i.state
    where
      client : Client
      client = record {
        id = id;
        name = client_name h name;
        token_hash = h.token_hash token;
        created_at = now;
      }

      go : (s : Option DiskState) → IsAtomic (Client × Text) p i (issue_from p client token i s)
      go none = refused-IsAtomic p _ i
      go (some s) = IsAtomic-if p i (leb 100 (length s.clients)) _ _ (λ few.
          persist-IsAtomic p (issued client s) _ i
            (λ _. ground (arith, length-append_one s.clients client)))

  pub revoke-IsAtomic : (id : Text) → IsAtomic Bool p i (revoke_client_token p id now i)
  unfolding revoke_client_token
  revoke-IsAtomic id = go i.state refl
    where
      found :
          (s : DiskState) (b : Bool)
          → i.state ≡ some s
          → IsAtomic Bool p i (revoke_found p id now i s b)
      found s false e = refused-IsAtomic p _ i
      found s true e =
          persist-IsAtomic p _ true i
            (λ b. omega (arith, length-remove_first id s.clients, subst IsBounded e b))

      go : (s : Option DiskState) → i.state ≡ s → IsAtomic Bool p i (revoke_from p id now i s)
      go none e = refused-IsAtomic p _ i
      go (some s) e = found s (exists (has_client_id id) s.clients) e

  pub rename-IsAtomic :
      (id name : Text) (r : Outcome Client × Instance)
      → rename_client_token h p id name now i ≡ some r
      → IsAtomic Client p i r
  unfolding rename_client_token
  rename-IsAtomic id name r e = outer (is_bad_name h trimmed) e
    where
      trimmed : Text
      trimmed = trim_space name

      found :
          (s : DiskState) (c : Option Client)
          → i.state ≡ some s
          → IsAtomic Client p i (rename_found p id trimmed now i s c)
      found s none q = refused-IsAtomic p _ i
      found s (some c) q =
          persist-IsAtomic p _ _ i
            (λ b. omega (arith, length-rename_first id trimmed s.clients, subst IsBounded q b))

      inner :
          (s : Option DiskState)
          → i.state ≡ s
          → rename_from p id trimmed now i s ≡ some r
          → IsAtomic Client p i r
      inner none q t = absurd (some-none r (sym t))
      inner (some s) q t =
          subst (IsAtomic Client p i) (some-injective t) (found s (find_client id s.clients) q)

      outer :
          (b : Bool)
          → (if b then some (refused bad_name, i) else rename_from p id trimmed now i i.state)
            ≡ some r
          → IsAtomic Client p i r
      outer true t = subst (IsAtomic Client p i) (some-injective t) (refused-IsAtomic p _ i)
      outer false t = inner i.state refl t

-- Every operation of the manager is atomic: when it succeeds, the file and the memory are alike and
-- the instance is initialised; when it fails, the memory is as it was, and so is the file unless only
-- the last Chmod failed; and no more than 100 tokens of clients are ever held.
pub operations-IsAtomic :
    (h : Hashing) (p : Persist) (now : Time) (i : Instance)
    → ((master access_key : Text) → IsAtomic Secrets p i (initialize h p master access_key now i))
      × ((requested drawn : Text) → IsAtomic Text p i (rotate_access_key h p requested drawn now i))
      × ((name id token : Text)
          → IsAtomic (Client × Text) p i (issue_client_token h p name id token now i))
      × ((id : Text) → IsAtomic Bool p i (revoke_client_token p id now i))
      × ((id name : Text) (r : Outcome Client × Instance)
          → rename_client_token h p id name now i ≡ some r
          → IsAtomic Client p i r)
operations-IsAtomic h p now i = (
  initialize-IsAtomic h p now i,
  rotate-IsAtomic h p now i,
  issue-IsAtomic h p now i,
  revoke-IsAtomic h p now i,
  rename-IsAtomic h p now i,
)
