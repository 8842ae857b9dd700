-- ===== src/Identity/Restart.antt =====
-- What a restart makes of the file that the operations of internal/identity/manager.go leave.
use opencode_proxy.Base.{
  ◌≡◌, ◌≢◌, refl, subst, Bool, true, false, Option, none, some, leb, length, exists, if◌then◌else◌,
}
use opencode_proxy.Text.{Text, trim_space}
use opencode_proxy.Time.{Time}
use opencode_proxy.Identity.Passwords.{Hashing}
use opencode_proxy.Identity.{
  Client, DiskState, Instance, Persist, written, unwritten, written_unreadable, Outcome, refused,
  persist, initialize, initialize_from, first_state, rotate_access_key, rotate_from, rotated,
  or_drawn, is_bad_access_key, issue_client_token, issue_from, issued, client_name,
  rename_client_token, rename_from, rename_found, is_bad_name, bad_name, find_client,
  revoke_client_token, revoke_from, revoke_found, has_client_id,
}
use opencode_proxy.Identity.Opening.{
  running, Legacy, is_master_key, load_cipher, open_manager, stored_of,
}

-- The file has what the memory has, and its key makes a cipher.
abbrev pub IsStored : Hashing → Option DiskState → Option DiskState → Type 0
IsStored h none file = Unit {0}
IsStored h (some s) file = (file ≡ some s) × (load_cipher h s ≡ true)

abbrev pub IsDurable : Hashing → Instance → Type 0
IsDurable h i = IsStored h i.state i.file

module _ (h : Hashing) (p : Persist) (whole : p ≢ written_unreadable) where
  persist-IsDurable {ℓ} :
      {A : Type ℓ} (new : DiskState) (a : A) (i : Instance)
      → load_cipher h new ≡ true
      → IsDurable h i
      → IsDurable h (persist p new a i).1
  unfolding persist
  persist-IsDurable new a i c d = go p refl
    where
      go : (q : Persist) → p ≡ q → IsDurable h (persist q new a i).1
      go written e = (refl, c)
      go unwritten e = d
      go written_unreadable e = absurd (whole e)

  IsDurable-if {ℓ} :
      {A : Type ℓ} (b : Bool) (e : Outcome A) (i : Instance) (r : Outcome A × Instance)
      → IsDurable h i
      → IsDurable h r.1
      → IsDurable h (if b then (e, i) else r).1
  IsDurable-if true e i r d k = d
  IsDurable-if false e i r d k = k

  module _ (now : Time) (i : Instance) (d : IsDurable h i) where
    cipher_of : (s : DiskState) → i.state ≡ some s → load_cipher h s ≡ true
    cipher_of s e = (subst (λ o. IsStored h o i.file) e d).1

    pub initialize-IsDurable :
        (master access_key : Text)
        → is_master_key (h.unbase64_padded master) ≡ true
        → IsDurable h (initialize h p master access_key now i).1
    unfolding initialize load_cipher
    initialize-IsDurable master access_key m = go i.state
      where
        go : (s : Option DiskState) → IsDurable h (initialize_from h p master access_key now i s).1
        go none = persist-IsDurable (first_state h master access_key now) _ i m d
        go (some s) = d

    pub rotate-IsDurable :
        (requested drawn : Text) → IsDurable h (rotate_access_key h p requested drawn now i).1
    unfolding rotate_access_key load_cipher
    rotate-IsDurable requested drawn = go i.state refl
      where
        key : Text
        key = or_drawn (trim_space requested) drawn

        go : (s : Option DiskState) → i.state ≡ s → IsDurable h (rotate_from h p key now i s).1
        go none e = d
        go (some s) e =
            IsDurable-if (is_bad_access_key h key) _ i _ d
              (persist-IsDurable (rotated h key now s) key i (cipher_of s e) d)

    pub issue-IsDurable :
        (name id token : Text) → IsDurable h (issue_client_token h p name id token now i).1
    unfolding issue_client_token load_cipher
    issue-IsDurable name id token = go i.state refl
      where
        client : Client
        client = record {
          id = id;
          name = client_name h name;
          token_hash = h.token_hash token;
          created_at = now;
        }

        go : (s : Option DiskState) → i.state ≡ s → IsDurable h (issue_from p client token i s).1
        go none e = d
        go (some s) e =
            IsDurable-if (leb 100 (length s.clients)) _ i _ d
              (persist-IsDurable (issued client s) _ i (cipher_of s e) d)

    pub revoke-IsDurable : (id : Text) → IsDurable h (revoke_client_token p id now i).1
    unfolding revoke_client_token load_cipher
    revoke-IsDurable id = go i.state refl
      where
        found :
            (s : DiskState) (b : Bool)
            → i.state ≡ some s
            → IsDurable h (revoke_found p id now i s b).1
        found s false e = d
        found s true e = persist-IsDurable _ true i (cipher_of s e) d

        go : (s : Option DiskState) → i.state ≡ s → IsDurable h (revoke_from p id now i s).1
        go none e = d
        go (some s) e = found s (exists (has_client_id id) s.clients) e

    pub rename-IsDurable :
        (id name : Text) (r : Outcome Client × Instance)
        → rename_client_token h p id name now i ≡ some r
        → IsDurable h r.1
    unfolding rename_client_token load_cipher
    rename-IsDurable id name r e = outer (is_bad_name h trimmed) e
      where
        trimmed : Text
        trimmed = trim_space name

        some-injective : {a b : Outcome Client × Instance} → some a ≡ some b → a ≡ b
        some-injective e = cc

        some-none : {a : Outcome Client × Instance} → none ≡ some a → ⊥
        some-none e = cc

        found :
            (s : DiskState) (c : Option Client)
            → i.state ≡ some s
            → IsDurable h (rename_found p id trimmed now i s c).1
        found s none q = d
        found s (some c) q = persist-IsDurable _ _ i (cipher_of s q) d

        inner :
            (s : Option DiskState)
            → i.state ≡ s
            → rename_from p id trimmed now i s ≡ some r
            → IsDurable h r.1
        inner none q t = absurd (some-none t)
        inner (some s) q t =
            subst (λ x. IsDurable h x.1) (some-injective t) (found s (find_client id s.clients) q)

        outer :
            (b : Bool)
            → (if b then some (refused bad_name, i) else rename_from p id trimmed now i i.state)
              ≡ some r
            → IsDurable h r.1
        outer true t = subst (λ x. IsDurable h x.1) (some-injective t) d
        outer false t = inner i.state refl t

-- A durable instance that has been set up is the one that the next start opens, whatever credentials
-- the environment then has.
pub open_manager-stored :
    (h : Hashing) (p : Persist) (l : Legacy) (now : Time) (s : DiskState) (file : Option DiskState)
    → IsDurable h (record { state = some s; file = file })
    → (open_manager h p l now (stored_of file)).0 ≡ running (record { state = some s; file = file })
unfolding open_manager
open_manager-stored h p l now s file d = rw d.0 (rw d.1 refl)
