-- ===== src/Identity.antt =====
-- `Manager` of internal/identity/manager.go: the identity of the instance in memory and on disk. Random
-- draws are arguments; the writing of the file is a parameter.
pub mod Passwords
pub mod Rollback
pub mod Access
pub mod Opening
pub mod Restart
use opencode_proxy.Base.{
  Bool, true, false, ◌||◌, List, [], ◌∷◌, ◌++◌, Option, none, some, ltb, leb, if◌then◌else◌, length,
  exists,
}
use opencode_proxy.Text.{Text, codes, text_eq, trim_space}
use opencode_proxy.Time.{Time}
use opencode_proxy.Identity.Passwords.{Hashing, hash_password}

-- `clientTokenState`, of which `ClientToken` shows all but the hash.
pub record Client : Type 0 where
  pub id : Text
  pub name : Text
  pub token_hash : Text
  pub created_at : Time

-- `diskState`.
pub record DiskState : Type 0 where
  pub master_key : Text
  pub admin_password_hash : Text
  pub proxy_token_hash : Text
  pub unified_access : Bool
  pub clients : List Client
  pub created_at : Time
  pub updated_at : Time

-- The state in memory, the cipher being there exactly when it is, and the file.
pub record Instance : Type 0 where
  pub state : Option DiskState
  pub file : Option DiskState

-- How `persistLocked` ends: with the file replaced; with an error before that; or with the file
-- replaced and an error of the last Chmod.
pub data Persist : Type 0 where
  written : Persist
  unwritten : Persist
  written_unreadable : Persist

pub data IdentityError : Type 0 where
  already_initialized : IdentityError
  not_initialized : IdentityError
  bad_access_key : IdentityError
  token_limit : IdentityError
  bad_name : IdentityError
  not_exist : IdentityError
  not_persisted : IdentityError

pub data Outcome {ℓ} (A : Type ℓ) : Type ℓ where
  done : A → Outcome A
  refused : IdentityError → Outcome A

-- `persistLocked` of the new state, with what the caller does on an error: the old state comes back.
unfoldable pub persist {ℓ} :
    {A : Type ℓ} → Persist → DiskState → A → Instance → Outcome A × Instance
persist written new a i = (done a, record { state = some new; file = some new })
persist unwritten new a i = (refused not_persisted, i)
persist written_unreadable new a i = (refused not_persisted, record i { file = some new })

pub record Secrets : Type 0 where
  pub access_key : Text
  pub recovery_key : Text

abbrev pub first_state : Hashing → Text → Text → Time → DiskState
first_state h master access_key now = record {
  master_key = master;
  admin_password_hash = hash_password h access_key;
  proxy_token_hash = h.token_hash access_key;
  unified_access = true;
  clients = [];
  created_at = now;
  updated_at = now;
}

abbrev pub initialize_from :
    Hashing
    → Persist
    → Text
    → Text
    → Time
    → Instance
    → Option DiskState
    → Outcome Secrets × Instance
initialize_from h p master access_key now i (some s) = (refused already_initialized, i)
initialize_from h p master access_key now i none =
    persist p (first_state h master access_key now)
      (record { access_key = access_key; recovery_key = master }) i

-- `master` and `access_key` are drawn; 32 bytes always make a cipher.
unfoldable pub initialize :
    Hashing → Persist → Text → Text → Time → Instance → Outcome Secrets × Instance
initialize h p master access_key now i = initialize_from h p master access_key now i i.state

abbrev pub is_bad_access_key : Hashing → Text → Bool
is_bad_access_key h k = ltb (h.rune_count k) 16 || ltb 256 (h.rune_count k)

abbrev pub or_drawn : Text → Text → Text
or_drawn [] drawn = drawn
or_drawn (c ∷ s) drawn = c ∷ s

abbrev pub rotated : Hashing → Text → Time → DiskState → DiskState
rotated h access_key now s = record s {
  admin_password_hash = hash_password h access_key;
  proxy_token_hash = h.token_hash access_key;
  unified_access = true;
  updated_at = now;
}

abbrev pub rotate_from :
    Hashing → Persist → Text → Time → Instance → Option DiskState → Outcome Text × Instance
rotate_from h p access_key now i none = (refused not_initialized, i)
rotate_from h p access_key now i (some s) =
    if is_bad_access_key h access_key
    then (refused bad_access_key, i)
    else persist p (rotated h access_key now s) access_key i

-- `RotateAccessKey`.
unfoldable pub rotate_access_key :
    Hashing → Persist → Text → Text → Time → Instance → Outcome Text × Instance
rotate_access_key h p requested drawn now i =
    rotate_from h p (or_drawn (trim_space requested) drawn) now i i.state

abbrev pub client_name : Hashing → Text → Text
client_name h name =
    let chosen = or_drawn (trim_space name) (codes "OpenCode client") in
    if ltb 80 (h.rune_count chosen) then h.first_runes 80 chosen else chosen

abbrev pub issued : Client → DiskState → DiskState
issued client s = record s { clients = s.clients ++ client ∷ []; updated_at = client.created_at }

abbrev pub issue_from :
    Persist → Client → Text → Instance → Option DiskState → Outcome (Client × Text) × Instance
issue_from p client token i none = (refused not_initialized, i)
issue_from p client token i (some s) =
    if leb 100 (length s.clients)
    then (refused token_limit, i)
    else persist p (issued client s) (client, token) i

-- `IssueClientToken`; `id` and `token` are drawn.
unfoldable pub issue_client_token :
    Hashing → Persist → Text → Text → Text → Time → Instance → Outcome (Client × Text) × Instance
issue_client_token h p name id token now i =
    issue_from p
      (record {
        id = id;
        name = client_name h name;
        token_hash = h.token_hash token;
        created_at = now;
      })
      token i i.state

abbrev pub has_client_id : Text → Client → Bool
has_client_id id c = text_eq c.id id

-- The first client with the id, renamed.
unfoldable pub rename_first : Text → Text → List Client → List Client
rename_first id name [] = []
rename_first id name (c ∷ cs) =
    let rest = rename_first id name cs in
    if has_client_id id c then record c { name = name } ∷ cs else c ∷ rest

-- Without the first client with the id.
unfoldable pub remove_first : Text → List Client → List Client
remove_first id [] = []
remove_first id (c ∷ cs) =
    let rest = remove_first id cs in if has_client_id id c then cs else c ∷ rest

unfoldable pub find_client : Text → List Client → Option Client
find_client id [] = none
find_client id (c ∷ cs) =
    let rest = find_client id cs in if has_client_id id c then some c else rest

abbrev pub rename_found :
    Persist → Text → Text → Time → Instance → DiskState → Option Client → Outcome Client × Instance
rename_found p id name now i s none = (refused not_exist, i)
rename_found p id name now i s (some c) =
    persist p (record s { clients = rename_first id name s.clients; updated_at = now })
      (record c { name = name }) i

abbrev pub rename_from :
    Persist → Text → Text → Time → Instance → Option DiskState → Option (Outcome Client × Instance)
rename_from p id name now i none = none
rename_from p id name now i (some s) =
    some (rename_found p id name now i s (find_client id s.clients))

abbrev pub is_bad_name : Hashing → Text → Bool
is_bad_name h name = text_eq name [] || ltb 80 (h.rune_count name)

-- `RenameClientToken`; `none` is the panic of a nil state, as this method does not test for it.
unfoldable pub rename_client_token :
    Hashing → Persist → Text → Text → Time → Instance → Option (Outcome Client × Instance)
rename_client_token h p id name now i =
    let trimmed = trim_space name in
    if is_bad_name h trimmed
    then some (refused bad_name, i)
    else rename_from p id trimmed now i i.state

abbrev pub revoke_found :
    Persist → Text → Time → Instance → DiskState → Bool → Outcome Bool × Instance
revoke_found p id now i s false = (refused not_exist, i)
revoke_found p id now i s true =
    persist p (record s { clients = remove_first id s.clients; updated_at = now }) true i

abbrev pub revoke_from :
    Persist → Text → Time → Instance → Option DiskState → Outcome Bool × Instance
revoke_from p id now i none = (refused not_initialized, i)
revoke_from p id now i (some s) = revoke_found p id now i s (exists (has_client_id id) s.clients)

-- `RevokeClientToken`, whose success carries no value.
unfoldable pub revoke_client_token : Persist → Text → Time → Instance → Outcome Bool × Instance
revoke_client_token p id now i = revoke_from p id now i i.state

-- `ProxyPrincipal`.
pub data Principal : Type 0 where
  master : Principal
  client : Text → Text → Principal

unfoldable pub authenticate_client : Text → List Client → Option Principal
authenticate_client hash [] = none
authenticate_client hash (c ∷ cs) =
    let rest = authenticate_client hash cs in
    if text_eq hash c.token_hash then some (client c.id c.name) else rest

abbrev pub authenticate_with : Text → Option DiskState → Option Principal
authenticate_with hash none = none
authenticate_with hash (some s) =
    if text_eq hash s.proxy_token_hash then some master else authenticate_client hash s.clients

-- `AuthenticateProxy`. The stored hashes are hexadecimal, as `tokenHash` writes them, so that the bytes
-- agree where the texts do.
unfoldable pub authenticate_proxy : Hashing → Text → Instance → Option Principal
authenticate_proxy h token i = authenticate_with (h.token_hash token) i.state
