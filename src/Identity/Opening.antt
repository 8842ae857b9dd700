-- ===== src/Identity/Opening.antt =====
-- `Open` of internal/identity/manager.go, at the start of the program, and the methods that only read
-- the identity. The content of the file is taken as decoded.
use opencode_proxy.Base.{
  Bool, true, false, ◌&&◌, ◌||◌, not, List, [], ◌∷◌, Option, none, some, ◌==◌, if◌then◌else◌,
  length, is_some,
}
use opencode_proxy.Text.{Text, text_eq}
use opencode_proxy.Time.{Time}
use opencode_proxy.Identity.Passwords.{Hashing, hash_password, verify_password}
use opencode_proxy.Identity.{
  Client, DiskState, Instance, Persist, written, unwritten, written_unreadable,
}

-- What the file of the instance holds; `null_document` is the JSON text `null`.
pub data StoredFile : Type 0 where
  absent : StoredFile
  unreadable : StoredFile
  malformed : StoredFile
  null_document : StoredFile
  holds : DiskState → StoredFile

pub data OpenError : Type 0 where
  file_unreadable : OpenError
  file_malformed : OpenError
  bad_master_key : OpenError
  incomplete_credentials : OpenError
  file_unwritten : OpenError

-- The manager, an error, or the panic of a nil state in loadCipher.
pub data Opened : Type 0 where
  running : Instance → Opened
  failed : OpenError → Opened
  panicked : Opened

abbrev pub is_master_key : Option Text → Bool
is_master_key none = false
is_master_key (some m) = length m == 32

-- Whether `loadCipher` succeeds.
unfoldable pub load_cipher : Hashing → DiskState → Bool
load_cipher h s = is_master_key (h.unbase64_padded s.master_key)

-- The credentials of an older installation: MASTER_KEY, ADMIN_PASSWORD and PROXY_TOKEN.
pub record Legacy : Type 0 where
  pub master_key : Text
  pub admin_password : Text
  pub proxy_token : Text

abbrev pub is_empty_text : Text → Bool
is_empty_text [] = true
is_empty_text (c ∷ s) = false

abbrev pub legacy_state : Hashing → Legacy → Time → DiskState
legacy_state h l now = record {
  master_key = h.base64_padded l.master_key;
  admin_password_hash = hash_password h l.admin_password;
  proxy_token_hash = h.token_hash l.proxy_token;
  unified_access = text_eq l.admin_password l.proxy_token;
  clients = [];
  created_at = now;
  updated_at = now;
}

-- `persistLocked` of the first state: what is returned, and what the file holds behind it.
abbrev pub opened_with : Persist → DiskState → Opened × StoredFile
opened_with written s = (running (record { state = some s; file = some s }), holds s)
opened_with unwritten s = (failed file_unwritten, absent)
opened_with written_unreadable s = (failed file_unwritten, holds s)

abbrev pub is_empty_legacy : Legacy → Bool
is_empty_legacy l =
    is_empty_text l.master_key && is_empty_text l.admin_password && is_empty_text l.proxy_token

abbrev pub is_incomplete_legacy : Legacy → Bool
is_incomplete_legacy l =
    not (length l.master_key == 32) || is_empty_text l.admin_password || is_empty_text l.proxy_token

unfoldable pub open_legacy : Hashing → Persist → Legacy → Time → Opened × StoredFile
unfolding load_cipher
open_legacy h p l now =
    if is_empty_legacy l
    then (running (record { state = none; file = none }), absent)
    else if is_incomplete_legacy l
    then (failed incomplete_credentials, absent)
    else if load_cipher h (legacy_state h l now)
    then opened_with p (legacy_state h l now)
    else (failed bad_master_key, absent)

unfoldable pub open_manager : Hashing → Persist → Legacy → Time → StoredFile → Opened × StoredFile
unfolding open_legacy load_cipher
open_manager h p l now (holds s) = (
  if load_cipher h s
      then running (record { state = some s; file = some s })
      else failed bad_master_key,
  holds s,
)
open_manager h p l now null_document = (panicked, null_document)
open_manager h p l now malformed = (failed file_malformed, malformed)
open_manager h p l now unreadable = (failed file_unreadable, unreadable)
open_manager h p l now absent = open_legacy h p l now

-- The file as the next start finds it.
abbrev pub stored_of : Option DiskState → StoredFile
stored_of none = absent
stored_of (some s) = holds s

-- `Initialized`: state and cipher are there together.
abbrev pub is_initialized : Instance → Bool
is_initialized i = is_some i.state

abbrev pub verify_state : Hashing → Text → Option DiskState → Bool
verify_state h password none = false
verify_state h password (some s) = verify_password h password s.admin_password_hash

unfoldable pub verify_admin : Hashing → Text → Instance → Bool
unfolding verify_password
verify_admin h password i = verify_state h password i.state

abbrev pub unified_of : Option DiskState → Bool
unified_of none = false
unified_of (some s) = s.unified_access

-- `UnifiedAccessEnabled`.
abbrev pub unified_access_enabled : Instance → Bool
unified_access_enabled i = unified_of i.state

abbrev pub clients_of : Option DiskState → List Client
clients_of none = []
clients_of (some s) = s.clients

-- `ListClientTokens`.
abbrev pub list_client_tokens : Instance → List Client
list_client_tokens i = clients_of i.state
