-- ===== src/Examples/Startup.antt =====
-- Stand-ins for the hashes and encodings, and the properties of the password and of the start of the
-- program at concrete values.
use opencode_proxy.Base.{
  ℕ, zero, suc, ◌+◌, ◌-◌, ◌≡◌, refl, ap, true, [], ◌∷◌, ◌++◌, none, some, length, take,
  if◌then◌else◌, arith,
}
use opencode_proxy.Base.Int.{pos}
use opencode_proxy.Text.{Text, codes, text_eq, has_prefix, Lacks}
use opencode_proxy.Identity.{Instance, written}
use opencode_proxy.Identity.Passwords.{Hashing, dollar, key_length, hash_password, verify_password}
use opencode_proxy.Identity.Passwords.Verifying.{IsHashing, verify_password-hash_password}
use opencode_proxy.Identity.Opening.{open_manager, running, absent}
use opencode_proxy.Configuration.{Platform, Config, load, legacy_of}
use opencode_proxy.Configuration.Accepted.{IsAccepted}
use opencode_proxy.Configuration.Started.{Admits, load-open}

-- A stand-in for the hash that keeps texts apart.
abbrev pub plain : Text → Text
plain t = t

-- A text brought to a length.
unfoldable pub fill : ℕ → Text → Text
fill zero t = []
fill (suc n) [] = 48 ∷ fill n []
fill (suc n) (c ∷ t) = c ∷ fill n t

length-fill : (n : ℕ) (t : Text) → length (fill n t) ≡ n
unfolding fill
length-fill zero t = refl
length-fill (suc n) [] = ap suc (length-fill n [])
length-fill (suc n) (c ∷ t) = ap suc (length-fill n t)

-- An encoding without `$`.
unfoldable pub raised : Text → Text
raised [] = []
raised (c ∷ t) = (c + 100) ∷ raised t

unfoldable pub lowered : Text → Text
lowered [] = []
lowered (c ∷ t) = (c - 100) ∷ lowered t

lowered-raised : (t : Text) → lowered (raised t) ≡ t
unfolding lowered raised
lowered-raised [] = refl
lowered-raised (c ∷ t) = grind (arith, lowered-raised t)

raised-Lacks : (t : Text) → Lacks dollar (raised t)
unfolding raised
raised-Lacks [] = tt
raised-Lacks (c ∷ t) = (ground arith, raised-Lacks t)

abbrev pub hashing : Hashing
hashing = record {
  token_hash = plain;
  salt = codes "salt";
  argon2 = λ password salt t m p n. fill n (password ++ salt);
  argon2_version = 19;
  base64 = raised;
  unbase64 = λ t. some (lowered t);
  base64_padded = plain;
  unbase64_padded = λ t. some t;
  rune_count = λ t. length t;
  first_runes = λ n t. take n t;
}

hashing-IsHashing : IsHashing hashing
hashing-IsHashing = record {
  decodes = λ t. ap some (lowered-raised t);
  no_dollar = raised-Lacks;
  hash_length = λ password salt. length-fill key_length (password ++ salt);
  version = refl;
}

verify_password-hash_password_example :
    (verify_password hashing (codes "opm_2") (hash_password hashing (codes "opm_1"))
      ≡ text_eq
          (fill key_length (codes "opm_2" ++ codes "salt"))
          (fill key_length (codes "opm_1" ++ codes "salt")))
    × (verify_password hashing (codes "opm_1") (hash_password hashing (codes "opm_1")) ≡ true)
verify_password-hash_password_example =
    verify_password-hash_password hashing hashing-IsHashing (codes "opm_1") (codes "opm_2")

-- A master key of 32 bytes.
abbrev pub long_key : Text
long_key = codes "0123456789abcdef0123456789abcdef"

abbrev variables : Text → Text
variables name =
    if text_eq name (codes "MASTER_KEY")
    then long_key
    else if text_eq name (codes "ACCESS_KEY")
    then codes "opm_1"
    else []

abbrev platform : Platform
platform = record {
  getenv = variables;
  parse_duration = λ t. none;
  path_dir = plain;
  path_join = λ a b. a ++ b;
  unbase64_padded = λ t. some t;
}

abbrev configured : Config
configured = record {
  listen_addr = codes "0.0.0.0:8080";
  database_path = codes "data/opencodeproxy.db";
  instance_path = codes "data/opencodeproxy.dbinstance.json";
  master_key = long_key;
  admin_password = codes "opm_1";
  bootstrap_token = codes "opm_1";
  upstream_base_url = codes "https://opencode.ai/zen/go/v1";
  request_timeout = pos 600000000000;
  idle_timeout = pos 120000000000;
  max_request_bytes = pos 67108864;
  event_retention = pos 2592000000000000;
  web_dir = codes "web/dist";
}

load-open_example :
    IsAccepted platform configured
    × ((i : Instance) × ((open_manager hashing written (legacy_of configured) 5 absent).0
          ≡ running i)
        × Admits hashing configured i)
unfolding load text_eq has_prefix
load-open_example = load-open platform configured hashing 5 refl hashing-IsHashing (λ s. refl)
