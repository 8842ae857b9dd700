-- ===== src/Configuration.antt =====
-- `Load` of internal/config/config.go. The variables of the environment, the durations of package
-- time, the paths of package path/filepath and base64 are parameters.
pub mod Accepted
pub mod Started
use opencode_proxy.Base.{
  ℕ, ◌+◌, ◌*◌, ◌^◌, true, ◌||◌, not, [], ◌∷◌, Option, none, some, ◌==◌, if◌then◌else◌, length,
  String,
}
use opencode_proxy.Base.Int.{ℤ, pos, negsuc}
use opencode_proxy.Text.{Text, codes, text_eq, has_prefix}
use opencode_proxy.Text.Numbers.{atoi}
use opencode_proxy.Time.{minutes, hours}
use opencode_proxy.Identity.Opening.{Legacy, is_empty_text}

-- `getenv` gives the empty text for a variable that is not set.
pub record Platform : Type 0 where
  pub getenv : Text → Text
  pub parse_duration : Text → Option ℤ
  pub path_dir : Text → Text
  pub path_join : Text → Text → Text
  pub unbase64_padded : Text → Option Text

pub record Config : Type 0 where
  pub listen_addr : Text
  pub database_path : Text
  pub instance_path : Text
  pub master_key : Text
  pub admin_password : Text
  pub bootstrap_token : Text
  pub upstream_base_url : Text
  pub request_timeout : ℤ
  pub idle_timeout : ℤ
  pub max_request_bytes : ℤ
  pub event_retention : ℤ
  pub web_dir : Text

pub data ConfigError : Type 0 where
  access_key_combined : ConfigError
  access_key_alone : ConfigError
  incomplete_credentials : ConfigError
  bad_master_key : ConfigError
  bad_upstream : ConfigError

pub data Loading {ℓ} (A : Type ℓ) : Type ℓ where
  loaded : A → Loading A
  rejected : ConfigError → Loading A

infixl 5 ◌>>=◌
abbrev pub ◌>>=◌ {ℓ κ} : {A : Type ℓ} {B : Type κ} → Loading A → (A → Loading B) → Loading B
loaded a >>= f = f a
rejected e >>= f = rejected e

module _ (p : Platform) where
  abbrev pub variable : String → Text
  variable name = p.getenv (codes name)

  abbrev pub or_fallback : Text → Text → Text
  or_fallback [] fallback = fallback
  or_fallback (c ∷ value) fallback = c ∷ value

  unfoldable pub env : String → Text → Text
  env name fallback = or_fallback (variable name) fallback

  abbrev pub duration_or : ℤ → Option ℤ → ℤ
  duration_or fallback none = fallback
  duration_or fallback (some d) = d

  abbrev pub duration_of : Text → ℤ → ℤ
  duration_of [] fallback = fallback
  duration_of (c ∷ value) fallback = duration_or fallback (p.parse_duration (c ∷ value))

  unfoldable pub env_duration : String → ℤ → ℤ
  env_duration name fallback = duration_of (variable name) fallback

  -- A positive number, or the fallback.
  abbrev pub positive_or : ℤ → Option ℤ → ℤ
  positive_or fallback none = fallback
  positive_or fallback (some (negsuc n)) = fallback
  positive_or fallback (some (pos n)) = if n == 0 then fallback else pos n

  abbrev pub int64_of : Text → ℤ → ℤ
  int64_of [] fallback = fallback
  int64_of (c ∷ value) fallback = positive_or fallback (atoi (c ∷ value))

  unfoldable pub env_int64 : String → ℤ → ℤ
  unfolding atoi
  env_int64 name fallback = int64_of (variable name) fallback

  -- The configuration before its credentials are looked at.
  unfoldable pub defaults : Config
  unfolding env env_duration env_int64
  defaults =
      let database = env "DATABASE_PATH" (codes "data/opencodeproxy.db") in
      record {
        listen_addr = env "LISTEN_ADDR" (codes "0.0.0.0:8080");
        database_path = database;
        instance_path =
            env "INSTANCE_PATH" (p.path_join (p.path_dir database) (codes "instance.json"));
        master_key = [];
        admin_password = variable "ADMIN_PASSWORD";
        bootstrap_token = variable "PROXY_TOKEN";
        upstream_base_url = env "UPSTREAM_BASE_URL" (codes "https://opencode.ai/zen/go/v1");
        request_timeout = env_duration "REQUEST_TIMEOUT" (pos (minutes 10));
        idle_timeout = env_duration "IDLE_TIMEOUT" (pos (minutes 2));
        max_request_bytes = env_int64 "MAX_REQUEST_BYTES" (pos (64 * 2 ^ 20));
        event_retention = env_duration "EVENT_RETENTION" (pos (hours (30 * 24)));
        web_dir = env "WEB_DIR" (codes "web/dist");
      }

  -- ACCESS_KEY stands for the password and the token together.
  abbrev pub with_access_key : Text → Text → Config → Loading Config
  with_access_key [] encoded c = loaded c
  with_access_key (k ∷ key) encoded c =
      if not (is_empty_text c.admin_password) || not (is_empty_text c.bootstrap_token)
      then rejected access_key_combined
      else if is_empty_text encoded
      then rejected access_key_alone
      else loaded (record c { admin_password = k ∷ key; bootstrap_token = k ∷ key })

  abbrev pub one_if_set : Text → ℕ
  one_if_set s = if is_empty_text s then 0 else 1

  abbrev pub legacy_count : Text → Config → ℕ
  legacy_count encoded c =
      one_if_set encoded + one_if_set c.admin_password + one_if_set c.bootstrap_token

  abbrev pub with_all_or_none : Text → Config → Loading Config
  with_all_or_none encoded c =
      if legacy_count encoded c == 0 || legacy_count encoded c == 3
      then loaded c
      else rejected incomplete_credentials

  abbrev pub with_decoded : Config → Option Text → Loading Config
  with_decoded c none = rejected bad_master_key
  with_decoded c (some key) =
      if length key == 32 then loaded (record c { master_key = key }) else rejected bad_master_key

  abbrev pub with_master_key : Text → Config → Loading Config
  with_master_key [] c = loaded c
  with_master_key (e ∷ encoded) c = with_decoded c (p.unbase64_padded (e ∷ encoded))

  abbrev pub with_upstream : Config → Loading Config
  with_upstream c =
      if has_prefix (codes "https://opencode.ai/") c.upstream_base_url
        || text_eq (variable "ALLOW_CUSTOM_UPSTREAM") (codes "true")
      then loaded c
      else rejected bad_upstream

  unfoldable pub load : Loading Config
  unfolding defaults
  load = do
    a ← with_access_key (variable "ACCESS_KEY") (variable "MASTER_KEY") defaults
    b ← with_all_or_none (variable "MASTER_KEY") a
    c ← with_master_key (variable "MASTER_KEY") b
    with_upstream c

-- What `main` hands to `Open` of the identity manager.
abbrev pub legacy_of : Config → Legacy
legacy_of c = record {
  master_key = c.master_key;
  admin_password = c.admin_password;
  proxy_token = c.bootstrap_token;
}
