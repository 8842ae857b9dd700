-- ===== src/Configuration/Started.antt =====
-- The program with a configuration that `Load` of internal/config/config.go accepts: `Open` of
-- internal/identity/manager.go gets its credentials.
use opencode_proxy.Base.{
  ◌≡◌, refl, ap, sym, ◌∙◌, inl, inr, true, false, not, none, some, ◌==◌, if◌then◌else◌, length,
  arith,
}
use opencode_proxy.Text.{Text}
use opencode_proxy.Time.{Time}
use opencode_proxy.Identity.{Instance, written}
use opencode_proxy.Identity.Passwords.{Hashing}
use opencode_proxy.Identity.Opening.{
  running, Legacy, absent, is_empty_text, is_empty_legacy, is_incomplete_legacy, load_cipher,
  legacy_state, open_legacy, open_manager, is_initialized,
}
use opencode_proxy.Configuration.{Platform, Config, loaded, load, legacy_of}
use opencode_proxy.Text.{text_eq_refl}
use opencode_proxy.Identity.{master, authenticate_proxy}
use opencode_proxy.Identity.Opening.{verify_admin}
use opencode_proxy.Identity.Passwords.Verifying.{IsHashing, verify_password-hash_password}
use opencode_proxy.Configuration.Accepted.{IsAccepted, AreTogether, load-IsAccepted}

complete-parts :
    (l : Legacy)
    → is_incomplete_legacy l ≡ false
    → ((length l.master_key == 32) ≡ true)
      × (is_empty_text l.admin_password ≡ false)
      × (is_empty_legacy l ≡ false)
complete-parts l e = (ground arith, ground arith, ground arith)

-- The instance lets its credentials in, where there are some.
abbrev pub Admits : Hashing → Config → Instance → Type 0
Admits h c i =
    (is_initialized i ≡ not (is_empty_text c.admin_password))
    × (verify_admin h c.admin_password i ≡ not (is_empty_text c.admin_password))
    × (authenticate_proxy h c.bootstrap_token i
        ≡ (if is_empty_text c.bootstrap_token then none else some master))

-- The configurations that `Load` accepts: the credentials are there together or not at all, a request
-- has a positive limit, and the upstream is opencode.ai or is allowed. With such a configuration `Open`
-- succeeds on a new installation whose file is written; the instance is initialised exactly if there is
-- a password, and then it accepts the password of the console and lets the token of the proxy in as
-- the master. The hashes are as the password's check needs them, and base64 decodes what it encodes.
pub load-open :
    (p : Platform) (c : Config) (h : Hashing) (now : Time)
    → load p ≡ loaded c
    → IsHashing h
    → ((s : Text) → h.unbase64_padded (h.base64_padded s) ≡ some s)
    → IsAccepted p c
      × ((i : Instance) × ((open_manager h written (legacy_of c) now absent).0 ≡ running i)
          × Admits h c i)
unfolding open_manager open_legacy load_cipher verify_admin authenticate_proxy
load-open p c h now e ok decodes = let a = load-IsAccepted p c e in (a, opened a.credentials)
  where
    legacy : Legacy
    legacy = legacy_of c

    empty-password : is_empty_legacy legacy ≡ true → is_empty_text c.admin_password ≡ true
    empty-password t = ground arith

    empty-token : is_empty_legacy legacy ≡ true → is_empty_text c.bootstrap_token ≡ true
    empty-token t = ground arith

    present-token : is_incomplete_legacy legacy ≡ false → is_empty_text c.bootstrap_token ≡ false
    present-token t = ground arith

    opened :
        AreTogether c
        → (i : Instance) × ((open_manager h written legacy now absent).0 ≡ running i) × Admits h c i
    opened (inl t) = (
      record { state = none; file = none },
      rw t refl,
      (rw (empty-password t) refl, rw (empty-password t) refl, rw (empty-token t) refl),
    )
    opened (inr t) =
        let (long, named, present) = complete-parts legacy t in
        let s = legacy_state h legacy now in
        (
          record { state = some s; file = some s },
          rw (present, t, decodes c.master_key, long) refl,
          (
            rw named refl,
            (verify_password-hash_password h ok c.admin_password c.admin_password).1
                ∙ ap not (sym named),
            rw (text_eq_refl (h.token_hash c.bootstrap_token), present-token t) refl,
          ),
        )
