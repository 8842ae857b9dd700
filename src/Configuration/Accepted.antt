-- ===== src/Configuration/Accepted.antt =====
-- What the configurations that `Load` of internal/config/config.go accepts are like, and what `Open` of
-- internal/identity/manager.go makes of them on a new installation.
use opencode_proxy.Base.{
  ℕ, ◌+◌, ◌≡◌, refl, ap, sym, subst, ◌∙◌, ◌⊎◌, inl, inr, Bool, true, false, ◌&&◌, ◌||◌, [], ◌∷◌,
  Option, none, some, ◌==◌, if◌then◌else◌, arith,
}
use opencode_proxy.Base.Int.{ℤ, pos, negsuc, ◌≤ℤ◌}
use opencode_proxy.Text.{Text, codes, text_eq, has_prefix}
use opencode_proxy.Text.Numbers.{atoi}
use opencode_proxy.Identity.Opening.{is_empty_text, is_empty_legacy, is_incomplete_legacy}
use opencode_proxy.Configuration.{
  Platform, Config, ConfigError, Loading, loaded, rejected, ◌>>=◌, variable, positive_or, int64_of,
  env_int64, defaults, with_access_key, one_if_set, with_all_or_none, with_decoded, with_master_key,
  with_upstream, load, legacy_of,
}

>>=-eq-loaded {ℓ κ} :
    {A : Type ℓ} {B : Type κ} (m : Loading A) (f : A → Loading B) {b : B}
    → (m >>= f) ≡ loaded b
    → (a : A) × (m ≡ loaded a) × (f a ≡ loaded b)
>>=-eq-loaded (loaded a) f h = (a, refl, h)
>>=-eq-loaded (rejected e) f h = cc

-- The credentials come together: the three of them, with a key of 32 bytes, or none.
abbrev pub AreTogether : Config → Type 0
AreTogether c =
    (is_empty_legacy (legacy_of c) ≡ true) ⊎ (is_incomplete_legacy (legacy_of c) ≡ false)

module _ (p : Platform) where
  abbrev pub IsUpstream : Config → Type 0
  IsUpstream c =
      (has_prefix (codes "https://opencode.ai/") c.upstream_base_url
        || text_eq (variable p "ALLOW_CUSTOM_UPSTREAM") (codes "true"))
      ≡ true

  access_key-keeps :
      (key encoded : Text) (a b : Config)
      → with_access_key p key encoded a ≡ loaded b
      → (b.master_key ≡ a.master_key) × (b.max_request_bytes ≡ a.max_request_bytes)
  access_key-keeps [] encoded a b h = ground arith
  access_key-keeps (k ∷ key) encoded a b h = ground arith

  guarded-loaded :
      (t : Bool) (e : ConfigError) (a b : Config)
      → (if t then loaded a else rejected e) ≡ loaded b
      → (a ≡ b) × (t ≡ true)
  guarded-loaded true e a b h = (cc, refl)
  guarded-loaded false e a b h = cc

  no_credentials :
      (admin token : Text)
      → ((0 + one_if_set p admin + one_if_set p token == 0)
          || (0 + one_if_set p admin + one_if_set p token == 3))
        ≡ true
      → (is_empty_text admin && is_empty_text token) ≡ true
  no_credentials [] [] h = refl
  no_credentials [] (c ∷ t) h = h
  no_credentials (c ∷ s) [] h = h
  no_credentials (c ∷ s) (d ∷ t) h = h

  all_credentials :
      (admin token : Text)
      → ((1 + one_if_set p admin + one_if_set p token == 0)
          || (1 + one_if_set p admin + one_if_set p token == 3))
        ≡ true
      → (is_empty_text admin || is_empty_text token) ≡ false
  all_credentials [] [] h = sym h
  all_credentials [] (c ∷ t) h = sym h
  all_credentials (c ∷ s) [] h = sym h
  all_credentials (c ∷ s) (d ∷ t) h = refl

  loaded-injective : {b c : Config} → loaded b ≡ loaded c → b ≡ c
  loaded-injective e = cc

  none-AreTogether :
      (a b c : Config)
      → a.master_key ≡ []
      → with_all_or_none p [] a ≡ loaded b
      → with_master_key p [] b ≡ loaded c
      → AreTogether c
  none-AreTogether a b c e h k =
      let (same, test) = guarded-loaded _ _ a b h in
      subst AreTogether (same ∙ loaded-injective k)
        (inl (rw e (no_credentials a.admin_password a.bootstrap_token test)))

  decoded-AreTogether :
      (b c : Config) (o : Option Text)
      → (is_empty_text b.admin_password || is_empty_text b.bootstrap_token) ≡ false
      → with_decoded p b o ≡ loaded c
      → AreTogether c
  decoded-AreTogether b c none t h = cc
  decoded-AreTogether b c (some key) t h =
      let (same, long) = guarded-loaded _ _ (record b { master_key = key }) c h in
      subst AreTogether same (inr (rw (long, t) refl))

  some-AreTogether :
      (d : ℕ) (encoded : Text) (a b c : Config)
      → with_all_or_none p (d ∷ encoded) a ≡ loaded b
      → with_decoded p b (p.unbase64_padded (d ∷ encoded)) ≡ loaded c
      → AreTogether c
  some-AreTogether d encoded a b c h k =
      let (same, test) = guarded-loaded _ _ a b h in
      decoded-AreTogether b c (p.unbase64_padded (d ∷ encoded))
        (subst (λ x. (is_empty_text x.admin_password || is_empty_text x.bootstrap_token) ≡ false)
          same (all_credentials a.admin_password a.bootstrap_token test))
        k

  positive_or-positive : (o : Option ℤ) (d : ℤ) → pos 1 ≤ℤ d → pos 1 ≤ℤ positive_or p d o
  positive_or-positive none d h = h
  positive_or-positive (some (negsuc n)) d h = h
  positive_or-positive (some (pos n)) d h = ground arith

  int64-positive : (value : Text) (d : ℤ) → pos 1 ≤ℤ d → pos 1 ≤ℤ int64_of p value d
  int64-positive [] d h = h
  int64-positive (c ∷ value) d h = positive_or-positive (atoi (c ∷ value)) d h

-- What `Load` accepts: the credentials together, a positive limit of a request, an upstream that is
-- opencode.ai or that is allowed, and one ACCESS_KEY in the place of the password and the token.
pub record IsAccepted (p : Platform) (c : Config) : Type 0 where
  pub credentials : AreTogether c
  pub limit : pos 1 ≤ℤ c.max_request_bytes
  pub upstream : IsUpstream p c

accepted-IsUpstream :
    (p : Platform) (b c : Config) → with_upstream p b ≡ loaded c → (b ≡ c) × IsUpstream p c
accepted-IsUpstream p b c h =
    let (same, test) = guarded-loaded p _ _ b c h in (same, subst (IsUpstream p) same test)

master_key-keeps :
    (p : Platform) (encoded : Text) (b c : Config)
    → with_master_key p encoded b ≡ loaded c
    → c.max_request_bytes ≡ b.max_request_bytes
master_key-keeps p [] b c h = ground arith
master_key-keeps p (d ∷ encoded) b c h = go (p.unbase64_padded (d ∷ encoded)) h
  where
    go :
        (o : Option Text)
        → with_decoded p b o ≡ loaded c
        → c.max_request_bytes ≡ b.max_request_bytes
    go none k = cc
    go (some key) k = ground arith

together-AreTogether :
    (p : Platform) (encoded : Text) (a b c : Config)
    → a.master_key ≡ []
    → with_all_or_none p encoded a ≡ loaded b
    → with_master_key p encoded b ≡ loaded c
    → AreTogether c
together-AreTogether p [] a b c e h k = none-AreTogether p a b c e h k
together-AreTogether p (d ∷ encoded) a b c e h k = some-AreTogether p d encoded a b c h k

pub load-IsAccepted : (p : Platform) (c : Config) → load p ≡ loaded c → IsAccepted p c
unfolding load defaults env_int64
load-IsAccepted p c h =
    let encoded : Text = variable p "MASTER_KEY" in
    let (a, ha, h1) =
      >>=-eq-loaded (with_access_key p (variable p "ACCESS_KEY") encoded (defaults p)) _ h in
    let (b, hb, h2) = >>=-eq-loaded (with_all_or_none p encoded a) _ h1 in
    let (d, hd, h3) = >>=-eq-loaded (with_master_key p encoded b) _ h2 in
    let kept = access_key-keeps p (variable p "ACCESS_KEY") encoded (defaults p) a ha in
    let (same, up) = accepted-IsUpstream p d c h3 in
    let (same', _) = guarded-loaded p _ _ a b hb in
    record {
      credentials = subst AreTogether same (together-AreTogether p encoded a b d kept.0 hb hd);
      limit =
          subst (λ n. pos 1 ≤ℤ n)
            (sym kept.1
              ∙ (ap (λ x. x.max_request_bytes) same'
                  ∙ (sym (master_key-keeps p encoded b d hd) ∙ ap (λ x. x.max_request_bytes) same)))
            (int64-positive p (variable p "MAX_REQUEST_BYTES") _ (omega arith));
      upstream = up;
    }
