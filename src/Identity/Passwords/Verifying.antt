-- ===== src/Identity/Passwords/Verifying.antt =====
-- `verifyPassword` of internal/identity/manager.go on what `hashPassword` writes.
use opencode_proxy.Base.{◌≡◌, refl, ap, ◌∙◌, true, [], ◌∷◌, some, length, arith}
use opencode_proxy.Text.{
  Text, codes, text_eq, text_eq_refl, split, Lacks, split-append, split-whole, trim_prefix,
  strip_prefix,
}
use opencode_proxy.Text.Numbers.{parse_uint, scan_decimal}
use opencode_proxy.Identity.Passwords.{
  Hashing, memory, iterations, parallelism, key_length, dollar, encoded_hash, hash_password,
  verify_salt, verify_hash, verify_parts, verify_password,
}

-- What the documentation of base64 and of argon2 promises: decoding gives back what was encoded, no
-- encoded text has a `$`, a hash is as long as is asked for, and the version is 19.
pub record IsHashing (h : Hashing) : Type 0 where
  pub decodes : (s : Text) → h.unbase64 (h.base64 s) ≡ some s
  pub no_dollar : (s : Text) → Lacks dollar (h.base64 s)
  pub hash_length :
      (password salt : Text)
      → length (h.argon2 password salt iterations memory parallelism key_length) ≡ key_length
  pub version : h.argon2_version ≡ 19

encoded_hash-parts :
    (salt hash : Text)
    → Lacks dollar salt
    → Lacks dollar hash
    → split dollar (encoded_hash 19 salt hash)
      ≡ [] ∷ codes "argon2id" ∷ codes "v=19" ∷ codes "m=65536,t=3,p=1" ∷ salt ∷ hash ∷ []
unfolding encoded_hash split
encoded_hash-parts salt hash a b =
    rw (split-append dollar salt hash a, split-whole dollar hash b) refl

verify_parts-hash :
    (h : Hashing) (tried salt hash : Text)
    → h.argon2_version ≡ 19
    → verify_parts h tried
        ([] ∷ codes "argon2id" ∷ codes "v=19" ∷ codes "m=65536,t=3,p=1" ∷ salt ∷ hash ∷ [])
      ≡ verify_salt h tried memory iterations parallelism (h.unbase64 salt) hash
unfolding text_eq parse_uint scan_decimal split trim_prefix strip_prefix
verify_parts-hash h tried salt hash e = rw e refl

hash-verify :
    (h : Hashing) (tried want : Text)
    → length want ≡ key_length
    → verify_hash h tried memory iterations parallelism h.salt (some want)
      ≡ text_eq (h.argon2 tried h.salt iterations memory parallelism key_length) want
hash-verify h tried [] e = absurd (omega arith)
hash-verify h tried (c ∷ want) e = rw e refl

-- A password is accepted for a stored hash exactly if it has the same hash under the stored salt: so
-- the password that was set is accepted.
pub verify_password-hash_password :
    (h : Hashing)
    → IsHashing h
    → (password tried : Text)
    → (verify_password h tried (hash_password h password)
        ≡ text_eq
            (h.argon2 tried h.salt iterations memory parallelism key_length)
            (h.argon2 password h.salt iterations memory parallelism key_length))
      × (verify_password h password (hash_password h password) ≡ true)
unfolding verify_password hash_password
verify_password-hash_password h ok password tried =
    (checked tried, checked password ∙ text_eq_refl _)
  where
    hash : Text
    hash = h.argon2 password h.salt iterations memory parallelism key_length

    checked :
        (t : Text)
        → verify_parts h t
            (split dollar (encoded_hash h.argon2_version (h.base64 h.salt) (h.base64 hash)))
          ≡ text_eq (h.argon2 t h.salt iterations memory parallelism key_length) hash
    checked t =
        ap (λ v. verify_parts h t (split dollar (encoded_hash v (h.base64 h.salt) (h.base64 hash))))
          ok.version
        ∙ (ap (verify_parts h t) (
              encoded_hash-parts (h.base64 h.salt) (h.base64 hash) (ok.no_dollar h.salt)
                (ok.no_dollar hash))
            ∙ (verify_parts-hash h t (h.base64 h.salt) (h.base64 hash) ok.version
                ∙ (ap (λ s. verify_salt h t memory iterations parallelism s (h.base64 hash))
                      (ok.decodes h.salt)
                    ∙ (ap (verify_hash h t memory iterations parallelism h.salt) (ok.decodes hash)
                        ∙ hash-verify h t hash (ok.hash_length password h.salt)))))
