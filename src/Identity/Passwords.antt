-- ===== src/Identity/Passwords.antt =====
-- `tokenHash`, `hashPassword` and `verifyPassword` of internal/identity/manager.go. The digests of
-- crypto/sha256 and argon2, and base64 with and without padding, are parameters.
pub mod Verifying
use opencode_proxy.Base.{
  ℕ, ◌*◌, ◌%◌, ◌^◌, Bool, false, ◌||◌, not, List, [], ◌∷◌, ◌++◌, Option, none, some, ◌==◌,
  if◌then◌else◌, length,
}
use opencode_proxy.Base.Int.{ℤ, pos, negsuc}
use opencode_proxy.Text.{Text, codes, text_eq, split, trim_prefix, strip_prefix, format_decimal}
use opencode_proxy.Text.Numbers.{parse_uint, scan_decimal}

-- `salt` is what randomBytes draws for a password; `argon2` is IDKey, of password, salt, iterations,
-- memory, parallelism and length; `token_hash` is SHA-256 in hexadecimal.
pub record Hashing : Type 0 where
  pub token_hash : Text → Text
  pub salt : Text
  pub argon2 : Text → Text → ℕ → ℕ → ℕ → ℕ → Text
  pub argon2_version : ℕ
  pub base64 : Text → Text
  pub unbase64 : Text → Option Text
  pub base64_padded : Text → Text
  pub unbase64_padded : Text → Option Text
  pub rune_count : Text → ℕ
  pub first_runes : ℕ → Text → Text

abbrev pub memory : ℕ
memory = 64 * 1024

abbrev pub iterations : ℕ
iterations = 3

abbrev pub parallelism : ℕ
parallelism = 1

abbrev pub key_length : ℕ
key_length = 32

abbrev pub dollar : ℕ
dollar = b'$'

-- The format of a stored hash: the version, and the encoded salt and hash.
unfoldable pub encoded_hash : ℕ → Text → Text → Text
unfolding format_decimal
encoded_hash version salt hash =
    codes "$argon2id$v="
    ++ (format_decimal version
        ++ (codes "$m="
            ++ (format_decimal memory
                ++ (codes ",t="
                    ++ (format_decimal iterations
                        ++ (codes ",p="
                            ++ (format_decimal parallelism
                                ++ dollar ∷ (salt ++ dollar ∷ hash))))))))

unfoldable pub hash_password : Hashing → Text → Text
unfolding encoded_hash
hash_password h password =
    encoded_hash h.argon2_version (h.base64 h.salt)
      (h.base64 (h.argon2 password h.salt iterations memory parallelism key_length))

abbrev pub is_version : ℕ → Option ℤ → Bool
is_version v none = false
is_version v (some (pos n)) = n == v
is_version v (some (negsuc n)) = false

abbrev pub scanned_version : Option Text → Option ℤ
scanned_version none = none
scanned_version (some s) = scan_decimal s

abbrev pub verify_hash : Hashing → Text → ℕ → ℕ → ℕ → Text → Option Text → Bool
verify_hash h password m t p salt none = false
verify_hash h password m t p salt (some []) = false
verify_hash h password m t p salt (some (c ∷ want)) =
    text_eq (h.argon2 password salt t m p (length (c ∷ want) % 2 ^ 32)) (c ∷ want)

abbrev pub verify_salt : Hashing → Text → ℕ → ℕ → ℕ → Option Text → Text → Bool
verify_salt h password m t p none encoded = false
verify_salt h password m t p (some salt) encoded =
    verify_hash h password m t p salt (h.unbase64 encoded)

abbrev pub verify_numbers : Hashing → Text → Option ℕ → Option ℕ → Option ℕ → Text → Text → Bool
verify_numbers h password (some m) (some t) (some p) salt encoded =
    verify_salt h password m t p (h.unbase64 salt) encoded
verify_numbers h password none t p salt encoded = false
verify_numbers h password (some m) none p salt encoded = false
verify_numbers h password (some m) (some t) none salt encoded = false

-- The `m=`, `t=` and `p=` of the parameters.
abbrev pub verify_params : Hashing → Text → List Text → Text → Text → Bool
verify_params h password (m ∷ t ∷ p ∷ []) salt encoded =
    verify_numbers h password (parse_uint 32 (trim_prefix (codes "m=") m))
      (parse_uint 32 (trim_prefix (codes "t=") t)) (parse_uint 8 (trim_prefix (codes "p=") p)) salt
      encoded
verify_params h password _ salt encoded = false

abbrev pub verify_parts : Hashing → Text → List Text → Bool
verify_parts h password (a ∷ kind ∷ version ∷ params ∷ salt ∷ encoded ∷ []) =
    if not (text_eq kind (codes "argon2id"))
      || not (is_version h.argon2_version (scanned_version (strip_prefix (codes "v=") version)))
    then false
    else verify_params h password (split b',' params) salt encoded
verify_parts h password _ = false

unfoldable pub verify_password : Hashing → Text → Text → Bool
verify_password h password encoded = verify_parts h password (split dollar encoded)
