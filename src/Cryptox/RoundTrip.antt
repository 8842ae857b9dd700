-- ===== src/Cryptox/RoundTrip.antt =====
-- What is encrypted by internal/cryptox/cipher.go can be decrypted.
use opencode_proxy.Base.{◌≡◌, refl, ap, [], ◌∷◌, ◌++◌, some, ltb, length, take, drop, arith, false}
use opencode_proxy.Text.{Text}
use opencode_proxy.Cryptox.{Aead, encrypt, decrypt}

-- The documented behaviour of an AEAD: what is sealed under a nonce of its size opens again.
abbrev pub OpensSealed : Aead → Type 0
OpensSealed aead =
    (nonce plaintext : Text)
    → length nonce ≡ aead.nonce_size
    → aead.open_sealed nonce (aead.seal nonce plaintext) ≡ some plaintext

take-append : (a b : Text) → take (length a) (a ++ b) ≡ a
take-append [] b = refl
take-append (c ∷ a) b = ap (λ l. c ∷ l) (take-append a b)

drop-append : (a b : Text) → drop (length a) (a ++ b) ≡ b
drop-append [] b = refl
drop-append (c ∷ a) b = drop-append a b

long_enough : (a b : Text) → ltb (length (a ++ b)) (length a) ≡ false
long_enough [] b = ground arith
long_enough (c ∷ a) b = ground (arith, long_enough a b)

-- With an AEAD that opens what it has sealed, a text that is encrypted with a nonce of the AEAD's size
-- is decrypted to itself.
pub decrypt-encrypt :
    (aead : Aead) (nonce plaintext : Text)
    → OpensSealed aead
    → length nonce ≡ aead.nonce_size
    → decrypt aead (encrypt aead nonce plaintext) ≡ some plaintext
unfolding decrypt encrypt
decrypt-encrypt aead nonce plaintext opens size =
    rw
      (
        ← size,
        long_enough nonce (aead.seal nonce plaintext),
        take-append nonce (aead.seal nonce plaintext),
        drop-append nonce (aead.seal nonce plaintext),
      )
      (opens nonce plaintext size)
