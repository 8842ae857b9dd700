-- ===== src/Cryptox.antt =====
-- `Cipher` of internal/cryptox/cipher.go: a nonce in front of what the AEAD seals. The AEAD is
-- crypto/cipher's, a parameter.
pub mod RoundTrip
use opencode_proxy.Base.{ℕ, Option, none, ltb, ◌++◌, length, take, drop, if◌then◌else◌}
use opencode_proxy.Text.{Text}

pub record Aead : Type 0 where
  pub nonce_size : ℕ
  pub seal : Text → Text → Text
  pub open_sealed : Text → Text → Option Text

-- `Encrypt`, with the nonce that is drawn.
unfoldable pub encrypt : Aead → Text → Text → Text
encrypt aead nonce plaintext = nonce ++ aead.seal nonce plaintext

unfoldable pub decrypt : Aead → Text → Option Text
decrypt aead ciphertext =
    if ltb (length ciphertext) aead.nonce_size
    then none
    else aead.open_sealed (take aead.nonce_size ciphertext) (drop aead.nonce_size ciphertext)
