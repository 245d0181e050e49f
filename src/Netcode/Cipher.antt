-- ===== src/Netcode/Cipher.antt =====
-- The authenticated cipher of the chacha20poly1305 crate, which the sources only call.
use renet.Base.{ℕ, ◌≡◌, Option, some, length}
use renet.Channel.{Bytes}

-- What the crate documents: a ciphertext of the same length with a tag of 16 bytes, which the same
-- key, nonce and associated data open to the plaintext. The nonce is the packet's sequence.
pub record Cipher : Type 0 where
  pub encrypt : Bytes → ℕ → Bytes → Bytes → Option (Bytes × Bytes)
  pub decrypt : Bytes → ℕ → Bytes → Bytes → Bytes → Option Bytes
  pub opens :
      (key : Bytes) (sequence : ℕ) (aad plain text tag : Bytes)
      → encrypt key sequence aad plain ≡ some (text, tag)
      → decrypt key sequence aad text tag ≡ some plain
  pub same_length :
      (key : Bytes) (sequence : ℕ) (aad plain text tag : Bytes)
      → encrypt key sequence aad plain ≡ some (text, tag)
      → length text ≡ length plain
  pub tag_length :
      (key : Bytes) (sequence : ℕ) (aad plain text tag : Bytes)
      → encrypt key sequence aad plain ≡ some (text, tag)
      → length tag ≡ 16
