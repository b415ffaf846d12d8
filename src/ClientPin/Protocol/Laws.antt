-- ===== src/ClientPin/Protocol/Laws.antt =====
-- The two PIN/UV auth protocols of cbor_client_pin.c: verification against authentication, and
-- decryption after encryption.
use pico_fido_microkey.Base.{
  ◌++◌, drop, block-length, ℕ, ◌≤◌, ◌≡◌, ◌↔◌, arith, true, some, none, Option, List, length, drop,
  block, ◌==◌, if◌then◌else◌, length-append, block-append, drop-append, memcmp_eq_iff,
}
use pico_fido_microkey.Device.{Crypto}
use pico_fido_microkey.Ctap.{iv_size}
use pico_fido_microkey.ClientPin.Protocol.{wrote, encrypt, decrypt, authenticate, verify}
use pico_fido_microkey.ClientPin.Checks.{known_protocol}

-- The bytes of a tag.
abbrev pub tag_size : ℕ → ℕ
tag_size protocol = if protocol == 1 then 16 else 32

-- `aes_decrypt` undoes `aes_encrypt`, which succeeds and keeps the length.
pub record IsAesCbc (crypto : Crypto) : Type 0 where
  pub encrypts :
      (key : List ℕ) (iv : Option (List ℕ)) (m : List ℕ) → (crypto.aes_cbc_encrypt key iv m).0 ≡ 0
  pub decrypts :
      (key : List ℕ) (iv : Option (List ℕ)) (m : List ℕ)
      → crypto.aes_cbc_decrypt key iv (crypto.aes_cbc_encrypt key iv m).1 ≡ (0, m)
  pub keeps_length :
      (key : List ℕ) (iv : Option (List ℕ)) (m : List ℕ)
      → length (crypto.aes_cbc_encrypt key iv m).1 ≡ length m

module _ (crypto : Crypto) where
  -- `verify` accepts a tag exactly if `authenticate` succeeds on the message and its tag is the first
  -- 16 bytes of the one given, for protocol 1, or the first 32, for protocol 2.
  pub verify-authenticate :
      (protocol : ℕ) (key message sign : List ℕ)
      → (verify crypto protocol key message sign ≡ true)
        ↔ (authenticate crypto protocol key message ≡ (0, block (tag_size protocol) sign))
  unfolding verify authenticate
  verify-authenticate protocol key message sign =
      let hmac = (crypto.hmac_sha256 (block 32 key) message).1 in
      (
        λ h. ground (arith, memcmp_eq_iff sign hmac 16, memcmp_eq_iff sign hmac 32),
        λ h. ground (arith, memcmp_eq_iff sign hmac 16, memcmp_eq_iff sign hmac 32),
      )

  module _ (aes : IsAesCbc crypto) where
    -- What was encrypted under either protocol is decrypted again, into any array with room for it, whose other bytes
    -- stay as they were.
    pub decrypt-encrypt :
        (protocol : ℕ) (key iv m : List ℕ) (room : ℕ) (before : List ℕ)
        → known_protocol protocol ≡ true
        → length iv ≡ iv_size
        → length m ≤ room
        → decrypt crypto protocol key (encrypt crypto protocol key iv m).1 room before
          ≡ wrote 0 (m ++ drop (length m) (block room before))
    unfolding decrypt encrypt
    decrypt-encrypt protocol key iv m room before k l r =
        let key' = block 32 (drop 32 key) in
        let c = (crypto.aes_cbc_encrypt key' (some iv) m).1 in
        ground (
          arith,
          block-length m (length m) (omega arith),
          aes.decrypts (block 32 key) none m,
          aes.keeps_length (block 32 key) none m,
          aes.decrypts key' (some iv) m,
          aes.keeps_length key' (some iv) m,
          block-append iv c 16 l,
          drop-append iv c 16 l,
          length-append iv c,
        )
