-- ===== src/ClientPin/Protocol.antt =====
-- cbor_client_pin.c, lines 120 to 251: the two PIN/UV auth protocols. A function that the source
-- ends with `return -1` gives the code `bad_protocol`.
pub mod Laws
use Prim.Native.String.{String}
use Prim.Native.Char.{code}
use pico_fido_microkey.Base.{
  ℕ, ◌-◌, Bool, false, ◌||◌, none, some, List, [], ◌∷◌, ◌++◌, length, drop, block, memcmp_eq, ltb,
  ◌==◌, if◌then◌else◌,
}
use pico_fido_microkey.Ctap.{iv_size}
use pico_fido_microkey.Device.{Crypto}

-- The bytes of an ASCII literal.
abbrev codes : String → List ℕ
codes String.[] = []
codes (String.◌∷◌ c s) = code c ∷ codes s

abbrev pub bad_protocol : ℕ
bad_protocol = 1

-- What writing an array ends with: the return code and the bytes, or a write past its end.
pub data Written : Type 0 where
  overrun : Written
  wrote : ℕ → List ℕ → Written

module _ (crypto : Crypto) where
  -- HKDF for the two keys, one behind the other.
  unfoldable pub kdf2 : List ℕ → ℕ × List ℕ
  kdf2 buf =
      let (ret, hmac_key) = crypto.hkdf_sha256 buf (codes "CTAP2 HMAC key") in
      let (ret', aes_key) = crypto.hkdf_sha256 buf (codes "CTAP2 AES key") in
      if ret == 0 then (ret', block 32 hmac_key ++ block 32 aes_key) else (ret, hmac_key)

  -- `kdf` on the integer `z`: the return code and the shared secret.
  unfoldable pub kdf : ℕ → ℕ → ℕ × List ℕ
  unfolding kdf2
  kdf protocol z =
      let (ret, buf) = crypto.mpi_write_binary z in
      if ret == 0
      then (if protocol == 1
          then crypto.sha256 buf
          else if protocol == 2
          then kdf2 buf
          else (bad_protocol, []))
      else (ret, [])

  -- The return code of the point multiplication is overwritten.
  unfoldable pub ecdh : ℕ → List ℕ → List ℕ → List ℕ → ℕ × List ℕ
  unfolding kdf
  ecdh protocol hkey x y = let (ret, z) = crypto.compute_shared hkey x y in kdf protocol z

  -- `encrypt` on a 32-byte secret or any other input; `iv` are the bytes drawn for protocol 2.
  unfoldable pub encrypt : ℕ → List ℕ → List ℕ → List ℕ → ℕ × List ℕ
  encrypt protocol key iv input =
      if protocol == 1
      then crypto.aes_cbc_encrypt (block 32 key) none input
      else if protocol == 2
      then (let (ret, out) = crypto.aes_cbc_encrypt (block 32 (drop 32 key)) (some iv) input in
          (ret, iv ++ out))
      else (bad_protocol, [])

  unfoldable pub decrypt_iv : List ℕ → List ℕ → ℕ × List ℕ
  decrypt_iv key input =
      crypto.aes_cbc_decrypt (block 32 (drop 32 key)) (some (block iv_size input))
        (drop iv_size input)

  -- The array of which the first `n` bytes are decrypted, and the others are as they were.
  unfoldable pub wrote_of : ℕ → List ℕ → ℕ × List ℕ → Written
  wrote_of n array (ret, out) = wrote ret (block n out ++ drop n array)

  -- `decrypt` into an array of `room` bytes, and what it held before. Protocol 1 copies `in_len` bytes
  -- there, protocol 2 `in_len - 16`, which is a huge number if `in_len` is below 16.
  unfoldable pub decrypt : ℕ → List ℕ → List ℕ → ℕ → List ℕ → Written
  unfolding decrypt_iv wrote_of
  decrypt protocol key input room before =
      if protocol == 1
      then (if ltb room (length input)
          then overrun
          else wrote_of (length input) (block room before)
              (crypto.aes_cbc_decrypt (block 32 key) none input))
      else if protocol == 2
      then (if ltb (length input) iv_size || ltb room (length input - iv_size)
          then overrun
          else wrote_of (length input - iv_size) (block room before) (decrypt_iv key input))
      else wrote bad_protocol []

  -- `authenticate`: the return code and the tag.
  unfoldable pub authenticate : ℕ → List ℕ → List ℕ → ℕ × List ℕ
  authenticate protocol key message =
      let (ret, hmac) = crypto.hmac_sha256 (block 32 key) message in
      if ret == 0
      then (if protocol == 1
          then (0, block 16 hmac)
          else if protocol == 2
          then (0, block 32 hmac)
          else (bad_protocol, []))
      else (ret, [])

  -- `verify(...) == 0`. A tag that is shorter than what is compared is read past its end; zeros stand
  -- for what is there.
  unfoldable pub verify : ℕ → List ℕ → List ℕ → List ℕ → Bool
  verify protocol key message sign =
      let (ret, hmac) = crypto.hmac_sha256 (block 32 key) message in
      if ret == 0
      then (if protocol == 1
          then memcmp_eq sign hmac 16
          else if protocol == 2
          then memcmp_eq sign hmac 32
          else false)
      else false
