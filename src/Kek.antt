-- ===== src/Kek.antt =====
-- kek.c: the master key file, masked by the chip's key and encrypted under the session PIN. A
-- master key is 52 bytes: an initialisation vector of 16, the key of 32 and its checksum of 4.
pub mod Laws
pub mod Data
use pico_fido_microkey.Base.{
  ℕ, zero, suc, ◌+◌, ◌-◌, ◌*◌, ◌/◌, ◌%◌, ◌^◌, bit_xor, Bool, true, false, Option, none, some, List,
  [], ◌∷◌, ◌++◌, length, drop, block, read_bytes, bytes_eq, ◌==◌, if◌then◌else◌,
}
use pico_fido_microkey.Base.Exec.{Result, ok, err, Exec}
use pico_fido_microkey.Sdk.{has_data}
use pico_fido_microkey.Files.{ef_mkek}
use pico_fido_microkey.Ctap.{KekError, exec_error, wrong_dkek, file_not_found}
use pico_fido_microkey.Device.{Device, Crypto}

abbrev pub mkek_size : ℕ
mkek_size = 52

abbrev poly : ℕ
poly = 0xedb8_8320

-- Eight rounds of `crc = (crc >> 1) ^ (POLY & (0 - (crc & 1)))`.
unfoldable pub crc32c_bits : ℕ → ℕ → ℕ
crc32c_bits zero crc = crc
crc32c_bits (suc k) crc = crc32c_bits k (if crc % 2 == 1 then bit_xor (crc / 2) poly else crc / 2)

unfoldable pub crc32c_loop : ℕ → List ℕ → ℕ
unfolding crc32c_bits
crc32c_loop crc [] = crc
crc32c_loop crc (b ∷ buf) = crc32c_loop (crc32c_bits 8 (bit_xor crc b)) buf

unfoldable pub crc32c : List ℕ → ℕ
unfolding crc32c_loop
crc32c buf = 2 ^ 32 - 1 - crc32c_loop 0xffff_ffff buf

-- The four bytes of a uint32_t in memory.
unfoldable pub le32 : ℕ → List ℕ
le32 v = v % 256 ∷ v / 2 ^ 8 % 256 ∷ v / 2 ^ 16 % 256 ∷ v / 2 ^ 24 % 256 ∷ []

abbrev pub mkek_iv : List ℕ → List ℕ
mkek_iv m = block 16 m

abbrev pub mkek_key : List ℕ → List ℕ
mkek_key m = read_bytes m 16 32

abbrev pub mkek_checksum : List ℕ → List ℕ
mkek_checksum m = read_bytes m 48 4

-- `data[i] ^= mask[i]`
unfoldable pub xor_bytes : List ℕ → List ℕ → List ℕ
xor_bytes [] mask = []
xor_bytes (x ∷ xs) [] = x ∷ xs
xor_bytes (x ∷ xs) (m ∷ mask) = bit_xor x m ∷ xor_bytes xs mask

-- `mask == NULL` is `none`.
unfoldable pub mkek_masked : List ℕ → Option (List ℕ) → List ℕ
unfolding xor_bytes
mkek_masked m none = m
mkek_masked m (some mask) = mkek_iv m ++ (xor_bytes (mkek_key m) mask ++ mkek_checksum m)

module _ (crypto : Crypto) where
  -- `aes_decrypt_cfb_256` on the key and the checksum in place, the check, and the chip's mask.
  unfoldable pub open_mkek : List ℕ → List ℕ → Result KekError (List ℕ)
  open_mkek session_pin m =
      let (ret, plain) = crypto.aes_decrypt_cfb_256 session_pin (mkek_iv m) (read_bytes m 16 36) in
      let opened = mkek_iv m ++ block 36 plain in
      if ret == 0
      then (if bytes_eq (le32 (crc32c (mkek_key opened))) (mkek_checksum opened)
          then ok (mkek_masked opened crypto.otp_key_1)
          else err wrong_dkek)
      else err exec_error

  -- The caller's array is all zeros. In mkek_encrypt and mkek_decrypt it is not initialised, which shows
  -- only if EF_MKEK is empty: start-up never leaves it so.
  unfoldable pub load_mkek : Exec Device KekError (List ℕ)
  unfolding open_mkek
  load_mkek s =
      let tf = s.files ef_mkek in
      let mkek = block mkek_size tf in
      let mkek' = if s.has_mkek_mask then mkek_masked mkek (some s.mkek_mask) else mkek in
      (if length tf == mkek_size then open_mkek s.session_pin mkek' else ok mkek', s)

  -- The checksum in place, and the encryption of the key and the checksum; the return code of the
  -- encryption is not looked at.
  unfoldable pub seal_mkek : List ℕ → List ℕ → List ℕ
  seal_mkek session_pin mkek =
      let tmp = mkek_masked mkek crypto.otp_key_1 in
      let (ret, cipher) =
        crypto.aes_encrypt_cfb_256 session_pin (mkek_iv tmp)
          (mkek_key tmp ++ le32 (crc32c (mkek_key tmp))) in
      mkek_iv tmp ++ block 36 cipher

  unfoldable pub store_sealed : List ℕ → Exec Device KekError (Unit {0})
  store_sealed mkek s =
      if crypto.search_file ef_mkek
      then (
        ok tt,
        record s {
          files = crypto.flash.file_put_data s.files ef_mkek (seal_mkek s.session_pin mkek);
        },
      )
      else (err file_not_found, s)

  -- With no key given, a new one is drawn.
  unfoldable pub store_mkek : Option (List ℕ) → Exec Device KekError (Unit {0})
  unfolding store_sealed
  store_mkek none s =
      store_sealed (block mkek_size (crypto.random_gen s.draws 48))
        (record s { draws = s.draws + 1 })
  store_mkek (some mkek) s = store_sealed (block mkek_size mkek) s

  -- The caller's data under the master key: the return code of the cipher, and the data. The master
  -- key is read each time.
  unfoldable pub mkek_encrypt : List ℕ → Exec Device KekError (ℕ × List ℕ)
  mkek_encrypt d s = elim (load_mkek s).0 [
    | ok mkek ↦ (ok (crypto.aes_encrypt_cfb_256 (mkek_key mkek) (mkek_iv mkek) d), s)
    | err e ↦ (err e, s)
  ]

  unfoldable pub mkek_decrypt : List ℕ → Exec Device KekError (ℕ × List ℕ)
  mkek_decrypt d s = elim (load_mkek s).0 [
    | ok mkek ↦ (ok (crypto.aes_decrypt_cfb_256 (mkek_key mkek) (mkek_iv mkek) d), s)
    | err e ↦ (err e, s)
  ]
