-- ===== src/Kek/Laws.antt =====
-- A master key that is stored is loaded again under the same session PIN.
use pico_fido_microkey.Base.{
  ℕ, suc, ◌<◌, ◌≡◌, refl, ap, ◌∙◌, true, false, arith, Option, none, some, List, [], ◌∷◌, ◌++◌,
  length, read_bytes, bytes_eq_refl, bit_xor-bit_xor, length-block, block-append, block-length,
  drop-append, length-append, length-read_bytes,
}
use mathlib.Core.List.{append_assoc}
use pico_fido_microkey.Base.Exec.{Result, ok, err}
use pico_fido_microkey.Sdk.{IsFlash}
use pico_fido_microkey.Files.{ef_mkek}
use pico_fido_microkey.Ctap.{KekError}
use pico_fido_microkey.Device.{Device, Crypto}
use pico_fido_microkey.Kek.{
  mkek_iv, mkek_key, mkek_checksum, xor_bytes, mkek_masked, crc32c, le32, open_mkek, load_mkek,
  seal_mkek, store_mkek,
}

-- AES-CFB keeps the length, and decryption undoes encryption.
pub record IsAesCfb (crypto : Crypto) : Type 0 where
  pub decrypts :
      (key iv m : List ℕ)
      → crypto.aes_decrypt_cfb_256 key iv (crypto.aes_encrypt_cfb_256 key iv m).1 ≡ (0, m)
  pub keeps_length : (key iv m : List ℕ) → length (crypto.aes_encrypt_cfb_256 key iv m).1 ≡ length m

abbrev pub AllBytes : List ℕ → Type 0
AllBytes [] = Unit
AllBytes (x ∷ xs) = (x < 256) × AllBytes xs

xor_bytes-xor_bytes :
    (xs mask : List ℕ) → AllBytes xs → AllBytes mask → xor_bytes (xor_bytes xs mask) mask ≡ xs
unfolding xor_bytes
xor_bytes-xor_bytes [] mask bx bm = refl
xor_bytes-xor_bytes (x ∷ xs) [] bx bm = refl
xor_bytes-xor_bytes (x ∷ xs) (m ∷ mask) bx bm =
    rw (bit_xor-bit_xor x m bx.0 bm.0, xor_bytes-xor_bytes xs mask bx.1 bm.1)

length-xor_bytes : (xs mask : List ℕ) → length (xor_bytes xs mask) ≡ length xs
unfolding xor_bytes
length-xor_bytes [] mask = refl
length-xor_bytes (x ∷ xs) [] = refl
length-xor_bytes (x ∷ xs) (m ∷ mask) = ap suc (length-xor_bytes xs mask)

-- The three parts of a master key.
module _ (a k c : List ℕ) (ha : length a ≡ 16) (hk : length k ≡ 32) (hc : length c ≡ 4) where
  iv_part : mkek_iv (a ++ (k ++ c)) ≡ a
  iv_part = block-append a (k ++ c) 16 ha

  key_part : mkek_key (a ++ (k ++ c)) ≡ k
  unfolding read_bytes
  key_part = rw (drop-append a (k ++ c) 16 ha) (block-append k c 32 hk)

  checksum_part : mkek_checksum (a ++ (k ++ c)) ≡ c
  unfolding read_bytes
  checksum_part =
      rw (← append_assoc a k c)
        (rw (drop-append (a ++ k) c 48 (omega (arith, length-append a k))) (block-length c 4 hc))

cipher_part : (a c : List ℕ) → length a ≡ 16 → length c ≡ 36 → read_bytes (a ++ c) 16 36 ≡ c
unfolding read_bytes
cipher_part a c ha hc = rw (drop-append a c 16 ha) (block-length c 36 hc)

abbrev pub OptionalBytes : Option (List ℕ) → Type 0
OptionalBytes none = Unit
OptionalBytes (some xs) = AllBytes xs

-- A key with the vector and the key of `m` was read.
abbrev pub Loads : Result KekError (List ℕ) → List ℕ → Type 0
Loads (ok loaded) m = (mkek_iv loaded ≡ mkek_iv m) × (mkek_key loaded ≡ mkek_key m)
Loads (err e) m = ⊥

masked_parts :
    (o : Option (List ℕ)) (m cs : List ℕ)
    → length cs ≡ 4
    → AllBytes (mkek_key m)
    → OptionalBytes o
    → Loads (ok (mkek_masked (mkek_iv (mkek_masked m o) ++ (mkek_key (mkek_masked m o) ++ cs)) o)) m
unfolding mkek_masked
masked_parts none m cs hc hb ho =
    let ha = length-block 16 m in
    let hk = length-read_bytes m 16 32 in
    (iv_part (mkek_iv m) (mkek_key m) cs ha hk hc, key_part (mkek_iv m) (mkek_key m) cs ha hk hc)
masked_parts (some mask) m cs hc hb ho =
    let ha = length-block 16 m in
    let x = xor_bytes (mkek_key m) mask in
    let hx : length x ≡ 32 = length-xor_bytes (mkek_key m) mask ∙ length-read_bytes m 16 32 in
    let cm = mkek_checksum m in
    let hm = length-read_bytes m 48 4 in
    let y = xor_bytes x mask in
    let hy : length y ≡ 32 = length-xor_bytes x mask ∙ hx in
    rw
      (
        iv_part (mkek_iv m) x cm ha hx hm,
        key_part (mkek_iv m) x cm ha hx hm,
        iv_part (mkek_iv m) x cs ha hx hc,
        key_part (mkek_iv m) x cs ha hx hc,
        checksum_part (mkek_iv m) x cs ha hx hc,
      )
      (
        iv_part (mkek_iv m) y cs ha hy hc,
        key_part (mkek_iv m) y cs ha hy hc ∙ xor_bytes-xor_bytes (mkek_key m) mask hb ho,
      )

module _ (crypto : Crypto) (cfb : IsAesCfb crypto) where
  sealed : List ℕ → List ℕ → List ℕ → List ℕ
  sealed pin a k = a ++ (crypto.aes_encrypt_cfb_256 pin a (k ++ le32 (crc32c k))).1

  length-le32 : (v : ℕ) → length (le32 v) ≡ 4
  unfolding le32
  length-le32 v = refl

  open-sealed :
      (pin a k : List ℕ)
      → length a ≡ 16
      → length k ≡ 32
      → open_mkek crypto pin (sealed pin a k)
        ≡ ok (mkek_masked (a ++ (k ++ le32 (crc32c k))) crypto.otp_key_1)
  unfolding open_mkek sealed
  open-sealed pin a k ha hk =
      let cs = le32 (crc32c k) in
      let c = (crypto.aes_encrypt_cfb_256 pin a (k ++ cs)).1 in
      let lcs : length cs ≡ 4 = length-le32 (crc32c k) in
      let lk : length (k ++ cs) ≡ 36 = omega (arith, length-append k cs) in
      let lc : length c ≡ 36 = cfb.keeps_length pin a (k ++ cs) ∙ lk in
      rw
        (
          block-append a c 16 ha,
          cipher_part a c ha lc,
          cfb.decrypts pin a (k ++ cs),
          block-length (k ++ cs) 36 lk,
          key_part a k cs ha hk lcs,
          checksum_part a k cs ha hk lcs,
        )
        (rw (bytes_eq_refl cs))

  -- What the file holds after a store.
  seal-sealed :
      (pin m : List ℕ)
      → seal_mkek crypto pin m
        ≡ sealed pin
            (mkek_iv (mkek_masked m crypto.otp_key_1))
            (mkek_key (mkek_masked m crypto.otp_key_1))
  unfolding seal_mkek sealed
  seal-sealed pin m =
      let tmp = mkek_masked m crypto.otp_key_1 in
      let plain = mkek_key tmp ++ le32 (crc32c (mkek_key tmp)) in
      ap (◌++◌ (mkek_iv tmp)) (
        block-length _ 36 (
          cfb.keeps_length pin (mkek_iv tmp) plain
          ∙ omega (
            arith,
            length-append (mkek_key tmp) (le32 (crc32c (mkek_key tmp))),
            length-read_bytes tmp 16 32,
            length-le32 (crc32c (mkek_key tmp)),
          )))

  length-sealed : (pin a k : List ℕ) → length a ≡ 16 → length k ≡ 32 → length (sealed pin a k) ≡ 52
  unfolding sealed
  length-sealed pin a k ha hk = omega (
    arith,
    length-append a (crypto.aes_encrypt_cfb_256 pin a (k ++ le32 (crc32c k))).1,
    cfb.keeps_length pin a (k ++ le32 (crc32c k)),
    length-append k (le32 (crc32c k)),
    length-le32 (crc32c k),
  )

  load_sealed :
      (a k : List ℕ) (t : Device)
      → length a ≡ 16
      → length k ≡ 32
      → t.has_mkek_mask ≡ false
      → t.files ef_mkek ≡ sealed t.session_pin a k
      → load_mkek crypto t ≡ (ok (mkek_masked (a ++ (k ++ le32 (crc32c k))) crypto.otp_key_1), t)
  unfolding load_mkek
  load_sealed a k t ha hk n e =
      let len = length-sealed t.session_pin a k ha hk in
      ground (
        arith,
        len,
        block-length (sealed t.session_pin a k) 52 len,
        open-sealed t.session_pin a k ha hk,
      )

  store_mkek-file :
      (laws : IsFlash crypto.flash) (m : List ℕ) (s : Device)
      → length m ≡ 52
      → crypto.search_file ef_mkek ≡ true
      → (store_mkek crypto (some m) s).1.files ef_mkek
        ≡ sealed
            (store_mkek crypto (some m) s).1.session_pin
            (mkek_iv (mkek_masked m crypto.otp_key_1))
            (mkek_key (mkek_masked m crypto.otp_key_1))
  unfolding store_mkek
  store_mkek-file laws m s hm f = ground (
    arith,
    block-length m 52 hm,
    laws.put_lem s.files ef_mkek (seal_mkek crypto s.session_pin m) ef_mkek,
    seal-sealed s.session_pin m,
  )

  pub store_mkek_mask :
      (m : List ℕ) (s : Device)
      → s.has_mkek_mask ≡ false
      → (store_mkek crypto (some m) s).1.has_mkek_mask ≡ false
  unfolding store_mkek
  store_mkek_mask m s n = ground arith

  -- A master key of 52 bytes that `store_mkek` writes is read again by `load_mkek` under the same
  -- session PIN, whether or not the chip has a key of its own: the same initialisation vector and the
  -- same key. The flash and AES-CFB behave, and no other mask is set.
  pub load-store_mkek :
      (laws : IsFlash crypto.flash) (m : List ℕ) (s : Device)
      → length m ≡ 52
      → AllBytes (mkek_key m)
      → OptionalBytes crypto.otp_key_1
      → crypto.search_file ef_mkek ≡ true
      → s.has_mkek_mask ≡ false
      → Loads (load_mkek crypto (store_mkek crypto (some m) s).1).0 m
  load-store_mkek laws m s hm hb ho f n =
      let tmp = mkek_masked m crypto.otp_key_1 in
      let a = mkek_iv tmp in
      let k = mkek_key tmp in
      let stored = store_mkek-file laws m s hm f in
      rw
        (load_sealed a k (store_mkek crypto (some m) s).1 (length-block 16 tmp)
          (length-read_bytes tmp 16 32) (store_mkek_mask m s n) stored)
        (masked_parts crypto.otp_key_1 m (le32 (crc32c k)) (length-le32 (crc32c k)) hb ho)
