-- ===== src/Credential/Encode.antt =====
-- credential.c, lines 86 to 181: a credential identifier is made.
use pico_fido_microkey.Base.{
  ℕ, ◌+◌, Bool, true, false, not, ◌||◌, Option, none, some, List, [], ◌∷◌, ◌++◌, length, block,
  replicate, ltb, leb, ◌==◌, if◌then◌else◌,
}
use pico_fido_microkey.Base.Exec.{Exec, gets, guard, modify, pure, ◌>>=◌, ◌>>◌}
use pico_fido_microkey.Ctap.{CtapError, encoding_full, ctap1_other, memory_fault}
use pico_fido_microkey.Cbor.{Item, Items, uint, nint, text, bytes, boolean, fields, done, next}
use pico_fido_microkey.Keys.{Fido}
use pico_fido_microkey.Credential.{
  CredSdk, cred_proto_22_s, credential_silent_tag, derive_chacha_key,
}

-- CredExtensions and CredOptions, as far as a credential keeps them; an option that is not given is
-- none.
pub record CredExtensions : Type 0 where
  pub hmac_secret : Option Bool
  pub cred_protect : ℕ
  pub cred_blob : Option (List ℕ)
  pub large_blob_key : Option Bool
  pub third_party_payment : Option Bool

-- `Credential`, without the identifier; `extensions` and `rk` are none if they are not present.
pub record CredData : Type 0 where
  pub rp_id : Option (List ℕ)
  pub user_id : Option (List ℕ)
  pub user_name : Option (List ℕ)
  pub user_display_name : Option (List ℕ)
  pub creation : ℕ
  pub extensions : Option CredExtensions
  pub use_sign_count : Option Bool
  pub alg : Item
  pub curve : Item
  -- `opts.present`, and `opts.rk`
  pub opts : Option (Option Bool)

-- FIDO2_ALG_ES256 is -7, FIDO2_CURVE_P256 is 1.
abbrev pub alg_es256 : Item
alg_es256 = nint 6

abbrev pub curve_p256 : Item
curve_p256 = uint 1

abbrev pub max_cred_blob_length : ℕ
max_cred_blob_length = 128

-- A C string ends before its first zero.
unfoldable pub c_string : List ℕ → List ℕ
c_string [] = []
c_string (x ∷ s) = let rest = c_string s in if x == 0 then [] else x ∷ rest

-- CBOR_APPEND_KEY_UINT_VAL_STRING and _BYTES: an empty value is left out.
abbrev pub put_text : ℕ → Option (List ℕ) → Items → Items
put_text k none rest = rest
put_text k (some []) rest = rest
put_text k (some (x ∷ s)) rest = next (uint k) (next (text (c_string (x ∷ s))) rest)

abbrev pub put_bytes : ℕ → Option (List ℕ) → Items → Items
put_bytes k none rest = rest
put_bytes k (some []) rest = rest
put_bytes k (some (x ∷ b)) rest = next (uint k) (next (bytes (x ∷ b)) rest)

abbrev pub put_if : Bool → Item → Item → Items → Items
put_if b k v rest = if b then next k (next v rest) else rest

-- The keys of the extensions, as ASCII.
abbrev pub cred_blob_key : List ℕ
cred_blob_key = 99 ∷ 114 ∷ 101 ∷ 100 ∷ 66 ∷ 108 ∷ 111 ∷ 98 ∷ []

abbrev pub cred_protect_key : List ℕ
cred_protect_key = 99 ∷ 114 ∷ 101 ∷ 100 ∷ 80 ∷ 114 ∷ 111 ∷ 116 ∷ 101 ∷ 99 ∷ 116 ∷ []

abbrev pub hmac_secret_key : List ℕ
hmac_secret_key = 104 ∷ 109 ∷ 97 ∷ 99 ∷ 45 ∷ 115 ∷ 101 ∷ 99 ∷ 114 ∷ 101 ∷ 116 ∷ []

abbrev pub large_blob_key_key : List ℕ
large_blob_key_key = 108 ∷ 97 ∷ 114 ∷ 103 ∷ 101 ∷ 66 ∷ 108 ∷ 111 ∷ 98 ∷ 75 ∷ 101 ∷ 121 ∷ []

-- "thirdPartyPayment"
abbrev pub third_party_key : List ℕ
third_party_key =
    116 ∷ 104 ∷ 105 ∷ 114 ∷ 100 ∷ 80 ∷ 97 ∷ 114 ∷ 116 ∷ 121 ∷ 80 ∷ 97 ∷ 121 ∷ 109 ∷ 101 ∷ 110 ∷ 116
    ∷ []

abbrev pub rk_key : List ℕ
rk_key = 114 ∷ 107 ∷ []

abbrev pub is_true : Option Bool → Bool
is_true (some b) = b
is_true none = false

abbrev pub put_blob : Option (List ℕ) → Items → Items
put_blob none rest = rest
put_blob (some b) rest =
    put_if (ltb (length b) max_cred_blob_length) (text cred_blob_key) (bytes b) rest

abbrev pub put_hmac_secret : Option Bool → Items → Items
put_hmac_secret none rest = rest
put_hmac_secret (some b) rest = next (text hmac_secret_key) (next (boolean b) rest)

unfoldable pub extension_items : CredExtensions → Items
extension_items e = put_blob e.cred_blob (
    put_if (not (e.cred_protect == 0)) (text cred_protect_key) (uint e.cred_protect) (
      put_hmac_secret e.hmac_secret (
        put_if (is_true e.large_blob_key) (text large_blob_key_key) (boolean true)
          (put_if (is_true e.third_party_payment) (text third_party_key) (boolean true) done))))

abbrev pub put_extensions : Option CredExtensions → Items → Items
put_extensions none rest = rest
put_extensions (some e) rest = next (uint 0x07) (next (fields (extension_items e)) rest)

abbrev pub put_opts : Option (Option Bool) → Items → Items
put_opts none rest = rest
put_opts (some none) rest = next (uint 0x0b) (next (fields done) rest)
put_opts (some (some b)) rest =
    next (uint 0x0b) (next (fields (next (text rk_key) (next (boolean b) done))) rest)

-- Whether a key is for another algorithm or curve than the default one.
unfoldable pub is_special : Item → Item → Bool
is_special (nint a) (uint c) = not (a == 6) || not (c == 1)
is_special _ _ = true

abbrev pub put_key_type : Item → Item → Items → Items
put_key_type alg curve rest =
    if is_special alg curve
    then next (uint 0x09) (next alg (next (uint 0x0a) (next curve rest)))
    else rest

-- The map that an identifier holds, for the hash of the relying party.
unfoldable pub credential_items : CredData → List ℕ → Items
credential_items d rp_id_hash = put_text 0x01 d.rp_id (
    next (uint 0x02) (
      next (bytes rp_id_hash) (
        put_bytes 0x03 d.user_id (
          put_text 0x04 d.user_name (
            put_text 0x05 d.user_display_name (
              next (uint 0x06) (
                next (uint d.creation) (
                  put_extensions d.extensions (
                    next (uint 0x08) (
                      next (boolean (is_true d.use_sign_count))
                        (put_key_type d.alg d.curve (put_opts d.opts done))))))))))))

abbrev pub rp_bytes : Option (List ℕ) → List ℕ
rp_bytes (some r) = r
rp_bytes none = []

module _ (sdk : CredSdk) where
  -- The memory around a cipher text: format, nonce, cipher text, tag and silent tag. All 32 bytes of
  -- the silent tag are written, of which the identifier keeps 16.
  unfoldable pub assemble : List ℕ → List ℕ → List ℕ → List ℕ → List ℕ
  assemble iv cipher tag rp_id_hash =
      let front = cred_proto_22_s ++ (block 12 iv ++ (cipher ++ block 16 tag)) in
      front ++ credential_silent_tag sdk (front ++ replicate 16 0) rp_id_hash

  -- What is sealed: `rs` also counts the 16 bytes in front of the encoding, so that 16 bytes behind it
  -- are taken along.
  unfoldable pub sealed_text : List ℕ → Fido → List ℕ
  sealed_text plain s = plain ++ block 16 (sdk.beyond s.device.draws)

  -- `credential_create`. The caller's array has 1024 bytes, and the encoding may have 992: with more than
  -- 976 the tag goes past the end, with more than 944 the silent tag does.
  unfoldable pub credential_create : CredData → Exec Fido CtapError (List ℕ)
  credential_create d = do
    s ← gets (λ s. s)
    let rp_id_hash = block 32 (sdk.keys.crypto.sha256 (rp_bytes d.rp_id)).1
    let plain = sdk.encode (credential_items d rp_id_hash)
    guard (leb (length plain) 992) encoding_full
    let sealed = sealed_text plain s
    let iv = block 12 (sdk.keys.crypto.random_gen s.device.draws 12)
    let key = (derive_chacha_key sdk s cred_proto_22_s).1
    let (ret, out) = sdk.seal key iv rp_id_hash sealed
    modify (λ t. record t { device = record t.device { draws = t.device.draws + 1 } })
    guard (leb (length plain) 976) memory_fault
    guard (ret == 0) ctap1_other
    guard (leb (length plain) 944) memory_fault
    pure (block (length sealed + 48) (assemble iv (block (length sealed) out.0) out.1 rp_id_hash))
