-- ===== src/Keys/Curves.antt =====
-- fido.c, lines 96 to 172: the curves, and the key of a credential.
use pico_fido_microkey.Base.{
  ℕ, zero, suc, ◌≡◌, arith, bit_or, Bool, not, Option, none, some, List, [], ◌∷◌, ◌++◌, block, drop,
  byte_at, ◌==◌, if◌then◌else◌,
}
use pico_fido_microkey.Keys.{Fido, KeySdk, derived}

-- `mbedtls_ecp_group_id`, as far as the code names its values; `none` stands for the others.
pub data EcpGroup : Type 0 where
  secp256r1 secp384r1 secp521r1 secp256k1 curve25519 curve448 ed25519 ed448 : EcpGroup

-- `fido_curve_to_mbedtls`; `eddsa` is whether MBEDTLS_EDDSA_C is defined.
unfoldable pub fido_curve_to_mbedtls : Bool → ℕ → Option EcpGroup
fido_curve_to_mbedtls eddsa curve =
    if curve == 1
    then some secp256r1
    else if curve == 2
    then some secp384r1
    else if curve == 3
    then some secp521r1
    else if curve == 8
    then some secp256k1
    else if curve == 4
    then some curve25519
    else if curve == 5
    then some curve448
    else if not eddsa
    then none
    else if curve == 6
    then some ed25519
    else if curve == 7
    then some ed448
    else none

-- `mbedtls_curve_to_fido`; `dp_curve25519` is the number of MBEDTLS_ECP_DP_CURVE25519.
unfoldable pub mbedtls_curve_to_fido : ℕ → Bool → EcpGroup → ℕ
mbedtls_curve_to_fido dp_curve25519 eddsa secp256r1 = 1
mbedtls_curve_to_fido dp_curve25519 eddsa secp384r1 = 2
mbedtls_curve_to_fido dp_curve25519 eddsa secp521r1 = 3
mbedtls_curve_to_fido dp_curve25519 eddsa secp256k1 = 8
mbedtls_curve_to_fido dp_curve25519 eddsa curve25519 = dp_curve25519
mbedtls_curve_to_fido dp_curve25519 eddsa curve448 = 5
mbedtls_curve_to_fido dp_curve25519 eddsa ed25519 = if eddsa then 6 else 0
mbedtls_curve_to_fido dp_curve25519 eddsa ed448 = if eddsa then 7 else 0

-- The curve of a credential is the one that is told to the platform, except for X25519, for which the
-- number of mbedtls is told: whatever curve is taken, its number comes back, or it is 4.
pub mbedtls_curve_to_fido-back :
    (dp : ℕ) (eddsa : Bool) (curve : ℕ) (group : EcpGroup)
    → fido_curve_to_mbedtls eddsa curve ≡ some group
    → mbedtls_curve_to_fido dp eddsa group ≡ (if curve == 4 then dp else curve)
unfolding fido_curve_to_mbedtls mbedtls_curve_to_fido
mbedtls_curve_to_fido-back dp eddsa curve group h = ground arith

module _ (sdk : KeySdk) (ecp_load : EcpGroup → List ℕ → Option (List ℕ)) where
  -- An entry of the path with its top bit set.
  unfoldable pub with_top_bits : ℕ → List ℕ → List ℕ
  with_top_bits zero path = []
  with_top_bits (suc n) path =
      block 3 path ++ bit_or (byte_at path 3) 0x80 ∷ with_top_bits n (drop 4 path)

  -- The path of a credential: 0x80000000 | 10022, and seven entries of its identifier.
  unfoldable pub credential_path : List ℕ → List ℕ
  credential_path id = 0x26 ∷ 0x27 ∷ 0x00 ∷ 0x80 ∷ with_top_bits 7 (drop 4 id)

  -- `fido_load_key`: the public key. `ecp_load` stands for the curve operations at the end of
  -- `derive_key`, from the 67 bytes that were derived.
  unfoldable pub fido_load_key : Bool → ℕ → List ℕ → Fido → Option (List ℕ)
  fido_load_key eddsa curve id s = elim (fido_curve_to_mbedtls eddsa curve) [
    | none ↦ none
    | some group ↦ elim (derived sdk s (credential_path id)) [
      | none ↦ none
      | some outk ↦ ecp_load group outk
    ]
  ]
