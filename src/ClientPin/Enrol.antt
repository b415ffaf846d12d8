-- ===== src/ClientPin/Enrol.antt =====
-- What setPIN and changePIN of cbor_client_pin.c leave in flash.
use pico_fido_microkey.Base.{
  ap, ◌∙◌, take, ℕ, zero, suc, ◌≤◌, ◌≡◌, subst, arith, true, false, ◌==◌, byte_at, length, List, [],
  ◌∷◌, inl, inr, block, read_bytes, memcmp_eq-block, some, none, Option, block-block, if◌then◌else◌,
}
use pico_fido_microkey.Base.Exec.{Result, ok, is_ok, Result-cases}
use pico_fido_microkey.Sdk.{IsFlash, Contents}
use pico_fido_microkey.Files.{ef_pin, ef_mkek}
use pico_fido_microkey.Ctap.{CtapError}
use pico_fido_microkey.Device.{Device, Crypto}
use pico_fido_microkey.ClientPin.Protocol.{Written, overrun, wrote, decrypt, ecdh}
use pico_fido_microkey.ClientPin.Params.{Params}
use pico_fido_microkey.ClientPin.Checks.{
  check_set, TokenRequest, check_set-SetAccepted, check_token, check_token-TokenAccepted,
}
use pico_fido_microkey.ClientPin.Steps.{
  pin_hash, pin_retries, must_change, new_pin_data, pin_digest, pin_length, min_pin_length,
}
use pico_fido_microkey.ClientPin.Retries.{decrypts_to_pin, check_mkek_encrypted-file}
use pico_fido_microkey.ClientPin.Grant.{get_pin_token_right}
use pico_fido_microkey.ClientPin.Commands.{Reply, empty, enrol_pin, set_pin, get_pin_token}

-- The loop over the padded PIN stops before its end if the last byte is 0.
pub pin_length-lt : (padded : List ℕ) (n : ℕ) → byte_at padded n ≡ 0 → pin_length padded ≤ n
unfolding pin_length
pin_length-lt [] n h = omega arith
pin_length-lt (b ∷ padded) zero h = ground arith
pin_length-lt (b ∷ padded) (suc n) h = ground (arith, pin_length-lt padded n h)

-- EF_PIN holds the entry for a PIN of the length that the policy wants.
pub record Enrolled (crypto : Crypto) (c : Contents) (least : ℕ) (padded : List ℕ) : Type 0 where
  pub entry : c ef_pin ≡ new_pin_data crypto padded
  pub retries : pin_retries c ≡ 8
  pub hash :
      pin_hash c
      ≡ block 32
          (crypto.double_hash_pin (block 16 (crypto.sha256 (take (pin_length padded) padded)).1))
  pub long_enough : least ≤ pin_length padded
  pub short_enough : pin_length padded ≤ 63

module _ (crypto : Crypto) where
  hash-new_pin_data :
      (padded : List ℕ)
      → read_bytes (new_pin_data crypto padded) 2 32
        ≡ block 32 (crypto.double_hash_pin (block 16 (pin_digest crypto padded)))
  unfolding new_pin_data read_bytes
  hash-new_pin_data padded = block-block 32 _

  retries-entry :
      (padded : List ℕ) (c : Contents) → c ef_pin ≡ new_pin_data crypto padded → pin_retries c ≡ 8
  unfolding new_pin_data
  retries-entry padded c e = ap (λ f. byte_at f 0) e

  hash-entry :
      (padded : List ℕ) (c : Contents)
      → c ef_pin ≡ new_pin_data crypto padded
      → pin_hash c
        ≡ block 32
            (crypto.double_hash_pin (block 16 (crypto.sha256 (take (pin_length padded) padded)).1))
  unfolding pin_digest
  hash-entry padded c e = ap (λ f. read_bytes f 2 32) e ∙ hash-new_pin_data padded

  -- The hash of the new PIN, tried later, is found to be the right one.
  pub new_pin_matches :
      (padded out : List ℕ) (c : Contents)
      → c ef_pin ≡ new_pin_data crypto padded
      → block 16 out ≡ block 16 (pin_digest crypto padded)
      → decrypts_to_pin crypto (wrote 0 out) (pin_hash c) ≡ true
  new_pin_matches padded out c f e = rw (f, hash-new_pin_data, e) (memcmp_eq-block _ 32)

  abbrev pub plain_of : Written → Option (List ℕ)
  plain_of overrun = none
  plain_of (wrote ret out) = if ret == 0 then some out else none

  -- The padded PIN that a setPIN request carries, under the shared secret.
  abbrev pub new_pin_of : Params → Device → Option (List ℕ)
  new_pin_of p s = elim p.key.kax [
    | none ↦ none
    | some x ↦ elim p.key.kay [
      | none ↦ none
      | some y ↦ elim p.new_pin_enc [
        | none ↦ none
        | some enc ↦
            let protocol = p.pin_uv_auth_protocol in
            plain_of (
              decrypt crypto protocol (ecdh crypto protocol s.hkey x y).1 enc 64
                (crypto.stack s.draws))
      ]
    ]
  ]

  module _ (laws : IsFlash crypto.flash) where
    enrol_pin_entry :
        (protocol : ℕ) (key enc : List ℕ) (s : Device) (padded : List ℕ)
        → is_ok (enrol_pin crypto protocol key enc s).0 ≡ true
        → plain_of (decrypt crypto protocol key enc 64 (crypto.stack s.draws)) ≡ some padded
        → (enrol_pin crypto protocol key enc s).1.files ef_pin ≡ new_pin_data crypto padded
    unfolding enrol_pin
    enrol_pin_entry protocol key enc s padded h d =
        grind (arith, check_mkek_encrypted-file crypto laws, laws.put_lem)

    enrol_pin-Enrolled :
        (protocol : ℕ) (key enc : List ℕ) (s : Device) (padded : List ℕ)
        → is_ok (enrol_pin crypto protocol key enc s).0 ≡ true
        → plain_of (decrypt crypto protocol key enc 64 (crypto.stack s.draws)) ≡ some padded
        → Enrolled crypto
            (enrol_pin crypto protocol key enc s).1.files
            (min_pin_length s.files)
            padded
    unfolding enrol_pin
    enrol_pin-Enrolled protocol key enc s padded h d = record {
      entry = enrol_pin_entry protocol key enc s padded h d;
      retries =
          retries-entry padded (enrol_pin crypto protocol key enc s).1.files
            (enrol_pin_entry protocol key enc s padded h d);
      hash =
          hash-entry padded (enrol_pin crypto protocol key enc s).1.files
            (enrol_pin_entry protocol key enc s padded h d);
      long_enough = ground arith;
      short_enough = ground (arith, pin_length-lt padded 63);
    }

    -- A successful setPIN leaves the entry of the PIN that the request carried, with all 8 retries and
    -- the double hash of the first 16 bytes of its digest; the PIN has at least the minimum length and
    -- at most 63 bytes.
    pub set_pin-Enrolled :
        (p : Params) (s : Device) (padded : List ℕ)
        → is_ok (set_pin crypto p s).0 ≡ true
        → new_pin_of p s ≡ some padded
        → Enrolled crypto (set_pin crypto p s).1.files (min_pin_length s.files) padded
    unfolding set_pin
    set_pin-Enrolled p s padded h n = elim (Result-cases (check_set p s.files)) [
      | inl (q, e) ↦
          let secret = (ecdh crypto p.pin_uv_auth_protocol s.hkey q.x q.y).1 in
          ground (
            arith,
            check_set-SetAccepted p s.files q e,
            enrol_pin-Enrolled p.pin_uv_auth_protocol secret q.new_pin_enc s padded,
          )
      | inr (r, e) ↦ ground arith
    ]

    entry_of :
        (p : Params) (s t : Device) (padded : List ℕ)
        → set_pin crypto p s ≡ (ok empty, t)
        → new_pin_of p s ≡ some padded
        → t.files ef_pin ≡ new_pin_data crypto padded
    entry_of p s t padded h n =
        subst
          (λ (r : Result CtapError Reply × Device). r.1.files ef_pin ≡ new_pin_data crypto padded) h
          (set_pin-Enrolled p s padded (rw h) n).entry

    -- After a successful setPIN, a well-formed getPinToken that carries the hash of that PIN gets a
    -- token, if the master key is encrypted and no PIN change is forced.
    pub set_pin_then_token :
        (now : ℕ) (p p' : Params) (q : TokenRequest) (s t : Device) (padded out : List ℕ)
        → set_pin crypto p s ≡ (ok empty, t)
        → new_pin_of p s ≡ some padded
        → check_token p' t.files ≡ ok q
        → crypto.mpi_read_binary q.x ≡ 0
        → crypto.mpi_read_binary q.y ≡ 0
        → (ecdh crypto p'.pin_uv_auth_protocol t.hkey q.x q.y).0 ≡ 0
        → decrypt crypto p'.pin_uv_auth_protocol
            (ecdh crypto p'.pin_uv_auth_protocol t.hkey q.x q.y).1
            q.pin_hash_enc
            64
            (crypto.stack t.draws)
          ≡ wrote 0 out
        → block 16 out ≡ block 16 (pin_digest crypto padded)
        → (length (t.files ef_mkek) == 48) ≡ false
        → must_change t.files ≡ false
        → is_ok (get_pin_token crypto now p' t).0 ≡ true
    set_pin_then_token now p p' q s t padded out h n e hx hy hs d b k f =
        let acc = check_token-TokenAccepted p' t.files q e in
        get_pin_token_right crypto laws now p' q t e hx hy hs
          (rw (acc.kax, acc.kay, acc.hash, d)
            (new_pin_matches padded out t.files (entry_of p s t padded h n) b))
          k f
