-- ===== src/ClientPin/Steps.antt =====
-- cbor_client_pin.c: the steps that the subcommands share.
use pico_fido_microkey.Base.{
  ℕ, suc, ◌+◌, ◌%◌, Bool, true, false, not, ◌||◌, some, List, [], ◌∷◌, ◌++◌, length, take, block,
  read_bytes, byte_at, memcmp_eq, replicate, leb, ◌==◌, if◌then◌else◌,
}
use pico_fido_microkey.Base.Exec.{Result, ok, err, Exec, pure, ◌>>=◌, ◌>>◌}
use pico_fido_microkey.Sdk.{Contents, has_data}
use pico_fido_microkey.Files.{ef_pin, ef_minpinlen, ef_mkek}
use pico_fido_microkey.Ctap.{
  KekError, CtapError, invalid_parameter, pin_auth_invalid, pin_blocked, pin_auth_blocked,
  pin_invalid, memory_fault, max_pin_retries,
}
use pico_fido_microkey.Device.{Device, Crypto}
use pico_fido_microkey.Token.{regenerate}
use pico_fido_microkey.Kek.{store_mkek}
use pico_fido_microkey.ClientPin.Protocol.{Written, overrun, wrote, ecdh, decrypt}

abbrev pub Pin : Type 0 → Type 0
Pin A = Exec Device CtapError A

-- EF_PIN: the retries left, the length of the PIN and 32 bytes of its hash.
abbrev pub pin_retries : Contents → ℕ
pin_retries c = byte_at (c ef_pin) 0

abbrev pub pin_hash : Contents → List ℕ
pin_hash c = read_bytes (c ef_pin) 2 32

-- EF_MINPINLEN: the minimum length, and whether the PIN must be changed.
abbrev pub min_pin_length : Contents → ℕ
min_pin_length c = if has_data (c ef_minpinlen) then byte_at (c ef_minpinlen) 0 else 4

abbrev pub must_change : Contents → Bool
must_change c = if has_data (c ef_minpinlen) then byte_at (c ef_minpinlen) 1 == 1 else false

-- `while (padded[n] != 0 && n < 64) n++;`
unfoldable pub pin_length : List ℕ → ℕ
pin_length [] = 0
pin_length (b ∷ padded) = let rest = pin_length padded in if b == 0 then 0 else suc rest

-- `pin_data` is the first 34 bytes of EF_PIN; `pin_data[0]` is set.
abbrev pub with_retries : ℕ → Contents → List ℕ
with_retries n c = n ∷ read_bytes (c ef_pin) 1 33

abbrev pub from_written : Written → CtapError → Result CtapError (List ℕ)
from_written overrun e = err memory_fault
from_written (wrote ret out) e = if ret == 0 then ok out else err e

abbrev pub from_kek : {A : Type 0} → (KekError → CtapError) → Result KekError A → Result CtapError A
from_kek f (ok a) = ok a
from_kek f (err e) = err (f e)

module _ (crypto : Crypto) where
  abbrev pub write_file : ℕ → List ℕ → Device → Device
  write_file fid d s = record s { files = crypto.flash.file_put_data s.files fid d }

  -- The peer's point, and the secret shared with it.
  unfoldable pub agree : ℕ → List ℕ → List ℕ → Pin (List ℕ)
  agree protocol x y s =
      let (ret, secret) = ecdh crypto protocol s.hkey x y in
      (
        if not (crypto.mpi_read_binary x == 0) || not (crypto.mpi_read_binary y == 0)
            then err invalid_parameter
            else if ret == 0
            then ok secret
            else err invalid_parameter,
        s,
      )

  -- `decrypt` into `paddedNewPin[64]`, which is not initialised: what the request does not fill is what
  -- the stack holds.
  unfoldable pub decrypt_pin : ℕ → List ℕ → List ℕ → Pin (List ℕ)
  decrypt_pin protocol secret input s = (
    from_written (decrypt crypto protocol secret input 64 (crypto.stack s.draws)) pin_auth_invalid,
    s,
  )

  -- One try is spent, and that is written before the PIN is looked at: the retries left.
  unfoldable pub spend_retry : Pin ℕ
  spend_retry s =
      let left = (pin_retries s.files + 255) % 256 in
      (ok left, write_file ef_pin (with_retries left s.files) s)

  -- A wrong PIN: a new key pair, and the third mismatch in a row asks for a power cycle.
  unfoldable pub pin_mismatch : {A : Type 0} → ℕ → Pin A
  pin_mismatch retries s =
      let fresh = regenerate crypto s in
      let mismatches = (s.new_pin_mismatches + 1) % 256 in
      if retries == 0
      then (err pin_blocked, fresh)
      else if leb 3 mismatches
      then (
        err pin_auth_blocked,
        record fresh { new_pin_mismatches = mismatches; needs_power_cycle = true },
      )
      else (err pin_invalid, record fresh { new_pin_mismatches = mismatches })

  -- Goes on only if the hash of the decrypted PIN hash is the one stored.
  unfoldable pub check_pin : ℕ → List ℕ → Pin (Unit {0})
  check_pin retries padded s =
      if memcmp_eq (crypto.double_hash_pin (block 16 padded)) (pin_hash s.files) 32
      then (ok tt, s)
      else pin_mismatch retries s

  -- The current PIN is tried: the decrypted PIN hash, if it is the right one.
  unfoldable pub try_pin : ℕ → List ℕ → List ℕ → Pin (List ℕ)
  unfolding spend_retry decrypt_pin check_pin pin_mismatch
  try_pin protocol secret pin_hash_enc = do
    left ← spend_retry
    padded ← decrypt_pin protocol secret pin_hash_enc
    check_pin left padded
    pure padded

  -- The right PIN: all retries are back.
  unfoldable pub accept_pin : List ℕ → Device → Device
  accept_pin padded s = record s {
    session_pin = crypto.hash_multi (block 16 padded);
    new_pin_mismatches = 0;
    files = crypto.flash.file_put_data s.files ef_pin (with_retries max_pin_retries s.files);
  }

  -- An EF_MKEK of 48 bytes is not encrypted yet: it is stored under the PIN, and the session PIN is
  -- wiped.
  unfoldable pub check_mkek_encrypted : List ℕ → Pin (Unit {0})
  check_mkek_encrypted dhash s =
      let under_pin = record s { session_pin = crypto.hash_multi (block 16 dhash) } in
      let (r, stored) =
        store_mkek crypto (some (s.files ef_mkek ++ 0 ∷ 0 ∷ 0 ∷ 0 ∷ [])) under_pin in
      if length (s.files ef_mkek) == 48
      then (from_kek (λ _. pin_auth_invalid) r, record stored { session_pin = replicate 32 0 })
      else (ok tt, s)

  -- The digest of the PIN itself, without its padding.
  unfoldable pub pin_digest : List ℕ → List ℕ
  unfolding pin_length
  pin_digest padded = (crypto.sha256 (take (pin_length padded) padded)).1

  -- What EF_PIN holds for a new PIN.
  unfoldable pub new_pin_data : List ℕ → List ℕ
  unfolding pin_digest pin_length
  new_pin_data padded =
      max_pin_retries
      ∷ pin_length padded
      ∷ block 32 (crypto.double_hash_pin (block 16 (pin_digest padded)))
