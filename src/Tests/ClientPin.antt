-- ===== src/Tests/ClientPin.antt =====
-- Runs of the PIN commands.
use pico_fido_microkey.Base.{
  ◌++◌, ℕ, ◌+◌, ◌≡◌, ◌≤◌, refl, arith, true, false, some, List, [], ◌∷◌, replicate, block,
  read_bytes, length, memcmp_eq, ◌==◌, if◌then◌else◌,
}
use pico_fido_microkey.Base.Exec.{ok, err, is_ok}
use pico_fido_microkey.Sdk.{ideal_flash-IsFlash}
use pico_fido_microkey.Files.{ef_pin, ef_mkek}
use pico_fido_microkey.Kek.{crc32c, le32, mkek_masked, seal_mkek, open_mkek, load_mkek, store_mkek}
use pico_fido_microkey.ClientPin.Params.{Params}
use pico_fido_microkey.Ctap.{memory_fault}
use pico_fido_microkey.Device.{Device, Crypto}
use pico_fido_microkey.Token.{regenerate}
use pico_fido_microkey.Cbor.{fields, done}
use pico_fido_microkey.ClientPin.Protocol.{wrote, ecdh, decrypt, verify}
use pico_fido_microkey.ClientPin.Checks.{check_token, check_change, check_set, TokenRequest}
use pico_fido_microkey.ClientPin.Steps.{
  pin_hash, pin_retries, min_pin_length, pin_length, pin_digest, must_change, new_pin_data, try_pin,
  accept_pin, check_mkek_encrypted,
}
use pico_fido_microkey.ClientPin.Commands.{
  set_pin, change_pin, get_pin_token, grant_token, replace_pin, install_pin, enrol_pin,
  cbor_client_pin, empty,
}
use pico_fido_microkey.ClientPin.Guessing.{
  Attempt, token_attempt, change_attempt, wrong_answers, run_attempts, wrong_answers-le-retries,
}
use pico_fido_microkey.ClientPin.Lockout.{cbor_client_pin_blocked}
use pico_fido_microkey.ClientPin.Retries.{pin_matches, pin_matches_over, token_right_pin}
use pico_fido_microkey.ClientPin.Invariant.{is_pin_file, cbor_client_pin_keeps}
use pico_fido_microkey.ClientPin.Grant.{Granted, get_pin_token-Granted}
use pico_fido_microkey.ClientPin.Enrol.{Enrolled, new_pin_of, set_pin-Enrolled, set_pin_then_token}
use pico_fido_microkey.ClientPin.Memory.{get_pin_token_overrun, get_pin_token_residue}
use pico_fido_microkey.Tests.Toy.{
  toy, pin, new_pin, padded_to, no_files, with_pin, device, token_request, set_request,
  change_request,
}

abbrev fresh : Device
fresh = device no_files

abbrev locked : Device
locked = device (with_pin 0)

abbrev ready : Device
ready = device (with_pin 8)

-- A device whose master key is stored under the PIN's session key.
abbrev with_key : Device → Device
with_key s = record s {
  files = λ fid.
      if fid == ef_mkek
      then (seal_mkek toy (block 32 (block 16 pin)) (replicate 52 7))
      else s.files fid;
}

abbrev accepted : List ℕ → TokenRequest
accepted p = record { x = replicate 32 1; y = replicate 32 2; pin_hash_enc = padded_to 16 p }

abbrev guesses : List Attempt
guesses = token_attempt 5 (token_request new_pin) ∷ change_attempt (change_request new_pin pin) ∷ []

guess_first : pin_matches toy (token_request new_pin) ready ≡ false
unfolding decrypt ecdh memcmp_eq read_bytes
guess_first = refl

guess_second :
    pin_matches toy
      (change_request new_pin pin)
      (get_pin_token toy 5 (token_request new_pin) ready).1
    ≡ false
unfolding get_pin_token check_token try_pin regenerate decrypt ecdh memcmp_eq read_bytes
guess_second = refl

wrong_answers-le-retries_example :
    wrong_answers toy guesses ready + pin_retries (run_attempts toy guesses ready).files ≤ 8
wrong_answers-le-retries_example =
    wrong_answers-le-retries toy ideal_flash-IsFlash guesses ready (guess_first, (guess_second, tt))
      (omega arith)

token_runs : is_ok (get_pin_token toy 5 (token_request pin) ready).0 ≡ true
unfolding get_pin_token check_token try_pin accept_pin check_mkek_encrypted grant_token decrypt ecdh
    memcmp_eq read_bytes
token_runs = refl

token_right_pin_example : pin_matches_over toy (replicate 64 0xdd) (token_request pin) ready ≡ true
token_right_pin_example =
    token_right_pin toy ideal_flash-IsFlash 5 (token_request pin) ready (replicate 64 0xdd)
      token_runs

-- The stack holds the PIN, and the request has no hash.
abbrev leaky : Crypto
leaky = record toy { stack = λ i. padded_to 64 pin }

abbrev no_hash : Params
no_hash = record (token_request pin) { pin_hash_enc = some [] }

no_hash_accepted :
    check_token no_hash ready.files
    ≡ ok (record { x = replicate 32 1; y = replicate 32 2; pin_hash_enc = [] })
unfolding check_token
no_hash_accepted = refl

no_hash_agrees : (ecdh leaky 1 ready.hkey (replicate 32 1) (replicate 32 2)).0 ≡ 0
unfolding ecdh
no_hash_agrees = refl

residue_held :
    memcmp_eq
      (leaky.double_hash_pin (block 16 (block 64 (leaky.stack ready.draws))))
      (pin_hash ready.files)
      32
    ≡ true
unfolding memcmp_eq read_bytes block
residue_held = refl

get_pin_token_residue_example : is_ok (get_pin_token leaky 5 no_hash ready).0 ≡ true
get_pin_token_residue_example =
    get_pin_token_residue leaky ideal_flash-IsFlash 5 no_hash
      (record { x = replicate 32 1; y = replicate 32 2; pin_hash_enc = [] }) ready no_hash_accepted
      refl refl no_hash_agrees refl refl refl residue_held refl refl

change_runs : is_ok (change_pin toy (change_request pin new_pin) (with_key ready)).0 ≡ true
unfolding change_pin check_change try_pin accept_pin verify replace_pin install_pin load_mkek
    store_mkek open_mkek check_mkek_encrypted decrypt ecdh memcmp_eq read_bytes pin_length seal_mkek
    mkek_masked le32 crc32c
change_runs = refl

cbor_client_pin_blocked_example : (cbor_client_pin toy 5 (fields done) locked).1 ≡ locked
cbor_client_pin_blocked_example = cbor_client_pin_blocked toy 5 (fields done) locked refl refl refl

cbor_client_pin_keeps_example :
    is_pin_file ((cbor_client_pin toy 5 (fields done) ready).1.files ef_pin) ≡ true
cbor_client_pin_keeps_example =
    cbor_client_pin_keeps toy ideal_flash-IsFlash 5 (fields done) ready (unfold is_pin_file in refl)

get_pin_token-Granted_example :
    Granted 5 (token_request pin) (get_pin_token toy 5 (token_request pin) ready).1
get_pin_token-Granted_example =
    get_pin_token-Granted toy ideal_flash-IsFlash 5 (token_request pin) ready token_runs

-- Three wrong PINs in a row asked for a power cycle, which nothing waits for.
abbrev unplugged : Device
unplugged = record ready { needs_power_cycle = true }

token_accepted : check_token (token_request pin) unplugged.files ≡ ok (accepted pin)
unfolding check_token
token_accepted = refl

matches_unplugged : pin_matches toy (token_request pin) unplugged ≡ true
unfolding decrypt ecdh memcmp_eq read_bytes
matches_unplugged = refl

agrees : (ecdh toy 1 (1 ∷ []) (replicate 32 1) (replicate 32 2)).0 ≡ 0
unfolding ecdh
agrees = refl

new_pin_sent : new_pin_of toy (set_request new_pin) fresh ≡ some (padded_to 64 new_pin)
unfolding decrypt ecdh block
new_pin_sent = refl

abbrev enrolled : Device
enrolled = (set_pin toy (set_request new_pin) fresh).1

set_ok : is_ok (set_pin toy (set_request new_pin) fresh).0 ≡ true
unfolding set_pin check_set verify enrol_pin check_mkek_encrypted decrypt ecdh memcmp_eq read_bytes
    pin_length
set_ok = refl

set_runs : set_pin toy (set_request new_pin) fresh ≡ (ok empty, enrolled)
unfolding set_pin check_set verify enrol_pin check_mkek_encrypted decrypt ecdh memcmp_eq read_bytes
    pin_length
set_runs = refl

enrolled_accepts : check_token (token_request new_pin) enrolled.files ≡ ok (accepted new_pin)
unfolding check_token set_pin check_set verify enrol_pin check_mkek_encrypted decrypt ecdh memcmp_eq
    read_bytes pin_length new_pin_data
enrolled_accepts = refl

enrolled_key : (ecdh toy 1 enrolled.hkey (replicate 32 1) (replicate 32 2)).0 ≡ 0
unfolding ecdh
enrolled_key = refl

sent_hash :
    decrypt toy 1
      (ecdh toy 1 enrolled.hkey (replicate 32 1) (replicate 32 2)).1
      (padded_to 16 new_pin)
      64
      (toy.stack enrolled.draws)
    ≡ wrote 0 (padded_to 16 new_pin ++ replicate 48 0xee)
unfolding decrypt ecdh block set_pin check_set verify enrol_pin check_mkek_encrypted memcmp_eq
    read_bytes pin_length
sent_hash = refl

same_digest :
    block 16 (padded_to 16 new_pin ++ replicate 48 0xee)
    ≡ block 16 (pin_digest toy (padded_to 64 new_pin))
unfolding pin_digest pin_length block
same_digest = refl

plain_key : (length (enrolled.files ef_mkek) == 48) ≡ false
unfolding set_pin check_set verify enrol_pin check_mkek_encrypted decrypt ecdh memcmp_eq read_bytes
    pin_length
plain_key = refl

not_forced : must_change enrolled.files ≡ false
unfolding set_pin check_set verify enrol_pin check_mkek_encrypted decrypt ecdh memcmp_eq read_bytes
    pin_length
not_forced = refl

set_pin_then_token_example : is_ok (get_pin_token toy 5 (token_request new_pin) enrolled).0 ≡ true
set_pin_then_token_example =
    set_pin_then_token toy ideal_flash-IsFlash 5 (set_request new_pin) (token_request new_pin)
      (accepted new_pin) fresh enrolled (padded_to 64 new_pin)
      (padded_to 16 new_pin ++ replicate 48 0xee) set_runs new_pin_sent enrolled_accepts refl refl
      enrolled_key sent_hash same_digest plain_key not_forced

set_pin-Enrolled_example :
    Enrolled toy
      (set_pin toy (set_request new_pin) fresh).1.files
      (min_pin_length no_files)
      (padded_to 64 new_pin)
set_pin-Enrolled_example =
    set_pin-Enrolled toy ideal_flash-IsFlash (set_request new_pin) fresh (padded_to 64 new_pin)
      set_ok new_pin_sent

-- An encrypted PIN hash of 96 bytes.
abbrev long_request : Params
long_request = record (token_request pin) { pin_hash_enc = some (replicate 96 1) }

long_accepted :
    check_token long_request ready.files
    ≡ ok (record { x = replicate 32 1; y = replicate 32 2; pin_hash_enc = replicate 96 1 })
unfolding check_token
long_accepted = refl

get_pin_token_overrun_example : (get_pin_token toy 5 long_request ready).0 ≡ err memory_fault
get_pin_token_overrun_example =
    get_pin_token_overrun toy 5 long_request
      (record { x = replicate 32 1; y = replicate 32 2; pin_hash_enc = replicate 96 1 }) ready
      long_accepted refl refl agrees (omega arith)
