-- ===== src/Tests/Cose.antt =====
-- A COSE key is written and read.
use pico_fido_microkey.Base.{arith, ◌≡◌, none, some, replicate}
use pico_fido_microkey.Base.Exec.{ok}
use pico_fido_microkey.Cbor.{uint, nint, fields, CoseKey, cose_read_key}
use pico_fido_microkey.Cose.{
  PublicKey, has_two, cose_key_params, as_read, cose_read_key-cose_key_params,
}

abbrev key : PublicKey
key = record { x = replicate 32 1; y = replicate 32 2; compressed = replicate 33 3 }

abbrev unread : CoseKey
unread = record { kty = uint 0; alg = uint 0; crv = uint 0; kax = none; kay = none }

abbrev read : CoseKey
read = record {
  kty = uint 2;
  alg = nint 6;
  crv = uint 1;
  kax = some (replicate 32 1);
  kay = some (replicate 32 2);
}

cose_read_key-cose_key_params_example :
    cose_read_key (fields (cose_key_params 1 7 key)) unread ≡ ok read
unfolding as_read has_two
cose_read_key-cose_key_params_example =
    cose_read_key-cose_key_params 1 7 key unread (omega arith) (omega arith)
