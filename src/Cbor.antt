-- ===== src/Cbor.antt =====
-- Decoded CBOR (the decoding is tinycbor's), the errors of ctap2_cbor.h's macros, and `COSE_read_key` of
-- cbor.c. A map is the sequence of its items, keys and values in turn.
use pico_fido_microkey.Base.{ℕ, ◌-◌, ◌^◌, ltb, Bool, Option, some, List, ◌==◌, if◌then◌else◌}
use pico_fido_microkey.Base.Exec.{Result, ok, err}
use pico_fido_microkey.Ctap.{CtapError, cbor_unexpected_type}

mutual
  pub data Item : Type 0 where
    uint : ℕ → Item
    -- the integer -(n + 1)
    nint : ℕ → Item
    bytes : List ℕ → Item
    text : List ℕ → Item
    boolean : Bool → Item
    fields : Items → Item

  pub data Items : Type 0 where
    done : Items
    next : Item → Items → Items

abbrev pub and_then :
    {A B : Type 0} → Result CtapError A → (A → Result CtapError B) → Result CtapError B
and_then (ok a) f = f a
and_then (err e) f = err e

-- CBOR_FIELD_GET_UINT, _BYTES and _TEXT on the item at hand.
abbrev pub get_uint : Item → Result CtapError ℕ
get_uint (uint n) = ok n
get_uint _ = err cbor_unexpected_type

abbrev pub get_bytes : Item → Result CtapError (List ℕ)
get_bytes (uint n) = err cbor_unexpected_type
get_bytes (bytes b) = ok b
get_bytes _ = err cbor_unexpected_type

abbrev pub get_text : Item → Result CtapError (List ℕ)
get_text (uint n) = err cbor_unexpected_type
get_text (text t) = ok t
get_text _ = err cbor_unexpected_type

-- CBOR_FIELD_GET_INT into an int64_t: an integer from 2 ^ 63 on wraps around to a negative one, and one
-- below -2 ^ 63 to one that is not negative.
unfoldable pub get_int : Item → Result CtapError Item
get_int (uint n) = ok (if ltb n (2 ^ 63) then uint n else nint (2 ^ 64 - 1 - n))
get_int (nint n) = ok (if ltb n (2 ^ 63) then nint n else uint (2 ^ 64 - 1 - n))
get_int _ = err cbor_unexpected_type

-- An integer variable is 0 until it is read.
abbrev pub is_zero : Item → Bool
is_zero (uint n) = n == 0
is_zero _ = Bool.false

pub record CoseKey : Type 0 where
  pub kty : Item
  pub alg : Item
  pub crv : Item
  pub kax : Option (List ℕ)
  pub kay : Option (List ℕ)

-- The value under one key of a COSE key; other keys are passed over.
unfoldable pub cose_field : Item → Item → CoseKey → Result CtapError CoseKey
cose_field (uint key) v k =
    if key == 1
    then and_then (get_int v) (λ n. ok (record k { kty = n }))
    else if key == 3
    then and_then (get_int v) (λ n. ok (record k { alg = n }))
    else ok k
cose_field (nint key) v k =
    if key == 0
    then and_then (get_int v) (λ n. ok (record k { crv = n }))
    else if key == 1
    then and_then (get_bytes v) (λ b. ok (record k { kax = some b }))
    else if key == 2
    then and_then (get_bytes v) (λ b. ok (record k { kay = some b }))
    else ok k
cose_field _ v k = err cbor_unexpected_type

unfoldable pub cose_read_fields : Items → CoseKey → Result CtapError CoseKey
unfolding cose_field
cose_read_fields done k = ok k
cose_read_fields (next key done) k = and_then (get_int key) (λ n. err cbor_unexpected_type)
cose_read_fields (next key (next v rest)) k =
    let go = cose_read_fields rest in and_then (get_int key) (λ n. and_then (cose_field n v k) go)

unfoldable pub cose_read_key : Item → CoseKey → Result CtapError CoseKey
unfolding cose_read_fields
cose_read_key (uint n) k = err cbor_unexpected_type
cose_read_key (fields items) k = cose_read_fields items k
cose_read_key _ k = err cbor_unexpected_type
