-- ===== src/Cose.antt =====
-- cbor.c, lines 152 to 225: how a public key is written as a COSE key.
use pico_fido_microkey.Base.{
  ℕ, zero, suc, ◌<◌, ltb, true, arith, ap, ◌∙◌, ◌+◌, ◌-◌, ◌%◌, ◌^◌, ◌≡◌, refl, Bool, ◌||◌, some,
  List, ◌==◌, if◌then◌else◌, Bool-cases, inl, inr,
}
use pico_fido_microkey.Base.Exec.{ok}
use pico_fido_microkey.Cbor.{
  Item, Items, uint, nint, bytes, fields, done, next, CoseKey, cose_field, cose_read_fields,
  cose_read_key, get_int,
}
use pico_fido_microkey.Keys.Curves.{
  EcpGroup, secp256r1, secp384r1, secp521r1, secp256k1, curve25519, curve448, ed25519, ed448,
  mbedtls_curve_to_fido,
}

-- A public key as mbedtls writes it: both coordinates, and the compressed point.
pub record PublicKey : Type 0 where
  pub x : List ℕ
  pub y : List ℕ
  pub compressed : List ℕ

-- `cbor_encode_negative_int` for an absolute value, of which it takes one off in 64 bits.
abbrev pub negative : ℕ → Item
negative n = nint ((n + (2 ^ 64 - 1)) % 2 ^ 64)

-- Whether a curve has points of two coordinates.
unfoldable pub has_two : ℕ → Bool
has_two crv = crv == 1 || (crv == 2 || (crv == 3 || crv == 8))

-- `COSE_key_params`; the algorithm is given as its absolute value.
unfoldable pub cose_key_params : ℕ → ℕ → PublicKey → Items
cose_key_params crv alg q =
    if has_two crv
    then next (uint 1) (
        next (uint 2) (
          next (uint 3) (
            next (negative alg) (
              next (nint 0) (
                next (uint crv)
                  (next (nint 1) (next (bytes q.x) (next (nint 2) (next (bytes q.y) done)))))))))
    else next (uint 1) (
        next (uint 1) (
          next (uint 3) (
            next (negative alg)
              (next (nint 0) (next (uint crv) (next (nint 1) (next (bytes q.compressed) done)))))))

-- The algorithm of a group, as its absolute value.
unfoldable pub cose_alg : Bool → EcpGroup → ℕ
cose_alg eddsa secp256r1 = 7
cose_alg eddsa secp384r1 = 35
cose_alg eddsa secp521r1 = 36
cose_alg eddsa secp256k1 = 47
cose_alg eddsa curve25519 = 25
cose_alg eddsa curve448 = 0
cose_alg eddsa ed25519 = if eddsa then 8 else 0
cose_alg eddsa ed448 = 0

-- `COSE_key`
unfoldable pub cose_key : ℕ → Bool → EcpGroup → PublicKey → Items
cose_key dp_curve25519 eddsa group q =
    cose_key_params (mbedtls_curve_to_fido dp_curve25519 eddsa group) (cose_alg eddsa group) q

-- `COSE_key_shared`: the key of the key agreement, with ECDH-ES + HKDF-256.
unfoldable pub cose_key_shared : ℕ → Bool → EcpGroup → PublicKey → Items
cose_key_shared dp_curve25519 eddsa group q =
    cose_key_params (mbedtls_curve_to_fido dp_curve25519 eddsa group) 25 q

-- What the reader makes of an algorithm, given as its absolute value; the number 0, for a curve whose
-- algorithm is not known, is 0 again.
abbrev pub alg_read : ℕ → Item
alg_read zero = uint 0
alg_read (suc n) = nint n

-- What is read of a key that was written over what was read before.
unfoldable pub as_read : ℕ → ℕ → PublicKey → CoseKey → CoseKey
as_read crv alg q k = record {
  kty = uint (if has_two crv then 2 else 1);
  alg = alg_read alg;
  crv = uint crv;
  kax = some (if has_two crv then q.x else q.compressed);
  kay = if has_two crv then some q.y else k.kay;
}

get_int-uint : (n : ℕ) → n < 2 ^ 63 → get_int (uint n) ≡ ok (uint n)
unfolding get_int
get_int-uint n l = let small : ltb n (2 ^ 63) ≡ true = ground arith in rw small refl

get_int-nint : (n : ℕ) → n < 2 ^ 63 → get_int (nint n) ≡ ok (nint n)
unfolding get_int
get_int-nint n l = let small : ltb n (2 ^ 63) ≡ true = ground arith in rw small refl

get_int-negative : (alg : ℕ) → alg < 2 ^ 63 → get_int (negative alg) ≡ ok (alg_read alg)
unfolding get_int
get_int-negative zero l = refl
get_int-negative (suc alg) l =
    let same : (suc alg + (2 ^ 64 - 1)) % 2 ^ 64 ≡ alg = omega arith in
    ap (λ n. get_int (nint n)) same ∙ get_int-nint alg (omega arith)

-- One field.
read_one :
    (key v : Item) (rest : Items) (k k' : CoseKey)
    → get_int key ≡ ok key
    → cose_field key v k ≡ ok k'
    → cose_read_fields (next key (next v rest)) k ≡ cose_read_fields rest k'
unfolding cose_read_fields
read_one key v rest k k' e f = ground (arith, e, f)

module _ (rest : Items) (k : CoseKey) where
  read_kty :
      (n : ℕ)
      → n < 2 ^ 63
      → cose_read_fields (next (uint 1) (next (uint n) rest)) k
        ≡ cose_read_fields rest (record k { kty = uint n })
  unfolding cose_field
  read_kty n l =
      read_one (uint 1) (uint n) rest k (record k { kty = uint n }) (get_int-uint 1 (omega arith))
        (rw (get_int-uint n l) refl)

  read_alg :
      (alg : ℕ)
      → alg < 2 ^ 63
      → cose_read_fields (next (uint 3) (next (negative alg) rest)) k
        ≡ cose_read_fields rest (record k { alg = alg_read alg })
  unfolding cose_field
  read_alg alg l =
      read_one (uint 3) (negative alg) rest k (record k { alg = alg_read alg })
        (get_int-uint 3 (omega arith)) (rw (get_int-negative alg l) refl)

  read_crv :
      (n : ℕ)
      → n < 2 ^ 63
      → cose_read_fields (next (nint 0) (next (uint n) rest)) k
        ≡ cose_read_fields rest (record k { crv = uint n })
  unfolding cose_field
  read_crv n l =
      read_one (nint 0) (uint n) rest k (record k { crv = uint n }) (get_int-nint 0 (omega arith))
        (rw (get_int-uint n l) refl)

  read_kax :
      (b : List ℕ)
      → cose_read_fields (next (nint 1) (next (bytes b) rest)) k
        ≡ cose_read_fields rest (record k { kax = some b })
  unfolding cose_field
  read_kax b =
      read_one (nint 1) (bytes b) rest k (record k { kax = some b }) (get_int-nint 1 (omega arith))
        refl

  read_kay :
      (b : List ℕ)
      → cose_read_fields (next (nint 2) (next (bytes b) rest)) k
        ≡ cose_read_fields rest (record k { kay = some b })
  unfolding cose_field
  read_kay b =
      read_one (nint 2) (bytes b) rest k (record k { kay = some b }) (get_int-nint 2 (omega arith))
        refl

  read_done : cose_read_fields done k ≡ ok k
  unfolding cose_read_fields
  read_done = refl

-- What both kinds of keys begin with.
read_front :
    (kty crv alg : ℕ) (b : List ℕ) (rest : Items) (k : CoseKey)
    → kty < 2 ^ 63
    → crv < 2 ^ 63
    → alg < 2 ^ 63
    → cose_read_fields
        (next (uint 1) (
          next (uint kty) (
            next (uint 3) (
              next
                (negative alg)
                (next (nint 0) (next (uint crv) (next (nint 1) (next (bytes b) rest))))))))
        k
      ≡ cose_read_fields rest
          (record k { kty = uint kty; alg = alg_read alg; crv = uint crv; kax = some b })
read_front kty crv alg b rest k y c a =
    let from_x = next (nint 1) (next (bytes b) rest) in
    let from_crv = next (nint 0) (next (uint crv) from_x) in
    let k1 : CoseKey = record k { kty = uint kty } in
    let k2 : CoseKey = record k1 { alg = alg_read alg } in
    let k3 : CoseKey = record k2 { crv = uint crv } in
    read_kty (next (uint 3) (next (negative alg) from_crv)) k kty y
    ∙ read_alg from_crv k1 alg a
    ∙ read_crv from_x k2 crv c
    ∙ read_kax rest k3 b

-- A public key that was written is read again, if the number of its curve and the absolute value of
-- its algorithm are less than 2 ^ 63: its type, its algorithm, its curve and its coordinates come back,
-- and a curve with one coordinate leaves the other as it was. Where the algorithm is not known, what
-- is written as -2 ^ 64 is read as 0.
pub cose_read_key-cose_key_params :
    (crv alg : ℕ) (q : PublicKey) (k : CoseKey)
    → crv < 2 ^ 63
    → alg < 2 ^ 63
    → cose_read_key (fields (cose_key_params crv alg q)) k ≡ ok (as_read crv alg q k)
unfolding cose_read_key cose_key_params as_read
cose_read_key-cose_key_params crv alg q k c a = elim (Bool-cases (has_two crv)) [
  | inl t ↦
      let read : CoseKey = record (as_read crv alg q k) {
        kty = uint 2;
        kax = some q.x;
        kay = k.kay;
      } in
      let last : Items = next (nint 2) (next (bytes q.y) done) in
      rw t (
        read_front 2 crv alg q.x last k (omega arith) c a
        ∙ read_kay done read q.y
        ∙ read_done done (record read { kay = some q.y }))
  | inr f ↦
      let read : CoseKey = record (as_read crv alg q k) {
        kty = uint 1;
        kax = some q.compressed;
        kay = k.kay;
      } in
      rw f (read_front 1 crv alg q.compressed done k (omega arith) c a ∙ read_done done read)
]
