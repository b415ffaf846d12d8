-- ===== src/LargeBlobs.antt =====
-- cbor_large_blobs.c: reading the large blob array, and writing it in fragments.
use pico_fido_microkey.Base.{
  ℕ, ◌+◌, ◌-◌, ◌%◌, ◌^◌, min, bit_and, Bool, true, false, not, ◌&&◌, ◌||◌, Option, none, some, List,
  [], ◌∷◌, ◌++◌, length, replicate, block, read_bytes, write_bytes, memcmp_eq, is_some, ltb, leb,
  ◌==◌, if◌then◌else◌,
}
use pico_fido_microkey.Base.Exec.{
  Result, ok, err, Exec, pure, fail, gets, require, modify, guard, ◌>>=◌, ◌>>◌,
}
use pico_fido_microkey.Files.{ef_largeblob}
use pico_fido_microkey.Ctap.{CtapError, cbor_unexpected_type, invalid_cbor, permission_lbw}
use pico_fido_microkey.Device.{Device, Crypto}
use pico_fido_microkey.Cbor.{Item, fields, Items, done, next, and_then, get_uint, get_bytes}
use pico_fido_microkey.Kek.{le32}
use pico_fido_microkey.ClientPin.Protocol.{verify}
pub mod Upload
pub mod Fragments
pub mod Array

abbrev pub max_large_blob_size : ℕ
max_large_blob_size = 2048

abbrev pub max_fragment_length : ℕ
max_fragment_length = 960

-- What the handler finds wrong; its callers see one code for all of it.
pub data BlobError : Type 0 where
  not_parsed : CtapError → BlobError
  invalid_parameter invalid_len storage_full invalid_seq puat_required : BlobError
  missing_parameter pin_auth_invalid integrity_failure : BlobError

-- `-CTAP2_ERR_INVALID_CBOR`
pub data Refused : Type 0 where
  minus_invalid_cbor : Refused

-- The static variables, beside the state of the device.
pub record Blobs : Type 0 where
  pub device : Device
  pub expected_length : ℕ
  pub expected_next_offset : ℕ
  pub temp_lba : List ℕ

pub record BlobParams : Type 0 where
  pub get : ℕ
  pub set : Option (List ℕ)
  pub offset : Option ℕ
  pub len : ℕ
  pub pin_uv_auth_param : Option (List ℕ)
  pub pin_uv_auth_protocol : ℕ

abbrev pub no_blob_params : BlobParams
no_blob_params = record {
  get = 0;
  set = none;
  offset = none;
  len = 0;
  pin_uv_auth_param = none;
  pin_uv_auth_protocol = 0;
}

-- An offset of UINT64_MAX counts as none.
abbrev pub given_offset : ℕ → Option ℕ
given_offset n = if n == 2 ^ 64 - 1 then none else some n

-- The value under a key; `none` for a key whose value the loop does not read.
unfoldable pub blob_field : ℕ → Item → BlobParams → Option (Result CtapError BlobParams)
blob_field key v p =
    if key == 0x01
    then some (and_then (get_uint v) (λ n. ok (record p { get = n })))
    else if key == 0x02
    then some (and_then (get_bytes v) (λ b. ok (record p { set = some b })))
    else if key == 0x03
    then some (and_then (get_uint v) (λ n. ok (record p { offset = given_offset n })))
    else if key == 0x04
    then some (and_then (get_uint v) (λ n. ok (record p { len = n })))
    else if key == 0x05
    then some (and_then (get_bytes v) (λ b. ok (record p { pin_uv_auth_param = some b })))
    else if key == 0x06
    then some (and_then (get_uint v) (λ n. ok (record p { pin_uv_auth_protocol = n })))
    else none

-- The key of a field: keys grow.
unfoldable pub blob_key : ℕ → Item → Result CtapError ℕ
blob_key val_c item =
    and_then (get_uint item) λ val_u. if ltb val_u val_c then err invalid_cbor else ok val_u

-- A value that is not read is taken for the next key.
unfoldable pub parse_blobs : Items → ℕ → BlobParams → Result CtapError BlobParams
unfolding blob_key blob_field
parse_blobs done val_c p = ok p
parse_blobs (next k done) val_c p =
    and_then (blob_key val_c k) λ key. elim (blob_field key (fields done) p) [
      | none ↦ ok p
      | some _ ↦ err cbor_unexpected_type
    ]
parse_blobs (next k (next v items)) val_c p =
    let skip = parse_blobs (next v items) in
    let go = parse_blobs items in
    and_then (blob_key val_c k) λ key. elim (blob_field key v p) [
      | none ↦ skip ((key + 1) % 2 ^ 64) p
      | some r ↦ and_then r (go ((key + 1) % 2 ^ 64))
    ]

unfoldable pub parse_blob_item : Item → Result CtapError BlobParams
unfolding parse_blobs
parse_blob_item (fields items) = parse_blobs items 1 no_blob_params
parse_blob_item _ = err cbor_unexpected_type

abbrev pub Blob : Type 0 → Type 0
Blob A = Exec Blobs BlobError A

-- The data that the platform authenticates for a fragment: 70 bytes.
abbrev pub verify_data : Crypto → ℕ → List ℕ → List ℕ
verify_data crypto offset set =
    replicate 32 0xff ++ 0x0c ∷ 0x00 ∷ (le32 (offset % 2 ^ 32) ++ block 32 (crypto.sha256 set).1)

module _ (crypto : Crypto) where
  -- `length` must be 0, and the test of the fragment length that follows can never fail then.
  unfoldable pub get_blob : ℕ → ℕ → ℕ → Blob (List ℕ)
  get_blob get offset len = do
    guard (len == 0) invalid_parameter
    file ← gets (λ s. s.device.files ef_largeblob)
    guard (not (ltb (length file) offset)) invalid_parameter
    pure (read_bytes file offset (min get (length file - offset)))

  -- The first fragment tells the length of the array.
  unfoldable pub start_upload : ℕ → ℕ → Blob (Unit {0})
  start_upload offset len =
      if offset == 0
      then (do
        guard (not (len == 0)) invalid_parameter
        guard (not (ltb max_large_blob_size len)) storage_full
        guard (not (ltb len 17)) invalid_parameter
        modify λ s. record s { expected_length = len; expected_next_offset = 0 })
      else guard (len == 0) invalid_parameter

  unfoldable pub authenticate_fragment : BlobParams → ℕ → List ℕ → Blob (Unit {0})
  authenticate_fragment p offset set = do
    param ← require p.pin_uv_auth_param puat_required
    guard (not (p.pin_uv_auth_protocol == 0)) missing_parameter
    paut ← gets (λ s. s.device.paut)
    guard
        (verify crypto (p.pin_uv_auth_protocol % 256) paut.bytes (verify_data crypto offset set)
          param)
        pin_auth_invalid
    guard (not (bit_and paut.permissions permission_lbw == 0)) pin_auth_invalid

  -- `memcpy` to `temp_lba + expectedNextOffset`.
  unfoldable pub append_fragment : ℕ → List ℕ → Blobs → Blobs
  append_fragment offset set s =
      let temp = (if offset == 0 then replicate max_large_blob_size 0 else s.temp_lba) in
      record s {
        temp_lba = write_bytes temp s.expected_next_offset set;
        expected_next_offset = s.expected_next_offset + length set;
      }

  -- The whole array is there: its last 16 bytes are the hash of what stands before them.
  unfoldable pub finish_upload : Blob (Unit {0})
  finish_upload = do
    s ← gets (λ s. s)
    let len = s.expected_length
    let sha = (crypto.sha256 (block (len - 16) s.temp_lba)).1
    guard (not (ltb 17 len && not (memcmp_eq sha (read_bytes s.temp_lba (len - 16) 16) 16)))
        integrity_failure
    modify λ s. record s {
      device = record s.device {
        files = crypto.flash.file_put_data s.device.files ef_largeblob (block len s.temp_lba);
      };
    }

  -- A fragment must continue the one before it, and stay within the array.
  unfoldable pub place_fragment : BlobParams → ℕ → List ℕ → Blob (Unit {0})
  place_fragment p offset set = do
    expected ← gets (λ s. s.expected_next_offset)
    guard (offset == expected) invalid_seq
    authenticate_fragment p offset set
    total ← gets (λ s. s.expected_length)
    guard (not (ltb total ((offset + length set) % 2 ^ 64))) invalid_parameter
    modify (append_fragment offset set)
    s ← gets (λ s. s)
    if s.expected_next_offset == s.expected_length then finish_upload else pure tt

  unfoldable pub set_blob : BlobParams → ℕ → List ℕ → Blob (Unit {0})
  set_blob p offset set = do
    guard (not (ltb max_fragment_length (length set))) invalid_len
    start_upload offset p.len
    place_fragment p offset set

  -- The answer of a `get`; a `set` has none.
  unfoldable pub run_blobs : BlobParams → Blob (Option (List ℕ))
  run_blobs p = do
    offset ← require p.offset invalid_parameter
    guard (not (p.get == 0 && not (is_some p.set))) invalid_parameter
    guard (not (not (p.get == 0) && is_some p.set)) invalid_parameter
    elim p.set [
      | none ↦ (do d ← get_blob p.get offset p.len; pure (some d))
      | some set ↦ (do set_blob p offset set; pure none)
    ]

  -- Whatever is wrong, the answer is the same.
  abbrev pub refuse_all : {A : Type 0} → Result BlobError A → Result Refused A
  refuse_all (ok a) = ok a
  refuse_all (err e) = err minus_invalid_cbor

  unfoldable pub cbor_large_blobs : Item → Exec Blobs Refused (Option (List ℕ))
  cbor_large_blobs item s = elim (parse_blob_item item) [
    | err e ↦ (err minus_invalid_cbor, s)
    | ok p ↦ let (r, t) = run_blobs p s in (refuse_all r, t)
  ]
