-- ===== src/Tests/LargeBlobs.antt =====
-- Runs of the large blob array.
use pico_fido_microkey.Base.{
  ℕ, ◌≡◌, refl, arith, true, false, some, [], ◌∷◌, ◌++◌, replicate, memcmp_eq,
}
use pico_fido_microkey.Base.Exec.{ok, is_ok}
use pico_fido_microkey.Sdk.{ideal_flash-IsFlash}
use pico_fido_microkey.Cbor.{Item, uint, bytes, fields, done, next}
use pico_fido_microkey.ClientPin.Protocol.{verify}
use pico_fido_microkey.LargeBlobs.{
  Blobs, BlobParams, no_blob_params, start_upload, authenticate_fragment, append_fragment,
  finish_upload, place_fragment, set_blob, run_blobs, parse_blob_item, cbor_large_blobs,
}
use pico_fido_microkey.LargeBlobs.Upload.{
  is_upload, authorised, cbor_large_blobs_unauthorised, cbor_large_blobs_keeps,
}
use pico_fido_microkey.LargeBlobs.Fragments.{Fragment, fragment_request}
use pico_fido_microkey.LargeBlobs.Array.{upload, upload_then_get}
use pico_fido_microkey.Tests.Toy.{toy, device, no_token, no_files}

-- The token in use may write large blobs, or not.
abbrev blobs : ℕ → Blobs
blobs permissions = record {
  device = record (device no_files) { paut = record no_token { permissions = permissions } };
  expected_length = 0;
  expected_next_offset = 0;
  temp_lba = replicate 2048 0;
}

-- 17 bytes at offset 0, with the tag of the toy firmware.
abbrev set_item : Item
set_item = fields (
    next (uint 2) (
      next (bytes (replicate 17 5)) (
        next (uint 3) (
          next (uint 0) (
            next (uint 4) (
              next (uint 17) (
                next (uint 5)
                  (next (bytes (replicate 32 0xff)) (next (uint 6) (next (uint 2) done))))))))))

abbrev set_params : BlobParams
set_params = record no_blob_params {
  set = some (replicate 17 5);
  offset = some 0;
  len = 17;
  pin_uv_auth_param = some (replicate 32 0xff);
  pin_uv_auth_protocol = 2;
}

set_parsed : parse_blob_item set_item ≡ ok set_params
unfolding parse_blob_item
set_parsed = refl

not_allowed : authorised toy set_params (blobs 3).device ≡ false
unfolding verify memcmp_eq
not_allowed = refl

upload_at_start : is_upload (blobs 0x10) ≡ true
unfolding is_upload
upload_at_start = refl

cbor_large_blobs_unauthorised_example :
    ((cbor_large_blobs toy set_item (blobs 3)).1.device ≡ (blobs 3).device)
    × (is_ok (cbor_large_blobs toy set_item (blobs 3)).0 ≡ false)
cbor_large_blobs_unauthorised_example =
    cbor_large_blobs_unauthorised toy set_item set_params (blobs 3) set_parsed not_allowed

cbor_large_blobs_keeps_example : is_upload (cbor_large_blobs toy set_item (blobs 0x10)).1 ≡ true
cbor_large_blobs_keeps_example = cbor_large_blobs_keeps toy set_item (blobs 0x10) upload_at_start

abbrev first_fragment : Fragment
first_fragment = record { bytes = replicate 12 5; param = replicate 32 0xff }

abbrev last_fragment : Fragment
last_fragment = record { bytes = replicate 5 6; param = replicate 32 0xff }

first_accepted :
    is_ok (run_blobs toy (fragment_request 2 17 0 first_fragment) (blobs 0x10)).0 ≡ true
unfolding run_blobs set_blob start_upload place_fragment authenticate_fragment verify
    append_fragment memcmp_eq
first_accepted = refl

last_accepted :
    is_ok
      (run_blobs toy
        (fragment_request 2 17 12 last_fragment)
        (run_blobs toy (fragment_request 2 17 0 first_fragment) (blobs 0x10)).1).0
    ≡ true
unfolding run_blobs set_blob start_upload place_fragment authenticate_fragment verify
    append_fragment finish_upload memcmp_eq
last_accepted = refl

upload_then_get_example :
    (run_blobs toy
      (record no_blob_params { get = 100; offset = some 0 })
      (upload toy 2 17 0 (first_fragment ∷ last_fragment ∷ []) (blobs 0x10))).0
    ≡ ok (some (replicate 12 5 ++ replicate 5 6))
upload_then_get_example =
    upload_then_get toy ideal_flash-IsFlash 2 100 first_fragment (last_fragment ∷ []) (blobs 0x10)
      (first_accepted, (last_accepted, tt)) (omega arith) (omega arith)
