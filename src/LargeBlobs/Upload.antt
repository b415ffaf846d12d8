-- ===== src/LargeBlobs/Upload.antt =====
-- Who may write the large blob array of cbor_large_blobs.c, and where an upload writes.
use pico_fido_microkey.Base.{
  ℕ, ◌+◌, ◌%◌, ◌≡◌, ◌≤◌, arith, Bool, true, false, not, ◌&&◌, bit_and, none, some, List, length,
  replicate, length-replicate, length-write_bytes, is_some, leb, ◌==◌, if◌then◌else◌,
}
use pico_fido_microkey.Base.Exec.{ok, is_ok}
use pico_fido_microkey.Ctap.{permission_lbw}
use pico_fido_microkey.Device.{Device, Crypto}
use pico_fido_microkey.Cbor.{Item}
use pico_fido_microkey.ClientPin.Protocol.{verify}
use pico_fido_microkey.LargeBlobs.{
  Blobs, BlobParams, verify_data, get_blob, start_upload, authenticate_fragment, append_fragment,
  finish_upload, place_fragment, set_blob, run_blobs, parse_blob_item, cbor_large_blobs,
  max_large_blob_size,
}

-- An upload stays in the array: it is of 2048 bytes, and the next offset is at most the length
-- expected, which is one that was accepted.
unfoldable pub is_upload : Blobs → Bool
is_upload s =
    length s.temp_lba == max_large_blob_size
    && (leb s.expected_next_offset s.expected_length && leb s.expected_length max_large_blob_size)

is_upload_bounds :
    (s : Blobs)
    → is_upload s ≡ true
    → (length s.temp_lba ≡ max_large_blob_size)
      × ((s.expected_next_offset ≤ s.expected_length) × (s.expected_length ≤ max_large_blob_size))
unfolding is_upload
is_upload_bounds s w = ground arith

module _ (crypto : Crypto) where
  -- Whether the fragment carries a tag under the token in use, which may write large blobs.
  abbrev pub authorised : BlobParams → Device → Bool
  authorised p d = elim p.offset [
    | none ↦ false
    | some offset ↦ elim p.set [
      | none ↦ false
      | some set ↦ elim p.pin_uv_auth_param [
        | none ↦ false
        | some param ↦
            verify crypto (p.pin_uv_auth_protocol % 256) d.paut.bytes
              (verify_data crypto offset set) param
            && not (bit_and d.paut.permissions permission_lbw == 0)
      ]
    ]
  ]

  authenticate_fragment_ok :
      (p : BlobParams) (offset : ℕ) (set : List ℕ) (s : Blobs)
      → is_ok (authenticate_fragment crypto p offset set s).0 ≡ true
      → p.set ≡ some set
      → p.offset ≡ some offset
      → authorised p s.device ≡ true
  unfolding authenticate_fragment
  authenticate_fragment_ok p offset set s h e o = ground arith

  pub authenticate_fragment_state :
      (p : BlobParams) (offset : ℕ) (set : List ℕ) (s : Blobs)
      → (authenticate_fragment crypto p offset set s).1 ≡ s
  unfolding authenticate_fragment
  authenticate_fragment_state p offset set s = ground arith

  start_upload_device :
      (offset len : ℕ) (s : Blobs) → (start_upload crypto offset len s).1.device ≡ s.device
  unfolding start_upload
  start_upload_device offset len s = ground arith

  set_blob-authorised :
      (p : BlobParams) (offset : ℕ) (set : List ℕ) (s : Blobs)
      → p.set ≡ some set
      → p.offset ≡ some offset
      → authorised p s.device ≡ false
      → (is_ok (set_blob crypto p offset set s).0 ≡ false)
        × ((set_blob crypto p offset set s).1.device ≡ s.device)
  unfolding set_blob place_fragment
  set_blob-authorised p offset set s e o n =
      let t = (start_upload crypto offset p.len s).1 in
      ground (
        arith,
        start_upload_device offset p.len s,
        authenticate_fragment_ok p offset set t,
        authenticate_fragment_state p offset set t,
      )

  run_blobs-authorised :
      (p : BlobParams) (s : Blobs)
      → authorised p s.device ≡ false
      → is_some p.set ≡ true
      → (is_ok (run_blobs crypto p s).0 ≡ false) × ((run_blobs crypto p s).1.device ≡ s.device)
  unfolding run_blobs
  run_blobs-authorised p s n h = grind (arith, set_blob-authorised)

  get_blob_state : (get offset len : ℕ) (s : Blobs) → (get_blob crypto get offset len s).1 ≡ s
  unfolding get_blob
  get_blob_state get offset len s = ground arith

  run_blobs_get :
      (p : BlobParams) (s : Blobs)
      → is_some p.set ≡ false
      → (run_blobs crypto p s).1.device ≡ s.device
  unfolding run_blobs
  run_blobs_get p s h = grind (arith, get_blob_state)

  -- A request that does not carry a tag under the token in use, or whose token has no permission to
  -- write large blobs, changes nothing of the device; if it carries a fragment, it is refused.
  pub cbor_large_blobs_unauthorised :
      (item : Item) (p : BlobParams) (s : Blobs)
      → parse_blob_item item ≡ ok p
      → authorised p s.device ≡ false
      → ((cbor_large_blobs crypto item s).1.device ≡ s.device)
        × (is_some p.set && is_ok (cbor_large_blobs crypto item s).0 ≡ false)
  unfolding cbor_large_blobs
  cbor_large_blobs_unauthorised item p s e n =
      ground (arith, run_blobs-authorised p s n, run_blobs_get p s)

  start_upload_keeps :
      (offset len : ℕ) (s : Blobs)
      → is_upload s ≡ true
      → is_upload (start_upload crypto offset len s).1 ≡ true
  unfolding start_upload is_upload
  start_upload_keeps offset len s w = ground arith

  append_fragment_keeps :
      (offset : ℕ) (set : List ℕ) (s : Blobs)
      → is_upload s ≡ true
      → s.expected_next_offset + length set ≤ s.expected_length
      → is_upload (append_fragment crypto offset set s) ≡ true
  unfolding append_fragment is_upload
  append_fragment_keeps offset set s w h =
      let temp = (if offset == 0 then replicate max_large_blob_size 0 else s.temp_lba) in
      let zeros = length-replicate {A = ℕ} max_large_blob_size 0 in
      let b = is_upload_bounds s w in
      let full : length temp ≡ max_large_blob_size = ground (arith, b.0, zeros) in
      ground (
        arith,
        full,
        b.1.1,
        length-write_bytes temp s.expected_next_offset set (omega (arith, full, b.1.1)),
      )

  finish_upload_keeps :
      (s : Blobs) → is_upload s ≡ true → is_upload (finish_upload crypto s).1 ≡ true
  unfolding finish_upload is_upload
  finish_upload_keeps s w = ground arith

  set_blob_keeps :
      (p : BlobParams) (offset : ℕ) (set : List ℕ) (s : Blobs)
      → is_upload s ≡ true
      → is_upload (set_blob crypto p offset set s).1 ≡ true
  unfolding set_blob place_fragment
  set_blob_keeps p offset set s w =
      let t = (start_upload crypto offset p.len s).1 in
      let v = start_upload_keeps offset p.len s w in
      let b = is_upload_bounds t v in
      ground (
        arith,
        v,
        b.1.0,
        b.1.1,
        authenticate_fragment_state p offset set t,
        append_fragment_keeps offset set t,
        finish_upload_keeps (append_fragment crypto offset set t),
      )

  run_blobs_keeps :
      (p : BlobParams) (s : Blobs) → is_upload s ≡ true → is_upload (run_blobs crypto p s).1 ≡ true
  unfolding run_blobs
  run_blobs_keeps p s w = grind (arith, set_blob_keeps, get_blob_state)

  -- Every request, whatever it holds and however it ends, keeps the upload in its array: `temp_lba`
  -- is of 2048 bytes, so that no fragment was written past its end, and the next offset is at most
  -- the length that is expected, which is at most 2048.
  pub cbor_large_blobs_keeps :
      (item : Item) (s : Blobs)
      → is_upload s ≡ true
      → is_upload (cbor_large_blobs crypto item s).1 ≡ true
  unfolding cbor_large_blobs
  cbor_large_blobs_keeps item s w = grind (arith, run_blobs_keeps)
