-- ===== src/LargeBlobs/Fragments.antt =====
-- One fragment of an upload to cbor_large_blobs.c.
use pico_fido_microkey.Base.{
  ℕ, suc, ◌≡◌, refl, ap, ◌∙◌, arith, Bool, Bool-cases, inl, inr, true, false, some, List, [], ◌∷◌,
  ◌++◌, length, replicate, block, length-append, block-write_bytes, ◌==◌, if◌then◌else◌,
}
use pico_fido_microkey.Base.Exec.{is_ok}
use pico_fido_microkey.Sdk.{IsFlash}
use pico_fido_microkey.Files.{ef_largeblob}
use pico_fido_microkey.Device.{Crypto}
use pico_fido_microkey.LargeBlobs.{
  Blobs, BlobParams, no_blob_params, start_upload, append_fragment, finish_upload, place_fragment,
  set_blob, run_blobs, max_large_blob_size,
}
use pico_fido_microkey.LargeBlobs.Upload.{authenticate_fragment_state}

-- The fragments of an upload, each with its tag.
pub record Fragment : Type 0 where
  pub bytes : List ℕ
  pub param : List ℕ

abbrev pub joined : List Fragment → List ℕ
joined [] = []
joined (f ∷ rest) = f.bytes ++ joined rest

-- The request for a fragment at an offset of an array of `total` bytes.
abbrev pub fragment_request : ℕ → ℕ → ℕ → Fragment → BlobParams
fragment_request protocol total offset f = record no_blob_params {
  set = some f.bytes;
  offset = some offset;
  len = if offset == 0 then total else 0;
  pin_uv_auth_param = some f.param;
  pin_uv_auth_protocol = protocol;
}

-- The bytes of an upload that are there already.
pub record Holds (total : ℕ) (done : List ℕ) (s : Blobs) : Type 0 where
  pub offset : s.expected_next_offset ≡ length done
  pub expected : s.expected_length ≡ total
  pub bytes : block (length done) s.temp_lba ≡ done

-- An upload that has not begun may start in any state.
abbrev pub Ready : ℕ → List ℕ → Blobs → Type 0
Ready total [] s = Unit
Ready total (x ∷ done) s = Holds total (x ∷ done) s

-- What a fragment leaves: its bytes are there, and the whole array is in the file if that was all.
pub record Placed (total : ℕ) (done : List ℕ) (t : Blobs) : Type 0 where
  pub holds : Holds total done t
  pub stored : length done ≡ total → t.device.files ef_largeblob ≡ done

module _ (crypto : Crypto) where
  append-Holds :
      (total : ℕ) (done set : List ℕ) (s : Blobs)
      → s.expected_next_offset ≡ length done
      → s.expected_length ≡ total
      → block
          (length done)
          (if length done == 0 then replicate max_large_blob_size 0 else s.temp_lba)
        ≡ done
      → Holds total (done ++ set) (append_fragment crypto (length done) set s)
  unfolding append_fragment
  append-Holds total done set s o e b =
      let temp = (if length done == 0 then replicate max_large_blob_size 0 else s.temp_lba) in
      record {
        offset = omega (arith, o, length-append done set);
        expected = e;
        bytes =
            rw (length-append done set, o)
              (block-write_bytes temp (length done) set ∙ ap (λ d. d ++ set) b);
      }

  module _ (laws : IsFlash crypto.flash) where
    -- The file after the last fragment.
    finish-Holds :
        (total : ℕ) (done : List ℕ) (s : Blobs)
        → Holds total done s
        → is_ok (finish_upload crypto s).0 ≡ true
        → Holds total done (finish_upload crypto s).1
    unfolding finish_upload
    finish-Holds total done s w h = record {
      offset = ground (arith, w.offset);
      expected = ground (arith, w.expected);
      bytes = ground (arith, w.bytes);
    }

    finish-file :
        (total : ℕ) (done : List ℕ) (s : Blobs)
        → Holds total done s
        → is_ok (finish_upload crypto s).0 ≡ true
        → length done ≡ total
        → (finish_upload crypto s).1.device.files ef_largeblob ≡ done
    unfolding finish_upload
    finish-file total done s w h l = ground (
      arith,
      w.expected,
      w.bytes,
      laws.put_lem s.device.files ef_largeblob (block s.expected_length s.temp_lba) ef_largeblob,
    )

    placed :
        (total : ℕ) (done : List ℕ) (s : Blobs)
        → Holds total done s
        → (if s.expected_next_offset == s.expected_length
            then is_ok (finish_upload crypto s).0
            else true)
          ≡ true
        → Placed total done
            (if s.expected_next_offset == s.expected_length then (finish_upload crypto s).1 else s)
    placed total done s w h = elim (Bool-cases (s.expected_next_offset == s.expected_length)) [
      | inl e ↦
          let k : is_ok (finish_upload crypto s).0 ≡ true = ground arith in
          rw e (record {
            holds = finish-Holds total done s w k;
            stored = finish-file total done s w k;
          })
      | inr e ↦
          rw e (record { holds = w; stored = λ l. absurd (ground (arith, w.offset, w.expected)) })
    ]

    abbrev stays : Blobs → Blobs
    stays a = if a.expected_next_offset == a.expected_length then (finish_upload crypto a).1 else a

    abbrev finishes : Blobs → Bool
    finishes a =
        if a.expected_next_offset == a.expected_length
        then is_ok (finish_upload crypto a).0
        else true

    place_fragment_ok :
        (p : BlobParams) (offset : ℕ) (set : List ℕ) (s : Blobs)
        → is_ok (place_fragment crypto p offset set s).0 ≡ true
        → (s.expected_next_offset ≡ offset)
          × (((place_fragment crypto p offset set s).1
                ≡ stays (append_fragment crypto offset set s))
              × (finishes (append_fragment crypto offset set s) ≡ true))
    unfolding place_fragment
    place_fragment_ok p offset set s h =
        ground (arith, authenticate_fragment_state crypto p offset set s)

    place_fragment-Placed :
        (total : ℕ) (done : List ℕ) (p : BlobParams) (set : List ℕ) (s : Blobs)
        → s.expected_length ≡ total
        → block
            (length done)
            (if length done == 0 then replicate max_large_blob_size 0 else s.temp_lba)
          ≡ done
        → is_ok (place_fragment crypto p (length done) set s).0 ≡ true
        → Placed total (done ++ set) (place_fragment crypto p (length done) set s).1
    place_fragment-Placed total done p set s e b h =
        let r = place_fragment_ok p (length done) set s h in
        rw r.1.0 (
          placed total (done ++ set) (append_fragment crypto (length done) set s)
            (append-Holds total done set s r.0 e b) r.1.1)

    abbrev started : ℕ → Blobs → Blobs
    started total s = record s { expected_length = total; expected_next_offset = 0 }

    run_first :
        (protocol total : ℕ) (f : Fragment) (s : Blobs)
        → let p = fragment_request protocol total 0 f in
          is_ok (run_blobs crypto p s).0 ≡ true
          → ((run_blobs crypto p s).1 ≡ (place_fragment crypto p 0 f.bytes (started total s)).1)
            × (is_ok (place_fragment crypto p 0 f.bytes (started total s)).0 ≡ true)
    unfolding run_blobs set_blob start_upload
    run_first protocol total f s h = ground arith

    run_next :
        (protocol total n : ℕ) (f : Fragment) (s : Blobs)
        → let p = fragment_request protocol total (suc n) f in
          is_ok (run_blobs crypto p s).0 ≡ true
          → ((run_blobs crypto p s).1 ≡ (place_fragment crypto p (suc n) f.bytes s).1)
            × (is_ok (place_fragment crypto p (suc n) f.bytes s).0 ≡ true)
    unfolding run_blobs set_blob start_upload
    run_next protocol total n f s h = ground arith

    suc_is_not_0 : (n : ℕ) → (suc n == 0) ≡ false
    suc_is_not_0 n = ground arith

    no_bytes : (xs : List ℕ) → block 0 xs ≡ []
    unfolding block
    no_bytes xs = refl

    -- One fragment of an upload, accepted.
    pub fragment-Placed :
        (protocol total : ℕ) (done : List ℕ) (f : Fragment) (s : Blobs)
        → Ready total done s
        → is_ok (run_blobs crypto (fragment_request protocol total (length done) f) s).0 ≡ true
        → Placed total
            (done ++ f.bytes)
            (run_blobs crypto (fragment_request protocol total (length done) f) s).1
    fragment-Placed protocol total [] f s w h =
        let r = run_first protocol total f s h in
        rw r.0 (
          place_fragment-Placed total [] (fragment_request protocol total 0 f) f.bytes
            (started total s) refl (no_bytes _) r.1)
    fragment-Placed protocol total (x ∷ done) f s w h =
        let r = run_next protocol total (length done) f s h in
        rw r.0 (
          place_fragment-Placed total (x ∷ done)
            (fragment_request protocol total (suc (length done)) f) f.bytes s w.expected
            (rw (suc_is_not_0 (length done)) w.bytes) r.1)
