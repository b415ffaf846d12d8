-- ===== src/LargeBlobs/Array.antt =====
-- An array that is written to cbor_large_blobs.c in fragments is read again.
use pico_fido_microkey.Base.{
  ℕ, ◌+◌, ◌≡◌, ◌≤◌, ◌<◌, refl, sym, ap, subst, ◌∙◌, arith, true, some, List, [], ◌∷◌, ◌++◌, length,
  read_bytes, length-append, block-length,
}
use mathlib.Core.List.{append_assoc, append-nil}
use pico_fido_microkey.Base.Exec.{ok, is_ok}
use pico_fido_microkey.Sdk.{IsFlash}
use pico_fido_microkey.Files.{ef_largeblob}
use pico_fido_microkey.Device.{Crypto}
use pico_fido_microkey.LargeBlobs.{Blobs, no_blob_params, get_blob, run_blobs}
use pico_fido_microkey.LargeBlobs.Fragments.{
  Fragment, joined, fragment_request, Holds, Ready, Placed, fragment-Placed,
}

module _ (crypto : Crypto) where
  -- The fragments are sent one after the other, each at the end of the one before it.
  abbrev pub upload : ℕ → ℕ → ℕ → List Fragment → Blobs → Blobs
  upload protocol total offset [] s = s
  upload protocol total offset (f ∷ rest) s =
      upload protocol total (offset + length f.bytes) rest
        (run_blobs crypto (fragment_request protocol total offset f) s).1

  -- Every one of them is accepted.
  abbrev pub AllAccepted : ℕ → ℕ → ℕ → List Fragment → Blobs → Type 0
  AllAccepted protocol total offset [] s = Unit
  AllAccepted protocol total offset (f ∷ rest) s =
      (is_ok (run_blobs crypto (fragment_request protocol total offset f) s).0 ≡ true)
      × AllAccepted protocol total (offset + length f.bytes) rest
          (run_blobs crypto (fragment_request protocol total offset f) s).1

  module _ (laws : IsFlash crypto.flash) where
    Holds-Ready : (total : ℕ) (done : List ℕ) (s : Blobs) → Holds total done s → Ready total done s
    Holds-Ready total [] s h = tt
    Holds-Ready total (x ∷ done) s h = h

    fragment_at :
        (protocol total n : ℕ) (done : List ℕ) (f : Fragment) (s : Blobs)
        → length done ≡ n
        → Ready total done s
        → is_ok (run_blobs crypto (fragment_request protocol total n f) s).0 ≡ true
        → Placed total
            (done ++ f.bytes)
            (run_blobs crypto (fragment_request protocol total n f) s).1
    fragment_at protocol total n done f s e w =
        subst
          (λ k.
            is_ok (run_blobs crypto (fragment_request protocol total k f) s).0 ≡ true
            → Placed total (done ++ f.bytes)
                (run_blobs crypto (fragment_request protocol total k f) s).1)
          e (fragment-Placed crypto laws protocol total done f s w)

    uploaded_from :
        (protocol total n : ℕ) (done : List ℕ) (f : Fragment) (rest : List Fragment) (s : Blobs)
        → length done ≡ n
        → Ready total done s
        → AllAccepted protocol total n (f ∷ rest) s
        → length (done ++ joined (f ∷ rest)) ≡ total
        → (upload protocol total n (f ∷ rest) s).device.files ef_largeblob
          ≡ done ++ joined (f ∷ rest)
    uploaded_from protocol total n done f [] s e w a l = rw (append-nil f.bytes) (
        (fragment_at protocol total n done f s e w a.0).stored
          (ap (λ b. length (done ++ b)) (sym (append-nil f.bytes)) ∙ l))
    uploaded_from protocol total n done f (g ∷ rest) s e w a l =
        let t = (run_blobs crypto (fragment_request protocol total n f) s).1 in
        let now = done ++ f.bytes in
        let same = append_assoc done f.bytes (joined (g ∷ rest)) in
        let held = (fragment_at protocol total n done f s e w a.0).holds in
        uploaded_from protocol total (n + length f.bytes) now g rest t
          (omega (arith, e, length-append done f.bytes)) (Holds-Ready total now t held) a.1
          (ap length same ∙ l)
        ∙ same

    get_all :
        (want : ℕ) (all : List ℕ) (t : Blobs)
        → t.device.files ef_largeblob ≡ all
        → length all ≤ want
        → (get_blob crypto want 0 0 t).0 ≡ ok all
    unfolding get_blob read_bytes
    get_all want all t e l = ground (arith, block-length all (length all) refl)

    -- An array that is sent in fragments that are all accepted, the first one with the length of the
    -- array, is in the file when the last one has come, and a read of as many bytes or more gives it
    -- back, whatever was there before.
    pub upload_then_get :
        (protocol want : ℕ) (f : Fragment) (rest : List Fragment) (s : Blobs)
        → AllAccepted protocol (length (joined (f ∷ rest))) 0 (f ∷ rest) s
        → length (joined (f ∷ rest)) ≤ want
        → 0 < want
        → (run_blobs crypto
            (record no_blob_params { get = want; offset = some 0 })
            (upload protocol (length (joined (f ∷ rest))) 0 (f ∷ rest) s)).0
          ≡ ok (some (joined (f ∷ rest)))
    unfolding run_blobs
    upload_then_get protocol want f rest s a l p =
        let all = joined (f ∷ rest) in
        let t = upload protocol (length all) 0 (f ∷ rest) s in
        ground (
          arith,
          get_all want all t (uploaded_from protocol (length all) 0 [] f rest s refl tt a refl) l,
        )
