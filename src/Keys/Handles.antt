-- ===== src/Keys/Handles.antt =====
-- Proofs about the key handles of fido.c.
use pico_fido_microkey.Base.{
  ℕ, zero, suc, ◌+◌, ◌*◌, ◌<◌, ◌≡◌, ◌∙◌, ap, refl, sym, subst, arith, bit_or, bit_and, Bool, true,
  false, not, some, List, [], ◌∷◌, ◌++◌, length, length-append, block, block-block, length-block,
  length-drop, block-front, replicate, drop-front, byte_at-middle, read_bytes, drop, drop-append,
  memcmp_eq, memcmp_eq_refl, byte_at, ◌==◌, passes_upto, passes_upto-at,
}
use mathlib.Core.List.{append_assoc}
use pico_fido_microkey.Keys.{
  load_keydev, Fido, KeySdk, derive_path, new_path, derived, handle_tag, derive_new_key,
  derive_old_key, is_path, verify_key,
}

abbrev top_test : ℕ → Bool
top_test x = bit_and (bit_or x 0x80) 0x80 == 0

-- Random bytes are bytes.
abbrev pub IsRandom : KeySdk → Type 0
IsRandom sdk = (i k : ℕ) → byte_at (block 4 (sdk.crypto.random_gen i 4)) k < 256

top_everywhere : passes_upto (λ x. not (top_test x)) 256 ≡ true
unfolding passes_upto
top_everywhere = refl

top_bit : (x : ℕ) → x < 256 → top_test x ≡ false
top_bit x h = ground (arith, passes_upto-at (λ y. not (top_test y)) 256 x h top_everywhere)

module _ (sdk : KeySdk) where
  -- The entry of a path that is drawn.
  abbrev entry : ℕ → List ℕ
  entry draws =
      let val = block 4 (sdk.crypto.random_gen draws 4) in
      block 3 val ++ bit_or (byte_at val 3) 0x80 ∷ []

  pub length-new_path : (n draws : ℕ) → length (new_path sdk n draws) ≡ n * 4
  unfolding new_path
  length-new_path zero draws = refl
  length-new_path (suc n) draws =
      let val = block 4 (sdk.crypto.random_gen draws 4) in
      omega (
        arith,
        length-append (block 3 val) (bit_or (byte_at val 3) 0x80 ∷ new_path sdk n (draws + 1)),
        length-block 3 val,
        length-new_path n (draws + 1),
      )

  path_step :
      (n : ℕ) (handle : List ℕ)
      → (bit_and (byte_at handle 3) 0x80 == 0) ≡ false
      → is_path sdk n (drop 4 handle) ≡ true
      → is_path sdk (suc n) handle ≡ true
  unfolding is_path
  path_step n handle b h = ground arith

  is_path-new_path :
      (random : IsRandom sdk) (n draws : ℕ) (rest : List ℕ)
      → is_path sdk n (new_path sdk n draws ++ rest) ≡ true
  unfolding is_path new_path block
  is_path-new_path random zero draws rest = refl
  is_path-new_path random (suc n) draws rest =
      let val = block 4 (sdk.crypto.random_gen draws 4) in
      let top = bit_or (byte_at val 3) 0x80 in
      let more = new_path sdk n (draws + 1) ++ rest in
      let e = append_assoc (block 3 val) (top ∷ new_path sdk n (draws + 1)) rest in
      let here = byte_at-middle (block 3 val) more 3 top (length-block 3 val) in
      let after =
        drop-append (block 3 val ++ top ∷ []) more 4
          (omega (arith, length-append (block 3 val) (top ∷ []), length-block 3 val)) in
      let tail = ap (drop 4) (sym (append_assoc (block 3 val) (top ∷ []) more)) ∙ after in
      path_step n (new_path sdk (suc n) draws ++ rest)
        (ap (λ b. bit_and (byte_at b 3) 0x80 == 0) e
          ∙ ap (λ x. bit_and x 0x80 == 0) here
          ∙ top_bit (byte_at val 3) (random draws 3))
        (ap (λ b. is_path sdk n (drop 4 b)) e
          ∙ ap (is_path sdk n) tail
          ∙ is_path-new_path random n (draws + 1) rest)

  derive_path-append :
      (n : ℕ) (path rest outk : List ℕ)
      → length path ≡ n * 4
      → derive_path sdk n (path ++ rest) outk ≡ derive_path sdk n path outk
  unfolding derive_path
  derive_path-append zero path rest outk e = refl
  derive_path-append (suc n) path rest outk e =
      let next = (sdk.hkdf_sha512 (block 4 path) (block 32 outk) (read_bytes outk 32 32)).1 in
      let ih =
        derive_path-append n (drop 4 path) rest (block 67 next)
          (omega (arith, length-drop 4 path)) in
      rw (block-front 4 path rest (omega arith), drop-front 4 path rest (omega arith), ih) refl

  pub derived-append :
      (s : Fido) (path rest : List ℕ)
      → length path ≡ 32
      → derived sdk s (path ++ rest) ≡ derived sdk s path
  unfolding derived
  derived-append s path rest e =
      let outk = (load_keydev sdk s (replicate 67 0)).1 in
      rw (derive_path-append 8 path rest outk e) refl

  handle_tag-append :
      (key app_id path rest : List ℕ)
      → length path ≡ 32
      → handle_tag sdk (block 32 key) app_id (path ++ rest) ≡ handle_tag sdk key app_id path
  unfolding handle_tag
  handle_tag-append key app_id path rest e =
      rw (block-front 32 path rest (omega arith), block-block 32 key) refl

  block-handle_tag :
      (key app_id path : List ℕ)
      → block 32 (handle_tag sdk key app_id path) ≡ handle_tag sdk key app_id path
  unfolding handle_tag
  block-handle_tag key app_id path = block-block 32 _

  -- The tag at the end of a handle is the one that is compared.
  tag_matches :
      (path tag : List ℕ)
      → length path ≡ 32
      → block 32 tag ≡ tag
      → memcmp_eq (drop 32 (path ++ tag)) tag 32 ≡ true
  tag_matches path tag e b =
      ap (λ d. memcmp_eq d tag 32) (drop-append path tag 32 e) ∙ memcmp_eq_refl tag 32

  pub made_handle :
      (app_id handle outk : List ℕ) (s : Fido)
      → derived sdk s (new_path sdk 8 s.device.draws) ≡ some outk
      → derive_new_key sdk app_id s ≡ some handle
      → handle
        ≡ new_path sdk 8 s.device.draws
          ++ handle_tag sdk outk app_id (new_path sdk 8 s.device.draws)
  unfolding derive_new_key
  made_handle app_id handle outk s d h = ground arith

  accepts :
      (app_id handle key : List ℕ) (s : Fido)
      → is_path sdk 8 handle ≡ true
      → derive_old_key sdk handle s ≡ some key
      → sdk.ecp_write_key key ≡ (0, key)
      → memcmp_eq (drop 32 handle) (handle_tag sdk key app_id handle) 32 ≡ true
      → verify_key sdk app_id handle s ≡ true
  unfolding verify_key
  accepts app_id handle key s p d w m = rw (p, d, w) m

  -- A key handle that was made for an application is accepted for it, if the curve takes the derived
  -- key and gives it back as it was read.
  pub verify_key-derive_new_key :
      (random : IsRandom sdk) (app_id handle outk : List ℕ) (s : Fido)
      → derived sdk s (new_path sdk 8 s.device.draws) ≡ some outk
      → sdk.ecp_read_key (block 32 outk) ≡ 0
      → sdk.ecp_mul (block 32 outk) ≡ 0
      → sdk.ecp_write_key (block 32 outk) ≡ (0, block 32 outk)
      → derive_new_key sdk app_id s ≡ some handle
      → verify_key sdk app_id handle s ≡ true
  unfolding derive_old_key
  verify_key-derive_new_key random app_id handle outk s d r m w h =
      let path = new_path sdk 8 s.device.draws in
      let tag = handle_tag sdk outk app_id path in
      let e = length-new_path 8 s.device.draws in
      let old = derived-append s path tag e ∙ d in
      let same = handle_tag-append outk app_id path tag e in
      subst (λ b. verify_key sdk app_id b s ≡ true) (sym (made_handle app_id handle outk s d h))
        (accepts app_id (path ++ tag) (block 32 outk) s
          (is_path-new_path random 8 s.device.draws tag) (ground (arith, old)) w
          (ap (λ t. memcmp_eq (drop 32 (path ++ tag)) t 32) same
            ∙ tag_matches path tag e (block-handle_tag outk app_id path)))
