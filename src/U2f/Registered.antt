-- ===== src/U2f/Registered.antt =====
-- Proofs about the key handles of cmd_register.c in cmd_authenticate.c.
use pico_fido_microkey.Base.{
  ℕ, ◌≡◌, ◌∙◌, refl, ap, sym, arith, Bool, true, false, none, some, Option-cases, inl, inr, List,
  [], ◌∷◌, ◌++◌, length, length-append, block, block-append, block-block, byte_at-middle, ltb,
  length-block, drop, drop-append, read_bytes, byte_at,
}
use mathlib.Core.List.{append_assoc}
use pico_fido_microkey.Base.Exec.{ok, err}
use pico_fido_microkey.Apdu.{Apdu, conditions_not_satisfied}
use pico_fido_microkey.Ctap.{invalid_credential}
use pico_fido_microkey.Files.{ef_ee_dev}
use pico_fido_microkey.Keys.{
  Fido, KeySdk, derived, new_path, handle_tag, derive_new_key, derive_old_key, verify_key,
}
use pico_fido_microkey.Keys.Handles.{
  IsRandom, derived-append, length-new_path, made_handle, verify_key-derive_new_key,
}
use pico_fido_microkey.Credential.{open_credential}
use pico_fido_microkey.U2f.Draws.{drawn, derive_old_key-drawn}
use pico_fido_microkey.U2f.{
  U2fSdk, made_key, handle_key, key_for, written, attest, register_base, cmd_register,
  cmd_authenticate,
}

-- The handle in an answer to a registration.
abbrev pub handle_in : List ℕ → List ℕ
handle_in answer = read_bytes answer 67 64

-- A request to know whether a handle is for an application.
abbrev pub check_request : List ℕ → List ℕ → List ℕ → Apdu
check_request chal app_id handle = record {
  cla = 0;
  ins = 2;
  p1 = 7;
  p2 = 0;
  nc = 129;
  buffer = block 32 chal ++ (block 32 app_id ++ (64 ∷ handle));
}

module _ (keys : KeySdk) where
  -- The curve gives back a key that it reads.
  abbrev pub IsCurve : Type 0
  IsCurve = (k : List ℕ) → length k ≡ 32 → keys.ecp_read_key k ≡ 0 → keys.ecp_write_key k ≡ (0, k)

  old_key :
      (s : Fido) (handle key outk : List ℕ)
      → derived keys s handle ≡ some outk
      → derive_old_key keys handle s ≡ some key
      → (key ≡ block 32 outk) × (keys.ecp_read_key key ≡ 0) × (keys.ecp_mul key ≡ 0)
  unfolding derive_old_key
  old_key s handle key outk d h = ground (arith, d)

  none_made :
      (app_id handle : List ℕ) (s : Fido)
      → derived keys s (new_path keys 8 s.device.draws) ≡ none
      → derive_new_key keys app_id s ≡ some handle
      → ⊥
  unfolding derive_new_key
  none_made app_id handle s e h = ground (arith, e)

  -- A new handle with its key.
  new_handle_known :
      (random : IsRandom keys) (curve : IsCurve) (app_id handle key : List ℕ) (s : Fido)
      → derive_new_key keys app_id s ≡ some handle
      → derive_old_key keys handle s ≡ some key
      → (verify_key keys app_id handle s ≡ true)
        × (keys.ecp_write_key key ≡ (0, key))
        × (length handle ≡ 64)
  unfolding handle_tag
  new_handle_known random curve app_id handle key s h k =
      elim (Option-cases (derived keys s (new_path keys 8 s.device.draws))) [
        | inl e ↦ absurd (none_made app_id handle s e h)
        | inr (outk, e) ↦
            let path = new_path keys 8 s.device.draws in
            let tag = handle_tag keys outk app_id path in
            let made = made_handle keys app_id handle outk s e h in
            let size = length-new_path keys 8 s.device.draws in
            let old = ap (derived keys s) made ∙ derived-append keys s path tag size ∙ e in
            let (same, read, mul) = old_key s handle key outk old k in
            let written = curve key (ap length same ∙ length-block 32 outk) read in
            let w = ap keys.ecp_write_key (sym same) ∙ written ∙ ap (λ b. (0, b)) same in
            (
              verify_key-derive_new_key keys random app_id handle outk s e
                  (ap keys.ecp_read_key (sym same) ∙ read) (ap keys.ecp_mul (sym same) ∙ mul) w h,
              written,
              ap length made
                  ∙ omega (
                    arith,
                    length-append path tag,
                    size,
                    length-block 32
                        (keys.crypto.hmac_sha256 (block 32 outk)
                          (block 32 app_id ++ block 32 path)).1,
                  ),
            )
      ]

module _ (sdk : U2fSdk) where
  handle_key-known :
      (app_id handle key : List ℕ) (s : Fido)
      → verify_key sdk.cred.keys app_id handle s ≡ true
      → derive_old_key sdk.cred.keys handle s ≡ some key
      → sdk.cred.keys.ecp_write_key key ≡ (0, key)
      → handle_key sdk app_id handle s ≡ ok key
  unfolding handle_key verify_key written
  handle_key-known app_id handle key s v k w = ground (arith, k, w)

  handle_key-drawn :
      (n : ℕ) (app_id handle : List ℕ) (s : Fido)
      → handle_key sdk app_id handle (drawn n s) ≡ handle_key sdk app_id handle s
  unfolding handle_key
  handle_key-drawn n app_id handle s = rw (derive_old_key-drawn sdk.cred.keys n s handle) refl

  made_both :
      (app_id handle key : List ℕ) (s : Fido)
      → made_key sdk app_id s ≡ some (handle, key)
      → (derive_new_key sdk.cred.keys app_id s ≡ some handle)
        × (derive_old_key sdk.cred.keys handle s ≡ some key)
  unfolding made_key
  made_both app_id handle key s h = elim (Option-cases (derive_new_key sdk.cred.keys app_id s)) [
    | inl n ↦ ground (arith, n)
    | inr (made, n) ↦ elim (Option-cases (derive_old_key sdk.cred.keys made s)) [
      | inl m ↦ ground (arith, n, m)
      | inr (k, m) ↦ ground (arith, n, m)
    ]
  ]

  registered :
      (timeout : Bool) (a : Apdu) (s t : Fido) (answer : List ℕ)
      → cmd_register sdk timeout a s ≡ (ok answer, t)
      → (handle : List ℕ) × (key : List ℕ) × (point : List ℕ) × (rest : List ℕ) × (made_key sdk
            (read_bytes a.buffer 32 32)
            s
          ≡ some (handle, key))
        × (t ≡ drawn 8 s)
        × (answer ≡ 0x05 ∷ (block 65 point ++ (64 ∷ (handle ++ rest))))
  unfolding cmd_register
  registered timeout a s t answer h =
      elim (Option-cases (made_key sdk (read_bytes a.buffer 32 32) s)) [
        | inl e ↦ absurd (ground (arith, e))
        | inr ((handle, key), e) ↦
            let point = (sdk.point key).1 in
            let base = register_base (read_bytes a.buffer 32 32) (block 32 a.buffer) handle point in
            elim (Option-cases (attest sdk s base)) [
              | inl f ↦ absurd (ground (arith, e, f))
              | inr (sig, f) ↦ (
                handle,
                key,
                point,
                s.device.files ef_ee_dev ++ sig,
                e,
                ground (arith, e, f),
                ground (arith, e, f),
              )
            ]
      ]

  checks_only :
      (timeout : Bool) (a : Apdu) (key : List ℕ) (t : Fido)
      → ltb a.nc 66 ≡ false
      → byte_at a.buffer 64 ≡ 64
      → a.p1 ≡ 7
      → key_for sdk (read_bytes a.buffer 32 32) (drop 65 a.buffer) (byte_at a.buffer 64) t ≡ ok key
      → cmd_authenticate sdk timeout a t ≡ (err conditions_not_satisfied, t)
  unfolding cmd_authenticate
  checks_only timeout a key t n l p k = ground (arith, k)

  key_for-handle_key :
      (app_id handle key : List ℕ) (len : ℕ) (t : Fido)
      → open_credential sdk.cred t (block len handle) app_id ≡ err invalid_credential
      → handle_key sdk app_id handle t ≡ ok key
      → key_for sdk app_id handle len t ≡ ok key
  unfolding key_for
  key_for-handle_key app_id handle key len t o k = ground (arith, o, k)

  checked :
      (timeout : Bool) (chal app_id handle key : List ℕ) (t : Fido)
      → open_credential sdk.cred t (block 64 handle) (block 32 app_id) ≡ err invalid_credential
      → handle_key sdk (block 32 app_id) handle t ≡ ok key
      → cmd_authenticate sdk timeout (check_request chal app_id handle) t
        ≡ (err conditions_not_satisfied, t)
  unfolding read_bytes
  checked timeout chal app_id handle key t o k =
      let a = check_request chal app_id handle in
      let c = length-block 32 chal in
      let d = length-block 32 app_id in
      let tail = block 32 app_id ++ (64 ∷ handle) in
      let app : read_bytes a.buffer 32 32 ≡ block 32 app_id =
        ap (block 32) (drop-append (block 32 chal) tail 32 c)
        ∙ block-append (block 32 app_id) (64 ∷ handle) 32 d in
      let both = append_assoc (block 32 chal) (block 32 app_id) (64 ∷ handle) in
      let front = block 32 chal ++ block 32 app_id in
      let size : length front ≡ 64 =
        omega (arith, length-append (block 32 chal) (block 32 app_id), c, d) in
      let len : byte_at a.buffer 64 ≡ 64 =
        ap (λ b. byte_at b 64) (sym both) ∙ byte_at-middle front handle 64 64 size in
      let longer : length (front ++ 64 ∷ []) ≡ 65 =
        omega (arith, length-append front (64 ∷ []), size) in
      let last : drop 65 a.buffer ≡ handle =
        ap (drop 65) (sym both ∙ sym (append_assoc front (64 ∷ []) handle))
        ∙ drop-append (front ++ 64 ∷ []) handle 65 longer in
      checks_only timeout a key t refl len refl (
        ap (λ x. key_for sdk x (drop 65 a.buffer) (byte_at a.buffer 64) t) app
        ∙ ap (λ x. key_for sdk (block 32 app_id) x (byte_at a.buffer 64) t) last
        ∙ ap (λ n. key_for sdk (block 32 app_id) handle n t) len
        ∙ key_for-handle_key (block 32 app_id) handle key 64 t o k)

  handle_in-answer :
      (point handle rest : List ℕ)
      → length handle ≡ 64
      → handle_in (0x05 ∷ (block 65 point ++ (64 ∷ (handle ++ rest)))) ≡ handle
  unfolding read_bytes
  handle_in-answer point handle rest e =
      let front = 0x05 ∷ (block 65 point ++ 64 ∷ []) in
      let size : length front ≡ 67 =
        omega (arith, length-append (block 65 point) (64 ∷ []), length-block 65 point) in
      let split = ap (λ b. 0x05 ∷ b) (append_assoc (block 65 point) (64 ∷ []) (handle ++ rest)) in
      ap (λ b. block 64 (drop 67 b)) (sym split)
      ∙ ap (block 64) (drop-append front (handle ++ rest) 67 size)
      ∙ block-append handle rest 64 e

  -- After a registration, the handle in its answer is for the application: asked whether it is, the
  -- device answers that only the touch is missing, if the handle cannot also be opened as a
  -- credential and the curve gives back each key that it reads.
  pub register_then_check :
      (random : IsRandom sdk.cred.keys) (curve : IsCurve sdk.cred.keys)
      → (timeout timeout' : Bool) (a : Apdu) (s t : Fido) (answer chal : List ℕ)
      → cmd_register sdk timeout a s ≡ (ok answer, t)
      → open_credential sdk.cred t (block 64 (handle_in answer)) (read_bytes a.buffer 32 32)
        ≡ err invalid_credential
      → cmd_authenticate sdk timeout'
          (check_request chal (read_bytes a.buffer 32 32) (handle_in answer))
          t
        ≡ (err conditions_not_satisfied, t)
  unfolding read_bytes
  register_then_check random curve timeout timeout' a s t answer chal h o =
      let app_id = read_bytes a.buffer 32 32 in
      let (handle, key, point, rest, made, after, form) = registered timeout a s t answer h in
      let (new, old) = made_both app_id handle key s made in
      let (verified, written, size) =
        new_handle_known sdk.cred.keys random curve app_id handle key s new old in
      let inside : handle_in answer ≡ handle =
        ap handle_in form ∙ handle_in-answer point handle rest size in
      let app : block 32 app_id ≡ app_id = block-block 32 (drop 32 a.buffer) in
      let known : handle_key sdk (block 32 app_id) (handle_in answer) t ≡ ok key =
        ap (λ x. handle_key sdk x (handle_in answer) t) app
        ∙ ap (λ x. handle_key sdk app_id x t) inside
        ∙ ap (handle_key sdk app_id handle) after
        ∙ handle_key-drawn 8 app_id handle s
        ∙ handle_key-known app_id handle key s verified old written in
      checked timeout' chal app_id (handle_in answer) key t
        (ap (open_credential sdk.cred t (block 64 (handle_in answer))) app ∙ o) known
