-- ===== src/Credential/Silent.antt =====
-- Proofs about the silent tag of credential.c, and about identifiers that are too short.
use pico_fido_microkey.Base.{
  ℕ, ◌-◌, ◌≤◌, ◌<◌, ◌≡◌, ◌∙◌, refl, ap, sym, subst, arith, true, false, List, ◌++◌, length,
  length-append, drop, drop-append, block, block-append, length-block, memcmp_eq-block, replicate,
  ltb,
}
use pico_fido_microkey.Base.Exec.{ok, err}
use pico_fido_microkey.Ctap.{memory_fault}
use pico_fido_microkey.Keys.{Fido}
use pico_fido_microkey.Credential.{
  CredSdk, cred_proto_22_s, is_new_format, overhead, credential_silent_tag, open_credential,
  verify_silent,
}
use pico_fido_microkey.Credential.Encode.{CredData, credential_create}
use pico_fido_microkey.Credential.Load.{load_handle, credential_load}
use pico_fido_microkey.Credential.Parts.{new_format, front_format}
use pico_fido_microkey.Credential.Sealed.{hash_of, plain_of, iv_of, sealed_of, created}

module _ (sdk : CredSdk) where
  silent_tag_front :
      (front a b rp_id_hash : List ℕ)
      → length a ≡ 16
      → length b ≡ 16
      → credential_silent_tag sdk (front ++ a) rp_id_hash
        ≡ credential_silent_tag sdk (front ++ b) rp_id_hash
  unfolding credential_silent_tag
  silent_tag_front front a b rp_id_hash e f =
      let m : length (front ++ a) - 16 ≡ length front = omega (arith, length-append front a) in
      let n : length (front ++ b) - 16 ≡ length front = omega (arith, length-append front b) in
      let x = block-append front a (length front) refl in
      let y = block-append front b (length front) refl in rw (m, n, x, y) refl

  silent_known :
      (front rp_id_hash : List ℕ)
      → is_new_format front ≡ true
      → 16 ≤ length front
      → verify_silent sdk
          (front ++ block 16 (credential_silent_tag sdk (front ++ replicate 16 0) rp_id_hash))
          rp_id_hash
        ≡ true
  unfolding verify_silent
  silent_known front rp_id_hash f l =
      let tag = credential_silent_tag sdk (front ++ replicate 16 0) rp_id_hash in
      let id = front ++ block 16 tag in
      let size = length-append front (block 16 tag) in
      let sixteen = length-block 16 tag in
      let long : ltb (length id) 32 ≡ false = ground (arith, size, sixteen) in
      let same = silent_tag_front front (block 16 tag) (replicate 16 0) rp_id_hash sixteen refl in
      let at : length id - 16 ≡ length front = omega (arith, size, sixteen) in
      let new : is_new_format id ≡ true = front_format front (block 16 tag) f (omega arith) in
      let last = ap (λ k. drop k id) at ∙ drop-append front (block 16 tag) (length front) refl in
      rw (long, new, same, last) (memcmp_eq-block tag 16)

  -- The silent tag of a credential that was made is known again, without the key of the device.
  pub verify_silent-credential_create :
      (d : CredData) (id : List ℕ) (s : Fido)
      → (credential_create sdk d s).0 ≡ ok id
      → verify_silent sdk id (hash_of sdk d) ≡ true
  verify_silent-credential_create d id s h =
      let cipher = block (length (plain_of sdk d s)) (sealed_of sdk d s).1.0 in
      let tag = (sealed_of sdk d s).1.1 in
      let front = cred_proto_22_s ++ (block 12 (iv_of sdk s) ++ (cipher ++ block 16 tag)) in
      subst (λ b. verify_silent sdk b (hash_of sdk d) ≡ true) (sym (created sdk d id s h).1)
        (silent_known front (hash_of sdk d)
          (new_format (block 12 (iv_of sdk s) ++ (cipher ++ block 16 tag)))
          (omega (
            arith,
            length-append (block 12 (iv_of sdk s)) (cipher ++ block 16 tag),
            length-block 12 (iv_of sdk s),
          )))

  open_fault :
      (t : Fido) (id rp_id_hash : List ℕ)
      → is_new_format id ≡ true
      → 32 ≤ length id
      → length id < 48
      → open_credential sdk t id rp_id_hash ≡ err memory_fault
  unfolding open_credential overhead
  open_fault t id rp_id_hash f l u =
      let long : ltb (length id) 32 ≡ false = ground arith in
      let short : ltb (length id) 48 ≡ true = ground arith in rw (long, f, short) refl

  -- An identifier of the new format that has from 32 to 47 bytes makes the length of its cipher text
  -- wrap around: opening it reads and writes past its end, for every relying party.
  pub credential_load_fault :
      (t : Fido) (id rp_id_hash : List ℕ)
      → is_new_format id ≡ true
      → 32 ≤ length id
      → length id < 48
      → credential_load sdk t id rp_id_hash ≡ err memory_fault
  unfolding credential_load load_handle
  credential_load_fault t id rp_id_hash f l u = ground (arith, open_fault t id rp_id_hash f l u)
