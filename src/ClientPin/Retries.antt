-- ===== src/ClientPin/Retries.antt =====
-- What a request with a wrong PIN, or with the right one, does to the PIN file of
-- cbor_client_pin.c.
use pico_fido_microkey.Base.{
  Option-cases, Bool-cases, ◌∙◌, leb, ◌≤◌, ◌-◌, length, drop, if◌then◌else◌, block-front,
  length-block, ℕ, ◌+◌, ◌%◌, ◌≡◌, refl, ◌==◌, ◌&&◌, arith, Bool, true, false, [], ◌∷◌, List, none,
  some, inl, inr, memcmp_eq, block, block-block, ◌++◌, read_bytes,
}
use pico_fido_microkey.Base.Exec.{Result-cases, is_ok}
use pico_fido_microkey.Sdk.{Contents, IsFlash}
use pico_fido_microkey.Files.{ef_pin, ef_mkek}
use pico_fido_microkey.Device.{Device, Crypto}
use pico_fido_microkey.Token.{regenerate}
use pico_fido_microkey.Kek.{store_mkek, seal_mkek, mkek_size}
use pico_fido_microkey.ClientPin.Protocol.{Written, overrun, wrote, ecdh, decrypt}
use pico_fido_microkey.ClientPin.Params.{Params}
use pico_fido_microkey.ClientPin.Checks.{
  check_token, check_change, check_token-TokenAccepted, check_change-ChangeAccepted,
}
use pico_fido_microkey.ClientPin.Steps.{
  pin_retries, pin_hash, check_mkek_encrypted, try_pin, with_retries,
}
use pico_fido_microkey.ClientPin.Commands.{get_pin_token, change_pin}

abbrev pub hash_of : List ℕ → List ℕ
hash_of f = read_bytes f 2 32

pub hash-set_retries : (n : ℕ) (f : List ℕ) → hash_of (n ∷ read_bytes f 1 33) ≡ hash_of f
unfolding read_bytes
hash-set_retries n [] = refl
hash-set_retries n (x ∷ []) = refl
hash-set_retries n (x ∷ y ∷ f) = block-block 32 f

pub pin_hash-with_retries : (n : ℕ) (c : Contents) → read_bytes (with_retries n c) 2 32 ≡ pin_hash c
pin_hash-with_retries n c = hash-set_retries n (c ef_pin)

module _ (crypto : Crypto) where
  abbrev pub decrypts_to_pin : Written → List ℕ → Bool
  decrypts_to_pin overrun hash = false
  decrypts_to_pin (wrote ret out) hash =
      ret == 0 && memcmp_eq (crypto.double_hash_pin (block 16 out)) hash 32

  -- Whether the first 16 bytes of the array are the hash of the stored PIN, when the request was
  -- decrypted into it under the shared secret, over what it held before.
  abbrev pub pin_matches_over : List ℕ → Params → Device → Bool
  pin_matches_over before p s = elim p.key.kax [
    | none ↦ false
    | some x ↦ elim p.key.kay [
      | none ↦ false
      | some y ↦ elim p.pin_hash_enc [
        | none ↦ false
        | some enc ↦
            decrypts_to_pin
              (decrypt crypto p.pin_uv_auth_protocol
                (ecdh crypto p.pin_uv_auth_protocol s.hkey x y).1 enc 64 before)
              (pin_hash s.files)
      ]
    ]
  ]

  -- The array is not initialised.
  abbrev pub pin_matches : Params → Device → Bool
  pin_matches p s = pin_matches_over (crypto.stack s.draws) p s

  -- Whether 16 bytes are decrypted.
  abbrev pub full_hash : Params → Bool
  full_hash p = elim p.pin_hash_enc [
    | none ↦ false
    | some enc ↦ leb 16 (length enc - (if p.pin_uv_auth_protocol == 1 then 0 else 16))
  ]

  front_only :
      (n : ℕ) (out rest : List ℕ) → 16 ≤ n → block 16 (block n out ++ rest) ≡ block 16 (block n out)
  front_only n out rest l = block-front 16 (block n out) rest (omega (arith, length-block n out))

  -- With 16 bytes, it does not matter what the array held before.
  decrypts_full :
      (protocol : ℕ) (key enc a b hash : List ℕ)
      → leb 16 (length enc - (if protocol == 1 then 0 else 16)) ≡ true
      → decrypts_to_pin (decrypt crypto protocol key enc 64 a) hash
        ≡ decrypts_to_pin (decrypt crypto protocol key enc 64 b) hash
  unfolding decrypt
  decrypts_full protocol key enc a b hash f =
      let first = (crypto.aes_cbc_decrypt (block 32 key) none enc).1 in
      let second =
        (crypto.aes_cbc_decrypt (block 32 (drop 32 key)) (some (block 16 enc)) (drop 16 enc)).1 in
      let n = length enc in
      ground (
        arith,
        front_only n first (drop n (block 64 a)),
        front_only n first (drop n (block 64 b)),
        front_only (n - 16) second (drop (n - 16) (block 64 a)),
        front_only (n - 16) second (drop (n - 16) (block 64 b)),
      )

  matches_full :
      (a b : List ℕ) (p : Params) (s : Device)
      → full_hash p ≡ true
      → pin_matches_over a p s ≡ pin_matches_over b p s
  matches_full a b p s f = elim (Option-cases p.key.kax) [
    | inl e ↦ rw e refl
    | inr (x, e) ↦ elim (Option-cases p.key.kay) [
      | inl g ↦ rw (e, g) refl
      | inr (y, g) ↦ elim (Option-cases p.pin_hash_enc) [
        | inl h ↦ rw (e, g, h) refl
        | inr (enc, h) ↦
            let protocol = p.pin_uv_auth_protocol in
            let full : leb 16 (length enc - (if protocol == 1 then 0 else 16)) ≡ true =
              ground (arith, f, h) in
            rw (e, g, h)
              (decrypts_full protocol (ecdh crypto protocol s.hkey x y).1 enc a b (pin_hash s.files)
                full)
      ]
    ]
  ]

  module _ (laws : IsFlash crypto.flash) where
    pub store_mkek-file :
        (m : List ℕ) (s : Device) (g : ℕ)
        → (ef_mkek == g) ≡ false
        → (store_mkek crypto (some m) s).1.files g ≡ s.files g
    unfolding store_mkek
    store_mkek-file m s g h =
        ground (
          arith,
          laws.put_lem s.files ef_mkek (seal_mkek crypto s.session_pin (block mkek_size m)) g,
        )

    pub check_mkek_encrypted-file :
        (dhash : List ℕ) (s : Device) (g : ℕ)
        → (ef_mkek == g) ≡ false
        → (check_mkek_encrypted crypto dhash s).1.files g ≡ s.files g
    unfolding check_mkek_encrypted
    check_mkek_encrypted-file dhash s g h = ground (
      arith,
      store_mkek-file (s.files ef_mkek ++ 0 ∷ 0 ∷ 0 ∷ 0 ∷ [])
          (record s { session_pin = crypto.hash_multi (block 16 dhash) }) g h,
    )

    pub try_pin_ok :
        (protocol : ℕ) (secret enc : List ℕ) (s : Device)
        → is_ok (try_pin crypto protocol secret enc s).0
          ≡ decrypts_to_pin
              (decrypt crypto protocol secret enc 64 (crypto.stack s.draws))
              (pin_hash s.files)
    unfolding try_pin
    try_pin_ok protocol secret enc s = ground (
      arith,
      pin_hash-with_retries ((pin_retries s.files + 255) % 256) s.files,
      laws.put_lem s.files ef_pin (with_retries ((pin_retries s.files + 255) % 256) s.files) ef_pin,
    )

    pub try_pin-ef_pin :
        (protocol : ℕ) (secret enc : List ℕ) (s : Device)
        → (try_pin crypto protocol secret enc s).1.files ef_pin
          ≡ with_retries ((pin_retries s.files + 255) % 256) s.files
    unfolding try_pin regenerate
    try_pin-ef_pin protocol secret enc s = ground (
      arith,
      laws.put_lem s.files ef_pin (with_retries ((pin_retries s.files + 255) % 256) s.files) ef_pin,
    )

    pub try_pin-file :
        (protocol : ℕ) (secret enc : List ℕ) (s : Device) (g : ℕ)
        → (ef_pin == g) ≡ false
        → (try_pin crypto protocol secret enc s).1.files g ≡ s.files g
    unfolding try_pin regenerate
    try_pin-file protocol secret enc s g h = ground (
      arith,
      laws.put_lem s.files ef_pin (with_retries ((pin_retries s.files + 255) % 256) s.files) g,
    )

    token_matches :
        (now : ℕ) (p : Params) (s : Device)
        → is_ok (get_pin_token crypto now p s).0 ≡ true
        → pin_matches p s ≡ true
    unfolding get_pin_token
    token_matches now p s h = elim (Result-cases (check_token p s.files)) [
      | inl (q, e) ↦ ground (
        arith,
        check_token-TokenAccepted p s.files q e,
        try_pin_ok p.pin_uv_auth_protocol (ecdh crypto p.pin_uv_auth_protocol s.hkey q.x q.y).1
            q.pin_hash_enc s,
      )
      | inr (r, e) ↦ ground arith
    ]

    -- A token is given out only if the array holds the hash of the stored PIN when the request was
    -- decrypted into it: the request carries that hash, whatever the array held before, if it has 16
    -- bytes; what it does not fill is what the stack held.
    pub token_right_pin :
        (now : ℕ) (p : Params) (s : Device) (before : List ℕ)
        → is_ok (get_pin_token crypto now p s).0 ≡ true
        → pin_matches_over (if full_hash p then before else crypto.stack s.draws) p s ≡ true
    token_right_pin now p s before h = elim (Bool-cases (full_hash p)) [
      | inl f ↦ rw f (matches_full before (crypto.stack s.draws) p s f ∙ token_matches now p s h)
      | inr f ↦ rw f (token_matches now p s h)
    ]

    -- changePIN succeeds only for a request that carries the hash of the stored PIN.
    pub change_right_pin :
        (p : Params) (s : Device) → is_ok (change_pin crypto p s).0 ≡ true → pin_matches p s ≡ true
    unfolding change_pin
    change_right_pin p s h = elim (Result-cases (check_change p s.files)) [
      | inl (q, e) ↦ ground (
        arith,
        check_change-ChangeAccepted p s.files q e,
        try_pin_ok p.pin_uv_auth_protocol (ecdh crypto p.pin_uv_auth_protocol s.hkey q.x q.y).1
            q.pin_hash_enc s,
      )
      | inr (r, e) ↦ ground arith
    ]
