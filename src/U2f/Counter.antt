-- ===== src/U2f/Counter.antt =====
-- Proofs about the signature counter of cmd_authenticate.c.
use pico_fido_microkey.Base.{
  sym, some, block-block, drop-append, if◌then◌else◌, ℕ, ◌+◌, ◌*◌, ◌%◌, ◌^◌, ◌<◌, ◌≡◌, ◌∙◌, ap,
  arith, Bool, true, false, List, ◌∷◌, ◌++◌, block, block-append, length-block, drop, read_bytes,
  byte_at, Option-cases, inl, inr, ◌==◌,
}
use pico_fido_microkey.Base.Exec.{ok, Result-cases}
use pico_fido_microkey.Apdu.{Apdu}
use pico_fido_microkey.Sdk.{IsFlash}
use pico_fido_microkey.Files.{ef_counter}
use pico_fido_microkey.Keys.{Fido}
use pico_fido_microkey.U2f.{
  U2fSdk, counter_bytes, get_sign_counter, presence_flag, advance_counter, key_for, signed,
  authenticate_base, cmd_authenticate,
}

signed_front :
    (flag : ℕ) (ctr sig : List ℕ) → block 4 (drop 1 (flag ∷ (block 4 ctr ++ sig))) ≡ block 4 ctr
signed_front flag ctr sig = block-append (block 4 ctr) sig 4 (length-block 4 ctr)

module _ (sdk : U2fSdk) where
  -- The bytes of a number of 32 bits, the lowest first.
  abbrev pub IsUint32 : Type 0
  IsUint32 =
      (b : List ℕ)
      → sdk.get_uint32_t_le b
        ≡ byte_at b 0 + 256 * byte_at b 1 + 65536 * byte_at b 2 + 16777216 * byte_at b 3

  counter_back : (le : IsUint32) (n : ℕ) → n < 2 ^ 32 → sdk.get_uint32_t_le (counter_bytes n) ≡ n
  unfolding counter_bytes
  counter_back le n h = le _ ∙ omega arith

  advanced :
      (laws : IsFlash sdk.cred.keys.crypto.flash) (le : IsUint32) (ctr : ℕ) (s : Fido)
      → get_sign_counter sdk (advance_counter sdk ctr s) ≡ (ctr + 1) % 2 ^ 32
  unfolding get_sign_counter advance_counter
  advanced laws le ctr s =
      ap sdk.get_uint32_t_le
        (laws.put_lem s.device.files ef_counter (counter_bytes ((ctr + 1) % 2 ^ 32)) ef_counter)
      ∙ counter_back le ((ctr + 1) % 2 ^ 32) (omega arith)

  -- What a signature is over: the application, the flags, a counter and the challenge of a request.
  abbrev pub message : Apdu → ℕ → List ℕ
  message a ctr =
      read_bytes a.buffer 32 32
      ++ ((if a.p1 == 3 then 1 else 0) ∷ (block 4 (sdk.put_uint32_t_be ctr) ++ block 32 a.buffer))

  -- An answer with the flags, a counter and a signature over both, under the key of the handle.
  pub record Signed (a : Apdu) (ctr : ℕ) (s : Fido) (answer : List ℕ) : Type 0 where
    pub flags : byte_at answer 0 ≡ (if a.p1 == 3 then 1 else 0)
    pub counter : block 4 (drop 1 answer) ≡ block 4 (sdk.put_uint32_t_be ctr)
    pub key : List ℕ
    pub of_handle :
        key_for sdk (read_bytes a.buffer 32 32) (drop 65 a.buffer) (byte_at a.buffer 64) s ≡ ok key
    pub signature :
        sdk.sign key (block 32 (sdk.cred.keys.crypto.sha256 (message a ctr)).1) ≡ (0, drop 5 answer)

  signed-sign :
      (key m sig : List ℕ)
      → signed sdk key m ≡ some sig
      → sdk.sign key (block 32 (sdk.cred.keys.crypto.sha256 m).1) ≡ (0, sig)
  unfolding signed
  signed-sign key m sig h = ground arith

  message-base :
      (a : Apdu) (ctr : ℕ)
      → authenticate_base sdk (read_bytes a.buffer 32 32) a.p1 ctr (block 32 a.buffer)
        ≡ message a ctr
  unfolding authenticate_base read_bytes
  message-base a ctr =
      let tail = presence_flag a.p1 ∷ (block 4 (sdk.put_uint32_t_be ctr) ++ block 32 a.buffer) in
      ap
        (λ c.
          block 32 (block 32 (drop 32 a.buffer))
          ++ (presence_flag a.p1 ∷ (block 4 (sdk.put_uint32_t_be ctr) ++ c)))
        (block-block 32 a.buffer)
      ∙ ap (λ b. b ++ tail) (block-block 32 (drop 32 a.buffer))

  answered :
      (timeout : Bool) (a : Apdu) (key sig answer : List ℕ) (s t : Fido)
      → key_for sdk (read_bytes a.buffer 32 32) (drop 65 a.buffer) (byte_at a.buffer 64) s ≡ ok key
      → signed sdk key (
          authenticate_base sdk
            (read_bytes a.buffer 32 32)
            a.p1
            (get_sign_counter sdk s)
            (block 32 a.buffer))
        ≡ some sig
      → cmd_authenticate sdk timeout a s ≡ (ok answer, t)
      → (t ≡ advance_counter sdk (get_sign_counter sdk s) s)
        × (answer
            ≡ presence_flag a.p1 ∷ (block 4 (sdk.put_uint32_t_be (get_sign_counter sdk s)) ++ sig))
        × ((a.p1 == 3) ≡ true → timeout ≡ false)
  unfolding cmd_authenticate
  answered timeout a key sig answer s t k e h = ground (arith, k, e)

  authenticated :
      (timeout : Bool) (a : Apdu) (s t : Fido) (answer : List ℕ)
      → cmd_authenticate sdk timeout a s ≡ (ok answer, t)
      → (t ≡ advance_counter sdk (get_sign_counter sdk s) s)
        × Signed a (get_sign_counter sdk s) s answer
        × ((a.p1 == 3) ≡ true → timeout ≡ false)
  unfolding cmd_authenticate
  authenticated timeout a s t answer h =
      let ctr = get_sign_counter sdk s in
      let written = sdk.put_uint32_t_be ctr in
      let app_id = read_bytes a.buffer 32 32 in
      let base = authenticate_base sdk app_id a.p1 ctr (block 32 a.buffer) in
      elim (Result-cases (key_for sdk app_id (drop 65 a.buffer) (byte_at a.buffer 64) s)) [
        | inr (e, k) ↦ absurd (ground (arith, k))
        | inl (key, k) ↦ elim (Option-cases (signed sdk key base)) [
          | inl n ↦ absurd (ground (arith, k, n))
          | inr (sig, e) ↦
              let (state, form, pressed) = answered timeout a key sig answer s t k e h in
              let last : drop 5 answer ≡ sig =
                ap (drop 5) form
                ∙ drop-append (presence_flag a.p1 ∷ block 4 written) sig 5
                    (omega (arith, length-block 4 written)) in
              (
                state,
                record {
                  flags = ap (λ b. byte_at b 0) form;
                  counter =
                      ap (λ b. block 4 (drop 1 b)) form
                      ∙ signed_front (presence_flag a.p1) written sig;
                  key = key;
                  of_handle = k;
                  signature =
                      ap (λ m. sdk.sign key (block 32 (sdk.cred.keys.crypto.sha256 m).1))
                        (sym (message-base a ctr))
                      ∙ signed-sign key base sig e
                      ∙ ap (λ b. (0, b)) (sym last);
                },
                pressed,
              )
        ]
      ]

  -- Each signature counts: the answer has the flags, the counter that is stored and a signature over
  -- the application, both of them and the challenge, by the key of the handle; the stored counter is
  -- one more afterwards, up to 32 bits. The flags say whether the user was asked, and if so, the
  -- button was pressed.
  pub cmd_authenticate-counts :
      (laws : IsFlash sdk.cred.keys.crypto.flash) (le : IsUint32)
      → (timeout : Bool) (a : Apdu) (s t : Fido) (answer : List ℕ)
      → cmd_authenticate sdk timeout a s ≡ (ok answer, t)
      → (get_sign_counter sdk t ≡ (get_sign_counter sdk s + 1) % 2 ^ 32)
        × Signed a (get_sign_counter sdk s) s answer
        × ((a.p1 == 3) ≡ true → timeout ≡ false)
  cmd_authenticate-counts laws le timeout a s t answer h =
      let (state, made, pressed) = authenticated timeout a s t answer h in
      (ap (get_sign_counter sdk) state ∙ advanced laws le (get_sign_counter sdk s) s, made, pressed)
