-- ===== src/Oath/Tries.antt =====
-- The tries of the OTP PIN of oath.c.
use pico_fido_microkey.Base.{
  ℕ, is_some, ◌+◌, ◌-◌, ◌≡◌, ◌≤◌, refl, arith, Bool, true, false, not, ◌&&◌, none, some,
  Option-cases, inl, inr, List, [], ◌∷◌, block, read_bytes, byte_at, memcmp_eq, bytes_eq_refl,
  block-block, ◌==◌, if◌then◌else◌,
}
use pico_fido_microkey.Base.Exec.{Result, err, is_ok}
use pico_fido_microkey.Sdk.{Contents, has_data, IsFlash}
use pico_fido_microkey.Files.{ef_otp_pin}
use pico_fido_microkey.Apdu.{Apdu, apdu_data, Sw, security_status_not_satisfied}
use pico_fido_microkey.Oath.State.{
  OathSdk, Oath, Tlv, tlv_data, tag_password, tag_new_password, max_otp_counter,
}
use pico_fido_microkey.Oath.Pin.{
  otp_tries, otp_hash, is_otp_pin, otp_pin_data, cmd_set_otp_pin, cmd_change_otp_pin,
  cmd_verify_otp_pin, refuse_otp_pin, accept_otp_pin,
}

-- The hash does not depend on the tries that stand before it.
otp_hash-put : (n : ℕ) (c : Contents) → read_bytes (n ∷ otp_hash c) 1 32 ≡ otp_hash c
unfolding read_bytes
otp_hash-put n c = block-block 32 _

module _ (sdk : OathSdk) where
  abbrev pub password_is_pin : Apdu → Contents → Bool
  password_is_pin a c = elim (sdk.find_tag (apdu_data a) tag_password) [
    | none ↦ false
    | some pw ↦ is_otp_pin sdk (tlv_data a.buffer pw) c
  ]

  -- A verification that ends with `r` in `t`.
  pub record Tried (a : Apdu) (s : Oath) (r : Result Sw (Unit {0})) (t : Oath) : Type 0 where
    pub right : is_ok r ≡ true → password_is_pin a s.files && not (otp_tries s.files == 0) ≡ true
    pub wrong :
        has_data (s.files ef_otp_pin) ≡ true
        → is_some (sdk.find_tag (apdu_data a) tag_password) ≡ true
        → password_is_pin a s.files ≡ false
        → (r ≡ err security_status_not_satisfied)
          × (t.validated ≡ false)
          × (otp_tries t.files ≡ otp_tries s.files - 1)
    pub accepted :
        has_data (s.files ef_otp_pin) ≡ true
        → password_is_pin a s.files ≡ true
        → (otp_tries s.files == 0) ≡ false
        → is_ok r ≡ true
    pub opened : is_ok r ≡ true → (t.validated ≡ true) × (otp_tries t.files ≡ max_otp_counter)
    pub closed :
        r ≡ err security_status_not_satisfied
        → (t.validated ≡ false) × (otp_tries t.files ≡ otp_tries s.files - 1)
    pub no_more : is_ok r ≡ false → otp_tries t.files ≤ otp_tries s.files
    pub same_hash : otp_hash t.files ≡ otp_hash s.files

  -- The verifications of a list, and how many of them succeed.
  unfoldable pub verified : List Apdu → Oath → ℕ
  verified [] s = 0
  verified (a ∷ rest) s =
      (if is_ok (cmd_verify_otp_pin sdk a s).0 then 1 else 0)
      + verified rest (cmd_verify_otp_pin sdk a s).1

  abbrev pub SetTo : Apdu → Contents → Type 0
  SetTo a c =
      (pw : Tlv) × ((sdk.find_tag (apdu_data a) tag_password ≡ some pw)
        × (c ef_otp_pin ≡ otp_pin_data sdk (tlv_data a.buffer pw)))

  module _ (laws : IsFlash sdk.flash) where
    -- Exactly the right PIN verifies, and only while tries are left: it gives access and all the tries.
    -- A wrong one, where a PIN is set and the request has a password, is refused, takes the access away
    -- and costs a try, if there is one left. The PIN stays what it was.
    pub cmd_verify_otp_pin-Tried :
        (a : Apdu) (s : Oath)
        → Tried a s (cmd_verify_otp_pin sdk a s).0 (cmd_verify_otp_pin sdk a s).1
    unfolding cmd_verify_otp_pin refuse_otp_pin accept_otp_pin
    cmd_verify_otp_pin-Tried a s = ground (
      arith,
      otp_hash-put (otp_tries s.files - 1) s.files,
      otp_hash-put max_otp_counter s.files,
      laws.put_lem s.files ef_otp_pin ((otp_tries s.files - 1) ∷ otp_hash s.files) ef_otp_pin,
      laws.put_lem s.files ef_otp_pin (max_otp_counter ∷ otp_hash s.files) ef_otp_pin,
    )

    -- Once no tries are left, no verification succeeds any more, whatever the passwords.
    pub verified_blocked :
        (rest : List Apdu) (s : Oath) → otp_tries s.files ≡ 0 → verified rest s ≡ 0
    unfolding verified
    verified_blocked [] s h = refl
    verified_blocked (a ∷ rest) s h =
        let r = cmd_verify_otp_pin-Tried a s in
        ground (arith, r.right, r.no_more, verified_blocked rest (cmd_verify_otp_pin sdk a s).1)

    -- A change of the PIN does not look at the tries: with the right password it succeeds when none are
    -- left, and all tries are there again.
    pub cmd_change_otp_pin_blocked :
        (a : Apdu) (s : Oath) (new_pw : Tlv)
        → has_data (s.files ef_otp_pin) ≡ true
        → otp_tries s.files ≡ 0
        → password_is_pin a s.files ≡ true
        → sdk.find_tag (apdu_data a) tag_new_password ≡ some new_pw
        → (is_ok (cmd_change_otp_pin sdk a s).0 ≡ true)
          × (otp_tries (cmd_change_otp_pin sdk a s).1.files ≡ max_otp_counter)
    unfolding cmd_change_otp_pin otp_pin_data
    cmd_change_otp_pin_blocked a s new_pw d t p n = ground (
      arith,
      laws.put_lem s.files ef_otp_pin (otp_pin_data sdk (tlv_data a.buffer new_pw)) ef_otp_pin,
    )

    stored_is_pin :
        (pw : List ℕ) (c : Contents)
        → c ef_otp_pin ≡ otp_pin_data sdk pw
        → is_otp_pin sdk pw c ≡ true
    unfolding is_otp_pin otp_pin_data memcmp_eq read_bytes
    stored_is_pin pw c e =
        rw (e, block-block 32 (sdk.double_hash_pin pw), block-block 32 (sdk.double_hash_pin pw))
          (bytes_eq_refl (block 32 (sdk.double_hash_pin pw)))

    cmd_set_otp_pin-SetTo :
        (a : Apdu) (s : Oath)
        → is_ok (cmd_set_otp_pin sdk a s).0 ≡ true
        → SetTo a (cmd_set_otp_pin sdk a s).1.files
    unfolding cmd_set_otp_pin
    cmd_set_otp_pin-SetTo a s h = elim (Option-cases (sdk.find_tag (apdu_data a) tag_password)) [
      | inl e ↦ ground arith
      | inr (pw, e) ↦ (
        pw,
        (
          e,
          ground (
            arith,
            laws.put_lem s.files ef_otp_pin (otp_pin_data sdk (tlv_data a.buffer pw)) ef_otp_pin,
          ),
        ),
      )
    ]

    has_data_pin : (pw : List ℕ) → has_data (otp_pin_data sdk pw) ≡ true
    unfolding otp_pin_data
    has_data_pin pw = refl

    tries_pin : (pw : List ℕ) → byte_at (otp_pin_data sdk pw) 0 ≡ max_otp_counter
    unfolding otp_pin_data
    tries_pin pw = refl

    verify_SetTo :
        (a : Apdu) (t : Oath)
        → SetTo a t.files
        → (is_ok (cmd_verify_otp_pin sdk a t).0 ≡ true)
          × ((cmd_verify_otp_pin sdk a t).1.validated ≡ true)
    unfolding cmd_verify_otp_pin accept_otp_pin
    verify_SetTo a t (pw, (e, f)) = ground (
      arith,
      stored_is_pin (tlv_data a.buffer pw) t.files f,
      has_data_pin (tlv_data a.buffer pw),
      tries_pin (tlv_data a.buffer pw),
    )

    -- The PIN that was set is the one that verifies afterwards: the same password gives access.
    pub set_then_verify :
        (a : Apdu) (s : Oath)
        → is_ok (cmd_set_otp_pin sdk a s).0 ≡ true
        → (is_ok (cmd_verify_otp_pin sdk a (cmd_set_otp_pin sdk a s).1).0 ≡ true)
          × ((cmd_verify_otp_pin sdk a (cmd_set_otp_pin sdk a s).1).1.validated ≡ true)
    set_then_verify a s h = verify_SetTo a (cmd_set_otp_pin sdk a s).1 (cmd_set_otp_pin-SetTo a s h)
