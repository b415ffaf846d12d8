-- ===== src/CredMgmt/Access.antt =====
-- Proofs about who may use authenticatorCredentialManagement, cbor_cred_mgmt.c.
use pico_fido_microkey.Base.{
  ℕ, ◌%◌, ◌≡◌, ◌∙◌, refl, ap, sym, arith, bit_and, Bool, Bool-cases, ◌⊎◌, inl, inr, true, false,
  not, ◌||◌, Option, List, [], ◌∷◌, ◌==◌, if◌then◌else◌,
}
use pico_fido_microkey.Base.Exec.{is_ok, ◌>>◌}
use pico_fido_microkey.Ctap.{permission_cm}
use pico_fido_microkey.Keys.{Fido}
use pico_fido_microkey.Credential.{CredSdk}
use pico_fido_microkey.Credential.Encode.{rp_bytes}
use pico_fido_microkey.CredMgmt.{
  Mgmt, MgmtParams, MgmtCmd, is_tagged, may_manage, may_manage_all, check_param, get_metadata,
  rps_begin,
}
use pico_fido_microkey.CredMgmt.Commands.{
  authorise, creds_begin, delete_cred, update_user, run_subcommand, cbor_cred_mgmt,
}

-- A command that answers with an error, and changes nothing.
unfoldable pub Refuses : {A : Type 0} → MgmtCmd A → Mgmt → Type 0
Refuses m s = (is_ok (m s).0 ≡ false) × ((m s).1 ≡ s)

-- The token has the permission for credential management.
abbrev pub has_cm : Mgmt → Bool
has_cm s = not (bit_and s.fido.device.paut.permissions permission_cm == 0)

-- A subcommand that wants a tag.
abbrev pub wants_tag : ℕ → Bool
wants_tag n = n == 1 || (n == 2 || (n == 4 || (n == 6 || n == 7)))

-- What a request has its tag over.
unfoldable pub payload_of : MgmtParams → List ℕ
payload_of p =
    if p.subcommand == 1 || p.subcommand == 2
    then p.subcommand ∷ []
    else p.subcommand % 256 ∷ p.raw_subpara

may_manage_all_cm : (s : Mgmt) → has_cm s ≡ false → may_manage_all false s ≡ false
unfolding may_manage_all
may_manage_all_cm s h = ground arith

may_manage_cm : (hash : List ℕ) (s : Mgmt) → has_cm s ≡ false → may_manage false hash s ≡ false
unfolding may_manage
may_manage_cm hash s h = ground arith

module _ (sdk : CredSdk) where
  -- A request with a tag that does not hold, or under a token without the permission.
  abbrev pub Unauthorised : Bool → MgmtParams → Mgmt → Type 0
  Unauthorised preview p s =
      (is_tagged sdk p (payload_of p) s ≡ false) ⊎ ((preview ≡ false) × (has_cm s ≡ false))

  get_metadata-Refuses :
      (preview : Bool) (p : MgmtParams) (s : Mgmt)
      → (is_tagged sdk p (0x01 ∷ []) s ≡ false) ⊎ (may_manage_all preview s ≡ false)
      → Refuses (get_metadata sdk preview p) s
  unfolding Refuses get_metadata
  get_metadata-Refuses preview p s (inl h) = rw h (refl, refl)
  get_metadata-Refuses preview p s (inr h) = ground arith

  rps_begin-Refuses :
      (preview : Bool) (p : MgmtParams) (s : Mgmt)
      → (is_tagged sdk p (0x02 ∷ []) s ≡ false) ⊎ (may_manage_all preview s ≡ false)
      → Refuses (rps_begin sdk preview p) s
  unfolding Refuses rps_begin
  rps_begin-Refuses preview p s (inl h) = rw h (refl, refl)
  rps_begin-Refuses preview p s (inr h) = ground arith

  module _ (load_key : Fido → ℕ → List ℕ → Option (List ℕ)) where
    authorise-Refuses :
        (preview : Bool) (p : MgmtParams) (s : Mgmt)
        → (is_tagged sdk p (p.subcommand % 256 ∷ p.raw_subpara) s ≡ false)
          ⊎ (may_manage preview (rp_bytes p.rp_id_hash) s ≡ false)
        → Refuses (authorise sdk load_key preview p) s
    unfolding Refuses authorise
    authorise-Refuses preview p s (inl h) = rw h (refl, refl)
    authorise-Refuses preview p s (inr h) = ground arith

    creds_begin-Refuses :
        (preview : Bool) (p : MgmtParams) (s : Mgmt)
        → Refuses (authorise sdk load_key preview p) s
        → Refuses (creds_begin sdk load_key preview p) s
    unfolding Refuses creds_begin
    creds_begin-Refuses preview p s h = ground (arith, h)

    delete_cred-Refuses :
        (preview : Bool) (p : MgmtParams) (s : Mgmt)
        → Refuses (authorise sdk load_key preview p) s
        → Refuses (delete_cred sdk load_key preview p) s
    unfolding Refuses delete_cred
    delete_cred-Refuses preview p s h = ground (arith, h)

    update_user-Refuses :
        (preview : Bool) (now : ℕ) (p : MgmtParams) (s : Mgmt)
        → Refuses (authorise sdk load_key preview p) s
        → Refuses (update_user sdk load_key preview now p) s
    unfolding Refuses update_user
    update_user-Refuses preview now p s h = ground (arith, h)

    authorise_denied :
        (preview : Bool) (p : MgmtParams) (s : Mgmt)
        → (p.subcommand == 1 || p.subcommand == 2) ≡ false
        → Unauthorised preview p s
        → Refuses (authorise sdk load_key preview p) s
    unfolding payload_of
    authorise_denied preview p s n (inl h) =
        let payload : payload_of p ≡ p.subcommand % 256 ∷ p.raw_subpara = rw n refl in
        authorise-Refuses preview p s (inl (ap (λ m. is_tagged sdk p m s) (sym payload) ∙ h))
    authorise_denied preview p s n (inr (c, h)) =
        authorise-Refuses preview p s (inr (rw c (may_manage_cm (rp_bytes p.rp_id_hash) s h)))

    metadata_denied :
        (preview : Bool) (p : MgmtParams) (s : Mgmt)
        → (p.subcommand == 1) ≡ true
        → Unauthorised preview p s
        → Refuses (get_metadata sdk preview p) s
    unfolding payload_of
    metadata_denied preview p s n (inl h) =
        let payload : payload_of p ≡ 1 ∷ [] = ground arith in
        get_metadata-Refuses preview p s (inl (ap (λ m. is_tagged sdk p m s) (sym payload) ∙ h))
    metadata_denied preview p s n (inr (c, h)) =
        get_metadata-Refuses preview p s (inr (rw c (may_manage_all_cm s h)))

    rps_begin_denied :
        (preview : Bool) (p : MgmtParams) (s : Mgmt)
        → (p.subcommand == 2) ≡ true
        → Unauthorised preview p s
        → Refuses (rps_begin sdk preview p) s
    unfolding payload_of
    rps_begin_denied preview p s n (inl h) =
        let payload : payload_of p ≡ 2 ∷ [] = ground arith in
        rps_begin-Refuses preview p s (inl (ap (λ m. is_tagged sdk p m s) (sym payload) ∙ h))
    rps_begin_denied preview p s n (inr (c, h)) =
        rps_begin-Refuses preview p s (inr (rw c (may_manage_all_cm s h)))

    not_next : (n : ℕ) → wants_tag n ≡ true → (n == 3 || n == 5) ≡ false
    not_next n w = ground arith

    run_subcommand_denied :
        (preview : Bool) (now : ℕ) (p : MgmtParams) (s : Mgmt)
        → wants_tag p.subcommand ≡ true
        → Unauthorised preview p s
        → Refuses (run_subcommand sdk load_key preview now p) s
    unfolding run_subcommand
    run_subcommand_denied preview now p s w u = elim (Bool-cases (p.subcommand == 1)) [
      | inl one ↦ rw one (metadata_denied preview p s one u)
      | inr n1 ↦ elim (Bool-cases (p.subcommand == 2)) [
        | inl two ↦ rw (n1, two) (rps_begin_denied preview p s two u)
        | inr n2 ↦
            let denied = authorise_denied preview p s (ground arith) u in
            let n3 : (p.subcommand == 3) ≡ false = ground arith in
            let n5 : (p.subcommand == 5) ≡ false = ground arith in
            elim (Bool-cases (p.subcommand == 4)) [
              | inl four ↦ rw (n1, n2, n3, four) (creds_begin-Refuses preview p s denied)
              | inr n4 ↦ elim (Bool-cases (p.subcommand == 6)) [
                | inl six ↦ rw (n1, n2, n3, n4, n5, six) (delete_cred-Refuses preview p s denied)
                | inr n6 ↦
                    let seven : (p.subcommand == 7) ≡ true = ground arith in
                    rw (n1, n2, n3, n4, n5, n6, seven) (update_user-Refuses preview now p s denied)
              ]
            ]
      ]
    ]

    check_param_then :
        {A : Type 0} (p : MgmtParams) (next : MgmtCmd A) (s : Mgmt)
        → Refuses next s
        → Refuses (check_param p >> next) s
    unfolding Refuses check_param
    check_param_then p next s h = ground (arith, h)

    -- Every subcommand that wants a tag answers with an error, and changes nothing, when the tag does
    -- not hold, and when a token without the permission for credential management is used outside the
    -- preview command.
    pub cbor_cred_mgmt-Unauthorised :
        (preview : Bool) (now : ℕ) (p : MgmtParams) (s : Mgmt)
        → wants_tag p.subcommand ≡ true
        → Unauthorised preview p s
        → Refuses (cbor_cred_mgmt sdk load_key preview now p) s
    unfolding cbor_cred_mgmt
    cbor_cred_mgmt-Unauthorised preview now p s w u =
        check_param_then p (run_subcommand sdk load_key preview now p) s
          (run_subcommand_denied preview now p s w u)
