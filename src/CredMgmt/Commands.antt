-- ===== src/CredMgmt/Commands.antt =====
-- cbor_cred_mgmt.c, lines 196 to 450: the enumeration of credentials, their deletion and update, and
-- the dispatch of the subcommands.
use pico_fido_microkey.Base.{
  ℕ, ◌+◌, ◌%◌, bit_and, Bool, true, false, not, ◌||◌, Option, none, some, is_some, List, ◌∷◌, drop,
  block, byte_at, ltb, ◌==◌, if◌then◌else◌,
}
use pico_fido_microkey.Base.Exec.{
  Exec, Result, ok, err, gets, require, guard, modify, pure, ◌>>=◌, ◌>>◌,
}
use pico_fido_microkey.Sdk.{Contents}
use pico_fido_microkey.Files.{ef_cred, ef_rp}
use pico_fido_microkey.Ctap.{
  CtapError, invalid_parameter, missing_parameter, pin_auth_invalid, not_allowed, no_credentials,
  processing, permission_cm, memory_fault,
}
use pico_fido_microkey.Cbor.{Item, uint}
use pico_fido_microkey.Keys.{Fido}
use pico_fido_microkey.Credential.{CredSdk, derive_large_blob_key}
use pico_fido_microkey.Credential.Encode.{CredData, rp_bytes, is_true, credential_create}
use pico_fido_microkey.Credential.Load.{credential_load}
use pico_fido_microkey.Credential.Store.{
  max_resident_credentials, same_user, is_for, is_rp, credential_store,
}
use pico_fido_microkey.CredMgmt.{
  Mgmt, MgmtParams, MgmtReply, credential, no_answer, MgmtCmd, files_of, count_files, pick_file,
  find_file, has_id, check_param, is_tagged, may_manage, get_metadata, rps_begin, rps_next,
}

abbrev curve_of : Item → ℕ
curve_of (uint n) = n
curve_of _ = 0

-- Every failure of a call is CTAP2_ERR_NOT_ALLOWED.
abbrev pub to_not_allowed : {A : Type 0} → Result CtapError A → MgmtCmd A
to_not_allowed (ok a) s = (ok a, s)
to_not_allowed (err memory_fault) s = (err memory_fault, s)
to_not_allowed (err _) s = (err not_allowed, s)

abbrev lift_result : {A : Type 0} → Result CtapError A → MgmtCmd A
lift_result r s = (r, s)

-- A call of the functions of credential.c.
unfoldable pub on_fido : {A : Type 0} → Exec Fido CtapError A → MgmtCmd A
on_fido m s = let (r, t) = m s.fido in to_not_allowed r (record s { fido = t })

-- `load_key` is `fido_load_key` for a curve and an identifier.
module _ (sdk : CredSdk) (load_key : Fido → ℕ → List ℕ → Option (List ℕ)) where
  -- The key for large blobs of a credential that has one.
  unfoldable pub large_blob_key_of : List ℕ → CredData → Mgmt → Result CtapError (Option (List ℕ))
  large_blob_key_of id cred s = elim cred.extensions [
    | none ↦ ok none
    | some e ↦
        if is_true e.large_blob_key
        then (elim (derive_large_blob_key sdk s.fido id) [
          | none ↦ err processing
          | some key ↦ ok (some key)
        ])
        else ok none
  ]

  -- The hash is kept for the next credential, if there is one.
  unfoldable pub advance : List ℕ → Mgmt → Mgmt
  advance hash s =
      let counter = (s.cred_counter + 1) % 256 in
      record s {
        cred_counter = counter;
        rp_id_hash_x = if ltb s.cred_total counter then s.rp_id_hash_x else hash;
      }

  -- The credential whose turn it is.
  unfoldable pub current_cred : Bool → List ℕ → MgmtCmd MgmtReply
  current_cred begin hash = do
    s ← gets (λ s. s)
    let c = files_of s
    fid ←
        require (pick_file (is_for hash) max_resident_credentials ef_cred 0 s.cred_counter c)
          no_credentials
    let id = drop 32 (c fid)
    cred ← to_not_allowed (credential_load sdk s.fido id hash)
    key ← require (load_key s.fido (curve_of cred.curve) id) not_allowed
    modify (advance hash)
    large ← lift_result (large_blob_key_of id cred s)
    pure (credential id cred key large (if begin then some s.cred_total else none))

  unfoldable pub start_creds : List ℕ → Mgmt → Mgmt
  start_creds hash s = record s {
    cred_counter = 1;
    cred_total = count_files (is_for hash) max_resident_credentials ef_cred (files_of s) % 256;
  }

  -- The tag and the permission for a request about one relying party. With a token that is bound to
  -- one, the hash is read though the request may have none.
  unfoldable pub authorise : Bool → MgmtParams → MgmtCmd (Unit {0})
  authorise preview p = do
    s ← gets (λ s. s)
    guard (is_tagged sdk p (p.subcommand % 256 ∷ p.raw_subpara) s) pin_auth_invalid
    let paut = s.fido.device.paut
    guard
        (preview
          || (bit_and paut.permissions permission_cm == 0
              || (not paut.has_rp_id || is_some p.rp_id_hash)))
        memory_fault
    guard (may_manage preview (rp_bytes p.rp_id_hash) s) pin_auth_invalid

  -- Subcommand 4.
  unfoldable pub creds_begin : Bool → MgmtParams → MgmtCmd MgmtReply
  creds_begin preview p = do
    hash ← require p.rp_id_hash missing_parameter
    authorise preview p
    modify (start_creds hash)
    current_cred true hash

  -- Subcommand 5. After an error here, the source has freed the hash that the next request reads;
  -- here it is still there.
  unfoldable pub creds_next : MgmtCmd MgmtReply
  creds_next = do
    s ← gets (λ s. s)
    guard (not (ltb s.cred_total s.cred_counter)) not_allowed
    current_cred false s.rp_id_hash_x

  abbrev set_files : Contents → Mgmt → Mgmt
  set_files c s = record s { fido = record s.fido { device = record s.fido.device { files = c } } }

  -- One credential less for a relying party, which goes with its last one.
  unfoldable pub uncount_rp : List ℕ → Contents → Contents
  uncount_rp hash c = elim (find_file (is_rp hash) max_resident_credentials ef_rp c) [
    | none ↦ c
    | some fid ↦
        let left = (byte_at (c fid) 0 + 255) % 256 in
        if left == 0
        then sdk.keys.crypto.flash.delete_file c fid
        else sdk.keys.crypto.flash.file_put_data c fid (left ∷ drop 1 (c fid))
  ]

  -- Subcommand 6. The hash of the relying party is read where the deleted file was.
  unfoldable pub delete_cred : Bool → MgmtParams → MgmtCmd MgmtReply
  delete_cred preview p = do
    id ← require p.credential_id missing_parameter
    authorise preview p
    s ← gets (λ s. s)
    let c = files_of s
    fid ← require (find_file (has_id id) max_resident_credentials ef_cred c) no_credentials
    modify (set_files (uncount_rp (block 32 (c fid)) (sdk.keys.crypto.flash.delete_file c fid)))
    pure no_answer

  -- The credential with the new names, made at a time in milliseconds. `use_sign_count` is passed as
  -- the pointer, which is true also where it points to false.
  unfoldable pub renamed_cred : MgmtParams → ℕ → CredData → CredData
  renamed_cred p now cred = record cred {
    user_name = p.user_name;
    user_display_name = p.user_display_name;
    creation = now;
    use_sign_count = some (is_some cred.use_sign_count);
  }

  -- Subcommand 7.
  unfoldable pub update_user : Bool → ℕ → MgmtParams → MgmtCmd MgmtReply
  update_user preview now p = do
    id ← require p.credential_id missing_parameter
    user ← require p.user_id missing_parameter
    authorise preview p
    s ← gets (λ s. s)
    let c = files_of s
    fid ← require (find_file (has_id id) max_resident_credentials ef_cred c) no_credentials
    let hash = block 32 (c fid)
    cred ← to_not_allowed (credential_load sdk s.fido (drop 32 (c fid)) hash)
    guard (same_user (some user) cred.user_id) invalid_parameter
    made ← on_fido (credential_create sdk (renamed_cred p now cred))
    on_fido (credential_store sdk made hash)
    pure no_answer

  unfoldable pub run_subcommand : Bool → ℕ → MgmtParams → MgmtCmd MgmtReply
  run_subcommand preview now p =
      if p.subcommand == 1
      then get_metadata sdk preview p
      else if p.subcommand == 2
      then rps_begin sdk preview p
      else if p.subcommand == 3
      then rps_next
      else if p.subcommand == 4
      then creds_begin preview p
      else if p.subcommand == 5
      then creds_next
      else if p.subcommand == 6
      then delete_cred preview p
      else if p.subcommand == 7
      then update_user preview now p
      else pure no_answer

  -- `cbor_cred_mgmt`; `preview` is whether the command is 0x41.
  unfoldable pub cbor_cred_mgmt : Bool → ℕ → MgmtParams → MgmtCmd MgmtReply
  cbor_cred_mgmt preview now p = do check_param p; run_subcommand preview now p
