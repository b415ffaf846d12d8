-- ===== src/CredMgmt.antt =====
-- cbor_cred_mgmt.c: authenticatorCredentialManagement; here its state, the checks, the metadata and
-- the enumeration of relying parties, lines 27 to 45 and 114 to 195.
use pico_fido_microkey.Base.{
  ℕ, zero, suc, ◌+◌, ◌-◌, ◌%◌, bit_and, Bool, true, false, not, ◌&&◌, ◌||◌, Option, none, some,
  is_some, List, [], ◌∷◌, ◌++◌, length, drop, block, read_bytes, byte_at, memcmp_eq, min, ltb, ◌==◌,
  if◌then◌else◌,
}
use pico_fido_microkey.Base.Exec.{
  Exec, Result, ok, err, gets, require, guard, modify, fail, pure, ◌>>=◌, ◌>>◌,
}
use pico_fido_microkey.Sdk.{Contents, has_data}
use pico_fido_microkey.Files.{ef_cred, ef_rp}
use pico_fido_microkey.Ctap.{
  CtapError, puat_required, invalid_parameter, missing_parameter, pin_auth_invalid, not_allowed,
  no_credentials, processing, permission_cm,
}
use pico_fido_microkey.ClientPin.Protocol.{verify}
use pico_fido_microkey.Keys.{Fido}
use pico_fido_microkey.Credential.{CredSdk, derive_large_blob_key}
use pico_fido_microkey.Credential.Encode.{
  CredData, CredExtensions, rp_bytes, is_true, credential_create,
}
use pico_fido_microkey.Credential.Load.{credential_load}
use pico_fido_microkey.Credential.Store.{
  max_resident_credentials, same_user, is_for, is_rp, put_cred, credential_store,
}
pub mod Commands
pub mod Picked
pub mod Rps
pub mod Access

-- The state of cbor_cred_mgmt.c; the counters are bytes.
pub record Mgmt : Type 0 where
  pub fido : Fido
  pub rp_counter : ℕ
  pub rp_total : ℕ
  pub cred_counter : ℕ
  pub cred_total : ℕ
  pub rp_id_hash_x : List ℕ

-- What a request holds.
pub record MgmtParams : Type 0 where
  pub subcommand : ℕ
  pub raw_subpara : List ℕ
  pub rp_id_hash : Option (List ℕ)
  pub credential_id : Option (List ℕ)
  pub user_id : Option (List ℕ)
  pub user_name : Option (List ℕ)
  pub user_display_name : Option (List ℕ)
  pub pin_uv_auth_protocol : ℕ
  pub pin_uv_auth_param : Option (List ℕ)

-- What is answered.
pub data MgmtReply : Type 0 where
  -- existing and remaining credentials
  metadata : ℕ → ℕ → MgmtReply
  -- the identifier and the hash of a relying party, and their number
  rp : List ℕ → List ℕ → Option ℕ → MgmtReply
  -- a credential: its identifier, what it holds, its public key, its key for large blobs, and the
  -- number of credentials
  credential : List ℕ → CredData → List ℕ → Option (List ℕ) → Option ℕ → MgmtReply
  no_answer : MgmtReply

abbrev pub MgmtCmd : Type 0 → Type 0
MgmtCmd A = Exec Mgmt CtapError A

abbrev pub files_of : Mgmt → Contents
files_of s = s.fido.device.files

-- How many of the files pass a test.
unfoldable pub count_files : (List ℕ → Bool) → ℕ → ℕ → Contents → ℕ
count_files test zero fid c = 0
count_files test (suc n) fid c =
    let rest = count_files test n (fid + 1) c in if test (c fid) then rest + 1 else rest

-- The first file where the count of those that pass, a byte, is the number that is wanted.
unfoldable pub pick_file : (List ℕ → Bool) → ℕ → ℕ → ℕ → ℕ → Contents → Option ℕ
pick_file test zero fid skip wanted c = none
pick_file test (suc n) fid skip wanted c =
    let counted = pick_file test n (fid + 1) ((skip + 1) % 256) wanted c in
    let passed = pick_file test n (fid + 1) skip wanted c in
    if test (c fid) then (if (skip + 1) % 256 == wanted then some fid else counted) else passed

-- Whether a file of a relying party counts credentials.
abbrev pub is_live_rp : List ℕ → Bool
is_live_rp file = has_data file && ltb 0 (byte_at file 0)

-- The first credential whose identifier agrees with the one that is given, as far as both go.
unfoldable pub has_id : List ℕ → List ℕ → Bool
has_id id file = has_data file && memcmp_eq (drop 32 file) id (min (length file - 32) (length id))

unfoldable pub find_file : (List ℕ → Bool) → ℕ → ℕ → Contents → Option ℕ
find_file test zero fid c = none
find_file test (suc n) fid c =
    let rest = find_file test n (fid + 1) c in if test (c fid) then some fid else rest

-- Any request but the two that go on with an enumeration carries a tag, under a known protocol.
unfoldable pub check_param : MgmtParams → MgmtCmd (Unit {0})
check_param p = do
  guard (p.subcommand == 3 || (p.subcommand == 5 || is_some p.pin_uv_auth_param)) puat_required
  guard
      (p.subcommand == 3
        || (p.subcommand == 5 || (p.pin_uv_auth_protocol == 1 || p.pin_uv_auth_protocol == 2)))
      invalid_parameter

-- The token may manage credentials, and is bound to no relying party. The preview command needs no
-- permission.
unfoldable pub may_manage_all : Bool → Mgmt → Bool
may_manage_all preview s =
    let paut = s.fido.device.paut in
    preview || (not (bit_and paut.permissions permission_cm == 0) && not paut.has_rp_id)

-- The token may manage credentials, and is bound to no other relying party.
unfoldable pub may_manage : Bool → List ℕ → Mgmt → Bool
may_manage preview rp_id_hash s =
    let paut = s.fido.device.paut in
    preview
    || (not (bit_and paut.permissions permission_cm == 0)
        && (not paut.has_rp_id || memcmp_eq paut.rp_id_hash rp_id_hash 32))

-- The relying party whose turn it is.
unfoldable pub current_rp : Bool → MgmtCmd MgmtReply
current_rp begin = do
  s ← gets (λ s. s)
  let c = files_of s
  fid ←
      require (pick_file is_live_rp max_resident_credentials ef_rp 0 s.rp_counter c) no_credentials
  modify (λ t. record t { rp_counter = (t.rp_counter + 1) % 256 })
  pure (rp (drop 33 (c fid)) (read_bytes (c fid) 1 32) (if begin then some s.rp_total else none))

unfoldable pub start_rps : Mgmt → Mgmt
start_rps s = record s {
  rp_counter = 1;
  rp_total = count_files is_live_rp max_resident_credentials ef_rp (files_of s) % 256;
}

-- Subcommand 3.
unfoldable pub rps_next : MgmtCmd MgmtReply
rps_next = do
  s ← gets (λ s. s)
  guard (not (ltb s.rp_total s.rp_counter)) not_allowed
  current_rp false

module _ (sdk : CredSdk) where
  -- The tag of a request over its payload.
  unfoldable pub is_tagged : MgmtParams → List ℕ → Mgmt → Bool
  is_tagged p payload s =
      verify sdk.keys.crypto (p.pin_uv_auth_protocol % 256) s.fido.device.paut.bytes payload
        (rp_bytes p.pin_uv_auth_param)

  -- Subcommand 1.
  unfoldable pub get_metadata : Bool → MgmtParams → MgmtCmd MgmtReply
  get_metadata preview p = do
    s ← gets (λ s. s)
    guard (is_tagged p (0x01 ∷ []) s) pin_auth_invalid
    guard (may_manage_all preview s) pin_auth_invalid
    let existing = count_files has_data max_resident_credentials ef_cred (files_of s) % 256
    pure (metadata existing (max_resident_credentials - existing))

  -- Subcommand 2. The total is counted while the first relying party is looked for.
  unfoldable pub rps_begin : Bool → MgmtParams → MgmtCmd MgmtReply
  rps_begin preview p = do
    s ← gets (λ s. s)
    guard (is_tagged p (0x02 ∷ []) s) pin_auth_invalid
    guard (may_manage_all preview s) pin_auth_invalid
    modify start_rps
    current_rp true
