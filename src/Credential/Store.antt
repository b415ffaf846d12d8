-- ===== src/Credential/Store.antt =====
-- credential.c, lines 295 to 379: the resident credentials and the count of each relying party.
use pico_fido_microkey.Base.{
  ℕ, zero, suc, ◌+◌, ◌%◌, Bool, true, false, ◌&&◌, Option, none, some, List, ◌∷◌, ◌++◌, length,
  drop, block, byte_at, memcmp_eq, min, if◌then◌else◌,
}
use pico_fido_microkey.Base.Exec.{Exec, ok, err, gets, require, modify, pure, ◌>>=◌, ◌>>◌}
use pico_fido_microkey.Sdk.{Contents, has_data}
use pico_fido_microkey.Files.{ef_cred, ef_rp}
use pico_fido_microkey.Ctap.{CtapError, store_full}
use pico_fido_microkey.Keys.{Fido}
use pico_fido_microkey.Credential.{CredSdk}
use pico_fido_microkey.Credential.Encode.{CredData, rp_bytes}
use pico_fido_microkey.Credential.Load.{credential_load}

abbrev pub max_resident_credentials : ℕ
max_resident_credentials = 256

abbrev pub FidoCmd : Type 0 → Type 0
FidoCmd A = Exec Fido CtapError A

-- The comparison of two users: over the shorter one of their identifiers.
unfoldable pub same_user : Option (List ℕ) → Option (List ℕ) → Bool
same_user a b =
    let x = rp_bytes a in let y = rp_bytes b in memcmp_eq x y (min (length x) (length y))

-- The first free file that was seen.
abbrev pub first_free : Option ℕ → ℕ → Option ℕ
first_free (some i) j = some i
first_free none j = some j

-- Whether a file of a credential is for a relying party.
unfoldable pub is_for : List ℕ → List ℕ → Bool
is_for rp_id_hash file = has_data file && memcmp_eq file rp_id_hash 32

-- Whether a file of a relying party is for it.
unfoldable pub is_rp : List ℕ → List ℕ → Bool
is_rp rp_id_hash file = has_data file && memcmp_eq (drop 1 file) rp_id_hash 32

-- The loop over the relying parties: the one with the hash, or the first free file.
unfoldable pub find_rp : ℕ → ℕ → Option ℕ → List ℕ → Contents → Option ℕ
find_rp zero i free rp_id_hash c = free
find_rp (suc n) i free rp_id_hash c =
    let onwards = find_rp n (i + 1) free rp_id_hash c in
    let freed = find_rp n (i + 1) (first_free free i) rp_id_hash c in
    if has_data (c (ef_rp + i))
    then (if memcmp_eq (drop 1 (c (ef_rp + i))) rp_id_hash 32 then some i else onwards)
    else freed

module _ (sdk : CredSdk) where
  -- Whether a file holds a credential of the user for the relying party.
  unfoldable pub is_of_user : Fido → List ℕ → Option (List ℕ) → List ℕ → Bool
  is_of_user s rp_id_hash user file =
      memcmp_eq file rp_id_hash 32 && (elim (credential_load sdk s (drop 32 file) rp_id_hash) [
        | ok stored ↦ same_user stored.user_id user
        | err e ↦ false
      ])

  -- The loop over the credentials: the one of the user, which is overwritten, or the first free file.
  -- The second component is `new_record`.
  unfoldable pub find_slot : ℕ → ℕ → Option ℕ → Fido → List ℕ → Option (List ℕ) → Option ℕ × Bool
  find_slot zero i free s rp_id_hash user = (free, true)
  find_slot (suc n) i free s rp_id_hash user =
      let onwards = find_slot n (i + 1) free s rp_id_hash user in
      let freed = find_slot n (i + 1) (first_free free i) s rp_id_hash user in
      let file = s.device.files (ef_cred + i) in
      if has_data file
      then (if is_of_user s rp_id_hash user file then (some i, false) else onwards)
      else freed

  unfoldable pub put_cred : ℕ → List ℕ → Fido → Fido
  put_cred fid d s = record s {
    device = record s.device { files = sdk.keys.crypto.flash.file_put_data s.device.files fid d };
  }

  unfoldable pub put_new : ℕ → List ℕ → Fido → Fido
  put_new fid d s = record s {
    device = record s.device {
      files =
          sdk.keys.crypto.flash.file_put_data (sdk.keys.crypto.flash.file_new s.device.files fid)
            fid d;
    };
  }

  -- One credential more for a relying party, whose counter is one byte.
  unfoldable pub counted_rp : List ℕ → List ℕ → Option (List ℕ) → List ℕ
  counted_rp file rp_id_hash rp_id =
      if has_data file
      then (byte_at file 0 + 1) % 256 ∷ drop 1 file
      else 1 ∷ (block 32 rp_id_hash ++ rp_bytes rp_id)

  unfoldable pub count_rp : List ℕ → Option (List ℕ) → FidoCmd (Unit {0})
  count_rp rp_id_hash rp_id = do
    c ← gets (λ s. s.device.files)
    i ← require (find_rp max_resident_credentials 0 none rp_id_hash c) store_full
    let d = counted_rp (c (ef_rp + i)) rp_id_hash rp_id
    modify (if has_data (c (ef_rp + i)) then put_cred (ef_rp + i) d else put_new (ef_rp + i) d)

  -- The credential goes into its file, and a new one is counted.
  unfoldable pub store_loaded : List ℕ → List ℕ → CredData → FidoCmd (Unit {0})
  store_loaded id rp_id_hash cred = do
    s ← gets (λ s. s)
    let found = find_slot max_resident_credentials 0 none s rp_id_hash cred.user_id
    i ← require found.0 store_full
    modify (put_new (ef_cred + i) (block 32 rp_id_hash ++ id))
    if found.1 then count_rp rp_id_hash cred.rp_id else pure tt

  -- `credential_store`
  unfoldable pub credential_store : List ℕ → List ℕ → FidoCmd (Unit {0})
  credential_store id rp_id_hash s = elim (credential_load sdk s id rp_id_hash) [
    | err e ↦ (err e, s)
    | ok cred ↦ store_loaded id rp_id_hash cred s
  ]
