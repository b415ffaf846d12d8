-- ===== src/Oath/Store.antt =====
-- The credential files of oath.c: what is put is found.
use pico_fido_microkey.Base.{
  ℕ, zero, suc, ◌+◌, ◌≡◌, ◌≤◌, ◌<◌, inl, inr, arith, true, false, none, some, Option-cases, List,
  length-read_bytes, subst, byte_at, bytes_eq_refl, ◌==◌,
}
use pico_fido_microkey.Base.Exec.{Result, is_ok}
use pico_fido_microkey.Sdk.{Contents, has_data, IsFlash}
use pico_fido_microkey.Files.{ef_oath_cred}
use pico_fido_microkey.Apdu.{Apdu, apdu_data, Sw}
use pico_fido_microkey.Oath.State.{
  OathSdk, Oath, Tlv, tlv_data, max_oath_cred, tag_name, tag_key, is_hotp,
}
use pico_fido_microkey.Oath.Creds.{
  has_name, find_from, find_oath_cred, free_from, store_cred, cmd_put,
}

module _ (sdk : OathSdk) where
  -- The first file with the name stays the first one when it is overwritten under its name.
  find_from_overwrite :
      (n i : ℕ) (name : List ℕ) (c c' : Contents) (fid : ℕ)
      → find_from sdk n i name c ≡ some fid
      → has_name sdk (c' fid) name ≡ true
      → ((g : ℕ) → (fid == g) ≡ false → c' g ≡ c g)
      → find_from sdk n i name c' ≡ some fid
  unfolding find_from
  find_from_overwrite zero i name c c' fid h w o = ground arith
  find_from_overwrite (suc n) i name c c' fid h w o =
      ground (arith, o (ef_oath_cred + i), find_from_overwrite n (i + 1) name c c' fid)

  -- A new name in the first free file is found there, if it was nowhere before.
  find_from_new :
      (n i : ℕ) (name : List ℕ) (c c' : Contents) (fid : ℕ)
      → find_from sdk n i name c ≡ none
      → has_name sdk (c' fid) name ≡ true
      → ((g : ℕ) → (fid == g) ≡ false → c' g ≡ c g)
      → ef_oath_cred + i ≤ fid
      → fid < ef_oath_cred + (i + n)
      → find_from sdk n i name c' ≡ some fid
  unfolding find_from
  find_from_new zero i name c c' fid h w o l u = absurd (omega arith)
  find_from_new (suc n) i name c c' fid h w o l u =
      ground (arith, o (ef_oath_cred + i), find_from_new n (i + 1) name c c' fid)

  free_from_range :
      (n i : ℕ) (c : Contents) (fid : ℕ)
      → free_from sdk n i c ≡ some fid
      → (ef_oath_cred + i ≤ fid) × (fid < ef_oath_cred + (i + n))
  unfolding free_from
  free_from_range zero i c fid h = ground arith
  free_from_range (suc n) i c fid h = ground (arith, free_from_range n (i + 1) c fid)

  -- After the name was stored with the data, the file that is found under it holds them.
  abbrev pub Found : List ℕ → List ℕ → Contents → Type 0
  Found name d c = (fid : ℕ) × ((find_oath_cred sdk name c ≡ some fid) × (c fid ≡ d))

  module _ (laws : IsFlash sdk.flash) where
    put_at : (c : Contents) (fid : ℕ) (d : List ℕ) → sdk.flash.file_put_data c fid d fid ≡ d
    put_at c fid d = ground (arith, laws.put_lem c fid d fid)

    put_else :
        (c : Contents) (fid : ℕ) (d : List ℕ) (g : ℕ)
        → (fid == g) ≡ false
        → sdk.flash.file_put_data c fid d g ≡ c g
    put_else c fid d g h = ground (arith, laws.put_lem c fid d g)

    overwritten-Found :
        (name d : List ℕ) (c : Contents) (fid : ℕ)
        → has_name sdk d name ≡ true
        → find_oath_cred sdk name c ≡ some fid
        → Found name d (sdk.flash.file_put_data c fid d)
    unfolding find_oath_cred
    overwritten-Found name d c fid w h =
        let c' = sdk.flash.file_put_data c fid d in
        (
          fid,
          (
            find_from_overwrite max_oath_cred 0 name c c' fid h (rw (put_at c fid d) w)
                (put_else c fid d),
            put_at c fid d,
          ),
        )

    new-Found :
        (name d : List ℕ) (c : Contents) (fid : ℕ)
        → has_name sdk d name ≡ true
        → find_oath_cred sdk name c ≡ none
        → free_from sdk max_oath_cred 0 c ≡ some fid
        → Found name d (sdk.flash.file_put_data c fid d)
    unfolding find_oath_cred
    new-Found name d c fid w h f =
        let c' = sdk.flash.file_put_data c fid d in
        let r = free_from_range max_oath_cred 0 c fid f in
        (
          fid,
          (
            find_from_new max_oath_cred 0 name c c' fid h (rw (put_at c fid d) w) (put_else c fid d)
                r.0 r.1,
            put_at c fid d,
          ),
        )

    store_cred-Found :
        (name d : List ℕ) (s : Oath)
        → has_name sdk d name ≡ true
        → is_ok (store_cred sdk name d s).0 ≡ true
        → Found name d (store_cred sdk name d s).1.files
    unfolding store_cred
    store_cred-Found name d s w h = elim (Option-cases (find_oath_cred sdk name s.files)) [
      | inr (fid, e) ↦ rw e (overwritten-Found name d s.files fid w e)
      | inl e ↦ elim (Option-cases (free_from sdk max_oath_cred 0 s.files)) [
        | inr (fid, f) ↦ rw (e, f) (new-Found name d s.files fid w e f)
        | inl f ↦ ground arith
      ]
    ]

    has_name_own :
        (d name : List ℕ) (t : Tlv)
        → sdk.find_tag d tag_name ≡ some t
        → tlv_data d t ≡ name
        → has_data d ≡ true
        → has_name sdk d name ≡ true
    unfolding has_name
    has_name_own d name t h v e =
        ground (arith, bytes_eq_refl name, length-read_bytes d t.offset t.len)

    cmd_put-store_cred :
        (a : Apdu) (s : Oath) (key name : Tlv)
        → sdk.find_tag (apdu_data a) tag_key ≡ some key
        → sdk.find_tag (apdu_data a) tag_name ≡ some name
        → is_hotp (byte_at a.buffer key.offset) ≡ false
        → is_ok (cmd_put sdk a s).0 ≡ true
        → cmd_put sdk a s ≡ store_cred sdk (tlv_data a.buffer name) (apdu_data a) s
    unfolding cmd_put
    cmd_put-store_cred a s key name hk hn t h = ground arith

    -- A credential that is put, unless it is counter-based, is found under its name, with the data of
    -- the command, whether it is new or overwrites an old one of that name. The tag search finds
    -- values that lie in the data.
    pub cmd_put-Found :
        (a : Apdu) (s : Oath) (key name : Tlv)
        → sdk.find_tag (apdu_data a) tag_key ≡ some key
        → sdk.find_tag (apdu_data a) tag_name ≡ some name
        → tlv_data (apdu_data a) name ≡ tlv_data a.buffer name
        → has_data (apdu_data a) ≡ true
        → is_hotp (byte_at a.buffer key.offset) ≡ false
        → is_ok (cmd_put sdk a s).0 ≡ true
        → Found (tlv_data a.buffer name) (apdu_data a) (cmd_put sdk a s).1.files
    cmd_put-Found a s key name hk hn v d t h =
        let e = cmd_put-store_cred a s key name hk hn t h in
        rw e (
          store_cred-Found (tlv_data a.buffer name) (apdu_data a) s
            (has_name_own (apdu_data a) (tlv_data a.buffer name) name hn v d)
            (subst (λ (r : Result Sw (Unit {0}) × Oath). is_ok r.0 ≡ true) e h))
