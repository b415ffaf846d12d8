-- ===== src/Sdk.antt =====
-- What the firmware calls in pico-keys-sdk, a git submodule, for its files: an interface.
-- A file is known by its identifier (files.h); what `file_get_data` and `file_get_size` give for it
-- is a list of bytes, and a file with no data, or not there, is the empty list.
use pico_fido_microkey.Base.{ℕ, ◌≡◌, refl, Bool, true, false, List, [], ◌∷◌, ◌==◌, if◌then◌else◌}

abbrev pub Contents : Type 0
Contents = ℕ → List ℕ

-- `file_has_data`
abbrev pub has_data : List ℕ → Bool
has_data [] = false
has_data (x ∷ xs) = true

pub record Flash : Type 0 where
  pub file_put_data : Contents → ℕ → List ℕ → Contents
  pub file_new : Contents → ℕ → Contents
  pub delete_file : Contents → ℕ → Contents

-- The documented behaviour: a write replaces one file, a deletion empties it, and a new file has no
-- data unless it was there already.
pub record IsFlash (flash : Flash) : Type 0 where
  pub put_lem :
      (c : Contents) (fid : ℕ) (d : List ℕ) (g : ℕ)
      → flash.file_put_data c fid d g ≡ (if fid == g then d else c g)
  pub new_lem : (c : Contents) (fid g : ℕ) → flash.file_new c fid g ≡ c g
  pub delete_lem :
      (c : Contents) (fid g : ℕ) → flash.delete_file c fid g ≡ (if fid == g then [] else c g)

-- A flash that behaves so.
abbrev pub ideal_flash : Flash
ideal_flash = record {
  file_put_data = λ c fid d g. if fid == g then d else c g;
  file_new = λ c fid g. c g;
  delete_file = λ c fid g. if fid == g then [] else c g;
}

pub ideal_flash-IsFlash : IsFlash ideal_flash
ideal_flash-IsFlash = record {
  put_lem = λ c fid d g. refl;
  new_lem = λ c fid g. refl;
  delete_lem = λ c fid g. refl;
}
