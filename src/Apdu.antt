-- ===== src/Apdu.antt =====
-- The command APDU and the status words of the smart-card applications.
use pico_fido_microkey.Base.{ℕ, List, block}

-- `buffer` is the memory at `apdu.data`, of which the command's data are the first `nc` bytes.
pub record Apdu : Type 0 where
  pub cla : ℕ
  pub ins : ℕ
  pub p1 : ℕ
  pub p2 : ℕ
  pub nc : ℕ
  pub buffer : List ℕ

-- The command's data.
abbrev pub apdu_data : Apdu → List ℕ
apdu_data a = block a.nc a.buffer

-- The SW_... that are no SW_OK.
pub data Sw : Type 0 where
  security_status_not_satisfied incorrect_params incorrect_p1p2 data_invalid file_full : Sw
  exec_error conditions_not_satisfied wrong_data cla_not_supported ins_not_supported : Sw
  wrong_length channel_busy : Sw
  -- A read or write past the end of an array: what happens then is not defined.
  memory_fault : Sw
