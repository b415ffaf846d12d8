-- ===== src/Otp/Swap.antt =====
-- The swap of the two slots of otp.c.
use pico_fido_microkey.Base.{
  ℕ, ◌+◌, ◌≡◌, ◌≤◌, ◌∙◌, ap, refl, arith, Bool, true, false, not, ◌||◌, List, [], ◌∷◌, length,
  block, write_bytes, block-write_bytes, ◌==◌, if◌then◌else◌,
}
use pico_fido_microkey.Base.Exec.{is_ok}
use pico_fido_microkey.Sdk.{has_data, IsFlash}
use pico_fido_microkey.Files.{ef_otp_slot1, ef_otp_slot2}
use pico_fido_microkey.Otp.State.{OtpSdk, Otp, new_slot}
use pico_fido_microkey.Otp.Slots.{swap_buffer, move_second, move_first, swap_slots}
use pico_fido_microkey.Otp.Protection.{changed-files}

-- A slot that is empty, or that has all its 60 bytes.
abbrev pub is_whole : List ℕ → Bool
is_whole f = not (has_data f) || length f == 60

no_data-empty : (f : List ℕ) → has_data f ≡ false → f ≡ []
no_data-empty [] h = refl
no_data-empty (x ∷ f) h = ground arith

is_whole-le : (f : List ℕ) → is_whole f ≡ true → length f ≤ 60
is_whole-le [] h = omega arith
is_whole-le (x ∷ f) h = ground arith

module _ (sdk : OtpSdk) where
  swap_buffer-whole : (f : List ℕ) → length f ≡ 60 → swap_buffer sdk f ≡ f
  unfolding block
  swap_buffer-whole f e =
      let whole : 60 ≡ 0 + length f = omega arith in
      ap (λ n. block n (write_bytes sdk.stack 0 f)) whole ∙ block-write_bytes sdk.stack 0 f

  module _ (laws : IsFlash sdk.oath.flash) where
    move_second_at : (s : Otp) → (move_second sdk s).files ef_otp_slot1 ≡ s.files ef_otp_slot2
    unfolding move_second
    move_second_at s = ground (
      arith,
      no_data-empty (s.files ef_otp_slot2),
      laws.put_lem s.files ef_otp_slot1 (s.files ef_otp_slot2) ef_otp_slot1,
      laws.delete_lem s.files ef_otp_slot1 ef_otp_slot1,
      laws.new_lem (sdk.oath.flash.delete_file s.files ef_otp_slot1) ef_otp_slot2 ef_otp_slot1,
    )

    move_first_at :
        (f : List ℕ) (s : Otp)
        → (move_first sdk f s).files ef_otp_slot2 ≡ (if has_data f then swap_buffer sdk f else [])
    unfolding move_first
    move_first_at f s = ground (
      arith,
      laws.put_lem s.files ef_otp_slot2 (swap_buffer sdk f) ef_otp_slot2,
      laws.delete_lem s.files ef_otp_slot2 ef_otp_slot2,
    )

    move_first_else :
        (f : List ℕ) (s : Otp) → (move_first sdk f s).files ef_otp_slot1 ≡ s.files ef_otp_slot1
    unfolding move_first
    move_first_else f s = ground (
      arith,
      laws.put_lem s.files ef_otp_slot2 (swap_buffer sdk f) ef_otp_slot1,
      laws.delete_lem s.files ef_otp_slot2 ef_otp_slot1,
    )

    -- What a swap leaves, whatever the sizes are.
    pub swap_slots_files :
        (s : Otp)
        → length (s.files ef_otp_slot1) ≤ 60
        → (is_ok (swap_slots sdk s).0 ≡ true)
          × (((swap_slots sdk s).1.files ef_otp_slot1 ≡ s.files ef_otp_slot2)
              × ((swap_slots sdk s).1.files ef_otp_slot2 ≡ (
                  if has_data (s.files ef_otp_slot1)
                  then swap_buffer sdk (s.files ef_otp_slot1)
                  else [])))
    unfolding swap_slots
    swap_slots_files s l =
        let t = new_slot sdk ef_otp_slot2 (new_slot sdk ef_otp_slot1 s) in
        let f = t.files ef_otp_slot1 in
        let u = move_second sdk t in
        let c = sdk.oath.flash.file_new s.files ef_otp_slot1 in
        ground (
          arith,
          laws.new_lem c ef_otp_slot2 ef_otp_slot1,
          laws.new_lem c ef_otp_slot2 ef_otp_slot2,
          laws.new_lem s.files ef_otp_slot1 ef_otp_slot1,
          laws.new_lem s.files ef_otp_slot1 ef_otp_slot2,
          move_second_at t,
          move_first_at f u,
          move_first_else f u,
          changed-files (move_first sdk f u),
        )

    returned_whole :
        (f : List ℕ) → is_whole f ≡ true → (if has_data f then swap_buffer sdk f else []) ≡ f
    returned_whole [] h = refl
    returned_whole (x ∷ f) h = swap_buffer-whole (x ∷ f) (ground arith)

    -- The slots are exchanged by a swap, an empty one too, if the first one is empty or has all its
    -- 60 bytes.
    pub swap_slots-Swapped :
        (s : Otp)
        → is_whole (s.files ef_otp_slot1) ≡ true
        → ((swap_slots sdk s).1.files ef_otp_slot1 ≡ s.files ef_otp_slot2)
          × ((swap_slots sdk s).1.files ef_otp_slot2 ≡ s.files ef_otp_slot1)
    swap_slots-Swapped s w =
        let r = swap_slots_files s (is_whole-le (s.files ef_otp_slot1) w) in
        (r.1.0, r.1.1 ∙ returned_whole (s.files ef_otp_slot1) w)

    -- Two swaps leave both slots as they were, if each is empty or has all its 60 bytes.
    pub swap_slots-swap_slots :
        (s : Otp)
        → is_whole (s.files ef_otp_slot1) ≡ true
        → is_whole (s.files ef_otp_slot2) ≡ true
        → ((swap_slots sdk (swap_slots sdk s).1).1.files ef_otp_slot1 ≡ s.files ef_otp_slot1)
          × ((swap_slots sdk (swap_slots sdk s).1).1.files ef_otp_slot2 ≡ s.files ef_otp_slot2)
    swap_slots-swap_slots s v w =
        let t = (swap_slots sdk s).1 in
        let once = swap_slots-Swapped s v in
        let twice = swap_slots-Swapped t (ap is_whole once.0 ∙ w) in
        (twice.0 ∙ once.1, twice.1 ∙ once.0)
