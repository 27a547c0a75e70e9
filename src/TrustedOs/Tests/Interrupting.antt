-- ===== src/TrustedOs/Tests/Interrupting.antt =====
-- An applet in slot B runs, and the flashing of another one breaks off: trusted_os/flash.go.
use armored_witness_os.Base.{
  ℕ, ◌≡◌, ◌*◌, ◌⊎◌, ◌≤◌, length, inl, inr, refl, sym, ap, [], ◌∷◌, Bytes, some, Result, ok, err,
  ◌==◌, if◌then◌else◌, Bool-cases, bytes_equal, no_devices, flashing_failed, arith,
}
use armored_witness_os.Disk.{Card, IsDisk, ReadsBack, overlay, overlay-outside}
use armored_witness_os.TrustedOs.Firmware.{
  firmware_applet, Loaded, Bundle, Slot, slot_of, bundle_of, ta_block_a, ta_block_b, ota_limit,
}
use armored_witness_os.TrustedOs.Flash.{
  read, read_config, update, flash_firmware, flash, flash_loop, chunk_of, rest_of,
}
use armored_witness_os.TrustedOs.Flash.Slots.{ConfFits, ElfInPlace}
use armored_witness_os.TrustedOs.Flash.Interrupted.{interrupted-read}
use armored_witness_os.TrustedOs.Tests.MemoryCard.{
  Memory, memory_card, memory_card-ReadsBack, bytes_from, blank, proof, codec, codec-IsCodec,
  accept, image, image_fits,
}

-- A card whose writes to one block fail, with the bytes written.
abbrev flaky_write : ℕ → ℕ → Bytes → Memory → Result (Unit {0}) × Memory
flaky_write bad lba bs w =
    if lba == bad
    then (err no_devices, overlay (lba * 512) bs w)
    else (ok tt, overlay (lba * 512) bs w)

abbrev pub flaky_at : ℕ → Card Memory
flaky_at bad = record memory_card { write_blocks = flaky_write bad }

pub flaky_at-IsDisk : (bad : ℕ) → IsDisk (flaky_at bad) (λ w. w)
flaky_at-IsDisk bad = record {
  written = λ lba bs w v whole h a. elim (Bool-cases (lba == bad)) [
    | inl fails ↦ absurd (ground (arith, rw fails at h))
    | inr fine ↦ ap (λ r. r.1 a) (sym (rw fine at h))
  ];
  confined = λ lba bs w a whole out. elim (Bool-cases (lba == bad)) [
    | inl fails ↦ rw fails (overlay-outside (lba * 512) bs w a out)
    | inr fine ↦ rw fine (overlay-outside (lba * 512) bs w a out)
  ];
  read_keeps = λ off size w a. refl;
}

pub flaky_at-ReadsBack : (bad : ℕ) → ReadsBack (flaky_at bad) (λ w. w) 0x1000000000 (λ w. Unit {0})
flaky_at-ReadsBack bad = record {
  read_back = memory_card-ReadsBack.read_back;
  stays_good = λ off size w good. tt;
}

abbrev flaky : Card Memory
flaky = flaky_at ta_block_a

abbrev pub next_image : Bytes
next_image = 1 ∷ 2 ∷ 3 ∷ 4 ∷ []

pub next_image_fits : length next_image ≤ ota_limit
next_image_fits = omega arith

-- Slot A runs at first, and slot B after the first update.
abbrev slot_a : Loaded
slot_a = record { applet_block = ta_block_a; os_block = 0 }

abbrev slot_b : Loaded
slot_b = record { applet_block = ta_block_b; os_block = 0 }

abbrev first : Result (Unit {0}) × Memory
first = update codec slot_a accept (some flaky) firmware_applet image proof blank

abbrev second : Result (Unit {0}) × Memory
second = update codec slot_b accept (some flaky) firmware_applet next_image proof first.1

updates_run : (first ≡ (ok tt, first.1)) × (second ≡ (err flashing_failed, second.1))
unfolding update flash_firmware flash flash_loop chunk_of rest_of bytes_equal
updates_run = (refl, refl)

abbrev found : Bundle × Loaded × Slot
found = (bundle_of image proof, slot_b, slot_of ta_block_a ta_block_b ta_block_b)

found_ok : read flaky codec slot_a second.1 ≡ (ok found, second.1)
unfolding read read_config bytes_from overlay update flash_firmware flash flash_loop chunk_of
    rest_of bytes_equal
found_ok = refl

conf_fits :
    ConfFits flaky
      (λ w. w)
      (flaky_at-IsDisk ta_block_a)
      codec
      slot_a
      firmware_applet
      image
      proof
      image_fits
conf_fits b e = ground arith

next_conf_fits :
    ConfFits flaky
      (λ w. w)
      (flaky_at-IsDisk ta_block_a)
      codec
      slot_b
      firmware_applet
      next_image
      proof
      next_image_fits
next_conf_fits b e = ground arith

interrupted-read_example :
    ((found.0 ≡ bundle_of image proof) × (◌≡◌ {A = ℕ} ta_block_b ta_block_b))
    ⊎ ((a : Unit {0}) × (accept (bundle_of next_image proof) ≡ ok a)
        × ElfInPlace flaky
            (λ w. w)
            (flaky_at-IsDisk ta_block_a)
            codec
            slot_b
            firmware_applet
            next_image
            proof
            (omega arith)
            second.1)
interrupted-read_example =
    interrupted-read flaky (λ w. w) (flaky_at-IsDisk ta_block_a) 0x1000000000 (λ w. Unit {0})
      (flaky_at-ReadsBack ta_block_a) codec codec-IsCodec accept slot_a slot_b slot_a image
      next_image proof proof image_fits (omega arith) refl next_conf_fits blank first.1 first.1
      second.1 second.1 second.1 (err flashing_failed) found conf_fits (omega arith) (omega arith)
      updates_run.0 (λ a. refl) updates_run.1 (λ a. refl) tt found_ok
