-- ===== src/TrustedOs/Tests/InterruptingOs.antt =====
-- The OS in slot B runs, and the flashing of another one breaks off: trusted_os/flash.go.
use armored_witness_os.Base.{
  ℕ, ◌≡◌, ◌⊎◌, refl, some, Result, ok, err, bytes_equal, flashing_failed, arith,
}
use armored_witness_os.Disk.{Card, overlay}
use armored_witness_os.TrustedOs.Firmware.{
  firmware_os, Loaded, Slot, slot_of, bundle_of, os_block_a, os_block_b,
}
use armored_witness_os.TrustedOs.Flash.{
  determine_loaded_os_block, read_config, update, flash_firmware, flash, flash_loop, chunk_of,
  rest_of,
}
use armored_witness_os.TrustedOs.Flash.Slots.{ConfFits, ElfInPlace}
use armored_witness_os.TrustedOs.Flash.InterruptedOs.{interrupted-determine_loaded_os_block}
use armored_witness_os.TrustedOs.Tests.Interrupting.{
  flaky_at, flaky_at-IsDisk, flaky_at-ReadsBack, next_image, next_image_fits,
}
use armored_witness_os.TrustedOs.Tests.MemoryCard.{
  Memory, bytes_from, blank, proof, codec, codec-IsCodec, accept, image, image_fits,
}

abbrev flaky : Card Memory
flaky = flaky_at os_block_a

-- Slot A runs at first, and slot B after the first update.
abbrev slot_a : Loaded
slot_a = record { applet_block = 0; os_block = os_block_a }

abbrev slot_b : Loaded
slot_b = record { applet_block = 0; os_block = os_block_b }

abbrev first : Result (Unit {0}) × Memory
first = update codec slot_a accept (some flaky) firmware_os image proof blank

abbrev second : Result (Unit {0}) × Memory
second = update codec slot_b accept (some flaky) firmware_os next_image proof first.1

updates_run : (first ≡ (ok tt, first.1)) × (second ≡ (err flashing_failed, second.1))
unfolding update flash_firmware flash flash_loop chunk_of rest_of bytes_equal
updates_run = (refl, refl)

abbrev found : Loaded × Slot
found = (slot_b, slot_of os_block_a os_block_b os_block_b)

found_ok : determine_loaded_os_block flaky codec slot_a second.1 ≡ (ok found, second.1)
unfolding determine_loaded_os_block read_config bytes_from overlay update flash_firmware flash
    flash_loop chunk_of rest_of bytes_equal
found_ok = refl

conf_fits :
    ConfFits flaky
      (λ w. w)
      (flaky_at-IsDisk os_block_a)
      codec
      slot_a
      firmware_os
      image
      proof
      image_fits
conf_fits b e = ground arith

next_conf_fits :
    ConfFits flaky
      (λ w. w)
      (flaky_at-IsDisk os_block_a)
      codec
      slot_b
      firmware_os
      next_image
      proof
      next_image_fits
next_conf_fits b e = ground arith

interrupted-determine_loaded_os_block_example :
    ((◌≡◌ {A = ℕ} os_block_b os_block_b)
      × ElfInPlace flaky
          (λ w. w)
          (flaky_at-IsDisk os_block_a)
          codec
          slot_a
          firmware_os
          image
          proof
          image_fits
          second.1)
    ⊎ ((a : Unit {0}) × (accept (bundle_of next_image proof) ≡ ok a)
        × ElfInPlace flaky
            (λ w. w)
            (flaky_at-IsDisk os_block_a)
            codec
            slot_b
            firmware_os
            next_image
            proof
            (omega arith)
            second.1)
interrupted-determine_loaded_os_block_example =
    interrupted-determine_loaded_os_block flaky (λ w. w) (flaky_at-IsDisk os_block_a) 0x1000000000
      (λ w. Unit {0}) (flaky_at-ReadsBack os_block_a) codec codec-IsCodec accept slot_a slot_b
      slot_a image next_image proof proof image_fits (omega arith) refl next_conf_fits blank first.1
      first.1 second.1 second.1 second.1 (err flashing_failed) found conf_fits (omega arith)
      updates_run.0 (λ a. refl) updates_run.1 (λ a. refl) tt found_ok
