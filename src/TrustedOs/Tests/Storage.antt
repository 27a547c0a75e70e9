-- ===== src/TrustedOs/Tests/Storage.antt =====
-- The fake card with small images: trusted_os/flash.go on trusted_os/storage_debug.go.
use armored_witness_os.Base.{
  ℕ, ◌≡◌, ◌≢◌, ◌≤◌, ◌⊎◌, inl, inr, ◌*◌, ◌-◌, ◌+◌, true, false, refl, [], ◌∷◌, Bytes, length, take,
  drop, copy, ok, err, halt, Result, arith, replicate, subst, some, or_fail,
}
use armored_witness_os.Disk.{within, overlay}
use armored_witness_os.TrustedOs.Firmware.{
  firmware_applet, ProofBundle, ConfigCodec, Loaded, ta_block_a, ta_block_b, conf_block, os_block_b,
}
use armored_witness_os.TrustedOs.Flash.{flash, flash_loop, chunk_of, rest_of, flash_firmware}
use armored_witness_os.TrustedOs.Flash.Loop.{padded, flash-written, flash-confined, flash_halts_not}
use armored_witness_os.TrustedOs.Flash.Slots.{
  conf_room, running_slot_kept, config_last, install-written, ConfFits, ElfInPlace, new_config,
}
use armored_witness_os.TrustedOs.FakeCard.{
  FakeCard, fake_card, new_fake_card, write_blocks, write_loop, pad_to_sector, bytes_of,
}
use armored_witness_os.TrustedOs.FakeCard.Laws.{fake_card-IsDisk}

abbrev empty_card : FakeCard
empty_card = new_fake_card 8388608

abbrev image : Bytes
image = 0x7f ∷ 0x45 ∷ 0x4c ∷ 0x46 ∷ []

abbrev flashed : Result (Unit {0}) × FakeCard
flashed = flash fake_card image 100 empty_card

flashed_ok : flashed ≡ (ok tt, flashed.1)
unfolding flash flash_loop chunk_of rest_of write_blocks write_loop pad_to_sector
flashed_ok = refl

flash-written_example :
    bytes_of flashed.1 51201 ≡ overlay (100 * 512) (padded image) (bytes_of empty_card) 51201
flash-written_example =
    flash-written fake_card bytes_of fake_card-IsDisk image 100 empty_card flashed.1 flashed_ok
      51201

flash-confined_example : bytes_of flashed.1 7 ≡ bytes_of empty_card 7
flash-confined_example =
    flash-confined fake_card bytes_of fake_card-IsDisk image 100 empty_card 7 refl

write_halts_not : (lba : ℕ) (bs : Bytes) (w : FakeCard) → (fake_card.write_blocks lba bs w).0 ≢ halt
unfolding write_blocks
write_halts_not lba bs w = ground arith

flash_halts_not_example : flashed.0 ≢ halt
flash_halts_not_example = flash_halts_not fake_card write_halts_not image 100 empty_card

abbrev proof : ProofBundle
proof = record { checkpoint = 1 ∷ []; log_index = 5; inclusion_proof = []; manifest = 2 ∷ [] }

-- A codec that writes down the size and the offset only.
abbrev codec : ConfigCodec
codec = record {
  encode = λ c. ok (c.size ∷ c.offset ∷ []);
  decode = λ b. err (armored_witness_os.Base.no_devices);
  max_length = 40960;
}

abbrev running : Loaded
running = record { applet_block = ta_block_a; os_block = os_block_b }

image_fits : length image ≤ 31457280
image_fits = omega arith

-- What is installed: a new applet, beside the one in slot A that runs.
codec-ConfFits :
    ConfFits fake_card bytes_of fake_card-IsDisk codec running firmware_applet image proof
      image_fits
codec-ConfFits b e =
    let same : 4 ∷ ta_block_b * 512 ∷ [] ≡ b = cc (e) in
    subst (λ x. length x + 512 ≤ 40960) same (omega arith)

abbrev installed : Result (Unit {0}) × FakeCard
installed = flash_firmware codec running (some fake_card) firmware_applet image proof empty_card

installed_ok : installed ≡ (ok tt, installed.1)
unfolding flash_firmware flash flash_loop chunk_of rest_of write_blocks write_loop pad_to_sector
installed_ok = refl

running_slot_kept_example :
    bytes_of installed.1 (ta_block_a * 512 + 3) ≡ bytes_of empty_card (ta_block_a * 512 + 3)
running_slot_kept_example =
    running_slot_kept fake_card bytes_of fake_card-IsDisk codec running firmware_applet image proof
      image_fits empty_card (ta_block_a * 512 + 3) codec-ConfFits (inl refl) refl

config_last_example :
    ((a : ℕ)
      → within (conf_block firmware_applet * 512) conf_room (bytes_of installed.1) a
        ≡ within (conf_block firmware_applet * 512) conf_room (bytes_of empty_card) a)
    ⊎ ElfInPlace fake_card bytes_of fake_card-IsDisk codec running firmware_applet image proof
        image_fits installed.1
config_last_example =
    config_last fake_card bytes_of fake_card-IsDisk codec running firmware_applet image proof
      image_fits empty_card codec-ConfFits

install-written_example :
    (b : Bytes) × (codec.encode (
        new_config fake_card bytes_of fake_card-IsDisk codec running firmware_applet image proof
          image_fits)
      ≡ ok b)
    × ElfInPlace fake_card bytes_of fake_card-IsDisk codec running firmware_applet image proof
        image_fits installed.1
    × ((a : ℕ)
        → overlay (conf_block firmware_applet * 512) (padded b) (bytes_of installed.1) a
          ≡ bytes_of installed.1 a)
install-written_example =
    install-written fake_card bytes_of fake_card-IsDisk codec running firmware_applet image proof
      image_fits empty_card installed.1 codec-ConfFits installed_ok
