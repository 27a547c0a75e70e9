-- ===== src/TrustedOs/Tests/Installing.antt =====
-- An applet that is installed in pieces and read at the next start: trusted_os/rpc.go and
-- trusted_os/flash.go.
use armored_witness_os.Base.{
  ◌≡◌, ◌≢◌, ◌≤◌, refl, [], ◌∷◌, List, ℕ, length, none, some, ok, pure, false, true, Result,
  bytes_equal, arith, Bytes,
}
use armored_witness_os.Disk.{overlay}
use armored_witness_os.TrustedOs.Firmware.{
  FirmwareType, firmware_applet, firmware_os, Loaded, Bundle, Slot, slot_of, bundle_of, ta_block_a,
  ta_block_b, ota_limit, os_block_a, os_block_b, elf_block,
}
use armored_witness_os.TrustedOs.Flash
use armored_witness_os.TrustedOs.Flash.{
  determine_loaded_os_block, read_config, update, flash_firmware, flash, flash_loop, chunk_of,
  rest_of,
}
use armored_witness_os.TrustedOs.Flash.Slots.{ConfFits}
use armored_witness_os.TrustedOs.Rpc.{Board, Receiver, FirmwareUpdate, install, restart, reboot}
use armored_witness_os.TrustedOs.Rpc.Attempts.{Call, after, calls_of, restarts, since}
use armored_witness_os.TrustedOs.Rpc.Installed.{
  sent_os, install-determine_loaded_os_block, IsBeside, sent, install-read,
}
use armored_witness_os.TrustedOs.Tests.MemoryCard.{
  Memory, memory_card, memory_card-IsDisk, memory_card-ReadsBack, bytes_from, blank, proof, codec,
  codec-IsCodec, accept, image,
}

abbrev board : Board Memory
board = record {
  native = true;
  debug = false;
  snvs_available = pure true;
  net_start = pure tt;
  stop = pure tt;
  await_done = pure tt;
  reset = pure tt;
  led = λ name on. pure tt;
  is_white = λ name. false;
  console_logs = λ w. [];
  sha256 = λ b. b;
  caam = none;
  dcp = none;
}

board-IsBeside : IsBeside board (λ w. w)
board-IsBeside = record { stops = λ w a. refl; awaits = λ w a. refl; resets = λ w a. refl }

-- Slot A runs.
abbrev running : Loaded
running = record { applet_block = ta_block_a; os_block = 0 }

abbrev verify : FirmwareType → Bundle → Result (Unit {0})
verify t b = accept b

abbrev first : FirmwareUpdate
first = record { sequence = 0; image = 0x7f ∷ 0x45 ∷ []; proof = record proof { checkpoint = [] } }

abbrev last : FirmwareUpdate
last = record { sequence = 1; image = 0x4c ∷ 0x46 ∷ []; proof = proof }

-- A call for the OS between the pieces is rejected.
abbrev calls : List Call
calls = (firmware_applet, first) ∷ (firmware_os, last) ∷ []

abbrev receiver : Receiver
receiver = record {
  cfg = [];
  handler = record { g = 0; p = 0 };
  witness_status = none;
  os_firmware_buffer = [];
  applet_firmware_buffer = 8 ∷ [];
}

abbrev start : Receiver × Memory
start = (receiver, blank)

abbrev installed : Result (Unit {0}) × (Receiver × Memory)
installed =
    install board codec running (some memory_card) verify firmware_applet last
      (after board codec running (some memory_card) verify calls start)

installed_ok : installed ≡ (ok tt, (installed.1.0, installed.1.1))
unfolding after install restart reboot update flash_firmware flash flash_loop chunk_of rest_of
    bytes_equal
installed_ok = refl

abbrev found : Bundle × Loaded × Slot
found = (
  bundle_of image proof,
  record running { applet_block = ta_block_b },
  slot_of ta_block_a ta_block_b ta_block_b,
)

found_ok : Flash.read memory_card codec running installed.1.1 ≡ (ok found, installed.1.1)
unfolding Flash.read read_config bytes_from overlay after install restart reboot update
    flash_firmware flash flash_loop chunk_of rest_of bytes_equal
found_ok = refl

image_fits :
    length (
      sent board memory_card
        (λ w. w)
        board-IsBeside
        codec
        running
        verify
        memory_card-IsDisk
        0x1000000000
        (λ w. Unit {0})
        memory_card-ReadsBack
        codec-IsCodec
        running
        calls
        last
        start)
    ≤ ota_limit
unfolding calls_of restarts since
image_fits = omega arith

conf_fits :
    ConfFits memory_card
      (λ w. w)
      memory_card-IsDisk
      codec
      running
      firmware_applet
      (sent board memory_card
        (λ w. w)
        board-IsBeside
        codec
        running
        verify
        memory_card-IsDisk
        0x1000000000
        (λ w. Unit {0})
        memory_card-ReadsBack
        codec-IsCodec
        running
        calls
        last
        start)
      proof
      image_fits
conf_fits b e = ground arith

install-read_example :
    (found.0 ≡ bundle_of image proof)
    × (◌≡◌ {A = ℕ} ta_block_b ta_block_b)
    × (a : Unit {0}) × (accept found.0 ≡ ok a)
unfolding calls_of restarts since
install-read_example =
    install-read board memory_card (λ w. w) board-IsBeside codec running verify memory_card-IsDisk
      0x1000000000 (λ w. Unit {0}) memory_card-ReadsBack codec-IsCodec running calls last start
      image_fits installed.1.0 installed.1.1 installed.1.1 found (λ e. cc) conf_fits (omega arith)
      (omega arith) tt installed_ok found_ok

-- An OS in slot B is installed from slot A, with a piece of an applet between.
abbrev running_os : Loaded
running_os = record { applet_block = ta_block_a; os_block = os_block_a }

abbrev os_calls : List Call
os_calls = (firmware_os, first) ∷ (firmware_applet, first) ∷ []

abbrev os_installed : Result (Unit {0}) × (Receiver × Memory)
os_installed =
    install board codec running_os (some memory_card) verify firmware_os last
      (after board codec running_os (some memory_card) verify os_calls start)

os_installed_ok : os_installed ≡ (ok tt, (os_installed.1.0, os_installed.1.1))
unfolding after install restart reboot update flash_firmware flash flash_loop chunk_of rest_of
    bytes_equal
os_installed_ok = refl

abbrev restarted : Loaded × Slot
restarted =
    (record { applet_block = 0; os_block = os_block_b }, slot_of os_block_a os_block_b os_block_b)

abbrev unloaded : Loaded
unloaded = record { applet_block = 0; os_block = 0 }

restarted_ok :
    determine_loaded_os_block memory_card codec unloaded os_installed.1.1
    ≡ (ok restarted, os_installed.1.1)
unfolding determine_loaded_os_block read_config bytes_from overlay after install restart reboot
    update flash_firmware flash flash_loop chunk_of rest_of bytes_equal
restarted_ok = refl

abbrev os_image : Bytes
os_image =
    sent_os board memory_card (λ w. w) board-IsBeside codec running_os verify memory_card-IsDisk
      0x1000000000 (λ w. Unit {0}) memory_card-ReadsBack codec-IsCodec unloaded os_calls last start

os_image_fits : length os_image ≤ ota_limit
unfolding calls_of restarts since
os_image_fits = omega arith

os_conf_fits :
    ConfFits memory_card
      (λ w. w)
      memory_card-IsDisk
      codec
      running_os
      firmware_os
      os_image
      proof
      os_image_fits
os_conf_fits b e = ground arith

install-determine_loaded_os_block_example :
    (a : Unit {0}) × (accept (bundle_of image proof) ≡ ok a)
    × (◌≡◌ {A = ℕ} os_block_b os_block_b)
    × (elf_block firmware_os restarted.0 ≢ elf_block firmware_os running_os)
unfolding calls_of restarts since
install-determine_loaded_os_block_example =
    install-determine_loaded_os_block board memory_card (λ w. w) board-IsBeside codec running_os
      verify memory_card-IsDisk 0x1000000000 (λ w. Unit {0}) memory_card-ReadsBack codec-IsCodec
      unloaded os_calls last start os_image_fits os_installed.1.0 os_installed.1.1 os_installed.1.1
      restarted (λ e. cc) os_conf_fits (omega arith) tt os_installed_ok restarted_ok
