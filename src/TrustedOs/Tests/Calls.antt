-- ===== src/TrustedOs/Tests/Calls.antt =====
-- The applet's calls on a board that does nothing but store: trusted_os/rpc.go.
use armored_witness_os.Base.{
  M, ℕ, ◌≡◌, ◌++◌, ◌==◌, if◌then◌else◌, inl, true, false, refl, List, [], ◌∷◌, Bytes, length, ok,
  err, Result, none, some, no_devices, pure,
}
use armored_witness_os.TrustedOs.Firmware.{
  FirmwareType, firmware_applet, firmware_os, ProofBundle, Bundle, ConfigCodec, Loaded, ta_block_a,
  os_block_a, bundle_of,
}
use armored_witness_os.TrustedOs.FakeCard.{
  FakeCard, fake_card, new_fake_card, write_blocks, write_loop, pad_to_sector,
}
use armored_witness_os.TrustedOs.Flash.{
  update, flash_firmware, flash, flash_loop, chunk_of, rest_of,
}
use armored_witness_os.TrustedOs.Rpc.{
  Board, Receiver, EventHandler, FirmwareUpdate, install, restart, reboot, register,
  is_applet_memory,
}
use armored_witness_os.TrustedOs.Rpc.Attempts.{
  Call, after, calls_of, restarts, since, attempt, after-attempt, attempt_verified,
}
use armored_witness_os.TrustedOs.Ctl
use armored_witness_os.TrustedOs.Ctl.Reach.{
  Call as AppletCall, registers, no_more, then_call, called, is_configured, here, later, IsConfined,
  Reach-IsConfined,
}

abbrev board : Board FakeCard
board = record {
  native = false;
  debug = true;
  snvs_available = pure false;
  net_start = pure tt;
  stop = pure tt;
  await_done = pure tt;
  reset = pure tt;
  led = λ name on. pure tt;
  is_white = λ name. false;
  console_logs = λ w. [];
  sha256 = λ b. b;
  caam = none;
  dcp = none;
}

abbrev codec : ConfigCodec
codec = record {
  encode = λ c. ok (c.size ∷ c.offset ∷ []);
  decode = λ b. err no_devices;
  max_length = 40960;
}

abbrev loaded : Loaded
loaded = record { applet_block = ta_block_a; os_block = os_block_a }

abbrev storage : FakeCard
storage = new_fake_card 8388608

-- A bundle is good if its firmware has five bytes.
abbrev verify_length : ℕ → Result (Unit {0})
verify_length n = if n == 5 then ok tt else err no_devices

abbrev verify : FirmwareType → Bundle → Result (Unit {0})
verify t b = verify_length (length b.firmware)

abbrev proof_of : Bytes → ProofBundle
proof_of c = record { checkpoint = c; log_index = 5; inclusion_proof = []; manifest = 2 ∷ [] }

abbrev piece : ℕ → Bytes → Bytes → FirmwareUpdate
piece n image c = record { sequence = n; image = image; proof = proof_of c }

abbrev receiver : Receiver
receiver = record {
  cfg = [];
  handler = record { g = 0; p = 0 };
  witness_status = none;
  os_firmware_buffer = 9 ∷ [];
  applet_firmware_buffer = 8 ∷ [];
}

abbrev first : FirmwareUpdate
first = piece 0 (1 ∷ 2 ∷ []) []

abbrev middle : List FirmwareUpdate
middle = piece 1 (3 ∷ []) [] ∷ piece 2 (4 ∷ []) [] ∷ []

abbrev last : FirmwareUpdate
last = piece 3 (5 ∷ []) (7 ∷ [])

-- The pieces of an applet, with a call for the OS between that is rejected.
abbrev calls : List Call
calls =
    (firmware_applet, piece 7 (6 ∷ []) [])
    ∷ (firmware_applet, first)
    ∷ (firmware_os, piece 4 (6 ∷ []) (7 ∷ []))
    ∷ (firmware_applet, piece 1 (3 ∷ []) [])
    ∷ (firmware_applet, piece 2 (4 ∷ []) [])
    ∷ []

after-attempt_example :
    (after board codec loaded
      (some fake_card)
      verify
      calls
      (receiver, storage)).0.applet_firmware_buffer
    ≡ 1 ∷ 2 ∷ 3 ∷ 4 ∷ []
unfolding calls_of restarts since
after-attempt_example =
    after-attempt board codec loaded (some fake_card) verify firmware_applet calls
      (receiver, storage)

abbrev ran : Result (Unit {0}) × (Receiver × FakeCard)
ran =
    install board codec loaded (some fake_card) verify firmware_applet last
      (after board codec loaded (some fake_card) verify calls (receiver, storage))

ran_ok : ran ≡ (ok tt, ran.1)
unfolding after install restart reboot update flash_firmware flash flash_loop chunk_of rest_of
    write_blocks write_loop pad_to_sector
ran_ok = refl

attempt_verified_example :
    (a : Unit {0}) × (verify firmware_applet
        (bundle_of (attempt (calls_of firmware_applet calls ++ (last ∷ [])) (8 ∷ [])) last.proof)
      ≡ ok a)
attempt_verified_example =
    attempt_verified board codec loaded (some fake_card) verify firmware_applet calls last
      (receiver, storage) ran.1.0 ran.1.1 (λ e. cc) ran_ok

abbrev inside : EventHandler
inside = record { g = 0x90000010; p = 0x90000020 }

abbrev registered : Receiver × FakeCard
registered = (record receiver { handler = inside }, storage)

registers_inside :
    AppletCall board codec loaded (some fake_card) verify (receiver, storage) registered
unfolding register is_applet_memory
registers_inside = registers inside refl

-- An applet that is loaded registers its handler too.
abbrev registers_again : M (Receiver × FakeCard) (Unit {0})
registers_again = register inside

abbrev reloaded : Receiver × FakeCard
reloaded = (Ctl.config board registers_again true (1 ∷ []) registered).1

Reach-IsConfined_example : IsConfined board codec loaded (some fake_card) verify reloaded.0.handler
Reach-IsConfined_example =
    Reach-IsConfined board codec loaded (some fake_card) verify registers_again
      (λ s. then_call no_more (registers inside refl)) (receiver, storage) reloaded
      (later (later here (called registers_inside)) (is_configured true (1 ∷ []) refl))
      (inl (refl, refl))
