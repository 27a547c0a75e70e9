-- ===== src/TrustedOs/Applet/Crash.antt =====
-- The end of an applet, from a round of the loop of trusted_os/main.go to the crash log that
-- cmd/witnessctl/api.go fetches.
use armored_witness_os.Base.{
  ℕ, ◌+◌, ◌*◌, ◌≤◌, ◌<◌, ◌≡◌, ◌∙◌, refl, ap, Bool, true, [], Bytes, length, some, Result, ok, M,
  Error,
}
use armored_witness_os.Disk.{Card, IsDisk, ReadsBack}
use armored_witness_os.TrustedOs.Firmware.{Bundle, crash_log_block, expected_block_size}
use armored_witness_os.TrustedOs.Flash.{
  max_log_size, store_applet_crash_log, retrieve_last_crash_log,
}
use armored_witness_os.TrustedOs.Flash.CrashLog.{NoZeros, last_bytes}
use armored_witness_os.TrustedOs.Handler.{Cutovers, WakeHandler, configure_wake_handler}
use armored_witness_os.TrustedOs.Debug.{ElfReader, Vectors}
use armored_witness_os.TrustedOs.Load.{Machine, Monitor, load_applet}
use armored_witness_os.TrustedOs.Applet.{
  Manifest, Running, Surroundings, manifest_of, run_applet, round,
}
use armored_witness_os.TrustedOs.Ctl.{LogMessages}
use armored_witness_os.TrustedOs.Ctl.Logs.{IsLink}
use armored_witness_os.TrustedOs.Ctl.CrashLogs.{crash_log_fetched}
use armored_witness_os.WitnessCtl.Client

module _ {F L T V W : Type 0} (elf : ElfReader F L T) (vectors : Vectors) (debug : Bool)
    (ta_elf : Bytes) (monitors : WakeHandler → Monitor W) (around : Surroundings W) (card : Card W)
    (cutovers : Cutovers V) (no_manifest : Manifest V) (verify : Bundle → Result (Manifest V))
    (ta : Bundle) where
  abbrev lit : Machine W → Machine W
  lit s = record s { world = around.white_led s.world }

  -- The monitor, with the wake handler that the manifest asks for.
  abbrev pub monitor_for : Manifest V → Monitor W
  monitor_for m = monitors (configure_wake_handler cutovers m.tamago_version)

  abbrev one_round : Running V × Machine W → Machine W
  one_round s =
      (round elf vectors debug ta_elf monitors around cutovers no_manifest verify card ta s).1.1

  -- A round in which the applet is loaded and ends leaves behind what storing the log does.
  round-stores :
      (running : Running V) (s y : Machine W) (x v : W) (m : Manifest V)
      → manifest_of no_manifest (verify ta) ≡ ok m
      → load_applet elf vectors debug ta_elf (monitor_for m) ta.firmware (lit s) ≡ (ok true, y)
      → around.await_done y.world ≡ (ok tt, x)
      → store_applet_crash_log card (around.console_logs x) x ≡ (ok tt, v)
      → (one_round (running, s)).world ≡ v
  unfolding round run_applet
  round-stores running s y x v m verdict loads ends stored =
      rw (one_round, round, verdict, loads, ends, stored) refl

  module _ (disk : W → ℕ → ℕ) (is_disk : IsDisk card disk) (capacity : ℕ) (Good : W → Type 0)
      (reads : ReadsBack card disk capacity Good)
      (room : crash_log_block * expected_block_size + max_log_size ≤ capacity)
      (gzip : Bytes → Bytes) (gunzip : Bytes → Result Bytes) (vendor_first : ℕ)
      (send : ℕ → Bool → M (Bytes × W) LogMessages) (meanwhile : W → W) (message : Error → Bytes)
      (link : IsLink gzip gunzip vendor_first send meanwhile around.console_logs message
        (some card)) where
    -- On a card that is a disk and reads back what it holds, with room for the crash log, and over
    -- a link to witnessctl that delivers log commands to their handlers: after a round of the
    -- applet's loop in which the verifier returned, the applet was loaded and ended, and the
    -- console log at its end, not empty and without zero bytes, was stored, with the same bytes on
    -- the disk when witnessctl's first request arrives and the stored log readable, witnessctl
    -- gets the last bytes of that log, one MiB of them at most, and the device's buffer is empty,
    -- if the rounds times 1024 exceed the compressed length.
    pub ended-fetched :
        (running : Running V) (s y : Machine W) (x v u u' : W) (m : Manifest V) (fuel : ℕ)
        (b out : Bytes)
        → manifest_of no_manifest (verify ta) ≡ ok m
        → load_applet elf vectors debug ta_elf (monitor_for m) ta.firmware (lit s) ≡ (ok true, y)
        → around.await_done y.world ≡ (ok tt, x)
        → NoZeros (around.console_logs x)
        → 0 < length (around.console_logs x)
        → store_applet_crash_log card (around.console_logs x) x ≡ (ok tt, v)
        → ((a : ℕ) → disk (meanwhile u) a ≡ disk (one_round (running, s)).world a)
        → Good (meanwhile u)
        → retrieve_last_crash_log card (meanwhile u) ≡ (ok out, u')
        → length (gzip (last_bytes max_log_size (around.console_logs x))) < fuel * 1024
        → (z : W) × (Client.crash_logs gunzip vendor_first send fuel (b, u)
            ≡ (ok (last_bytes max_log_size (around.console_logs x)), ([], z)))
    ended-fetched running s y x v u u' m fuel b out verdict loads ends clean some_bytes stored after
          good found small =
        let same = round-stores running s y x v m verdict loads ends stored in
        crash_log_fetched card disk is_disk capacity Good reads room gzip gunzip vendor_first send
          meanwhile around.console_logs message link fuel b (around.console_logs x) out x v u u'
          clean some_bytes stored (λ a. after a ∙ ap (λ w. disk w a) same) good found small
