-- ===== src/TrustedOs/Ctl/CrashLogs.antt =====
-- A crash log from the applet's loop to witnessctl: `storeAppletCrashLog` and `retrieveLastCrashLog`
-- of trusted_os/flash.go, `CrashLogs` of trusted_os/ctl.go and `crashLogs` of cmd/witnessctl/api.go.
use armored_witness_os.Base.{
  ℕ, ◌+◌, ◌*◌, ◌≤◌, ◌<◌, ◌≡◌, Bool, subst, [], Bytes, length, some, Result, ok, refl, M, Error,
}
use armored_witness_os.Disk.{Card, IsDisk, ReadsBack}
use armored_witness_os.TrustedOs.Firmware.{crash_log_block, expected_block_size}
use armored_witness_os.TrustedOs.Flash.{
  max_log_size, store_applet_crash_log, retrieve_last_crash_log,
}
use armored_witness_os.TrustedOs.Flash.CrashLog.{NoZeros, last_bytes, stored-fetched}
use armored_witness_os.TrustedOs.Ctl.{LogMessages}
use armored_witness_os.TrustedOs.Ctl.Logs.{IsLink, crash_logs_lem}
use armored_witness_os.WitnessCtl.Client

module _ {W : Type 0} (card : Card W) (disk : W → ℕ → ℕ) (is_disk : IsDisk card disk) (capacity : ℕ)
    (Good : W → Type 0) (reads : ReadsBack card disk capacity Good)
    (room : crash_log_block * expected_block_size + max_log_size ≤ capacity) (gzip : Bytes → Bytes)
    (gunzip : Bytes → Result Bytes) (vendor_first : ℕ) (send : ℕ → Bool → M (Bytes × W) LogMessages)
    (meanwhile : W → W) (logs : W → Bytes) (message : Error → Bytes)
    (link : IsLink gzip gunzip vendor_first send meanwhile logs message (some card)) where
  -- On a card that is a disk and reads back what it holds, with room for the crash log, and over a
  -- link to witnessctl that delivers log commands to their handlers: after a crash log that is not
  -- empty and has no zero byte is stored, with the same bytes on the disk when the first request
  -- arrives and the stored log readable, witnessctl gets its last bytes, one MiB of them at most,
  -- and the device's buffer is empty, if the rounds times 1024 exceed the compressed length.
  pub crash_log_fetched :
      (fuel : ℕ) (b l out : Bytes) (w v u u' : W)
      → NoZeros l
      → 0 < length l
      → store_applet_crash_log card l w ≡ (ok tt, v)
      → ((a : ℕ) → disk (meanwhile u) a ≡ disk v a)
      → Good (meanwhile u)
      → retrieve_last_crash_log card (meanwhile u) ≡ (ok out, u')
      → length (gzip (last_bytes max_log_size l)) < fuel * 1024
      → (x : W) × (Client.crash_logs gunzip vendor_first send fuel (b, u)
          ≡ (ok (last_bytes max_log_size l), ([], x)))
  crash_log_fetched fuel b l out w v u u' clean some_bytes stored after good found small =
      let same =
        stored-fetched card disk is_disk capacity Good reads room l out w v (meanwhile u) u' clean
          some_bytes good stored after found in
      let found_last =
        subst (λ x. retrieve_last_crash_log card (meanwhile u) ≡ (ok x, u')) same found in
      crash_logs_lem gzip gunzip vendor_first send meanwhile logs message (some card) link fuel b
        (last_bytes max_log_size l) u u' card refl found_last small
