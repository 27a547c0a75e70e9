-- ===== src/TrustedOs/Tests/Tool.antt =====
-- witnessctl and a device: cmd/witnessctl/api.go, trusted_os/ctl.go and the crash log of
-- trusted_os/flash.go.
use armored_witness_os.Base.{
  ℕ, suc, ◌*◌, ◌≡◌, ◌==◌, refl, [], ◌∷◌, Bool, Bytes, Option, none, Result, ok, err, if◌then◌else◌,
  M, Error, no_devices, codes, arith,
}
use armored_witness_os.Disk.{Card, overlay}
use armored_witness_os.TrustedOs.Ctl
use armored_witness_os.TrustedOs.Ctl.{LogMessages}
use armored_witness_os.TrustedOs.Ctl.Logs.{IsLink, console_logs_lem}
use armored_witness_os.TrustedOs.Firmware.{crash_log_block}
use armored_witness_os.TrustedOs.Flash.{
  max_log_size, fit_log, trim_log, store_applet_crash_log, retrieve_last_crash_log,
}
use armored_witness_os.TrustedOs.Tests.MemoryCard.{Memory, memory_card, bytes_from, blank}
use armored_witness_os.WitnessCtl.Client

-- A compression that adds a header.
abbrev pub pack : Bytes → Bytes
pack b = 0x1f ∷ 0x8b ∷ b

abbrev pub unpack : Bytes → Result Bytes
unpack (m ∷ n ∷ b) = ok b
unpack _ = err no_devices

abbrev pub unread : Error → Bytes
unread e = codes "unread"

-- The first vendor's command is 64: 68 asks for console logs, 69 for crash logs.
abbrev pub exchange :
    {W : Type 0} → (W → W) → (W → Bytes) → Option (Card W) → ℕ → Bool → M (Bytes × W) LogMessages
exchange meanwhile logs storage cmd continue s =
    if cmd == 68
    then Ctl.console_logs pack logs (ok continue) (s.0, meanwhile s.1)
    else Ctl.crash_logs pack unread storage (ok continue) (s.0, meanwhile s.1)

pub exchange-IsLink :
    {W : Type 0} (meanwhile : W → W) (logs : W → Bytes) (storage : Option (Card W))
    → IsLink pack unpack 64 (exchange meanwhile logs storage) meanwhile logs unread storage
exchange-IsLink meanwhile logs storage = record {
  restores = λ l. refl;
  delivers_console = λ continue b w. refl;
  delivers_crash = λ continue b w. refl;
}

-- A device whose log is the number of the requests that it has seen.
abbrev counted : ℕ → Bytes
counted n = n ∷ []

console_logs_lem_example :
    (v : ℕ) × (Client.console_logs unpack 64 (exchange suc counted none) 1 (9 ∷ [], 4)
      ≡ (ok (5 ∷ []), ([], v)))
console_logs_lem_example =
    console_logs_lem pack unpack 64 (exchange suc counted none) suc counted unread none
      (exchange-IsLink suc counted none) 1 (9 ∷ []) 4 (omega arith)

abbrev pub log : Bytes
log = 104 ∷ 105 ∷ []

abbrev pub stored : Memory
stored = overlay (crash_log_block * 512) (fit_log max_log_size log) blank

abbrev pub fetched : Bytes
fetched = trim_log (bytes_from stored (crash_log_block * 512) max_log_size)

pub log_stored : store_applet_crash_log memory_card log blank ≡ (ok tt, stored)
unfolding store_applet_crash_log
log_stored = refl

pub log_fetched : retrieve_last_crash_log memory_card stored ≡ (ok fetched, stored)
unfolding retrieve_last_crash_log
log_fetched = refl

abbrev pub stays : Memory → Memory
stays w = w
