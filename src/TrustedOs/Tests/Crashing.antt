-- ===== src/TrustedOs/Tests/Crashing.antt =====
-- A round of the applet's loop that ends, and witnessctl after it: trusted_os/main.go and
-- cmd/witnessctl/api.go.
use armored_witness_os.Base.{ℕ, ap, sym, ◌≡◌, refl, true, [], ok, none, some, pure, arith}
use armored_witness_os.TrustedOs.Applet.{Running, Surroundings, manifest_of, round, run_applet}
use armored_witness_os.TrustedOs.Handler.{WakeHandler, wake_handler_go125}
use armored_witness_os.TrustedOs.Applet.Crash.{ended-fetched}
use armored_witness_os.TrustedOs.Flash.{max_log_size, store_applet_crash_log}
use armored_witness_os.TrustedOs.Flash.CrashLog.{last_bytes}
use armored_witness_os.TrustedOs.Load.{
  Machine, Monitor, load_applet, run, finish, entered, prepared, service_watchdog, set_handler,
}
use armored_witness_os.TrustedOs.Tests.MemoryCard.{
  Memory, memory_card, memory_card-IsDisk, memory_card-ReadsBack, blank,
}
use armored_witness_os.TrustedOs.Tests.Running.{
  elf, vectors, ctx, cutovers, zero_manifest, signed, no_bundle,
}
use armored_witness_os.TrustedOs.Tests.Tool.{
  pack, unpack, unread, exchange, exchange-IsLink, log, stored, fetched, log_stored, log_fetched,
  stays,
}
use armored_witness_os.WitnessCtl.Client

-- Every applet ends without an error.
abbrev monitor : Monitor Memory
monitor = record {
  configure_mmu = λ w. w;
  load_image = λ b. pure tt;
  load = pure ctx;
  register = λ w. w;
  memory_end = 0x9e000000;
  wdog_irq = 112;
  gic_enable_interrupt = λ irq secure w. w;
  wdog_enable_interrupt = λ n w. w;
  wdog_enable_timeout = λ n w. w;
  fiq_en = λ b w. w;
  run = pure tt;
  enable_interrupts = λ w. w;
}

abbrev around : Surroundings Memory
around = record { white_led = λ w. w; await_done = pure tt; console_logs = λ w. log }

abbrev monitors : WakeHandler → Monitor Memory
monitors h = monitor

abbrev no_applet : Running ℕ
no_applet = record { loaded_applet_version = 0; wake_handler = wake_handler_go125 }

abbrev machine : Machine Memory
machine = record { handlers = λ irq. none; world = blank }

abbrev ended : Machine Memory
ended = record {
  handlers = set_handler monitor.wdog_irq service_watchdog machine.handlers;
  world = blank;
}

loads : load_applet elf vectors true [] monitor [] machine ≡ (ok true, ended)
unfolding load_applet run finish entered prepared
loads = refl

verdict : manifest_of zero_manifest (ok signed) ≡ ok signed
unfolding manifest_of
verdict = refl

leaves_log :
    (round elf vectors true [] monitors around cutovers zero_manifest
      (λ b. ok signed)
      memory_card
      no_bundle
      (no_applet, machine)).1.1.world
    ≡ stored
unfolding round manifest_of run_applet load_applet run finish entered prepared
    store_applet_crash_log
leaves_log = refl

ended-fetched_example :
    (z : Memory) × (Client.crash_logs unpack 64
        (exchange stays around.console_logs (some memory_card))
        1
        ([], stored)
      ≡ (ok (last_bytes max_log_size log), ([], z)))
ended-fetched_example =
    ended-fetched elf vectors true [] monitors around memory_card cutovers zero_manifest
      (λ b. ok signed) no_bundle (λ w. w) memory_card-IsDisk 0x1000000000 (λ w. Unit {0})
      memory_card-ReadsBack (omega arith) pack unpack 64
      (exchange stays around.console_logs (some memory_card)) stays unread
      (exchange-IsLink stays around.console_logs (some memory_card)) no_applet machine ended blank
      stored stored stored signed 1 [] fetched verdict loads refl (λ e. cc, (λ e. cc, tt))
      (omega arith) log_stored (λ a. ap (λ f. f a) (sym leaves_log)) tt log_fetched (omega arith)
