-- ===== src/TrustedOs/Tests/Running.antt =====
-- An applet on a device of which all that is known is whether interrupts are routed to FIQs:
-- trusted_os/load.go and trusted_os/main.go.
use armored_witness_os.Base.{
  ℕ, ◌≡◌, ◌≢◌, Bool, true, false, refl, [], ◌∷◌, Bytes, codes, ltb, ok, halt, none, some, pure,
  fail, no_devices,
}
use armored_witness_os.Disk.{Card}
use armored_witness_os.TrustedOs.Firmware.{Bundle}
use armored_witness_os.TrustedOs.Debug.{ElfReader, ExecCtx, Vectors, default_handler}
use armored_witness_os.TrustedOs.Load.{Machine, Monitor, service_watchdog, run, finish}
use armored_witness_os.TrustedOs.Load.Routing.{IsRouting, run-routed}
use armored_witness_os.TrustedOs.Handler.{Cutovers}
use armored_witness_os.TrustedOs.Applet.{Manifest, Surroundings}

-- Every file has the two symbols of a trace, and one line.
abbrev pub elf : ElfReader Bytes Bytes Bytes
elf = record {
  new_file = λ b. ok b;
  symbols = λ f. ok (
      record { name = codes "runtime.fatalthrow"; value = 100 }
      ∷ record { name = codes "runtime.CallOnG0"; value = 200 }
      ∷ []);
  section = λ f name. some (record { addr = 0; contents = ok [] });
  new_line_table = λ b addr. b;
  new_table = λ b table. ok b;
  pc_to_line = λ table pc. (codes "main.go", pc);
  decimal = λ n. n ∷ [];
}

abbrev pub vectors : Vectors
vectors = record { undefined = 4; prefetch_abort = 12; data_abort = 16 }

-- A context that a data abort has stopped.
abbrev pub ctx : ExecCtx
ctx = record {
  r0 = 0;
  r1 = 0;
  r2 = 0;
  r3 = 0;
  r13 = 0;
  r14 = 0;
  r15 = 0x90000000;
  spsr = 0x1d0;
  exception_vector = 16;
  handler = default_handler;
}

-- Every run ends with an error.
abbrev monitor : Monitor Bool
monitor = record {
  configure_mmu = λ w. w;
  load_image = λ b. pure tt;
  load = pure ctx;
  register = λ w. w;
  memory_end = 0x9e000000;
  wdog_irq = 112;
  gic_enable_interrupt = λ irq secure w. w;
  wdog_enable_interrupt = λ n w. w;
  wdog_enable_timeout = λ n w. w;
  fiq_en = λ b w. b;
  run = fail no_devices;
  enable_interrupts = λ w. w;
}

monitor-IsRouting : IsRouting monitor (λ w. w)
monitor-IsRouting = record { set = λ b w. refl; interrupts = λ w. refl; runs = λ s. refl }

abbrev machine : Machine Bool
machine = record { handlers = λ irq. none; world = false }

run-routed_example :
    (e : Machine Bool) × (e.world ≡ true)
    × (e.handlers 112 ≡ some service_watchdog)
    × (run elf vectors true [] monitor (ctx, machine)
        ≡ finish elf vectors true [] monitor (monitor.run (ctx, e)))
    × ((monitor.run (ctx, e)).0 ≢ halt
        → (run elf vectors true [] monitor (ctx, machine)).1.1.world ≡ false)
run-routed_example = run-routed elf vectors [] monitor (λ w. w) monitor-IsRouting true ctx machine

abbrev card : Card Bool
card = record {
  read = λ offset size. fail no_devices;
  write_blocks = λ lba bs. pure tt;
  info = λ w. record { mmc = true; block_size = 512; blocks = 100 };
  detect = pure tt;
}

abbrev around : Surroundings Bool
around = record { white_led = λ w. w; await_done = pure tt; console_logs = λ w. [] }

abbrev pub no_bundle : Bundle
no_bundle = record {
  checkpoint = [];
  index = 0;
  inclusion_proof = [];
  manifest = [];
  firmware = [];
}

abbrev pub cutovers : Cutovers ℕ
cutovers = record { less_than = ltb; cutover_123 = 123; cutover_124 = 124; cutover_125 = 125 }

abbrev pub zero_manifest : Manifest ℕ
zero_manifest = record { tag_name = 0; tamago_version = 0 }

abbrev pub signed : Manifest ℕ
signed = record { tag_name = 3; tamago_version = 124 }
