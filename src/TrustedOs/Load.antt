-- ===== src/TrustedOs/Load.antt =====
-- trusted_os/load.go: an applet is loaded and run.
pub mod Routing
use armored_witness_os.Base.{
  ℕ, ◌%◌, ◌^◌, ◌/◌, ◌-◌, Bool, true, false, ◌&&◌, Bytes, ◌==◌, if◌then◌else◌, Option, none, some,
  Result, ok, err, halt, M, ◌>>=◌, ◌>>◌, pure, lift,
}
use armored_witness_os.TrustedOs.Debug.{ElfReader, ExecCtx, Vectors, os_handler, inspect}

-- The functions that are registered for interrupts in `irqHandler`: they service the watchdog of
-- load.go, the USB network or the LAN of net.go, and the control interface of ctl.go.
pub data IrqHandler : Type 0 where
  service_watchdog usb_interrupts lan_interrupts control_interrupts : IrqHandler

abbrev pub Handlers : Type 0
Handlers = ℕ → Option IrqHandler

abbrev pub set_handler : ℕ → IrqHandler → Handlers → Handlers
set_handler irq h hs n = if n == irq then some h else hs n

-- The handlers, and the device.
pub record Machine (W : Type 0) : Type 0 where
  pub handlers : Handlers
  pub world : W

-- `bits.Clear(&reg, CPSR_FIQ)`
abbrev pub clear_fiq : ℕ → ℕ
clear_fiq reg = if reg / 2 ^ 6 % 2 == 1 then reg - 2 ^ 6 else reg

abbrev pub watchdog_timeout : ℕ
watchdog_timeout = 60000

abbrev pub watchdog_warning_interval : ℕ
watchdog_warning_interval = 5000

-- What the OS calls to load and run an applet: the ELF loader and the monitor of GoTEE, the second
-- watchdog, the interrupt controller and the processor of TamaGo.
pub record Monitor (W : Type 0) : Type 0 where
  pub configure_mmu : W → W
  pub load_image : Bytes → M W (Unit {0})
  pub load : M W ExecCtx
  pub register : W → W
  pub memory_end : ℕ
  pub wdog_irq : ℕ
  pub gic_enable_interrupt : ℕ → Bool → W → W
  pub wdog_enable_interrupt : ℕ → W → W
  pub wdog_enable_timeout : ℕ → W → W
  pub fiq_en : Bool → W → W
  -- `ctx.Run`, during which interrupts and calls come
  pub run : M (ExecCtx × Machine W) (Unit {0})
  pub enable_interrupts : W → W

module _ {F L T W : Type 0} (elf : ElfReader F L T) (vectors : Vectors) (debug : Bool)
    (ta_elf : Bytes) (monitor : Monitor W) where
  abbrev pub act : (W → W) → Machine W → Machine W
  act f m = record m { world = f m.world }

  abbrev pub failed : Result (Unit {0}) → Bool
  failed (err e) = true
  failed _ = false

  -- What follows the run: `halt` is a run that does not return.
  unfoldable pub finish :
      Result (Unit {0}) × (ExecCtx × Machine W) → Result (Unit {0}) × (ExecCtx × Machine W)
  finish (halt, s) = (halt, s)
  finish (r, (ctx, m)) =
      let s : ExecCtx × Machine W =
        (ctx, act monitor.enable_interrupts (act (monitor.fiq_en false) m)) in
      if failed r && debug then inspect elf vectors ta_elf monitor.run ta_elf s else (r, s)

  -- The device when the applet is entered.
  unfoldable pub entered : Machine W → Machine W
  entered m = record {
    handlers = set_handler monitor.wdog_irq service_watchdog m.handlers;
    world = monitor.fiq_en true (
        monitor.wdog_enable_timeout watchdog_timeout (
          monitor.wdog_enable_interrupt watchdog_warning_interval
            (monitor.gic_enable_interrupt monitor.wdog_irq true m.world)));
  }

  -- `run`
  unfoldable pub run : M (ExecCtx × Machine W) (Unit {0})
  run (ctx, m) = finish (monitor.run (ctx, entered m))

  -- The context that the monitor makes, as it is set up.
  unfoldable pub prepared : ExecCtx → ExecCtx
  prepared ctx = record ctx {
    r13 = monitor.memory_end % 2 ^ 32;
    handler = os_handler;
    spsr = clear_fiq ctx.spsr;
  }

  -- There is a context, whether or not it could be run.
  abbrev pub with_context : Result (Unit {0}) × (ExecCtx × Machine W) → Result Bool × Machine W
  with_context (halt, s) = (halt, s.1)
  with_context (_, s) = (ok true, s.1)

  abbrev pub run_loaded : Machine W → Result ExecCtx × W → Result Bool × Machine W
  run_loaded m (ok ctx, w) =
      with_context (run (prepared ctx, record m { world = monitor.register w }))
  run_loaded m (err e, w) = (ok false, record m { world = w })
  run_loaded m (halt, w) = (halt, record m { world = w })

  -- `loadApplet`: whether it returns a context. Its error is logged only.
  unfoldable pub load_applet : Bytes → M (Machine W) Bool
  load_applet image m =
      run_loaded m
        ((monitor.load_image image >>= λ _. monitor.load) (monitor.configure_mmu m.world))
