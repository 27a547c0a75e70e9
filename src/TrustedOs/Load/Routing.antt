-- ===== src/TrustedOs/Load/Routing.antt =====
-- Which interrupts are routed where while an applet runs: `run` of trusted_os/load.go.
use armored_witness_os.Base.{
  ◌≡◌, ◌≢◌, ◌∙◌, refl, Bool, true, false, Bytes, some, Result, ok, err, halt, ==_refl, Keeps,
  keeps_rules, lift, when, ◌>>=◌,
}
use armored_witness_os.TrustedOs.Debug.{
  ElfReader, ExecCtx, Vectors, file_line, set_ctx, faulted, segfault, inspect,
}
use armored_witness_os.TrustedOs.Load.{Machine, Monitor, service_watchdog, finish, entered, run}

-- What is known of the routing of interrupts to FIQs: it is what was last set.
pub record IsRouting {W : Type 0} (monitor : Monitor W) (routed : W → Bool) : Type 0 where
  pub set : (b : Bool) (w : W) → routed (monitor.fiq_en b w) ≡ b
  pub interrupts : (w : W) → routed (monitor.enable_interrupts w) ≡ routed w
  pub runs : (s : ExecCtx × Machine W) → routed (monitor.run s).1.1.world ≡ routed s.1.world

module _ {F L T W : Type 0} (elf : ElfReader F L T) (vectors : Vectors) (ta_elf : Bytes)
    (monitor : Monitor W) (routed : W → Bool) (laws : IsRouting monitor routed) where
  abbrev Unrouted : ExecCtx × Machine W → Type 0
  Unrouted s = routed s.1.world ≡ false

  run-Keeps : Keeps Unrouted monitor.run
  run-Keeps = record { at = λ s h. laws.runs s ∙ h }

  set_ctx-Keeps :
      (f : ExecCtx → ExecCtx) → Keeps Unrouted (set_ctx elf vectors ta_elf monitor.run f)
  set_ctx-Keeps f = record { at = λ s h. h }

  segfault-Keeps : (buf : Bytes) → Keeps Unrouted (segfault elf vectors ta_elf monitor.run buf)
  unfolding segfault
  segfault-Keeps buf = search (run-Keeps, set_ctx-Keeps, keeps_rules)

  inspect-Keeps : (buf : Bytes) → Keeps Unrouted (inspect elf vectors ta_elf monitor.run buf)
  unfolding inspect
  inspect-Keeps buf = record { at = λ s. (steps s).at s }
    where
      steps :
          (s : ExecCtx × Machine W)
          → Keeps Unrouted (
              lift (file_line elf buf s.0.r15) >>= λ _. lift (file_line elf buf s.0.r14) >>= λ _.
              when
                (faulted elf vectors ta_elf monitor.run s.0)
                (segfault elf vectors ta_elf monitor.run buf))
      steps s = search (segfault-Keeps, keeps_rules)

  returned-Unrouted :
      (debug : Bool) (r : Result (Unit {0})) (ctx : ExecCtx) (m : Machine W)
      → r ≢ halt
      → Unrouted (finish elf vectors debug ta_elf monitor (r, (ctx, m))).1
  unfolding finish
  returned-Unrouted debug halt ctx m h = absurd (h refl)
  returned-Unrouted debug (ok tt) ctx m h = laws.interrupts _ ∙ laws.set false m.world
  returned-Unrouted true (err e) ctx m h =
      (inspect-Keeps ta_elf).at _ (laws.interrupts _ ∙ laws.set false m.world)
  returned-Unrouted false (err e) ctx m h = laws.interrupts _ ∙ laws.set false m.world

  -- An applet is entered with interrupts routed to FIQs and the watchdog's interrupt served by the
  -- OS. If it returns at all, with or without an error, and also if it is entered again for a trace,
  -- then `run` leaves with interrupts no longer routed to FIQs.
  pub run-routed :
      (debug : Bool) (ctx : ExecCtx) (m : Machine W)
      → (e : Machine W) × (routed e.world ≡ true)
        × (e.handlers monitor.wdog_irq ≡ some service_watchdog)
        × (run elf vectors debug ta_elf monitor (ctx, m)
            ≡ finish elf vectors debug ta_elf monitor (monitor.run (ctx, e)))
        × ((monitor.run (ctx, e)).0 ≢ halt
            → routed (run elf vectors debug ta_elf monitor (ctx, m)).1.1.world ≡ false)
  unfolding run entered
  run-routed debug ctx m =
      let e : Machine W = entered elf vectors debug ta_elf monitor m in
      (
        e,
        laws.set true _,
        rw (==_refl monitor.wdog_irq) refl,
        refl,
        λ h. returned-Unrouted debug (monitor.run (ctx, e)).0 _ _ h,
      )
