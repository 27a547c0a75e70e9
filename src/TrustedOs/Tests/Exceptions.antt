-- ===== src/TrustedOs/Tests/Exceptions.antt =====
-- FIQs that are masked and unmasked: trusted_os/handler.go.
use armored_witness_os.Base.{
  ◌≡◌, refl, Bool, true, false, List, [], ◌∷◌, none, ok, pure-Keeps, pure,
}
use armored_witness_os.TrustedOs.Handler.{
  Services, Vector, Syscall, rx, handler, fiq_handler, isr, supervisor,
}
use armored_witness_os.TrustedOs.Handler.Masking.{
  Mark, woken, unmasked, IsMarked, Alternates, interrupts, calls, here, later,
  Exceptions-Alternates,
}

-- Whether FIQs are masked, and what has happened to the applet.
abbrev Status : Type 0
Status = Bool × List Mark

abbrev services : Services Status
services = record {
  from_applet = λ w. true;
  mask_fiqs = λ w. (ok tt, (true, w.1));
  unmask_fiqs = λ w. (ok tt, (false, unmasked ∷ w.1));
  get_interrupt = pure 32;
  irq_handler = λ irq w. none;
  wake = λ w. (ok tt, (w.0, woken ∷ w.1));
  service_watchdog = pure tt;
  log_byte = pure tt;
  rx_from_applet = pure tt;
  tx_from_applet = pure tt;
  set_frequency = pure tt;
  secure_handler = pure tt;
}

abbrev is_masked : Status → Bool
is_masked w = w.0

abbrev marks_of : Status → List Mark
marks_of w = w.1

services-IsMarked : IsMarked services is_masked marks_of
services-IsMarked = record {
  masks = λ w. (refl, refl);
  unmasks = λ w. refl;
  wakes = λ w. (refl, refl);
  interrupt_keeps = λ m t. pure-Keeps 32;
  serve_keeps = λ m t irq v. pure-Keeps tt;
  watchdog_keeps = λ m t. pure-Keeps tt;
  log_keeps = λ m t. pure-Keeps tt;
  rx_keeps = λ m t. pure-Keeps tt;
  tx_keeps = λ m t. pure-Keeps tt;
  freq_keeps = λ m t. pure-Keeps tt;
  secure_keeps = λ m t. pure-Keeps tt;
}

-- An interrupt, a packet asked for, FIQs asked for again, and the next interrupt.
abbrev fresh : Status
fresh = (false, [])

abbrev served : Status
served = (true, woken ∷ [])

abbrev asked : Status
asked = (false, unmasked ∷ woken ∷ [])

abbrev served_again : Status
served_again = (true, woken ∷ unmasked ∷ woken ∷ [])

first_interrupt : handler services Vector.fiq rx fresh ≡ (ok tt, served)
unfolding handler fiq_handler isr
first_interrupt = refl

packet : handler services supervisor rx served ≡ (ok tt, served)
unfolding handler
packet = refl

again : handler services supervisor Syscall.fiq served ≡ (ok tt, asked)
unfolding handler
again = refl

next_interrupt : handler services Vector.fiq rx asked ≡ (ok tt, served_again)
unfolding handler fiq_handler isr
next_interrupt = refl

Exceptions-Alternates_example : Alternates (woken ∷ unmasked ∷ woken ∷ [])
Exceptions-Alternates_example =
    Exceptions-Alternates services is_masked marks_of services-IsMarked fresh served_again refl (
      later
        (later
          (later (later here (interrupts rx (ok tt) refl first_interrupt))
            (calls rx (ok tt) packet))
          (calls Syscall.fiq (ok tt) again))
        (interrupts rx (ok tt) refl next_interrupt))
