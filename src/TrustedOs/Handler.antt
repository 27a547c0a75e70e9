-- ===== src/TrustedOs/Handler.antt =====
-- trusted_os/handler.go: interrupts and system calls.
pub mod Masking
use armored_witness_os.Base.{
  ℕ, Bool, not, ◌==◌, if◌then◌else◌, Option, none, some, halt, M, ◌>>=◌, ◌>>◌, pure,
}

-- The wake handlers of handler.s, for the versions of the applet's runtime.
pub data WakeHandler : Type 0 where
  wake_handler_pre_go123 wake_handler_go123 wake_handler_go124 wake_handler_go125 : WakeHandler

-- `handler123Cutover`, `handler124Cutover` and `handler125Cutover` as versions
pub record Cutovers (V : Type 0) : Type 0 where
  pub less_than : V → V → Bool
  pub cutover_123 : V
  pub cutover_124 : V
  pub cutover_125 : V

-- `configureWakeHandler`
unfoldable pub configure_wake_handler : {V : Type 0} → Cutovers V → V → WakeHandler
configure_wake_handler cs version =
    if cs.less_than version cs.cutover_123
    then wake_handler_pre_go123
    else if cs.less_than version cs.cutover_124
    then wake_handler_go123
    else if cs.less_than version cs.cutover_125
    then wake_handler_go124
    else wake_handler_go125

-- Exception vectors and system calls, those that are told apart.
pub data Vector : Type 0 where
  fiq supervisor other : Vector

pub data Syscall : Type 0 where
  sys_write rx tx fiq freq other : Syscall

-- `syscall.SYS_WRITE` is GoTEE's; RX, TX, FIQ and FREQ are those of trusted_os/net.go.
abbrev pub syscall_of : ℕ → ℕ → Syscall
syscall_of write_number a0 =
    if a0 == write_number
    then sys_write
    else if a0 == 0x10000000
    then rx
    else if a0 == 0x10000001
    then tx
    else if a0 == 0x10000002
    then Syscall.fiq
    else if a0 == 0x10000003
    then freq
    else Syscall.other

-- What the handler calls.
pub record Services (W : Type 0) : Type 0 where
  -- whether the exception was taken from the applet (`saved == arm.USR_MODE`)
  pub from_applet : W → Bool
  -- `bits.Set(&ctx.SPSR, CPSR_FIQ)` and `bits.Clear(&ctx.SPSR, CPSR_FIQ)`
  pub mask_fiqs : M W (Unit {0})
  pub unmask_fiqs : M W (Unit {0})
  -- the interrupt that is pending, and the handlers that are registered
  pub get_interrupt : M W ℕ
  pub irq_handler : ℕ → W → Option (M W (Unit {0}))
  -- the configured wake handler, at the registered `g` and `p`
  pub wake : M W (Unit {0})
  pub service_watchdog : M W (Unit {0})
  pub log_byte : M W (Unit {0})
  pub rx_from_applet : M W (Unit {0})
  pub tx_from_applet : M W (Unit {0})
  pub set_frequency : M W (Unit {0})
  pub secure_handler : M W (Unit {0})

module _ {W : Type 0} (os : Services W) where
  -- An interrupt that nothing is registered for is logged.
  abbrev pub serve : Option (M W (Unit {0})) → M W (Unit {0})
  serve none = pure tt
  serve (some handle) = handle

  -- `isr`
  unfoldable pub isr : M W (Unit {0})
  isr = os.get_interrupt >>= λ irq. λ w. serve (os.irq_handler irq w) w

  -- `fiqHandler`
  unfoldable pub fiq_handler : M W (Unit {0})
  fiq_handler w =
      if not (os.from_applet w) then os.mask_fiqs w else (do isr; os.mask_fiqs; os.wake) w

  abbrev pub call : Syscall → M W (Unit {0})
  call sys_write = os.log_byte
  call rx = os.rx_from_applet
  call tx = os.service_watchdog >>= λ _. os.tx_from_applet
  call Syscall.fiq = os.unmask_fiqs
  call freq = os.set_frequency
  call Syscall.other = os.secure_handler

  -- `handler`: any other exception is fatal.
  unfoldable pub handler : Vector → Syscall → M W (Unit {0})
  handler Vector.fiq s = fiq_handler
  handler supervisor s = call s
  handler Vector.other s = λ w. (halt, w)
