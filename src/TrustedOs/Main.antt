-- ===== src/TrustedOs/Main.antt =====
-- The whole of `main` of trusted_os/main.go, around the start of the OS and the loop of the applet.
use armored_witness_os.Base.{
  ℕ, Bool, false, ◌&&◌, Bytes, Option, none, some, Result, ok, M, ◌>>=◌, ◌>>◌, pure, when,
}
use armored_witness_os.Fuses.{Otp}
use armored_witness_os.Disk.{Card}
use armored_witness_os.Rpmb.Op.{Platform}
use armored_witness_os.TrustedOs.Firmware.{Bundle, ConfigCodec, Loaded}
use armored_witness_os.TrustedOs.Rollback.{KeySource, Versions}
use armored_witness_os.TrustedOs.Boot.{Build, boot}

-- The rest that main calls: the time-out of the fuses in milliseconds, the LEDs, the goroutines, which
-- run from then on with what follows, the start of the control interface, and the loop that serves
-- interrupts.
pub record Tasks (W : Type 0) : Type 0 where
  pub has_ocotp : Bool
  pub set_ocotp_timeout : ℕ → W → W
  pub blue_led : Bool → W → W
  pub white_led : Bool → W → W
  pub go_applet : Bundle → W → W
  pub go_heartbeat : W → W
  pub start_control : M W (Unit {0})
  pub service_interrupts : M W (Unit {0})

module _ {W : Type 0} (tasks : Tasks W) (native : Bool) where
  abbrev pub acts : (W → W) → M W (Unit {0})
  acts f w = (ok tt, f w)

  -- Without an applet there is no goroutine for one.
  abbrev pub go_applet_of : Option Bundle → M W (Unit {0})
  go_applet_of none = pure tt
  go_applet_of (some ta) = acts (tasks.go_applet ta)

  -- What follows the start.
  unfoldable pub run_tasks : Option Bundle → M W (Unit {0})
  run_tasks ta = do
    go_applet_of ta
    acts tasks.go_heartbeat
    when native tasks.start_control
    tasks.service_interrupts

  unfoldable pub main :
      {K V : Type 0}
      → Build
      → Versions V
      → (Bytes → Result K)
      → ConfigCodec
      → Card W
      → Option Bool
      → Platform W
      → Otp W
      → KeySource W
      → M W Bool
      → Loaded
      → M W (Unit {0})
  main build vs new_verifier codec card storage_kind pf otp ks snvs_available unloaded = do
    when (native && tasks.has_ocotp) (acts (tasks.set_ocotp_timeout 100))
    acts (tasks.blue_led false)
    acts (tasks.white_led false)
    booted ←
        boot build vs new_verifier codec card storage_kind pf otp ks native snvs_available unloaded
    run_tasks booted.ta
