-- ===== src/TrustedOs/Applet.antt =====
-- The loop of trusted_os/main.go that verifies and runs the applet.
pub mod Crash
use armored_witness_os.Base.{
  ◌≡◌, Bool, Bytes, if◌then◌else◌, Result, ok, err, halt, M, next, ◌>>=◌, ◌>>◌, pure, lift, refl,
}
use armored_witness_os.Disk.{Card}
use armored_witness_os.TrustedOs.Firmware.{Bundle}
use armored_witness_os.TrustedOs.Flash.{store_applet_crash_log}
use armored_witness_os.TrustedOs.Handler.{Cutovers, WakeHandler, configure_wake_handler}
use armored_witness_os.TrustedOs.Boot.{logged}
use armored_witness_os.TrustedOs.Debug.{ElfReader, Vectors}
use armored_witness_os.TrustedOs.Load.{Machine, Monitor, load_applet}

-- The fields of a manifest that are read: `Git.TagName` and `Build.TamagoVersion`.
pub record Manifest (V : Type 0) : Type 0 where
  pub tag_name : V
  pub tamago_version : V

-- `loadedAppletVersion` and `wHandler`
pub record Running (V : Type 0) : Type 0 where
  pub loaded_applet_version : V
  pub wake_handler : WakeHandler

-- The rest of what the loop calls.
pub record Surroundings (W : Type 0) : Type 0 where
  pub white_led : W → W
  -- the end of the context
  pub await_done : M W (Unit {0})
  pub console_logs : W → Bytes

module _ {F L T W : Type 0} (elf : ElfReader F L T) (vectors : Vectors) (debug : Bool)
    (ta_elf : Bytes) (monitor : Monitor W) (around : Surroundings W) where
  abbrev pub on_world : {A : Type 0} → M W A → M (Machine W) A
  on_world m s = let done = m s.world in (done.0, record s { world = done.1 })

  -- A round of the loop, after the verification: `Done` of a nil context is a panic.
  unfoldable pub run_applet : Card W → Bytes → M (Machine W) (Unit {0})
  run_applet card image = do
    λ s. (ok tt, record s { world = around.white_led s.world })
    present ← load_applet elf vectors debug ta_elf monitor image
    if present then on_world around.await_done else (λ s. (halt, s))
    on_world (λ w. logged tt (store_applet_crash_log card (around.console_logs w) w))

-- What the verification of a bundle gives: after an error the manifest is `no_manifest`.
unfoldable pub manifest_of : {V : Type 0} → Manifest V → Result (Manifest V) → Result (Manifest V)
manifest_of no_manifest (ok m) = ok m
manifest_of no_manifest (err e) = ok no_manifest
manifest_of no_manifest halt = halt

module _ {F L T V W : Type 0} (elf : ElfReader F L T) (vectors : Vectors) (debug : Bool)
    (ta_elf : Bytes) (monitors : WakeHandler → Monitor W) (around : Surroundings W) where
  -- An applet that runs under what the loop has set.
  abbrev pub beside_running :
      (WakeHandler → M (Machine W) (Unit {0})) → M (Running V × Machine W) (Unit {0})
  beside_running run (r, s) = let done = run r.wake_handler s in (done.0, (r, done.1))

  abbrev pub sets : Cutovers V → Manifest V → M (Running V × Machine W) (Unit {0})
  sets cutovers manifest (r, s) = (
    ok tt,
    (
      record {
        loaded_applet_version = manifest.tag_name;
        wake_handler = configure_wake_handler cutovers manifest.tamago_version;
      },
      s,
    ),
  )

  -- A round of the loop; `no_manifest` is the manifest beside an error of the verification. While an
  -- applet runs, the monitor's exceptions wake it by the handler that has been set before.
  unfoldable pub round :
      Cutovers V
      → Manifest V
      → (Bundle → Result (Manifest V))
      → Card W
      → Bundle
      → M (Running V × Machine W) (Unit {0})
  round cutovers no_manifest verify card ta = do
    manifest ← lift (manifest_of no_manifest (verify ta))
    sets cutovers manifest
    beside_running (λ wake_handler.
        run_applet elf vectors debug ta_elf (monitors wake_handler) around card ta.firmware)
