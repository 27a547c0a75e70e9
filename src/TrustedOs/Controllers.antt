-- ===== src/TrustedOs/Controllers.antt =====
-- Which controllers the OS uses on which board: `init` of trusted_os/main.go.
use armored_witness_os.Base.{
  ℕ, Bool, true, false, if◌then◌else◌, Option, none, some, ok, M, ◌>>=◌, ◌>>◌, pure, when,
}

-- `usbarmory.Model()`
pub data Model : Type 0 where
  beta gamma lan other : Model

-- The controllers of the processor.
pub data Nic : Type 0 where
  enet1 enet2 : Nic

pub data Usb : Type 0 where
  usb1 usb2 : Usb

-- `LAN`, `USB` and `Control`
pub record Controllers : Type 0 where
  pub nic : Option Nic
  pub usb : Option Usb
  pub control : Option Usb

-- TamaGo: the set-up of the processor and its controllers.
pub record Soc (W : Type 0) : Type 0 where
  pub native : Bool
  pub has_dcp : Bool
  pub model : Model
  -- `SetARMFreq(Freq528)`, whose error is not looked at
  pub set_frequency : W → W
  pub dcp_init : W → W
  -- the controller with a ring of so many buffers
  pub nic_init : Nic → ℕ → W → W
  pub usb_init : Usb → W → W
  -- the wait for a debug accessory, of so many milliseconds
  pub detect_debug_accessory : ℕ → M W (Unit {0})
  pub gic_init : Bool → Bool → W → W

abbrev pub ring_size : ℕ
ring_size = 512

module _ {W : Type 0} (soc : Soc W) (debug : Bool) where
  abbrev pub acts : (W → W) → M W (Unit {0})
  acts f w = (ok tt, f w)

  -- A board with two USB ports.
  abbrev pub with_usb : M W Controllers
  with_usb = do
    acts (soc.usb_init usb1)
    acts (soc.usb_init usb2)
    when debug (soc.detect_debug_accessory 250)
    pure (record { nic = none; usb = some usb1; control = some usb2 })

  -- The controllers of a native board.
  unfoldable pub of_model : Model → M W Controllers
  of_model beta = with_usb
  of_model gamma = with_usb
  of_model lan = do
    acts (soc.nic_init enet2 ring_size)
    acts (soc.usb_init usb1)
    pure (record { nic = some enet2; usb = none; control = some usb1 })
  of_model other = pure (record { nic = none; usb = none; control = none })

  abbrev pub on_native : M W Controllers
  on_native = do acts soc.set_frequency; when soc.has_dcp (acts soc.dcp_init); of_model soc.model

  abbrev pub emulated : M W Controllers
  emulated = do
    acts (soc.nic_init enet1 ring_size)
    pure (record { nic = some enet1; usb = none; control = none })

  -- `init`
  unfoldable pub init : M W Controllers
  init = do
    found ← (if soc.native then on_native else emulated)
    acts (soc.gic_init true false)
    pure found
