-- ===== src/TrustedOs/Ctl/Start.antt =====
-- The start of the control interface: `Start` of trusted_os/ctl.go.
use armored_witness_os.Base.{ℕ, Bool, Bytes, Option, none, some, ok, M, ◌>>◌}
use armored_witness_os.TrustedOs.Boot.{fatal}
use armored_witness_os.TrustedOs.Debug.{Ports, configure_uart}
use armored_witness_os.TrustedOs.Load.{Handlers, set_handler, control_interrupts}
use armored_witness_os.TrustedOs.Net.Start.{UsbPort, usb_started}
use armored_witness_os.TrustedOs.Usb.{UsbDevice, configure_device, configure_hid}

-- The interrupt handlers, and whether there is a serial port over USB.
abbrev pub ControlState : Type 0
ControlState = Handlers × Bool

module _ {W : Type 0} (gic_enable_interrupt : ℕ → Bool → W → W) (usb : UsbDevice W)
    (ports : Ports W) where
  -- An error is fatal.
  abbrev pub fatally : M W (Unit {0}) → M (ControlState × W) (Unit {0})
  fatally m (c, w) = let done = fatal (m w) in (done.0, (c, done.1))

  abbrev pub with_uart : Bool → M (ControlState × W) (Unit {0})
  with_uart lan ((hs, serial), w) =
      let done = fatal (configure_uart ports lan (serial, w)) in
      (done.0, ((hs, done.1.0), done.1.1))

  abbrev pub control_started : Option (UsbPort W) → M (ControlState × W) (Unit {0})
  control_started none s = (ok tt, s)
  control_started (some port) ((hs, serial), w) = (
    ok tt,
    (
      (set_handler port.irq control_interrupts hs, serial),
      usb_started gic_enable_interrupt port (port.device_mode w),
    ),
  )

  -- `Start`; `lan` tells whether there is a LAN controller, and the serial number is the unit's
  -- unique id as text.
  unfoldable pub start : Bool → Bytes → Option (UsbPort W) → M (ControlState × W) (Unit {0})
  start lan serial_number control = do
    fatally (configure_device usb serial_number)
    fatally (configure_hid usb)
    with_uart lan
    control_started control
