-- ===== src/TrustedOs/Net/Start.antt =====
-- The start of the network: `netStart` of trusted_os/net.go.
use armored_witness_os.Base.{
  ℕ, zero, suc, Bool, true, false, Bytes, codes, [], Option, none, some, Result, ok, err, halt, M,
  pure,
}
use armored_witness_os.TrustedOs.Load.{Handlers, set_handler, lan_interrupts, usb_interrupts}
use armored_witness_os.TrustedOs.Net.{Queues, async_rx}

abbrev pub device_mac : Bytes
device_mac = codes "1a:55:89:a2:69:41"

abbrev pub host_mac : Bytes
host_mac = codes "1a:55:89:a2:69:42"

-- `usb.IRQ_URI`, `usb.IRQ_PCI` and `usb.IRQ_UI`
pub data UsbIrq : Type 0 where
  reset port_change transfer : UsbIrq

-- A USB controller of TamaGo.
pub record UsbPort (W : Type 0) : Type 0 where
  pub irq : ℕ
  pub init : W → W
  pub device_mode : W → W
  pub enable_interrupt : UsbIrq → W → W

-- The LAN controller: frames it has received, oldest first, nil if there is none.
pub record Lan (W : Type 0) : Type 0 where
  pub irq : ℕ
  pub rx : W → Option Bytes × W
  pub clear_interrupt : W → W
  pub enable_interrupt : W → W
  pub start : Bool → W → W

module _ {W : Type 0} (gic_enable_interrupt : ℕ → Bool → W → W) where
  -- The three interrupts of a USB controller in device mode, and its line at the interrupt controller.
  abbrev pub usb_started : UsbPort W → W → W
  usb_started port w = gic_enable_interrupt port.irq true (
      port.enable_interrupt transfer
        (port.enable_interrupt port_change (port.enable_interrupt reset w)))

  -- What follows `nic.Init`, whose error is a panic.
  abbrev pub usb_nic_ready :
      UsbPort W
      → Handlers × Queues
      → Result (Unit {0}) × W
      → Result (Unit {0}) × ((Handlers × Queues) × W)
  usb_nic_ready port (hs, n) (ok _, w) = (
    ok tt,
    (
      (set_handler port.irq usb_interrupts hs, n),
      usb_started port (port.device_mode (port.init w)),
    ),
  )
  usb_nic_ready port s (err e, w) = (halt, (s, w))
  usb_nic_ready port s (halt, w) = (halt, (s, w))

  -- `netStartUSB`; `nic_init` makes the USB network device of the two addresses.
  unfoldable pub net_start_usb :
      UsbPort W → (Bytes → Bytes → M W (Unit {0})) → M ((Handlers × Queues) × W) (Unit {0})
  net_start_usb port nic_init ((hs, n), w) =
      usb_nic_ready port (hs, record n { rx_queue = some []; tx_queue = some [] })
        (nic_init host_mac device_mac w)

  -- `netStartLAN`
  unfoldable pub net_start_lan : Lan W → M ((Handlers × Queues) × W) (Unit {0})
  net_start_lan nic ((hs, n), w) = (
    ok tt,
    (
      (set_handler nic.irq lan_interrupts hs, record n { rx_queue = some [] }),
      gic_enable_interrupt nic.irq true (nic.start false (nic.enable_interrupt w)),
    ),
  )

  -- `netStart`: a LAN controller goes before a USB one.
  unfoldable pub net_start :
      Option (Lan W)
      → Option (UsbPort W)
      → (Bytes → Bytes → M W (Unit {0}))
      → M ((Handlers × Queues) × W) (Unit {0})
  net_start (some nic) port nic_init = net_start_lan nic
  net_start none (some port) nic_init = net_start_usb port nic_init
  net_start none none nic_init = pure tt

-- A round of the loop: a frame is queued, and its interrupt cleared.
abbrev pub took :
    {W : Type 0}
    → Lan W
    → M (Queues × W) (Unit {0})
    → Queues
    → Option Bytes × W
    → Result (Unit {0}) × (Queues × W)
took nic rest n (none, w) = (ok tt, (n, w))
took nic rest n (some buf, w) = rest (async_rx buf n, nic.clear_interrupt w)

-- The LAN's interrupt handler: the loop takes frames until there is none. `halt` is more frames than
-- rounds.
unfoldable pub serve_lan : {W : Type 0} → Lan W → ℕ → M (Queues × W) (Unit {0})
serve_lan nic zero s = (halt, s)
serve_lan nic (suc k) (n, w) = took nic (serve_lan nic k) n (nic.rx w)
