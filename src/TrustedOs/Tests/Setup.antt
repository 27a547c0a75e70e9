-- ===== src/TrustedOs/Tests/Setup.antt =====
-- The set-up of controllers, the network and the control interface on a device that counts what is
-- done to it: trusted_os/main.go, net.go, ctl.go and usb_hid.go.
use armored_witness_os.Base.{
  ℕ, Bool, ◌+◌, ◌≡◌, true, false, refl, [], ◌∷◌, codes, ok, some, none, pure,
}
use armored_witness_os.TrustedOs.Controllers
use armored_witness_os.TrustedOs.Controllers.{Model, gamma, Soc, Controllers, usb1, usb2, of_model}
use armored_witness_os.TrustedOs.Debug.{Ports, configure_uart}
use armored_witness_os.TrustedOs.Load.{Handlers, lan_interrupts, control_interrupts}
use armored_witness_os.TrustedOs.Net.Start.{Lan, UsbPort, net_start, net_start_lan}
use armored_witness_os.TrustedOs.Usb.{
  UsbDevice, Descriptor, utf16_bytes, configure_device, configure_hid,
}
use armored_witness_os.TrustedOs.Ctl.Start

abbrev soc : Soc ℕ
soc = record {
  native = true;
  has_dcp = false;
  model = gamma;
  set_frequency = λ w. w + 1;
  dcp_init = λ w. w + 1;
  nic_init = λ nic size w. w + 1;
  usb_init = λ port w. w + 1;
  detect_debug_accessory = λ ms. pure tt;
  gic_init = λ a b w. w + 1;
}

controllers_found :
    Controllers.init soc true 0
    ≡ (ok (record { nic = none; usb = some usb1; control = some usb2 }), 4)
unfolding Controllers.init of_model
controllers_found = refl

abbrev nic : Lan ℕ
nic = record {
  irq = 150;
  rx = λ w. (none, w);
  clear_interrupt = λ w. w;
  enable_interrupt = λ w. w + 1;
  start = λ rx w. w + 1;
}

abbrev port : UsbPort ℕ
port = record {
  irq = 75;
  init = λ w. w + 1;
  device_mode = λ w. w + 1;
  enable_interrupt = λ irq w. w + 1;
}

abbrev no_handlers : Handlers
no_handlers irq = none

abbrev count_gic : ℕ → Bool → ℕ → ℕ
count_gic irq secure w = w + 1

-- On the LAN model the network starts with an empty queue and a handler of the LAN's interrupt.
lan_handler_registered :
    (net_start count_gic
        (some nic)
        (some port)
        (λ host device. pure tt)
        ((no_handlers, record { rx_queue = none; tx_queue = none }), 0)).1.0.0
      150
    ≡ some lan_interrupts
unfolding net_start net_start_lan
lan_handler_registered = refl

low_byte_first : utf16_bytes (codes "U2") ≡ 0x55 ∷ 0 ∷ 0x32 ∷ 0 ∷ []
unfolding utf16_bytes
low_byte_first = refl

abbrev blank : Descriptor
blank = record {
  device_class = 0;
  device_subclass = 0;
  device_protocol = 0;
  vendor_id = 0;
  product_id = 0;
  device = 0;
  manufacturer = 0;
  product = 0;
  serial_number = 0;
}

abbrev usb : UsbDevice ℕ
usb = record {
  set_language_codes = λ cs w. w;
  defaults = blank;
  set_descriptor = λ d w. w;
  add_string = λ s w. (1, w);
  add_configuration = pure tt;
  configurations = λ w. 1;
  set_qualifier = λ n w. w;
  set_usage_page = λ n w. w;
  new_handler = pure tt;
  configure_usb = pure tt;
  set_interface_name = λ b w. w;
  set_endpoints = λ out inp w. w;
  vendor_command_first = 0x40;
  add_mapping = λ command request w. (ok tt, w + command);
}

abbrev ports : Ports ℕ
ports = record {
  uart_tx = λ c w. w;
  log_write = λ c w. w;
  serial_init = pure tt;
  serial_write = λ c w. w;
}

-- The control interface starts with a handler of its interrupt.
control_handler_registered :
    (Start.start count_gic usb ports false
        (codes "00FF")
        (some port)
        ((no_handlers, false), 0)).1.0.0
      75
    ≡ some control_interrupts
unfolding Start.start configure_device configure_hid configure_uart
control_handler_registered = refl
