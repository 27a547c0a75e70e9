-- ===== src/TrustedOs/Usb.antt =====
-- trusted_os/usb_hid.go: the control interface as a USB device, with the constants of api/api.go.
use armored_witness_os.Base.{ℕ, ◌+◌, ◌/◌, ◌%◌, ◌^◌, List, [], ◌∷◌, Bytes, codes, ok, M, ◌>>=◌, ◌>>◌}

abbrev pub vendor_id : ℕ
vendor_id = 0x1209

abbrev pub product_id : ℕ
product_id = 0x2702

abbrev pub hid_usage_page : ℕ
hid_usage_page = 0xff00

-- The requests of the vendor's commands. The third command is not used any more.
pub data Request : Type 0 where
  status config hab console_logs crash_logs : Request

-- The commands, from the first that U2F HID leaves to vendors.
abbrev pub command_of : ℕ → Request → ℕ
command_of vendor_first status = vendor_first
command_of vendor_first config = vendor_first + 1
command_of vendor_first hab = vendor_first + 3
command_of vendor_first console_logs = vendor_first + 4
command_of vendor_first crash_logs = vendor_first + 5

-- The fields of a device descriptor that are set.
pub record Descriptor : Type 0 where
  pub device_class : ℕ
  pub device_subclass : ℕ
  pub device_protocol : ℕ
  pub vendor_id : ℕ
  pub product_id : ℕ
  pub device : ℕ
  pub manufacturer : ℕ
  pub product : ℕ
  pub serial_number : ℕ

-- A USB device under construction, of TamaGo, and the U2F HID handler of fidati.
pub record UsbDevice (W : Type 0) : Type 0 where
  pub set_language_codes : List ℕ → W → W
  pub defaults : Descriptor
  pub set_descriptor : Descriptor → W → W
  -- the index of the string; the error is not looked at
  pub add_string : Bytes → W → ℕ × W
  pub add_configuration : M W (Unit {0})
  pub configurations : W → ℕ
  -- a default qualifier with a number of configurations
  pub set_qualifier : ℕ → W → W
  -- the usage page in the default report
  pub set_usage_page : ℕ → W → W
  pub new_handler : M W (Unit {0})
  pub configure_usb : M W (Unit {0})
  -- of the last interface: its name, and its endpoints out and in
  pub set_interface_name : Bytes → W → W
  pub set_endpoints : ℕ → ℕ → W → W
  pub vendor_command_first : ℕ
  pub add_mapping : ℕ → Request → M W (Unit {0})

-- Each code unit of UTF-16, the low byte first.
unfoldable pub utf16_bytes : List ℕ → Bytes
utf16_bytes [] = []
utf16_bytes (u ∷ us) = u % 256 ∷ u / 2 ^ 8 % 256 ∷ utf16_bytes us

module _ {W : Type 0} (usb : UsbDevice W) where
  abbrev pub acts : (W → W) → M W (Unit {0})
  acts f w = (ok tt, f w)

  abbrev pub named : Bytes → M W ℕ
  named s w = let (i, v) = usb.add_string s w in (ok i, v)

  abbrev pub described : Descriptor
  described = record usb.defaults {
    device_class = 0xef;
    device_subclass = 0x02;
    device_protocol = 0x01;
    vendor_id = vendor_id;
    product_id = product_id;
    device = 0x0001;
  }

  -- `configureDevice`
  unfoldable pub configure_device : Bytes → M W (Unit {0})
  configure_device serial = do
    acts (usb.set_language_codes (0x0409 ∷ []))
    acts (usb.set_descriptor described)
    m ← named (codes "WithSecure Foundry")
    p ← named (codes "Armory Witness")
    s ← named serial
    acts
        (usb.set_descriptor (record described { manufacturer = m; product = p; serial_number = s }))
    usb.add_configuration
    λ w. (ok tt, usb.set_qualifier (usb.configurations w % 2 ^ 8) w)

  abbrev pub mapped : Request → M W (Unit {0})
  mapped r = usb.add_mapping (command_of usb.vendor_command_first r) r

  -- `configureHID`
  unfoldable pub configure_hid : M W (Unit {0})
  configure_hid = do
    acts (usb.set_usage_page hid_usage_page)
    usb.new_handler
    usb.configure_usb
    acts (usb.set_interface_name (utf16_bytes (codes "U2FHID interface descriptor")))
    acts (usb.set_endpoints 0x03 0x83)
    mapped status
    mapped config
    mapped hab
    mapped console_logs
    mapped crash_logs
