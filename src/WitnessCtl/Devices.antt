-- ===== src/WitnessCtl/Devices.antt =====
-- cmd/witnessctl/usb.go and cmd/witnessctl/witnessctl.go: finding devices, and what the tool does.
pub mod Choice
pub mod Detected
pub mod Tests
use armored_witness_os.Base.{
  ℕ, Bool, true, false, List, [], ◌∷◌, ◌&&◌, ◌||◌, ◌==◌, Bytes, bytes_equal, length, ltb,
  if◌then◌else◌, Option, none, some, Result, ok, err, halt, M, next, ◌>>=◌, ◌>>◌, pure, fail, lift,
  no_devices, user_cancelled, Error, undecodable_status, device_not_chosen, codes,
}
use armored_witness_os.WitnessCtl.Client.{Configuration}

abbrev pub vendor_id : ℕ
vendor_id = 0x1209

abbrev pub product_id : ℕ
product_id = 0x2702

abbrev pub hid_usage_page : ℕ
hid_usage_page = 0xff00

-- `flynn_hid.DeviceInfo`, as far as it is read
pub record DeviceInfo : Type 0 where
  pub path : Bytes
  pub usage_page : ℕ
  pub vendor : ℕ
  pub product : ℕ

unfoldable pub is_witness : DeviceInfo → Bool
is_witness d = d.usage_page == hid_usage_page && (d.vendor == vendor_id && d.product == product_id)

-- The loop of `detect` in usb.go: each witness is opened, and the first that cannot be ends it.
unfoldable pub open_witnesses :
    {W : Type 0} → (DeviceInfo → M W (Unit {0})) → List DeviceInfo → M W (List DeviceInfo)
open_witnesses open_device [] = pure []
open_witnesses open_device (d ∷ ds) =
    let rest = open_witnesses open_device ds in
    if is_witness d then (open_device d >>= λ _. rest >>= λ found. pure (d ∷ found)) else rest

unfoldable pub find_path : Bytes → List DeviceInfo → Option DeviceInfo
find_path path [] = none
find_path path (d ∷ ds) = if bytes_equal d.path path then some d else find_path path ds

-- The devices that `(*Config).detect` chooses of those found: the one at the path that was given, and
-- otherwise all of them.
unfoldable pub choose : Bytes → List DeviceInfo → List DeviceInfo
choose hid_path devs =
    if ltb 0 (length hid_path)
    then elim (find_path hid_path devs) [ some d ↦ d ∷ [] | none ↦ devs ]
    else devs

-- `(*Config).detect`
unfoldable pub detect : {W : Type 0} → M W (List DeviceInfo) → Bytes → M W (List DeviceInfo)
detect devices hid_path =
    devices >>= λ devs. if length devs == 0 then fail no_devices else pure (choose hid_path devs)

-- The fields of `Config` that flags set.
pub record Flags : Type 0 where
  pub hid_path : Bytes
  pub status : Bool
  pub console_logs : Bool
  pub crash_logs : Bool
  pub hab : Bool
  pub dhcp : Bool
  pub ip : Bytes
  pub gw : Bytes
  pub mask : Bytes
  pub dns : Bytes
  pub ntp : Bytes

-- What `init` has for flags that are not given
abbrev pub default_flags : Flags
default_flags = record {
  hid_path = [];
  status = false;
  console_logs = false;
  crash_logs = false;
  hab = false;
  dhcp = true;
  ip = codes "10.0.0.1";
  gw = codes "10.0.0.2";
  mask = codes "255.255.255.0";
  dns = codes "8.8.8.8:53";
  ntp = codes "time.google.com";
}

abbrev is_given : Bytes → Bool
is_given s = ltb 0 (length s)

-- The condition of the last case of `main`
unfoldable pub is_configured : Flags → Bool
is_configured f = f.dhcp || (is_given f.ip || (is_given f.gw || (is_given f.dns || is_given f.ntp)))

-- The arguments of `cfg`
abbrev pub configuration_of : Flags → Configuration
configuration_of f = record {
  dhcp = f.dhcp;
  ip = f.ip;
  netmask = f.mask;
  gateway = f.gw;
  resolver = f.dns;
  ntp_server = f.ntp;
}

-- What a run of the tool does with a device.
pub data Action : Type 0 where
  get_status fuse_hab get_console_logs get_crash_logs : DeviceInfo → Action
  configure : DeviceInfo → Configuration → Action

-- An error on one device is logged, and the next one is served.
abbrev pub logged : {W : Type 0} → Result (Unit {0}) × W → Result (Unit {0}) × W
logged (ok _, v) = (ok tt, v)
logged (err _, v) = (ok tt, v)
logged (halt, v) = (halt, v)

-- An error of `status` that comes beside a status, which is not nil.
abbrev pub beside_status : Error → Bool
beside_status undecodable_status = true
beside_status _ = false

-- An error of `status` is logged too, but then the status is read, where it is nil through a nil
-- pointer.
abbrev pub dereferenced : {W : Type 0} → Result (Unit {0}) × W → Result (Unit {0}) × W
dereferenced (ok _, v) = (ok tt, v)
dereferenced (err e, v) = if beside_status e then (ok tt, v) else (halt, v)
dereferenced (halt, v) = (halt, v)

module _ {W : Type 0} (act : Action → M W (Unit {0})) where
  -- The loops of `main` over the devices.
  unfoldable pub for_each : (DeviceInfo → M W (Unit {0})) → List DeviceInfo → M W (Unit {0})
  for_each action [] = pure tt
  for_each action (d ∷ ds) = action d >>= λ _. for_each action ds

  -- `conf.devs[0]`; there is one after `detect`.
  abbrev pub on_first : (DeviceInfo → M W (Unit {0})) → List DeviceInfo → M W (Unit {0})
  on_first f [] = λ w. (halt, w)
  on_first f (d ∷ ds) = f d

  abbrev pub ask_status : DeviceInfo → M W (Unit {0})
  ask_status d w = dereferenced (act (get_status d) w)

  -- The switch of `main`, where `confirmed` is the user's answer. `log.Fatalf` with an error is that
  -- error.
  unfoldable pub run : Flags → Bool → List DeviceInfo → M W (Unit {0})
  run flags confirmed devs =
      if flags.hab
      then on_first
          (λ d. do ask_status d; if confirmed then act (fuse_hab d) else fail user_cancelled) devs
      else if flags.status
      then for_each ask_status devs
      else if flags.console_logs
      then for_each (λ d w. logged (act (get_console_logs d) w)) devs
      else if flags.crash_logs
      then for_each (λ d w. logged (act (get_crash_logs d) w)) devs
      else if is_configured flags
      then (if length devs == 1
          then on_first (λ d. act (configure d (configuration_of flags))) devs
          else fail device_not_chosen)
      else pure tt
