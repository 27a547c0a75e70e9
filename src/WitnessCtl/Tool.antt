-- ===== src/WitnessCtl/Tool.antt =====
-- cmd/witnessctl/witnessctl.go: a run of the tool, from the devices that are connected to the
-- exchanges with them.
use armored_witness_os.Base.{ℕ, Bool, List, Bytes, Result, M, ◌>>=◌, pure}
use armored_witness_os.TrustedOs.Ctl.{LogMessages, Response}
use armored_witness_os.WitnessCtl.Client
use armored_witness_os.WitnessCtl.Client.{Addresses, Configuration, confirm}
use armored_witness_os.WitnessCtl.Devices.{
  DeviceInfo, Action, Flags, get_status, fuse_hab, get_console_logs, get_crash_logs, configure,
  open_witnesses, detect, run,
}

-- The libraries: HID devices, the exchanges of U2F HID with messages that protobuf has packed and
-- unpacked, gzip, and net for addresses. A status is of type `S`.
pub record Host (W S : Type 0) : Type 0 where
  -- `flynn_hid.Devices` and `u2fhid.Open`
  pub devices : M W (List DeviceInfo)
  pub open_device : DeviceInfo → M W (Unit {0})
  pub ask_status : DeviceInfo → M W Bytes
  pub unmarshal_status : Bytes → Result S
  pub ask_hab : DeviceInfo → M W Response
  pub vendor_first : ℕ
  pub ask_logs : DeviceInfo → ℕ → Bool → M W LogMessages
  pub gunzip : Bytes → Result Bytes
  pub addresses : Addresses
  pub send_configuration : DeviceInfo → Configuration → M W Response

module _ {W S : Type 0} (host : Host W S) (fuel : ℕ) where
  abbrev done : {A : Type 0} → M W A → M W (Unit {0})
  done m = m >>= λ _. pure tt

  -- The methods of `Device` that `main` calls; what they return is printed.
  unfoldable pub perform : Action → M W (Unit {0})
  perform (get_status d) = done (Client.status (host.ask_status d) host.unmarshal_status)
  perform (fuse_hab d) = Client.hab (host.ask_hab d)
  perform (get_console_logs d) =
      done (Client.console_logs host.gunzip host.vendor_first (host.ask_logs d) fuel)
  perform (get_crash_logs d) =
      done (Client.crash_logs host.gunzip host.vendor_first (host.ask_logs d) fuel)
  perform (configure d c) = Client.cfg host.addresses (host.send_configuration d) c

  -- `main`, with the flags that are parsed and the word that the user types when asked.
  unfoldable pub main : Flags → Bytes → M W (Unit {0})
  main flags answer = host.devices >>= λ connected.
      detect (open_witnesses host.open_device connected) flags.hid_path >>= λ devs.
      run perform flags (confirm answer) devs
