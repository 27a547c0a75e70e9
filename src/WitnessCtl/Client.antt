-- ===== src/WitnessCtl/Client.antt =====
-- cmd/witnessctl/api.go: the client's side of the control interface.
pub mod Kept
pub mod Answers
use armored_witness_os.Base.{
  ℕ, zero, suc, Bool, true, false, [], Option, none, some, ok, err, next, Error, ◌||◌, ◌++◌, Bytes,
  length, ◌==◌, if◌then◌else◌, not, halt, M, ◌>>=◌, ◌>>◌, pure, require, fail, missing_addresses,
  bad_ip, bad_netmask, bad_gateway, bad_dns, device_error, bytes_equal, codes, Result, or_fail,
  lift, undecodable_status,
}
use armored_witness_os.TrustedOs.Usb.{Request, command_of}
use armored_witness_os.TrustedOs.Ctl.{LogMessages, Response, error_response, empty_response}

-- What went into the decompressor, and the error that ended the loop before its last answer.
abbrev pub Piped : Type 0
Piped = Bytes × Option Error

-- What `errC` holds at the end, after the decompressed logs.
abbrev pub finished : {W : Type 0} → Option Error → Bytes → M W Bytes
finished none logs = pure logs
finished (some e) logs = fail e

module _ {W : Type 0} (command : Bool → M W LogMessages) where
  -- A round of the loop; an error ends it.
  abbrev pub received : M W Piped → Result LogMessages × W → Result Piped × W
  received rest (ok rsp, v) =
      if rsp.more
      then next (λ more u. (ok (rsp.payload ++ more.0, more.1), u)) (rest v)
      else (ok (rsp.payload, none), v)
  received rest (err e, v) = (ok ([], some e), v)
  received rest (halt, v) = (halt, v)

  -- The loop of `getLogMessages`, on fuel. The first request is for fresh logs, the next ones continue.
  unfoldable pub get_chunks : ℕ → Bool → M W Piped
  get_chunks zero continue w = (halt, w)
  get_chunks (suc fuel) continue w = received (get_chunks fuel true) (command continue w)

-- `gunzip` reads a compressed stream to its end, `vendor_first` is `u2fhid.VendorCommandFirst`, and
-- `send` exchanges a command with the device, whose request says whether to continue.
module _ {W : Type 0} (gunzip : Bytes → Result Bytes) (vendor_first : ℕ)
    (send : ℕ → Bool → M W LogMessages) (fuel : ℕ) where
  -- `(Device).getLogMessages`: the decompressor reads while the loop runs, and its error comes first.
  unfoldable pub get_log_messages : ℕ → M W Bytes
  get_log_messages cmd = do
    (bytes, ended) ← get_chunks (send cmd) fuel false
    logs ← lift (gunzip bytes)
    finished ended logs

  -- `(Device).consoleLogs`
  unfoldable pub console_logs : M W Bytes
  console_logs = get_log_messages (command_of vendor_first Request.console_logs)

  -- `(Device).crashLogs`
  unfoldable pub crash_logs : M W Bytes
  crash_logs = get_log_messages (command_of vendor_first Request.crash_logs)

-- A response's error code.
abbrev pub checked : {W : Type 0} → Response → M W (Unit {0})
checked (error_response e) = fail device_error
checked empty_response = pure tt

-- `api.Configuration`
pub record Configuration : Type 0 where
  pub dhcp : Bool
  pub ip : Bytes
  pub netmask : Bytes
  pub gateway : Bytes
  pub resolver : Bytes
  pub ntp_server : Bytes

-- `net.ParseIP(s) != nil`, and whether `net.SplitHostPort(s)` succeeds
pub record Addresses : Type 0 where
  pub is_ip : Bytes → Bool
  pub is_host_port : Bytes → Bool

-- `confirm`, of the word that the user has typed
abbrev pub confirm : Bytes → Bool
confirm res = bytes_equal res (codes "y")

module _ {W : Type 0} where
  -- `(Device).status`: without an answer the status is nil, and with one that does not decode it is
  -- not, although there is an error.
  unfoldable pub status : {A : Type 0} → M W Bytes → (Bytes → Result A) → M W A
  status send unmarshal = send >>= λ res. or_fail (lift (unmarshal res)) undecodable_status

  -- `(Device).hab`
  unfoldable pub hab : M W Response → M W (Unit {0})
  hab send = do res ← send; checked res

  -- `(Device).cfg`
  unfoldable pub cfg : Addresses → (Configuration → M W Response) → Configuration → M W (Unit {0})
  cfg net send c = do
    require (not (length c.ip == 0 || (length c.gateway == 0 || length c.resolver == 0)))
        missing_addresses
    require (net.is_ip c.ip) bad_ip
    require (net.is_ip c.netmask) bad_netmask
    require (net.is_ip c.gateway) bad_gateway
    require (net.is_host_port c.resolver) bad_dns
    res ← send c
    checked res
