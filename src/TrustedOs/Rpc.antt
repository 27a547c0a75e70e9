-- ===== src/TrustedOs/Rpc.antt =====
-- trusted_os/rpc.go: the calls that the trusted applet makes, with the messages of api/rpc/rpc.go.
-- A call works on the receiver's state and on the world of the board beside it.
pub mod Install
pub mod Attempts
pub mod Installed
pub mod Guards
pub mod History
use armored_witness_os.Base.{
  ℕ, ◌+◌, Bool, true, false, not, [], ◌++◌, ◌&&◌, ◌||◌, Bytes, length, replicate, copy, leb, ltb,
  ◌==◌, if◌then◌else◌, Option, none, some, Result, ok, err, halt, M, ◌>>=◌, ◌>>◌, pure, fail,
  require, or_fail, invalid_argument, secure_led, nil_buffer, no_snvs, emulated_without_debug,
  unsupported_hardware, missing_storage,
}
use armored_witness_os.Disk.{Card, CardInfo}
use armored_witness_os.TrustedOs.Firmware.{
  FirmwareType, firmware_applet, firmware_os, ProofBundle, Bundle, ConfigCodec, Loaded,
}
use armored_witness_os.TrustedOs.Flash.{update, retrieve_last_crash_log}
use armored_witness_os.TrustedOs.Rollback
use armored_witness_os.TrustedOs.Rollback.{
  Rpmb, Versions, check_version, ta_version_sector, ta_user_sector,
}

-- Secure Monitor Applet, of trusted_os/mem.go
abbrev pub applet_start : ℕ
applet_start = 0x90000000

abbrev pub applet_size : ℕ
applet_size = 0x10000000

-- `rpc.Handler`
pub record EventHandler : Type 0 where
  pub g : ℕ
  pub p : ℕ

-- `rpc.WitnessStatus`
pub record WitnessStatus : Type 0 where
  pub identity : Bytes
  pub ip : Bytes
  pub id_attest_public_key : Bytes
  pub attested_id : Bytes
  pub attested_bastion_id : Bytes

-- `rpc.FirmwareUpdate`
pub record FirmwareUpdate : Type 0 where
  pub sequence : ℕ
  pub image : Bytes
  pub proof : ProofBundle

-- `RPC` and the variables that its methods write: the registered handler, the witness's status, and
-- the buffers of partial updates.
pub record Receiver : Type 0 where
  pub cfg : Bytes
  pub handler : EventHandler
  pub witness_status : Option WitnessStatus
  pub os_firmware_buffer : Bytes
  pub applet_firmware_buffer : Bytes

-- The board and the applet's context, and how this OS was built.
pub record Board (W : Type 0) : Type 0 where
  pub native : Bool
  pub debug : Bool
  pub snvs_available : M W Bool
  pub net_start : M W (Unit {0})
  -- `r.Ctx.Stop()` and `<-r.Ctx.Done()`
  pub stop : M W (Unit {0})
  pub await_done : M W (Unit {0})
  pub reset : M W (Unit {0})
  pub led : Bytes → Bool → M W (Unit {0})
  -- `strings.EqualFold(name, "white")`
  pub is_white : Bytes → Bool
  pub console_logs : W → Bytes
  -- `sha256.Sum256`, and the key derivation of the crypto units, where there is one
  pub sha256 : Bytes → Bytes
  pub caam : Option (Bytes → M W Bytes)
  pub dcp : Option (Bytes → Bytes → M W Bytes)

unfoldable pub is_applet_memory : ℕ → Bool
is_applet_memory addr = leb applet_start addr && ltb addr (applet_start + applet_size)

module _ {W : Type 0} where
  -- An action of the world, beside the receiver.
  abbrev pub io : {A : Type 0} → M W A → M (Receiver × W) A
  io m (r, w) = let done = m w in (done.0, (r, done.1))

  abbrev pub modify : (Receiver → Receiver) → M (Receiver × W) (Unit {0})
  modify f (r, w) = (ok tt, (f r, w))

  -- `Register`
  unfoldable pub register : EventHandler → M (Receiver × W) (Unit {0})
  register h =
      if not (is_applet_memory h.g) || not (is_applet_memory h.p)
      then fail invalid_argument
      else modify (λ r. record r { handler = h })

  -- `SetWitnessStatus`
  unfoldable pub set_witness_status : WitnessStatus → M (Receiver × W) (Unit {0})
  set_witness_status s = modify (λ r. record r { witness_status = some s })

module _ {W : Type 0} (board : Board W) where
  -- `Version`: an error of the check stops the applet, and is not returned.
  abbrev pub stop_on_error : Result (Unit {0}) × W → Result (Unit {0}) × W
  stop_on_error (ok _, w) = (ok tt, w)
  stop_on_error (err e, w) = board.stop w
  stop_on_error (halt, w) = (halt, w)

  unfoldable pub version : {V : Type 0} → Versions V → Rpmb W → Bytes → M W (Unit {0})
  version vs rpmb text =
      if not board.native
      then pure tt
      else (board.snvs_available >>= λ available. if not available then pure tt else λ w.
          stop_on_error (check_version vs rpmb ta_version_sector text w))

  -- `Config`: the previous configuration, if there was one and a place for it (`wanted`). The network
  -- is started when the method returns.
  unfoldable pub config : Bytes → Bool → M (Receiver × W) (Option Bytes)
  config current wanted (r, w) =
      if length r.cfg == 0
      then (do modify (λ s. record s { cfg = current }); io board.net_start; pure none) (r, w)
      else (do modify (λ s. record s { cfg = current }); pure (if wanted then some r.cfg else none))
          (r, w)

  -- `LED`
  unfoldable pub led : Bytes → Bool → M W (Unit {0})
  led name on = if board.is_white name then fail secure_led else board.led name on

  -- The derivation of `DeriveKey`, by the first unit that there is.
  unfoldable pub derive : Bytes → Bytes → Bytes → M W Bytes
  derive own diversifier key = elim board.caam [
    | some unit ↦ unit (board.sha256 (own ++ diversifier)) >>= λ k. pure (copy key k)
    | none ↦ elim board.dcp [
      | some unit ↦ unit own diversifier >>= λ k. pure (copy key k)
      | none ↦ fail unsupported_hardware
    ]
  ]

  -- `DeriveKey`: `own` is the receiver's diversifier, `key` the caller's buffer.
  unfoldable pub derive_key : Bytes → Bytes → Bytes → M W Bytes
  derive_key own diversifier key =
      if board.native && not board.debug
      then (board.snvs_available >>= λ available.
          if available then derive own diversifier key else fail no_snvs)
      else if not board.native && board.debug
      then pure key
      else if not board.native && not board.debug
      then fail emulated_without_debug
      else derive own diversifier key

  -- `Reboot`
  unfoldable pub reboot : M W (Unit {0})
  reboot = board.reset >>= λ _. pure tt

  -- `ConsoleLog`, whose buffer may be nil
  unfoldable pub console_log : Bool → M W Bytes
  console_log wanted w = if wanted then (ok (board.console_logs w), w) else (err nil_buffer, w)

  -- `CrashLog`; a nil storage is a nil pointer that is called.
  unfoldable pub crash_log : Option (Card W) → Bool → M W Bytes
  crash_log storage false = fail nil_buffer
  crash_log none true = λ w. (halt, w)
  crash_log (some card) true = retrieve_last_crash_log card

-- The storage calls: `CardInfo`, `WriteBlocks` and `Read`.
module _ {W : Type 0} where
  unfoldable pub card_info : Option (Card W) → M W CardInfo
  card_info none = fail missing_storage
  card_info (some card) = λ w. (ok (card.info w), w)

  unfoldable pub write_blocks : Option (Card W) → ℕ → Bytes → M W (Unit {0})
  write_blocks none lba bs = fail missing_storage
  write_blocks (some card) lba bs = card.write_blocks lba bs

  unfoldable pub read : Option (Card W) → ℕ → ℕ → M W Bytes
  read none offset size = fail missing_storage
  read (some card) offset size = card.read offset size

  -- `WriteRPMB` and `ReadRPMB`
  unfoldable pub write_rpmb : Rpmb W → Bytes → Bool → M W (Bytes × Option ℕ)
  write_rpmb r buf wants_counter = Rollback.transfer r ta_user_sector buf wants_counter true

  unfoldable pub read_rpmb : Rpmb W → Bytes → Bool → M W (Bytes × Option ℕ)
  read_rpmb r buf wants_counter = Rollback.transfer r ta_user_sector buf wants_counter false

-- `InstallOS` and `InstallApplet` work alike on a buffer each.
abbrev pub buffer_of : FirmwareType → Receiver → Bytes
buffer_of firmware_os r = r.os_firmware_buffer
buffer_of firmware_applet r = r.applet_firmware_buffer

abbrev pub with_buffer : FirmwareType → Bytes → Receiver → Receiver
with_buffer firmware_os b r = record r { os_firmware_buffer = b }
with_buffer firmware_applet b r = record r { applet_firmware_buffer = b }

-- The buffer after the image of a call: a call of sequence 0 starts afresh.
abbrev pub extended : FirmwareUpdate → Bytes → Bytes
extended b buffer = if b.sequence == 0 then b.image else buffer ++ b.image

module _ {A W : Type 0} (board : Board W) (codec : ConfigCodec) (loaded : Loaded)
    (storage : Option (Card W)) (verify : FirmwareType → Bundle → Result A) where
  -- What follows an update: the OS waits for the applet to end, `InstallApplet` leaves that to a
  -- goroutine, and both reboot.
  unfoldable pub restart : FirmwareType → M W (Unit {0})
  restart firmware_os = do board.stop; board.await_done; reboot board
  restart firmware_applet = do board.stop; reboot board

  -- `InstallOS` and `InstallApplet`: nothing is installed before a call with a checkpoint.
  unfoldable pub install : FirmwareType → FirmwareUpdate → M (Receiver × W) (Unit {0})
  install t b (r, w) =
      let buffer = extended b (buffer_of t r) in
      let r' = with_buffer t buffer r in
      if length b.proof.checkpoint == 0
      then (ok tt, (r', w))
      else io (do update codec loaded (verify t) storage t buffer b.proof; restart t) (r', w)
