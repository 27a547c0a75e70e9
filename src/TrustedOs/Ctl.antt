-- ===== src/TrustedOs/Ctl.antt =====
-- trusted_os/ctl.go: the control interface on USB, with the responses of api/api.go.
-- Requests and responses are the messages of api/api.proto; protobuf is outside the code.
pub mod Logs
pub mod CrashLogs
pub mod Status
pub mod Reach
pub mod Start
use armored_witness_os.Base.{
  ℕ, ◌≡◌, arith, ◌+◌, Bool, true, false, not, [], ◌∷◌, ◌++◌, Bytes, length, take, drop, ltb, ◌==◌,
  if◌then◌else◌, Option, none, some, Result, ok, err, halt, M, next, ◌>>=◌, ◌>>◌, pure, lift,
  require, or_fail, ◌&&◌, ◌/◌, ◌%◌, Error, empty_configuration, srk_hash_invalid,
  srk_hash_wrong_size,
}
use armored_witness_os.Disk.{Card}
use armored_witness_os.TrustedOs.Flash.{retrieve_last_crash_log}
use armored_witness_os.Fuses.{Otp}
use armored_witness_os.Hab.{activate, srk_size}
use armored_witness_os.TrustedOs.Rpc.{Board, Receiver, WitnessStatus, io, modify}

-- `api.Response`: `ErrorResponse(err)`, and `EmptyResponse()`
pub data Response : Type 0 where
  error_response : Error → Response
  empty_response : Response

-- `api.LogMessagesResponse`
pub record LogMessages : Type 0 where
  pub payload : Bytes
  pub more : Bool

abbrev pub log_chunk : ℕ
log_chunk = 1024

-- A handler answers its caller also where it fails.
abbrev pub answer : {W : Type 0} → Result (Unit {0}) × W → Result Response × W
answer (ok _, w) = (ok empty_response, w)
answer (err e, w) = (ok (error_response e), w)
answer (halt, w) = (halt, w)

-- The next piece of the log buffer, and what is left of it.
unfoldable pub next_chunk : Bytes → LogMessages × Bytes
next_chunk buffer =
    if ltb log_chunk (length buffer)
    then (record { payload = take log_chunk buffer; more = true }, drop log_chunk buffer)
    else (record { payload = buffer; more = false }, [])

-- `handleLogsRequest`: a request that parses asks for fresh logs (compressed by gzip) or goes on with
-- the buffer.
unfoldable pub handle_logs_request :
    (Bytes → Bytes) → Bytes → Result Bool → Bytes → Result LogMessages × Bytes
handle_logs_request gzip logs (err e) buffer = (err e, buffer)
handle_logs_request gzip logs halt buffer = (halt, buffer)
handle_logs_request gzip logs (ok continue) buffer =
    let (chunk, rest) = next_chunk (if continue then buffer else gzip logs) in (ok chunk, rest)

module _ {W : Type 0} (board : Board W) where
  -- `(*controlInterface).Config`: a running applet is stopped and loaded again. `load_applet` returns
  -- when the new applet has ended, whose calls may have changed the receiver.
  unfoldable pub config : M (Receiver × W) (Unit {0}) → Bool → Bytes → M (Receiver × W) Response
  config load_applet running req s = answer (
      (do
        require (not (length req == 0)) empty_configuration
        modify (λ r. record r { cfg = req })
        if running then (do io (do board.stop; board.await_done); load_applet) else pure tt)
        s)

  -- `(*controlInterface).HAB`: `srk_hash` is the built-in hash, decoded from hexadecimal.
  unfoldable pub hab : Otp W → (Bytes → Bytes) → Result Bytes → M W Response
  hab otp switch_endianness srk_hash w = answer (
      (do
        srkh ← or_fail (lift srk_hash) srk_hash_invalid
        require (length srkh == srk_size) srk_hash_wrong_size
        activate otp board.snvs_available switch_endianness srkh)
        w)

-- `ConsoleLogs` and `CrashLogs`, on the world and the buffer of logs. A crash log that cannot be had
-- is a message in its place; a nil storage is a nil pointer that is called.
module _ {W : Type 0} (gzip : Bytes → Bytes) where
  unfoldable pub console_logs : (W → Bytes) → Result Bool → M (Bytes × W) LogMessages
  console_logs logs request (buffer, w) =
      let (rsp, rest) = handle_logs_request gzip (logs w) request buffer in (rsp, (rest, w))

  -- The logs that a request asks for: none is fetched where it goes on with the buffer.
  abbrev pub fetched : (Error → Bytes) → Result Bytes × W → Result Bytes × W
  fetched message (ok l, w) = (ok l, w)
  fetched message (err e, w) = (ok (message e), w)
  fetched message (halt, w) = (halt, w)

  abbrev pub crash_logs_of : Option (Card W) → M W Bytes
  crash_logs_of none = λ w. (halt, w)
  crash_logs_of (some card) = retrieve_last_crash_log card

  unfoldable pub crash_logs :
      (Error → Bytes) → Option (Card W) → Result Bool → M (Bytes × W) LogMessages
  crash_logs message storage (ok false) (buffer, w) =
      next
        (λ logs v.
          let (rsp, rest) = handle_logs_request gzip logs (ok false) buffer in (rsp, (rest, v.1)))
        (let done = fetched message (crash_logs_of storage w) in (done.0, (buffer, done.1)))
  crash_logs message storage (ok true) (buffer, w) =
      let (rsp, rest) = handle_logs_request gzip [] (ok true) buffer in (rsp, (rest, w))
  crash_logs message storage (err e) (buffer, w) = (err e, (buffer, w))
  crash_logs message storage halt (buffer, w) = (halt, (buffer, w))
