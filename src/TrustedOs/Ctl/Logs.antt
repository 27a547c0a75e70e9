-- ===== src/TrustedOs/Ctl/Logs.antt =====
-- The transfer of logs from handleLogsRequest (trusted_os/ctl.go) to getLogMessages
-- (cmd/witnessctl/api.go).
use armored_witness_os.Base.{
  ℕ, zero, suc, ◌*◌, ◌<◌, ◌≡◌, ◌∙◌, Bool, true, false, [], Bytes, length, drop, length-drop,
  take-append-drop, ltb, ltb→lt, Bool-cases, inl, inr, Result, ok, M, Error, Option, none, some,
  arith,
}
use armored_witness_os.Disk.{Card}
use armored_witness_os.TrustedOs.Flash.{retrieve_last_crash_log}
use armored_witness_os.TrustedOs.Usb.{Request, command_of}
use armored_witness_os.WitnessCtl.Client
use armored_witness_os.WitnessCtl.Client.{get_chunks, get_log_messages}
use armored_witness_os.TrustedOs.Ctl
use armored_witness_os.TrustedOs.Ctl.{handle_logs_request, next_chunk, log_chunk, LogMessages}

-- An answer with the next piece of a buffer, which leaves the rest of it.
abbrev pub chunk_of_log : {W : Type 0} → Bytes → W → Result LogMessages × (Bytes × W)
chunk_of_log b v = (ok (next_chunk b).0, ((next_chunk b).1, v))

-- What a device does whose state is its log buffer and its world: a request that continues is
-- answered from the buffer, whatever happens to the world meanwhile.
abbrev pub GoesOn : {W : Type 0} → (Bool → M (Bytes × W) LogMessages) → Type 0
GoesOn {W} command = (b : Bytes) (w : W) → (v : W) × (command true (b, w) ≡ chunk_of_log b v)

module _ {W : Type 0} (command : Bool → M (Bytes × W) LogMessages) (goes_on : GoesOn command) where
  rest_of_log :
      (fuel : ℕ) (b : Bytes) (w : W)
      → length b < fuel * 1024
      → (v : W) × (get_chunks command fuel true (b, w) ≡ (ok (b, none), ([], v)))
  unfolding get_chunks next_chunk
  rest_of_log zero b w h = absurd (omega arith)
  rest_of_log (suc fuel) b w h =
      let (u, answered) = goes_on b w in
      elim (Bool-cases (ltb log_chunk (length b))) [
        | inl long ↦
            let (v, more) =
              rest_of_log fuel (drop 1024 b) u
                (omega (arith, length-drop 1024 b, ltb→lt 1024 (length b) long)) in
            (v, rw (answered, long, more, take-append-drop 1024 b))
        | inr short ↦ (u, rw (answered, short))
      ]

  -- A client that asks for fresh logs receives them whole and in order, whatever the device's buffer
  -- held before and whatever happens to its world, and leaves the buffer empty.
  pub get_chunks_lem :
      (fuel : ℕ) (l b : Bytes) (w u : W)
      → command false (b, w) ≡ chunk_of_log l u
      → length l < fuel * 1024
      → (v : W) × (get_chunks command fuel false (b, w) ≡ (ok (l, none), ([], v)))
  unfolding get_chunks next_chunk
  get_chunks_lem zero l b w u begins h = absurd (omega arith)
  get_chunks_lem (suc fuel) l b w u begins h = elim (Bool-cases (ltb log_chunk (length l))) [
    | inl long ↦
        let (v, more) =
          rest_of_log fuel (drop 1024 l) u
            (omega (arith, length-drop 1024 l, ltb→lt 1024 (length l) long)) in
        (v, rw (begins, long, more, take-append-drop 1024 l))
    | inr short ↦ (u, rw (begins, short))
  ]

-- What gzip and a U2F HID link between the tool and the device do: reading a compressed stream undoes
-- the compression, and a log command reaches, some time later, the handler that `configureHID` has
-- mapped to it.
pub record IsLink {W : Type 0} (gzip : Bytes → Bytes) (gunzip : Bytes → Result Bytes)
    (vendor_first : ℕ) (send : ℕ → Bool → M (Bytes × W) LogMessages) (meanwhile : W → W)
    (logs : W → Bytes) (message : Error → Bytes) (storage : Option (Card W)) : Type 0 where
  pub restores : (l : Bytes) → gunzip (gzip l) ≡ ok l
  pub delivers_console :
      (continue : Bool) (b : Bytes) (w : W)
      → send (command_of vendor_first Request.console_logs) continue (b, w)
        ≡ Ctl.console_logs gzip logs (ok continue) (b, meanwhile w)
  pub delivers_crash :
      (continue : Bool) (b : Bytes) (w : W)
      → send (command_of vendor_first Request.crash_logs) continue (b, w)
        ≡ Ctl.crash_logs gzip message storage (ok continue) (b, meanwhile w)

module _ {W : Type 0} (gzip : Bytes → Bytes) (gunzip : Bytes → Result Bytes) (vendor_first : ℕ)
    (send : ℕ → Bool → M (Bytes × W) LogMessages) (meanwhile : W → W) (logs : W → Bytes)
    (message : Error → Bytes) (storage : Option (Card W))
    (link : IsLink gzip gunzip vendor_first send meanwhile logs message storage) where
  console-GoesOn : GoesOn (send (command_of vendor_first Request.console_logs))
  unfolding Ctl.console_logs handle_logs_request
  console-GoesOn b w = (meanwhile w, link.delivers_console true b w)

  crash-GoesOn : GoesOn (send (command_of vendor_first Request.crash_logs))
  unfolding Ctl.crash_logs handle_logs_request
  crash-GoesOn b w = (meanwhile w, link.delivers_crash true b w)

  logs_restored :
      (fuel cmd : ℕ) (l : Bytes) (s t : Bytes × W)
      → get_chunks (send cmd) fuel false s ≡ (ok (gzip l, none), t)
      → get_log_messages gunzip vendor_first send fuel cmd s ≡ (ok l, t)
  unfolding get_log_messages
  logs_restored fuel cmd l s t piped = rw (piped, link.restores l)

  -- Over a link that delivers log commands to their handlers, witnessctl gets the console log as
  -- the device has it when the first request arrives, whatever the device does during the
  -- exchanges and whatever its buffer held, and leaves that buffer empty, if the rounds times 1024
  -- exceed the length of the compressed log.
  pub console_logs_lem :
      (fuel : ℕ) (b : Bytes) (w : W)
      → length (gzip (logs (meanwhile w))) < fuel * 1024
      → (v : W) × (Client.console_logs gunzip vendor_first send fuel (b, w)
          ≡ (ok (logs (meanwhile w)), ([], v)))
  unfolding Client.console_logs Ctl.console_logs handle_logs_request
  console_logs_lem fuel b w small =
      let (v, piped) =
        get_chunks_lem (send (command_of vendor_first Request.console_logs)) console-GoesOn fuel
          (gzip (logs (meanwhile w))) b w (meanwhile w) (link.delivers_console false b w) small in
      (v, logs_restored fuel _ (logs (meanwhile w)) (b, w) ([], v) piped)

  -- The log that the device has found on its storage.
  pub crash_logs_lem :
      (fuel : ℕ) (b out : Bytes) (w v : W) (card : Card W)
      → storage ≡ some card
      → retrieve_last_crash_log card (meanwhile w) ≡ (ok out, v)
      → length (gzip out) < fuel * 1024
      → (u : W) × (Client.crash_logs gunzip vendor_first send fuel (b, w) ≡ (ok out, ([], u)))
  unfolding Client.crash_logs Ctl.crash_logs handle_logs_request
  crash_logs_lem fuel b out w v card there found small =
      let (u, piped) =
        get_chunks_lem (send (command_of vendor_first Request.crash_logs)) crash-GoesOn fuel
          (gzip out) b w v (link.delivers_crash false b w ∙ rw (there, found)) small in
      (u, logs_restored fuel _ out (b, w) ([], u) piped)
