-- ===== src/Lib.antt =====
-- A model of the armored witness OS, the trusted OS of the armored witness device, and of the tools
-- witnessctl, which talks to it over USB, and proofbundle, which makes the bundle of an applet for its
-- build, with theorems on what they do.
--
-- The parts, the files that model them and the code:
--   Base          errors as values, byte strings, and effects: a state-passing monad `M W A` whose
--                 result is `ok`, `err` (an error that is returned) or `halt` (a panic, a fatal log, or
--                 a loop that is out of fuel). `W` is the world that hardware and libraries act on.
--   Rpmb          rpmb/op.go and rpmb/rpmb.go. Frame has the data frame, its bytes and parsing; Op has
--                 `op`, `counter` and `transfer`; Device has `init`, `program_key`, `write` and `read`.
--                 Codec, Accept and Replay have the theorems; Card is what a card does that keeps the
--                 standard (`IsCard`).
--   Fuses, Hab    internal/hab/hab.go: `activate` and `fuse` on one-time programmable fuses.
--   Disk          the interface Card of trusted_os/flash.go, and what a disk does (`IsDisk`).
--   TrustedOs     trusted_os/. Rollback is rpmb.go, FakeRpmb rpmb_fake.go, Firmware and Flash flash.go,
--                 FakeCard storage_debug.go, Rpc rpc.go with the messages of api/rpc/rpc.go, Ctl ctl.go
--                 and the rest of rpc.go and api/api.go, Usb usb_hid.go, Stdout log.go, Net net.go,
--                 Handler handler.go, Controllers the init of main.go, Boot its main up to the
--                 applet's loop, Debug debug.go and Console console.go, Load load.go, Applet the loop of
--                 main.go, Main all of main, Lights its and flash.go's blinking LEDs, and Layout mem.go,
--                 mem_bee.go and dma.go.
--   WitnessCtl    cmd/witnessctl/: Devices is usb.go and witnessctl.go, Client api.go, and Tool the main
--                 of witnessctl.go down to the exchanges with a device.
--   ProofBundle   cmd/proofbundle/main.go.
-- Files named Tests run the models on small inputs.
--
-- How they fit: Boot sets up the Rpmb partition through Rollback and checks the OS's version; Rpc
-- gives the applet the partition, the card and updates, which Flash writes; Ctl serves the requests
-- that WitnessCtl's Client sends. A client of a component takes it as a record of operations: `Card`
-- with the laws `IsDisk`, which the fake card fills, and `Sectors` with the laws `IsStore`, which the
-- partition of Rpmb fills on a card with the laws `IsCard`. Boot/Downgrade composes these down to the
-- frames: it has the laws `IsUnit` of what derives the key and of the fuses, and `IsSecured` of the
-- storage and the SNVS beside the RPMB. Rpc/Installed goes from the installing calls to what the next
-- start reads, beside a board with the laws `IsBeside`, and Flash/Interrupted and Flash/InterruptedOs
-- from an update that is cut off. Handler/Masking has the laws `IsMarked` of the services that the
-- exception handler calls. Ctl/Logs, Ctl/CrashLogs and Applet/Crash go from the device's logs to what
-- witnessctl prints, over a link with the laws `IsLink`; WitnessCtl/Fused goes from its -H to the
-- fuses, and WitnessCtl/Configured from its flags to the applet. The interrupt handlers that net.go,
-- ctl.go and load.go register in `irqHandler` are the data type `IrqHandler`, in a table by interrupt.
--
-- Numbers are natural numbers. `uint32` counters wrap by `% 2 ^ 32`, written out. Sizes and offsets on
-- the storage stay far below 2 ^ 63 and do not wrap. A byte array of Go is a list with its length kept
-- by `copy`.
--
-- Fuel: the loop of `flash` has the length of the buffer, since each round takes a byte at least; the
-- loops of the fake card have the number of bytes, of which each round takes a sector; the client's
-- loop over the log pieces needs one round for each 1024 bytes and one more; the interrupt
-- handler of the LAN needs one round for each frame that is pending and one more.
--
-- Parameters, for code that is not in this repository: `Platform` (the eMMC driver, the random numbers
-- and HMAC-SHA256; for proofbundle, files and the web), `Otp` (crucible's fuses), `KeySource` (the
-- crypto units and pbkdf2), `Versions` (go-semver and gob, with `IsVersioning` and `IsPreorder` for
-- what they document), `ConfigCodec` (the configs of armored-witness-boot, with `IsCodec` for their
-- round trip), the bundle verifier, `Board`, `Context`, `Services`, `Monitor`, `Soc`, `Tasks`,
-- `Lights`, `MemoryUnits`, `Lan` and `UsbPort` (TamaGo and GoTEE), `UsbDevice` (TamaGo and fidati),
-- `Host` (of witnessctl: HID, U2F HID, gzip, net and protobuf), `ElfReader` (debug/elf and
-- debug/gosym), `Urls` (net/url) and `Transparency` (the log's client, with `IsReading` for what only reads, notes, hashing and gob), gzip
-- and protobuf.
--
-- Not modelled: the generated api/api.pb.go; logging, printing and the parsing of command lines; the
-- interleaving of goroutines beside the steps that a theorem names; and the locks: each operation is
-- one step.
pub mod Base
pub mod Rpmb
pub mod Fuses
pub mod Disk
pub mod Hab
pub mod TrustedOs
pub mod WitnessCtl
pub mod ProofBundle
