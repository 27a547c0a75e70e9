-- ===== src/Base/Errors.antt =====
-- The errors that the code makes, one constructor for each message, and those of code outside it.
use Prim.Native.Nat.{ℕ}
use mathlib.Core.Option.{Option, none, some}

pub data Error : Type 0 where
  -- an error of a driver, a library or the hardware, by a number that tells them apart
  external : ℕ → Error
  -- rpmb/op.go and rpmb/rpmb.go
  not_initialized invalid_response_mac type_mismatch nonce_mismatch : Error
  -- `*OperationError` with its `Result`
  operation_error : ℕ → Error
  transfer_too_large write_counter_mismatch unexpected_eof : Error
  no_card no_mmc invalid_key_size : Error
  -- trusted_os/rpmb.go
  derive_failed flag_unreadable not_usdhc init_failed counter_unreadable fuse_failed : Error
  program_key_failed rpmb_uninitialized version_mismatch : Error
  -- trusted_os/flash.go
  block_size_mismatch config_unreadable firmware_unreadable missing_storage : Error
  flashing_failed config_flashing_failed : Error
  -- trusted_os/storage_debug.go
  offset_past_end lba_past_end : Error
  -- trusted_os/rpc.go
  invalid_argument secure_led nil_buffer no_snvs emulated_without_debug unsupported_hardware : Error
  -- internal/hab/hab.go
  hab_enabled invalid_srk : Error
  fuse_read_error fuse_readback_error : Error
  -- trusted_os/ctl.go
  empty_configuration srk_hash_invalid srk_hash_wrong_size : Error
  -- trusted_os/net.go
  invalid_transfer_size : Error
  -- cmd/witnessctl
  no_devices missing_addresses bad_ip bad_netmask bad_gateway bad_dns : Error
  device_error user_cancelled device_not_chosen undecodable_status : Error
  -- cmd/proofbundle
  not_exist unexpected_status : Error
  -- trusted_os/debug.go
  symbol_not_found no_fatalthrow no_call_on_g0 : Error

-- `errors.As(err, &e)` with `e *OperationError`: messages made with `%v` do not wrap.
abbrev pub as_operation_error : Error → Option ℕ
as_operation_error (operation_error r) = some r
as_operation_error _ = none
