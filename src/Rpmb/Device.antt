-- ===== src/Rpmb/Device.antt =====
-- rpmb/rpmb.go: a partition and its operations.
use armored_witness_os.Base.{
  ℕ, Bool, true, Bytes, [], length, copy, replicate, ◌==◌, M, ◌>>=◌, ◌>>◌, pure, fail, require,
  when, Option, none, some, no_card, no_mmc, invalid_key_size,
}
use armored_witness_os.Rpmb.Frame.{
  authentication_key_programming, authenticated_data_write, authenticated_data_read, new_frame,
  no_config,
}
use armored_witness_os.Rpmb.Op.{Platform, Partition, op, transfer}

abbrev pub key_len : ℕ
key_len = 32

module _ {W : Type 0} (pf : Platform W) where
  -- `(*RPMB).ProgramKey`
  unfoldable pub program_key : Partition → M W (Unit {0})
  program_key p = do
    op pf p (record (new_frame authentication_key_programming) { key_mac = p.key })
          (record no_config { reads_result = true })
        >>= λ _. pure tt

  -- `(*RPMB).Write`
  unfoldable pub write : Partition → ℕ → Bytes → M W (Unit {0})
  write p offset buf = transfer pf p authenticated_data_write offset buf >>= λ _. pure tt

  -- `(*RPMB).Read`, with what it leaves in `buf`
  unfoldable pub read : Partition → ℕ → Bytes → M W Bytes
  read p offset buf = transfer pf p authenticated_data_read offset buf

  -- `Init`. The card is `none` for nil, and otherwise tells whether it is an MMC.
  unfoldable pub init : Option Bool → Bytes → ℕ → Bool → M W Partition
  init none key dummy_block write_dummy = fail no_card
  init (some is_mmc) key dummy_block write_dummy = do
    require is_mmc no_mmc
    require (length key == key_len) invalid_key_size
    let p : Partition = record { key = copy (replicate key_len 0) key; init = true }
    when write_dummy (write p dummy_block [])
    pure p
