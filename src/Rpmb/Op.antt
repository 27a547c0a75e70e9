-- ===== src/Rpmb/Op.antt =====
-- rpmb/op.go: one request and its response.
-- The card, the random source and the MAC are the `Platform`; the lock makes an operation one step.
use armored_witness_os.Base.{
  ℕ, Bool, true, false, Bytes, length, copy, replicate, bytes_equal, uint16, ltb, ◌==◌, ◌%◌, ◌^◌,
  ◌&&◌, ◌+◌, ◌/◌, not, if◌then◌else◌, Result, ok, err, M, ◌>>=◌, ◌>>◌, pure, lift, require, when,
  not_initialized, invalid_response_mac, type_mismatch, nonce_mismatch, operation_error,
  transfer_too_large, write_counter_mismatch, put_uint16, put_uint32,
}
use armored_witness_os.Rpmb.Frame.{
  Config, DataFrame, frame_length, to_bytes, mac_region, parse, is_reliable, result_read, new_frame,
  operation_ok, no_config, authenticated_data_write, authenticated_data_read, write_counter_read,
  counter_of,
}

-- What the package calls: the uSDHC driver, crypto/rand and HMAC-SHA256.
pub record Platform (W : Type 0) : Type 0 where
  -- `card.WriteRPMB(buf, rel)`
  pub write_rpmb : Bytes → Bool → M W (Unit {0})
  -- `card.ReadRPMB(buf)`, with what it leaves in `buf`
  pub read_rpmb : Bytes → M W Bytes
  -- `rng(n)`; a failure is fatal
  pub rng : ℕ → M W Bytes
  -- the sum of `hmac.New(sha256.New, key)` over a message
  pub hmac : Bytes → Bytes → Bytes

-- `RPMB`, less its lock and the card, which is part of the platform.
pub record Partition : Type 0 where
  pub key : Bytes
  pub init : Bool

-- The request of `transfer`, without its counter.
abbrev pub transfer_frame : ℕ → ℕ → Bytes → DataFrame
transfer_frame kind offset buf = record (new_frame kind) {
  block_count = put_uint16 1;
  address = put_uint16 offset;
  payload = copy (replicate 256 0) buf;
}

abbrev pub transfer_config : Config
transfer_config = record no_config { request_mac = true; response_mac = true }

module _ {W : Type 0} (pf : Platform W) where
  open pf use {write_rpmb, read_rpmb, rng, hmac}

  -- The request MAC, computed before the nonce is set.
  unfoldable pub with_request_mac : Partition → Config → DataFrame → DataFrame
  with_request_mac p cfg req =
      if cfg.request_mac
      then record req { key_mac = copy req.key_mac (hmac p.key (mac_region (to_bytes req))) }
      else req

  unfoldable pub with_nonce : Config → DataFrame → M W DataFrame
  with_nonce cfg req =
      if cfg.random_nonce
      then (do fresh ← rng (length req.nonce); pure (record req { nonce = copy req.nonce fresh }))
      else pure req

  -- The checks on a response, in the order of the code: MAC, type, nonce, result.
  unfoldable pub validate : Partition → Config → DataFrame → Bytes → DataFrame → Result DataFrame
  validate p cfg req buf res =
      if cfg.response_mac && not (bytes_equal res.key_mac (hmac p.key (mac_region buf)))
      then err invalid_response_mac
      else if not (req.req == res.resp)
      then err type_mismatch
      else if not (bytes_equal req.nonce res.nonce)
      then err nonce_mismatch
      else if not (uint16 res.op_result == operation_ok)
      then err (operation_error (uint16 res.op_result))
      else ok res

  -- `(*RPMB).op`. Its `req` is written to; `Counter` of it, all that a caller reads after, is not.
  unfoldable pub op : Partition → DataFrame → Config → M W DataFrame
  op p req cfg = do
    require p.init not_initialized
    sent ← with_nonce cfg (with_request_mac p cfg req)
    write_rpmb (to_bytes sent) (is_reliable sent.req)
    when cfg.reads_result (write_rpmb (to_bytes (new_frame result_read)) false)
    buf ← read_rpmb (replicate frame_length 0)
    res ← lift (parse buf)
    lift (validate p cfg sent buf res)

  -- `(*RPMB).Counter`
  unfoldable pub counter : Partition → Bool → M W ℕ
  counter p auth = do
    res ←
        op p (new_frame write_counter_read)
          (record no_config { random_nonce = auth; response_mac = auth })
    pure (counter_of res)

  -- `transfer` of an authenticated write. (`uint32` addition wraps.)
  unfoldable pub transfer_write : Partition → ℕ → Bytes → M W (Unit {0})
  transfer_write p offset buf = do
    n ← counter p true
    let req = record (transfer_frame authenticated_data_write offset buf) {
      write_counter = put_uint32 n;
    }
    res ← op p req (record transfer_config { reads_result = true })
    require (counter_of res == (counter_of req + 1) % 2 ^ 32) write_counter_mismatch

  -- `transfer` of any other kind: a read leaves its data in `buf`.
  unfoldable pub transfer_other : Partition → ℕ → ℕ → Bytes → M W Bytes
  transfer_other p kind offset buf = do
    let req = transfer_frame kind offset buf
    res ← op p req (record transfer_config { random_nonce = true })
    if kind == authenticated_data_read then pure (copy buf res.payload) else (do
      require (counter_of res == (counter_of req + 1) % 2 ^ 32) write_counter_mismatch
      pure buf)

  -- `(*RPMB).transfer`, with the buffer as it leaves it.
  unfoldable pub transfer : Partition → ℕ → ℕ → Bytes → M W Bytes
  transfer p kind offset buf = do
    require (not (ltb (frame_length / 2) (length buf))) transfer_too_large
    if kind == authenticated_data_write
        then (do transfer_write p offset buf; pure buf)
        else transfer_other p kind offset buf
