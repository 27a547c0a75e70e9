-- ===== src/Rpmb/Replay.antt =====
-- What a successful transfer has made sure of (`transfer` of rpmb/op.go, `Write` and `Read` of
-- rpmb/rpmb.go).
use armored_witness_os.Base.{
  ℕ, ◌+◌, ◌%◌, ◌^◌, ◌/◌, ◌≤◌, ◌<◌, ◌≡◌, ◌∙◌, refl, ap, sym, subst, Bytes, length, copy, replicate,
  put_uint32, uint32, true, ltb, lt→ltb, ==_iff, ◌==◌, not, ok, err, unbind, require, require-eq-ok,
  require-world, transfer_too_large, write_counter_mismatch, arith, M, ◌>>=◌, pure, if◌then◌else◌,
  uint16,
}
use armored_witness_os.Rpmb.Frame.{
  DataFrame, Config, authenticated_data_write, authenticated_data_read, counter_of, frame_length,
  mac_region, parse,
}
use armored_witness_os.Rpmb.Op.{
  Platform, Partition, op, counter, transfer, transfer_write, transfer_other, transfer_frame,
  transfer_config, with_nonce, with_request_mac,
}
use armored_witness_os.Rpmb.Device.{write, read}
use armored_witness_os.Rpmb.Accept.{op-Exchange}

-- The frame of a write request at a counter.
abbrev pub write_frame : ℕ → ℕ → Bytes → DataFrame
write_frame n offset buf = record (transfer_frame authenticated_data_write offset buf) {
  write_counter = put_uint32 n;
}

abbrev pub write_config : Config
write_config = record transfer_config { reads_result = true }

abbrev pub read_config : Config
read_config = record transfer_config { random_nonce = true }

pub uint32_wrap : (n : ℕ) → (uint32 (put_uint32 n) + 1) % 2 ^ 32 ≡ (n + 1) % 2 ^ 32
uint32_wrap n = omega arith

module _ {W : Type 0} (pf : Platform W) where
  open pf use {hmac, rng}

  pub record Written (p : Partition) (offset : ℕ) (buf : Bytes) (w w' : W) : Type 0 where
    pub fits : length buf ≤ 256
    pub before : ℕ
    pub asked : W
    pub res : DataFrame
    pub counted : counter pf p true w ≡ (ok before, asked)
    pub done : op pf p (write_frame before offset buf) write_config asked ≡ (ok res, w')
    pub one_up : counter_of res ≡ (before + 1) % 2 ^ 32

  -- What `transfer` does once the size is checked.
  abbrev pub after_check : Partition → ℕ → ℕ → Bytes → M W Bytes
  after_check p kind offset buf =
      if kind == authenticated_data_write
      then (transfer_write pf p offset buf >>= λ _. pure buf)
      else transfer_other pf p kind offset buf

  transfer_write-Written :
      (p : Partition) (offset : ℕ) (buf : Bytes) (w w' : W) {u : Unit {0}}
      → length buf ≤ 256
      → transfer_write pf p offset buf w ≡ (ok u, w')
      → Written p offset buf w w'
  unfolding transfer_write counter_of
  transfer_write-Written p offset buf w w' fits h = unbind (counter pf p true) _ w h λ n v e k.
      unbind (op pf p (write_frame n offset buf) _) _ v k λ res v' e' k'. record {
        fits = fits;
        before = n;
        asked = v;
        res = res;
        counted = e;
        done = e' ∙ ap (λ t. (ok res, t)) (require-world _ write_counter_mismatch v' k');
        one_up =
            omega
              (arith, (==_iff _ _).0 (require-eq-ok _ write_counter_mismatch v' k'), uint32_wrap n);
      }

  -- The size check of `transfer`, and what is left behind it.
  pub transfer-fits :
      (p : Partition) (kind offset : ℕ) (buf out : Bytes) (w w' : W)
      → transfer pf p kind offset buf w ≡ (ok out, w')
      → (length buf ≤ 256) × (after_check p kind offset buf w ≡ (ok out, w'))
  unfolding transfer
  transfer-fits p kind offset buf out w w' h =
      unbind (require (not (ltb (frame_length / 2) (length buf))) transfer_too_large) _ w h
        λ _ v e k. (
          ground (arith, require-eq-ok _ transfer_too_large w e),
          subst (λ t. after_check p kind offset buf t ≡ (ok out, w'))
              (sym (require-world _ transfer_too_large w e)) k,
        )

  -- A write that succeeds had at most 256 bytes to write, asked the card for its counter, and got
  -- for the write at that counter an accepted answer whose counter is one higher (modulo 2 ^ 32).
  pub write-Written :
      (p : Partition) (offset : ℕ) (buf : Bytes) (w w' : W) {u : Unit {0}}
      → write pf p offset buf w ≡ (ok u, w')
      → Written p offset buf w w'
  unfolding write transfer
  write-Written p offset buf w w' h =
      unbind (transfer pf p authenticated_data_write offset buf) _ w h λ out v e k.
        let (fits, rest) = transfer-fits p authenticated_data_write offset buf out w v e in
        unbind (transfer_write pf p offset buf) (λ _. pure buf) w rest
          λ _ v' e' k'.
            subst (Written p offset buf w) (ap (λ r. r.1) k' ∙ ap (λ r. r.1) k)
              (transfer_write-Written p offset buf w v' fits e')

  -- The answer that a successful read accepted.
  pub record ReadBack (p : Partition) (offset : ℕ) (buf out : Bytes) (w w' : W) : Type 0 where
    pub fits : length buf ≤ 256
    pub fresh : Bytes
    pub prepared : W
    pub asked : W
    pub answer : Bytes
    pub res : DataFrame
    pub drawn : rng 16 w ≡ (ok fresh, prepared)
    pub received : pf.read_rpmb (replicate frame_length 0) asked ≡ (ok answer, w')
    pub parsed : parse answer ≡ ok res
    pub authentic : res.key_mac ≡ hmac p.key (mac_region answer)
    pub typed : res.resp ≡ authenticated_data_read
    pub same_nonce : res.nonce ≡ copy (replicate 16 0) fresh
    pub succeeded : uint16 res.op_result ≡ 0
    pub delivered : out ≡ copy buf res.payload

  transfer_other-ReadBack :
      (p : Partition) (offset : ℕ) (buf out : Bytes) (w w' : W)
      → length buf ≤ 256
      → transfer_other pf p authenticated_data_read offset buf w ≡ (ok out, w')
      → ReadBack p offset buf out w w'
  unfolding transfer_other with_nonce with_request_mac
  transfer_other-ReadBack p offset buf out w w' fits h =
      unbind (op pf p (transfer_frame authenticated_data_read offset buf) read_config) _ w h
        λ res v e k.
          let x =
            op-Exchange pf p (transfer_frame authenticated_data_read offset buf) read_config w v res
              e in
          unbind (rng 16) _ w x.prepared λ fresh v' e' k'. record {
            fits = fits;
            fresh = fresh;
            prepared = v';
            asked = x.asked;
            answer = x.buf;
            res = res;
            drawn = e';
            received = x.received ∙ ap (λ t. (ok x.buf, t)) (ap (λ r. r.1) k);
            parsed = x.parsed;
            authentic = x.answers.authentic refl;
            typed = ground (arith, x.answers.typed, k');
            same_nonce = ground (arith, x.answers.fresh, k');
            succeeded = x.answers.succeeded;
            delivered = ground (arith, k);
          }

  -- A read that succeeds has drawn a fresh nonce, and what it leaves in the buffer is the data of a
  -- response that was read afterwards, has a MAC by the partition's key over the bytes as received,
  -- is of the read type, repeats the nonce, and reports success.
  pub read-ReadBack :
      (p : Partition) (offset : ℕ) (buf out : Bytes) (w w' : W)
      → read pf p offset buf w ≡ (ok out, w')
      → ReadBack p offset buf out w w'
  unfolding read transfer
  read-ReadBack p offset buf out w w' h =
      let (fits, rest) = transfer-fits p authenticated_data_read offset buf out w w' h in
      transfer_other-ReadBack p offset buf out w w' fits rest

  -- A buffer of more than 256 bytes is refused for writing and for reading, with the world as it
  -- was.
  pub oversized_refused :
      (p : Partition) (offset : ℕ) (buf : Bytes) (w : W)
      → 256 < length buf
      → (write pf p offset buf w ≡ (err transfer_too_large, w))
        × (read pf p offset buf w ≡ (err transfer_too_large, w))
  unfolding write read transfer
  oversized_refused p offset buf w h = rw (lt→ltb 256 (length buf) h) (refl, refl)
