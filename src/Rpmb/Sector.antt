-- ===== src/Rpmb/Sector.antt =====
-- What the operations of the package rpmb keep of a sector, however they end: rpmb/op.go and
-- rpmb/rpmb.go.
use armored_witness_os.Base.{
  ℕ, false, ◌<◌, ◌^◌, ◌≡◌, ◌≢◌, ◌∙◌, ◌⊎◌, inl, inr, sym, ap, Bool, Bytes, uint16, uint16-put_uint16,
  replicate, length, length-copy, refl, Keeps, keeps_rules, require-Keeps, then-Keeps,
  bind_at-Keeps, bind-Keeps, when-Keeps, pure-Keeps, arith,
}
use armored_witness_os.Rpmb.Frame.{
  Config, DataFrame, IsFrame, new_frame, to_bytes, is_reliable, result_read, write_counter_read,
  authentication_key_programming, authenticated_data_write, authenticated_data_read,
}
use armored_witness_os.Rpmb.Op.{
  Platform, Partition, with_request_mac, with_nonce, op, counter, transfer_frame, transfer_write,
  transfer_other, transfer,
}
use armored_witness_os.Rpmb.Device.{write, read, program_key}
use armored_witness_os.Rpmb.Card.{
  IsCard, new_frame-IsFrame, set_mac-IsFrame, Alike, with_request_mac-Alike, with_nonce-Alike,
}
use armored_witness_os.Rpmb.Replay.{write_frame}

pub transfer_frame-IsFrame :
    (kind offset : ℕ) (buf : Bytes) → IsFrame (transfer_frame kind offset buf)
transfer_frame-IsFrame kind offset buf = record {
  stuff_length = refl;
  mac_length = refl;
  payload_length = length-copy (replicate 256 0) buf;
  nonce_length = refl;
  counter_length = refl;
  address_length = refl;
  block_length = refl;
  result_length = refl;
}

pub write_frame-IsFrame : (n offset : ℕ) (buf : Bytes) → IsFrame (write_frame n offset buf)
write_frame-IsFrame n offset buf = record {
  stuff_length = refl;
  mac_length = refl;
  payload_length = length-copy (replicate 256 0) buf;
  nonce_length = refl;
  counter_length = refl;
  address_length = refl;
  block_length = refl;
  result_length = refl;
}

module _ {W : Type 0} (pf : Platform W) (p : Partition) (content : W → ℕ → Bytes)
    (card : IsCard pf p.key content) (o : ℕ) (bs : Bytes) where
  -- The sector `o` holds `bs`.
  abbrev pub HoldsAt : W → Type 0
  HoldsAt w = content w o ≡ bs

  -- A request that does not write the sector.
  abbrev pub Spares : DataFrame → Type 0
  Spares f = (f.req ≢ authenticated_data_write) ⊎ (o ≢ uint16 f.address)

  rng-Keeps : (n : ℕ) → Keeps HoldsAt (pf.rng n)
  rng-Keeps n = record { at = λ w h. card.rng_keeps n w o ∙ h }

  response-Keeps : (b : Bytes) → Keeps HoldsAt (pf.read_rpmb b)
  response-Keeps b = record { at = λ w h. card.response_keeps b w o ∙ h }

  request-Keeps :
      (f : DataFrame) (rel : Bool)
      → IsFrame f
      → Spares f
      → Keeps HoldsAt (pf.write_rpmb (to_bytes f) rel)
  request-Keeps f rel v other = record { at = λ w h. card.request_keeps f rel w o v other ∙ h }

  with_nonce-Keeps : (cfg : Config) (req : DataFrame) → Keeps HoldsAt (with_nonce pf cfg req)
  unfolding with_nonce
  with_nonce-Keeps cfg req = search (rng-Keeps, keeps_rules)

  result-Keeps : Keeps HoldsAt (pf.write_rpmb (to_bytes (new_frame result_read)) false)
  result-Keeps =
      request-Keeps (new_frame result_read) false (new_frame-IsFrame _) (inl (omega arith))

  sent-Spares : (req sent : DataFrame) → Alike req sent → Spares req → Spares sent
  sent-Spares req sent a (inl k) = inl (λ e. k (sym a.same_req ∙ e))
  sent-Spares req sent a (inr k) = inr (λ e. k (e ∙ ap uint16 a.same_address))

  pub op-Keeps :
      (req : DataFrame) (cfg : Config) → IsFrame req → Spares req → Keeps HoldsAt (op pf p req cfg)
  unfolding op
  op-Keeps req cfg v other =
      let masked = with_request_mac pf p cfg req in
      then-Keeps _ _ (require-Keeps _ _) (
        bind_at-Keeps (with_nonce pf cfg masked) _ (with_nonce-Keeps cfg masked) λ sent w u e.
          let a = with_request_mac-Alike pf p content card cfg req in
          let (b, _) = with_nonce-Alike pf p content card cfg masked sent w u e in
          let sends =
            request-Keeps sent (is_reliable sent.req) (b.framed (a.framed v))
              (sent-Spares masked sent b (sent-Spares req masked a other)) in
          then-Keeps _ _ sends (
            then-Keeps _ _ (when-Keeps cfg.reads_result _ result-Keeps)
              (bind-Keeps _ _ (response-Keeps _) (λ buf. search keeps_rules))))

  pub counter-Keeps : (auth : Bool) → Keeps HoldsAt (counter pf p auth)
  unfolding counter
  counter-Keeps auth =
      let asks = λ (cfg : Config).
        op-Keeps (new_frame write_counter_read) cfg (new_frame-IsFrame _) (inl (omega arith)) in
      search (asks, keeps_rules)

  transfer_write-Keeps :
      (offset : ℕ) (buf : Bytes)
      → offset < 2 ^ 16
      → o ≢ offset
      → Keeps HoldsAt (transfer_write pf p offset buf)
  unfolding transfer_write
  transfer_write-Keeps offset buf small other =
      let writes = λ (n : ℕ) (cfg : Config).
        op-Keeps (write_frame n offset buf) cfg (write_frame-IsFrame n offset buf)
          (inr (λ e. other (e ∙ uint16-put_uint16 offset small))) in
      search (writes, counter-Keeps, keeps_rules)

  transfer_other-Keeps :
      (kind offset : ℕ) (buf : Bytes)
      → kind ≢ authenticated_data_write
      → Keeps HoldsAt (transfer_other pf p kind offset buf)
  unfolding transfer_other
  transfer_other-Keeps kind offset buf other =
      let asks = λ (cfg : Config).
        op-Keeps (transfer_frame kind offset buf) cfg (transfer_frame-IsFrame kind offset buf)
          (inl other) in
      search (asks, keeps_rules)

  -- A write to another sector, however it ends.
  pub write-Keeps :
      (offset : ℕ) (buf : Bytes)
      → offset < 2 ^ 16
      → o ≢ offset
      → Keeps HoldsAt (write pf p offset buf)
  unfolding write transfer
  write-Keeps offset buf small other =
      bind-Keeps _ _
        (then-Keeps _ _ (require-Keeps _ _)
          (then-Keeps _ _ (transfer_write-Keeps offset buf small other) (pure-Keeps buf)))
        (λ _. pure-Keeps tt)

  pub read-Keeps : (offset : ℕ) (buf : Bytes) → Keeps HoldsAt (read pf p offset buf)
  unfolding read transfer
  read-Keeps offset buf =
      let reads = transfer_other-Keeps authenticated_data_read offset buf (λ e. omega arith) in
      search (reads, keeps_rules)

  pub program_key-Keeps : length p.key ≡ 32 → Keeps HoldsAt (program_key pf p)
  unfolding program_key
  program_key-Keeps len =
      let asks = λ (cfg : Config).
        op-Keeps (record (new_frame authentication_key_programming) { key_mac = p.key }) cfg
          (set_mac-IsFrame _ p.key (new_frame-IsFrame _) len) (inl (omega arith)) in
      search (asks, keeps_rules)
