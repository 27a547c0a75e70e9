-- ===== src/TrustedOs/Rollback/Refine.antt =====
-- The partition of the package rpmb is the store that the version check relies on.
use armored_witness_os.Base.{
  ℕ, ◌+◌, ◌%◌, ◌^◌, ◌<◌, ◌≡◌, ◌≢◌, ◌∙◌, inl, inr, refl, sym, ap, Bytes, uint32, true, replicate,
  copy, uint16, uint16-put_uint16, ok, unbind, arith,
}
use armored_witness_os.Rpmb.Frame.{DataFrame, authenticated_data_read, counter_of}
use armored_witness_os.Rpmb.Op.{Platform, Partition, op, counter, transfer_frame, transfer_other}
use armored_witness_os.Rpmb.Device.{read, write}
use armored_witness_os.Rpmb.Card.{IsCard, op-Operated, op-keeps}
use armored_witness_os.Rpmb.Sector.{transfer_frame-IsFrame, write_frame-IsFrame, counter-Keeps}
use armored_witness_os.Rpmb.Replay.{
  write_frame, write_config, read_config, write-Written, transfer-fits, uint32_wrap,
}
use armored_witness_os.TrustedOs.Rollback.{sectors_of}
use armored_witness_os.TrustedOs.Rollback.Store.{IsStore}

module _ {W : Type 0} (pf : Platform W) (p : Partition) (content : W → ℕ → Bytes)
    (card : IsCard pf p.key content) where
  read_request :
      (offset : ℕ) (buf : Bytes) (w w' : W) (res : DataFrame)
      → offset < 2 ^ 16
      → op pf p (transfer_frame authenticated_data_read offset buf) read_config w ≡ (ok res, w')
      → res.payload ≡ content w offset
  read_request offset buf w w' res small h =
      let req = transfer_frame authenticated_data_read offset buf in
      let d = op-Operated pf p content card req read_config w w' res h in
      let x = d.exchange in
      let a = d.alike in
      card.reads x.sent res x.buf x.before x.asked w'
        (a.framed (transfer_frame-IsFrame _ offset buf)) a.same_req (x.sends ∙ x.asks) x.received
        x.parsed (x.answers.authentic refl) x.answers.typed x.answers.fresh x.answers.succeeded
      ∙ ap (content x.before) (ap uint16 a.same_address ∙ uint16-put_uint16 offset small)
      ∙ d.ready offset

  read_lem :
      (offset : ℕ) (buf out : Bytes) (w w' : W)
      → offset < 2 ^ 16
      → read pf p offset buf w ≡ (ok out, w')
      → (out ≡ copy buf (content w offset)) × ((o : ℕ) → o < 2 ^ 16 → content w' o ≡ content w o)
  unfolding read transfer_other
  read_lem offset buf out w w' small h =
      let (_, rest) = transfer-fits pf p authenticated_data_read offset buf out w w' h in
      unbind (op pf p (transfer_frame authenticated_data_read offset buf) read_config) _ w rest
        λ res v e k. (
          sym (cc (ap (λ r. r.0) k)) ∙ ap (copy buf) (read_request offset buf w v res small e),
          λ o _.
              ap (λ t. content t o) (sym (ap (λ r. r.1) k))
              ∙ op-keeps pf p content card (transfer_frame authenticated_data_read offset buf)
                  read_config w v res o (transfer_frame-IsFrame authenticated_data_read offset buf)
                  (inl (omega arith)) e,
        )

  counter-keeps :
      (n : ℕ) (w w' : W) (o : ℕ) → counter pf p true w ≡ (ok n, w') → content w' o ≡ content w o
  counter-keeps n w w' o h =
      ap (λ r. content r.1 o) (sym h)
      ∙ (counter-Keeps pf p content card o (content w o) true).at w refl

  write_lem :
      (offset : ℕ) (buf : Bytes) (w w' : W)
      → offset < 2 ^ 16
      → write pf p offset buf w ≡ (ok tt, w')
      → (content w' offset ≡ copy (replicate 256 0) buf)
        × ((o : ℕ) → o < 2 ^ 16 → o ≢ offset → content w' o ≡ content w o)
  unfolding counter_of
  write_lem offset buf w w' small h =
      let t = write-Written pf p offset buf w w' h in
      let req = write_frame t.before offset buf in
      let v = write_frame-IsFrame t.before offset buf in
      let d = op-Operated pf p content card req write_config t.asked w' t.res t.done in
      let x = d.exchange in
      let a = d.alike in
      let counted : counter_of t.res ≡ (counter_of x.sent + 1) % 2 ^ 32 =
        t.one_up ∙ sym (ap (λ c. (uint32 c + 1) % 2 ^ 32) a.same_counter ∙ uint32_wrap t.before) in
      let at : uint16 x.sent.address ≡ offset =
        ap uint16 a.same_address ∙ uint16-put_uint16 offset small in
      (
        ap (content w') (sym at)
            ∙ card.writes x.sent t.res x.buf x.before x.requested x.asked w' (a.framed v) a.same_req
                x.sends x.asks x.received x.parsed (x.answers.authentic refl) x.answers.typed
                x.answers.succeeded counted
            ∙ a.same_payload,
        λ o _ other.
            op-keeps pf p content card req write_config t.asked w' t.res o v
              (inr (λ e. other (e ∙ uint16-put_uint16 offset small))) t.done
            ∙ counter-keeps t.before w t.asked o t.counted,
      )

  -- On a card that keeps the standard, with the partition's key: the partition is a store. A read
  -- that succeeds gives what the sector holds and changes no sector, and a write that succeeds puts
  -- its bytes, with zeros behind them, into its sector and changes no other.
  pub sectors_of-IsStore : IsStore (sectors_of pf p) content
  sectors_of-IsStore = record { read_law = read_lem; write_law = write_lem }
