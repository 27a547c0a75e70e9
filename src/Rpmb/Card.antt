-- ===== src/Rpmb/Card.antt =====
-- What a card of the standard JESD84-B51 does with the frames of rpmb/op.go, and what an operation
-- of the package leaves of its sectors.
use armored_witness_os.Base.{
  ℕ, ◌+◌, ◌%◌, ◌^◌, ◌≡◌, ◌≢◌, ◌∙◌, ◌⊎◌, inl, inr, refl, sym, ap, subst, Bool, true, false,
  Bool-cases, Bytes, length, replicate, uint16, length-copy, ok, when, unbind, arith,
}
use armored_witness_os.Rpmb.Frame.{
  Config, DataFrame, IsFrame, new_frame, to_bytes, mac_region, parse, is_reliable, counter_of,
  frame_length, result_read, authenticated_data_write, authenticated_data_read,
}
use armored_witness_os.Rpmb.Op.{Platform, Partition, op, with_request_mac, with_nonce}
use armored_witness_os.Rpmb.Accept.{Exchange, op-Exchange}

-- The laws of a card that holds `content`, as seen by an owner of its key: an answer with a MAC by
-- the key, to a request with its nonce or its counter, is the card's own.
pub record IsCard {W : Type 0} (pf : Platform W) (key : Bytes) (content : W → ℕ → Bytes)
    : Type 0 where
  pub rng_keeps : (n : ℕ) (w : W) (o : ℕ) → content (pf.rng n w).1 o ≡ content w o
  pub response_keeps : (b : Bytes) (w : W) (o : ℕ) → content (pf.read_rpmb b w).1 o ≡ content w o
  -- Only a data write changes a sector, the one at its address.
  pub request_keeps :
      (f : DataFrame) (rel : Bool) (w : W) (o : ℕ)
      → IsFrame f
      → (f.req ≢ authenticated_data_write) ⊎ (o ≢ uint16 f.address)
      → content (pf.write_rpmb (to_bytes f) rel w).1 o ≡ content w o
  pub reads :
      (f res : DataFrame) (buf : Bytes) (w v v' : W)
      → IsFrame f
      → f.req ≡ authenticated_data_read
      → pf.write_rpmb (to_bytes f) (is_reliable f.req) w ≡ (ok tt, v)
      → pf.read_rpmb (replicate frame_length 0) v ≡ (ok buf, v')
      → parse buf ≡ ok res
      → res.key_mac ≡ pf.hmac key (mac_region buf)
      → f.req ≡ res.resp
      → f.nonce ≡ res.nonce
      → uint16 res.op_result ≡ 0
      → res.payload ≡ content w (uint16 f.address)
  pub writes :
      (f res : DataFrame) (buf : Bytes) (w u v v' : W)
      → IsFrame f
      → f.req ≡ authenticated_data_write
      → pf.write_rpmb (to_bytes f) (is_reliable f.req) w ≡ (ok tt, u)
      → pf.write_rpmb (to_bytes (new_frame result_read)) false u ≡ (ok tt, v)
      → pf.read_rpmb (replicate frame_length 0) v ≡ (ok buf, v')
      → parse buf ≡ ok res
      → res.key_mac ≡ pf.hmac key (mac_region buf)
      → f.req ≡ res.resp
      → uint16 res.op_result ≡ 0
      → counter_of res ≡ (counter_of f + 1) % 2 ^ 32
      → content v' (uint16 f.address) ≡ f.payload

pub new_frame-IsFrame : (kind : ℕ) → IsFrame (new_frame kind)
new_frame-IsFrame kind = record {
  stuff_length = refl;
  mac_length = refl;
  payload_length = refl;
  nonce_length = refl;
  counter_length = refl;
  address_length = refl;
  block_length = refl;
  result_length = refl;
}

pub set_mac-IsFrame :
    (f : DataFrame) (mac : Bytes)
    → IsFrame f
    → length mac ≡ length f.key_mac
    → IsFrame (record f { key_mac = mac })
set_mac-IsFrame f mac v h = ground arith

set_nonce-IsFrame :
    (f : DataFrame) (nonce : Bytes)
    → IsFrame f
    → length nonce ≡ length f.nonce
    → IsFrame (record f { nonce = nonce })
set_nonce-IsFrame f nonce v h = ground arith

-- What the preparation of a request leaves as it was.
pub record Alike (req sent : DataFrame) : Type 0 where
  pub framed : IsFrame req → IsFrame sent
  pub same_payload : sent.payload ≡ req.payload
  pub same_counter : sent.write_counter ≡ req.write_counter
  pub same_address : sent.address ≡ req.address
  pub same_req : sent.req ≡ req.req

module _ {W : Type 0} (pf : Platform W) (p : Partition) (content : W → ℕ → Bytes)
    (card : IsCard pf p.key content) where
  pub with_request_mac-Alike :
      (cfg : Config) (req : DataFrame) → Alike req (with_request_mac pf p cfg req)
  unfolding with_request_mac
  with_request_mac-Alike cfg req = elim (Bool-cases cfg.request_mac) [
    | inl on ↦ rw on (record {
      framed = λ v.
          set_mac-IsFrame req _ v
            (length-copy req.key_mac (pf.hmac p.key (mac_region (to_bytes req))));
      same_payload = refl;
      same_counter = refl;
      same_address = refl;
      same_req = refl;
    })
    | inr off ↦ rw off (record {
      framed = λ v. v;
      same_payload = refl;
      same_counter = refl;
      same_address = refl;
      same_req = refl;
    })
  ]

  pub with_nonce-Alike :
      (cfg : Config) (req sent : DataFrame) (w w' : W)
      → with_nonce pf cfg req w ≡ (ok sent, w')
      → Alike req sent × ((o : ℕ) → content w' o ≡ content w o)
  unfolding with_nonce
  with_nonce-Alike cfg req sent w w' h = elim (Bool-cases cfg.random_nonce) [
    | inl on ↦ unbind (pf.rng (length req.nonce)) _ w (rw on at h) λ fresh v e k. (
      subst (Alike req) (cc (ap (λ r. r.0) k)) (record {
        framed = λ f. set_nonce-IsFrame req _ f (length-copy req.nonce fresh);
        same_payload = refl;
        same_counter = refl;
        same_address = refl;
        same_req = refl;
      }),
      λ o.
          ap (λ t. content t o) (sym (ap (λ r. r.1) k))
          ∙ ap (λ r. content r.1 o) (sym e)
          ∙ card.rng_keeps (length req.nonce) w o,
    )
    | inr off ↦ (
      subst (Alike req) (cc (ap (λ r. r.0) (rw off at h))) (record {
        framed = λ f. f;
        same_payload = refl;
        same_counter = refl;
        same_address = refl;
        same_req = refl;
      }),
      λ o. ap (λ t. content t o) (sym (ap (λ r. r.1) (rw off at h))),
    )
  ]

  asks-keeps :
      (reads_result : Bool) (w w' : W)
      → when reads_result (pf.write_rpmb (to_bytes (new_frame result_read)) false) w ≡ (ok tt, w')
      → (o : ℕ) → content w' o ≡ content w o
  asks-keeps true w w' h o =
      ap (λ r. content r.1 o) (sym h)
      ∙ card.request_keeps (new_frame result_read) false w o (new_frame-IsFrame result_read)
          (inl (omega arith))
  asks-keeps false w w' h o = ap (λ r. content r.1 o) (sym h)

  -- What is left of the sectors by an operation that succeeds.
  pub record Operated (req : DataFrame) (cfg : Config) (w : W) (res : DataFrame) (w' : W)
      : Type 0 where
    pub exchange : Exchange pf p req cfg w res w'
    pub alike : Alike req exchange.sent
    pub ready : (o : ℕ) → content exchange.before o ≡ content w o
    pub answered : (o : ℕ) → content w' o ≡ content exchange.requested o

  pub op-Operated :
      (req : DataFrame) (cfg : Config) (w w' : W) (res : DataFrame)
      → op pf p req cfg w ≡ (ok res, w')
      → Operated req cfg w res w'
  op-Operated req cfg w w' res h =
      let x = op-Exchange pf p req cfg w w' res h in
      let masked = with_request_mac-Alike cfg req in
      let (nonced, ready) =
        with_nonce-Alike cfg (with_request_mac pf p cfg req) x.sent w x.before x.prepared in
      record {
        exchange = x;
        alike = record {
          framed = λ v. nonced.framed (masked.framed v);
          same_payload = nonced.same_payload ∙ masked.same_payload;
          same_counter = nonced.same_counter ∙ masked.same_counter;
          same_address = nonced.same_address ∙ masked.same_address;
          same_req = nonced.same_req ∙ masked.same_req;
        };
        ready = ready;
        answered = λ o.
            ap (λ r. content r.1 o) (sym x.received)
            ∙ card.response_keeps (replicate frame_length 0) x.asked o
            ∙ asks-keeps cfg.reads_result x.requested x.asked x.asks o;
      }

  -- A request that is no data write changes no sector; a data write changes the one at its address.
  pub op-keeps :
      (req : DataFrame) (cfg : Config) (w w' : W) (res : DataFrame) (o : ℕ)
      → IsFrame req
      → (req.req ≢ authenticated_data_write) ⊎ (o ≢ uint16 req.address)
      → op pf p req cfg w ≡ (ok res, w')
      → content w' o ≡ content w o
  op-keeps req cfg w w' res o v other h =
      let d = op-Operated req cfg w w' res h in
      let x = d.exchange in
      d.answered o
      ∙ ap (λ r. content r.1 o) (sym x.sends)
      ∙ card.request_keeps x.sent (is_reliable x.sent.req) x.before o (d.alike.framed v)
          (elim other [
            | inl k ↦ inl (λ e. k (sym d.alike.same_req ∙ e))
            | inr k ↦ inr (λ e. k (e ∙ ap uint16 d.alike.same_address))
          ])
      ∙ d.ready o
