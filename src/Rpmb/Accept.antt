-- ===== src/Rpmb/Accept.antt =====
-- What `op` of rpmb/op.go accepts as a response.
use armored_witness_os.Base.{
  ◌≡◌, ◌↔◌, true, false, Bytes, bytes_equal, bytes_equal→eq, bytes_equal_refl, Bool-cases, inl, inr,
  uint16, ok, replicate, ap, sym, ◌∙◌, require-eq-ok, require-world, arith, ◌>>=◌, unbind, subst,
  when, require, lift, not_initialized,
}
use armored_witness_os.Rpmb.Frame.{
  DataFrame, Config, mac_region, to_bytes, parse, frame_length, new_frame, result_read, is_reliable,
}
use armored_witness_os.Rpmb.Op.{Platform, Partition, validate, op, with_nonce, with_request_mac}

module _ {W : Type 0} (pf : Platform W) where
  open pf use {hmac, read_rpmb}

  -- A response that answers the frame `sent` and reports success.
  pub record Answers (p : Partition) (cfg : Config) (sent : DataFrame) (buf : Bytes)
      (res : DataFrame) : Type 0 where
    pub authentic : cfg.response_mac ≡ true → res.key_mac ≡ hmac p.key (mac_region buf)
    pub typed : sent.req ≡ res.resp
    pub fresh : sent.nonce ≡ res.nonce
    pub succeeded : uint16 res.op_result ≡ 0

  validate-Answers :
      (p : Partition) (cfg : Config) (sent : DataFrame) (buf : Bytes) (res out : DataFrame)
      → validate pf p cfg sent buf res ≡ ok out
      → Answers p cfg sent buf res × (res ≡ out)
  unfolding validate
  validate-Answers p cfg sent buf res out h = ground (
    arith,
    bytes_equal→eq res.key_mac (hmac p.key (mac_region buf)),
    bytes_equal→eq sent.nonce res.nonce,
  )

  Answers-validate :
      (p : Partition) (cfg : Config) (sent : DataFrame) (buf : Bytes) (res : DataFrame)
      → Answers p cfg sent buf res
      → validate pf p cfg sent buf res ≡ ok res
  unfolding validate
  Answers-validate p cfg sent buf res a = elim (Bool-cases cfg.response_mac) [
    | inl on ↦ ground (
      arith,
      ap (bytes_equal res.key_mac) (sym (a.authentic on)),
      bytes_equal_refl res.key_mac,
      ap (bytes_equal sent.nonce) (sym a.fresh),
      bytes_equal_refl sent.nonce,
    )
    | inr off ↦
        ground (arith, ap (bytes_equal sent.nonce) (sym a.fresh), bytes_equal_refl sent.nonce)
  ]

  -- The validation of a response accepts exactly the responses that answer the request: with the
  -- right MAC (where it is asked for), the request's type and nonce, and the result `OperationOK`.
  pub validate_iff :
      (p : Partition) (cfg : Config) (sent : DataFrame) (buf : Bytes) (res : DataFrame)
      → (validate pf p cfg sent buf res ≡ ok res) ↔ Answers p cfg sent buf res
  validate_iff p cfg sent buf res =
      ((λ h. (validate-Answers p cfg sent buf res res h).0), Answers-validate p cfg sent buf res)

  -- The frame that `op` sends, what it reads, and when.
  pub record Exchange (p : Partition) (req : DataFrame) (cfg : Config) (w : W) (res : DataFrame)
      (w' : W) : Type 0 where
    pub initialized : p.init ≡ true
    pub sent : DataFrame
    pub buf : Bytes
    pub before : W
    pub requested : W
    pub asked : W
    pub prepared : with_nonce pf cfg (with_request_mac pf p cfg req) w ≡ (ok sent, before)
    pub sends : pf.write_rpmb (to_bytes sent) (is_reliable sent.req) before ≡ (ok tt, requested)
    pub asks :
        when cfg.reads_result (pf.write_rpmb (to_bytes (new_frame result_read)) false) requested
        ≡ (ok tt, asked)
    pub received : read_rpmb (replicate frame_length 0) asked ≡ (ok buf, w')
    pub parsed : parse buf ≡ ok res
    pub answers : Answers p cfg sent buf res

  check-Answers :
      (p : Partition) (cfg : Config) (sent : DataFrame) (buf : Bytes) (w w' : W) (res : DataFrame)
      → (lift (parse buf) >>= λ got. lift (validate pf p cfg sent buf got)) w ≡ (ok res, w')
      → (parse buf ≡ ok res) × Answers p cfg sent buf res × (w ≡ w')
  check-Answers p cfg sent buf w w' res h = unbind (lift (parse buf)) _ w h λ got v e k.
      let (a, same) = validate-Answers p cfg sent buf got res (ap (λ r. r.0) k) in
      (
        ap (λ r. r.0) e ∙ ap ok same,
        subst (Answers p cfg sent buf) same a,
        ap (λ r. r.1) e ∙ ap (λ r. r.1) k,
      )

  -- An operation that succeeds was on an initialized partition and has read a response that
  -- answers the frame it prepared and reports success.
  pub op-Exchange :
      (p : Partition) (req : DataFrame) (cfg : Config) (w w' : W) (res : DataFrame)
      → op pf p req cfg w ≡ (ok res, w')
      → Exchange p req cfg w res w'
  unfolding op
  op-Exchange p req cfg w w' res h = unbind (require p.init not_initialized) _ w h λ _ w0 e0 h0.
      unbind (with_nonce pf cfg (with_request_mac pf p cfg req)) _ w0 h0 λ sent w1 e1 h1.
        unbind (pf.write_rpmb (to_bytes sent) (is_reliable sent.req)) _ w1 h1 λ _ w2 e2 h2.
          unbind (when cfg.reads_result (pf.write_rpmb (to_bytes (new_frame result_read)) false)) _
            w2 h2
            λ _ w3 e3 h3. unbind (read_rpmb (replicate frame_length 0)) _ w3 h3 λ buf w4 e4 h4.
              let (parsed, answers, same) = check-Answers p cfg sent buf w4 w' res h4 in
              record {
                initialized = require-eq-ok p.init not_initialized w e0;
                sent = sent;
                buf = buf;
                before = w1;
                requested = w2;
                asked = w3;
                prepared =
                    ap (with_nonce pf cfg (with_request_mac pf p cfg req))
                      (require-world p.init not_initialized w e0)
                    ∙ e1;
                sends = e2;
                asks = e3;
                received = e4 ∙ ap (λ v. (ok buf, v)) same;
                parsed = parsed;
                answers = answers;
              }
