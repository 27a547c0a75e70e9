-- ===== src/TrustedOs/Net/Order.antt =====
-- No packet is lost, repeated or reordered between a USB network and the applet: trusted_os/net.go.
use armored_witness_os.Base.{
  ℕ, suc, ◌+◌, ◌-◌, ◌≤◌, ◌<◌, ◌≡◌, ◌∙◌, refl, sym, ap, List, [], ◌∷◌, ◌++◌, append_assoc,
  append-nil, Bytes, length, length-append, ltb, ltb→lt, Bool-cases, inl, inr, some, ok, ◌>>=◌,
  pure, arith, subst,
}
use armored_witness_os.TrustedOs.Net.{
  Queues, Context, async_rx, async_tx, rx_queue_size, tx_queue_size, offer, deliver, rx_from_applet,
}
use armored_witness_os.TrustedOs.Net.Flow.{
  Moment, arrives, receives, sends, takes, happens, accepted, Roomy, fitting, Exchanges,
  deliver_lem, send_lem,
}

module _ {W : Type 0} (ctx : Context W) (size : ℕ) (received handed : W → List Bytes)
    (applet : Exchanges ctx size received handed) where
  -- What has become of the packets, where `r` waited for the applet and `q` for the network.
  pub record Flowed (ms : List Moment) (n : Queues) (w : W) (r q : List Bytes) : Type 0 where
    pub out : List Bytes
    pub left : Queues
    pub world : W
    pub runs : happens ctx ms (n, w) ≡ (ok out, (left, world))
    pub rx : List Bytes
    pub rx_left : left.rx_queue ≡ some rx
    pub rx_small : length rx ≤ rx_queue_size
    pub arrived :
        received world ++ fitting size rx ≡ received w ++ fitting size (r ++ accepted (length r) ms)
    pub tx : List Bytes
    pub tx_left : left.tx_queue ≡ some tx
    pub tx_small : length tx ≤ tx_queue_size
    pub sent : List Bytes
    pub handed_on : handed world ≡ handed w ++ sent
    pub taken : out ++ tx ≡ q ++ sent

  -- A moment in which the network takes `g` and the applet sends `h`, before the others.
  then_Flowed :
      (m : Moment) (ms : List Moment) (n n1 : Queues) (w w1 : W) (r r1 q q1 g h : List Bytes)
      → (f : Flowed ms n1 w1 r1 q1)
      → happens ctx (m ∷ ms) (n, w) ≡ (ok (g ++ f.out), (f.left, f.world))
      → received w1 ++ fitting size (r1 ++ accepted (length r1) ms)
        ≡ received w ++ fitting size (r ++ accepted (length r) (m ∷ ms))
      → handed w1 ≡ handed w ++ h
      → g ++ q1 ≡ q ++ h
      → Flowed (m ∷ ms) n w r q
  then_Flowed m ms n n1 w w1 r r1 q q1 g h f runs arrived handed_on taken = record {
    out = g ++ f.out;
    left = f.left;
    world = f.world;
    runs = runs;
    rx = f.rx;
    rx_left = f.rx_left;
    rx_small = f.rx_small;
    arrived = f.arrived ∙ arrived;
    tx = f.tx;
    tx_left = f.tx_left;
    tx_small = f.tx_small;
    sent = h ++ f.sent;
    handed_on = f.handed_on ∙ ap (λ x. x ++ f.sent) handed_on ∙ append_assoc (handed w) h f.sent;
    taken =
        append_assoc g f.out f.tx
        ∙ ap (λ x. g ++ x) f.taken
        ∙ sym (append_assoc g q1 f.sent)
        ∙ ap (λ x. x ++ f.sent) taken
        ∙ append_assoc q h f.sent;
  }

  offer-small :
      (b : Bytes) (r : List Bytes)
      → length r ≤ rx_queue_size
      → length (offer rx_queue_size r b) ≤ rx_queue_size
  offer-small b r small = elim (Bool-cases (ltb (length r) rx_queue_size)) [
    | inl room ↦
        rw (room) (omega (arith, length-append r (b ∷ []), ltb→lt (length r) rx_queue_size room))
    | inr full ↦ rw (full) small
  ]

  offer-accepted :
      (b : Bytes) (ms : List Moment) (r : List Bytes)
      → offer rx_queue_size r b ++ accepted (length (offer rx_queue_size r b)) ms
        ≡ r ++ accepted (length r) (arrives b ∷ ms)
  unfolding accepted
  offer-accepted b ms r = elim (Bool-cases (ltb (length r) rx_queue_size)) [
    | inl room ↦
        rw (room, length-append r (b ∷ [])) (append_assoc r (b ∷ []) (accepted (length r + 1) ms))
    | inr full ↦ rw (full) refl
  ]

  arrival :
      (b : Bytes) (n : Queues) (r : List Bytes)
      → n.rx_queue ≡ some r
      → async_rx b n ≡ record n { rx_queue = some (offer rx_queue_size r b) }
  unfolding async_rx
  arrival b n r there = rw there refl

  flow_arrives :
      (b : Bytes) (ms : List Moment) (n : Queues) (w : W) (r q : List Bytes)
      → n.rx_queue ≡ some r
      → Flowed ms
          (record n { rx_queue = some (offer rx_queue_size r b) })
          w
          (offer rx_queue_size r b)
          q
      → Flowed (arrives b ∷ ms) n w r q
  unfolding happens
  flow_arrives b ms n w r q there f =
      then_Flowed (arrives b) ms n (record n { rx_queue = some (offer rx_queue_size r b) }) w w r
        (offer rx_queue_size r b) q q [] [] f
        (ap (λ x. happens ctx ms (x, w)) (arrival b n r there) ∙ f.runs)
        (ap (λ x. received w ++ fitting size x) (offer-accepted b ms r))
        (sym (append-nil (handed w))) (sym (append-nil q))

  flow_receives :
      (ms : List Moment) (n : Queues) (w : W) (r q : List Bytes)
      → n.rx_queue ≡ some r
      → length r ≤ rx_queue_size
      → ((n' : Queues) (w' : W) (r' : List Bytes)
          → n'.rx_queue ≡ some r'
          → length r' ≤ rx_queue_size
          → n'.tx_queue ≡ n.tx_queue
          → Flowed ms n' w' r' q)
      → Flowed (receives ∷ ms) n w r q
  unfolding happens rx_from_applet accepted
  flow_receives ms n w [] q there small rest =
      let (v, e, r1, h1) = applet.answered 0 w in
      let f = rest (record n { rx_queue = some [] }) v [] refl small refl in
      then_Flowed receives ms n (record n { rx_queue = some [] }) w v [] [] q q [] [] f
        (rw (there, e) f.runs) (ap (λ x. x ++ fitting size (accepted 0 ms)) r1)
        (h1 ∙ sym (append-nil (handed w))) (sym (append-nil q))
  flow_receives ms n w (b ∷ rs) q there small rest =
      let v = (deliver ctx b w).1 in
      let f = rest (record n { rx_queue = some rs }) v rs refl (omega arith) refl in
      let (got, kept) =
        deliver_lem ctx size received handed applet b w (rs ++ accepted (length rs) ms) in
      let one_less : suc (length rs) - 1 ≡ length rs = omega arith in
      then_Flowed receives ms n (record n { rx_queue = some rs }) w v (b ∷ rs) rs q q [] [] f
        (rw there f.runs)
        (got ∙ ap (λ k. received w ++ fitting size (b ∷ (rs ++ accepted k ms))) (sym one_less))
        (kept ∙ sym (append-nil (handed w))) (sym (append-nil q))

  flow_sends :
      (ms : List Moment) (n : Queues) (w : W) (r q : List Bytes)
      → n.tx_queue ≡ some q
      → length q < tx_queue_size
      → ((n' : Queues) (w' : W) (q' : List Bytes)
          → n'.rx_queue ≡ n.rx_queue
          → n'.tx_queue ≡ some q'
          → length q' ≡ length q + 1
          → Flowed ms n' w' r q')
      → Flowed (sends ∷ ms) n w r q
  unfolding happens accepted
  flow_sends ms n w r q there room rest =
      let (b, v, e, r1, h1) = send_lem ctx size received handed applet n w q there room in
      let n' = record n { tx_queue = some (q ++ (b ∷ [])) } in
      let f = rest n' v (q ++ (b ∷ [])) refl refl (length-append q (b ∷ [])) in
      then_Flowed sends ms n n' w v r r q (q ++ (b ∷ [])) [] (b ∷ []) f (rw e f.runs)
        (ap (λ x. x ++ fitting size (r ++ accepted (length r) ms)) r1) h1 refl

  then_taken :
      (g : List Bytes) (ms : List Moment) (n : Queues) (w : W) {out : List Bytes} {s : Queues × W}
      → happens ctx ms (n, w) ≡ (ok out, s)
      → (happens ctx ms >>= λ out. pure (g ++ out)) (n, w) ≡ (ok (g ++ out), s)
  then_taken g ms n w runs = rw runs refl

  flow_takes :
      (ms : List Moment) (n : Queues) (w : W) (r q : List Bytes)
      → n.tx_queue ≡ some q
      → ((n' : Queues) (q' : List Bytes)
          → n'.rx_queue ≡ n.rx_queue
          → n'.tx_queue ≡ some q'
          → length q' ≡ length q - 1
          → Flowed ms n' w r q')
      → Flowed (takes ∷ ms) n w r q
  unfolding happens accepted async_tx
  flow_takes ms n w r [] there rest =
      let n' = record n { tx_queue = some [] } in
      let f = rest n' [] refl refl refl in
      then_Flowed takes ms n n' w w r r [] [] [] [] f (rw there (then_taken [] ms n' w f.runs)) refl
        (sym (append-nil (handed w))) refl
  flow_takes ms n w r (b ∷ qs) there rest =
      let n' = record n { tx_queue = some qs } in
      let f = rest n' qs refl refl (omega arith) in
      then_Flowed takes ms n n' w w r r (b ∷ qs) qs (b ∷ []) [] f
        (rw there (then_taken (b ∷ []) ms n' w f.runs)) refl (sym (append-nil (handed w)))
        (sym (append-nil (b ∷ qs)))

  -- On queues of at most 1000 packets, with an applet that offers regions of one size and that
  -- sends only where the queue to the network has room: whatever order packets arrive in, are
  -- received, sent and taken, all of it returns. What the applet has got, and what waits for it
  -- and fits its region, are the packets that waited and then those that arrived where fewer than
  -- 1000 waited, in order and less those that do not fit. What the network has taken, and what
  -- waits for it, are the packets that waited and then those that the applet has handed over, in
  -- order. At most 1000 wait in each queue.
  pub happens-Flowed :
      (ms : List Moment) (n : Queues) (w : W) (r q : List Bytes)
      → n.rx_queue ≡ some r
      → length r ≤ rx_queue_size
      → n.tx_queue ≡ some q
      → length q ≤ tx_queue_size
      → Roomy (length q) ms
      → Flowed ms n w r q
  unfolding happens accepted
  happens-Flowed [] n w r q rx_there rx_small tx_there tx_small roomy = record {
    out = [];
    left = n;
    world = w;
    runs = refl;
    rx = r;
    rx_left = rx_there;
    rx_small = rx_small;
    arrived = ap (λ x. received w ++ fitting size x) (sym (append-nil r));
    tx = q;
    tx_left = tx_there;
    tx_small = tx_small;
    sent = [];
    handed_on = sym (append-nil (handed w));
    taken = sym (append-nil q);
  }
  happens-Flowed (arrives b ∷ ms) n w r q rx_there rx_small tx_there tx_small roomy =
      flow_arrives b ms n w r q rx_there (
        happens-Flowed ms (record n { rx_queue = some (offer rx_queue_size r b) }) w
          (offer rx_queue_size r b) q refl (offer-small b r rx_small) tx_there tx_small roomy)
  happens-Flowed (receives ∷ ms) n w r q rx_there rx_small tx_there tx_small roomy =
      flow_receives ms n w r q rx_there rx_small λ n' w' r' there small same.
        happens-Flowed ms n' w' r' q there small (same ∙ tx_there) tx_small roomy
  happens-Flowed (sends ∷ ms) n w r q rx_there rx_small tx_there tx_small (room, roomy) =
      flow_sends ms n w r q tx_there room λ n' w' q' same there longer.
        happens-Flowed ms n' w' r q' (same ∙ rx_there) rx_small there (omega arith)
          (subst (λ k. Roomy k ms) (sym longer) roomy)
  happens-Flowed (takes ∷ ms) n w r q rx_there rx_small tx_there tx_small roomy =
      flow_takes ms n w r q tx_there λ n' q' same there shorter.
        happens-Flowed ms n' w r q' (same ∙ rx_there) rx_small there (omega arith)
          (subst (λ k. Roomy k ms) (sym shorter) roomy)
