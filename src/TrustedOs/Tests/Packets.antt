-- ===== src/TrustedOs/Tests/Packets.antt =====
-- Packets that cross a USB network: trusted_os/net.go.
use armored_witness_os.Base.{refl, List, [], ◌∷◌, ◌++◌, Bytes, some, ok, arith}
use armored_witness_os.TrustedOs.Net.{Queues, Context}
use armored_witness_os.TrustedOs.Net.Flow.{Moment, arrives, receives, sends, takes, Exchanges}
use armored_witness_os.TrustedOs.Net.Order.{Flowed, happens-Flowed}

-- The packets that the applet has got and that it has handed over; it offers four bytes, and sends
-- one.
record Applet : Type 0 where
  got : List Bytes
  gave : List Bytes

abbrev context : Context Applet
context = record {
  transfer_region = λ w. (ok (0, 4), w);
  write_memory = λ off b w. (ok tt, record w { got = w.got ++ (b ∷ []) });
  read_memory = λ off n w. (ok (7 ∷ []), record w { gave = w.gave ++ ((7 ∷ []) ∷ []) });
  ret = λ n w. (ok tt, w);
}

context-Exchanges : Exchanges context 4 (λ w. w.got) (λ w. w.gave)
context-Exchanges = record {
  region = λ w. (0, w, refl, refl, refl);
  written = λ off b w. (record w { got = w.got ++ (b ∷ []) }, refl, refl, refl);
  read = λ off n w. (7 ∷ [], record w { gave = w.gave ++ ((7 ∷ []) ∷ []) }, refl, refl, refl);
  answered = λ n w. (w, refl, refl, refl);
}

abbrev queues : Queues
queues = record { rx_queue = some []; tx_queue = some ((9 ∷ []) ∷ []) }

-- The second packet does not fit.
abbrev moments : List Moment
moments =
    arrives (1 ∷ 2 ∷ [])
    ∷ arrives (1 ∷ 2 ∷ 3 ∷ 4 ∷ 5 ∷ [])
    ∷ sends
    ∷ receives
    ∷ takes
    ∷ receives
    ∷ arrives (3 ∷ [])
    ∷ sends
    ∷ takes
    ∷ []

abbrev idle : Applet
idle = record { got = []; gave = [] }

happens-Flowed_example :
    Flowed context 4
      (λ w. w.got)
      (λ w. w.gave)
      context-Exchanges
      moments
      queues
      idle
      []
      ((9 ∷ []) ∷ [])
happens-Flowed_example =
    happens-Flowed context 4 (λ w. w.got) (λ w. w.gave) context-Exchanges moments queues idle []
      ((9 ∷ []) ∷ []) refl (omega arith) refl (omega arith) (omega arith)
