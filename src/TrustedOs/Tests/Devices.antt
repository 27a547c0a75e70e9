-- ===== src/TrustedOs/Tests/Devices.antt =====
-- The smaller parts on small inputs: logs, packets, and the emulated RPMB.
use armored_witness_os.Base.{
  M, length, ltb, err, no_devices, if◌then◌else◌, Bool-cases, inl, inr, sym, ap, append-nil, ℕ, ◌≡◌,
  ◌≢◌, ◌>>=◌, Option, List, ◌++◌, true, false, refl, [], ◌∷◌, Bytes, copy, replicate, ok, arith,
  none, some,
}
use armored_witness_os.TrustedOs.Stdout.{write_all, write_all_lem, IsOutput, Sent}
use armored_witness_os.TrustedOs.Net.{Queues, Context}
use armored_witness_os.TrustedOs.Net.Start.{Lan, serve_lan}
use armored_witness_os.TrustedOs.Net.Deliver.{Receives, IsLan, rx_calls, serve_lan-received}
use armored_witness_os.TrustedOs.FakeRpmb.{FakeRpmb, new_rpmb, IsMemory, transfer}
use armored_witness_os.TrustedOs.FakeRpmb.Sectors.{transfer_lem}

-- A standard output that takes four bytes and fails where more are written.
abbrev put_out : Bytes → M Bytes (Unit {0})
put_out b out = if ltb 4 (length (out ++ b)) then (err no_devices, out) else (ok tt, out ++ b)

put_out-IsOutput : IsOutput put_out (λ out. out)
put_out-IsOutput = record {
  whole = λ b w v h. elim (Bool-cases (ltb 4 (length (w ++ b)))) [
    | inl full ↦ absurd (ground (arith, rw full at h))
    | inr room ↦ sym (ap (λ r. r.1) (rw room at h))
  ];
  partly = λ b w. elim (Bool-cases (ltb 4 (length (w ++ b)))) [
    | inl full ↦ ([], b, refl, rw full (sym (append-nil w)))
    | inr room ↦ (b, [], append-nil b, rw room refl)
  ];
}

-- The first line goes out and the second is lost.
write_all_lem_example :
    Sent put_out
      (λ out. out)
      put_out-IsOutput
      (104 ∷ 105 ∷ 10 ∷ 33 ∷ 10 ∷ [])
      []
      (write_all put_out (105 ∷ 10 ∷ 33 ∷ 10 ∷ []) (104 ∷ [], []))
write_all_lem_example =
    write_all_lem put_out (λ out. out) put_out-IsOutput (105 ∷ 10 ∷ 33 ∷ 10 ∷ []) (104 ∷ []) []
      (omega arith)

abbrev queues : Queues
queues = record { rx_queue = some ((1 ∷ []) ∷ []); tx_queue = some [] }

new_rpmb-IsMemory : IsMemory new_rpmb
new_rpmb-IsMemory sector = refl

transfer_lem_example :
    (r' : FakeRpmb) × (transfer 3 (1 ∷ 2 ∷ []) true true new_rpmb ≡ (ok (1 ∷ 2 ∷ [], some 1), r'))
    × (transfer 3 (0 ∷ 0 ∷ []) false false r'
        ≡ (ok (copy (0 ∷ 0 ∷ []) (copy (replicate 256 0) (1 ∷ 2 ∷ [])), none), r'))
    × ((s : ℕ) → s ≢ 3 → r'.mem s ≡ replicate 256 0)
    × IsMemory r'
transfer_lem_example =
    transfer_lem 3 (1 ∷ 2 ∷ []) (0 ∷ 0 ∷ []) new_rpmb new_rpmb-IsMemory (omega arith) (omega arith)
      (omega arith)

-- The frames of a LAN controller that are pending, and an applet that keeps all it is given.
abbrev Wire : Type 0
Wire = List Bytes × List Bytes

abbrev applet : Context Wire
applet = record {
  transfer_region = λ w. (ok (0, 1500), w);
  write_memory = λ off b w. (ok tt, (w.0, w.1 ++ (b ∷ [])));
  read_memory = λ off n w. (ok [], w);
  ret = λ n w. (ok tt, w);
}

applet-Receives : Receives applet 1500 (λ w. w.1)
applet-Receives = record {
  region = λ w. (0, w, refl, refl);
  memory = λ off b w. ((w.0, w.1 ++ (b ∷ [])), refl, refl);
  answered = λ n w. (w, refl, refl);
}

abbrev first_frame : Wire → Option Bytes × Wire
first_frame ([], seen) = (none, ([], seen))
first_frame (b ∷ bs, seen) = (some b, (bs, seen))

abbrev nic : Lan Wire
nic = record {
  irq = 150;
  rx = first_frame;
  clear_interrupt = λ w. w;
  enable_interrupt = λ w. w;
  start = λ rx w. w;
}

no_frame : (w : Wire) → w.0 ≡ [] → (v : Wire) × (first_frame w ≡ (none, v)) × (v.1 ≡ w.1)
no_frame ([], seen) e = (([], seen), refl, refl)
no_frame (b ∷ bs, seen) e = ground arith

a_frame :
    (b : Bytes) (bs : List Bytes) (w : Wire)
    → w.0 ≡ b ∷ bs
    → (v : Wire) × (first_frame w ≡ (some b, v)) × (v.0 ≡ bs) × (v.1 ≡ w.1)
a_frame b bs (q, seen) e = ((bs, seen), rw e, refl, refl)

nic-IsLan : IsLan nic (λ w. w.0) (λ w. w.1)
nic-IsLan = record { none_left = no_frame; first = a_frame; clear = λ w. (refl, refl) }

abbrev empty_queues : Queues
empty_queues = record { rx_queue = some []; tx_queue = none }

abbrev frames : List Bytes
frames = (1 ∷ []) ∷ (2 ∷ 3 ∷ []) ∷ []

serve_lan-received_example :
    (n' : Queues) × (w' : Wire) × ((serve_lan nic 3 >>= λ _. rx_calls applet 2)
        (empty_queues, (frames, []))
      ≡ (ok tt, (n', w')))
    × (n'.rx_queue ≡ some [])
    × (w'.1 ≡ frames)
serve_lan-received_example =
    serve_lan-received applet 1500 (λ w. w.1) applet-Receives nic (λ w. w.0) nic-IsLan frames 3
      empty_queues (frames, []) refl refl (omega arith) (omega arith, (omega arith, tt))
      (omega arith)
