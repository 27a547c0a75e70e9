-- ===== src/TrustedOs/Stdout.antt =====
-- trusted_os/log.go: the applet's standard output, passed on by lines.
use armored_witness_os.Base.{
  ℕ, ◌≤◌, ◌≡◌, ◌∙◌, refl, sym, ap, subst, [], ◌∷◌, ◌++◌, Bytes, length, append_assoc, append-nil,
  ltb, ◌==◌, ◌||◌, if◌then◌else◌, Bool-cases, inl, inr, Result, ok, err, halt, M, next, ◌>>=◌, pure,
  arith,
}

abbrev pub output_limit : ℕ
output_limit = 1024

abbrev pub flush_chr : ℕ
flush_chr = 0x0a

module _ {W : Type 0} (write : Bytes → M W (Unit {0})) where
  -- `_, err = os.Stdout.Write(buf.Bytes())` and `buf.Reset()`; the buffer is reset after an error too.
  abbrev pub flushed : Bytes → Result (Unit {0}) × W → Result (Unit {0}) × (Bytes × W)
  flushed b (ok _, v) = (ok tt, ([], v))
  flushed b (err e, v) = (err e, ([], v))
  flushed b (halt, v) = (halt, (b, v))

  -- `bufferedStdoutLog`, on the variable `buf` and the world; `write` is `os.Stdout.Write`.
  unfoldable pub buffered_stdout_log : ℕ → M (Bytes × W) (Unit {0})
  buffered_stdout_log c (buf, w) =
      let b = buf ++ (c ∷ []) in
      if c == flush_chr || ltb output_limit (length b)
      then flushed b (write b w)
      else (ok tt, (b, w))

  -- The system calls of an applet that writes a text; an error of the handler ends the applet.
  unfoldable pub write_all : Bytes → M (Bytes × W) (Unit {0})
  write_all [] = pure tt
  write_all (c ∷ cs) = buffered_stdout_log c >>= λ _. write_all cs

-- What the operating system's `Write` documents: it puts out the bytes, or the first of them if it
-- fails.
pub record IsOutput {W : Type 0} (write : Bytes → M W (Unit {0})) (output : W → Bytes)
    : Type 0 where
  pub whole : (b : Bytes) (w v : W) → write b w ≡ (ok tt, v) → output v ≡ output w ++ b
  pub partly :
      (b : Bytes) (w : W)
      → (p : Bytes) × (rest : Bytes) × (p ++ rest ≡ b) × (output (write b w).1 ≡ output w ++ p)

-- What is left of the bytes that have not gone out: they are buffered, at most 1024 of them, or after
-- an error they are lost and the buffer is empty.
abbrev pub Left : Bytes → Result (Unit {0}) → Bytes → Type 0
Left rest (ok _) buf = (buf ≡ rest) × (length buf ≤ output_limit)
Left rest (err e) buf = buf ≡ []
Left rest halt buf = Unit

module _ {W : Type 0} (write : Bytes → M W (Unit {0})) (output : W → Bytes)
    (law : IsOutput write output) where
  -- Of these bytes the first have gone out, behind what was there before, and the others are left.
  abbrev pub Sent : Bytes → Bytes → Result (Unit {0}) × (Bytes × W) → Type 0
  Sent all before q =
      (p : Bytes) × (rest : Bytes) × (p ++ rest ≡ all)
      × (output q.1.1 ≡ before ++ p)
      × Left rest q.0 q.1.0

  flushed-Sent :
      (b : Bytes) (w : W) (r : Result (Unit {0}) × W)
      → write b w ≡ r
      → Sent b (output w) (flushed write b r)
  flushed-Sent b w (ok u, v) e = (b, [], append-nil b, law.whole b w v e, (refl, omega arith))
  flushed-Sent b w (err x, v) e =
      let (p, rest, parts, out) = law.partly b w in
      (p, rest, parts, ap (λ q. output q.1) (sym e) ∙ out, refl)
  flushed-Sent b w (halt, v) e =
      let (p, rest, parts, out) = law.partly b w in
      (p, rest, parts, ap (λ q. output q.1) (sym e) ∙ out, tt)

  buffered_stdout_log-Sent :
      (c : ℕ) (buf : Bytes) (w : W)
      → Sent (buf ++ (c ∷ [])) (output w) (buffered_stdout_log write c (buf, w))
  unfolding buffered_stdout_log
  buffered_stdout_log-Sent c buf w =
      elim (Bool-cases (c == flush_chr || ltb output_limit (length (buf ++ (c ∷ []))))) [
        | inl full ↦ rw full (flushed-Sent (buf ++ (c ∷ [])) w _ refl)
        | inr room ↦
            rw room
              ([], buf ++ (c ∷ []), refl, sym (append-nil (output w)), (refl, ground (arith, room)))
      ]

  -- What follows a step that has sent a part.
  after-Sent :
      (all cs before : Bytes) (f : M (Bytes × W) (Unit {0})) (r : Result (Unit {0}) × (Bytes × W))
      → Sent all before r
      → ((buf : Bytes) (v : W)
          → length buf ≤ output_limit
          → Sent (buf ++ cs) (output v) (f (buf, v)))
      → Sent (all ++ cs) before (next (λ _. f) r)
  after-Sent all cs before f (ok u, (buf, v)) (p, rest, parts, out, (same, small)) then_sent =
      let (p', rest', parts', out', left) = then_sent buf v small in
      (
        p ++ p',
        rest',
        append_assoc p p' rest'
            ∙ ap (λ x. p ++ x) (parts' ∙ ap (λ x. x ++ cs) same)
            ∙ sym (append_assoc p rest cs)
            ∙ ap (λ x. x ++ cs) parts,
        out' ∙ ap (λ x. x ++ p') out ∙ append_assoc before p p',
        left,
      )
  after-Sent all cs before f (err e, (buf, v)) (p, rest, parts, out, left) then_sent =
      (p, rest ++ cs, sym (append_assoc p rest cs) ∙ ap (λ x. x ++ cs) parts, out, left)
  after-Sent all cs before f (halt, (buf, v)) (p, rest, parts, out, left) then_sent =
      (p, rest ++ cs, sym (append_assoc p rest cs) ∙ ap (λ x. x ++ cs) parts, out, tt)

  -- On an output that puts out the bytes of a write, or the first of them if it fails, and with at
  -- most 1024 bytes buffered: whatever an applet writes, up to the first write that fails, what
  -- has gone out since is the beginning of what was buffered and then the text. The rest is what
  -- is buffered, at most 1024 bytes, if no write failed; if one did, it is lost and the buffer is
  -- empty.
  pub write_all_lem :
      (cs buf : Bytes) (w : W)
      → length buf ≤ output_limit
      → Sent (buf ++ cs) (output w) (write_all write cs (buf, w))
  unfolding write_all
  write_all_lem [] buf w h = ([], buf, sym (append-nil buf), sym (append-nil (output w)), (refl, h))
  write_all_lem (c ∷ cs) buf w h =
      subst (λ all. Sent all (output w) (write_all write (c ∷ cs) (buf, w)))
        (append_assoc buf (c ∷ []) cs)
        (after-Sent (buf ++ (c ∷ [])) cs (output w) (write_all write cs)
          (buffered_stdout_log write c (buf, w)) (buffered_stdout_log-Sent c buf w)
          (λ b v small. write_all_lem cs b v small))
