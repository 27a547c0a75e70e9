-- ===== src/TrustedOs/Handler/Masking.antt =====
-- When the applet is woken for an interrupt: trusted_os/handler.go over any number of exceptions.
use armored_witness_os.Base.{
  subst, next, ℕ, ◌≡◌, ◌∙◌, refl, sym, ap, Bool, true, false, List, [], ◌∷◌, Result, ok, err, halt,
  M, ◌>>◌, Bool-cases, inl, inr, Keeps, bind-Keeps,
}
use armored_witness_os.TrustedOs.Handler.{
  Services, Vector, Syscall, sys_write, rx, tx, freq, isr, serve, fiq_handler, call, handler,
  supervisor,
}

-- A step from what holds before it to what holds after it, and the rest from there.
next-moves :
    {W A B : Type 0} {P Q : W → Type 0} (f : A → M W B) (r : Result A × W)
    → P r.1
    → ((v : W) → P v → Q v)
    → ((a : A) (v : W) → P v → Q (f a v).1)
    → Q (next f r).1
next-moves f (ok a, v) h stops goes = goes a v h
next-moves f (err e, v) h stops goes = stops v h
next-moves f (halt, v) h stops goes = stops v h

-- What has happened to the applet, the last first: its interrupt handler was woken, or it has asked for
-- FIQs again.
pub data Mark : Type 0 where
  woken unmasked : Mark

-- FIQs are masked or not, and this has happened.
abbrev pub At : {W : Type 0} → (W → Bool) → (W → List Mark) → Bool → List Mark → W → Type 0
At masked marks m t w = (masked w ≡ m) × (marks w ≡ t)

-- The bit in the applet's saved status and the marks, which nothing but the three named services
-- touches.
pub record IsMarked {W : Type 0} (os : Services W) (masked : W → Bool) (marks : W → List Mark)
    : Type 0 where
  pub masks : (w : W) → At masked marks true (marks w) (os.mask_fiqs w).1
  pub unmasks : (w : W) → marks (os.unmask_fiqs w).1 ≡ unmasked ∷ marks w
  pub wakes : (w : W) → At masked marks (masked w) (woken ∷ marks w) (os.wake w).1
  pub interrupt_keeps : (m : Bool) (t : List Mark) → Keeps (At masked marks m t) os.get_interrupt
  pub serve_keeps :
      (m : Bool) (t : List Mark) (irq : ℕ) (v : W)
      → Keeps (At masked marks m t) (serve os (os.irq_handler irq v))
  pub watchdog_keeps : (m : Bool) (t : List Mark) → Keeps (At masked marks m t) os.service_watchdog
  pub log_keeps : (m : Bool) (t : List Mark) → Keeps (At masked marks m t) os.log_byte
  pub rx_keeps : (m : Bool) (t : List Mark) → Keeps (At masked marks m t) os.rx_from_applet
  pub tx_keeps : (m : Bool) (t : List Mark) → Keeps (At masked marks m t) os.tx_from_applet
  pub freq_keeps : (m : Bool) (t : List Mark) → Keeps (At masked marks m t) os.set_frequency
  pub secure_keeps : (m : Bool) (t : List Mark) → Keeps (At masked marks m t) os.secure_handler

-- Between any two wakes the applet has asked for FIQs.
abbrev pub Alternates : List Mark → Type 0
Alternates [] = Unit
Alternates (unmasked ∷ t) = Alternates t
Alternates (woken ∷ []) = Unit
Alternates (woken ∷ woken ∷ t) = ⊥
Alternates (woken ∷ unmasked ∷ t) = Alternates t

-- A wake may follow.
abbrev Ready : List Mark → Type 0
Ready [] = Unit
Ready (woken ∷ t) = ⊥
Ready (unmasked ∷ t) = Unit

Alternates-wake : (t : List Mark) → Ready t → Alternates t → Alternates (woken ∷ t)
Alternates-wake [] r a = tt
Alternates-wake (woken ∷ t) r a = absurd r
Alternates-wake (unmasked ∷ t) r a = a

module _ {W : Type 0} (os : Services W) (masked : W → Bool) (marks : W → List Mark)
    (law : IsMarked os masked marks) where
  -- An exception: an FIQ, which the processor takes only where FIQs are not masked, or a system call;
  -- the handler may return, fail or stop.
  pub data Exception (w w' : W) : Type 0 where
    interrupts :
        (s : Syscall) (r : Result (Unit {0}))
        → masked w ≡ false
        → handler os Vector.fiq s w ≡ (r, w')
        → Exception w w'
    calls :
        (s : Syscall) (r : Result (Unit {0})) → handler os supervisor s w ≡ (r, w') → Exception w w'

  pub data Exceptions (w : W) : W → Type 0 where
    here : Exceptions w w
    later : {u v : W} → Exceptions w u → Exception u v → Exceptions w v

  -- Where FIQs are not masked, the last wake is over.
  record Inv (w : W) : Type 0 where
    alternates : Alternates (marks w)
    ready : masked w ≡ false → Ready (marks w)

  kept-Inv : (w v : W) → At masked marks (masked w) (marks w) v → Inv w → Inv v
  kept-Inv w v (same, t) inv = record {
    alternates = subst Alternates (sym t) inv.alternates;
    ready = λ e. subst Ready (sym t) (inv.ready (sym same ∙ e));
  }

  isr-Keeps : (m : Bool) (t : List Mark) → Keeps (At masked marks m t) (isr os)
  unfolding isr
  isr-Keeps m t =
      bind-Keeps _ _ (law.interrupt_keeps m t)
        (λ irq. record { at = λ w h. (law.serve_keeps m t irq w).at w h })

  -- A wake with FIQs masked.
  woken-Inv :
      (t : List Mark)
      → Ready t
      → Alternates t
      → (w : W) → At masked marks true t w
      → Inv (os.wake w).1
  woken-Inv t ready alternates w (on, same) =
      let (kept, more) = law.wakes w in
      record {
        alternates =
            subst Alternates (sym (more ∙ ap (λ x. woken ∷ x) same))
              (Alternates-wake t ready alternates);
        ready = λ e. absurd (cc (sym on ∙ sym kept ∙ e));
      }

  masked-Inv : (t : List Mark) → Alternates t → (w : W) → At masked marks true t w → Inv w
  masked-Inv t alternates w (on, same) = record {
    alternates = subst Alternates (sym same) alternates;
    ready = λ e. absurd (cc (sym on ∙ e));
  }

  mask-At : (t : List Mark) (w : W) → marks w ≡ t → At masked marks true t (os.mask_fiqs w).1
  mask-At t w same = let (on, kept) = law.masks w in (on, kept ∙ same)

  fiq-Inv : (w : W) → masked w ≡ false → Inv w → Inv (fiq_handler os w).1
  unfolding fiq_handler
  fiq-Inv w open_now inv = elim (Bool-cases (os.from_applet w)) [
    | inr no_applet ↦
        rw no_applet (masked-Inv (marks w) inv.alternates _ (mask-At (marks w) w refl))
    | inl applet ↦ rw applet (
        next-moves (λ _. os.mask_fiqs >> os.wake) (isr os w)
          ((isr-Keeps (masked w) (marks w)).at w (refl, refl)) (λ v kept. kept-Inv w v kept inv)
          (λ _ v (_, same).
            next-moves (λ _. os.wake) (os.mask_fiqs v) (mask-At (marks w) v same)
              (masked-Inv (marks w) inv.alternates)
              (λ _ u. woken-Inv (marks w) (inv.ready open_now) inv.alternates u)))
  ]

  call-Inv : (s : Syscall) (w : W) → Inv w → Inv (call os s w).1
  call-Inv sys_write w inv = kept-Inv w _ ((law.log_keeps _ _).at w (refl, refl)) inv
  call-Inv rx w inv = kept-Inv w _ ((law.rx_keeps _ _).at w (refl, refl)) inv
  call-Inv tx w inv =
      kept-Inv w _
        ((bind-Keeps _ _ (law.watchdog_keeps _ _) (λ _. law.tx_keeps _ _)).at w (refl, refl)) inv
  call-Inv Syscall.fiq w inv = record {
    alternates = subst Alternates (sym (law.unmasks w)) inv.alternates;
    ready = λ e. subst Ready (sym (law.unmasks w)) tt;
  }
  call-Inv freq w inv = kept-Inv w _ ((law.freq_keeps _ _).at w (refl, refl)) inv
  call-Inv Syscall.other w inv = kept-Inv w _ ((law.secure_keeps _ _).at w (refl, refl)) inv

  Exception-Inv : (w w' : W) → Exception w w' → Inv w → Inv w'
  unfolding handler
  Exception-Inv w w' (interrupts s r open_now h) inv =
      subst Inv (ap (λ q. q.1) h) (fiq-Inv w open_now inv)
  Exception-Inv w w' (calls s r h) inv = subst Inv (ap (λ q. q.1) h) (call-Inv s w inv)

  Exceptions-Inv : (w w' : W) → Exceptions w w' → Inv w → Inv w'
  Exceptions-Inv w w' here inv = inv
  Exceptions-Inv w w' (later {u = u} es e) inv = Exception-Inv u w' e (Exceptions-Inv w u es inv)

  -- On services of which only the three that are named change whether FIQs are masked and what
  -- happens to the applet: over any exceptions, with FIQs taken only where they are not masked,
  -- system calls as they come, and whatever the handler returns, from a state in which nothing has
  -- happened, the applet has asked for FIQs between any two times that its interrupt handler was
  -- woken.
  pub Exceptions-Alternates : (w w' : W) → marks w ≡ [] → Exceptions w w' → Alternates (marks w')
  Exceptions-Alternates w w' fresh es =
      (Exceptions-Inv w w' es (record {
        alternates = subst Alternates (sym fresh) tt;
        ready = λ e. subst Ready (sym fresh) tt;
      })).alternates
