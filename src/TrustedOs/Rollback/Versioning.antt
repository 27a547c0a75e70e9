-- ===== src/TrustedOs/Rollback/Versioning.antt =====
-- Rollback protection: `checkVersion` of trusted_os/rpmb.go.
use armored_witness_os.Base.{
  ℕ, ◌^◌, ◌<◌, ◌≡◌, ◌≢◌, ◌∙◌, ◌⊎◌, inl, inr, ap, sym, subst, refl, ◌≤◌, Bytes, length, copy,
  replicate, true, false, ok, err, some, lift, unbind, Bool-cases, arith, version_mismatch,
  if◌then◌else◌, pure, fail, M,
}
use armored_witness_os.TrustedOs.Rollback.{
  Sectors, Rpmb, Versions, stored_version, version_length, expected_version, update_version,
  check_version,
}
use armored_witness_os.TrustedOs.Rollback.Store.{IsStore, IsVersioning, IsShort}

module _ {V W : Type 0} (vs : Versions V) (p : Sectors W) (content : W → ℕ → Bytes)
    (store : IsStore p content) (order : IsVersioning vs) where
  open vs use {new_version, less_than, equal}

  abbrev device : Rpmb W
  device = record { partition = some p }

  -- The version that a sector holds.
  abbrev pub Holds : W → ℕ → V → Type 0
  Holds w offset v =
      stored_version vs (vs.decode (copy (replicate version_length 0) (content w offset))) ≡ ok v

  pub expected-Holds :
      (offset : ℕ) (w v : W) (u : V)
      → offset < 2 ^ 16
      → expected_version vs device offset w ≡ (ok u, v)
      → Holds w offset u × ((o : ℕ) → o < 2 ^ 16 → content v o ≡ content w o)
  unfolding expected_version
  expected-Holds offset w v u small h =
      unbind (p.read offset (replicate version_length 0)) _ w h λ buf t e k.
        let (same, kept) = store.read_law offset (replicate version_length 0) buf w t small e in
        (
          ap (λ b. stored_version vs (vs.decode b)) (sym same) ∙ ap (λ r. r.0) k,
          λ o within. ap (λ s. content s o) (sym (ap (λ r. r.1) k)) ∙ kept o within,
        )

  -- The encoding of a version is read back whole.
  abbrev Fits : V → Type 0
  Fits v = (b : Bytes) → vs.encode (vs.to_text v) ≡ ok b → length b ≤ version_length

  update-Holds :
      (offset : ℕ) (w w' : W) (v : V)
      → offset < 2 ^ 16
      → update_version vs device offset v w ≡ (ok tt, w')
      → (Fits v → Holds w' offset v)
        × ((o : ℕ) → o < 2 ^ 16 → o ≢ offset → content w' o ≡ content w o)
  unfolding update_version
  update-Holds offset w w' v small h = unbind (lift (vs.encode (vs.to_text v))) _ w h λ b t e k.
      let (now, kept) = store.write_law offset b t w' small k in
      let encoded = ap (λ r. r.0) e in
      (
        λ fits.
            ap (λ c. stored_version vs (vs.decode (copy (replicate version_length 0) c))) now
            ∙ order.round_trip v b encoded (fits b encoded),
        λ o within ne. kept o within ne ∙ ap (λ s. content s o) (sym (ap (λ r. r.1) e)),
      )

  -- What a check that succeeds has found, and what it leaves behind where the version is short.
  pub record Found (offset : ℕ) (s : Bytes) (w w' : W) : Type 0 where
    pub running : V
    pub stored : V
    pub parsed : new_version s ≡ ok running
    pub held : Holds w offset stored
    pub not_older : less_than running stored ≡ false
    pub kept_if :
        IsShort vs s
        → ((equal stored running ≡ true) × Holds w' offset stored)
          ⊎ ((less_than stored running ≡ true) × Holds w' offset running)
    pub elsewhere : (o : ℕ) → o < 2 ^ 16 → o ≢ offset → content w' o ≡ content w o

  -- What a check of a short version has found and left behind: the running version `v` is not older than
  -- the stored version `u`, and the sector holds `v`, or `u` where the two are equal.
  pub record Checked (offset : ℕ) (s : Bytes) (w w' : W) : Type 0 where
    pub running : V
    pub stored : V
    pub parsed : new_version s ≡ ok running
    pub held : Holds w offset stored
    pub not_older : less_than running stored ≡ false
    pub kept :
        ((equal stored running ≡ true) × Holds w' offset stored)
        ⊎ ((less_than stored running ≡ true) × Holds w' offset running)
    pub elsewhere : (o : ℕ) → o < 2 ^ 16 → o ≢ offset → content w' o ≡ content w o

  -- The three-way branch of `checkVersion`.
  abbrev branch : ℕ → V → V → M W (Unit {0})
  branch offset running expected =
      if less_than running expected
      then fail version_mismatch
      else if equal expected running
      then pure tt
      else if less_than expected running
      then update_version vs device offset running
      else pure tt

  branch-Holds :
      (offset : ℕ) (w w' : W) (v u : V)
      → offset < 2 ^ 16
      → Holds w offset u
      → branch offset v u w ≡ (ok tt, w')
      → (less_than v u ≡ false)
        × (Fits v
            → ((equal u v ≡ true) × Holds w' offset u)
              ⊎ ((less_than u v ≡ true) × Holds w' offset v))
        × ((o : ℕ) → o < 2 ^ 16 → o ≢ offset → content w' o ≡ content w o)
  branch-Holds offset w w' v u small held h = elim (Bool-cases (less_than v u)) [
    | inl older ↦ absurd (ground (arith, rw older at h))
    | inr fine ↦ elim (Bool-cases (equal u v)) [
      | inl same ↦
          let e : w ≡ w' = ap (λ r. r.1) (rw (fine, same) at h) in
          (
            fine,
            λ fits. inl (same, subst (λ t. Holds t offset u) e held),
            λ o within ne. ap (λ t. content t o) (sym e),
          )
      | inr other ↦
          let newer = order.total v u fine other in
          let (now, kept) = update-Holds offset w w' v small (rw (fine, other, newer) at h) in
          (fine, λ fits. inr (newer, now fits), kept)
    ]
  ]

  pub check_version-Found :
      (offset : ℕ) (s : Bytes) (w w' : W)
      → offset < 2 ^ 16
      → check_version vs device offset s w ≡ (ok tt, w')
      → Found offset s w w'
  unfolding check_version
  check_version-Found offset s w w' small h = unbind (lift (new_version s)) _ w h λ v w1 e1 h1.
      unbind (expected_version vs device offset) _ w1 h1 λ u w2 e2 h2.
        let same : w1 ≡ w = sym (ap (λ r. r.1) e1) in
        let (held, unchanged) = expected-Holds offset w1 w2 u small e2 in
        let held2 : Holds w2 offset u =
          ap (λ c. stored_version vs (vs.decode (copy (replicate version_length 0) c)))
            (unchanged offset small)
          ∙ held in
        let (fine, kept, rest) = branch-Holds offset w2 w' v u small held2 h2 in
        record {
          running = v;
          stored = u;
          parsed = ap (λ r. r.0) e1;
          held = subst (λ t. Holds t offset u) same held;
          not_older = fine;
          kept_if = λ short. kept (λ b e. short v b (ap (λ r. r.0) e1) e);
          elsewhere =
              λ o within ne. rest o within ne ∙ unchanged o within ∙ ap (λ t. content t o) same;
        }

  -- On a store whose reads and writes keep their laws, with versions in order that decode to
  -- themselves where they are read back whole, at a sector below 2^16: a check that succeeds, of a
  -- version whose encoding has at most the 32 bytes that are read back, has parsed a running
  -- version that is not older than the stored one; afterwards the sector holds the running version
  -- if it is newer, and what it held if the two are equal; no other sector has changed.
  pub check_version-Checked :
      (offset : ℕ) (s : Bytes) (w w' : W)
      → offset < 2 ^ 16
      → IsShort vs s
      → check_version vs device offset s w ≡ (ok tt, w')
      → Checked offset s w w'
  check_version-Checked offset s w w' small short h =
      let c = check_version-Found offset s w w' small h in
      record {
        running = c.running;
        stored = c.stored;
        parsed = c.parsed;
        held = c.held;
        not_older = c.not_older;
        kept = c.kept_if short;
        elsewhere = c.elsewhere;
      }

  older_than_held :
      (offset : ℕ) (s : Bytes) (w w' : W) (old u : V)
      → (c : Checked offset s w w') → less_than old c.running ≡ true
      → Holds w' offset u
      → less_than old u ≡ true
  older_than_held offset s w w' old u c older held = elim c.kept [
    | inl (same, h) ↦
        subst (λ x. less_than old x ≡ true) (cc (sym h ∙ held))
          (order.respects c.stored c.running old same older)
    | inr (newer, h) ↦ subst (λ x. less_than old x ≡ true) (cc (sym h ∙ held)) older
  ]

  -- On a store whose reads and writes keep their laws, with versions in order that decode to
  -- themselves where they are read back whole, at a sector below 2^16: after a check that
  -- succeeded for one version, whose encoding has at most the 32 bytes that are read back, a check
  -- of an older version at that sector is refused with `version mismatch`, if the stored version
  -- can be read, and no sector changes.
  pub older_refused :
      (offset : ℕ) (s t : Bytes) (w w' v : W) (running old u : V)
      → offset < 2 ^ 16
      → IsShort vs s
      → check_version vs device offset s w ≡ (ok tt, w')
      → new_version s ≡ ok running
      → new_version t ≡ ok old
      → less_than old running ≡ true
      → expected_version vs device offset w' ≡ (ok u, v)
      → (check_version vs device offset t w' ≡ (err version_mismatch, v))
        × ((o : ℕ) → o < 2 ^ 16 → content v o ≡ content w' o)
  unfolding check_version
  older_refused offset s t w w' v running old u small short h s_parsed t_parsed older read =
      let c = check_version-Checked offset s w w' small short h in
      let same : running ≡ c.running = cc (sym s_parsed ∙ c.parsed) in
      let (held, kept) = expected-Holds offset w' v u small read in
      rw
        (
          t_parsed,
          read,
          older_than_held offset s w w' old u c (subst (λ r. less_than old r ≡ true) same older)
              held,
        )
        (refl, kept)
