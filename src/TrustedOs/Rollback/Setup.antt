-- ===== src/TrustedOs/Rollback/Setup.antt =====
-- What the set-up of the RPMB keeps of the sectors: `init` of trusted_os/rpmb.go.
use armored_witness_os.Base.{
  ℕ, ◌≡◌, ◌≢◌, ◌∙◌, ◌⊎◌, inl, inr, true, false, refl, sym, ap, subst, Bool, Bytes, [], length,
  Option, none, some, Result, ok, err, halt, M, replicate, copy, copy_full, unbind, or_fail-eq-ok,
  or_fail, init_failed, derive_failed, fuse_failed, program_key_failed, no_mmc, invalid_key_size,
  ◌==◌, ◌>>◌, pure, pure-eq, require, when, ◌∷◌, if◌then◌else◌, Keeps, keeps_rules, bind_at-Keeps,
  bind-Keeps, then-Keeps, require-Keeps, or_fail-Keeps, if-Keeps, pure-Keeps, when-Keeps, arith,
}
use armored_witness_os.Fuses.{Otp}
use armored_witness_os.Rpmb.Op.{Platform, Partition}
use armored_witness_os.Rpmb.Op
use armored_witness_os.Rpmb.Device
use armored_witness_os.Rpmb.Device.{program_key, write, key_len}
use armored_witness_os.Rpmb.Card.{IsCard}
use armored_witness_os.Rpmb.Sector.{HoldsAt, write-Keeps, counter-Keeps, program_key-Keeps}
use armored_witness_os.TrustedOs.Rollback.Keying.{init-Keyed}
use armored_witness_os.TrustedOs.Rollback.{
  KeySource, is_programmed, derive, tolerate, probe, init, dummy_sector, rpmb_fuse_bank,
  rpmb_fuse_word,
}

-- The fuses and the units that derive keys are beside the RPMB: their use changes no sector. The key
-- that the units derive is always the same.
pub record IsUnit {W : Type 0} (otp : Otp W) (ks : KeySource W) (content : W → ℕ → Bytes)
    (key : Bytes) : Type 0 where
  pub fuse_reads :
      (bank word off size : ℕ) (w : W) (o : ℕ)
      → content (otp.read_ocotp bank word off size w).1 o ≡ content w o
  pub fuse_blows :
      (bank word off size : ℕ) (val : Bytes) (w : W) (o : ℕ)
      → content (otp.blow_ocotp bank word off size val w).1 o ≡ content w o
  pub derives :
      (unit : M W Bytes) (w : W) (o : ℕ)
      → (ks.caam ≡ some unit) ⊎ (ks.dcp ≡ some unit)
      → content (unit w).1 o ≡ content w o
  pub same_key :
      (unit : M W Bytes) (w v : W) (dk : Bytes)
      → (ks.caam ≡ some unit) ⊎ (ks.dcp ≡ some unit)
      → unit w ≡ (ok dk, v)
      → ks.stretch dk ≡ key
  pub key_length : length key ≡ 32

-- The partition with a key.
abbrev pub partition : Bytes → Partition
partition key = record { key = key; init = true }

module _ {W : Type 0} (pf : Platform W) (otp : Otp W) (ks : KeySource W) (content : W → ℕ → Bytes)
    (key : Bytes) (unit : IsUnit otp ks content key) (card : IsCard pf key content) where
  abbrev own : Partition
  own = partition key

  abbrev keyed : Bytes → Partition
  keyed dk = record { key = copy (replicate key_len 0) (ks.stretch dk); init = true }

  module _ (o : ℕ) (bs : Bytes) where
    abbrev pub Held : W → Type 0
    Held = HoldsAt pf own content card o bs

    derived-Keeps :
        (caam dcp : Option (M W Bytes))
        → ks.caam ≡ caam
        → ks.dcp ≡ dcp
        → Keeps Held (derive pf otp ks caam dcp)
    unfolding derive
    derived-Keeps (some m) dcp e f =
        or_fail-Keeps m _ (record { at = λ w h. unit.derives m w o (inl e) ∙ h })
    derived-Keeps none (some m) e f =
        or_fail-Keeps m _ (record { at = λ w h. unit.derives m w o (inr f) ∙ h })
    derived-Keeps none none e f = search keeps_rules

    is_programmed-Keeps : Keeps Held (is_programmed otp)
    unfolding is_programmed
    is_programmed-Keeps =
        bind-Keeps _ _ (or_fail-Keeps _ _ (record { at = λ w h. unit.fuse_reads _ _ _ _ w o ∙ h }))
          (λ _. pure-Keeps _)

    tolerated : (r : Result ℕ × W) → (tolerate pf otp ks r).1 ≡ r.1
    tolerated (ok n, w) = refl
    tolerated (halt, w) = refl
    tolerated (err e, w) = ground arith

    probe-Keeps : Keeps Held (probe pf otp ks own)
    unfolding probe
    probe-Keeps = record {
      at = λ w h.
          subst Held (sym (tolerated (Op.counter pf own false w)))
            ((counter-Keeps pf own content card o bs false).at w h);
    }

  keyed_partition : (dk : Bytes) → ks.stretch dk ≡ key → keyed dk ≡ own
  keyed_partition dk e =
      ap (λ k. record { key = k; init = true })
        (ap (copy (replicate key_len 0)) e ∙ copy_full (replicate key_len 0) key unit.key_length)

  -- The partition that is made has the key of the unit.
  made_partition :
      (kind : Option Bool) (dk : Bytes) (dummy : ℕ) (programmed : Bool) (w v : W) (p : Partition)
      → ks.stretch dk ≡ key
      → Device.init pf kind (ks.stretch dk) dummy programmed w ≡ (ok p, v)
      → p ≡ own
  unfolding Device.init
  made_partition none dk dummy programmed w v p e h = ground arith
  made_partition (some mmc) dk dummy programmed w v p e h =
      unbind (require mmc no_mmc) _ w h λ _ w1 _ h1.
        unbind (require (length (ks.stretch dk) == key_len) invalid_key_size) _ w1 h1 λ _ w2 _ h2.
          unbind (when programmed (write pf (keyed dk) dummy [])) _ w2 h2
            λ _ w3 _ h3. sym (pure-eq h3).0 ∙ keyed_partition dk e

  derived_key :
      (caam dcp : Option (M W Bytes)) (dk : Bytes) (w v : W)
      → ks.caam ≡ caam
      → ks.dcp ≡ dcp
      → derive pf otp ks caam dcp w ≡ (ok dk, v)
      → ks.stretch dk ≡ key
  unfolding derive
  derived_key (some m) dcp dk w v e f h =
      unit.same_key m w v dk (inl e) (or_fail-eq-ok m derive_failed w h)
  derived_key none (some m) dk w v e f h =
      unit.same_key m w v dk (inr f) (or_fail-eq-ok m derive_failed w h)
  derived_key none none dk w v e f h = ground arith

  module _ (o : ℕ) (bs : Bytes) (other : o ≢ dummy_sector) where
    dummy-Keeps : (p : Partition) → p ≡ own → Keeps (Held o bs) (write pf p dummy_sector [])
    dummy-Keeps p e =
        rw e (write-Keeps pf own content card o bs dummy_sector [] (omega arith) other)

    made-Keeps :
        (kind : Option Bool) (dk : Bytes) (programmed : Bool)
        → ks.stretch dk ≡ key
        → Keeps (Held o bs) (Device.init pf kind (ks.stretch dk) dummy_sector programmed)
    unfolding Device.init
    made-Keeps none dk programmed e = search keeps_rules
    made-Keeps (some mmc) dk programmed e =
        let dummy = dummy-Keeps (keyed dk) (keyed_partition dk e) in
        then-Keeps _ _ (require-Keeps mmc no_mmc) (
          then-Keeps _ _ (require-Keeps (length (ks.stretch dk) == key_len) invalid_key_size)
            (then-Keeps _ _ (when-Keeps programmed _ dummy) (pure-Keeps (keyed dk))))

    blown-Keeps :
        (bank word off size : ℕ) (val : Bytes)
        → Keeps (Held o bs) (otp.blow_ocotp bank word off size val)
    blown-Keeps bank word off size val = record {
      at = λ w h. unit.fuse_blows bank word off size val w o ∙ h;
    }

    -- The rest of `init` on the partition that was made.
    probed-Keeps :
        (p : Partition) (programmed : Bool)
        → p ≡ own
        → Keeps (Held o bs) (
            probe pf otp ks p
            >> (if programmed then pure p else (do
              or_fail (otp.blow_ocotp rpmb_fuse_bank rpmb_fuse_word 0 1 (1 ∷ [])) fuse_failed
              or_fail (program_key pf p) program_key_failed
              pure p)))
    probed-Keeps p programmed e =
        let probes : Keeps (Held o bs) (probe pf otp ks p) = rw e (probe-Keeps o bs) in
        let programs : Keeps (Held o bs) (program_key pf p) =
          rw e (program_key-Keeps pf own content card o bs unit.key_length) in
        then-Keeps _ _ probes (
          if-Keeps programmed _ _ (pure-Keeps p) (
            then-Keeps _ _ (or_fail-Keeps _ fuse_failed (blown-Keeps _ _ _ _ _))
              (then-Keeps _ _ (or_fail-Keeps _ program_key_failed programs) (pure-Keeps p))))

    -- On a card that keeps its standard, with fuses and units beside it and a key that is always
    -- the same: however the set-up of the RPMB ends, and whether or not it programs the key, every
    -- sector but the dummy one holds what it held.
    pub init-Keeps : (kind : Option Bool) → Keeps (Held o bs) (init pf otp ks kind)
    unfolding init
    init-Keeps kind =
        bind_at-Keeps (derive pf otp ks ks.caam ks.dcp) _
          (derived-Keeps o bs ks.caam ks.dcp refl refl)
          λ dk w v d.
            let e = derived_key ks.caam ks.dcp dk w v refl refl d in
            then-Keeps _ _ (require-Keeps _ _) (
              bind-Keeps _ _ (is_programmed-Keeps o bs) λ programmed.
                bind_at-Keeps
                  (or_fail (Device.init pf kind (ks.stretch dk) dummy_sector programmed)
                    init_failed)
                  _ (or_fail-Keeps _ _ (made-Keeps kind dk programmed e))
                  λ p x y made. probed-Keeps p programmed (
                    made_partition kind dk dummy_sector programmed x y p e (
                      or_fail-eq-ok (Device.init pf kind (ks.stretch dk) dummy_sector programmed)
                        init_failed x made)))

  -- An `init` that succeeds has made the partition with the unit's key.
  pub init-partition :
      (kind : Option Bool) (p : Partition) (w w' : W)
      → init pf otp ks kind w ≡ (ok p, w')
      → p ≡ partition key
  init-partition kind p w w' h =
      let k = init-Keyed pf otp ks kind p w w' h in
      made_partition kind k.dk dummy_sector k.flag k.flagged k.made p
        (derived_key ks.caam ks.dcp k.dk w k.derived refl refl k.derives) k.makes
