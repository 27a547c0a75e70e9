-- ===== src/TrustedOs/Rollback/Refused.antt =====
-- A check of a version before the one that is stored keeps the sector, however it ends:
-- `checkVersion` of trusted_os/rpmb.go.
use armored_witness_os.Base.{
  ℕ, ◌≡◌, ◌∙◌, ◌^◌, ◌<◌, sym, ap, true, Bytes, copy, replicate, some, ok, lift, Keeps, keeps_rules,
  bind_held-Keeps, bind_at-Keeps, lift-Keeps, fail-Keeps,
}
use armored_witness_os.Rpmb.Op.{Platform, Partition}
use armored_witness_os.Rpmb.Card.{IsCard}
use armored_witness_os.Rpmb.Sector.{HoldsAt, read-Keeps}
use armored_witness_os.TrustedOs.Rollback.{
  Rpmb, Versions, sectors_of, check_version, expected_version, stored_version, version_length,
}
use armored_witness_os.TrustedOs.Rollback.Store.{IsVersioning}
use armored_witness_os.TrustedOs.Rollback.Refine.{sectors_of-IsStore}
use armored_witness_os.TrustedOs.Rollback.Versioning.{expected-Holds}

module _ {V W : Type 0} (vs : Versions V) (order : IsVersioning vs) (pf : Platform W)
    (p : Partition) (content : W → ℕ → Bytes) (card : IsCard pf p.key content) (offset : ℕ)
    (small : offset < 2 ^ 16) (bs : Bytes) (stored : V)
    (held : stored_version vs (vs.decode (copy (replicate version_length 0) bs)) ≡ ok stored) where
  abbrev Held : W → Type 0
  Held = HoldsAt pf p content card offset bs

  abbrev device : Rpmb W
  device = record { partition = some (sectors_of pf p) }

  own_read-Keeps : (buf : Bytes) → Keeps Held ((sectors_of pf p).read offset buf)
  own_read-Keeps buf = read-Keeps pf p content card offset bs offset buf

  expected_version-Keeps : Keeps Held (expected_version vs device offset)
  unfolding expected_version
  expected_version-Keeps = search (own_read-Keeps, keeps_rules)

  pub refused-Keeps :
      (s : Bytes) (old : V)
      → vs.new_version s ≡ ok old
      → vs.less_than old stored ≡ true
      → Keeps Held (check_version vs device offset s)
  unfolding check_version
  refused-Keeps s old parsed older =
      bind_at-Keeps (lift (vs.new_version s)) _ (lift-Keeps _) λ running x y e.
        bind_held-Keeps (expected_version vs device offset) _ expected_version-Keeps
          λ expected w v same found.
            let (holds, _) =
              expected-Holds vs (sectors_of pf p) content (sectors_of-IsStore pf p content card)
                order offset w v expected small found in
            let now : stored ≡ expected = cc (
              sym held
              ∙ ap (λ c. stored_version vs (vs.decode (copy (replicate version_length 0) c)))
                  (sym same)
              ∙ holds) in
            let is_old : old ≡ running = cc (sym parsed ∙ ap (λ r. r.0) e) in
            let refuses : vs.less_than running expected ≡ true =
              ap (λ a. vs.less_than a expected) (sym is_old)
              ∙ ap (vs.less_than old) (sym now)
              ∙ older in
            rw refuses (fail-Keeps _)
