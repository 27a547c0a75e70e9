-- ===== src/TrustedOs/Rpc/History.antt =====
-- What the OS's sector holds after a check of the OS's version: `checkVersion` of trusted_os/rpmb.go,
-- called by trusted_os/main.go.
use armored_witness_os.Base.{
  ℕ, ◌≡◌, ◌⊎◌, ◌∙◌, inl, inr, ap, sym, subst, Bytes, copy, replicate, true, false, ok, some, arith,
}
use armored_witness_os.TrustedOs.Rollback.{
  Sectors, Rpmb, Versions, stored_version, version_length, check_version, os_version_sector,
}
use armored_witness_os.TrustedOs.Rollback.Store.{IsStore, IsVersioning, IsShort}
use armored_witness_os.TrustedOs.Rollback.Versioning.{Holds, check_version-Found}

-- The comparison of go-semver: no version is before itself or an equal one, and what is not before
-- another is not before what that one is not before.
pub record IsPreorder {V : Type 0} (vs : Versions V) : Type 0 where
  pub irreflexive : (a : V) → vs.less_than a a ≡ false
  pub equal_not_less : (a b : V) → vs.equal a b ≡ true → vs.less_than a b ≡ false
  pub not_less_trans :
      (a b c : V) → vs.less_than a b ≡ false → vs.less_than b c ≡ false → vs.less_than a c ≡ false

module _ {V W : Type 0} (vs : Versions V) (p : Sectors W) (content : W → ℕ → Bytes)
    (store : IsStore p content) (order : IsVersioning vs) (preorder : IsPreorder vs) where
  abbrev pub rpmb : Rpmb W
  rpmb = record { partition = some p }

  -- The OS's sector holds a version that is not before `v`.
  abbrev pub HoldsFrom : V → W → Type 0
  HoldsFrom v w =
      (u : V) × Holds vs p content store order w os_version_sector u × (vs.less_than u v ≡ false)

  pub same-HoldsFrom :
      (v : V) (w w' : W)
      → content w' os_version_sector ≡ content w os_version_sector
      → HoldsFrom v w
      → HoldsFrom v w'
  same-HoldsFrom v w w' e (u, held, fine) = (
    u,
    ap (λ c. stored_version vs (vs.decode (copy (replicate version_length 0) c))) e ∙ held,
    fine,
  )

  -- What a check of the OS that succeeds has found and left in the OS's sector.
  pub record Passed (s : Bytes) (w w' : W) : Type 0 where
    pub running : V
    pub stored : V
    pub parsed : vs.new_version s ≡ ok running
    pub held : Holds vs p content store order w os_version_sector stored
    pub not_older : vs.less_than running stored ≡ false
    pub kept_if :
        IsShort vs s
        → ((vs.equal stored running ≡ true)
            × Holds vs p content store order w' os_version_sector stored)
          ⊎ ((vs.less_than stored running ≡ true)
              × Holds vs p content store order w' os_version_sector running)

  pub check_version-Passed :
      (s : Bytes) (w w' : W)
      → check_version vs rpmb os_version_sector s w ≡ (ok tt, w')
      → Passed s w w'
  check_version-Passed s w w' h =
      let c =
        check_version-Found vs p content store order os_version_sector s w w' (omega arith) h in
      record {
        running = c.running;
        stored = c.stored;
        parsed = c.parsed;
        held = c.held;
        not_older = c.not_older;
        kept_if = c.kept_if;
      }

  -- From a sector that holds a version not before `v`.
  pub Passed-above :
      (v : V) (s : Bytes) (w w' : W)
      → (c : Passed s w w') → HoldsFrom v w
      → vs.less_than c.running v ≡ false
  Passed-above v s w w' c (u, held, fine) =
      let same : u ≡ c.stored = cc (sym held ∙ c.held) in
      let kept = subst (λ x. vs.less_than x v ≡ false) same fine in
      preorder.not_less_trans c.running c.stored v c.not_older kept

  -- What a check of the OS leaves behind is not before what it has checked.
  pub first-HoldsFrom :
      (s : Bytes) (w w' : W) → IsShort vs s → (c : Passed s w w') → HoldsFrom c.running w'
  first-HoldsFrom s w w' short c = elim (c.kept_if short) [
    | inl (same, h) ↦ (c.stored, h, preorder.equal_not_less c.stored c.running same)
    | inr (_, h) ↦ (c.running, h, preorder.irreflexive c.running)
  ]

  pub Passed-HoldsFrom :
      (v : V) (s : Bytes) (w w' : W) → IsShort vs s → Passed s w w' → HoldsFrom v w → HoldsFrom v w'
  Passed-HoldsFrom v s w w' short c held =
      let (u, holds, fine) = first-HoldsFrom s w w' short c in
      (u, holds, preorder.not_less_trans u c.running v fine (Passed-above v s w w' c held))
