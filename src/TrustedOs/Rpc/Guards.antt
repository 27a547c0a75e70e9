-- ===== src/TrustedOs/Rpc/Guards.antt =====
-- What the calls of trusted_os/rpc.go refuse, and what they leave alone.
use armored_witness_os.Base.{
  ℕ, ◌≤◌, ◌<◌, ◌≡◌, ◌⊎◌, inl, inr, ok, err, arith, Bool-cases, invalid_argument,
}
use armored_witness_os.TrustedOs.Rpc.{Receiver, EventHandler, register, is_applet_memory}

-- An address of the applet's 256 MiB.
abbrev pub IsAppletAddress : ℕ → Type 0
IsAppletAddress a = (0x90000000 ≤ a) × (a < 0xa0000000)

-- A handler is registered exactly when both its addresses lie in the applet's memory; otherwise the
-- call is refused and nothing changes.
pub register_lem :
    {W : Type 0} (h : EventHandler) (r : Receiver) (w : W)
    → (IsAppletAddress h.g
        × IsAppletAddress h.p
        × (register h (r, w) ≡ (ok tt, (record r { handler = h }, w))))
      ⊎ ((IsAppletAddress h.g → IsAppletAddress h.p → ⊥)
          × (register h (r, w) ≡ (err invalid_argument, (r, w))))
unfolding register is_applet_memory
register_lem h r w = elim (Bool-cases (is_applet_memory h.g)) [
  | inl g ↦ elim (Bool-cases (is_applet_memory h.p)) [
    | inl p ↦ inl (ground arith, ground arith, rw (g, p))
    | inr p ↦ inr (λ _ k. ground arith, rw (g, p))
  ]
  | inr g ↦ inr (λ k _. ground arith, rw g)
]
