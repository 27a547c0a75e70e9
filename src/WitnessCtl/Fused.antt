-- ===== src/WitnessCtl/Fused.antt =====
-- Fusing a device from witnessctl: main of cmd/witnessctl/witnessctl.go, HAB of trusted_os/ctl.go and
-- Activate of internal/hab/hab.go.
use armored_witness_os.Base.{
  ap₂, ℕ, ◌≡◌, ◌≢◌, ◌∙◌, refl, sym, ap, Bool, true, false, List, [], ◌∷◌, Bytes, bytes_equal→eq,
  codes, length, replicate, Result, ok, M, unbind, require, require-world, or_fail, or_fail-eq-ok,
  lift, ◌==◌, arith, srk_hash_invalid, srk_hash_wrong_size,
}
use armored_witness_os.Fuses.{Otp}
use armored_witness_os.Hab.{srk_size}
use armored_witness_os.Hab.Fused.{Burnt, closed_device, activate-Burnt}
use armored_witness_os.TrustedOs.Rpc.{Board}
use armored_witness_os.TrustedOs.Ctl
use armored_witness_os.TrustedOs.Ctl.{Response, error_response, empty_response, answer}
use armored_witness_os.WitnessCtl.Client
use armored_witness_os.WitnessCtl.Client.{checked, confirm}
use armored_witness_os.WitnessCtl.Client.Answers.{checked-eq-ok, answer-eq-ok}
use armored_witness_os.WitnessCtl.Devices.{
  DeviceInfo, Action, Flags, fuse_hab, is_witness, open_witnesses, detect, run, ask_status,
}
use armored_witness_os.WitnessCtl.Devices.Detected.{AllWitnesses, detect-AllWitnesses}
use armored_witness_os.WitnessCtl.Tool.{Host, perform, main}

lift-eq-ok :
    {W A : Type 0} (r : Result A) (a : A) (w v : W) → lift r w ≡ (ok a, v) → (r ≡ ok a) × (w ≡ v)
lift-eq-ok r a w v h = (ap (λ t. t.0) h, ap (λ t. t.1) h)

-- A device that has answered without an error has burnt its fuses.
hab-Burnt :
    {W : Type 0} (board : Board W) (otp : Otp W) (switch : Bytes → Bytes) (srk_hash : Result Bytes)
    (w w' : W)
    → Ctl.hab board otp switch srk_hash w ≡ (ok empty_response, w')
    → (srk : Bytes) × (v : W) × (srk_hash ≡ ok srk)
      × (board.snvs_available w ≡ (ok false, v))
      × (srk ≢ replicate srk_size 0)
      × Burnt otp (closed_device (switch srk)) v w'
unfolding Ctl.hab
hab-Burnt board otp switch srk_hash w w' h =
    unbind (or_fail (lift srk_hash) srk_hash_invalid) _ w (answer-eq-ok _ w' h) λ srk w1 e1 k1.
      unbind (require (length srk == srk_size) srk_hash_wrong_size) _ w1 k1 λ _ w2 e2 k2.
        let (parsed, same) =
          lift-eq-ok srk_hash srk w w1 (or_fail-eq-ok (lift srk_hash) srk_hash_invalid w e1) in
        let here = same ∙ require-world (length srk == srk_size) srk_hash_wrong_size w1 e2 in
        let (v, off, _, set, burnt) = activate-Burnt otp board.snvs_available switch srk w2 w' k2 in
        (srk, v, parsed, ap board.snvs_available here ∙ off, set, burnt)

-- A run with -H that succeeds has asked the first device, and the user has agreed.
run-asks :
    {W : Type 0} (act : Action → M W (Unit {0})) (f : Flags) (confirmed : Bool)
    (devs : List DeviceInfo) (w w' : W)
    → f.hab ≡ true
    → AllWitnesses devs
    → run act f confirmed devs w ≡ (ok tt, w')
    → (d : DeviceInfo) × (u : W) × (is_witness d ≡ true)
      × (confirmed ≡ true)
      × (act (fuse_hab d) u ≡ (ok tt, w'))
unfolding run
run-asks act f confirmed [] w w' hab all h = absurd (ground (arith, rw hab at h))
run-asks act f true (d ∷ ds) w w' hab (is, all) h =
    unbind (ask_status act d) _ w (rw hab at h) λ _ u e k. (d, u, is, refl, k)
run-asks act f false (d ∷ ds) w w' hab (is, all) h =
    unbind (ask_status act d) _ w (rw hab at h) λ _ u e k. absurd (ground (arith, k))

module _ {W S : Type 0} (host : Host W S) (fuel : ℕ) (boards : DeviceInfo → Board W)
    (otps : DeviceInfo → Otp W) (switch : Bytes → Bytes) (srk_hash : DeviceInfo → Result Bytes)
    (delivers : (d : DeviceInfo) (w : W)
      → host.ask_hab d w ≡ Ctl.hab (boards d) (otps d) switch (srk_hash d) w) where
  -- Where a device is asked to fuse itself by its control interface: a run of witnessctl with -H
  -- that succeeds had the answer y, and one witness found its SNVS not available and has burnt the
  -- fuses of a closed device with its built-in hash, which is not all zero, in order, each read
  -- back with its value.
  pub main-Burnt :
      (f : Flags) (answer : Bytes) (w w' : W)
      → f.hab ≡ true
      → main host fuel f answer w ≡ (ok tt, w')
      → (answer ≡ codes "y")
        × ((d : DeviceInfo) × (srk : Bytes) × (u : W) × (v : W) × (is_witness d ≡ true)
            × (srk_hash d ≡ ok srk)
            × ((boards d).snvs_available u ≡ (ok false, v))
            × (srk ≢ replicate srk_size 0)
            × Burnt (otps d) (closed_device (switch srk)) v w')
  unfolding main perform Client.hab
  main-Burnt f answer w w' hab h = unbind host.devices _ w h λ connected w1 e1 k1.
      unbind (detect (open_witnesses host.open_device connected) f.hid_path) _ w1 k1
        λ devs w2 e2 k2.
          let all = detect-AllWitnesses host.open_device f.hid_path connected devs w1 w2 e2 in
          let (d, u, is, said, done) =
            run-asks (perform host fuel) f (confirm answer) devs w2 w' hab all k2 in
          unbind (host.ask_hab d) checked u done λ rsp v e k.
            let (none_failed, same) = checked-eq-ok rsp v w' k in
            let (srk, x, parsed, off, set, burnt) =
              hab-Burnt (boards d) (otps d) switch (srk_hash d) u w'
                (sym (delivers d u) ∙ e ∙ ap₂ (λ r t. (ok r, t)) none_failed same) in
            (bytes_equal→eq answer (codes "y") said, (d, srk, u, x, is, parsed, off, set, burnt))
