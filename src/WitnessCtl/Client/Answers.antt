-- ===== src/WitnessCtl/Client/Answers.antt =====
-- What the answers of a device mean: the error code of a response (cmd/witnessctl/api.go), which the
-- handlers of trusted_os/ctl.go give.
use armored_witness_os.Base.{◌≡◌, refl, ap, Result, ok, err, halt, arith}
use armored_witness_os.TrustedOs.Ctl.{Response, error_response, empty_response, answer}
use armored_witness_os.WitnessCtl.Client.{checked}

pub checked-eq-ok :
    {W : Type 0} (rsp : Response) (w w' : W)
    → checked rsp w ≡ (ok tt, w')
    → (rsp ≡ empty_response) × (w ≡ w')
checked-eq-ok (error_response e) w w' h = ground arith
checked-eq-ok empty_response w w' h = (refl, ap (λ r. r.1) h)

pub answer-eq-ok :
    {W : Type 0} (r : Result (Unit {0}) × W) (w' : W)
    → answer r ≡ (ok empty_response, w')
    → r ≡ (ok tt, w')
answer-eq-ok (ok tt, w) w' h = ap (λ t. (ok tt, t)) (ap (λ r. r.1) h)
answer-eq-ok (err e, w) w' h = ground arith
answer-eq-ok (halt, w) w' h = ground arith
