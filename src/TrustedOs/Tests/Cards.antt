-- ===== src/TrustedOs/Tests/Cards.antt =====
-- A card that keeps its laws: a partition over it is a store.
use armored_witness_os.Base.{
  ℕ, ◌+◌, ◌%◌, ◌^◌, ◌≡◌, ◌≢◌, ◌⊎◌, ◌∙◌, refl, sym, ap, ◌==◌, if◌then◌else◌, true, Bytes, replicate,
  copy, copy_full, length-copy, uint16, put_uint32, Result, ok, err, halt, arith,
}
use armored_witness_os.Rpmb.Frame.{
  DataFrame, IsFrame, new_frame, to_bytes, parse, result_read, authenticated_data_write,
  authenticated_data_read,
}
use armored_witness_os.Rpmb.Op.{Platform, Partition}
use armored_witness_os.Rpmb.Codec.{parse-to_bytes}
use armored_witness_os.Rpmb.Card.{IsCard, new_frame-IsFrame}
use armored_witness_os.TrustedOs.Rollback.{sectors_of}
use armored_witness_os.TrustedOs.Rollback.Store.{IsStore}
use armored_witness_os.TrustedOs.Rollback.Refine.{sectors_of-IsStore}

pub record State : Type 0 where
  pub sectors : ℕ → Bytes
  pub counter : ℕ
  pub last : DataFrame

abbrev pub key : Bytes
key = replicate 32 5

abbrev pub content : State → ℕ → Bytes
content s o = copy (replicate 256 0) (s.sectors o)

abbrev pub answer : State → DataFrame
answer s = record (new_frame 0) {
  key_mac = key;
  payload = content s (uint16 s.last.address);
  nonce = copy (replicate 16 0) s.last.nonce;
  write_counter = put_uint32 s.counter;
  resp = s.last.req;
}

abbrev pub put : ℕ → Bytes → (ℕ → Bytes) → ℕ → Bytes
put o b sectors i = if i == o then b else sectors i

unfoldable pub step : DataFrame → State → State
step f s =
    if f.req == result_read
    then s
    else if f.req == authenticated_data_write
    then record {
      sectors = put (uint16 f.address) f.payload s.sectors;
      counter = (s.counter + 1) % 2 ^ 32;
      last = f;
    }
    else record s { last = f }

abbrev pub receive : Result DataFrame → State → State
receive (ok f) s = step f s
receive (err e) s = s
receive halt s = s

abbrev pub platform : Platform State
platform = record {
  write_rpmb = λ buf rel s. (ok tt, receive (parse buf) s);
  read_rpmb = λ buf s. (ok (to_bytes (answer s)), s);
  rng = λ n s. (ok (replicate n 9), s);
  hmac = λ k msg. k;
}

answer-IsFrame : (s : State) → IsFrame (answer s)
answer-IsFrame s = record {
  stuff_length = refl;
  mac_length = refl;
  payload_length = length-copy (replicate 256 0) (s.sectors (uint16 s.last.address));
  nonce_length = length-copy (replicate 16 0) s.last.nonce;
  counter_length = refl;
  address_length = refl;
  block_length = refl;
  result_length = refl;
}

-- A frame that is sent is received as itself.
received : (f : DataFrame) (s : State) → IsFrame f → receive (parse (to_bytes f)) s ≡ step f s
received f s v = rw ((parse-to_bytes f v).1)

step-keeps :
    (f : DataFrame) (s : State) (o : ℕ)
    → (f.req ≢ authenticated_data_write) ⊎ (o ≢ uint16 f.address)
    → content (step f s) o ≡ content s o
unfolding step
step-keeps f s o other = ground arith

step_read :
    (f : DataFrame) (s : State) → f.req ≡ authenticated_data_read → step f s ≡ record s { last = f }
unfolding step
step_read f s h = ground arith

step_write :
    (f : DataFrame) (s : State)
    → f.req ≡ authenticated_data_write
    → (step f s).sectors (uint16 f.address) ≡ f.payload
unfolding step
step_write f s h = ground arith

step_result : (s : State) → step (new_frame result_read) s ≡ s
unfolding step
step_result s = refl

pub platform-IsCard : IsCard platform key content
platform-IsCard = record {
  rng_keeps = λ n w o. refl;
  response_keeps = λ b w o. refl;
  request_keeps =
      λ f rel w o v other. ap (λ s. content s o) (received f w v) ∙ step-keeps f w o other;
  reads = λ f res buf w v v' framed is_read sent got parsed authentic typed fresh fine.
      let arrived : record w { last = f } ≡ v =
        sym (received f w framed ∙ step_read f w is_read) ∙ ap (λ r. r.1) sent in
      let told : to_bytes (answer v) ≡ buf = cc (ap (λ r. r.0) got) in
      let same : res ≡ answer v =
        cc (sym parsed ∙ ap parse (sym told) ∙ (parse-to_bytes (answer v) (answer-IsFrame v)).1) in
      ap (λ g. g.payload) same ∙ ap (λ s. content s (uint16 s.last.address)) (sym arrived);
  writes = λ f res buf w u v v' framed is_write sent asked got parsed authentic typed fine counted.
      let arrived : step f w ≡ u = sym (received f w framed) ∙ ap (λ r. r.1) sent in
      let kept : u ≡ v =
        sym (received (new_frame result_read) u (new_frame-IsFrame result_read) ∙ step_result u)
        ∙ ap (λ r. r.1) asked in
      let last_one : v ≡ v' = ap (λ r. r.1) got in
      ap (λ s. content s (uint16 f.address)) (sym (arrived ∙ kept ∙ last_one))
      ∙ ap (copy (replicate 256 0)) (step_write f w is_write)
      ∙ copy_full (replicate 256 0) f.payload framed.payload_length;
}

abbrev partition : Partition
partition = record { key = key; init = true }

sectors_of-IsStore_example : IsStore (sectors_of platform partition) content
sectors_of-IsStore_example = sectors_of-IsStore platform partition content platform-IsCard
