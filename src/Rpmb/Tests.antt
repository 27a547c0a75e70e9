-- ===== src/Rpmb/Tests.antt =====
-- A small RPMB, and the package run against it.
use armored_witness_os.Base.{
  ℕ, ◌≡◌, ◌+◌, ◌==◌, if◌then◌else◌, true, refl, [], ◌∷◌, Bytes, length, replicate, ok, Result,
  put_uint32, ◌↔◌, bytes_equal,
}
use armored_witness_os.Rpmb.Frame.{
  DataFrame, IsFrame, Config, no_config, new_frame, to_bytes, signed_part, mac_region, frame_at,
  parse, counter_of, is_reliable, authenticated_data_write, result_read, write_counter_read,
  frame_length,
}
use armored_witness_os.Rpmb.Op.{
  Platform, Partition, with_request_mac, with_nonce, validate, op, counter, transfer_write,
  transfer_other, transfer,
}
use armored_witness_os.Rpmb.Device.{write, read}
use armored_witness_os.Rpmb.Codec.{parse-to_bytes}
use armored_witness_os.Rpmb.Accept.{Answers, validate_iff}
use armored_witness_os.Rpmb.Replay.{Written, ReadBack, write-Written, read-ReadBack}

-- A card that keeps a counter and the last request, and answers it.
abbrev Toy : Type 0
Toy = ℕ × DataFrame

abbrev toy_key : Bytes
toy_key = replicate 32 5

abbrev answer : ℕ → DataFrame → DataFrame
answer n req = record (new_frame 0) {
  key_mac = toy_key;
  payload = replicate 256 7;
  nonce = req.nonce;
  write_counter = put_uint32 n;
  resp = req.req;
}

abbrev counted : DataFrame → ℕ → ℕ
counted req n = if req.req == authenticated_data_write then n + 1 else n

abbrev keep : ℕ → DataFrame → DataFrame → Toy
keep n old new = if new.req == result_read then (n, old) else (counted new n, new)

abbrev toy : Platform Toy
toy = record {
  write_rpmb = λ buf rel w. (ok tt, keep w.0 w.1 (frame_at buf));
  read_rpmb = λ buf w. (ok (to_bytes (answer w.0 w.1)), w);
  rng = λ n w. (ok (replicate n 9), w);
  hmac = λ key msg. key;
}

abbrev partition : Partition
partition = record { key = toy_key; init = true }

abbrev start : Toy
start = (41, new_frame 0)

abbrev written : Result (Unit {0}) × Toy
written = write toy partition 3 (1 ∷ 2 ∷ []) start

written_ok : written ≡ (ok tt, written.1)
unfolding write transfer transfer_write op counter validate parse frame_at to_bytes signed_part
    mac_region with_nonce with_request_mac counter_of is_reliable bytes_equal
written_ok = refl

written_counter : written.1.0 ≡ 42
unfolding write transfer transfer_write op counter validate parse frame_at to_bytes signed_part
    mac_region with_nonce with_request_mac counter_of is_reliable bytes_equal
written_counter = refl

write-Written_example : Written toy partition 3 (1 ∷ 2 ∷ []) start written.1
write-Written_example = write-Written toy partition 3 (1 ∷ 2 ∷ []) start written.1 written_ok

abbrev read_back : Result Bytes × Toy
read_back = read toy partition 3 (0 ∷ 0 ∷ []) start

read_back_ok : read_back ≡ (ok (7 ∷ 7 ∷ []), read_back.1)
unfolding read transfer transfer_other op validate parse frame_at to_bytes signed_part mac_region
    with_nonce with_request_mac counter_of is_reliable bytes_equal
read_back_ok = refl

read-ReadBack_example : ReadBack toy partition 3 (0 ∷ 0 ∷ []) (7 ∷ 7 ∷ []) start read_back.1
read-ReadBack_example =
    read-ReadBack toy partition 3 (0 ∷ 0 ∷ []) (7 ∷ 7 ∷ []) start read_back.1 read_back_ok

abbrev counter_config : Config
counter_config = record no_config { random_nonce = true; response_mac = true }

abbrev exchanged : Result DataFrame × Toy
exchanged = op toy partition (new_frame write_counter_read) counter_config start

abbrev asked : DataFrame
asked = record (new_frame write_counter_read) { nonce = replicate 16 9 }

exchanged_ok : exchanged ≡ (ok (answer 41 asked), exchanged.1)
unfolding op validate parse frame_at to_bytes signed_part mac_region with_nonce with_request_mac
    is_reliable bytes_equal
exchanged_ok = refl

validate_iff_example :
    (validate toy partition counter_config asked (to_bytes (answer 41 asked)) (answer 41 asked)
      ≡ ok (answer 41 asked))
    ↔ Answers toy partition counter_config asked (to_bytes (answer 41 asked)) (answer 41 asked)
validate_iff_example =
    validate_iff toy partition counter_config asked (to_bytes (answer 41 asked)) (answer 41 asked)

answer-IsFrame : IsFrame (answer 41 asked)
answer-IsFrame = record {
  stuff_length = refl;
  mac_length = refl;
  payload_length = refl;
  nonce_length = refl;
  counter_length = refl;
  address_length = refl;
  block_length = refl;
  result_length = refl;
}

parse-to_bytes_example :
    (length (to_bytes (answer 41 asked)) ≡ frame_length)
    × (parse (to_bytes (answer 41 asked)) ≡ ok (answer 41 asked))
    × (mac_region (to_bytes (answer 41 asked)) ≡ signed_part (answer 41 asked))
parse-to_bytes_example = parse-to_bytes (answer 41 asked) answer-IsFrame
