-- ===== src/Rpmb/Codec.antt =====
-- The data frame as bytes (`DataFrame.Bytes` and `binary.Read` of rpmb/op.go).
use armored_witness_os.Base.{
  ◌≡◌, refl, ◌∙◌, ap, ◌∷◌, ◌++◌, [], Bytes, length, take, drop, length-append, take-append,
  drop-append, drop_next, ok, arith,
}
use armored_witness_os.Rpmb.Frame.{
  DataFrame, IsFrame, to_bytes, signed_part, mac_region, parse, frame_at, frame_length, first,
}

module _ (f : DataFrame) where
  -- What follows each field.
  abbrev flags : Bytes
  flags = f.resp ∷ f.req ∷ []

  abbrev from_result : Bytes
  from_result = f.op_result ++ flags

  abbrev from_block : Bytes
  from_block = f.block_count ++ from_result

  abbrev from_address : Bytes
  from_address = f.address ++ from_block

  abbrev from_counter : Bytes
  from_counter = f.write_counter ++ from_address

  abbrev from_nonce : Bytes
  from_nonce = f.nonce ++ from_counter

module _ (f : DataFrame) (v : IsFrame f) where
  pub length-to_bytes : length (to_bytes f) ≡ frame_length
  unfolding to_bytes signed_part
  length-to_bytes = simp length-append (omega arith)

  at_196 : drop 196 (to_bytes f) ≡ f.key_mac ++ signed_part f
  unfolding to_bytes
  at_196 = drop-append 196 f.stuff_bytes _ v.stuff_length

  at_228 : drop 228 (to_bytes f) ≡ signed_part f
  at_228 = drop_next 196 32 (to_bytes f) f.key_mac _ at_196 v.mac_length

  at_484 : drop 484 (to_bytes f) ≡ from_nonce f
  unfolding signed_part
  at_484 = drop_next 228 256 (to_bytes f) f.payload _ at_228 v.payload_length

  at_500 : drop 500 (to_bytes f) ≡ from_counter f
  at_500 = drop_next 484 16 (to_bytes f) f.nonce _ at_484 v.nonce_length

  at_504 : drop 504 (to_bytes f) ≡ from_address f
  at_504 = drop_next 500 4 (to_bytes f) f.write_counter _ at_500 v.counter_length

  at_506 : drop 506 (to_bytes f) ≡ from_block f
  at_506 = drop_next 504 2 (to_bytes f) f.address _ at_504 v.address_length

  at_508 : drop 508 (to_bytes f) ≡ from_result f
  at_508 = drop_next 506 2 (to_bytes f) f.block_count _ at_506 v.block_length

  at_510 : drop 510 (to_bytes f) ≡ flags f
  at_510 = drop_next 508 2 (to_bytes f) f.op_result _ at_508 v.result_length

  at_511 : drop 511 (to_bytes f) ≡ f.req ∷ []
  at_511 = drop_next 510 1 (to_bytes f) (f.resp ∷ []) _ at_510 refl

  frame_at-to_bytes : frame_at (to_bytes f) ≡ f
  unfolding frame_at to_bytes signed_part
  frame_at-to_bytes = λ i. record {
    stuff_bytes = take-append 196 f.stuff_bytes (f.key_mac ++ signed_part f) v.stuff_length i;
    key_mac = (ap (take 32) at_196 ∙ take-append 32 f.key_mac _ v.mac_length) i;
    payload = (ap (take 256) at_228 ∙ take-append 256 f.payload _ v.payload_length) i;
    nonce = (ap (take 16) at_484 ∙ take-append 16 f.nonce _ v.nonce_length) i;
    write_counter = (ap (take 4) at_500 ∙ take-append 4 f.write_counter _ v.counter_length) i;
    address = (ap (take 2) at_504 ∙ take-append 2 f.address _ v.address_length) i;
    block_count = (ap (take 2) at_506 ∙ take-append 2 f.block_count _ v.block_length) i;
    op_result = (ap (take 2) at_508 ∙ take-append 2 f.op_result _ v.result_length) i;
    resp = ap first at_510 i;
    req = ap first at_511 i;
  }

  -- A frame whose arrays have their lengths takes 512 bytes, reads back from them as itself, and
  -- what its MAC covers is all of it but the stuff bytes and the MAC.
  pub parse-to_bytes :
      (length (to_bytes f) ≡ frame_length)
      × (parse (to_bytes f) ≡ ok f)
      × (mac_region (to_bytes f) ≡ signed_part f)
  unfolding parse mac_region
  parse-to_bytes = (length-to_bytes, rw (length-to_bytes) (ap ok frame_at-to_bytes), at_228)
