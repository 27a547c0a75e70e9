-- ===== src/ProofBundle/Tests.antt =====
-- A run of cmd/proofbundle over a log of one manifest in a file.
use armored_witness_os.Base.{
  ◌≡◌, true, refl, [], ◌∷◌, Bytes, bytes_equal, codes, ok, err, no_devices, if◌then◌else◌, ◌>>=◌,
  pure, fail, none, ◌++◌, ℕ, M, Keeps, pure-Keeps, bind-Keeps, if-Keeps, fail-Keeps, subst, ap,
  Result, halt,
}
use armored_witness_os.ProofBundle.{
  Flags, Platform, Urls, Transparency, main, verifier_or_die, load_manifest_or_die,
  new_fetcher_or_die, get_by_scheme,
}
use armored_witness_os.ProofBundle.Published.{IsReading, Outcome, main-Published}

-- Files that all hold their own name, and the bytes that are written.
abbrev os : Platform Bytes
os = record {
  read_file = λ name w. (ok name, w);
  write_file = λ name b w. (ok tt, w ++ b);
  get = λ url w. (ok (200, pure url), w);
}

abbrev urls : Urls Bytes
urls = record {
  parse = λ b. ok b;
  scheme = λ u. codes "file";
  path = λ u. u;
  text = λ u. u;
  resolve = λ u b. ok b;
}

-- A log that holds one manifest, the bytes 6.
abbrev ft : Transparency Bytes Bytes Bytes
ft = record {
  new_verifier = λ b. ok b;
  open_note = λ b key. if bytes_equal b (6 ∷ []) then ok b else err no_devices;
  parse_release = λ b. ok tt;
  hash_leaf = λ b. b;
  new_tracker = λ f key origin w. ((origin, none), w);
  update = λ t. pure t;
  lookup_index =
      λ f b. f b >>= λ found. if bytes_equal found (6 ∷ []) then pure 0 else fail no_devices;
  inclusion_proof = λ t i. pure [];
  latest_consistent_raw = λ t. t;
  verify = λ origin key keys bundle.
      if bytes_equal bundle.checkpoint origin then ok tt else err no_devices;
  encode = λ b. (b.manifest, true);
}

abbrev flags : Flags
flags = record {
  output_file = 1 ∷ [];
  log_url = 2 ∷ [];
  log_origin = 3 ∷ [];
  log_pub_key_file = 4 ∷ [];
  applet_file = 5 ∷ [];
  manifest_file = 6 ∷ [];
  manifest_pub_key_file = 7 ∷ [];
}

-- Nothing has been written.
abbrev IsBlank : Bytes → Type 0
IsBlank w = w ≡ []

abbrev body_in : Result (ℕ × M Bytes Bytes) → M Bytes Bytes
body_in (ok r) = r.1
body_in (err e) = pure []
body_in halt = pure []

body_kept :
    (url w v : Bytes) (code : ℕ) (body : M Bytes Bytes)
    → os.get url w ≡ (ok (code, body), v)
    → Keeps IsBlank body
body_kept url w v code body e =
    subst (λ m. Keeps IsBlank m) (ap (λ q. body_in q.0) e) (pure-Keeps url)

reading : IsReading os urls ft IsBlank
reading = record {
  reads = λ file. pure-Keeps file;
  gets = λ url. pure-Keeps (200, pure url);
  bodies = body_kept;
  tracks = λ f key origin fetches. pure-Keeps origin;
  updates = λ t. pure-Keeps t;
  looks_up = λ f b fetches.
      bind-Keeps _ _ (fetches b)
        (λ found. if-Keeps (bytes_equal found (6 ∷ [])) _ _ (pure-Keeps 0) (fail-Keeps no_devices));
  proves = λ t i. pure-Keeps [];
}

main_ok : main os urls ft flags [] ≡ (ok tt, 6 ∷ [])
unfolding main verifier_or_die load_manifest_or_die new_fetcher_or_die get_by_scheme bytes_equal
main_ok = refl

main-Published_example : Outcome os urls ft IsBlank reading flags (main os urls ft flags [])
main-Published_example = main-Published os urls ft IsBlank reading flags [] refl
