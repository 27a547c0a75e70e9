-- ===== src/ProofBundle.antt =====
-- cmd/proofbundle/main.go: the tool that makes the proof bundle of an applet.
pub mod Published
pub mod Tests
use armored_witness_os.Base.{
  ℕ, Bool, true, false, List, [], ◌∷◌, Bytes, bytes_equal, codes, ◌==◌, if◌then◌else◌, Option, none,
  some, Result, ok, err, halt, M, ◌>>=◌, ◌>>◌, pure, fail, lift, not_exist, unexpected_status,
}
use armored_witness_os.TrustedOs.Firmware.{Bundle}

-- `klog.Exitf` after an error
abbrev pub exited : {A W : Type 0} → Result A × W → Result A × W
exited (ok a, w) = (ok a, w)
exited (err e, w) = (halt, w)
exited (halt, w) = (halt, w)

abbrev pub or_exit : {A W : Type 0} → M W A → M W A
or_exit m w = exited (m w)

-- The tool's flags.
pub record Flags : Type 0 where
  pub output_file : Bytes
  pub log_url : Bytes
  pub log_origin : Bytes
  pub log_pub_key_file : Bytes
  pub applet_file : Bytes
  pub manifest_file : Bytes
  pub manifest_pub_key_file : Bytes

-- Files, and the web: a response is a status and a body that is still to be read.
pub record Platform (W : Type 0) : Type 0 where
  pub read_file : Bytes → M W Bytes
  pub write_file : Bytes → Bytes → M W (Unit {0})
  pub get : Bytes → M W (ℕ × M W Bytes)

-- The package net/url.
pub record Urls (U : Type 0) : Type 0 where
  pub parse : Bytes → Result U
  pub scheme : U → Bytes
  pub path : U → Bytes
  pub text : U → Bytes
  pub resolve : U → Bytes → Result U

abbrev pub Fetcher : Type 0 → Type 0
Fetcher W = Bytes → M W Bytes

module _ {W U : Type 0} (os : Platform W) (urls : Urls U) where
  abbrev pub body_of : ℕ → M W Bytes → M W Bytes
  body_of code body =
      if code == 404 then fail not_exist else if code == 200 then body else fail unexpected_status

  -- `readHTTP`
  unfoldable pub read_http : U → M W Bytes
  read_http u = os.get (urls.text u) >>= λ (response : ℕ × M W Bytes). body_of response.0 response.1

  -- `getByScheme`
  unfoldable pub get_by_scheme : Bytes → Option (U → M W Bytes)
  get_by_scheme scheme =
      if bytes_equal scheme (codes "http")
      then some read_http
      else if bytes_equal scheme (codes "https")
      then some read_http
      else if bytes_equal scheme (codes "file")
      then some (λ u. os.read_file (urls.path u))
      else none

  abbrev pub fetch_below : U → (U → M W Bytes) → Fetcher W
  fetch_below root get p = lift (urls.resolve root p) >>= get

  -- `newFetcherOrDie`
  unfoldable pub new_fetcher_or_die : Bytes → M W (Fetcher W)
  new_fetcher_or_die log_url = or_exit (lift (urls.parse log_url)) >>= λ root.
      elim (get_by_scheme (urls.scheme root)) [
        | none ↦ λ w. (halt, w)
        | some get ↦ pure (fetch_below root get)
      ]

-- The packages note, json, rfc6962 and gob, the log's client, and the bundle verifier of the package
-- armored-witness-common. `T` is the state tracker of a log.
pub record Transparency (K T W : Type 0) : Type 0 where
  pub new_verifier : Bytes → Result K
  -- the text of a note that a key has signed, and a firmware release in it
  pub open_note : Bytes → K → Result Bytes
  pub parse_release : Bytes → Result (Unit {0})
  pub hash_leaf : Bytes → Bytes
  -- a tracker, and an error beside it
  pub new_tracker : Fetcher W → K → Bytes → W → (T × Option Bytes) × W
  pub update : T → M W T
  pub lookup_index : Fetcher W → Bytes → M W ℕ
  pub inclusion_proof : T → ℕ → M W (List Bytes)
  pub latest_consistent_raw : T → Bytes
  pub verify : Bytes → K → List K → Bundle → Result (Unit {0})
  -- what an encoder has written, and whether it has met an error
  pub encode : Bundle → Bytes × Bool

module _ {K T U W : Type 0} (os : Platform W) (urls : Urls U) (ft : Transparency K T W) where
  -- `verifierOrDie`
  unfoldable pub verifier_or_die : Bytes → M W K
  verifier_or_die p = do vs ← or_exit (os.read_file p); or_exit (lift (ft.new_verifier vs))

  -- `loadManifestOrDie`, less the release, which is not used
  unfoldable pub load_manifest_or_die : Bytes → K → M W Bytes
  load_manifest_or_die p v = do
    b ← or_exit (os.read_file p)
    text ← or_exit (lift (ft.open_note b v))
    or_exit (lift (ft.parse_release text))
    pure b

  -- The tracker; the error beside it is not looked at.
  abbrev pub new_tracker : Fetcher W → K → Bytes → M W T
  new_tracker fetcher v origin w =
      let (made, v') = ft.new_tracker fetcher v origin w in (ok made.0, v')

  abbrev pub bundle_of : Bytes → ℕ → List Bytes → Bytes → Bytes → Bundle
  bundle_of checkpoint idx proof manifest firmware = record {
    checkpoint = checkpoint;
    index = idx;
    inclusion_proof = proof;
    manifest = manifest;
    firmware = firmware;
  }

  -- `main`. The encoder's error is not looked at either: the test that follows is of an earlier one.
  unfoldable pub main : Flags → M W (Unit {0})
  main flags = do
    mv ← verifier_or_die flags.manifest_pub_key_file
    manifest ← load_manifest_or_die flags.manifest_file mv
    fw ← or_exit (os.read_file flags.applet_file)
    fetcher ← new_fetcher_or_die os urls flags.log_url
    lv ← verifier_or_die flags.log_pub_key_file
    made ← new_tracker fetcher lv flags.log_origin
    lst ← or_exit (ft.update made)
    idx ← or_exit (ft.lookup_index fetcher (ft.hash_leaf manifest))
    proof ← or_exit (ft.inclusion_proof lst idx)
    let bundle = bundle_of (ft.latest_consistent_raw lst) idx proof manifest fw
    or_exit (lift (ft.verify flags.log_origin lv (mv ∷ []) bundle))
    or_exit (os.write_file flags.output_file (ft.encode (record bundle { firmware = [] })).0)
