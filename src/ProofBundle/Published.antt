-- ===== src/ProofBundle/Published.antt =====
-- What cmd/proofbundle publishes: `main` of cmd/proofbundle/main.go.
use armored_witness_os.Base.{
  ◌≡◌, ◌≢◌, ◌∙◌, ◌⊎◌, inl, inr, refl, ap, sym, subst, ℕ, Bool-cases, bytes_equal, codes, ◌==◌,
  Option, some, none, [], ◌∷◌, Bytes, Result, ok, err, halt, M, ◌>>=◌, next, unbind, pure-eq, pure,
  lift, arith, Keeps, bind-Keeps, bind_at-Keeps, pure-Keeps, fail-Keeps, lift-Keeps, if-Keeps,
  not_exist, unexpected_status,
}
use armored_witness_os.TrustedOs.Firmware.{Bundle}
use armored_witness_os.ProofBundle.{
  exited, or_exit, Flags, Platform, Urls, Transparency, bundle_of, verifier_or_die,
  load_manifest_or_die, new_fetcher_or_die, new_tracker, main, Fetcher, read_http, get_by_scheme,
  fetch_below,
}

or_exit-eq-ok :
    {A W : Type 0} (m : M W A) (w : W) {a : A} {v : W} → or_exit m w ≡ (ok a, v) → m w ≡ (ok a, v)
or_exit-eq-ok m w h = go (m w) h
  where
    go : {A W : Type 0} (r : Result A × W) {a : A} {v : W} → exited r ≡ (ok a, v) → r ≡ (ok a, v)
    go (ok a, v) h = h
    go (err _, v) h = ground arith
    go (halt, v) h = ground arith

module _ {K T U W : Type 0} (os : Platform W) (urls : Urls U) (ft : Transparency K T W) where
  -- A note that was read from a file and bears the signature of a key.
  pub record Signed (file : Bytes) (key : K) (note : Bytes) : Type 0 where
    pub before : W
    pub after : W
    pub text : Bytes
    pub was_read : os.read_file file before ≡ (ok note, after)
    pub opened : ft.open_note note key ≡ ok text
    pub release : ft.parse_release text ≡ ok tt

  -- A key that was read from a file.
  pub record KeyFrom (file : Bytes) (key : K) : Type 0 where
    pub before : W
    pub after : W
    pub text : Bytes
    pub was_read : os.read_file file before ≡ (ok text, after)
    pub made : ft.new_verifier text ≡ ok key

  verifier_or_die-KeyFrom :
      (file : Bytes) (key : K) (w w' : W)
      → verifier_or_die os urls ft file w ≡ (ok key, w')
      → KeyFrom file key
  unfolding verifier_or_die
  verifier_or_die-KeyFrom file key w w' h = unbind (or_exit (os.read_file file)) _ w h λ vs v e k.
      record {
        before = w;
        after = v;
        text = vs;
        was_read = or_exit-eq-ok (os.read_file file) w e;
        made = ap (λ r. r.0) (or_exit-eq-ok (lift (ft.new_verifier vs)) v k);
      }

  load_manifest_or_die-Signed :
      (file : Bytes) (key : K) (note : Bytes) (w w' : W)
      → load_manifest_or_die os urls ft file key w ≡ (ok note, w')
      → Signed file key note
  unfolding load_manifest_or_die
  load_manifest_or_die-Signed file key note w w' h =
      unbind (or_exit (os.read_file file)) _ w h λ b v e k.
        unbind (or_exit (lift (ft.open_note b key))) _ v k λ text x e' k'.
          unbind (or_exit (lift (ft.parse_release text))) _ x k' λ _ y e'' k''.
            let same : b ≡ note = (pure-eq k'').0 in
            record {
              before = w;
              after = v;
              text = text;
              was_read = or_exit-eq-ok (os.read_file file) w e ∙ ap (λ t. (ok t, v)) same;
              opened =
                  ap (λ t. ft.open_note t key) (sym same)
                  ∙ ap (λ r. r.0) (or_exit-eq-ok (lift (ft.open_note b key)) v e');
              release = ap (λ r. r.0) (or_exit-eq-ok (lift (ft.parse_release text)) x e'');
            }

  -- What only reads keeps of the world: files, the web, and the log's client where its fetcher does.
  pub record IsReading (P : W → Type 0) : Type 0 where
    pub reads : (file : Bytes) → Keeps P (os.read_file file)
    pub gets : (url : Bytes) → Keeps P (os.get url)
    pub bodies :
        (url : Bytes) (w v : W) (code : ℕ) (body : M W Bytes)
        → os.get url w ≡ (ok (code, body), v)
        → Keeps P body
    pub tracks :
        (f : Fetcher W) (key : K) (origin : Bytes)
        → ((p : Bytes) → Keeps P (f p))
        → Keeps P (new_tracker os urls ft f key origin)
    pub updates : (t : T) → Keeps P (ft.update t)
    pub looks_up :
        (f : Fetcher W) (leaf : Bytes)
        → ((p : Bytes) → Keeps P (f p))
        → Keeps P (ft.lookup_index f leaf)
    pub proves : (t : T) (index : ℕ) → Keeps P (ft.inclusion_proof t index)

  module _ (P : W → Type 0) (reading : IsReading P) where
    -- A run that ends as its one write ends, before which it has only read: the write of what the
    -- encoder made of a bundle less its firmware. With the firmware, read from the applet's file, and a
    -- manifest, read from its file and signed by the manifest key, that bundle has been verified.
    pub record Published (flags : Flags) (q : Result (Unit {0}) × W) : Type 0 where
      pub manifest_key : K
      pub log_key : K
      pub bundle : Bundle
      pub manifest_keyed : KeyFrom flags.manifest_pub_key_file manifest_key
      pub log_keyed : KeyFrom flags.log_pub_key_file log_key
      pub signed : Signed flags.manifest_file manifest_key bundle.manifest
      pub before : W
      pub after : W
      pub applet : os.read_file flags.applet_file before ≡ (ok bundle.firmware, after)
      pub verified : ft.verify flags.log_origin log_key (manifest_key ∷ []) bundle ≡ ok tt
      pub ready : W
      pub unwritten : P ready
      pub written :
          or_exit
            (os.write_file flags.output_file (ft.encode (record bundle { firmware = [] })).0)
            ready
          ≡ q

    -- A run has only read and does not end well, or it ends with the write of a verified bundle.
    abbrev pub Outcome : Flags → Result (Unit {0}) × W → Type 0
    Outcome flags q = (P q.1 × (q.0 ≢ ok tt)) ⊎ Published flags q

    next-Outcome :
        {A : Type 0} (flags : Flags) (f : A → M W (Unit {0})) (r : Result A × W)
        → P r.1
        → ((a : A) (v : W) → r ≡ (ok a, v) → P v → Outcome flags (f a v))
        → Outcome flags (next f r)
    next-Outcome flags f (ok a, v) kept k = k a v refl kept
    next-Outcome flags f (err e, v) kept k = inl (kept, λ x. cc)
    next-Outcome flags f (halt, v) kept k = inl (kept, λ x. cc)

    step :
        {A : Type 0} (flags : Flags) (m : M W A) (f : A → M W (Unit {0})) (w : W)
        → Keeps P m
        → P w
        → ((a : A) (v : W) → m w ≡ (ok a, v) → P v → Outcome flags (f a v))
        → Outcome flags ((m >>= f) w)
    step flags m f w keeps kept k = next-Outcome flags f (m w) (keeps.at w kept) k

    or_exit-Keeps : {A : Type 0} (m : M W A) → Keeps P m → Keeps P (or_exit m)
    or_exit-Keeps m k = record { at = λ w h. subst P (sym (same (m w))) (k.at w h) }
      where
        same : {A : Type 0} (r : Result A × W) → (exited r).1 ≡ r.1
        same (ok a, v) = refl
        same (err e, v) = refl
        same (halt, v) = refl

    verifier_or_die-Keeps : (file : Bytes) → Keeps P (verifier_or_die os urls ft file)
    unfolding verifier_or_die
    verifier_or_die-Keeps file =
        bind-Keeps _ _ (or_exit-Keeps _ (reading.reads file))
          (λ vs. or_exit-Keeps _ (lift-Keeps (ft.new_verifier vs)))

    load_manifest_or_die-Keeps :
        (file : Bytes) (key : K) → Keeps P (load_manifest_or_die os urls ft file key)
    unfolding load_manifest_or_die
    load_manifest_or_die-Keeps file key =
        bind-Keeps _ _ (or_exit-Keeps _ (reading.reads file)) (λ b.
          bind-Keeps _ _ (or_exit-Keeps _ (lift-Keeps (ft.open_note b key))) (λ text.
            bind-Keeps _ _ (or_exit-Keeps _ (lift-Keeps (ft.parse_release text)))
              (λ _. pure-Keeps b)))

    read_http-Keeps : (u : U) → Keeps P (read_http os urls u)
    unfolding read_http
    read_http-Keeps u = bind_at-Keeps _ _ (reading.gets (urls.text u)) (λ response w v e.
        if-Keeps (response.0 == 404) _ _ (fail-Keeps not_exist) (
          if-Keeps (response.0 == 200) _ _
            (reading.bodies (urls.text u) w v response.0 response.1 e)
            (fail-Keeps unexpected_status)))

    get_by_scheme-Keeps :
        (scheme : Bytes) (get : U → M W Bytes) (u : U)
        → get_by_scheme os urls scheme ≡ some get
        → Keeps P (get u)
    unfolding get_by_scheme
    get_by_scheme-Keeps scheme get u h = elim (Bool-cases (bytes_equal scheme (codes "http"))) [
      | inl http ↦
          let same : read_http os urls ≡ get = cc (rw http at h) in
          subst (λ g. Keeps P (g u)) same (read_http-Keeps u)
      | inr other ↦ elim (Bool-cases (bytes_equal scheme (codes "https"))) [
        | inl https ↦
            let same : read_http os urls ≡ get = cc (rw (other, https) at h) in
            subst (λ g. Keeps P (g u)) same (read_http-Keeps u)
        | inr other' ↦ elim (Bool-cases (bytes_equal scheme (codes "file"))) [
          | inl file ↦
              let same : (λ (x : U). os.read_file (urls.path x)) ≡ get =
                cc (rw (other, other', file) at h) in
              subst (λ g. Keeps P (g u)) same (reading.reads (urls.path u))
          | inr none_fits ↦ absurd (cc (rw (other, other', none_fits) at h))
        ]
      ]
    ]

    fetcher-Keeps :
        (log_url : Bytes) (f : Fetcher W) (w v : W)
        → new_fetcher_or_die os urls log_url w ≡ (ok f, v)
        → (p : Bytes) → Keeps P (f p)
    unfolding new_fetcher_or_die
    fetcher-Keeps log_url f w v h p =
        unbind (or_exit (lift (urls.parse log_url))) _ w h
          λ root x e k. go root x (get_by_scheme os urls (urls.scheme root)) refl k
      where
        go :
            (root : U) (x : W) (q : Option (U → M W Bytes))
            → get_by_scheme os urls (urls.scheme root) ≡ q
            → (elim q as (λ o. M W (Fetcher W)) [
              | none ↦ (λ w. (halt, w))
              | some get ↦ pure (fetch_below os urls root get)
            ])
                x
              ≡ (ok f, v)
            → Keeps P (f p)
        go root x none e k = absurd (cc (ap (λ r. r.0) k))
        go root x (some get) e k =
            subst (λ g. Keeps P (g p)) (pure-eq k).0
              (bind-Keeps _ _ (lift-Keeps (urls.resolve root p))
                (λ u. get_by_scheme-Keeps (urls.scheme root) get u e))

    new_fetcher_or_die-Keeps : (log_url : Bytes) → Keeps P (new_fetcher_or_die os urls log_url)
    unfolding new_fetcher_or_die
    new_fetcher_or_die-Keeps log_url =
        bind-Keeps _ _ (or_exit-Keeps _ (lift-Keeps (urls.parse log_url)))
          (λ root. go root (get_by_scheme os urls (urls.scheme root)))
      where
        go :
            (root : U) (q : Option (U → M W Bytes))
            → Keeps P (elim q [
              | none ↦ (λ w. (halt, w))
              | some get ↦ pure (fetch_below os urls root get)
            ])
        go root none = record { at = λ w h. h }
        go root (some get) = record { at = λ w h. h }

    -- Whatever holds of the world and is kept by reading, from files, the web and the log: if it
    -- holds before a run of the tool, then it holds after the run and that did not end well, or it
    -- holds up to the write with which the run ends and that ends it as it ends. What is written
    -- is what the encoder made of a bundle less its firmware; with the firmware, read from the
    -- applet's file, and a manifest, read from its file and signed by the manifest key, that
    -- bundle has been verified against the keys of the two key files and the log's origin.
    pub main-Published : (flags : Flags) (w : W) → P w → Outcome flags (main os urls ft flags w)
    unfolding main
    main-Published flags w kept =
        step flags _ _ w (verifier_or_die-Keeps flags.manifest_pub_key_file) kept λ mv w1 e1 k1.
          step flags _ _ w1 (load_manifest_or_die-Keeps flags.manifest_file mv) k1
            λ manifest w2 e2 k2.
              step flags _ _ w2 (or_exit-Keeps _ (reading.reads flags.applet_file)) k2
                λ fw w3 e3 k3.
                  step flags _ _ w3 (new_fetcher_or_die-Keeps flags.log_url) k3 λ fetcher w4 e4 k4.
                    let fetches = fetcher-Keeps flags.log_url fetcher w3 w4 e4 in
                    step flags _ _ w4 (verifier_or_die-Keeps flags.log_pub_key_file) k4
                      λ lv w5 e5 k5.
                        step flags _ _ w5 (reading.tracks fetcher lv flags.log_origin fetches) k5
                          λ made w6 e6 k6.
                            step flags _ _ w6 (or_exit-Keeps _ (reading.updates made)) k6
                              λ lst w7 e7 k7.
                                step flags _ _ w7
                                  (or_exit-Keeps _
                                    (reading.looks_up fetcher (ft.hash_leaf manifest) fetches))
                                  k7
                                  λ idx w8 e8 k8.
                                    step flags _ _ w8 (or_exit-Keeps _ (reading.proves lst idx)) k8
                                      λ proof w9 e9 k9.
                                        let bundle =
                                          bundle_of os urls ft (ft.latest_consistent_raw lst) idx
                                            proof manifest fw in
                                        step flags _ _ w9
                                          (or_exit-Keeps _ (
                                            lift-Keeps
                                              (ft.verify flags.log_origin lv (mv ∷ []) bundle)))
                                          k9
                                          λ _ w10 e10 k10. inr (record {
                                            manifest_key = mv;
                                            log_key = lv;
                                            bundle = bundle;
                                            manifest_keyed =
                                                verifier_or_die-KeyFrom flags.manifest_pub_key_file
                                                  mv w w1 e1;
                                            log_keyed =
                                                verifier_or_die-KeyFrom flags.log_pub_key_file lv w4
                                                  w5 e5;
                                            signed =
                                                load_manifest_or_die-Signed flags.manifest_file mv
                                                  manifest w1 w2 e2;
                                            before = w2;
                                            after = w3;
                                            applet =
                                                or_exit-eq-ok (os.read_file flags.applet_file) w2
                                                  e3;
                                            verified =
                                                ap (λ r. r.0)
                                                  (or_exit-eq-ok
                                                    (lift (
                                                      ft.verify flags.log_origin lv (mv ∷ [])
                                                        bundle))
                                                    w9 e10);
                                            ready = w10;
                                            unwritten = k10;
                                            written = refl;
                                          })
