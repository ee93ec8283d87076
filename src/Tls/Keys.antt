-- ===== src/Tls/Keys.antt =====
-- When a TLS configuration is loaded, and which key it has.
use oxi_gate.Base.{
  ◌≡◌, refl, ap, sym, subst, ◌∙◌, ◌>>=◌, ◌↔◌, ◌⊎◌, inl, inr, Text, codes, true, Bool-cases, Option,
  none, some, List, [], ◌∷◌, map, Result, ok, ok_or, collect, bind-eq-ok, ok_or-ok, arith,
}
use oxi_gate.Tls.{
  Pem, TlsError, bad_certificate, no_file, no_key, item, first, ServerConfig, rsa_key, private_key,
  with_single_cert, load_server_config,
}

module _ (P : Pem) (open_file : Text → Option P.File) where
  open P use {File, Cert, Key, certs, pkcs8_private_keys, rsa_private_keys, fits}

  -- The first section of the kind is this key.
  abbrev pub StartsWith : Key → List (Option Key) → Type 0
  StartsWith key keys = (rest : List (Option Key)) × (keys ≡ some key ∷ rest)

  -- The key is the first one in PKCS#8, or, where there is none, the first one in the old form.
  abbrev pub IsKeyOf : Key → File → Type 0
  IsKeyOf key file =
      StartsWith key (pkcs8_private_keys file)
      ⊎ ((pkcs8_private_keys file ≡ []) × StartsWith key (rsa_private_keys file))

  first-some :
      (key : Key) (keys : List (Option Key)) → first keys ≡ ok (some key) → StartsWith key keys
  first-some key [] e = cc
  first-some key (none ∷ rest) e = cc
  first-some key (some k ∷ rest) e = (rest, cc)

  first-none : (keys : List (Option Key)) → first keys ≡ ok none → keys ≡ []
  first-none [] e = refl
  first-none (none ∷ rest) e = cc
  first-none (some k ∷ rest) e = cc

  certs-all :
      (found : List (Option Cert)) (chain : List Cert)
      → collect (item bad_certificate) found ≡ ok chain
      → found ≡ map some chain
  certs-all [] [] e = refl
  certs-all [] (c ∷ chain) e = cc
  certs-all (none ∷ found) chain e = cc
  certs-all (some c ∷ found) chain e =
      let (rest, collected, built) =
        bind-eq-ok (collect (item bad_certificate) found) (λ cs. ok (c ∷ cs)) e in
      let same : c ∷ rest ≡ chain = cc in
      subst (λ cs. some c ∷ found ≡ map some cs) same
        (ap (λ xs. some c ∷ xs) (certs-all found rest collected))

  all-certs : (chain : List Cert) → collect (item bad_certificate) (map some chain) ≡ ok chain
  all-certs [] = refl
  all-certs (c ∷ chain) = rw (all-certs chain) refl

  chosen :
      (found : Option Key) (other : Result TlsError Key) (key : Key)
      → elim found [ some k ↦ ok k | none ↦ other ] ≡ ok key
      → (found ≡ some key) ⊎ ((found ≡ none) × (other ≡ ok key))
  chosen none other key e = inr (refl, e)
  chosen (some k) other key e = inl cc

  private_key_iff :
      (key_path : Text) (file : File) (key : Key)
      → open_file key_path ≡ some file
      → (private_key P open_file key_path file ≡ ok key) ↔ IsKeyOf key file
  unfolding private_key rsa_key
  private_key_iff key_path file key opened = (
    λ e.
        (let rsa = rsa_key P open_file key_path in
          let (pkcs8, read, picked) =
            bind-eq-ok (first (pkcs8_private_keys file))
              (λ p. elim p [ some k ↦ ok k | none ↦ rsa ]) e in
          elim (chosen pkcs8 rsa key picked) [
            | inl found ↦ inl (first-some key (pkcs8_private_keys file) (read ∙ ap ok found))
            | inr (nothing, old) ↦
                let (again, reopened, later) =
                  bind-eq-ok (ok_or (open_file key_path) no_file)
                    (λ f. first (rsa_private_keys f) >>= λ r. ok_or r no_key) old in
                let found_again = ok_or-ok (open_file key_path) no_file reopened in
                let same : file ≡ again = cc in
                let (r, listed, last) =
                  bind-eq-ok (first (rsa_private_keys again)) (λ r. ok_or r no_key) later in
                inr (
                  first-none (pkcs8_private_keys file) (read ∙ ap ok nothing),
                  subst (λ f. StartsWith key (rsa_private_keys f)) (sym same)
                      (first-some key (rsa_private_keys again)
                        (listed ∙ ap ok (ok_or-ok r no_key last))),
                )
          ]),
    λ h. elim h [
      | inl (rest, e) ↦ rw e refl
      | inr (nothing, (rest, e)) ↦ rw (nothing, opened, e) refl
    ],
  )

  -- What a configuration of the server was made of.
  abbrev pub IsLoaded : Text → Text → ServerConfig P → Type 0
  IsLoaded cert_path key_path config =
      ((file : File) × (open_file cert_path ≡ some file)
        × (certs file ≡ map some config.cert_chain))
      × ((file : File) × (open_file key_path ≡ some file) × IsKeyOf config.key file)
      × (fits config.cert_chain config.key ≡ true)
      × (config.alpn_protocols ≡ codes "h2" ∷ codes "http/1.1" ∷ [])

  with_single_cert-ok :
      (chain : List Cert) (key : Key) (config : ServerConfig P)
      → with_single_cert P chain key ≡ ok config
      → (fits chain key ≡ true)
        × (config ≡ record {
          cert_chain = chain;
          key = key;
          alpn_protocols = codes "h2" ∷ codes "http/1.1" ∷ [];
        })
  unfolding with_single_cert
  with_single_cert-ok chain key config e = elim (Bool-cases (fits chain key)) [
    | inl good ↦ (good, ground arith)
    | inr bad ↦ absurd (ground arith)
  ]

  -- A TLS configuration is loaded exactly when both files open, every certificate of the first
  -- parses, the second holds a key, and rustls takes the key for that chain; the chain is the whole
  -- file's, the key is the first one in PKCS#8 or, only where there is none, the first one in the old
  -- form, and HTTP/2 is offered before HTTP/1.1.
  pub load_server_config_iff :
      (cert_path key_path : Text) (config : ServerConfig P)
      → (load_server_config P open_file cert_path key_path ≡ ok config)
        ↔ IsLoaded cert_path key_path config
  unfolding load_server_config
  load_server_config_iff cert_path key_path config = (
    λ e.
        (let build = with_single_cert P in
          let key_of = private_key P open_file key_path in
          let (cert_file, opened, e1) =
            bind-eq-ok (ok_or (open_file cert_path) no_file)
              (λ f. collect (item bad_certificate) (certs f) >>= λ chain.
                ok_or (open_file key_path) no_file >>= λ file.
                key_of file >>= λ key. build chain key)
              e in
          let (chain, parsed, e2) =
            bind-eq-ok (collect (item bad_certificate) (certs cert_file))
              (λ chain. ok_or (open_file key_path) no_file >>= λ file.
                key_of file >>= λ key. build chain key)
              e1 in
          let (key_file, key_opened, e3) =
            bind-eq-ok (ok_or (open_file key_path) no_file)
              (λ file. key_of file >>= λ key. build chain key) e2 in
          let (key, found, e4) = bind-eq-ok (key_of key_file) (λ key. build chain key) e3 in
          let (good, same) = with_single_cert-ok chain key config e4 in
          let reached = ok_or-ok (open_file key_path) no_file key_opened in
          subst (IsLoaded cert_path key_path) (sym same) (
            (
              cert_file,
              ok_or-ok (open_file cert_path) no_file opened,
              certs-all (certs cert_file) chain parsed,
            ),
            (key_file, reached, (private_key_iff key_path key_file key reached).0 found),
            good,
            refl,
          )),
    λ h.
        (let ((cert_file, opened, all), (key_file, key_opened, is_key), good, alpn) = h in
          rw
            (
              opened,
              all,
              all-certs config.cert_chain,
              key_opened,
              (private_key_iff key_path key_file config.key key_opened).1 is_key,
              with_single_cert,
              good,
            )
            (ap (λ ps. ok (record config { alpn_protocols = ps })) (sym alpn))),
  )
