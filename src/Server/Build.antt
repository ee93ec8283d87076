-- ===== src/Server/Build.antt =====
-- What a runtime is built from, and when it is.
use oxi_gate.Base.{
  ℕ, ◌≤◌, ◌<◌, ltb, leb, true, false, ◌≡◌, refl, ap, ◌∙◌, ◌⊎◌, inl, inr, Text, Bool, not, ◌&&◌,
  Bool-cases, is_empty, Option, none, some, [], ok, err, Result-cases, to_option-some, arith,
}
use oxi_gate.Acl
use oxi_gate.Acl.{Acl}
use oxi_gate.Config.{Config}
use oxi_gate.Http.{Uri}
use oxi_gate.Machine.{Float}
use oxi_gate.Net.{IpAddr}
use oxi_gate.Proxy.Client.{HttpClient, build_client}
use oxi_gate.Server.{
  BuildError, panics, no_native_roots, too_many_permits, max_permits, new_semaphore, new_limit,
  Disk, Runtime, new_client, runtime_of, acceptor, trusted, from_config,
}
use oxi_gate.Tls.{Pem, ServerConfig}
use oxi_gate.Validator.{validate}
use oxi_gate.Validator.AccessLists.{validate-from_config}

-- The permits for requests: one for each of this many, or no limit.
abbrev pub IsLimit : ℕ → Option ℕ → Type 0
IsLimit n limit = ((n ≡ 0) × (limit ≡ none)) ⊎ ((0 < n) × (limit ≡ some n))

new_limit-cases :
    (n : ℕ)
    → ((max_permits < n) × (new_limit n ≡ err (panics too_many_permits)))
      ⊎ ((n ≤ max_permits) × ((limit : Option ℕ) × (new_limit n ≡ ok limit) × IsLimit n limit))
unfolding new_limit new_semaphore
new_limit-cases n = elim (Bool-cases (ltb 0 n)) [
  | inr off ↦ inr (ground arith, (none, rw off refl, inl (ground arith, refl)))
  | inl on ↦ elim (Bool-cases (leb n max_permits)) [
    | inl fits ↦ inr (ground arith, (some n, rw (on, fits) refl, inr (ground arith, refl)))
    | inr large ↦ inl (ground arith, rw (on, large) refl)
  ]
]

module _ (F : Float) (parse_ip : Text → Option IpAddr) (P : Pem) where
  pub from_config-parts :
      (disk : Disk P) (cfg : Config F.F64) (rt : Runtime F parse_ip P)
      → from_config F parse_ip P disk cfg ≡ ok rt
      → (rt.config ≡ cfg) × (trusted F parse_ip P cfg ≡ ok rt.proxy_trusted)
  unfolding from_config
  from_config-parts disk cfg rt e = elim (Result-cases (new_client F parse_ip P disk cfg)) [
    | inr (x, failed) ↦ absurd (ground arith)
    | inl (client, made) ↦ elim (Result-cases (acceptor F parse_ip P disk cfg.tls)) [
      | inr (x, failed) ↦ absurd (ground arith)
      | inl (tls, loaded) ↦ elim (Result-cases (new_limit cfg.max_connections)) [
        | inr (x, failed) ↦ absurd (ground arith)
        | inl (limit, counted) ↦ elim (Result-cases (trusted F parse_ip P cfg)) [
          | inr (x, failed) ↦ absurd (ground arith)
          | inl (acl, listed) ↦
              let whole : ok (runtime_of F parse_ip P cfg client tls limit acl) ≡ ok rt =
                rw (made, loaded, counted, listed) at e in
              (
                ground arith,
                let same : acl ≡ rt.proxy_trusted = ground arith in listed ∙ ap ok same,
              )
        ]
      ]
    ]
  ]

  new_client-cases :
      (disk : Disk P) (cfg : Config F.F64)
      → ((disk.has_native_roots ≡ false)
          × (new_client F parse_ip P disk cfg ≡ err (panics no_native_roots)))
        ⊎ ((disk.has_native_roots ≡ true)
            × ((client : HttpClient) × (new_client F parse_ip P disk cfg ≡ ok client)))
  unfolding new_client build_client
  new_client-cases disk cfg = elim (Bool-cases disk.has_native_roots) [
    | inr missing ↦ inl (missing, rw missing refl)
    | inl there ↦ elim (Result-cases (new_client F parse_ip P disk cfg)) [
      | inl (client, made) ↦ inr (there, (client, made))
      | inr (x, failed) ↦ absurd (ground arith)
    ]
  ]

  -- What does not parse cannot pass the validator, so the list of trusted proxies is always built.
  trusted-ok :
      (parse_uri : Text → Option Uri) (exists : Text → Bool) (cfg : Config F.F64)
      → validate F parse_uri parse_ip exists cfg ≡ ok tt
      → (found : Option Acl) × (trusted F parse_ip P cfg ≡ ok found)
  unfolding trusted
  trusted-ok parse_uri exists cfg valid =
      let (_, (acl, kept, _, _)) = validate-from_config F parse_uri parse_ip exists cfg valid in
      let read =
        to_option-some (Acl.from_config parse_ip cfg.proxy_protocol_trusted_cidrs []) acl kept in
      elim (Bool-cases (cfg.proxy_protocol && not (is_empty cfg.proxy_protocol_trusted_cidrs))) [
        | inl wanted ↦ (some acl, rw (wanted, read) refl)
        | inr unwanted ↦ (none, rw unwanted refl)
      ]

  abbrev pub IsBuilt : Disk P → Config F.F64 → Option (ServerConfig P) → Type 0
  IsBuilt disk cfg tls =
      (rt : Runtime F parse_ip P) × (from_config F parse_ip P disk cfg ≡ ok rt)
      × (rt.config ≡ cfg)
      × (rt.tls ≡ tls)
      × IsLimit cfg.max_connections rt.request_limit

  -- For a configuration that the validator accepts, whatever is on disk, one of four things happens.
  -- Where the system's root certificates do not load, building panics; else, where the TLS files do
  -- not load, it fails with their error; else, where `max_connections` is above 2 ^ 61 - 1, it
  -- panics; else a runtime is built of that configuration, with one permit for each of
  -- `max_connections`, or no limit where that is 0.
  pub from_config-validated :
      (parse_uri : Text → Option Uri) (exists : Text → Bool) (disk : Disk P) (cfg : Config F.F64)
      → validate F parse_uri parse_ip exists cfg ≡ ok tt
      → ((disk.has_native_roots ≡ false)
          × (from_config F parse_ip P disk cfg ≡ err (panics no_native_roots)))
        ⊎ ((disk.has_native_roots ≡ true)
            × (((e : BuildError) × (acceptor F parse_ip P disk cfg.tls ≡ err e)
                  × (from_config F parse_ip P disk cfg ≡ err e))
                ⊎ ((tls : Option (ServerConfig P)) × (acceptor F parse_ip P disk cfg.tls ≡ ok tls)
                    × (((max_permits < cfg.max_connections)
                          × (from_config F parse_ip P disk cfg ≡ err (panics too_many_permits)))
                        ⊎ ((cfg.max_connections ≤ max_permits) × IsBuilt disk cfg tls)))))
  unfolding from_config
  from_config-validated parse_uri exists disk cfg valid =
      let (found, listed) = trusted-ok parse_uri exists cfg valid in
      elim (new_client-cases disk cfg) [
        | inl (missing, made) ↦ inl (missing, rw made refl)
        | inr (there, (client, made)) ↦ inr (
          there,
          elim (Result-cases (acceptor F parse_ip P disk cfg.tls)) [
            | inr (e, failed) ↦ inl (e, failed, rw (made, failed) refl)
            | inl (tls, loaded) ↦ inr (
              tls,
              loaded,
              elim (new_limit-cases cfg.max_connections) [
                | inl (large, failed) ↦ inl (large, rw (made, loaded, failed) refl)
                | inr (small, (limit, counted, right)) ↦ inr (
                  small,
                  (
                    runtime_of F parse_ip P cfg client tls limit found,
                    rw (made, loaded, counted, listed) refl,
                    refl,
                    refl,
                    right,
                  ),
                )
              ],
            )
          ],
        )
      ]
