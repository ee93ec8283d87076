-- ===== src/Validator/Valid.antt =====
-- Which configurations the validator accepts.
use oxi_gate.Base.{
  ℕ, ◌*◌, ◌%◌, ◌^◌, ◌≤◌, ◌≡◌, ◌≢◌, refl, ◌↔◌, ◌⊎◌, inl, inr, Text, codes, str_eq_iff, split_once,
  parse_uint, Bool, true, false, Option-cases, not, ◌&&◌, ◌||◌, ltb, ◌==◌, Option, none, some, List,
  [], ◌∷◌, ◌++◌, is_empty, All, Result, ok, err, ◌>>=◌, ◌>>◌, ok_or, bail_if, each, arith,
}
use oxi_gate.Config.{Config, Upstream, RouteConfig, RateLimitConfigYaml, TlsConfig, AclConfig}
use oxi_gate.Http.{Uri}
use oxi_gate.Machine.{Float}
use oxi_gate.Net.{IpAddr, v4, v6}
use oxi_gate.Acl
use oxi_gate.Acl.{IpNet}
use oxi_gate.Validator.{
  is_http, is_none, validate_url, validate_upstream, validate_cidr_parts, validate_cidr,
  validate_route, validate_rate_limit, validate_tls, validate_acl, validate,
}

infixr 20 ◌&◌
abbrev ◌&◌ : Type 0 → Type 0 → Type 0
P & Q = P × Q

seq_iff {ℓ} :
    {E : Type ℓ} {P Q : Type 0} (m k : Result E (Unit {0}))
    → (m ≡ ok tt) ↔ P
    → (k ≡ ok tt) ↔ Q
    → ((m >> k) ≡ ok tt) ↔ (P & Q)
seq_iff (ok tt) k (f, g) (f', g') = (λ e. (f refl, f' e), λ (p, q). g' q)
seq_iff (err x) k (f, g) (f', g') = (λ e. cc, λ (p, q). let e = g p in cc)

bail_iff {ℓ κ} :
    {E : Type ℓ} {P : Type κ} (b : Bool) (x : E) → (b ≡ false) ↔ P → (bail_if b x ≡ ok tt) ↔ P
bail_iff true x (f, g) = (λ e. cc, λ p. let e = g p in cc)
bail_iff false x (f, g) = (λ e. f refl, λ p. refl)

last_iff {ℓ} :
    {E : Type ℓ} {P : Type 0} (m : Result E (Unit {0}))
    → (m ≡ ok tt) ↔ P
    → (◌≡◌ {A = Result E (Unit {0})} (m >> ok tt) (ok tt)) ↔ P
last_iff (ok tt) h = h
last_iff (err x) (f, g) = (λ e. f (cc), λ p. let e = g p in cc)

done_iff {ℓ} : {E : Type ℓ} → (◌≡◌ {A = Result E (Unit {0})} (ok tt) (ok tt)) ↔ Unit {0}
done_iff = (λ _. tt, λ _. refl)

each_iff {ℓ} :
    {E : Type ℓ} {A : Type 0} (f : A → Result E (Unit {0})) (P : A → Type 0)
    → ((a : A) → (f a ≡ ok tt) ↔ P a)
    → (xs : List A) → (each f xs ≡ ok tt) ↔ All P xs
each_iff f P h [] = done_iff
each_iff f P h (x ∷ xs) = seq_iff (f x) (each f xs) (h x) (each_iff f P h xs)

bind_iff :
    {E A : Type 0} {P : A → Type 0} (o : Option A) (x : E) (f : A → Result E (Unit {0}))
    → ((a : A) → (f a ≡ ok tt) ↔ P a)
    → ((ok_or o x >>= f) ≡ ok tt) ↔ ((a : A) × (o ≡ some a) × P a)
bind_iff none x f h = (λ e. cc, λ (a, e, p). cc)
bind_iff (some a) x f h =
    (λ e. (a, refl, (h a).0 e), λ (b, e, p). let q : a ≡ b = ground arith in rw q ((h b).1 p))

abbrev IsHttp : Option Text → Type 0
IsHttp scheme = (scheme ≡ some (codes "http")) ⊎ (scheme ≡ some (codes "https"))

is_http_iff : (scheme : Option Text) → (not (is_http scheme) ≡ false) ↔ IsHttp scheme
unfolding is_http
is_http_iff none = ground arith
is_http_iff (some s) = ground (arith, str_eq_iff s (codes "http"), str_eq_iff s (codes "https"))

is_empty_iff : {A : Type 0} (xs : List A) → (is_empty xs ≡ false) ↔ (xs ≢ [])
is_empty_iff [] = (λ e. cc, λ h. absurd (h refl))
is_empty_iff (x ∷ xs) = (λ e q. cc, λ h. refl)

is_none_iff : {A : Type 0} (o : Option A) → (is_none o ≡ false) ↔ (o ≢ none)
is_none_iff none = (λ e. cc, λ h. absurd (h refl))
is_none_iff (some x) = (λ e q. cc, λ h. refl)

is_zero_iff : (n : ℕ) → ((n == 0) ≡ false) ↔ (n ≢ 0)
is_zero_iff n = ground arith

at_most_iff : (a b : ℕ) → (ltb a b ≡ false) ↔ (b ≤ a)
at_most_iff a b = ground arith

neither_iff : (a b : ℕ) → ((a == 0 || b == 0) ≡ false) ↔ ((a ≢ 0) & (b ≢ 0))
neither_iff a b = ground arith

module _ (F : Float) (parse_uri : Text → Option Uri) (parse_ip : Text → Option IpAddr)
    (exists : Text → Bool) where
  -- A backend address is an http or https URI with a host.
  abbrev pub IsUpstream : Upstream → Type 0
  IsUpstream u =
      (u.address ≢ [])
      & (u.weight ≢ 0)
      & ((url : Uri) × (parse_uri u.address ≡ some url) × (IsHttp url.scheme & (url.host ≢ none)))

  abbrev pub IsRoute : RouteConfig → Type 0
  IsRoute route = (route.upstreams ≢ []) & (route.path_prefix ≢ []) & All IsUpstream route.upstreams

  -- The parser of src/security.rs reads it, with a prefix of at most 128 bits.
  abbrev pub IsCidr : Text → Type 0
  IsCidr s = (net : IpNet) × (Acl.parse_cidr parse_ip s ≡ ok net) × (net.prefix ≤ 128)

  abbrev pub IsRateLimit : Option (RateLimitConfigYaml F.F64) → Type 0
  IsRateLimit none = Unit
  IsRateLimit (some rl) = (rl.rps ≢ 0) & (F.le rl.burst F.zero_f ≡ false)

  abbrev pub IsTls : Option TlsConfig → Type 0
  IsTls none = Unit
  IsTls (some tls) = (exists tls.cert ≡ true) & (exists tls.key ≡ true)

  abbrev pub IsAcl : Option AclConfig → Type 0
  IsAcl none = Unit
  IsAcl (some acl) = All IsCidr (acl.allow ++ acl.deny)

  abbrev pub IsHealthCheck : ℕ → ℕ → Type 0
  IsHealthCheck interval timeout =
      (interval ≢ 0) & (timeout ≢ 0) & (timeout ≤ interval * 10 % 2 ^ 64)

  validate_url_iff :
      (url : Uri)
      → (validate_url F parse_uri parse_ip exists url ≡ ok tt)
        ↔ (IsHttp url.scheme & (url.host ≢ none))
  unfolding validate_url
  validate_url_iff url =
      seq_iff _ _ (bail_iff _ _ (is_http_iff url.scheme))
        (last_iff _ (bail_iff _ _ (is_none_iff url.host)))

  validate_upstream_iff :
      (u : Upstream) → (validate_upstream F parse_uri parse_ip exists u ≡ ok tt) ↔ IsUpstream u
  unfolding validate_upstream
  validate_upstream_iff u = seq_iff _ _ (bail_iff _ _ (is_empty_iff u.address)) (
      seq_iff _ _ (bail_iff _ _ (is_zero_iff u.weight)) (
        bind_iff (parse_uri u.address) _ (validate_url F parse_uri parse_ip exists)
          validate_url_iff))

  validate_route_iff :
      (route : RouteConfig)
      → (validate_route F parse_uri parse_ip exists route ≡ ok tt) ↔ IsRoute route
  unfolding validate_route
  validate_route_iff route = seq_iff _ _ (bail_iff _ _ (is_empty_iff route.upstreams)) (
      seq_iff _ _ (bail_iff _ _ (is_empty_iff route.path_prefix))
        (each_iff _ _ validate_upstream_iff route.upstreams))

  validate_cidr_iff : (s : Text) → (validate_cidr F parse_uri parse_ip exists s ≡ ok tt) ↔ IsCidr s
  unfolding validate_cidr Acl.parse_cidr validate_cidr_parts Acl.parse_parts
  validate_cidr_iff s = parts (split_once s b'/')
    where
      full : IpAddr → ℕ
      full (v4 a) = 32
      full (v6 a) = 128

      bounded : (a : IpAddr) → full a ≤ 128
      bounded (v4 a) = omega arith
      bounded (v6 a) = omega arith

      parts :
          (o : Option (Text × Text))
          → (validate_cidr_parts F parse_uri parse_ip exists s o ≡ ok tt)
            ↔ ((net : IpNet) × (Acl.parse_parts parse_ip s o ≡ ok net) × (net.prefix ≤ 128))
      parts (some (ip, pfx)) = elim (Option-cases (parse_ip ip)) [
        | inl bad ↦ (λ h. absurd (ground arith), λ (net, q, l). absurd (ground arith))
        | inr (a, good) ↦ elim (Option-cases (parse_uint 255 pfx)) [
          | inl bad ↦ (λ h. absurd (ground arith), λ (net, q, l). absurd (ground arith))
          | inr (n, read) ↦ (
            λ h. (record { addr = a; prefix = n }, ground arith, ground arith),
            λ (net, q, l). let same : n ≡ net.prefix = ground arith in ground arith,
          )
        ]
      ]
      parts none = elim (Option-cases (parse_ip s)) [
        | inl bad ↦ (λ h. absurd (ground arith), λ (net, q, l). absurd (ground arith))
        | inr (a, good) ↦ (
          λ h. (record { addr = a; prefix = full a }, rw good (ground arith), bounded a),
          λ h. rw good refl,
        )
      ]

  validate_rate_limit_iff :
      (rl : Option (RateLimitConfigYaml F.F64))
      → (validate_rate_limit F parse_uri parse_ip exists rl ≡ ok tt) ↔ IsRateLimit rl
  unfolding validate_rate_limit
  validate_rate_limit_iff none = done_iff
  validate_rate_limit_iff (some rl) =
      seq_iff _ _ (bail_iff _ _ (is_zero_iff rl.rps)) (last_iff _ (bail_iff _ _ (λ e. e, λ e. e)))

  validate_tls_iff :
      (tls : Option TlsConfig) → (validate_tls F parse_uri parse_ip exists tls ≡ ok tt) ↔ IsTls tls
  unfolding validate_tls
  validate_tls_iff none = done_iff
  validate_tls_iff (some tls) =
      seq_iff _ _ (bail_iff _ _ (exists_iff tls.cert))
        (last_iff _ (bail_iff _ _ (exists_iff tls.key)))
    where
      exists_iff : (path : Text) → (not (exists path) ≡ false) ↔ (exists path ≡ true)
      exists_iff path = ground arith

  validate_acl_iff :
      (acl : Option AclConfig) → (validate_acl F parse_uri parse_ip exists acl ≡ ok tt) ↔ IsAcl acl
  unfolding validate_acl
  validate_acl_iff none = done_iff
  validate_acl_iff (some acl) = each_iff _ _ validate_cidr_iff (acl.allow ++ acl.deny)

  -- What the checks ask for, in their order.
  abbrev pub IsValid : Config F.F64 → Type 0
  IsValid cfg =
      ((cfg.upstreams ≢ []) ⊎ (cfg.routes ≢ []))
      & All IsUpstream cfg.upstreams
      & All IsRoute cfg.routes
      & (cfg.health_check.interval_secs ≢ 0)
      & (cfg.health_check.timeout_secs ≢ 0)
      & (cfg.health_check.timeout_secs ≤ cfg.health_check.interval_secs * 10 % 2 ^ 64)
      & ((cfg.timeouts.connect_secs ≢ 0) & (cfg.timeouts.request_secs ≢ 0))
      & (cfg.max_body_bytes ≢ 0)
      & IsRateLimit cfg.rate_limit
      & IsTls cfg.tls
      & IsAcl cfg.acl
      & All IsCidr cfg.proxy_protocol_trusted_cidrs

  -- The validator accepts a configuration exactly when it has a backend or a route; every backend
  -- address is an http or https URI with a host and a weight that is not 0; every route has a
  -- prefix and a backend; the health check's times, the timeouts and the body limit are not 0, and
  -- the health check's timeout is at most ten intervals (as a 64-bit number); a rate limit is
  -- positive; the TLS files exist; and every network of the access lists and of the trusted proxies
  -- is one that the access lists' own parser reads, with a prefix of at most 128.
  pub validate_iff :
      (cfg : Config F.F64) → (validate F parse_uri parse_ip exists cfg ≡ ok tt) ↔ IsValid cfg
  unfolding validate
  validate_iff cfg = seq_iff _ _ (bail_iff _ _ backends) (
      seq_iff _ _ (each_iff _ _ validate_upstream_iff cfg.upstreams) (
        seq_iff _ _ (each_iff _ _ validate_route_iff cfg.routes) (
          seq_iff _ _ (bail_iff _ _ (is_zero_iff cfg.health_check.interval_secs)) (
            seq_iff _ _ (bail_iff _ _ (is_zero_iff cfg.health_check.timeout_secs)) (
              seq_iff _ _ (bail_iff _ _ (at_most_iff _ _)) (
                seq_iff _ _ (bail_iff _ _ (neither_iff _ _)) (
                  seq_iff _ _ (bail_iff _ _ (is_zero_iff cfg.max_body_bytes)) (
                    seq_iff _ _ (validate_rate_limit_iff cfg.rate_limit) (
                      seq_iff _ _ (validate_tls_iff cfg.tls) (
                        seq_iff _ _ (validate_acl_iff cfg.acl) (
                          last_iff _ (
                            each_iff _ _ validate_cidr_iff
                              cfg.proxy_protocol_trusted_cidrs))))))))))))
    where
      backends :
          ((is_empty cfg.upstreams && is_empty cfg.routes) ≡ false)
          ↔ ((cfg.upstreams ≢ []) ⊎ (cfg.routes ≢ []))
      backends = ground (arith, is_empty_iff cfg.upstreams, is_empty_iff cfg.routes)
