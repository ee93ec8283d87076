-- ===== src/Server/Denied.antt =====
-- What a denied network is answered, from the text of the configuration to the response.
use oxi_gate.Base.{
  ℕ, zero, suc, ◌≡◌, ◌≢◌, refl, sym, ◌∙◌, ap, subst, ◌⊎◌, inl, inr, Text, Bool, false, Bool-cases,
  Option-cases, Option, none, some, List, [], In, Result, ok, err, ◌>>=◌, bind-eq-ok, collect,
  to_option, to_option-some, arith,
}
use oxi_gate.Acl
use oxi_gate.Acl.{Acl, IpNet, contains, is_allowed}
use oxi_gate.Acl.Listed.{IsListed, In-collect}
use oxi_gate.Acl.Decision.{is_allowed_iff}
use oxi_gate.Config.{Config, AclConfig}
use oxi_gate.Http.{Uri}
use oxi_gate.Lb.{LoadBalancer}
use oxi_gate.Machine.{Float}
use oxi_gate.Net.{IpAddr, SocketAddr}
use oxi_gate.Proxy.Attempt
use oxi_gate.Proxy.Handler
use oxi_gate.Proxy.Handler.{State, proxy_request, check_acl}
use oxi_gate.Proxy.Loop.{error_response}
use oxi_gate.Proxy.Headers.{HeaderMap}
use oxi_gate.ProxyProtocol.Detect.{Outcome, maybe_read_proxy_header}
use oxi_gate.ProxyProtocol.Stream.{Stream, PrefixedStream, new}
use oxi_gate.Server.{Disk, Runtime, from_config}
use oxi_gate.Server.Build.{from_config-parts}
use oxi_gate.Server.Connection.{
  Served, served, serve, is_trusted, with_header, built_acl, handle_one_connection,
}
use oxi_gate.Server.Service.{call}
use oxi_gate.Tls.{Pem}
use oxi_gate.Validator.{validate}
use oxi_gate.Validator.AccessLists.{IsKept, validate-from_config}

module _ (F : Float) (parse_uri : Text → Option Uri) (parse_ip : Text → Option IpAddr)
    (exists : Text → Bool) where
  abbrev denials : Result Acl.ParseError Acl → List IpNet
  denials (ok acl) = acl.deny
  denials (err e) = []

  -- The access list of a validated configuration keeps out what its text denies.
  denied_lem :
      (cfg : Config F.F64) (a : AclConfig) (ip : IpAddr)
      → validate F parse_uri parse_ip exists cfg ≡ ok tt
      → cfg.acl ≡ some a
      → IsListed parse_ip a.deny ip
      → (acl : Acl) × (to_option (Acl.from_config parse_ip a.allow a.deny) ≡ some acl)
        × (is_allowed acl ip ≡ false)
  unfolding Acl.from_config
  denied_lem cfg a ip valid given (s, listed, (net, parsed, holds)) =
      let kept = (validate-from_config F parse_uri parse_ip exists cfg valid).0 in
      let (acl, built, _, _) = subst (IsKept F parse_uri parse_ip exists) given kept in
      let whole = to_option-some (Acl.from_config parse_ip a.allow a.deny) acl built in
      let (allow, e1, e2) =
        bind-eq-ok (collect (Acl.parse_cidr parse_ip) a.allow)
          (λ allow. collect (Acl.parse_cidr parse_ip) a.deny >>= λ deny.
            ok (record { allow = allow; deny = deny }))
          whole in
      let (deny, e3, e4) =
        bind-eq-ok (collect (Acl.parse_cidr parse_ip) a.deny)
          (λ deny. ok (record { allow = allow; deny = deny })) e2 in
      let same : deny ≡ acl.deny = ap denials e4 in
      let inside =
        subst (In net) same
          (In-collect (Acl.parse_cidr parse_ip) a.deny deny s net e3 listed parsed) in
      (
        acl,
        built,
        elim (Bool-cases (is_allowed acl ip)) [
          | inr shut ↦ shut
          | inl passes ↦ absurd (((is_allowed_iff acl ip).0 passes).0 (net, inside, holds))
        ],
      )

module _ (F : Float) (M : HeaderMap) (parse_uri : Text → Option Uri) (ip_to_string : IpAddr → Text)
    (decimal : ℕ → Text) (parse_ip : Text → Option IpAddr) (P : Pem) (World : Type 0)
    (clock : World → ℕ)
    (send : World
      → LoadBalancer
      → Attempt.ProxyRequest M parse_uri ip_to_string
      → (World × LoadBalancer) × Option (Attempt.UpstreamResponse M parse_uri ip_to_string)) where
  abbrev Shared : Type 0
  Shared = State F M parse_uri ip_to_string decimal World clock send

  abbrev Service : Type 0
  Service = Served F M parse_uri ip_to_string decimal parse_ip P

  abbrev Answer : Type 0
  Answer = Handler.Response F M parse_uri ip_to_string decimal World clock send

  -- Nothing that an upstream or the limiter would see has changed.
  abbrev pub IsUntouched : Shared → Shared → Type 0
  IsUntouched s t = (t.lbs ≡ s.lbs) × (t.rate_limiter ≡ s.rate_limiter) × (t.world ≡ s.world)

  with_header-serve :
      (rt : Runtime F parse_ip P) (remote_addr : SocketAddr) (o : Outcome) (svc : Service)
      → with_header F M parse_uri ip_to_string decimal parse_ip P rt remote_addr o
        ≡ some (served svc)
      → (a : SocketAddr) × (p : PrefixedStream) × (serve F M parse_uri ip_to_string decimal parse_ip
            P rt a p
          ≡ svc)
  with_header-serve rt remote_addr none svc e = cc
  with_header-serve rt remote_addr (some (err x)) svc e = cc
  with_header-serve rt remote_addr (some (ok (none, p))) svc e = (remote_addr, p, cc)
  with_header-serve rt remote_addr (some (ok (some h, p))) svc e = (h.src, p, cc)

  handle_one_connection-serve :
      (rt : Runtime F parse_ip P) (remote_addr : SocketAddr) (stream : Stream) (svc : Service)
      → handle_one_connection F M parse_uri ip_to_string decimal parse_ip P rt remote_addr stream
        ≡ some (served svc)
      → (a : SocketAddr) × (p : PrefixedStream) × (serve F M parse_uri ip_to_string decimal parse_ip
            P rt a p
          ≡ svc)
  unfolding handle_one_connection
  handle_one_connection-serve rt remote_addr stream svc e =
      elim (Bool-cases rt.config.proxy_protocol) [
        | inr off ↦
            let made : some (
                  served (
                    serve F M parse_uri ip_to_string decimal parse_ip P rt remote_addr
                      (new stream [])))
                ≡ some (served svc) =
              rw off at e in
            (remote_addr, new stream [], cc)
        | inl on ↦ elim (Bool-cases (is_trusted rt.proxy_trusted remote_addr)) [
          | inr foreign ↦ absurd (ground arith)
          | inl friend ↦
              with_header-serve rt remote_addr (maybe_read_proxy_header parse_ip stream) svc
                (rw (on, friend) at e)
        ]
      ]

  serve-acl :
      (rt : Runtime F parse_ip P) (a : SocketAddr) (p : PrefixedStream)
      → (serve F M parse_uri ip_to_string decimal parse_ip P rt a p).ctx.acl
        ≡ built_acl F M parse_uri ip_to_string decimal parse_ip P rt.config.acl
  unfolding serve
  serve-acl rt a p = refl

  refused :
      (svc : Service) (req : Handler.Request F M parse_uri ip_to_string decimal World clock send)
      (s : Shared) (acl : Acl)
      → svc.ctx.acl ≡ some acl
      → is_allowed acl svc.client_addr.ip ≡ false
      → (((s.request_limit ≢ some 0)
            × ((call F M parse_uri ip_to_string decimal parse_ip P World clock send svc req
                  s).1.status
                ≡ 403))
          ⊎ ((s.request_limit ≡ some 0)
              × ((call F M parse_uri ip_to_string decimal parse_ip P World clock send svc req
                    s).1.status
                  ≡ 503)))
        × IsUntouched s
            (call F M parse_uri ip_to_string decimal parse_ip P World clock send svc req s).0
  unfolding call proxy_request check_acl error_response
  refused svc req s acl has shut = elim (Option-cases s.request_limit) [
    | inl unlimited ↦ rw (unlimited, has, shut) (inl (λ e. cc, refl), (refl, refl, refl))
    | inr (zero, none_left) ↦ rw none_left (inr (refl, refl), (refl, refl, refl))
    | inr (suc n, limited) ↦
        rw (limited, has, shut) (inl (λ e. ground arith, refl), (refl, refl, refl))
  ]

  -- Where the validator accepted the configuration that a runtime was built of, every request on a
  -- connection that the runtime serves is refused when a network of the configuration's deny list
  -- holds the connection's client address: the answer is 503 where requests are limited and no permit
  -- is left, and 403 otherwise, and the balancers, the limiter and the world that upstreams are in
  -- are as they were.
  pub call-denied :
      (exists : Text → Bool) (disk : Disk P) (cfg : Config F.F64) (a : AclConfig)
      (rt : Runtime F parse_ip P) (remote_addr : SocketAddr) (stream : Stream) (svc : Service)
      (req : Handler.Request F M parse_uri ip_to_string decimal World clock send) (s : Shared)
      → validate F parse_uri parse_ip exists cfg ≡ ok tt
      → from_config F parse_ip P disk cfg ≡ ok rt
      → cfg.acl ≡ some a
      → handle_one_connection F M parse_uri ip_to_string decimal parse_ip P rt remote_addr stream
        ≡ some (served svc)
      → IsListed parse_ip a.deny svc.client_addr.ip
      → (((s.request_limit ≢ some 0)
            × ((call F M parse_uri ip_to_string decimal parse_ip P World clock send svc req
                  s).1.status
                ≡ 403))
          ⊎ ((s.request_limit ≡ some 0)
              × ((call F M parse_uri ip_to_string decimal parse_ip P World clock send svc req
                    s).1.status
                  ≡ 503)))
        × IsUntouched s
            (call F M parse_uri ip_to_string decimal parse_ip P World clock send svc req s).0
  unfolding built_acl
  call-denied exists disk cfg a rt remote_addr stream svc req s valid built given h listed =
      let (addr, p, made) = handle_one_connection-serve rt remote_addr stream svc h in
      let (acl, parsed, shut) =
        denied_lem F parse_uri parse_ip exists cfg a svc.client_addr.ip valid given listed in
      let same = (from_config-parts F parse_ip P disk cfg rt built).0 in
      let has =
        ap (λ (c : Service). c.ctx.acl) (sym made)
        ∙ serve-acl rt addr p
        ∙ ap (λ (c : Config F.F64). built_acl F M parse_uri ip_to_string decimal parse_ip P c.acl)
            same
        ∙ ap (built_acl F M parse_uri ip_to_string decimal parse_ip P) given
        ∙ parsed in
      refused svc req s acl has shut
