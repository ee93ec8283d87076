-- ===== src/Server/Trust.antt =====
-- Which address the requests of a connection are judged by.
use oxi_gate.Base.{
  ℕ, ◌≡◌, ◌≢◌, refl, sym, ◌∙◌, ap, subst, ◌⊎◌, inl, inr, Text, true, false, Bool-cases, is_empty,
  Option, none, some, List, [], ◌∷◌, ◌++◌, Result, ok, err, bind-eq-ok, arith,
}
use oxi_gate.Acl
use oxi_gate.Acl.{Acl, IpNet, contains, is_allowed}
use oxi_gate.Acl.Listed.{IsListed, from_config-IsListed}
use oxi_gate.Config.{Config}
use oxi_gate.Http.{Uri}
use oxi_gate.Machine.{Float}
use oxi_gate.Net.{IpAddr, SocketAddr}
use oxi_gate.Proxy.Headers.{HeaderMap}
use oxi_gate.ProxyProtocol.Contract.{Keeps, maybe_read_proxy_header_lem}
use oxi_gate.ProxyProtocol.Detect.{Outcome, maybe_read_proxy_header}
use oxi_gate.ProxyProtocol.Header.{ProxyHeader}
use oxi_gate.ProxyProtocol.Promise.{IsHeader}
use oxi_gate.ProxyProtocol.Stream.{Stream, bytes_of, remaining, new}
use oxi_gate.Server.{Disk, Runtime, BuildError, bad_trusted, on_error, trusted, from_config}
use oxi_gate.Server.Connection.{
  Served, served, is_trusted, serve, with_header, handle_one_connection,
}
use oxi_gate.Server.Build.{from_config-parts}
use oxi_gate.Tls.{Pem}

module _ (F : Float) (parse_ip : Text → Option IpAddr) (P : Pem) where
  empty-nil : (xs : List Text) → is_empty xs ≡ true → xs ≡ []
  empty-nil [] e = refl
  empty-nil (x ∷ xs) e = cc

  nonempty-nil : (xs : List Text) → is_empty xs ≡ false → xs ≢ []
  nonempty-nil [] e = cc
  nonempty-nil (x ∷ xs) e = λ q. cc

  -- The access list that is built of a list of networks that is not empty.
  trusted-some :
      (cfg : Config F.F64) (found : Option Acl)
      → cfg.proxy_protocol ≡ true
      → is_empty cfg.proxy_protocol_trusted_cidrs ≡ false
      → trusted F parse_ip P cfg ≡ ok found
      → (acl : Acl) × (Acl.from_config parse_ip cfg.proxy_protocol_trusted_cidrs [] ≡ ok acl)
        × (found ≡ some acl)
  unfolding trusted
  trusted-some cfg found on named e =
      let list = Acl.from_config parse_ip cfg.proxy_protocol_trusted_cidrs [] in
      let (acl, built, made) =
        bind-eq-ok (on_error {E' = BuildError} bad_trusted list) (λ acl. ok (some acl))
          (rw (on, named) at e) in
      (acl, read list acl built, cc)
    where
      read :
          (r : Result Acl.ParseError Acl) (acl : Acl)
          → on_error {E' = BuildError} bad_trusted r ≡ ok acl
          → r ≡ ok acl
      read (ok a) acl h = cc
      read (err x) acl h = cc

  trusted_lem :
      (disk : Disk P) (cfg : Config F.F64) (rt : Runtime F parse_ip P) (remote_addr : SocketAddr)
      → from_config F parse_ip P disk cfg ≡ ok rt
      → cfg.proxy_protocol ≡ true
      → is_trusted rt.proxy_trusted remote_addr ≡ true
      → (cfg.proxy_protocol_trusted_cidrs ≡ [])
        ⊎ IsListed parse_ip cfg.proxy_protocol_trusted_cidrs remote_addr.ip
  unfolding is_trusted
  trusted_lem disk cfg rt remote_addr e on passes =
      let (same, built) = from_config-parts F parse_ip P disk cfg rt e in
      elim (Bool-cases (is_empty cfg.proxy_protocol_trusted_cidrs)) [
        | inl nobody ↦ inl (empty-nil cfg.proxy_protocol_trusted_cidrs nobody)
        | inr named ↦
            let (acl, read, found) = trusted-some cfg rt.proxy_trusted on named built in
            inr (
              from_config-IsListed parse_ip cfg.proxy_protocol_trusted_cidrs acl remote_addr.ip read
                (nonempty-nil cfg.proxy_protocol_trusted_cidrs named)
                (ap (λ o. is_trusted o remote_addr) (sym found) ∙ passes))
      ]

module _ (F : Float) (M : HeaderMap) (parse_uri : Text → Option Uri) (ip_to_string : IpAddr → Text)
    (decimal : ℕ → Text) (parse_ip : Text → Option IpAddr) (P : Pem) where
  abbrev Service : Type 0
  Service = Served F M parse_uri ip_to_string decimal parse_ip P

  -- The service takes the peer's address, and its stream delivers the connection's bytes.
  abbrev pub IsDirect : SocketAddr → Stream → Service → Type 0
  IsDirect remote_addr stream c =
      (c.client_addr ≡ remote_addr) × (remaining c.stream ≡ bytes_of stream)

  -- The connection starts with a well-formed header, the service takes the source address of it, and
  -- its stream delivers the bytes behind it.
  abbrev pub IsFromHeader : Stream → Service → Type 0
  IsFromHeader stream c =
      (h : ProxyHeader) × (c.client_addr ≡ h.src)
      × ((taken : Text) × (bytes_of stream ≡ taken ++ remaining c.stream)
          × IsHeader parse_ip taken h)

  with_header_lem :
      (rt : Runtime F parse_ip P) (remote_addr : SocketAddr) (stream : Stream) (o : Outcome)
      (c : Service)
      → Keeps parse_ip (bytes_of stream) o
      → with_header F M parse_uri ip_to_string decimal parse_ip P rt remote_addr o ≡ some (served c)
      → IsDirect remote_addr stream c ⊎ IsFromHeader stream c
  unfolding serve
  with_header_lem rt remote_addr stream none c k e = absurd k
  with_header_lem rt remote_addr stream (some (err x)) c k e = cc
  with_header_lem rt remote_addr stream (some (ok (none, s))) c k e =
      let same : serve F M parse_uri ip_to_string decimal parse_ip P rt remote_addr s ≡ c = cc in
      inl (subst (IsDirect remote_addr stream) same (refl, k))
  with_header_lem rt remote_addr stream (some (ok (some h, s))) c k e =
      let same : serve F M parse_uri ip_to_string decimal parse_ip P rt h.src s ≡ c = cc in
      inr (subst (IsFromHeader stream) same (h, refl, k))

  no_prefix :
      (rt : Runtime F parse_ip P) (remote_addr : SocketAddr) (stream : Stream)
      → IsDirect remote_addr stream
          (serve F M parse_uri ip_to_string decimal parse_ip P rt remote_addr (new stream []))
  unfolding serve remaining new
  no_prefix rt remote_addr stream = (refl, refl)

  -- A connection is served by a runtime in one of two ways. Without the PROXY protocol its requests
  -- carry the peer's address, and all its bytes are theirs. With it, the peer is in one of the
  -- networks that the configuration trusts, or none is given; and the requests carry the peer's
  -- address and all the bytes, or the source address of a well-formed header that the connection
  -- starts with and exactly the bytes behind it.
  pub handle_one_connection-client_addr :
      (disk : Disk P) (cfg : Config F.F64) (rt : Runtime F parse_ip P) (remote_addr : SocketAddr)
      (stream : Stream) (c : Service)
      → from_config F parse_ip P disk cfg ≡ ok rt
      → handle_one_connection F M parse_uri ip_to_string decimal parse_ip P rt remote_addr stream
        ≡ some (served c)
      → ((cfg.proxy_protocol ≡ false) × IsDirect remote_addr stream c)
        ⊎ ((cfg.proxy_protocol ≡ true)
            × ((cfg.proxy_protocol_trusted_cidrs ≡ [])
                ⊎ IsListed parse_ip cfg.proxy_protocol_trusted_cidrs remote_addr.ip)
            × (IsDirect remote_addr stream c ⊎ IsFromHeader stream c))
  unfolding handle_one_connection
  handle_one_connection-client_addr disk cfg rt remote_addr stream c e h =
      let (same, built) = from_config-parts F parse_ip P disk cfg rt e in
      let same_flag : rt.config.proxy_protocol ≡ cfg.proxy_protocol =
        ap (λ c. c.proxy_protocol) same in
      elim (Bool-cases rt.config.proxy_protocol) [
        | inr off ↦
            let made : some (
                  served (
                    serve F M parse_uri ip_to_string decimal parse_ip P rt remote_addr
                      (new stream [])))
                ≡ some (served c) =
              rw off at h in
            let made' : serve F M parse_uri ip_to_string decimal parse_ip P rt remote_addr
                  (new stream [])
                ≡ c =
              cc in
            inl (
              sym same_flag ∙ off,
              subst (IsDirect remote_addr stream) made' (no_prefix rt remote_addr stream),
            )
        | inl on ↦ elim (Bool-cases (is_trusted rt.proxy_trusted remote_addr)) [
          | inr foreign ↦ absurd (ground arith)
          | inl friend ↦ inr (
            sym same_flag ∙ on,
            trusted_lem F parse_ip P disk cfg rt remote_addr e (sym same_flag ∙ on) friend,
            with_header_lem rt remote_addr stream (maybe_read_proxy_header parse_ip stream) c
                (maybe_read_proxy_header_lem parse_ip stream) (rw (on, friend) at h),
          )
        ]
      ]
