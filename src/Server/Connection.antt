-- ===== src/Server/Connection.antt =====
-- `handle_one_connection` of src/main.rs and `ProxySvc`: what a connection is served with, or why it
-- is not. The TLS handshake, HTTP itself and the timer that ends a connection are third-party code;
-- the time that the timer is given is part of the result. Durations are numbers of nanoseconds.
use oxi_gate.Base.{
  ℕ, ◌-◌, ◌*◌, ◌^◌, min, max, Text, Bool, true, false, not, if◌then◌else◌, Option, none, some, [],
  Result, ok, err, to_option,
}
use oxi_gate.Acl
use oxi_gate.Acl.{Acl, is_allowed}
use oxi_gate.Config.{AclConfig}
use oxi_gate.Config.Load.{request_timeout, second}
use oxi_gate.Http.{Uri}
use oxi_gate.Machine.{Float}
use oxi_gate.Net.{IpAddr, SocketAddr}
use oxi_gate.Proxy.Headers.{HeaderMap}
use oxi_gate.Proxy.Loop
use oxi_gate.ProxyProtocol.Detect.{maybe_read_proxy_header}
use oxi_gate.ProxyProtocol.Header.{ProxyHeader}
use oxi_gate.ProxyProtocol.Stream.{Stream, Error, PrefixedStream, new}
use oxi_gate.RateLimit.{RateLimiter}
use oxi_gate.Server.{Runtime}
use oxi_gate.Tls.{Pem, ServerConfig}

-- `Duration::MAX`
abbrev pub max_duration : ℕ
max_duration = 2 ^ 64 * second - 1

abbrev saturating_mul : ℕ → ℕ → ℕ
saturating_mul d n = min (d * n) max_duration

abbrev is_some {ℓ} : {A : Type ℓ} → Option A → Bool
is_some none = false
is_some (some a) = true

unfoldable pub is_trusted : Option Acl → SocketAddr → Bool
unfolding is_allowed
is_trusted none remote_addr = true
is_trusted (some acl) remote_addr = is_allowed acl remote_addr.ip

module _ (F : Float) (M : HeaderMap) (parse_uri : Text → Option Uri) (ip_to_string : IpAddr → Text)
    (decimal : ℕ → Text) (parse_ip : Text → Option IpAddr) (P : Pem) where
  -- The service of a connection: the context and the address that every request on it is given.
  pub record Served : Type 0 where
    pub client_addr : SocketAddr
    pub stream : PrefixedStream
    pub tls : Option (ServerConfig P)
    pub ctx : Loop.ProxyContext F M parse_uri ip_to_string decimal
    pub rate_limiter : Option (RateLimiter F)
    pub request_limit : Option ℕ
    pub max_conn_life : ℕ

  pub data Fate : Type 0 where
    untrusted : Fate
    bad_header : Error → Fate
    served : Served → Fate

  unfoldable pub built_acl : Option AclConfig → Option Acl
  unfolding Acl.from_config
  built_acl none = none
  built_acl (some a) = to_option (Acl.from_config parse_ip a.allow a.deny)

  -- From the context on.
  unfoldable pub serve : Runtime F parse_ip P → SocketAddr → PrefixedStream → Served
  unfolding built_acl request_timeout
  serve rt client_addr stream =
      let idle = max rt.config.timeouts.idle_secs 1 * second in
      let req_timeout = request_timeout rt.config in
      record {
        client_addr = client_addr;
        stream = stream;
        tls = rt.tls;
        ctx = record {
          router = rt.router;
          retries = rt.config.retries;
          sticky = rt.config.sticky;
          headers = rt.config.headers;
          max_body_bytes = rt.config.max_body_bytes;
          retry_idempotent_only = rt.config.retry_idempotent_only;
          force_retry_with_body = rt.config.force_retry_with_body;
          acl = built_acl rt.config.acl;
          security_headers = rt.config.security_headers;
          client_is_tls = is_some rt.tls;
          idle_timeout = idle;
        };
        rate_limiter = rt.rate_limiter;
        request_limit = rt.request_limit;
        max_conn_life = max (saturating_mul idle 10) (saturating_mul req_timeout 2);
      }

  abbrev pub with_header :
      Runtime F parse_ip P
      → SocketAddr
      → Option (Result Error (Option ProxyHeader × PrefixedStream))
      → Option Fate
  with_header rt remote_addr none = none
  with_header rt remote_addr (some (err e)) = some (bad_header e)
  with_header rt remote_addr (some (ok (some h, s))) = some (served (serve rt h.src s))
  with_header rt remote_addr (some (ok (none, s))) = some (served (serve rt remote_addr s))

  -- `none` is the end of the fuel of the header's reader.
  unfoldable pub handle_one_connection : Runtime F parse_ip P → SocketAddr → Stream → Option Fate
  unfolding serve is_trusted maybe_read_proxy_header new
  handle_one_connection rt remote_addr stream =
      if rt.config.proxy_protocol
      then (if not (is_trusted rt.proxy_trusted remote_addr)
          then some untrusted
          else with_header rt remote_addr (maybe_read_proxy_header parse_ip stream))
      else some (served (serve rt remote_addr (new stream [])))
