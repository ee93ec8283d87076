-- ===== src/Config/Minimal.antt =====
-- A file that gives only the addresses and its backends.
use oxi_gate.Base.{◌≡◌, ◌≢◌, refl, inl, Text, Option, none, some, List, [], All, Bool, ok, arith}
use oxi_gate.Config.{Upstream}
use oxi_gate.Config.Load.{Document, with_defaults, from_file}
use oxi_gate.Http.{Uri}
use oxi_gate.Machine.{Float}
use oxi_gate.Net.{IpAddr, SocketAddr}
use oxi_gate.Validator.Valid.{IsUpstream, IsValid, validate_iff}

-- All that may be left out is left out, but the backends.
abbrev pub backends_only : {F64 : Type 0} → SocketAddr → SocketAddr → List Upstream → Document F64
backends_only listen metrics_listen upstreams = record {
  listen = listen;
  metrics_listen = metrics_listen;
  max_concurrency = none;
  upstreams = some upstreams;
  routes = none;
  load_balancing = none;
  health_check = none;
  timeouts = none;
  tls = none;
  retries = none;
  max_connections = none;
  sticky = none;
  headers = none;
  access_log = none;
  rate_limit = none;
  proxy_protocol = none;
  upstream_http2 = none;
  pool_max_idle_per_host = none;
  max_body_bytes = none;
  retry_idempotent_only = none;
  force_retry_with_body = none;
  acl = none;
  security_headers = none;
  admin_token = none;
  proxy_protocol_trusted_cidrs = none;
}

module _ (F : Float) (parse_uri : Text → Option Uri) (parse_ip : Text → Option IpAddr)
    (exists : Text → Bool) (read_to_string : Text → Option Text)
    (from_str : Text → Option (Document F.F64)) where
  with_defaults-IsValid :
      (listen metrics_listen : SocketAddr) (upstreams : List Upstream)
      → upstreams ≢ []
      → All (IsUpstream F parse_uri parse_ip exists) upstreams
      → IsValid F parse_uri parse_ip exists
          (with_defaults (backends_only listen metrics_listen upstreams))
  unfolding with_defaults
  with_defaults-IsValid listen metrics_listen upstreams some_there good = (
    inl some_there,
    (
      good,
      (
        tt,
        (
          ground arith,
          (
            ground arith,
            (ground arith, ((ground arith, ground arith), (ground arith, (tt, (tt, (tt, tt)))))),
          ),
        ),
      ),
    ),
  )

  -- A file that gives only the two addresses and a list of backends is loaded, with the defaults for
  -- all the rest, when the list is not empty and each backend has an http or https address with a
  -- host and a weight other than 0: the defaults pass every check of the validator.
  pub from_file-backends_only :
      (path content : Text) (listen metrics_listen : SocketAddr) (upstreams : List Upstream)
      → read_to_string path ≡ some content
      → from_str content ≡ some (backends_only listen metrics_listen upstreams)
      → upstreams ≢ []
      → All (IsUpstream F parse_uri parse_ip exists) upstreams
      → from_file F parse_uri parse_ip exists read_to_string from_str path
        ≡ ok (with_defaults (backends_only listen metrics_listen upstreams))
  unfolding from_file
  from_file-backends_only path content listen metrics_listen upstreams read parsed some_there good =
      let passes =
        (validate_iff F parse_uri parse_ip exists
            (with_defaults (backends_only listen metrics_listen upstreams))).1
          (with_defaults-IsValid listen metrics_listen upstreams some_there good) in
      rw (read, parsed, passes) refl
