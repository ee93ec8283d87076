-- ===== src/Validator.antt =====
-- src/config/validator.rs: the checks that a configuration passes before it is used.
-- The URI parser, the IP address parser and the test that a file exists are parameters. The index
-- of a bad entry only serves the error's text and is left out; the two warnings are not modelled.
pub mod Valid
pub mod AccessLists
mod Tests
use oxi_gate.Base.{
  ℕ, ◌*◌, ◌%◌, ◌^◌, Text, codes, str_eq, split_once, parse_uint, Bool, true, false, not, ◌&&◌, ◌||◌,
  ltb, ◌==◌, Option, none, some, List, [], ◌∷◌, ◌++◌, is_empty, Result, ok, err, ◌>>=◌, ◌>>◌, ok_or,
  bail_if, each,
}
use oxi_gate.Config.{Config, Upstream, RouteConfig, RateLimitConfigYaml, TlsConfig, AclConfig}
use oxi_gate.Http.{Uri}
use oxi_gate.Machine.{Float}
use oxi_gate.Net.{IpAddr}

pub data Invalid : Type 0 where
  no_upstreams no_address no_weight bad_uri bad_scheme no_host empty_route empty_path_prefix :
      Invalid
  bad_health_check bad_timeouts bad_max_body bad_rate_limit no_tls_file bad_cidr : Invalid

-- The two schemes of the `match` on `scheme_str`.
unfoldable pub is_http : Option Text → Bool
unfolding str_eq
is_http none = false
is_http (some s) = str_eq s (codes "http") || str_eq s (codes "https")

abbrev pub is_none {ℓ} : {A : Type ℓ} → Option A → Bool
is_none none = true
is_none (some a) = false

module _ (F : Float) (parse_uri : Text → Option Uri) (parse_ip : Text → Option IpAddr)
    (exists : Text → Bool) where
  unfoldable pub validate_url : Uri → Result Invalid (Unit {0})
  unfolding is_http
  validate_url url = do
    bail_if (not (is_http url.scheme)) bad_scheme
    bail_if (is_none url.host) no_host
    ok tt

  unfoldable pub validate_upstream : Upstream → Result Invalid (Unit {0})
  unfolding validate_url
  validate_upstream u = do
    bail_if (is_empty u.address) no_address
    bail_if (u.weight == 0) no_weight
    url ← ok_or (parse_uri u.address) bad_uri
    validate_url url

  unfoldable pub validate_cidr_parts : Text → Option (Text × Text) → Result Invalid (Unit {0})
  validate_cidr_parts s (some (ip, pfx)) = do
    _ ← ok_or (parse_ip ip) bad_cidr
    p ← ok_or (parse_uint 255 pfx) bad_cidr
    bail_if (ltb 128 p) bad_cidr
    ok tt
  validate_cidr_parts s none = do _ ← ok_or (parse_ip s) bad_cidr; ok tt

  unfoldable pub validate_cidr : Text → Result Invalid (Unit {0})
  unfolding validate_cidr_parts
  validate_cidr s = validate_cidr_parts s (split_once s b'/')

  unfoldable pub validate_route : RouteConfig → Result Invalid (Unit {0})
  unfolding validate_upstream
  validate_route route = do
    bail_if (is_empty route.upstreams) empty_route
    bail_if (is_empty route.path_prefix) empty_path_prefix
    each validate_upstream route.upstreams

  unfoldable pub validate_rate_limit :
      Option (RateLimitConfigYaml F.F64) → Result Invalid (Unit {0})
  validate_rate_limit none = ok tt
  validate_rate_limit (some rl) = do
    bail_if (rl.rps == 0) bad_rate_limit
    bail_if (F.le rl.burst F.zero_f) bad_rate_limit
    ok tt

  unfoldable pub validate_tls : Option TlsConfig → Result Invalid (Unit {0})
  validate_tls none = ok tt
  validate_tls (some tls) = do
    bail_if (not (exists tls.cert)) no_tls_file
    bail_if (not (exists tls.key)) no_tls_file
    ok tt

  unfoldable pub validate_acl : Option AclConfig → Result Invalid (Unit {0})
  unfolding validate_cidr
  validate_acl none = ok tt
  validate_acl (some acl) = each validate_cidr (acl.allow ++ acl.deny)

  -- `interval_secs * 10` is a `u64`, which wraps in the release profile.
  unfoldable pub validate : Config F.F64 → Result Invalid (Unit {0})
  unfolding validate_upstream validate_route validate_rate_limit validate_tls validate_acl
      validate_cidr
  validate cfg = do
    bail_if (is_empty cfg.upstreams && is_empty cfg.routes) no_upstreams
    each validate_upstream cfg.upstreams
    each validate_route cfg.routes
    bail_if (cfg.health_check.interval_secs == 0) bad_health_check
    bail_if (cfg.health_check.timeout_secs == 0) bad_health_check
    bail_if (ltb (cfg.health_check.interval_secs * 10 % 2 ^ 64) cfg.health_check.timeout_secs)
        bad_health_check
    bail_if (cfg.timeouts.connect_secs == 0 || cfg.timeouts.request_secs == 0) bad_timeouts
    bail_if (cfg.max_body_bytes == 0) bad_max_body
    validate_rate_limit cfg.rate_limit
    validate_tls cfg.tls
    validate_acl cfg.acl
    each validate_cidr cfg.proxy_protocol_trusted_cidrs
    ok tt
