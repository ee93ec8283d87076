-- ===== src/Config/Load.antt =====
-- src/config/mod.rs: `Config::from_file`, the durations, and the values that serde fills in for what
-- a file leaves out. Reading a file and reading YAML are parameters. Durations are numbers of
-- nanoseconds.
use oxi_gate.Base.{
  ℕ, ◌*◌, Text, codes, Bool, true, false, Option, none, some, List, [], Result, ok, err, ◌>>=◌,
  ok_or,
}
use oxi_gate.Config.{
  Config, Upstream, RouteConfig, LoadBalancingAlgorithm, round_robin, TlsConfig, StickyConfig,
  HeaderConfig, HealthCheckConfig, TimeoutConfig, RateLimitConfigYaml, AclConfig,
}
use oxi_gate.Http.{Uri}
use oxi_gate.Machine.{Float}
use oxi_gate.Net.{IpAddr, SocketAddr}
use oxi_gate.Validator
use oxi_gate.Validator.{Invalid}

abbrev pub second : ℕ
second = 1_000_000_000

unfoldable pub connect_timeout : {F64 : Type 0} → Config F64 → ℕ
connect_timeout cfg = cfg.timeouts.connect_secs * second

unfoldable pub request_timeout : {F64 : Type 0} → Config F64 → ℕ
request_timeout cfg = cfg.timeouts.request_secs * second

unfoldable pub health_interval : {F64 : Type 0} → Config F64 → ℕ
health_interval cfg = cfg.health_check.interval_secs * second

abbrev pub default_health_check : HealthCheckConfig
default_health_check = record {
  interval_secs = 5;
  timeout_secs = 2;
  path = codes "/";
  unhealthy_threshold = 3;
  healthy_threshold = 2;
}

abbrev pub default_timeouts : TimeoutConfig
default_timeouts = record { connect_secs = 5; request_secs = 30; idle_secs = 60 }

abbrev pub default_sticky : StickyConfig
default_sticky = record { cookie_name = codes "OXIGATE"; max_age_secs = 3600 }

-- `usize::unwrap_or` and its like, for a field that a file may leave out.
abbrev pub or_else {ℓ} : {A : Type ℓ} → Option A → A → A
or_else none a = a
or_else (some b) a = b

-- The fields of a file, those that may be left out as options; the file's own parts are whole.
pub record Document (F64 : Type 0) : Type 0 where
  pub listen : SocketAddr
  pub metrics_listen : SocketAddr
  pub max_concurrency : Option ℕ
  pub upstreams : Option (List Upstream)
  pub routes : Option (List RouteConfig)
  pub load_balancing : Option LoadBalancingAlgorithm
  pub health_check : Option HealthCheckConfig
  pub timeouts : Option TimeoutConfig
  pub tls : Option TlsConfig
  pub retries : Option ℕ
  pub max_connections : Option ℕ
  pub sticky : Option StickyConfig
  pub headers : Option HeaderConfig
  pub access_log : Option Bool
  pub rate_limit : Option (RateLimitConfigYaml F64)
  pub proxy_protocol : Option Bool
  pub upstream_http2 : Option Bool
  pub pool_max_idle_per_host : Option ℕ
  pub max_body_bytes : Option ℕ
  pub retry_idempotent_only : Option Bool
  pub force_retry_with_body : Option Bool
  pub acl : Option AclConfig
  pub security_headers : Option Bool
  pub admin_token : Option Text
  pub proxy_protocol_trusted_cidrs : Option (List Text)

-- The `#[serde(default)]` attributes of `Config` and the functions that they name.
unfoldable pub with_defaults : {F64 : Type 0} → Document F64 → Config F64
with_defaults d = record {
  listen = d.listen;
  metrics_listen = d.metrics_listen;
  max_concurrency = d.max_concurrency;
  upstreams = or_else d.upstreams [];
  routes = or_else d.routes [];
  load_balancing = or_else d.load_balancing round_robin;
  health_check = or_else d.health_check default_health_check;
  timeouts = or_else d.timeouts default_timeouts;
  tls = d.tls;
  retries = or_else d.retries 1;
  max_connections = or_else d.max_connections 0;
  sticky = d.sticky;
  headers = or_else d.headers (record { request_set = []; response_set = [] });
  access_log = or_else d.access_log true;
  rate_limit = d.rate_limit;
  proxy_protocol = or_else d.proxy_protocol false;
  upstream_http2 = or_else d.upstream_http2 false;
  pool_max_idle_per_host = or_else d.pool_max_idle_per_host 64;
  max_body_bytes = or_else d.max_body_bytes (16 * 1024 * 1024);
  retry_idempotent_only = or_else d.retry_idempotent_only true;
  force_retry_with_body = or_else d.force_retry_with_body false;
  acl = d.acl;
  security_headers = or_else d.security_headers true;
  admin_token = d.admin_token;
  proxy_protocol_trusted_cidrs = or_else d.proxy_protocol_trusted_cidrs [];
}

pub data LoadError : Type 0 where
  unreadable unparsable : LoadError
  invalid : Invalid → LoadError

abbrev pub checked {ℓ} : {A : Type ℓ} → Result Invalid A → Result LoadError A
checked (ok a) = ok a
checked (err e) = err (invalid e)

module _ (F : Float) (parse_uri : Text → Option Uri) (parse_ip : Text → Option IpAddr)
    (exists : Text → Bool) (read_to_string : Text → Option Text)
    (from_str : Text → Option (Document F.F64)) where
  unfoldable pub from_file : Text → Result LoadError (Config F.F64)
  unfolding Validator.validate with_defaults
  from_file path = do
    content ← ok_or (read_to_string path) unreadable
    document ← ok_or (from_str content) unparsable
    let config = with_defaults document
    _ ← checked (Validator.validate F parse_uri parse_ip exists config)
    ok config
