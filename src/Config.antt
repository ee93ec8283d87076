-- ===== src/Config.antt =====
-- src/config/mod.rs: the configuration record, its parts and the defaults that serde fills in.
-- A `SocketAddr` is an `IpAddr` and a port, a duration is a number of seconds, and `f64` is the
-- type `F64` with the operations of the record `Float`, which the program takes from the machine.
pub mod Load
pub mod Minimal
mod Tests
use oxi_gate.Base.{ℕ, Text, Bool, Option, List}
use oxi_gate.Net.{SocketAddr}

pub record AclConfig : Type 0 where
  pub allow : List Text
  pub deny : List Text

pub record RateLimitConfigYaml (F64 : Type 0) : Type 0 where
  pub rps : ℕ
  pub burst : F64

pub data LoadBalancingAlgorithm : Type 0 where
  round_robin weighted_round_robin least_connections power_of_two_choices : LoadBalancingAlgorithm

pub record Upstream : Type 0 where
  pub address : Text
  pub weight : ℕ

pub record RouteConfig : Type 0 where
  pub path_prefix : Text
  pub upstreams : List Upstream
  pub load_balancing : Option LoadBalancingAlgorithm

pub record TlsConfig : Type 0 where
  pub cert : Text
  pub key : Text

pub record StickyConfig : Type 0 where
  pub cookie_name : Text
  pub max_age_secs : ℕ

pub record HeaderConfig : Type 0 where
  pub request_set : List (Text × Text)
  pub response_set : List (Text × Text)

pub record HealthCheckConfig : Type 0 where
  pub interval_secs : ℕ
  pub timeout_secs : ℕ
  pub path : Text
  pub unhealthy_threshold : ℕ
  pub healthy_threshold : ℕ

pub record TimeoutConfig : Type 0 where
  pub connect_secs : ℕ
  pub request_secs : ℕ
  pub idle_secs : ℕ

pub record Config (F64 : Type 0) : Type 0 where
  pub listen : SocketAddr
  pub metrics_listen : SocketAddr
  pub max_concurrency : Option ℕ
  pub upstreams : List Upstream
  pub routes : List RouteConfig
  pub load_balancing : LoadBalancingAlgorithm
  pub health_check : HealthCheckConfig
  pub timeouts : TimeoutConfig
  pub tls : Option TlsConfig
  pub retries : ℕ
  pub max_connections : ℕ
  pub sticky : Option StickyConfig
  pub headers : HeaderConfig
  pub access_log : Bool
  pub rate_limit : Option (RateLimitConfigYaml F64)
  pub proxy_protocol : Bool
  pub upstream_http2 : Bool
  pub pool_max_idle_per_host : ℕ
  pub max_body_bytes : ℕ
  pub retry_idempotent_only : Bool
  pub force_retry_with_body : Bool
  pub acl : Option AclConfig
  pub security_headers : Bool
  pub admin_token : Option Text
  pub proxy_protocol_trusted_cidrs : List Text
