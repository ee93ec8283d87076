-- ===== src/Proxy/Client.antt =====
-- src/proxy/client.rs: what `build_client` sets on the connector and on the pool of connections. The
-- client itself is hyper's; durations are numbers of nanoseconds. Whether the system's root
-- certificates load is an argument.
use oxi_gate.Base.{ℕ, ◌*◌, max, Bool, true, false, if◌then◌else◌, Option, none, some}

pub record ClientOptions : Type 0 where
  pub connect_timeout : ℕ
  pub pool_max_idle_per_host : ℕ
  pub http2 : Bool

pub record HttpClient : Type 0 where
  pub nodelay : Bool
  pub connect_timeout : Option ℕ
  pub keepalive : Option ℕ
  pub enforce_http : Bool
  pub reuse_address : Bool
  pub http1 : Bool
  pub http2 : Bool
  pub pool_idle_timeout : ℕ
  pub pool_max_idle_per_host : ℕ
  pub retry_canceled_requests : Bool
  pub set_host : Bool
  pub http2_only : Option Bool
  pub http2_adaptive_window : Option Bool
  pub http2_keep_alive_interval : Option ℕ
  pub http2_keep_alive_timeout : Option ℕ

abbrev seconds : ℕ → ℕ
seconds n = n * 1_000_000_000

-- What the client is set to; `none` is a setting that is left as hyper has it.
unfoldable pub client_of : ClientOptions → HttpClient
client_of opts = record {
  nodelay = true;
  connect_timeout = some opts.connect_timeout;
  keepalive = some (seconds 30);
  enforce_http = false;
  reuse_address = true;
  http1 = true;
  http2 = true;
  pool_idle_timeout = seconds 60;
  pool_max_idle_per_host = max opts.pool_max_idle_per_host 4;
  retry_canceled_requests = true;
  set_host = true;
  http2_only = if opts.http2 then some false else none;
  http2_adaptive_window = if opts.http2 then some true else none;
  http2_keep_alive_interval = if opts.http2 then some (seconds 30) else none;
  http2_keep_alive_timeout = if opts.http2 then some (seconds 10) else none;
}

-- `none` is the panic where the system's root certificates do not load.
unfoldable pub build_client : Bool → ClientOptions → Option HttpClient
unfolding client_of
build_client has_native_roots opts = if has_native_roots then some (client_of opts) else none
