-- ===== src/Server.antt =====
-- src/main.rs and src/state.rs: what is built from a configuration, and how a SIGHUP replaces it.
-- A reload writes five cells, one after the other; here it is one step, so what other tasks may see
-- between two of the writes is not modelled. The balancers that the router's numbers stand for are
-- beside the router. What the state of the metrics and of the running health checks is does not
-- change in a reload and is left out. A panic is an error of its own: one in `main` ends the program,
-- one in the task that waits for SIGHUP ends that task alone.
pub mod Build
pub mod Connection
pub mod Dispatch
pub mod Trust
pub mod Reload
pub mod Counts
pub mod Service
pub mod Denied
mod Tests
use oxi_gate.Base.{
  ℕ, ◌-◌, ◌*◌, ◌%◌, ◌^◌, ltb, leb, max, min, Text, Bool, true, false, not, ◌&&◌, if◌then◌else◌,
  is_empty, Option, none, some, List, [], ◌∷◌, Result, ok, err, ◌>>=◌, ok_or,
}
use oxi_gate.Acl
use oxi_gate.Acl.{Acl}
use oxi_gate.Config.{Config, TlsConfig, RateLimitConfigYaml, HealthCheckConfig}
use oxi_gate.Config.Load
use oxi_gate.Config.Load.{LoadError, Document, or_else, second}
use oxi_gate.Http.{Uri}
use oxi_gate.Lb.{LoadBalancer}
use oxi_gate.Machine.{Float}
use oxi_gate.Net.{IpAddr}
use oxi_gate.Proxy.Client.{HttpClient, build_client}
use oxi_gate.RateLimit
use oxi_gate.RateLimit.{RateLimiter}
use oxi_gate.Router
use oxi_gate.Router.{Router}
use oxi_gate.Tls
use oxi_gate.Tls.{Pem, ServerConfig, TlsError, load_server_config}

-- What fails, and what panics: `expect` of the root certificates, and `Semaphore::new`.
pub data Panic : Type 0 where
  no_native_roots too_many_permits : Panic

pub data BuildError : Type 0 where
  bad_tls : TlsError → BuildError
  bad_trusted : Acl.ParseError → BuildError
  panics : Panic → BuildError

-- tokio's `Semaphore::MAX_PERMITS`, which is `usize::MAX >> 3`.
abbrev pub max_permits : ℕ
max_permits = 2 ^ 61 - 1

-- `Semaphore::new`
unfoldable pub new_semaphore : ℕ → Result BuildError ℕ
new_semaphore permits =
    if leb permits max_permits then ok permits else err (panics too_many_permits)

unfoldable pub new_limit : ℕ → Result BuildError (Option ℕ)
unfolding new_semaphore
new_limit max_connections =
    if ltb 0 max_connections
    then (new_semaphore max_connections >>= λ permits. ok (some permits))
    else ok none

abbrev pub on_error {ℓ} : {E E' : Type 0} {A : Type ℓ} → (E → E') → Result E A → Result E' A
on_error f (ok a) = ok a
on_error f (err e) = err (f e)

module _ (P : Pem) where
  -- What a build finds outside the program: the files, and whether the root certificates load.
  pub record Disk : Type 0 where
    pub open_file : Text → Option P.File
    pub has_native_roots : Bool

module _ (F : Float) (parse_ip : Text → Option IpAddr) (P : Pem) where
  pub record Runtime : Type 0 where
    pub config : Config F.F64
    pub router : Router
    pub lbs : List LoadBalancer
    pub client : HttpClient
    pub rate_limiter : Option (RateLimiter F)
    pub tls : Option (ServerConfig P)
    pub request_limit : Option ℕ
    pub proxy_trusted : Option Acl

  unfoldable pub new_limiter : Option (RateLimitConfigYaml F.F64) → Option (RateLimiter F)
  unfolding RateLimit.new
  new_limiter none = none
  new_limiter (some rl) =
      some (RateLimit.new F (record { rate = rl.rps; window = second; burst = rl.burst }))

  unfoldable pub new_client : Disk P → Config F.F64 → Result BuildError HttpClient
  unfolding build_client Load.connect_timeout
  new_client disk config =
      ok_or
        (build_client disk.has_native_roots (record {
          connect_timeout = Load.connect_timeout config;
          pool_max_idle_per_host = config.pool_max_idle_per_host;
          http2 = config.upstream_http2;
        }))
        (panics no_native_roots)

  unfoldable pub acceptor : Disk P → Option TlsConfig → Result BuildError (Option (ServerConfig P))
  unfolding load_server_config
  acceptor disk none = ok none
  acceptor disk (some t) =
      on_error bad_tls (load_server_config P disk.open_file t.cert t.key) >>= λ c. ok (some c)

  unfoldable pub trusted : Config F.F64 → Result BuildError (Option Acl)
  unfolding Acl.from_config
  trusted config =
      if config.proxy_protocol && not (is_empty config.proxy_protocol_trusted_cidrs)
      then (on_error bad_trusted (Acl.from_config parse_ip config.proxy_protocol_trusted_cidrs [])
          >>= λ acl. ok (some acl))
      else ok none

  unfoldable pub runtime_of :
      Config F.F64 → HttpClient → Option (ServerConfig P) → Option ℕ → Option Acl → Runtime
  unfolding new_limiter Router.from_config
  runtime_of config client tls request_limit proxy_trusted =
      let (router, lbs) = Router.from_config config in
      record {
        config = config;
        router = router;
        lbs = lbs;
        client = client;
        rate_limiter = new_limiter config.rate_limit;
        tls = tls;
        request_limit = request_limit;
        proxy_trusted = proxy_trusted;
      }

  unfoldable pub from_config : Disk P → Config F.F64 → Result BuildError Runtime
  unfolding new_client acceptor new_limit trusted runtime_of
  from_config disk config = do
    client ← new_client disk config
    tls ← acceptor disk config.tls
    request_limit ← new_limit config.max_connections
    proxy_trusted ← trusted config
    ok (runtime_of config client tls request_limit proxy_trusted)

  -- `AppState`
  pub record AppState : Type 0 where
    pub config : Config F.F64

  unfoldable pub new : Config F.F64 → AppState
  new config = record { config = config }

  unfoldable pub load_config : AppState → Config F.F64
  load_config s = s.config

  unfoldable pub swap_config : AppState → Config F.F64 → AppState
  swap_config s new_config = record s { config = new_config }

  -- The cells that tasks share: the admin server's token and limiter, the health checks' client and
  -- thresholds, the global state and the runtime.
  pub record Cells : Type 0 where
    pub admin_token : Option Text
    pub shared_rl : Option (RateLimiter F)
    pub health_client : HttpClient
    pub health_config : HealthCheckConfig
    pub state : AppState
    pub runtime : Runtime

  abbrev pub cells_of : Config F.F64 → Runtime → Cells
  cells_of initial runtime = record {
    admin_token = runtime.config.admin_token;
    shared_rl = runtime.rate_limiter;
    health_client = runtime.client;
    health_config = runtime.config.health_check;
    state = record { config = initial };
    runtime = runtime;
  }

  -- `main`, up to the tasks.
  unfoldable pub start : Disk P → Config F.F64 → Result BuildError Cells
  unfolding from_config new
  start disk initial = do
    runtime ← from_config disk initial
    ok (record (cells_of initial runtime) { state = new initial })

  unfoldable pub install : Config F.F64 → Runtime → Cells → Cells
  unfolding swap_config
  install cfg new_rt cells = record {
    admin_token = new_rt.config.admin_token;
    shared_rl = new_rt.rate_limiter;
    health_client = new_rt.client;
    health_config = new_rt.config.health_check;
    state = swap_config cells.state cfg;
    runtime = new_rt;
  }

  -- What is done with a build: the cells, and whether the task that waits for the signal goes on,
  -- which a panic ends.
  abbrev pub rebuilt : Config F.F64 → Result BuildError Runtime → Cells → Cells × Bool
  rebuilt cfg (ok new_rt) cells = (install cfg new_rt cells, true)
  rebuilt cfg (err (panics p)) cells = (cells, false)
  rebuilt cfg (err _) cells = (cells, true)

  -- A SIGHUP, with what loading the file gave and what is on disk at that moment.
  unfoldable pub reload : Disk P → Result LoadError (Config F.F64) → Cells → Cells × Bool
  unfolding install from_config
  reload disk (err e) cells = (cells, true)
  reload disk (ok cfg) cells = rebuilt cfg (from_config disk cfg) cells

-- The limits of `main`, which a reload does not change.
unfoldable pub max_conn : {F64 : Type 0} → Config F64 → ℕ
max_conn config =
    if ltb 0 config.max_connections
    then config.max_connections
    else or_else config.max_concurrency 10_000

unfoldable pub channel_cap : ℕ → ℕ
channel_cap max_conn = max max_conn 256

unfoldable pub permits : ℕ → ℕ
permits max_conn = max max_conn 64

-- `(max_conn * 2).clamp(256, 16_384)`; the product is a `usize`, which wraps.
unfoldable pub pool_size : ℕ → ℕ
pool_size max_conn = min (max (max_conn * 2 % 2 ^ 64) 256) 16_384

-- The bounds of the channel and of the connections' semaphore, which `main` makes with one call
-- each; both panic above the largest semaphore, and `main` ends.
unfoldable pub limits : {F64 : Type 0} → Config F64 → Result BuildError (ℕ × ℕ)
unfolding max_conn channel_cap permits new_semaphore
limits config = do
  conn_limit ← new_semaphore (permits (max_conn config))
  cap ← new_semaphore (channel_cap (max_conn config))
  ok (cap, conn_limit)
