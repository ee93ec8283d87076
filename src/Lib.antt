-- ===== src/Lib.antt =====
-- OxiGate: a verification library of the reverse proxy.
--
-- The parts of the program and their modules. A request passes the handler's gates (a permit, the
-- access list, the rate limiter, the router), its body is read within limits, and a retry loop
-- tries upstreams that the load balancer selects. Before that, the connection's head may be a PROXY
-- header; and the configuration that all this is built from was validated at the start.
-- - Config: the records of src/config/mod.rs. Validator: src/config/validator.rs, function by
--   function (`validate`, `validate_upstream`, `validate_cidr`), with `Validator/Valid` for what it
--   accepts and `Validator/AccessLists` for what that means for the access lists.
-- - Lb: src/lb/mod.rs and src/lb/least_conn.rs. An upstream that is shared through an `Arc` is a
--   position in the balancer's list. `Lb/Filter` and `Lb/Select` are about every algorithm,
--   `Lb/Rotation`, `Lb/Weighted` and `Lb/Load` about one each.
-- - Router: src/router.rs. A balancer is a number, its place in the list that `from_config` builds.
-- - Acl: the access lists of src/security.rs, on addresses as 32-bit and 128-bit numbers.
-- - RateLimit: src/ratelimit.rs, with times in nanoseconds and the clock's reading as an argument.
-- - ProxyProtocol: src/proxy_protocol.rs. A connection is a list of chunks, cut anywhere.
--   `Stream` is the reader, `Words` and `Header` the two formats, `Detect` is
--   `maybe_read_proxy_header`.
-- - Proxy: src/proxy. `BodyLimit` is body_limit.rs, a body being the list of what its polls
--   find, with the timer's wake-up between them. `Headers`, `Attempt`, `Loop` and `Handler` are
--   handler.rs, from the header fields to `proxy_request`; `Headers` has
--   `apply_security_headers` of src/security.rs as well.
-- - Health: src/health/mod.rs, the counters and the check. LoadShed: src/middleware/load_shed.rs, as
--   a step relation on the counter and the calls at each place of the code.
-- - Tls: src/tls.rs. Pool: src/pool.rs. `Config/Load` is `Config::from_file` and the defaults.
-- - Server: src/main.rs and src/state.rs. `Server` builds a runtime and reloads it, `Connection` is
--   `handle_one_connection`, `Service` is `ProxySvc::call`, and `Dispatch` is the accept loop and
--   the dispatcher as a step relation on the channel, the permits and the tasks. `Proxy/Client` is
--   src/proxy/client.rs.
-- - Dashboard: src/dashboard.rs and the dispatch of the admin server. `Json` and `Stats` are
--   `stats_json` and its helpers; a `HashMap` is an association list in one of its orders.
-- - Base, Net, Http, Machine: what the modules share. Samples: inputs for the tests. Each module
--   `Tests` runs the code on inputs like those of the repository's tests.
--
-- Numbers are natural numbers, and where the source's type is narrower the wrap-around is written
-- out. Text is a list of bytes. Errors keep their kind and not their message.
--
-- Parameters are the parsers of addresses and URIs, the test that a file exists, the operations of
-- `f64`, the header map of the `http` crate, the HTTP client, the readers of YAML and PEM files,
-- and the queue and the buffers of the pool. While the handler waits for the client other tasks run,
-- so the client returns the balancer as it finds it then. What is on disk, and whether the system's
-- root certificates load, is an argument of each start and each reload.
--
-- Panics of `expect` and of `Semaphore::new` where a runtime is built, and of the semaphore and the
-- channel of `main`, are errors of their own; a semaphore has at most tokio's `MAX_PERMITS`, which
-- is 2 ^ 61 - 1 for a `usize` of 64 bits.
--
-- Fuel. The loops of `maybe_read_proxy_header` add a byte or more to a buffer of 16 in each round,
-- so 16 rounds are enough. The loop of `parse_v1` adds a byte in each round and refuses a buffer of
-- 109, so 110 rounds are enough. That neither runs out is part of what is proved.
--
-- Not modelled: sockets, timers, the TLS handshake and the start of the tasks in src/main.rs; the
-- websocket's task and the HTML page of src/dashboard.rs; src/metrics/mod.rs; the logs; the
-- tunnel of an upgraded connection.
pub mod Base
pub mod Net
pub mod Config
pub mod Lb
pub mod Router
pub mod Acl
pub mod Machine
pub mod RateLimit
pub mod ProxyProtocol
pub mod Http
pub mod Proxy
pub mod Health
pub mod LoadShed
pub mod Dashboard
pub mod Pool
pub mod Tls
pub mod Server
pub mod Samples
pub mod Validator
