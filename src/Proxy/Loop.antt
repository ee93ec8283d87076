-- ===== src/Proxy/Loop.antt =====
-- src/proxy/handler.rs: the retry loop of `proxy_request`, and `proxy_upgrade`.
-- The counters of src/metrics/mod.rs are the list of the calls made on them, oldest first. The access
-- log and the tunnel of an upgraded connection are not modelled.
pub mod Shape
pub mod Retries
pub mod Counts
mod Tests
use oxi_gate.Base.{
  ℕ, zero, suc, ◌+◌, ◌-◌, ◌^◌, min, Text, codes, str_eq, Bool, true, false, not, ◌&&◌, ◌||◌, ◌==◌,
  if◌then◌else◌, is_empty, any, Option, none, some, List, [], ◌∷◌, ◌++◌, Result, ok, err,
}
use oxi_gate.Acl.{Acl}
use oxi_gate.Config.{HeaderConfig, StickyConfig}
use oxi_gate.Http.{Uri}
use oxi_gate.Lb.{
  LoadBalancer, Handle, select, select_sticky, select_excluding, on_upstream, inc_connections,
  dec_connections,
}
use oxi_gate.Machine.{Float}
use oxi_gate.Net.{IpAddr}
use oxi_gate.Proxy.BodyLimit.{Poll, SourceError}
use oxi_gate.Proxy.Headers.{HeaderMap, set_response_headers, apply_security_headers}
use oxi_gate.Proxy.Attempt
use oxi_gate.Proxy.Attempt.{Body, full, AttemptError}
use oxi_gate.Router.{Router}

-- The calls on the counters, with their labels; a status is its number, `none` is no upstream.
pub data Tick : Type 0 where
  requests_total : Text → ℕ → Option Text → Tick
  retries_total rate_limit_rejects rate_limit_allows : Tick
  connections_inc connections_dec : Text → Tick
  request_duration : Text → Tick

abbrev idempotent_methods : List Text
idempotent_methods =
    codes "GET" ∷ codes "HEAD" ∷ codes "OPTIONS" ∷ codes "PUT" ∷ codes "DELETE" ∷ []

-- `retries.saturating_add(1)` on 32 bits, or a single attempt.
unfoldable pub max_attempts : Bool → Bool → ℕ → Text → Text → ℕ
unfolding str_eq
max_attempts force_retry_with_body retry_idempotent_only retries method body =
    if force_retry_with_body
      || is_empty body
      || not retry_idempotent_only
      || any (str_eq method) idempotent_methods
    then min (retries + 1) (2 ^ 32 - 1)
    else 1

module _ (F : Float) (M : HeaderMap) (parse_uri : Text → Option Uri) (ip_to_string : IpAddr → Text)
    (decimal : ℕ → Text) where
  abbrev pub Response : Type 0
  Response = Attempt.Response M parse_uri ip_to_string

  abbrev pub ProxyAttempt : Type 0
  ProxyAttempt = Attempt.ProxyAttempt M parse_uri ip_to_string

  pub record ProxyContext : Type 0 where
    pub router : Router
    pub retries : ℕ
    pub sticky : Option StickyConfig
    pub headers : HeaderConfig
    pub max_body_bytes : ℕ
    pub retry_idempotent_only : Bool
    pub force_retry_with_body : Bool
    pub acl : Option Acl
    pub security_headers : Bool
    pub client_is_tls : Bool
    pub idle_timeout : ℕ

  pub record Request : Type 0 where
    pub method : Text
    pub path : Text
    pub query : Option Text
    pub version : ℕ
    pub headers : M.H
    pub body : List (ℕ × Poll SourceError)

  unfoldable pub error_response : ℕ → Text → Response
  error_response status msg = record {
    status = status;
    version = 11;
    headers =
        M.append (codes "Connection") (codes "close")
          (M.append (codes "Content-Type") (codes "text/plain; charset=utf-8") M.empty);
    body = full msg;
  }

  abbrev pub cookie_text : StickyConfig → Text → Text
  cookie_text sticky address =
      sticky.cookie_name
      ++ b'=' ∷ address
      ++ codes "; Path=/; Max-Age="
      ++ decimal sticky.max_age_secs
      ++ codes "; HttpOnly; SameSite=Lax"

  abbrev with_sticky : Option StickyConfig → Text → M.H → M.H
  with_sticky none address h = h
  with_sticky (some sticky) address h =
      if M.is_value (cookie_text sticky address)
      then M.append (codes "set-cookie") (cookie_text sticky address) h
      else h

  -- What the handler adds to an upstream's response: the sticky cookie, the security headers, then
  -- the configured ones.
  unfoldable pub decorate : ProxyContext → Text → Response → Response
  unfolding apply_security_headers set_response_headers
  decorate ctx address r =
      let h = with_sticky ctx.sticky address r.headers in
      let h = if ctx.security_headers then apply_security_headers M h else h in
      record r { headers = set_response_headers M ctx.headers.response_set h }

  abbrev pub attempt_for : ProxyContext → Request → Text → IpAddr → Bool → Text → ProxyAttempt
  attempt_for ctx req body remote preserve_upgrade address = record {
    headers = req.headers;
    version = req.version;
    body_bytes = body;
    address = address;
    method = req.method;
    path = req.path;
    query = req.query;
    remote_addr = remote;
    request_set = ctx.headers.request_set;
    idle_timeout = ctx.idle_timeout;
    client_is_tls = ctx.client_is_tls;
    preserve_upgrade = preserve_upgrade;
  }

  module _ (World : Type 0) (clock : World → ℕ)
      (send : World
        → LoadBalancer
        → Attempt.ProxyRequest M parse_uri ip_to_string
        → (World × LoadBalancer) × Option (Attempt.UpstreamResponse M parse_uri ip_to_string)) where
    abbrev pub attempt_proxy :
        ProxyAttempt → World → LoadBalancer → (World × LoadBalancer) × Result AttemptError Response
    attempt_proxy = Attempt.attempt_proxy M parse_uri ip_to_string World clock send

    -- What the loop leaves: the world, the balancer, the calls on the counters, and a response.
    pub record Ran : Type 0 where
      pub world : World
      pub lb : LoadBalancer
      pub ticks : List Tick
      pub response : Option Response

    abbrev pub choice : ℕ → Option Text → List Text → LoadBalancer → LoadBalancer × Option Handle
    choice attempt sticky_val tried lb =
        if attempt == 0 then select_sticky lb sticky_val else select_excluding lb tried

    abbrev pub retry_tick : ℕ → List Tick → List Tick
    retry_tick attempt ticks = if attempt == 0 then ticks else retries_total ∷ ticks

    abbrev pub around : ℕ → Text → Ran → Ran
    around attempt address r = record r {
      ticks = retry_tick attempt (connections_inc address ∷ connections_dec address ∷ r.ticks);
    }

    abbrev pub answer : ProxyContext → Text → Text → World → LoadBalancer → Response → Ran
    answer ctx method address world lb response = record {
      world = world;
      lb = lb;
      ticks = requests_total method response.status (some address) ∷ request_duration address ∷ [];
      response = some (decorate ctx address response);
    }

    -- The attempt at a chosen upstream, its connection counted around it.
    unfoldable pub counted_attempt :
        ProxyAttempt
        → Handle
        → World
        → LoadBalancer
        → (World × LoadBalancer) × Result AttemptError Response
    counted_attempt a h world lb =
        let ((world', lb'), result) =
          attempt_proxy a world (on_upstream h.index inc_connections lb) in
        ((world', on_upstream h.index dec_connections lb'), result)

    -- `for attempt in 0..max_attempts`, the number of attempts left being the first argument.
    unfoldable pub attempts :
        ℕ
        → ℕ
        → ProxyContext
        → Request
        → Text
        → IpAddr
        → Option Text
        → List Text
        → World
        → LoadBalancer
        → Ran
    unfolding counted_attempt decorate
    attempts zero attempt ctx req body remote sticky_val tried world lb = record {
      world = world;
      lb = lb;
      ticks = [];
      response = none;
    }
    attempts (suc left) attempt ctx req body remote sticky_val tried world lb =
        let (lb', chosen) = choice attempt sticky_val tried lb in
        elim chosen [
          | none ↦ record {
            world = world;
            lb = lb';
            ticks = retry_tick attempt [];
            response = none;
          }
          | some h ↦
              let a = attempt_for ctx req body remote false h.runtime.address in
              let ((world', lb''), result) = counted_attempt a h world lb' in
              elim result [
                | ok response ↦
                    around attempt h.runtime.address
                      (answer ctx req.method h.runtime.address world' lb'' response)
                | err e ↦ around attempt h.runtime.address (
                    attempts left (suc attempt) ctx req body remote sticky_val
                      (tried ++ h.runtime.address ∷ []) world' lb'')
              ]
        ]

    -- The upgrade of a connection: one attempt, whose connection is not on the gauge.
    unfoldable pub proxy_upgrade :
        ProxyContext → Request → IpAddr → World → LoadBalancer → Ran × Response
    unfolding select counted_attempt error_response
    proxy_upgrade ctx req remote world lb =
        let (lb', chosen) = select lb in
        elim chosen [
          | none ↦ (
            record { world = world; lb = lb'; ticks = []; response = none },
            error_response 503 (codes "No healthy upstreams"),
          )
          | some h ↦
              let a = attempt_for ctx req [] remote true h.runtime.address in
              let ((world', lb''), result) = counted_attempt a h world lb' in
              elim result [
                | ok response ↦ (
                  record {
                    world = world';
                    lb = lb'';
                    ticks =
                        requests_total req.method response.status (some h.runtime.address)
                        ∷ request_duration h.runtime.address
                        ∷ [];
                    response = some response;
                  },
                  response,
                )
                | err e ↦ (
                  record { world = world'; lb = lb''; ticks = []; response = none },
                  error_response 502 (codes "Bad Gateway"),
                )
              ]
        ]
