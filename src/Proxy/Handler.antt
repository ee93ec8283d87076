-- ===== src/Proxy/Handler.antt =====
-- src/proxy/handler.rs: `proxy_request`, from the gates to the response.
pub mod Answers
pub mod Gates
pub mod Sticky
mod Tests
use oxi_gate.Base.{
  ℕ, zero, suc, ◌+◌, Text, codes, Bool, true, false, not, if◌then◌else◌, get_elem?, modify, Option,
  none, some, List, [], ◌∷◌, ◌++◌, ok, err,
}
use oxi_gate.Acl.{Acl, is_allowed}
use oxi_gate.Config.{StickyConfig}
use oxi_gate.Http.{Uri}
use oxi_gate.Lb.{LoadBalancer}
use oxi_gate.Machine.{Float}
use oxi_gate.Net.{IpAddr}
use oxi_gate.Proxy.Attempt
use oxi_gate.Proxy.BodyLimit.{too_large, idle_timeout, other, collect_limited}
use oxi_gate.Proxy.Headers.{HeaderMap, and_then, is_upgrade_request, extract_cookie}
use oxi_gate.Proxy.Loop
use oxi_gate.Proxy.Loop.{Tick, requests_total, rate_limit_rejects, rate_limit_allows, max_attempts}
use oxi_gate.RateLimit.{RateLimiter, check}
use oxi_gate.Router.{resolve}

module _ (F : Float) (M : HeaderMap) (parse_uri : Text → Option Uri) (ip_to_string : IpAddr → Text)
    (decimal : ℕ → Text) (World : Type 0) (clock : World → ℕ)
    (send : World
      → LoadBalancer
      → Attempt.ProxyRequest M parse_uri ip_to_string
      → (World × LoadBalancer) × Option (Attempt.UpstreamResponse M parse_uri ip_to_string)) where
  abbrev pub Response : Type 0
  Response = Loop.Response F M parse_uri ip_to_string decimal

  abbrev pub ProxyContext : Type 0
  ProxyContext = Loop.ProxyContext F M parse_uri ip_to_string decimal

  abbrev pub Request : Type 0
  Request = Loop.Request F M parse_uri ip_to_string decimal

  abbrev pub Ran : Type 0
  Ran = Loop.Ran F M parse_uri ip_to_string decimal World clock send

  abbrev pub attempts :
      ℕ
      → ℕ
      → ProxyContext
      → Request
      → Text
      → IpAddr
      → Option Text
      → List Text
      → World
      → LoadBalancer
      → Ran
  attempts = Loop.attempts F M parse_uri ip_to_string decimal World clock send

  abbrev pub proxy_upgrade : ProxyContext → Request → IpAddr → World → LoadBalancer → Ran × Response
  proxy_upgrade = Loop.proxy_upgrade F M parse_uri ip_to_string decimal World clock send

  abbrev pub error_response : ℕ → Text → Response
  error_response = Loop.error_response F M parse_uri ip_to_string decimal

  -- What requests share: the balancers by their number, the limiter and the permits that are left.
  pub record State : Type 0 where
    pub lbs : List LoadBalancer
    pub rate_limiter : Option (RateLimiter F)
    pub request_limit : Option ℕ
    pub ticks : List Tick
    pub world : World

  abbrev pub count : List Tick → State → State
  count ticks s = record s { ticks = s.ticks ++ ticks }

  -- An early return with an error response, counted under its status.
  abbrev pub refuse : Text → ℕ → Text → State → State × Response
  refuse method status msg s =
      (count (requests_total method status none ∷ []) s, error_response status msg)

  abbrev pub resume : ℕ → State → Ran → State
  resume i s r = record s {
    lbs = modify s.lbs i (λ _. r.lb);
    ticks = s.ticks ++ r.ticks;
    world = r.world;
  }

  abbrev pub or_bad_gateway : Text → Option Response → State → State × Response
  or_bad_gateway method (some response) s = (s, response)
  or_bad_gateway method none s = refuse method 502 (codes "Bad Gateway") s

  abbrev pub sticky_value : Option StickyConfig → M.H → Option Text
  sticky_value none headers = none
  sticky_value (some sticky) headers = extract_cookie M headers sticky.cookie_name

  -- With the body read: the attempts.
  unfoldable pub forward :
      ProxyContext
      → Request
      → IpAddr
      → Option Text
      → ℕ
      → LoadBalancer
      → Text
      → State
      → State × Response
  unfolding Loop.attempts max_attempts Loop.error_response
  forward ctx req remote sticky_val i lb body s =
      let n =
        max_attempts ctx.force_retry_with_body ctx.retry_idempotent_only ctx.retries req.method
          body in
      let r = attempts n 0 ctx req body remote sticky_val [] s.world lb in
      or_bad_gateway req.method r.response (resume i s r)

  unfoldable pub read_body :
      ProxyContext → Request → IpAddr → Option Text → ℕ → LoadBalancer → State → State × Response
  unfolding forward collect_limited Loop.error_response
  read_body ctx req remote sticky_val i lb s =
      elim (collect_limited req.body ctx.max_body_bytes (clock s.world) ctx.idle_timeout) [
        | ok body ↦ forward ctx req remote sticky_val i lb body s
        | err too_large ↦ refuse req.method 413 (codes "Payload Too Large") s
        | err idle_timeout ↦ refuse req.method 408 (codes "Request Body Idle Timeout") s
        | err other ↦ (s, error_response 400 (codes "Bad Request"))
      ]

  abbrev with_index : List LoadBalancer → ℕ → Option (ℕ × LoadBalancer)
  with_index lbs i = elim (get_elem? lbs i) [ none ↦ none | some lb ↦ some (i, lb) ]

  -- The router hands out a balancer of the list: its numbers are in range.
  unfoldable pub route : ProxyContext → Request → IpAddr → State → State × Response
  unfolding read_body Loop.proxy_upgrade resolve extract_cookie is_upgrade_request
      Loop.error_response
  route ctx req remote s = elim (and_then (resolve ctx.router req.path) (with_index s.lbs)) [
    | none ↦ refuse req.method 404 (codes "No route matched") s
    | some (i, lb) ↦
        if is_upgrade_request M req.headers
        then (let (r, response) = proxy_upgrade ctx req remote s.world lb in
            (resume i s r, response))
        else read_body ctx req remote (sticky_value ctx.sticky req.headers) i lb s
  ]

  unfoldable pub limit_rate : ProxyContext → Request → IpAddr → State → State × Response
  unfolding route check Loop.error_response
  limit_rate ctx req remote s = elim s.rate_limiter [
    | none ↦ route ctx req remote s
    | some limiter ↦
        let (limiter', allowed) = check F limiter (clock s.world) remote in
        let s' = record s { rate_limiter = some limiter' } in
        if allowed
        then route ctx req remote (count (rate_limit_allows ∷ []) s')
        else refuse req.method 429 (codes "Too Many Requests") (count (rate_limit_rejects ∷ []) s')
  ]

  abbrev is_denied : Option Acl → IpAddr → Bool
  is_denied none ip = false
  is_denied (some acl) ip = not (is_allowed acl ip)

  unfoldable pub check_acl : ProxyContext → Request → IpAddr → State → State × Response
  unfolding limit_rate is_allowed Loop.error_response
  check_acl ctx req remote s =
      if is_denied ctx.acl remote
      then refuse req.method 403 (codes "Forbidden") s
      else limit_rate ctx req remote s

  -- The permit goes back when the handler returns.
  abbrev pub give_back : State → State
  give_back s = record s {
    request_limit = elim s.request_limit [ none ↦ none | some n ↦ some (n + 1) ];
  }

  unfoldable pub proxy_request : ProxyContext → Request → IpAddr → State → State × Response
  unfolding check_acl Loop.error_response
  proxy_request ctx req remote s = elim s.request_limit [
    | none ↦ check_acl ctx req remote s
    | some zero ↦ refuse req.method 503 (codes "Too Many Concurrent Requests") s
    | some (suc n) ↦
        let (s', response) = check_acl ctx req remote (record s { request_limit = some n }) in
        (give_back s', response)
  ]
