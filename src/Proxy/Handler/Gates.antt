-- ===== src/Proxy/Handler/Gates.antt =====
-- Each gate of `proxy_request`, and the whole of it.
use oxi_gate.Base.{
  ℕ, zero, suc, ◌≡◌, refl, ap, ◌∙◌, inl, inr, Text, codes, Bool, true, false, Bool-cases,
  if◌then◌else◌, Option, none, some, [], ◌∷◌, arith,
}
use oxi_gate.Http.{Uri}
use oxi_gate.Lb.{LoadBalancer}
use oxi_gate.Machine.{Float}
use oxi_gate.Net.{IpAddr}
use oxi_gate.Proxy.Attempt
use oxi_gate.Proxy.Handler.{
  ProxyContext, Request, State, count, refuse, resume, read_body, route, limit_rate, check_acl,
  give_back, proxy_request, sticky_value, is_denied, with_index,
}
use oxi_gate.Proxy.Headers.{HeaderMap, and_then, is_upgrade_request}
use oxi_gate.Proxy.Loop
use oxi_gate.Proxy.Loop.{
  Tick, requests_total, retries_total, rate_limit_rejects, rate_limit_allows, connections_inc,
  connections_dec, request_duration, max_attempts, counted_attempt, attempt_for,
}
use oxi_gate.Proxy.Loop.Counts.{counted}
use oxi_gate.RateLimit.{RateLimiter, check}
use oxi_gate.Router.{resolve}
use mathlib.Core.List.{append-nil}
use oxi_gate.Proxy.Handler.Answers.{
  Outcome, IsAnswered, counted-append, carry, refuse-IsAnswered, read_body-IsAnswered,
  upgrade-IsAnswered,
}

module _ (F : Float) (M : HeaderMap) (parse_uri : Text → Option Uri) (ip_to_string : IpAddr → Text)
    (decimal : ℕ → Text) (World : Type 0) (clock : World → ℕ)
    (send : World
      → LoadBalancer
      → Attempt.ProxyRequest M parse_uri ip_to_string
      → (World × LoadBalancer) × Option (Attempt.UpstreamResponse M parse_uri ip_to_string))
    (ctx : ProxyContext F M parse_uri ip_to_string decimal World clock send)
    (req : Request F M parse_uri ip_to_string decimal World clock send) (remote : IpAddr) where
  route-IsAnswered :
      (s : State F M parse_uri ip_to_string decimal World clock send)
      → IsAnswered F M parse_uri ip_to_string decimal World clock send ctx req remote s
          (route F M parse_uri ip_to_string decimal World clock send ctx req remote s)
  unfolding route
  route-IsAnswered s = by_route (
      and_then (resolve ctx.router req.path)
        (with_index F M parse_uri ip_to_string decimal World clock send s.lbs))
    where
      by_kind :
          (i : ℕ) (lb : LoadBalancer) (b : Bool)
          → is_upgrade_request M req.headers ≡ b
          → IsAnswered F M parse_uri ip_to_string decimal World clock send ctx req remote s (
              if b
              then (
                resume F M parse_uri ip_to_string decimal World clock send i s
                    (Loop.proxy_upgrade F M parse_uri ip_to_string decimal World clock send ctx req
                      remote s.world lb).0,
                (Loop.proxy_upgrade F M parse_uri ip_to_string decimal World clock send ctx req
                    remote s.world lb).1,
              )
              else read_body F M parse_uri ip_to_string decimal World clock send ctx req remote
                  (sticky_value F M parse_uri ip_to_string decimal World clock send ctx.sticky
                    req.headers)
                  i
                  lb
                  s)
      by_kind i lb true upgrade =
          upgrade-IsAnswered F M parse_uri ip_to_string decimal World clock send ctx req remote i lb
            s upgrade
      by_kind i lb false plain =
          read_body-IsAnswered F M parse_uri ip_to_string decimal World clock send ctx req remote
            (sticky_value F M parse_uri ip_to_string decimal World clock send ctx.sticky
              req.headers)
            i lb s

      by_route :
          (o : Option (ℕ × LoadBalancer))
          → IsAnswered F M parse_uri ip_to_string decimal World clock send ctx req remote s
              (elim o [
                | none ↦
                    refuse F M parse_uri ip_to_string decimal World clock send req.method 404
                      (codes "No route matched")
                      s
                | some (i, lb) ↦
                    if is_upgrade_request M req.headers
                    then (let (r, response) =
                          Loop.proxy_upgrade F M parse_uri ip_to_string decimal World clock send ctx
                            req remote s.world lb in
                        (
                          resume F M parse_uri ip_to_string decimal World clock send i s r,
                          response,
                        ))
                    else read_body F M parse_uri ip_to_string decimal World clock send ctx req
                        remote
                        (sticky_value F M parse_uri ip_to_string decimal World clock send ctx.sticky
                          req.headers)
                        i
                        lb
                        s
              ])
      by_route none =
          refuse-IsAnswered F M parse_uri ip_to_string decimal World clock send ctx req remote 404
            (codes "No route matched") s
      by_route (some (i, lb)) = by_kind i lb (is_upgrade_request M req.headers) refl

  limit_rate-IsAnswered :
      (s : State F M parse_uri ip_to_string decimal World clock send)
      → IsAnswered F M parse_uri ip_to_string decimal World clock send ctx req remote s
          (limit_rate F M parse_uri ip_to_string decimal World clock send ctx req remote s)
  unfolding limit_rate
  limit_rate-IsAnswered s = by_limiter s.rate_limiter
    where
      by_check :
          (limiter : RateLimiter F) (b : Bool)
          → IsAnswered F M parse_uri ip_to_string decimal World clock send ctx req remote s (
              if b
              then route F M parse_uri ip_to_string decimal World clock send ctx req remote (
                  count F M parse_uri ip_to_string decimal World clock send
                    (rate_limit_allows ∷ [])
                    (record s { rate_limiter = some limiter }))
              else refuse F M parse_uri ip_to_string decimal World clock send req.method 429
                  (codes "Too Many Requests")
                  (count F M parse_uri ip_to_string decimal World clock send
                    (rate_limit_rejects ∷ [])
                    (record s { rate_limiter = some limiter })))
      by_check limiter true =
          let t =
            count F M parse_uri ip_to_string decimal World clock send (rate_limit_allows ∷ [])
              (record s { rate_limiter = some limiter }) in
          carry F M parse_uri ip_to_string decimal World clock send ctx req remote s t
            (route F M parse_uri ip_to_string decimal World clock send ctx req remote t) refl
            (counted-append s.ticks (rate_limit_allows ∷ []) ∙ append-nil (counted s.ticks))
            (route-IsAnswered t)
      by_check limiter false =
          let t =
            count F M parse_uri ip_to_string decimal World clock send (rate_limit_rejects ∷ [])
              (record s { rate_limiter = some limiter }) in
          carry F M parse_uri ip_to_string decimal World clock send ctx req remote s t
            (refuse F M parse_uri ip_to_string decimal World clock send req.method 429
              (codes "Too Many Requests") t)
            refl (counted-append s.ticks (rate_limit_rejects ∷ []) ∙ append-nil (counted s.ticks))
            (refuse-IsAnswered F M parse_uri ip_to_string decimal World clock send ctx req remote
              429 (codes "Too Many Requests") t)

      by_limiter :
          (o : Option (RateLimiter F))
          → IsAnswered F M parse_uri ip_to_string decimal World clock send ctx req remote s
              (elim o [
                | none ↦ route F M parse_uri ip_to_string decimal World clock send ctx req remote s
                | some limiter ↦
                    let (limiter', allowed) = check F limiter (clock s.world) remote in
                    let s' = record s { rate_limiter = some limiter' } in
                    if allowed
                    then route F M parse_uri ip_to_string decimal World clock send ctx req remote (
                        count F M parse_uri ip_to_string decimal World clock send
                          (rate_limit_allows ∷ [])
                          s')
                    else refuse F M parse_uri ip_to_string decimal World clock send req.method 429
                        (codes "Too Many Requests")
                        (count F M parse_uri ip_to_string decimal World clock send
                          (rate_limit_rejects ∷ [])
                          s')
              ])
      by_limiter none = route-IsAnswered s
      by_limiter (some limiter) =
          by_check (check F limiter (clock s.world) remote).0
            (check F limiter (clock s.world) remote).1

  check_acl-IsAnswered :
      (s : State F M parse_uri ip_to_string decimal World clock send)
      → IsAnswered F M parse_uri ip_to_string decimal World clock send ctx req remote s
          (check_acl F M parse_uri ip_to_string decimal World clock send ctx req remote s)
  unfolding check_acl
  check_acl-IsAnswered s =
      elim (Bool-cases
        (is_denied F M parse_uri ip_to_string decimal World clock send ctx.acl remote)) [
          | inl denied ↦ rw denied (
              refuse-IsAnswered F M parse_uri ip_to_string decimal World clock send ctx req remote
                403 (codes "Forbidden") s)
          | inr admitted ↦ rw admitted (limit_rate-IsAnswered s)
        ]

  release_lem :
      (n : ℕ) (s : State F M parse_uri ip_to_string decimal World clock send)
      (out : Outcome F M parse_uri ip_to_string decimal World clock send ctx req remote)
      → IsAnswered F M parse_uri ip_to_string decimal World clock send ctx req remote
          (record s { request_limit = some n })
          out
      → IsAnswered F M parse_uri ip_to_string decimal World clock send ctx req remote
          (record s { request_limit = some (suc n) })
          (give_back F M parse_uri ip_to_string decimal World clock send out.0, out.1)
  release_lem n s (s', r) (p, q) = (rw p (ap some (omega arith)), q)

  -- Every request is answered, the permits are then as before, and exactly one request more is
  -- counted, under the status of its response. The exceptions, which are not counted at all, are a
  -- body that cannot be read (400) and an upgrade that fails (502 or 503).
  pub proxy_request-IsAnswered :
      (s : State F M parse_uri ip_to_string decimal World clock send)
      → IsAnswered F M parse_uri ip_to_string decimal World clock send ctx req remote s
          (proxy_request F M parse_uri ip_to_string decimal World clock send ctx req remote s)
  unfolding proxy_request
  proxy_request-IsAnswered s = by_limit s.request_limit refl
    where
      by_limit :
          (o : Option ℕ)
          → s.request_limit ≡ o
          → IsAnswered F M parse_uri ip_to_string decimal World clock send ctx req remote
              (record s { request_limit = o })
              (proxy_request F M parse_uri ip_to_string decimal World clock send ctx req remote
                (record s { request_limit = o }))
      by_limit none e = check_acl-IsAnswered (record s { request_limit = none })
      by_limit (some zero) e =
          refuse-IsAnswered F M parse_uri ip_to_string decimal World clock send ctx req remote 503
            (codes "Too Many Concurrent Requests") (record s { request_limit = some zero })
      by_limit (some (suc n)) e =
          release_lem n s
            (check_acl F M parse_uri ip_to_string decimal World clock send ctx req remote
              (record s { request_limit = some n }))
            (check_acl-IsAnswered (record s { request_limit = some n }))
