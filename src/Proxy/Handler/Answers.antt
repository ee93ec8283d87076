-- ===== src/Proxy/Handler/Answers.antt =====
-- What `proxy_request` counts for each request, and the permits that it leaves.
use oxi_gate.Base.{
  ℕ, ◌≡◌, refl, ap, ◌∙◌, ◌⊎◌, inl, inr, Text, codes, true, Option, none, some, Option-cases, List,
  [], ◌∷◌, ◌++◌, Result, ok, err, Result-cases,
}
use oxi_gate.Http.{Uri}
use oxi_gate.Lb.{LoadBalancer, select}
use oxi_gate.Machine.{Float}
use oxi_gate.Net.{IpAddr}
use oxi_gate.Proxy.Attempt
use oxi_gate.Proxy.BodyLimit.{BodyLimitError, too_large, idle_timeout, other, collect_limited}
use oxi_gate.Proxy.Handler.{
  ProxyContext, Request, Response, State, Ran, refuse, resume, or_bad_gateway, forward, read_body,
  attempts, error_response,
}
use oxi_gate.Proxy.Headers.{HeaderMap, is_upgrade_request}
use oxi_gate.Proxy.Loop
use oxi_gate.Proxy.Loop.{
  Tick, requests_total, retries_total, rate_limit_rejects, rate_limit_allows, connections_inc,
  connections_dec, request_duration, max_attempts, counted_attempt, attempt_for,
}
use oxi_gate.Proxy.Loop.Counts.{counted, IsCounted, attempts-IsRecorded}
use mathlib.Core.List.{append-nil}

pub counted-append : (xs ys : List Tick) → counted (xs ++ ys) ≡ counted xs ++ counted ys
counted-append [] ys = refl
counted-append (requests_total m n u ∷ xs) ys = ap (◌∷◌ (n, u)) (counted-append xs ys)
counted-append (retries_total ∷ xs) ys = counted-append xs ys
counted-append (rate_limit_rejects ∷ xs) ys = counted-append xs ys
counted-append (rate_limit_allows ∷ xs) ys = counted-append xs ys
counted-append (connections_inc a ∷ xs) ys = counted-append xs ys
counted-append (connections_dec a ∷ xs) ys = counted-append xs ys
counted-append (request_duration a ∷ xs) ys = counted-append xs ys

module _ (F : Float) (M : HeaderMap) (parse_uri : Text → Option Uri) (ip_to_string : IpAddr → Text)
    (decimal : ℕ → Text) (World : Type 0) (clock : World → ℕ)
    (send : World
      → LoadBalancer
      → Attempt.ProxyRequest M parse_uri ip_to_string
      → (World × LoadBalancer) × Option (Attempt.UpstreamResponse M parse_uri ip_to_string))
    (ctx : ProxyContext F M parse_uri ip_to_string decimal World clock send)
    (req : Request F M parse_uri ip_to_string decimal World clock send) (remote : IpAddr) where
  abbrev pub Outcome : Type 0
  Outcome =
      State F M parse_uri ip_to_string decimal World clock send
      × Response F M parse_uri ip_to_string decimal World clock send

  -- The failures that no counter shows.
  abbrev pub IsUncounted : ℕ → Type 0
  IsUncounted status =
      (status ≡ 400)
      ⊎ ((is_upgrade_request M req.headers ≡ true) × ((status ≡ 502) ⊎ (status ≡ 503)))

  -- The permits are as they were, and one request more is counted, under the response's status; or
  -- none is, for an uncounted failure.
  abbrev pub IsAnswered :
      State F M parse_uri ip_to_string decimal World clock send → Outcome → Type 0
  IsAnswered s out =
      (out.0.request_limit ≡ s.request_limit)
      × (((u : Option Text) × (counted out.0.ticks ≡ counted s.ticks ++ (out.1.status, u) ∷ []))
          ⊎ ((counted out.0.ticks ≡ counted s.ticks) × IsUncounted out.1.status))

  pub refuse-IsAnswered :
      (status : ℕ) (msg : Text) (s : State F M parse_uri ip_to_string decimal World clock send)
      → IsAnswered s
          (refuse F M parse_uri ip_to_string decimal World clock send req.method status msg s)
  unfolding Loop.error_response
  refuse-IsAnswered status msg s =
      (refl, inl (none, counted-append s.ticks (requests_total req.method status none ∷ [])))

  pub carry :
      (s t : State F M parse_uri ip_to_string decimal World clock send) (out : Outcome)
      → t.request_limit ≡ s.request_limit
      → counted t.ticks ≡ counted s.ticks
      → IsAnswered t out
      → IsAnswered s out
  carry s t (s', r) e f (p, inl (u, q)) = (p ∙ e, inl (u, q ∙ ap (λ c. c ++ (r.status, u) ∷ []) f))
  carry s t (s', r) e f (p, inr (q, x)) = (p ∙ e, inr (q ∙ f, x))

  forward-IsAnswered :
      (sticky_val : Option Text) (i : ℕ) (lb : LoadBalancer) (body : Text)
      (s : State F M parse_uri ip_to_string decimal World clock send)
      → IsAnswered s (
          forward F M parse_uri ip_to_string decimal World clock send ctx req remote sticky_val i lb
            body s)
  unfolding forward
  forward-IsAnswered sticky_val i lb body s =
      let n =
        max_attempts ctx.force_retry_with_body ctx.retry_idempotent_only ctx.retries req.method
          body in
      let r =
        attempts F M parse_uri ip_to_string decimal World clock send n 0 ctx req body remote
          sticky_val [] s.world lb in
      by_response r r.response
        (attempts-IsRecorded F M parse_uri ip_to_string decimal World clock send ctx req body remote
          sticky_val n s.world lb).1
    where
      by_response :
          (r : Ran F M parse_uri ip_to_string decimal World clock send)
          (o : Option (Response F M parse_uri ip_to_string decimal World clock send))
          → IsCounted F M parse_uri ip_to_string decimal World clock send ctx req body remote
              sticky_val
              (counted r.ticks)
              o
          → IsAnswered s (
              or_bad_gateway F M parse_uri ip_to_string decimal World clock send req.method o
                (resume F M parse_uri ip_to_string decimal World clock send i s r))
      by_response r (some response) (a, e) =
          (refl, inl (some a, counted-append s.ticks r.ticks ∙ ap (λ c. counted s.ticks ++ c) e))
      by_response r none e =
          carry s (resume F M parse_uri ip_to_string decimal World clock send i s r)
            (refuse F M parse_uri ip_to_string decimal World clock send req.method 502
              (codes "Bad Gateway")
              (resume F M parse_uri ip_to_string decimal World clock send i s r))
            refl
            (counted-append s.ticks r.ticks
              ∙ ap (λ c. counted s.ticks ++ c) e
              ∙ append-nil (counted s.ticks))
            (refuse-IsAnswered 502 (codes "Bad Gateway")
              (resume F M parse_uri ip_to_string decimal World clock send i s r))

  pub read_body-IsAnswered :
      (sticky_val : Option Text) (i : ℕ) (lb : LoadBalancer)
      (s : State F M parse_uri ip_to_string decimal World clock send)
      → IsAnswered s (
          read_body F M parse_uri ip_to_string decimal World clock send ctx req remote sticky_val i
            lb s)
  unfolding read_body Loop.error_response
  read_body-IsAnswered sticky_val i lb s =
      by_body (collect_limited req.body ctx.max_body_bytes (clock s.world) ctx.idle_timeout)
    where
      by_body :
          (r : Result BodyLimitError Text)
          → IsAnswered s (elim r [
            | ok body ↦
                forward F M parse_uri ip_to_string decimal World clock send ctx req remote
                  sticky_val i lb body s
            | err too_large ↦
                refuse F M parse_uri ip_to_string decimal World clock send req.method 413
                  (codes "Payload Too Large")
                  s
            | err idle_timeout ↦
                refuse F M parse_uri ip_to_string decimal World clock send req.method 408
                  (codes "Request Body Idle Timeout")
                  s
            | err other ↦ (
              s,
              error_response F M parse_uri ip_to_string decimal World clock send 400
                  (codes "Bad Request"),
            )
          ])
      by_body (ok body) = forward-IsAnswered sticky_val i lb body s
      by_body (err too_large) = refuse-IsAnswered 413 (codes "Payload Too Large") s
      by_body (err idle_timeout) = refuse-IsAnswered 408 (codes "Request Body Idle Timeout") s
      by_body (err other) = (refl, inr (refl, inl refl))

  -- An upgrade that is answered by the upstream, and one that fails.
  pub upgrade-IsAnswered :
      (i : ℕ) (lb : LoadBalancer) (s : State F M parse_uri ip_to_string decimal World clock send)
      → is_upgrade_request M req.headers ≡ true
      → IsAnswered s (
        resume F M parse_uri ip_to_string decimal World clock send i s
            (Loop.proxy_upgrade F M parse_uri ip_to_string decimal World clock send ctx req remote
              s.world lb).0,
        (Loop.proxy_upgrade F M parse_uri ip_to_string decimal World clock send ctx req remote
            s.world lb).1,
      )
  unfolding Loop.proxy_upgrade Loop.error_response
  upgrade-IsAnswered i lb s upgrade = elim (Option-cases (select lb).1) [
    | inl missing ↦
        rw (missing, Loop.proxy_upgrade)
          (refl, inr (ap counted (append-nil s.ticks), inr (upgrade, inr refl)))
    | inr (h, found) ↦
        elim (Result-cases
          (counted_attempt F M parse_uri ip_to_string decimal World clock send
            (attempt_for F M parse_uri ip_to_string decimal ctx req [] remote true
              h.runtime.address)
            h s.world (select lb).0).1) [
              | inl (r, done) ↦
                  rw (found, done, Loop.proxy_upgrade)
                    (refl, inl (some h.runtime.address, counted-append s.ticks _))
              | inr (e, failed) ↦
                  rw (found, failed, Loop.proxy_upgrade)
                    (refl, inr (ap counted (append-nil s.ticks), inr (upgrade, inl refl)))
            ]
  ]
