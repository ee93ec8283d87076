-- ===== src/Proxy/Loop/Counts.antt =====
-- What the retry loop counts, and what it leaves of the connection counts.
use oxi_gate.Base.{
  ℕ, zero, suc, ◌<◌, ◌≡◌, refl, ap, sym, ◌∙◌, subst, inl, inr, Text, Bool, true, false, ◌==◌,
  if◌then◌else◌, Option, none, some, List, [], ◌∷◌, ◌++◌, modify, modify_undo, All, All-In,
  get_elem?-In, In, Result-cases, arith,
}
use oxi_gate.Http.{Uri}
use oxi_gate.Lb.{
  LoadBalancer, UpstreamRuntime, Handle, select_excluding, select_sticky, on_upstream,
  inc_connections, dec_connections, usize_mod,
}
use oxi_gate.Lb.Select.{select_excluding-keeps, select_sticky_lem}
use oxi_gate.Machine.{Float}
use oxi_gate.Net.{IpAddr}
use oxi_gate.Proxy.Attempt
use oxi_gate.Proxy.Attempt.{build_proxy_request}
use oxi_gate.Proxy.Headers.{HeaderMap}
use oxi_gate.Proxy.Loop.{
  Tick, requests_total, retries_total, connections_inc, connections_dec, ProxyContext, Request,
  Response, ProxyAttempt, Ran, attempts, counted_attempt, decorate,
}
use oxi_gate.Proxy.Loop.Shape.{loop, loop-round, chosen, tried_one}

-- The requests that were counted: status and upstream.
abbrev pub counted : List Tick → List (ℕ × Option Text)
counted [] = []
counted (requests_total method status upstream ∷ ticks) = (status, upstream) ∷ counted ticks
counted (_ ∷ ticks) = counted ticks

-- Each connection that is counted is taken off the gauge next, and not otherwise.
abbrev pub IsBalanced : List Tick → Type 0
IsBalanced [] = Unit
IsBalanced (connections_inc a ∷ connections_dec b ∷ ticks) = (a ≡ b) × IsBalanced ticks
IsBalanced (connections_inc a ∷ _) = ⊥
IsBalanced (connections_dec a ∷ ticks) = ⊥
IsBalanced (_ ∷ ticks) = IsBalanced ticks

module _ (F : Float) (M : HeaderMap) (parse_uri : Text → Option Uri) (ip_to_string : IpAddr → Text)
    (decimal : ℕ → Text) (World : Type 0) (clock : World → ℕ)
    (send : World
      → LoadBalancer
      → Attempt.ProxyRequest M parse_uri ip_to_string
      → (World × LoadBalancer) × Option (Attempt.UpstreamResponse M parse_uri ip_to_string))
    (ctx : ProxyContext F M parse_uri ip_to_string decimal)
    (req : Request F M parse_uri ip_to_string decimal) (body : Text) (remote : IpAddr)
    (sticky_val : Option Text) where
  abbrev loop_from :
      ℕ
      → ℕ
      → List Text
      → World
      → LoadBalancer
      → Ran F M parse_uri ip_to_string decimal World clock send
  loop_from =
      loop F M parse_uri ip_to_string decimal World clock send ctx req body remote sticky_val

  -- What is counted for a result: nothing, or its status under one upstream.
  abbrev pub IsCounted :
      List (ℕ × Option Text) → Option (Response F M parse_uri ip_to_string decimal) → Type 0
  IsCounted counts none = counts ≡ []
  IsCounted counts (some r) = (a : Text) × (counts ≡ (r.status, some a) ∷ [])

  abbrev pub IsRecorded : List Tick → Option (Response F M parse_uri ip_to_string decimal) → Type 0
  IsRecorded ticks o = IsBalanced ticks × IsCounted (counted ticks) o

  retry-IsRecorded :
      (attempt : ℕ) (ticks : List Tick) (o : Option (Response F M parse_uri ip_to_string decimal))
      → IsRecorded ticks o
      → IsRecorded (if attempt == 0 then ticks else retries_total ∷ ticks) o
  retry-IsRecorded attempt ticks o h = by_round (attempt == 0)
    where
      by_round : (b : Bool) → IsRecorded (if b then ticks else retries_total ∷ ticks) o
      by_round true = h
      by_round false = h

  loop-IsRecorded :
      (left attempt : ℕ) (tried : List Text) (world : World) (lb : LoadBalancer)
      → IsRecorded
          (loop_from left attempt tried world lb).ticks
          (loop_from left attempt tried world lb).response
  unfolding attempts decorate
  loop-IsRecorded zero attempt tried world lb = (tt, refl)
  loop-IsRecorded (suc left) attempt tried world lb =
      elim (loop-round F M parse_uri ip_to_string decimal World clock send ctx req body remote
        sticky_val left attempt tried world lb) [
          | inl (_, same) ↦
              subst (λ r. IsRecorded r.ticks r.response) (sym same)
                (retry-IsRecorded attempt [] none (tt, refl))
          | inr (h, found, inl (r, _, same)) ↦
              let a = h.runtime.address in
              subst (λ r. IsRecorded r.ticks r.response) (sym same)
                (retry-IsRecorded attempt _
                  (some (decorate F M parse_uri ip_to_string decimal ctx a r))
                  ((refl, tt), (a, refl)))
          | inr (h, found, inr (e, _, same)) ↦
              let (balanced, count) =
                loop-IsRecorded left (suc attempt) (tried ++ h.runtime.address ∷ []) _ _ in
              subst (λ r. IsRecorded r.ticks r.response) (sym same)
                (retry-IsRecorded attempt _ _ ((refl, balanced), count))
        ]

  -- The retry loop takes every connection that it counts off the gauge again, right after the
  -- attempt, and it counts a request exactly when it has a response: once, under that response's
  -- status and an upstream.
  pub attempts-IsRecorded :
      (n : ℕ) (world : World) (lb : LoadBalancer)
      → IsRecorded
          (attempts F M parse_uri ip_to_string decimal World clock send n 0 ctx req body remote
            sticky_val [] world lb).ticks
          (attempts F M parse_uri ip_to_string decimal World clock send n 0 ctx req body remote
            sticky_val [] world lb).response
  attempts-IsRecorded n world lb = loop-IsRecorded n 0 [] world lb

  -- No other task touches the balancer while the client waits for the upstream.
  abbrev pub IsAlone : Type 0
  IsAlone =
      (world : World) (lb : LoadBalancer) (r : Attempt.ProxyRequest M parse_uri ip_to_string)
      → (send world lb r).0.1 ≡ lb

  -- A count that does not wrap.
  abbrev pub IsCount : UpstreamRuntime → Type 0
  IsCount u = u.active_connections < usize_mod

  chosen-keeps :
      (left attempt : ℕ) (tried : List Text) (world : World) (lb : LoadBalancer)
      → (chosen F M parse_uri ip_to_string decimal World clock send ctx req body remote sticky_val
          left attempt tried world lb).0.upstreams
        ≡ lb.upstreams
  unfolding select_sticky
  chosen-keeps left attempt tried world lb = by_round (attempt == 0)
    where
      sticky : (val : Option Text) → (select_sticky lb val).0.upstreams ≡ lb.upstreams
      sticky none = (select_excluding-keeps lb []).0
      sticky (some val) = elim (select_sticky_lem lb val) [
        | inl (h, e, _, _) ↦ ap (λ p. p.0.upstreams) e
        | inr (e, _) ↦ ap (λ p. p.0.upstreams) e ∙ (select_excluding-keeps lb []).0
      ]

      by_round :
          (b : Bool)
          → (if b then select_sticky lb sticky_val else select_excluding lb tried).0.upstreams
            ≡ lb.upstreams
      by_round true = sticky sticky_val
      by_round false = (select_excluding-keeps lb tried).0

  attempt_proxy-alone :
      (a : ProxyAttempt F M parse_uri ip_to_string decimal) (world : World) (lb : LoadBalancer)
      → IsAlone
      → (Attempt.attempt_proxy M parse_uri ip_to_string World clock send a world lb).0.1 ≡ lb
  unfolding Attempt.attempt_proxy
  attempt_proxy-alone a world lb alone =
      elim (Result-cases (build_proxy_request M parse_uri ip_to_string a)) [
        | inr (e, failed) ↦ rw (failed, Attempt.attempt_proxy) refl
        | inl (r, built) ↦
            rw (built, Attempt.attempt_proxy) (answered_lb (send world lb r) ∙ alone world lb r)
      ]
    where
      answered_lb :
          (x : (World × LoadBalancer) × Option (Attempt.UpstreamResponse M parse_uri ip_to_string))
          → (Attempt.answered M parse_uri ip_to_string World clock send a x).0.1 ≡ x.0.1
      answered_lb ((w, l), none) = refl
      answered_lb ((w, l), some r) = refl

  dec-inc : (u : UpstreamRuntime) → IsCount u → dec_connections (inc_connections u) ≡ u
  dec-inc u h = ap (λ n. record u { active_connections = n }) (omega arith)

  tried_one-keeps :
      (left attempt : ℕ) (tried : List Text) (world : World) (lb : LoadBalancer) (h : Handle)
      → IsAlone
      → All IsCount lb.upstreams
      → (tried_one F M parse_uri ip_to_string decimal World clock send ctx req body remote
          sticky_val left attempt tried world lb h).0.1.upstreams
        ≡ lb.upstreams
  unfolding counted_attempt
  tried_one-keeps left attempt tried world lb h alone small =
      let lb' =
        (chosen F M parse_uri ip_to_string decimal World clock send ctx req body remote sticky_val
          left attempt tried world lb).0 in
      let kept : lb'.upstreams ≡ lb.upstreams = chosen-keeps left attempt tried world lb in
      ap (λ l. modify l.upstreams h.index dec_connections)
        (attempt_proxy-alone _ world (on_upstream h.index inc_connections lb') alone)
      ∙ modify_undo lb'.upstreams h.index inc_connections dec_connections (λ u e. dec-inc u (
          All-In IsCount lb.upstreams small u
            (subst (In u) kept (get_elem?-In lb'.upstreams h.index u e))))
      ∙ kept

  loop-keeps :
      (left attempt : ℕ) (tried : List Text) (world : World) (lb : LoadBalancer)
      → IsAlone
      → All IsCount lb.upstreams
      → (loop_from left attempt tried world lb).lb.upstreams ≡ lb.upstreams
  unfolding attempts
  loop-keeps zero attempt tried world lb alone small = refl
  loop-keeps (suc left) attempt tried world lb alone small =
      elim (loop-round F M parse_uri ip_to_string decimal World clock send ctx req body remote
        sticky_val left attempt tried world lb) [
          | inl (_, same) ↦ ap (λ r. r.lb.upstreams) same ∙ chosen-keeps left attempt tried world lb
          | inr (h, found, inl (r, _, same)) ↦
              ap (λ r. r.lb.upstreams) same
              ∙ tried_one-keeps left attempt tried world lb h alone small
          | inr (h, found, inr (e, _, same)) ↦
              let kept = tried_one-keeps left attempt tried world lb h alone small in
              ap (λ r. r.lb.upstreams) same
              ∙ loop-keeps left (suc attempt) (tried ++ h.runtime.address ∷ []) _ _ alone
                  (subst (All IsCount) (sym kept) small)
              ∙ kept
        ]

  -- When no other task touches the balancer in the meantime, the retry loop leaves every
  -- upstream's connection count (each below 2 ^ 64) and health as it found them.
  pub attempts-keeps :
      (n : ℕ) (world : World) (lb : LoadBalancer)
      → IsAlone
      → All IsCount lb.upstreams
      → (attempts F M parse_uri ip_to_string decimal World clock send n 0 ctx req body remote
          sticky_val [] world lb).lb.upstreams
        ≡ lb.upstreams
  attempts-keeps n world lb alone small = loop-keeps n 0 [] world lb alone small
