-- ===== src/Proxy/Loop/Shape.antt =====
-- One round of the retry loop, as equations.
use oxi_gate.Base.{
  ℕ, suc, ◌≡◌, refl, ◌⊎◌, inl, inr, Text, Bool, Option, none, some, Option-cases, List, [], ◌∷◌,
  ◌++◌, Result, ok, err, Result-cases,
}
use oxi_gate.Http.{Uri}
use oxi_gate.Lb.{LoadBalancer, Handle}
use oxi_gate.Machine.{Float}
use oxi_gate.Net.{IpAddr}
use oxi_gate.Proxy.Attempt
use oxi_gate.Proxy.Headers.{HeaderMap}
use oxi_gate.Proxy.Loop.{
  ProxyContext, Request, Response, Ran, choice, retry_tick, around, answer, attempt_for,
  counted_attempt, attempts,
}

module _ (F : Float) (M : HeaderMap) (parse_uri : Text → Option Uri) (ip_to_string : IpAddr → Text)
    (decimal : ℕ → Text) (World : Type 0) (clock : World → ℕ)
    (send : World
      → LoadBalancer
      → Attempt.ProxyRequest M parse_uri ip_to_string
      → (World × LoadBalancer) × Option (Attempt.UpstreamResponse M parse_uri ip_to_string)) where
  -- The loop from its round `attempt` on, with `left` rounds left.
  abbrev pub loop :
      ProxyContext F M parse_uri ip_to_string decimal
      → Request F M parse_uri ip_to_string decimal
      → Text
      → IpAddr
      → Option Text
      → ℕ
      → ℕ
      → List Text
      → World
      → LoadBalancer
      → Ran F M parse_uri ip_to_string decimal World clock send
  loop ctx req body remote sticky_val left attempt tried world lb =
      attempts F M parse_uri ip_to_string decimal World clock send left attempt ctx req body remote
        sticky_val tried world lb

  module _ (ctx : ProxyContext F M parse_uri ip_to_string decimal)
      (req : Request F M parse_uri ip_to_string decimal) (body : Text) (remote : IpAddr)
      (sticky_val : Option Text) (left attempt : ℕ) (tried : List Text) (world : World)
      (lb : LoadBalancer) where
    abbrev pub chosen : LoadBalancer × Option Handle
    chosen = choice F M parse_uri ip_to_string decimal World clock send attempt sticky_val tried lb

    abbrev pub tried_one :
        Handle
        → (World × LoadBalancer)
          × Result Attempt.AttemptError (Response F M parse_uri ip_to_string decimal)
    tried_one h =
        counted_attempt F M parse_uri ip_to_string decimal World clock send
          (attempt_for F M parse_uri ip_to_string decimal ctx req body remote Bool.false
            h.runtime.address)
          h world chosen.0

    abbrev rest : Ran F M parse_uri ip_to_string decimal World clock send
    rest = loop ctx req body remote sticky_val (suc left) attempt tried world lb

    abbrev rounded :
        Text
        → Ran F M parse_uri ip_to_string decimal World clock send
        → Ran F M parse_uri ip_to_string decimal World clock send
    rounded = around F M parse_uri ip_to_string decimal World clock send attempt

    pub loop-round :
        ((chosen.1 ≡ none)
          × (rest ≡ record {
            world = world;
            lb = chosen.0;
            ticks = retry_tick F M parse_uri ip_to_string decimal World clock send attempt [];
            response = none;
          }))
        ⊎ ((h : Handle) × (chosen.1 ≡ some h)
            × (((r : Response F M parse_uri ip_to_string decimal) × ((tried_one h).1 ≡ ok r)
                  × (rest
                      ≡ rounded h.runtime.address (
                          answer F M parse_uri ip_to_string decimal World clock send ctx req.method
                            h.runtime.address
                            (tried_one h).0.0
                            (tried_one h).0.1
                            r)))
                ⊎ ((e : Attempt.AttemptError) × ((tried_one h).1 ≡ err e)
                    × (rest
                        ≡ rounded h.runtime.address (
                            loop ctx req body remote sticky_val left
                              (suc attempt)
                              (tried ++ h.runtime.address ∷ [])
                              (tried_one h).0.0
                              (tried_one h).0.1)))))
    unfolding attempts
    loop-round = elim (Option-cases chosen.1) [
      | inl missing ↦ inl (missing, rw (missing, attempts) refl)
      | inr (h, found) ↦ elim (Result-cases (tried_one h).1) [
        | inl (r, done) ↦ inr (h, found, inl (r, done, rw (found, done, attempts) refl))
        | inr (e, failed) ↦ inr (h, found, inr (e, failed, rw (found, failed, attempts) refl))
      ]
    ]
