-- ===== src/Proxy/Loop/Retries.antt =====
-- Which upstreams the retry loop tries.
use oxi_gate.Base.{
  ℕ, zero, suc, ◌≤◌, ◌≡◌, refl, ap, sym, ◌∙◌, subst, inl, inr, Text, false, ◌==◌, if◌then◌else◌,
  Option, some, List, [], ◌∷◌, ◌++◌, length, In, arith,
}
use oxi_gate.Http.{Uri}
use oxi_gate.Lb.{LoadBalancer, Handle}
use oxi_gate.Lb.Select.{select_excluding-IsCandidate}
use oxi_gate.Machine.{Float}
use oxi_gate.Net.{IpAddr}
use oxi_gate.Proxy.Attempt
use oxi_gate.Proxy.Headers.{HeaderMap}
use oxi_gate.Proxy.Loop.{Tick, retries_total, connections_inc, ProxyContext, Request, Ran, attempts}
use oxi_gate.Proxy.Loop.Shape.{loop, loop-round, chosen}

-- The upstreams that a connection was counted for, in order.
abbrev pub addresses : List Tick → List Text
addresses [] = []
addresses (connections_inc a ∷ ticks) = a ∷ addresses ticks
addresses (_ ∷ ticks) = addresses ticks

abbrev pub IsDistinct : List Text → Type 0
IsDistinct [] = Unit
IsDistinct (a ∷ bs) = (¬ In a bs) × IsDistinct bs

In-append_left : (a : Text) (xs ys : List Text) → In a xs → In a (xs ++ ys)
In-append_left a [] ys m = absurd m
In-append_left a (x ∷ xs) ys (inl e) = inl e
In-append_left a (x ∷ xs) ys (inr m) = inr (In-append_left a xs ys m)

In-append_right : (a : Text) (xs ys : List Text) → In a ys → In a (xs ++ ys)
In-append_right a [] ys m = m
In-append_right a (x ∷ xs) ys m = inr (In-append_right a xs ys m)

-- Upstreams not tried before, none of them twice, at most `left`.
abbrev IsNew : List Text → ℕ → List Text → Type 0
IsNew tried left bs = IsDistinct bs × ((a : Text) → In a bs → ¬ In a tried) × (length bs ≤ left)

IsNew-cons :
    (tried : List Text) (left : ℕ) (a : Text) (bs : List Text)
    → ¬ In a tried
    → IsNew (tried ++ a ∷ []) left bs
    → IsNew tried (suc left) (a ∷ bs)
IsNew-cons tried left a bs fresh (distinct, new, few) =
    ((λ m. new a m (In-append_right a tried (a ∷ []) (inl refl)), distinct), only, omega arith)
  where
    only : (b : Text) → In b (a ∷ bs) → ¬ In b tried
    only b (inl e) m = fresh (subst (λ x. In x tried) e m)
    only b (inr k) m = new b k (In-append_left b tried (a ∷ []) m)

IsNew-nil : (tried : List Text) (left : ℕ) → IsNew tried left []
IsNew-nil tried left = (tt, λ a m. absurd m, omega arith)

module _ (F : Float) (M : HeaderMap) (parse_uri : Text → Option Uri) (ip_to_string : IpAddr → Text)
    (decimal : ℕ → Text) (World : Type 0) (clock : World → ℕ)
    (send : World
      → LoadBalancer
      → Attempt.ProxyRequest M parse_uri ip_to_string
      → (World × LoadBalancer) × Option (Attempt.UpstreamResponse M parse_uri ip_to_string))
    (ctx : ProxyContext F M parse_uri ip_to_string decimal)
    (req : Request F M parse_uri ip_to_string decimal) (body : Text) (remote : IpAddr)
    (sticky_val : Option Text) where
  abbrev loop_from :
      ℕ
      → ℕ
      → List Text
      → World
      → LoadBalancer
      → Ran F M parse_uri ip_to_string decimal World clock send
  loop_from =
      loop F M parse_uri ip_to_string decimal World clock send ctx req body remote sticky_val

  addresses-retry :
      (attempt : ℕ) (ticks : List Tick)
      → addresses (if attempt == 0 then ticks else retries_total ∷ ticks) ≡ addresses ticks
  addresses-retry attempt ticks = ground arith

  chosen_fresh :
      (left attempt : ℕ) (tried : List Text) (world : World) (lb : LoadBalancer) (h : Handle)
      → (attempt ≡ 0 → tried ≡ [])
      → (chosen F M parse_uri ip_to_string decimal World clock send ctx req body remote sticky_val
          left attempt tried world lb).1
        ≡ some h
      → ¬ In h.runtime.address tried
  chosen_fresh left zero tried world lb h first e m = subst (In h.runtime.address) (first refl) m
  chosen_fresh left (suc k) tried world lb h first e m =
      let later : (suc k == 0) ≡ false = ground arith in
      (select_excluding-IsCandidate lb tried h (rw later at e)).fresh m

  loop-IsNew :
      (left attempt : ℕ) (tried : List Text) (world : World) (lb : LoadBalancer)
      → (attempt ≡ 0 → tried ≡ [])
      → IsNew tried left (addresses (loop_from left attempt tried world lb).ticks)
  unfolding attempts
  loop-IsNew zero attempt tried world lb first = IsNew-nil tried 0
  loop-IsNew (suc left) attempt tried world lb first =
      elim (loop-round F M parse_uri ip_to_string decimal World clock send ctx req body remote
        sticky_val left attempt tried world lb) [
          | inl (_, same) ↦
              subst (IsNew tried (suc left))
                (sym (ap (λ r. addresses r.ticks) same ∙ addresses-retry attempt []))
                (IsNew-nil tried (suc left))
          | inr (h, found, inl (r, _, same)) ↦
              let fresh = chosen_fresh left attempt tried world lb h first found in
              subst (IsNew tried (suc left))
                (sym (ap (λ r. addresses r.ticks) same ∙ addresses-retry attempt _))
                (IsNew-cons tried left h.runtime.address [] fresh (IsNew-nil _ left))
          | inr (h, found, inr (e, _, same)) ↦
              let fresh = chosen_fresh left attempt tried world lb h first found in
              subst (IsNew tried (suc left))
                (sym (ap (λ r. addresses r.ticks) same ∙ addresses-retry attempt _))
                (IsNew-cons tried left h.runtime.address _ fresh (
                  loop-IsNew left (suc attempt) (tried ++ h.runtime.address ∷ []) _ _
                    (λ z. absurd (omega arith))))
        ]

  -- The retry loop never counts a connection for one address twice, and for at most as many as it
  -- was given attempts, whatever the other tasks do to the balancer while the loop waits.
  pub attempts-addresses :
      (n : ℕ) (world : World) (lb : LoadBalancer)
      → IsDistinct (
          addresses
            (attempts F M parse_uri ip_to_string decimal World clock send n 0 ctx req body remote
              sticky_val [] world lb).ticks)
        × (length (
              addresses
                (attempts F M parse_uri ip_to_string decimal World clock send n 0 ctx req body
                  remote sticky_val [] world lb).ticks)
            ≤ n)
  attempts-addresses n world lb =
      let (distinct, _, few) = loop-IsNew n 0 [] world lb (λ _. refl) in (distinct, few)
