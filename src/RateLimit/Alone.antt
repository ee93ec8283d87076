-- ===== src/RateLimit/Alone.antt =====
-- The requests of one address on its own: a burst at one instant, and a steady rate.
use oxi_gate.Base.{
  ℕ, zero, suc, ◌+◌, ◌*◌, ◌≤◌, ◌<◌, ◌≡◌, refl, ap, ap₂, sym, ◌∙◌, subst, ◌⊎◌, inl, inr, Bool, true,
  false, Option-cases, ltb, leb, if◌then◌else◌, some, List, [], ◌∷◌, replicate, get_elem?, All,
  le→leb, arith,
}
use oxi_gate.Machine.{Float}
use oxi_gate.Net.{IpAddr}
use oxi_gate.RateLimit.{RateLimiter, max_credit, tat_of, stored_tat, check}
use oxi_gate.RateLimit.Check.{check_self, check_keeps}

-- The answers to the requests of one address at the given times.
unfoldable pub outcomes : (float : Float) → IpAddr → RateLimiter float → List ℕ → List Bool
outcomes float ip rl [] = []
outcomes float ip rl (now ∷ times) =
    let (rl', passed) = check float rl now ip in passed ∷ outcomes float ip rl' times

module _ (float : Float) (ip : IpAddr) where
  -- The k-th arrival time of a burst, or one that is out of reach.
  abbrev Reached : ℕ → ℕ → ℕ → ℕ → ℕ → Type 0
  Reached now credit e k tat = (tat ≡ now + k * e) ⊎ ((credit < k * e) × (now + credit < tat))

  abbrev At : ℕ → ℕ → ℕ → ℕ → RateLimiter float → Type 0
  At now credit e k rl =
      (rl.emission ≡ e)
      × (max_credit float rl ≡ credit)
      × Reached now credit e k (tat_of float rl now ip)

  abbrev pattern_from : ℕ → ℕ → ℕ → ℕ → List Bool
  pattern_from credit e k zero = []
  pattern_from credit e k (suc n) = leb (k * e) credit ∷ pattern_from credit e (suc k) n

  next_tat :
      (now credit e k tat : ℕ)
      → tat ≡ now + k * e
      → (if ltb now tat then tat + e else now + e) ≡ now + suc k * e
  next_tat now credit e k tat h =
      let step : suc k * e ≡ k * e + e = grind arith in ground (arith, step)

  burst_step :
      (now credit e k : ℕ) (rl : RateLimiter float)
      → At now credit e k rl
      → ((check float rl now ip).1 ≡ leb (k * e) credit)
        × At now credit e (suc k) (check float rl now ip).0
  unfolding tat_of
  burst_step now credit e k rl (em, cr, at) =
      let step : suc k * e ≡ k * e + e = grind arith in
      let (kept, same) = check_keeps float rl now ip in
      let own = check_self float rl now ip in
      let (answer, reached) = decided rl.emission (max_credit float rl) em cr step own at in
      (answer, (kept ∙ em, same ∙ cr, reached))
    where
      decided :
          (em_rl cr_rl : ℕ)
          → em_rl ≡ e
          → cr_rl ≡ credit
          → suc k * e ≡ k * e + e
          → let tat = tat_of float rl now ip in
            let r = check float rl now ip in
            ((tat ≤ now + cr_rl)
                × (r.1 ≡ true)
                × (r.0.buckets ip
                    ≡ some (record { tat = if ltb now tat then tat + em_rl else now + em_rl })))
              ⊎ ((now + cr_rl < tat)
                  × (r.1 ≡ false)
                  × (r.0.buckets ip ≡ some (record { tat = tat })))
            → Reached now credit e k tat
            → ((check float rl now ip).1 ≡ leb (k * e) credit)
              × Reached now credit e (suc k) (tat_of float (check float rl now ip).0 now ip)
      decided em_rl cr_rl p q step (inl (le, t, b)) (inl at) = (
        t ∙ sym (le→leb (k * e) credit (omega arith)),
        inl (
            ap (λ o. stored_tat o now) b
            ∙ ap
                (λ d.
                  if ltb now (tat_of float rl now ip) then tat_of float rl now ip + d else now + d)
                p
            ∙ next_tat now credit e k (tat_of float rl now ip) at),
      )
      decided em_rl cr_rl p q step (inl (le, t, b)) (inr at) = absurd (omega arith)
      decided em_rl cr_rl p q step (inr (lt, f, b)) at =
          let over : credit < k * e = over_of at in
          (
            ground arith,
            inr (omega arith, subst (λ o. now + credit < stored_tat o now) (sym b) (omega arith)),
          )
        where
          over_of : Reached now credit e k (tat_of float rl now ip) → credit < k * e
          over_of (inl h) = omega arith
          over_of (inr h) = h.0

  burst_pattern :
      (now credit e n k : ℕ) (rl : RateLimiter float)
      → At now credit e k rl
      → outcomes float ip rl (replicate n now) ≡ pattern_from credit e k n
  unfolding outcomes
  burst_pattern now credit e zero k rl at = refl
  burst_pattern now credit e (suc n) k rl at =
      let (answer, next) = burst_step now credit e k rl at in
      ap₂ ◌∷◌ answer (burst_pattern now credit e n (suc k) (check float rl now ip).0 next)

  get-pattern :
      (credit e n k i : ℕ)
      → i < n
      → get_elem? (pattern_from credit e k n) i ≡ some (leb ((k + i) * e) credit)
  get-pattern credit e zero k i h = absurd (omega arith)
  get-pattern credit e (suc n) k zero h =
      let same : k ≡ k + 0 = omega arith in ap (λ j. some (leb (j * e) credit)) same
  get-pattern credit e (suc n) k (suc i) h =
      let same : suc k + i ≡ k + suc i = omega arith in
      get-pattern credit e n (suc k) i (omega arith) ∙ ap (λ j. some (leb (j * e) credit)) same

-- A burst: of the requests that an address makes at one instant, its bucket standing at that
-- instant or there being none, the k-th (from 0) is allowed exactly when k emissions fit within the
-- burst credit.
pub burst_lem :
    (float : Float) (ip : IpAddr) (rl : RateLimiter float) (now n k : ℕ)
    → tat_of float rl now ip ≡ now
    → k < n
    → get_elem? (outcomes float ip rl (replicate n now)) k
      ≡ some (leb (k * rl.emission) (max_credit float rl))
burst_lem float ip rl now n k fresh h =
    let credit = max_credit float rl in
    let e = rl.emission in
    let start : tat_of float rl now ip ≡ now + 0 * e = fresh ∙ grind arith in
    let first : 0 + k ≡ k = omega arith in
    ap (λ l. get_elem? l k) (burst_pattern float ip now credit e n 0 rl (refl, refl, inl start))
    ∙ get-pattern float ip credit e n 0 k h
    ∙ ap (λ j. some (leb (j * e) credit)) first

-- Each time is at least one emission after the one before.
abbrev pub Spaced : ℕ → ℕ → List ℕ → Type 0
Spaced e t [] = Unit {0}
Spaced e t (now ∷ times) = (t ≤ now) × Spaced e (now + e) times

abbrev pub IsAllowed : Bool → Type 0
IsAllowed b = b ≡ true

steady_step :
    (float : Float) (ip : IpAddr) (rl : RateLimiter float) (t now : ℕ)
    → t ≤ now
    → stored_tat (rl.buckets ip) t ≤ t
    → ((check float rl now ip).1 ≡ true)
      × (stored_tat ((check float rl now ip).0.buckets ip) (now + rl.emission) ≤ now + rl.emission)
unfolding tat_of
steady_step float ip rl t now h f = elim (Option-cases (rl.buckets ip)) [
  | inl e ↦ ground (arith, check_self float rl now ip)
  | inr (b, e) ↦ ground (arith, check_self float rl now ip)
]

-- A client that keeps one emission between its requests is never refused, however many it makes, if
-- its bucket does not lie in the future when it starts.
pub steady_rate :
    (float : Float) (ip : IpAddr) (rl : RateLimiter float) (t : ℕ) (times : List ℕ)
    → stored_tat (rl.buckets ip) t ≤ t
    → Spaced rl.emission t times
    → All IsAllowed (outcomes float ip rl times)
unfolding outcomes
steady_rate float ip rl t [] f s = tt
steady_rate float ip rl t (now ∷ times) f (h, s) =
    let (passed, f') = steady_step float ip rl t now h f in
    let (kept, _) = check_keeps float rl now ip in
    let r = (check float rl now ip).0 in
    (
      passed,
      steady_rate float ip r (now + rl.emission) times f'
          (subst (λ e. Spaced e (now + rl.emission) times) (sym kept) s),
    )
