-- ===== src/RateLimit/Burst.antt =====
-- The rates that the limiter enforces, over any sequence of requests.
use oxi_gate.Base.{
  ℕ, ◌+◌, ◌*◌, ◌≤◌, ◌≡◌, ◌≢◌, refl, sym, subst, ◌⊎◌, inl, inr, Bool, true, false, Bool-cases,
  Option-cases, if◌then◌else◌, List, [], ◌∷◌, All, arith,
}
use oxi_gate.Machine.{Float}
use oxi_gate.Net.{IpAddr, ip_eq, ip_eq_iff}
use oxi_gate.RateLimit.{RateLimiter, max_credit, tat_of, stored_tat, check}
use oxi_gate.RateLimit.Check.{check_self, check_other, check_keeps}

clash : {b : Bool} → b ≡ true → b ≡ false → ⊥
clash p q = cc

-- The requests of one address that a run allows; a request is a time and an address, and those of
-- other addresses may stand between them.
unfoldable pub allowed : (float : Float) → IpAddr → RateLimiter float → List (ℕ × IpAddr) → ℕ
allowed float ip rl [] = 0
allowed float ip rl ((now, other) ∷ requests) =
    let (rl', passed) = check float rl now other in
    (if ip_eq other ip then (if passed then 1 else 0) else 0) + allowed float ip rl' requests

abbrev pub Within : ℕ → ℕ → List (ℕ × IpAddr) → Type 0
Within t0 t1 = All (λ r. (t0 ≤ r.0) × (r.0 ≤ t1))

module _ (float : Float) (ip : IpAddr) (t0 t1 : ℕ) where
  -- A lower bound of the address's arrival time at and after t0.
  abbrev Floor : ℕ → RateLimiter float → Type 0
  Floor p rl = (p ≤ stored_tat (rl.buckets ip) t0) ⊎ (p ≤ t0)

  -- `n` more allowed requests fit above the floor.
  abbrev Fits : ℕ → ℕ → ℕ → ℕ → Type 0
  Fits credit e p n = (n ≡ 0) ⊎ (p + n * e ≤ t1 + credit + e)

  Fits-next :
      (credit e p n : ℕ) → p ≤ t1 + credit → Fits credit e (p + e) n → Fits credit e p (1 + n)
  Fits-next credit e p n h f = grind arith

  own_step :
      (rl : RateLimiter float) (now p : ℕ)
      → t0 ≤ now
      → now ≤ t1
      → Floor p rl
      → (((check float rl now ip).1 ≡ true)
          × (p ≤ t1 + max_credit float rl)
          × Floor (p + rl.emission) (check float rl now ip).0)
        ⊎ (((check float rl now ip).1 ≡ false) × Floor p (check float rl now ip).0)
  unfolding tat_of
  own_step rl now p h k f = elim (Option-cases (rl.buckets ip)) [
    | inl e ↦ ground (arith, check_self float rl now ip)
    | inr (b, e) ↦ ground (arith, check_self float rl now ip)
  ]

  -- The two outcomes of a check of the address, for the floor.
  abbrev Own : RateLimiter float → ℕ → ℕ → RateLimiter float × Bool → Type 0
  Own rl now p r =
      ((r.1 ≡ true) × (p ≤ t1 + max_credit float rl) × Floor (p + rl.emission) r.0)
      ⊎ ((r.1 ≡ false) × Floor p r.0)

  passed_count :
      (rl : RateLimiter float) (now p n : ℕ) (r : RateLimiter float × Bool)
      → Own rl now p r
      → ((q : ℕ) → Floor q r.0 → Fits (max_credit float rl) rl.emission q n)
      → Fits (max_credit float rl) rl.emission p ((if r.1 then 1 else 0) + n)
  passed_count rl now p n r (inl (e, bound, f)) ih =
      rw e (Fits-next (max_credit float rl) rl.emission p n bound (ih (p + rl.emission) f))
  passed_count rl now p n r (inr (e, f)) ih =
      let same : n ≡ 0 + n = omega arith in
      rw e (subst (Fits (max_credit float rl) rl.emission p) same (ih p f))

  rate-Floor :
      (requests : List (ℕ × IpAddr)) (rl : RateLimiter float) (p : ℕ)
      → Within t0 t1 requests
      → Floor p rl
      → Fits (max_credit float rl) rl.emission p (allowed float ip rl requests)
  unfolding allowed
  rate-Floor [] rl p w f = inl refl
  rate-Floor ((now, other) ∷ requests) rl p ((h, k), w) f =
      let r = check float rl now other in
      let n = allowed float ip r.0 requests in
      let (kept, credit) = check_keeps float rl now other in
      let ih = λ (q : ℕ) (f' : Floor q r.0).
        subst (λ e. Fits (max_credit float rl) e q n) kept
          (subst (λ c. Fits c r.0.emission q n) credit (rate-Floor requests r.0 q w f')) in
      elim (Bool-cases (ip_eq other ip)) [
        | inl e ↦
            let same = (ip_eq_iff other ip).0 e in
            let own =
              subst (λ o. Own rl now p (check float rl now o)) (sym same)
                (own_step rl now p h k f) in
            rw e (passed_count rl now p n r own ih)
        | inr e ↦
            let apart : other ≢ ip = λ q. clash ((ip_eq_iff other ip).1 q) e in
            let same = check_other float rl now other ip apart in
            let f' = subst (λ b. (p ≤ stored_tat b t0) ⊎ (p ≤ t0)) (sym same) f in
            let none_more : n ≡ 0 + n = omega arith in
            rw e (subst (Fits (max_credit float rl) rl.emission p) none_more (ih p f'))
      ]

-- The limiter's promise (GCRA): among any requests made between t0 and t1, from a limiter in any
-- state, the requests of one address that are allowed, at one emission each, take no more than the
-- interval, the burst credit and one emission.
pub rate_bound :
    (float : Float) (rl : RateLimiter float) (ip : IpAddr) (t0 t1 : ℕ)
    (requests : List (ℕ × IpAddr))
    → t0 ≤ t1
    → Within t0 t1 requests
    → t0 + allowed float ip rl requests * rl.emission ≤ t1 + max_credit float rl + rl.emission
rate_bound float rl ip t0 t1 requests h w =
    elim (rate-Floor float ip t0 t1 requests rl t0 w (inr (omega arith))) [
      | inl none_passed ↦ rw none_passed (omega arith)
      | inr bound ↦ bound
    ]
