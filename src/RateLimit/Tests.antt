-- ===== src/RateLimit/Tests.antt =====
-- The limiter at work, with whole numbers for `f64`, and the theorems at these inputs.
use oxi_gate.Base.{
  ◌+◌, ◌*◌, ◌≤◌, ◌≡◌, refl, true, false, leb, none, some, [], ◌∷◌, replicate, get_elem?, All, arith,
}
use oxi_gate.Samples.{whole}
use oxi_gate.Net.{v4}
use oxi_gate.RateLimit.{
  RateLimitConfig, RateLimiter, second, new, check, cleanup, max_credit, tat_of,
}
use oxi_gate.RateLimit.Burst.{allowed, rate_bound}
use oxi_gate.RateLimit.Alone.{outcomes, burst_lem, IsAllowed, steady_rate}
use oxi_gate.RateLimit.Cleanup.{check-cleanup}

abbrev two_per_second : RateLimitConfig whole
two_per_second = record { rate = 2; window = second; burst = 1 }

limiter_code : Unit {0}
unfolding new check cleanup outcomes allowed max_credit tat_of
limiter_code = tt

abbrev fresh : RateLimiter whole
fresh = record {
  cfg = two_per_second;
  buckets = λ ip. none;
  emission = 500_000_000;
  rejects = 0;
  allows = 0;
}

built : new whole two_per_second ≡ fresh
unfolding limiter_code
built = refl

rejects_over_burst : outcomes whole (v4 1) fresh (replicate 3 7) ≡ true ∷ true ∷ false ∷ []
unfolding limiter_code
rejects_over_burst = refl

rate_bound_example :
    0 + allowed whole (v4 1) fresh ((0, v4 1) ∷ (5, v4 2) ∷ (9, v4 1) ∷ []) * 500_000_000
    ≤ 9 + max_credit whole fresh + 500_000_000
rate_bound_example =
    rate_bound whole fresh (v4 1) 0 9 ((0, v4 1) ∷ (5, v4 2) ∷ (9, v4 1) ∷ []) (omega arith)
      (omega arith)

burst_lem_example :
    get_elem? (outcomes whole (v4 1) fresh (replicate 3 7)) 2
    ≡ some (leb (2 * 500_000_000) (max_credit whole fresh))
unfolding tat_of
burst_lem_example = burst_lem whole (v4 1) fresh 7 3 2 refl (omega arith)

steady_rate_example :
    All IsAllowed (outcomes whole (v4 1) fresh (0 ∷ 500_000_000 ∷ 1_000_000_000 ∷ []))
steady_rate_example =
    steady_rate whole (v4 1) fresh 0 (0 ∷ 500_000_000 ∷ 1_000_000_000 ∷ []) (omega arith)
      (omega arith)

check-cleanup_example :
    ((check whole (cleanup whole fresh 5 0) 9 (v4 1)).1 ≡ (check whole fresh 9 (v4 1)).1)
    × ((check whole (cleanup whole fresh 5 0) 9 (v4 1)).0.buckets (v4 1)
        ≡ (check whole fresh 9 (v4 1)).0.buckets (v4 1))
check-cleanup_example = check-cleanup whole fresh 5 9 0 (v4 1) (omega arith) (omega arith)
