-- ===== src/Lb/Tests.antt =====
-- The balancer at work on three upstreams, and the theorems at these inputs.
use oxi_gate.Base.{
  List, length, ℕ, ◌≤◌, ◌<◌, ◌≡◌, ◌≢◌, ◌↔◌, ◌⊎◌, refl, Text, str_eq, Bool, true, false, some, none,
  [], ◌∷◌, arith,
}
use oxi_gate.Config.{
  Upstream, LoadBalancingAlgorithm, round_robin, weighted_round_robin, least_connections,
  power_of_two_choices,
}
use oxi_gate.Lb.{
  UpstreamRuntime, LoadBalancer, Handle, healthy, expand, select_excluding, select_sticky,
  from_upstreams,
}
use oxi_gate.Lb.Filter.{IsCandidate}
use oxi_gate.Lb.Select.{select_excluding-IsCandidate, select_excluding-none_iff, select_sticky_lem}
use oxi_gate.Lb.Rotation.{selections, round_robin_turn}
use oxi_gate.Lb.Weighted.{weighted_turn, hits, somes}
use oxi_gate.Lb.Load.{least_connections-le, power_of_two-lighter, Reach, here, next, selects}

abbrev up : Text → ℕ → Bool → ℕ → UpstreamRuntime
up a w h n = record { address = a; weight = w; healthy = h; active_connections = n }

abbrev first : UpstreamRuntime
first = up (97 ∷ []) 2 true 5

abbrev third : UpstreamRuntime
third = up (99 ∷ []) 1 true 3

abbrev pool : LoadBalancingAlgorithm → LoadBalancer
pool alg = record {
  upstreams = first ∷ up (98 ∷ []) 1 false 0 ∷ third ∷ [];
  algorithm = alg;
  rr_counter = 4;
}

abbrev h_first : Handle
h_first = record { index = 0; runtime = first }

abbrev h_third : Handle
h_third = record { index = 2; runtime = third }

lb_code : Unit {0}
unfolding select_excluding select_sticky selections healthy expand from_upstreams str_eq
lb_code = tt

round_robin_run :
    selections 3 (pool round_robin) [] ≡ some h_first ∷ some h_third ∷ some h_first ∷ []
unfolding lb_code
round_robin_run = refl

weighted_run :
    selections 3 (pool weighted_round_robin) [] ≡ some h_first ∷ some h_third ∷ some h_first ∷ []
unfolding lb_code
weighted_run = refl

excluded_run : (select_excluding (pool least_connections) ((99 ∷ []) ∷ [])).1 ≡ some h_first
unfolding lb_code
excluded_run = refl

first_fits : IsCandidate (pool weighted_round_robin) [] h_first
first_fits = record { placed = refl; up = refl; fresh = λ m. m }

select_excluding-IsCandidate_example : IsCandidate (pool least_connections) ((99 ∷ []) ∷ []) h_first
select_excluding-IsCandidate_example =
    select_excluding-IsCandidate (pool least_connections) ((99 ∷ []) ∷ []) h_first excluded_run

select_excluding-none_iff_example :
    ((select_excluding (pool round_robin) []).1 ≡ none)
    ↔ ((h : Handle) → ¬ IsCandidate (pool round_robin) [] h)
select_excluding-none_iff_example = select_excluding-none_iff (pool round_robin) []

select_sticky_lem_example :
    ((h : Handle) × (select_sticky (pool round_robin) (some (99 ∷ [])) ≡ (pool round_robin, some h))
      × IsCandidate (pool round_robin) [] h
      × (h.runtime.address ≡ 99 ∷ []))
    ⊎ ((select_sticky (pool round_robin) (some (99 ∷ [])) ≡ select_sticky (pool round_robin) none)
        × ((h : Handle) → IsCandidate (pool round_robin) [] h → h.runtime.address ≢ 99 ∷ []))
select_sticky_lem_example = select_sticky_lem (pool round_robin) (99 ∷ [])

round_robin_turn_example : selections 2 (pool round_robin) [] ≡ some h_first ∷ some h_third ∷ []
unfolding lb_code
round_robin_turn_example = round_robin_turn (pool round_robin) [] refl (omega arith) (omega arith)

weighted_turn_example : hits 0 (somes (selections 3 (pool weighted_round_robin) [])) ≡ 2
unfolding lb_code
weighted_turn_example =
    weighted_turn (pool weighted_round_robin) [] h_first refl first_fits (omega arith)

least_run : (select_excluding (pool least_connections) []).1 ≡ some h_third
unfolding lb_code
least_run = refl

least_connections-le_example : (3 ≤ 5) × (0 < 2 → 3 < 5)
least_connections-le_example =
    least_connections-le (pool least_connections) [] h_third h_first refl least_run
      (record { placed = refl; up = refl; fresh = λ m. m })

abbrev two_backends : List Upstream
two_backends =
    record { address = 97 ∷ []; weight = 1 } ∷ record { address = 98 ∷ []; weight = 1 } ∷ []

abbrev built : LoadBalancer
unfolding from_upstreams
built = from_upstreams two_backends power_of_two_choices

-- One selection moved the counter to 2.
abbrev used : LoadBalancer
used = (select_excluding built []).0

abbrev new_first : Handle
new_first = record { index = 0; runtime = up (97 ∷ []) 1 true 0 }

two_run : (select_excluding used []).1 ≡ some new_first
unfolding lb_code built from_upstreams
two_run = refl

two_healthy : 1 < length (healthy used [])
unfolding lb_code built from_upstreams
two_healthy = omega arith

two_reached : Reach (from_upstreams two_backends power_of_two_choices) used
unfolding built from_upstreams
two_reached = next here (selects [])

power_of_two-lighter_example :
    (g : Handle) × IsCandidate used [] g × (g.index ≢ 0) × (0 ≤ g.runtime.active_connections)
power_of_two-lighter_example =
    power_of_two-lighter two_backends used [] new_first two_reached two_healthy two_run
