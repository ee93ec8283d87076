-- ===== src/Health/Tests.antt =====
-- Thresholds of three failures and two successes, and the theorem at a history of checks.
use oxi_gate.Base.{
  ℕ, Option, none, if◌then◌else◌, ◌≡◌, refl, Text, codes, str_eq, starts_with, trim_end_matches,
  Bool, true, false, some, List, [], ◌∷◌, arith,
}
use oxi_gate.Config.{HealthCheckConfig, round_robin}
use oxi_gate.Lb.{UpstreamRuntime, LoadBalancer, set_healthy}
use oxi_gate.Health.{States, fresh, check_lbs, record_result, check_one, check_url}
use oxi_gate.Health.Thresholds.{after, successes_run, failures_run, mark, after-mark}

abbrev checks : HealthCheckConfig
checks = record {
  interval_secs = 5;
  timeout_secs = 2;
  path = codes "health";
  unhealthy_threshold = 3;
  healthy_threshold = 2;
}

abbrev backend_a : UpstreamRuntime
backend_a = record {
  address = codes "http://a/";
  weight = 1;
  healthy = true;
  active_connections = 0;
}

-- The newest result stands first.
abbrev outage : List Bool
outage = false ∷ false ∷ false ∷ true ∷ false ∷ []

marked_down : (after checks backend_a outage).1.healthy ≡ false
unfolding record_result
marked_down = refl

recovers : (after checks backend_a (true ∷ true ∷ outage)).1.healthy ≡ true
unfolding record_result
recovers = refl

abbrev only_health : Text → Option ℕ
only_health url = if str_eq url (codes "http://a/health") then some 204 else none

asks_path : check_one only_health checks.path backend_a ≡ true
unfolding check_one check_url str_eq starts_with trim_end_matches
asks_path = refl

after-mark_example : after checks backend_a outage ≡ (
  record { fails = failures_run outage; successes = successes_run outage },
  set_healthy (mark checks backend_a.healthy outage) backend_a,
)
after-mark_example = after-mark checks backend_a outage (omega arith)

-- The same address in two balancers: both are down after two failing rounds of the three asked for.
abbrev one_upstream : LoadBalancer
one_upstream = record { upstreams = backend_a ∷ []; algorithm = round_robin; rr_counter = 0 }

abbrev unreachable : UpstreamRuntime → Bool
unreachable u = false

abbrev no_checks : States
no_checks a = fresh

abbrev second_round : States × List LoadBalancer
second_round =
    let (states, lbs) = check_lbs checks unreachable no_checks (one_upstream ∷ one_upstream ∷ []) in
    check_lbs checks unreachable states lbs

abbrev down : LoadBalancer
down = record one_upstream { upstreams = set_healthy false backend_a ∷ [] }

shared_address_counts_twice : second_round.1 ≡ down ∷ down ∷ []
unfolding check_lbs str_eq
shared_address_counts_twice = refl
