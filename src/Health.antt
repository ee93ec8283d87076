-- ===== src/Health.antt =====
-- src/health/mod.rs: the thresholds that the health checks' results pass before an upstream is
-- marked. The map of counters is a function from addresses; the counters are `u32` and wrap. The
-- HTTP client and the URI parser are parameters; a round is given the result of each check.
pub mod Thresholds
mod Tests
use oxi_gate.Base.{
  ℕ, ◌+◌, ◌*◌, ◌%◌, ◌^◌, max, Text, codes, str_eq, starts_with, trim_end_matches, Bool, true, false,
  not, ◌&&◌, ◌||◌, leb, ltb, ◌==◌, if◌then◌else◌, Option, none, some, List, [], ◌∷◌, ◌++◌,
}
use oxi_gate.Config.{HealthCheckConfig}
use oxi_gate.Lb.{UpstreamRuntime, LoadBalancer, set_healthy}

abbrev pub u32_mod : ℕ
u32_mod = 2 ^ 32

pub record ThresholdState : Type 0 where
  pub fails : ℕ
  pub successes : ℕ

-- `entry(address).or_insert(ThresholdState { fails: 0, successes: 0 })`
abbrev pub fresh : ThresholdState
fresh = record { fails = 0; successes = 0 }

-- The counters of an upstream and the upstream, after a check with this result.
unfoldable pub record_result :
    HealthCheckConfig → Bool → ThresholdState → UpstreamRuntime → ThresholdState × UpstreamRuntime
record_result cfg healthy_now entry u =
    if healthy_now
    then (let successes = (entry.successes + 1) % u32_mod in
        (
          record { fails = 0; successes = successes },
          if not u.healthy && leb (max cfg.healthy_threshold 1) successes
              then set_healthy true u
              else u,
        ))
    else let fails = (entry.fails + 1) % u32_mod in
      (
        record { fails = fails; successes = 0 },
        if u.healthy && leb (max cfg.unhealthy_threshold 1) fails then set_healthy false u else u,
      )

abbrev pub States : Type 0
States = Text → ThresholdState

abbrev pub set_state : Text → ThresholdState → States → States
set_state address entry states = λ a. if str_eq a address then entry else states a

-- One round over the upstreams of a balancer, `check_one` giving each result. The gauge that each
-- check sets is the upstream's health after it.
unfoldable pub check_upstreams :
    HealthCheckConfig
    → (UpstreamRuntime → Bool)
    → States
    → List UpstreamRuntime
    → States × List UpstreamRuntime
unfolding record_result str_eq
check_upstreams cfg check_one states [] = (states, [])
check_upstreams cfg check_one states (u ∷ us) =
    let (entry, u') = record_result cfg (check_one u) (states u.address) u in
    let (states', us') = check_upstreams cfg check_one (set_state u.address entry states) us in
    (states', u' ∷ us')

-- A round over the balancers: an upstream of each is its own object, and the counters are shared by
-- all that have its address.
unfoldable pub check_lbs :
    HealthCheckConfig
    → (UpstreamRuntime → Bool)
    → States
    → List LoadBalancer
    → States × List LoadBalancer
unfolding check_upstreams
check_lbs cfg check states [] = (states, [])
check_lbs cfg check states (lb ∷ lbs) =
    let (states', us) = check_upstreams cfg check states lb.upstreams in
    let (states'', lbs') = check_lbs cfg check states' lbs in
    (states'', record lb { upstreams = us } ∷ lbs')

-- What a pass of the loop reads of the configuration: the pause behind it and the timeout of a check,
-- in nanoseconds.
unfoldable pub interval : HealthCheckConfig → ℕ
interval cfg = max cfg.interval_secs 1 * 1_000_000_000

unfoldable pub timeout : HealthCheckConfig → ℕ
timeout cfg = max cfg.timeout_secs 1 * 1_000_000_000

-- The address that `check_one` asks.
unfoldable pub check_url : Text → Text → Text
unfolding trim_end_matches starts_with
check_url address path =
    trim_end_matches address b'/' ++ (if starts_with path (codes "/") then path else b'/' ∷ path)

-- `is_success() || is_redirection() || NOT_FOUND`
abbrev pub is_up : ℕ → Bool
is_up status =
    (leb 200 status && ltb status 300) || (leb 300 status && ltb status 400) || status == 404

abbrev answer_of : Option ℕ → Bool
answer_of none = false
answer_of (some status) = is_up status

-- The client's answer is the response's status; none is an error, a timeout or a bad request.
unfoldable pub check_one : (Text → Option ℕ) → Text → UpstreamRuntime → Bool
unfolding check_url
check_one request path u = answer_of (request (check_url u.address path))
