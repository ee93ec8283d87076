-- ===== src/Lb.antt =====
-- src/lb: upstreams with health and connection counts, and the selection of an upstream.
-- An `Arc<UpstreamRuntime>` is an `Handle`: the position in the balancer's list, which is the
-- shared object's identity, and what was read there when the handle was taken. Relaxed atomic
-- operations are the plain ones on `usize`, with the wrap-around written out.
pub mod Filter
pub mod Select
pub mod Rotation
pub mod Weighted
pub mod Load
mod Tests
use oxi_gate.Base.{
  ℕ, zero, suc, ◌+◌, ◌-◌, ◌%◌, ◌^◌, max, Text, str_eq, Bool, true, false, not, ◌&&◌, ◌||◌, leb, ltb,
  ◌==◌, if◌then◌else◌, Option, none, some, List, [], ◌∷◌, ◌++◌, map, length, is_empty, get_elem?,
  modify, any, find, filter, replicate,
}
use oxi_gate.Config.{
  Config, Upstream, LoadBalancingAlgorithm, round_robin, weighted_round_robin, least_connections,
  power_of_two_choices,
}

abbrev pub usize_mod : ℕ
usize_mod = 2 ^ 64

pub record UpstreamRuntime : Type 0 where
  pub address : Text
  pub weight : ℕ
  pub healthy : Bool
  pub active_connections : ℕ

unfoldable pub new : Upstream → UpstreamRuntime
new upstream = record {
  address = upstream.address;
  weight = upstream.weight;
  healthy = true;
  active_connections = 0;
}

abbrev pub set_healthy : Bool → UpstreamRuntime → UpstreamRuntime
set_healthy healthy u = record u { healthy = healthy }

-- `fetch_add(1)` and `fetch_sub(1)` wrap.
abbrev pub inc_connections : UpstreamRuntime → UpstreamRuntime
inc_connections u = record u { active_connections = (u.active_connections + 1) % usize_mod }

abbrev pub dec_connections : UpstreamRuntime → UpstreamRuntime
dec_connections u = record u {
  active_connections = (u.active_connections + usize_mod - 1) % usize_mod;
}

pub record LoadBalancer : Type 0 where
  pub upstreams : List UpstreamRuntime
  pub algorithm : LoadBalancingAlgorithm
  pub rr_counter : ℕ

unfoldable pub from_upstreams : List Upstream → LoadBalancingAlgorithm → LoadBalancer
unfolding new
from_upstreams upstreams algorithm = record {
  upstreams = map new upstreams;
  algorithm = algorithm;
  rr_counter = 0;
}

unfoldable pub from_config : {F64 : Type 0} → Config F64 → LoadBalancer
unfolding from_upstreams
from_config config = from_upstreams config.upstreams config.load_balancing

pub record Handle : Type 0 where
  pub index : ℕ
  pub runtime : UpstreamRuntime

-- The list of `Arc`s, each with its position.
unfoldable pub handles : ℕ → List UpstreamRuntime → List Handle
handles i [] = []
handles i (u ∷ us) = record { index = i; runtime = u } ∷ handles (suc i) us

-- `u.is_healthy() && !exclude.iter().any(|e| *e == u.address)`
abbrev pub is_eligible : List Text → Handle → Bool
is_eligible exclude h = h.runtime.healthy && not (any (λ e. str_eq e h.runtime.address) exclude)

unfoldable pub healthy : LoadBalancer → List Text → List Handle
unfolding handles
healthy lb exclude = filter (is_eligible exclude) (handles 0 lb.upstreams)

-- `rr_counter.fetch_add(n)`: the old value, and the balancer with the new one.
abbrev pub bump : ℕ → LoadBalancer → LoadBalancer
bump n lb = record lb { rr_counter = (lb.rr_counter + n) % usize_mod }

-- The inner loop of the weighted algorithm: `weight.max(1)` copies of each upstream.
unfoldable pub expand : List Handle → List Handle
expand [] = []
expand (h ∷ hs) = replicate (max h.runtime.weight 1) h ++ expand hs

-- `iter().min_by_key(|u| u.connections())`: the first of the smallest.
unfoldable pub min_by_connections : Handle → List Handle → Handle
min_by_connections best [] = best
min_by_connections best (h ∷ hs) =
    min_by_connections
      (if ltb h.runtime.active_connections best.runtime.active_connections then h else best) hs

-- least_conn::select
unfoldable pub least_conn : List Handle → Option Handle
unfolding min_by_connections
least_conn [] = none
least_conn (h ∷ hs) = some (min_by_connections h hs)

abbrev less_loaded : Option Handle → Option Handle → Option Handle
less_loaded (some a) (some b) =
    if leb a.runtime.active_connections b.runtime.active_connections then some a else some b
less_loaded _ _ = none

-- The branches of `select_excluding`, on the list of candidates that is not empty.
unfoldable pub choose :
    LoadBalancer → LoadBalancingAlgorithm → List Handle → LoadBalancer × Option Handle
unfolding expand least_conn
choose lb round_robin hs = (bump 1 lb, get_elem? hs (lb.rr_counter % length hs))
choose lb weighted_round_robin hs =
    let expanded = expand hs in
    if is_empty expanded
    then (lb, none)
    else (bump 1 lb, get_elem? expanded (lb.rr_counter % length expanded))
choose lb least_connections hs = (lb, least_conn hs)
choose lb power_of_two_choices hs = if length hs == 1 then (lb, get_elem? hs 0) else (
  bump 2 lb,
  less_loaded (get_elem? hs (lb.rr_counter % length hs))
      (get_elem? hs ((lb.rr_counter + 1) % usize_mod % length hs)),
)

unfoldable pub select_excluding : LoadBalancer → List Text → LoadBalancer × Option Handle
unfolding choose healthy
select_excluding lb exclude =
    let hs = healthy lb exclude in if is_empty hs then (lb, none) else choose lb lb.algorithm hs

unfoldable pub select : LoadBalancer → LoadBalancer × Option Handle
unfolding select_excluding
select lb = select_excluding lb []

abbrev matches_cookie : Text → Handle → Bool
matches_cookie val h = h.runtime.healthy && str_eq h.runtime.address val

unfoldable pub select_sticky : LoadBalancer → Option Text → LoadBalancer × Option Handle
unfolding select_excluding handles
select_sticky lb none = select_excluding lb []
select_sticky lb (some val) = elim (find (matches_cookie val) (handles 0 lb.upstreams)) [
  | some h ↦ (lb, some h)
  | none ↦ select_excluding lb []
]

-- A method of the shared object behind a handle.
abbrev pub on_upstream : ℕ → (UpstreamRuntime → UpstreamRuntime) → LoadBalancer → LoadBalancer
on_upstream i f lb = record lb { upstreams = modify lb.upstreams i f }
