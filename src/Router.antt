-- ===== src/Router.antt =====
-- src/router.rs: the route table. An `Arc<LoadBalancer>` is its position in the list of balancers
-- that `from_config` builds beside the table, so clones of one `Arc` are one number.
pub mod Matching
pub mod Order
pub mod Resolve
pub mod AllLbs
mod Tests
use oxi_gate.Base.{
  ℕ, suc, ◌+◌, Text, str_eq, starts_with, trim_end_matches, Bool, true, false, not, ◌||◌, leb,
  if◌then◌else◌, Option, none, some, List, [], ◌∷◌, ◌++◌, map, length, is_empty, find,
}
use oxi_gate.Config.{Config, RouteConfig, LoadBalancingAlgorithm}
use oxi_gate.Lb
use oxi_gate.Lb.{LoadBalancer}

pub record Route : Type 0 where
  pub path_prefix : Text
  pub lb : ℕ

pub record Router : Type 0 where
  pub routes : List Route
  pub default : Option ℕ

abbrev pub slash : Text
slash = b'/' ∷ []

unfoldable pub normalize_prefix : Text → Text
normalize_prefix p = if is_empty p then slash else p

unfoldable pub path_matches : Text → Text → Bool
unfolding str_eq starts_with trim_end_matches
path_matches path prefix =
    if str_eq prefix slash
    then true
    else str_eq path prefix || starts_with path (trim_end_matches prefix b'/' ++ slash)

-- `Option::unwrap_or_else`
abbrev pub unwrap_or {ℓ} : {A : Type ℓ} → Option A → A → A
unwrap_or none d = d
unwrap_or (some a) d = a

-- The loop over `config.routes`: the route that is pushed, and the balancer that is allocated.
unfoldable pub routes_from : ℕ → List RouteConfig → List Route
unfolding normalize_prefix
routes_from i [] = []
routes_from i (r ∷ rs) =
    record { path_prefix = normalize_prefix r.path_prefix; lb = i } ∷ routes_from (suc i) rs

unfoldable pub balancer : LoadBalancingAlgorithm → RouteConfig → LoadBalancer
balancer algorithm r = Lb.from_upstreams r.upstreams (unwrap_or r.load_balancing algorithm)

-- `sort_by_key(|route| Reverse(route.path_prefix.len()))`: a stable sort, longest first. A route is
-- put in front of the routes that came after it and are not longer.
unfoldable pub insert : Route → List Route → List Route
insert r [] = r ∷ []
insert r (s ∷ rs) =
    if leb (length s.path_prefix) (length r.path_prefix) then r ∷ s ∷ rs else s ∷ insert r rs

unfoldable pub sort_by_length : List Route → List Route
unfolding insert
sort_by_length [] = []
sort_by_length (r ∷ rs) = insert r (sort_by_length rs)

unfoldable pub from_config : {F64 : Type 0} → Config F64 → Router × List LoadBalancer
unfolding routes_from sort_by_length balancer
from_config config =
    let routes = sort_by_length (routes_from 0 config.routes) in
    let balancers = map (balancer config.load_balancing) config.routes in
    if not (is_empty config.upstreams)
    then (
      record { routes = routes; default = some (length config.routes) },
      balancers ++ Lb.from_config config ∷ [],
    )
    else (record { routes = routes; default = none }, balancers)

-- The first route that matches, or the default.
unfoldable pub resolve : Router → Text → Option ℕ
unfolding path_matches
resolve router path = elim (find (λ r. path_matches path r.path_prefix) router.routes) [
  | some r ↦ some r.lb
  | none ↦ router.default
]

unfoldable pub all_lbs : Router → List ℕ
all_lbs router = elim router.default [
  | some d ↦ map (λ r. r.lb) router.routes ++ d ∷ []
  | none ↦ map (λ r. r.lb) router.routes
]
