-- ===== src/Router/Resolve.antt =====
-- What a request path resolves to, in terms of the configuration.
use oxi_gate.Base.{
  ℕ, zero, suc, ◌+◌, ◌≤◌, ◌≡◌, refl, ap, sym, ◌∙◌, subst, ◌⊎◌, inl, inr, Text, Bool, true, false,
  Bool-cases, Option-cases, none, some, List, [], ◌∷◌, ◌++◌, map, length, is_empty, get_elem?,
  get_elem?-append_left, get_elem?-append_right, get_elem?-map, length-map, find, find-some,
  find-none, In, arith,
}
use oxi_gate.Config.{Config, RouteConfig}
use oxi_gate.Lb
use oxi_gate.Lb.{LoadBalancer}
use oxi_gate.Router.{
  Route, Router, normalize_prefix, path_matches, unwrap_or, routes_from, balancer, sort_by_length,
  from_config, resolve,
}
use oxi_gate.Router.Order.{Precedes, sort_by_length-IsOrdered, In-sort, sort-In, find_first}

pub In-routes_from :
    (i : ℕ) (rs : List RouteConfig) (r : Route)
    → In r (routes_from i rs)
    → (k : ℕ) × (rc : RouteConfig) × (get_elem? rs k ≡ some rc)
      × (r ≡ record { path_prefix = normalize_prefix rc.path_prefix; lb = i + k })
unfolding routes_from
In-routes_from i [] r m = elim m [ ]
In-routes_from i (c ∷ rs) r (inl e) =
    let here : i ≡ i + 0 = omega arith in
    (0, c, refl, e ∙ ap (λ k. record { path_prefix = normalize_prefix c.path_prefix; lb = k }) here)
In-routes_from i (c ∷ rs) r (inr m) =
    let (k, rc, e, q) = In-routes_from (suc i) rs r m in
    let there : suc i + k ≡ i + suc k = omega arith in
    (
      suc k,
      rc,
      e,
      q ∙ ap (λ n. record { path_prefix = normalize_prefix rc.path_prefix; lb = n }) there,
    )

pub routes_from-In :
    (i : ℕ) (rs : List RouteConfig) (k : ℕ) (rc : RouteConfig)
    → get_elem? rs k ≡ some rc
    → In (record { path_prefix = normalize_prefix rc.path_prefix; lb = i + k }) (routes_from i rs)
unfolding routes_from
routes_from-In i [] k rc e = cc
routes_from-In i (c ∷ rs) zero rc e =
    let here : i + 0 ≡ i = omega arith in let same : rc ≡ c = cc in inl (rw (here, same))
routes_from-In i (c ∷ rs) (suc k) rc e =
    let there : suc i + k ≡ i + suc k = omega arith in
    inr (
      subst
        (λ n.
          In (record { path_prefix = normalize_prefix rc.path_prefix; lb = n })
            (routes_from (suc i) rs))
        there (routes_from-In (suc i) rs k rc e))

-- The order of two routes, ties by place.
abbrev NotBefore : Route → Route → Type 0
NotBefore r s =
    (length s.path_prefix ≤ length r.path_prefix)
    × (length s.path_prefix ≡ length r.path_prefix → r.lb ≤ s.lb)

not_before : (r s : Route) → (s ≡ r) ⊎ Precedes r s → NotBefore r s
not_before r s (inl e) = subst (λ t. NotBefore r t) (sym e) (omega arith, λ q. omega arith)
not_before r s (inr p) = (p.0, λ q. ground arith)

resolve-some :
    (router : Router) (path : Text) (r : Route)
    → find (λ s. path_matches path s.path_prefix) router.routes ≡ some r
    → resolve router path ≡ some r.lb
unfolding resolve
resolve-some router path r e = rw (e, resolve)

resolve-none :
    (router : Router) (path : Text)
    → find (λ s. path_matches path s.path_prefix) router.routes ≡ none
    → resolve router path ≡ router.default
unfolding resolve
resolve-none router path e = rw (e, resolve)

module _ {F64 : Type 0} (config : Config F64) (path : Text) where
  abbrev pub Fits : RouteConfig → Type 0
  Fits rc = path_matches path (normalize_prefix rc.path_prefix) ≡ true

  abbrev pub prefix_length : RouteConfig → ℕ
  prefix_length rc = length (normalize_prefix rc.path_prefix)

  -- The route at place i of the configuration matches; no matching route has a longer prefix, and
  -- none of the same length stands before it; and the balancer at place i is the route's own.
  pub record IsBest (i : ℕ) : Type 0 where
    pub route : RouteConfig
    pub placed : get_elem? config.routes i ≡ some route
    pub fits : Fits route
    pub best :
        (j : ℕ) (rc : RouteConfig)
        → get_elem? config.routes j ≡ some rc
        → Fits rc
        → (prefix_length rc ≤ prefix_length route)
          × (prefix_length rc ≡ prefix_length route → i ≤ j)
    pub served :
        get_elem? (from_config config).1 i
        ≡ some (
            Lb.from_upstreams route.upstreams
              (unwrap_or route.load_balancing config.load_balancing))

  test : Route → Bool
  test r = path_matches path r.path_prefix

  table : List Route
  table = sort_by_length (routes_from 0 config.routes)

  router_table : (from_config config).0.routes ≡ table
  unfolding from_config table
  router_table = ground arith

  served_route :
      (i : ℕ) (rc : RouteConfig)
      → get_elem? config.routes i ≡ some rc
      → get_elem? (from_config config).1 i ≡ some (balancer config.load_balancing rc)
  unfolding from_config
  served_route i rc e =
      let own = get_elem?-map (balancer config.load_balancing) config.routes i rc e in
      elim (Bool-cases (is_empty config.upstreams)) [
        | inl q ↦ rw q own
        | inr q ↦ rw q (get_elem?-append_left _ _ i (balancer config.load_balancing rc) own)
      ]

  IsBest-of_found : (r : Route) → find test table ≡ some r → IsBest r.lb
  unfolding test table balancer
  IsBest-of_found r e =
      let (m, fits) = find-some test table r e in
      let (k, rc, at, q) = In-routes_from 0 config.routes r (sort-In r _ m) in
      let place : r.lb ≡ k = ap (λ s. s.lb) q ∙ omega arith in
      let others =
        λ (j : ℕ) (rc' : RouteConfig) (at' : get_elem? config.routes j ≡ some rc')
            (fits' : Fits rc').
          let s : Route = record { path_prefix = normalize_prefix rc'.path_prefix; lb = 0 + j } in
          let listed = In-sort s _ (routes_from-In 0 config.routes j rc' at') in
          let before =
            not_before r s (
              find_first test table r s (sort_by_length-IsOrdered 0 config.routes) e listed
                fits') in
          let (le, tie) = subst (λ t. NotBefore t s) q before in
          let answer : (prefix_length rc' ≤ prefix_length rc)
              × (prefix_length rc' ≡ prefix_length rc → k ≤ j) =
            (le, λ same. omega (arith, tie same)) in
          answer in
      subst IsBest (sym place) (record {
        route = rc;
        placed = at;
        fits = subst (λ t. test t ≡ true) q fits;
        best = others;
        served = served_route k rc at;
      })

  none_fit :
      find test table ≡ none
      → (j : ℕ) (rc : RouteConfig) → get_elem? config.routes j ≡ some rc
      → ¬ Fits rc
  unfolding test table
  none_fit e j rc at fits =
      let s : Route = record { path_prefix = normalize_prefix rc.path_prefix; lb = 0 + j } in
      let listed = In-sort s _ (routes_from-In 0 config.routes j rc at) in
      let refused = find-none test table e s listed in absurd (clash fits refused)
    where
      clash : {b : Bool} → b ≡ true → b ≡ false → ⊥
      clash p q = cc

  default_lem :
      (((from_config config).0.default ≡ none) × (config.upstreams ≡ []))
      ⊎ (((from_config config).0.default ≡ some (length config.routes))
          × (get_elem? (from_config config).1 (length config.routes)
              ≡ some (Lb.from_config config)))
  unfolding from_config
  default_lem = elim (Bool-cases (is_empty config.upstreams)) [
    | inl e ↦ inl (rw e refl, empty_list config.upstreams e)
    | inr e ↦ inr (
      rw e refl,
      rw e (
          last_place (map (balancer config.load_balancing) config.routes) (length config.routes)
            (length-map _ config.routes)),
    )
  ]
    where
      empty_list : {A : Type 0} (xs : List A) → is_empty xs ≡ true → xs ≡ []
      empty_list [] q = refl
      empty_list (x ∷ xs) q = cc

      last_place :
          (xs : List LoadBalancer) (n : ℕ)
          → length xs ≡ n
          → get_elem? (xs ++ Lb.from_config config ∷ []) n ≡ some (Lb.from_config config)
      last_place xs n q =
          let here : n ≡ length xs + 0 = omega arith in
          ap (get_elem? (xs ++ Lb.from_config config ∷ [])) here
          ∙ get_elem?-append_right xs (Lb.from_config config ∷ []) 0

  resolve_found :
      (r : Route) → find test table ≡ some r → resolve (from_config config).0 path ≡ some r.lb
  unfolding test
  resolve_found r e =
      resolve-some (from_config config).0 path r
        (ap (find (λ s. path_matches path s.path_prefix)) router_table ∙ e)

  resolve_missed :
      find test table ≡ none → resolve (from_config config).0 path ≡ (from_config config).0.default
  unfolding test
  resolve_missed e =
      resolve-none (from_config config).0 path
        (ap (find (λ s. path_matches path s.path_prefix)) router_table ∙ e)

-- A request path resolves to the best of the routes that match it, the longest prefix and then the
-- first in the configuration, with that route's balancer; if no route matches it resolves to the
-- balancer of the top-level upstreams, and to nothing if there are none.
pub resolve-from_config :
    {F64 : Type 0} (config : Config F64) (path : Text)
    → let (router, balancers) = from_config config in
      ((i : ℕ) × (resolve router path ≡ some i) × IsBest config path i)
      ⊎ (((j : ℕ) (rc : RouteConfig) → get_elem? config.routes j ≡ some rc → ¬ Fits config path rc)
          × (((resolve router path ≡ none) × (config.upstreams ≡ []))
              ⊎ ((resolve router path ≡ some (length config.routes))
                  × (get_elem? balancers (length config.routes) ≡ some (Lb.from_config config)))))
resolve-from_config config path =
    elim (Option-cases (find (test config path) (table config path))) [
      | inr (r, e) ↦ inl (r.lb, resolve_found config path r e, IsBest-of_found config path r e)
      | inl e ↦ inr (
        none_fit config path e,
        elim (default_lem config path) [
          | inl (d, q) ↦ inl (resolve_missed config path e ∙ d, q)
          | inr (d, q) ↦ inr (resolve_missed config path e ∙ d, q)
        ],
      )
    ]
