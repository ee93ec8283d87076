-- ===== src/Router/AllLbs.antt =====
-- The balancers that the health checker visits.
use oxi_gate.Base.{
  ℕ, ◌+◌, ◌<◌, ◌≡◌, refl, ap, sym, ◌∙◌, subst, ◌⊎◌, ◌↔◌, inl, inr, Bool-cases, ltb, List, [], ◌∷◌,
  ◌++◌, map, length, is_empty, get_elem?-lt, lt-length, length-append, length-map, In, arith,
}
use oxi_gate.Config.{Config, RouteConfig}
use oxi_gate.Lb
use oxi_gate.Lb.{LoadBalancer}
use oxi_gate.Router.{Route, routes_from, balancer, sort_by_length, from_config, all_lbs}
use oxi_gate.Router.Order.{In-sort, sort-In}
use oxi_gate.Router.Resolve.{In-routes_from, routes_from-In}

In-map-lb :
    (i : ℕ) (rs : List Route) → In i (map (λ r. r.lb) rs) → (r : Route) × In r rs × (r.lb ≡ i)
In-map-lb i [] m = elim m [ ]
In-map-lb i (r ∷ rs) (inl e) = (r, inl refl, sym e)
In-map-lb i (r ∷ rs) (inr m) = let (s, k, e) = In-map-lb i rs m in (s, inr k, e)

map-lb-In : (r : Route) (rs : List Route) → In r rs → In r.lb (map (λ s. s.lb) rs)
map-lb-In r [] m = elim m [ ]
map-lb-In r (s ∷ rs) (inl e) = inl (ap (λ t. t.lb) e)
map-lb-In r (s ∷ rs) (inr m) = inr (map-lb-In r rs m)

lbs_of_table :
    (rs : List RouteConfig) (i : ℕ)
    → In i (map (λ r. r.lb) (sort_by_length (routes_from 0 rs))) ↔ (i < length rs)
lbs_of_table rs i = (to, from)
  where
    to : In i (map (λ r. r.lb) (sort_by_length (routes_from 0 rs))) → i < length rs
    to m =
        let (r, k, e) = In-map-lb i _ m in
        let (j, rc, at, q) = In-routes_from 0 rs r (sort-In r _ k) in
        let place : r.lb ≡ j = ap (λ s. s.lb) q ∙ omega arith in omega (arith, lt-length rs j rc at)

    from : i < length rs → In i (map (λ r. r.lb) (sort_by_length (routes_from 0 rs)))
    from h =
        let (rc, at) = get_elem?-lt rs i h in
        let listed = map-lb-In _ _ (In-sort _ _ (routes_from-In 0 rs i rc at)) in
        let same : 0 + i ≡ i = omega arith in
        subst (λ n. In n (map (λ r. r.lb) (sort_by_length (routes_from 0 rs)))) same listed

In-snoc : (i d : ℕ) (xs : List ℕ) → In i (xs ++ d ∷ []) ↔ (In i xs ⊎ (i ≡ d))
In-snoc i d [] = (
  λ m. elim m [ inl e ↦ inr e | inr k ↦ absurd k ],
  λ m. elim m [ inl k ↦ absurd k | inr e ↦ inl e ],
)
In-snoc i d (x ∷ xs) = (to (In-snoc i d xs).0, from (In-snoc i d xs).1)
  where
    to :
        (In i (xs ++ d ∷ []) → In i xs ⊎ (i ≡ d))
        → In i (x ∷ xs ++ d ∷ [])
        → In i (x ∷ xs) ⊎ (i ≡ d)
    to ih (inl e) = inl (inl e)
    to ih (inr m) = elim (ih m) [ inl k ↦ inl (inr k) | inr e ↦ inr e ]

    from :
        (In i xs ⊎ (i ≡ d) → In i (xs ++ d ∷ []))
        → In i (x ∷ xs) ⊎ (i ≡ d)
        → In i (x ∷ xs ++ d ∷ [])
    from ih (inl (inl e)) = inl e
    from ih (inl (inr k)) = inr (ih (inl k))
    from ih (inr e) = inr (ih (inr e))

with_default :
    (rs : List RouteConfig) (bs : List LoadBalancer) (b : LoadBalancer) (i : ℕ)
    → length bs ≡ length rs
    → In i (map (λ r. r.lb) (sort_by_length (routes_from 0 rs)) ++ length rs ∷ [])
      ↔ (i < length (bs ++ b ∷ []))
with_default rs bs b i e = (to, from)
  where
    table : List ℕ
    table = map (λ r. r.lb) (sort_by_length (routes_from 0 rs))

    to : In i (table ++ length rs ∷ []) → i < length (bs ++ b ∷ [])
    to m = elim ((In-snoc i (length rs) table).0 m) [
      | inl k ↦ omega (arith, (lbs_of_table rs i).0 k, length-append bs (b ∷ []))
      | inr q ↦ omega (arith, length-append bs (b ∷ []))
    ]

    from : i < length (bs ++ b ∷ []) → In i (table ++ length rs ∷ [])
    from h = (In-snoc i (length rs) table).1 (elim (Bool-cases (ltb i (length rs))) [
      | inl p ↦ inl ((lbs_of_table rs i).1 (ground arith))
      | inr p ↦ inr (ground (arith, length-append bs (b ∷ [])))
    ])

-- The health checker's list names exactly the balancers that were built, so no balancer goes
-- unchecked and no name dangles.
pub all_lbs-from_config :
    {F64 : Type 0} (config : Config F64) (i : ℕ)
    → In i (all_lbs (from_config config).0) ↔ (i < length (from_config config).1)
unfolding all_lbs from_config
all_lbs-from_config config i = elim (Bool-cases (is_empty config.upstreams)) [
  | inl e ↦
      rw (e, length-map (balancer config.load_balancing) config.routes)
        (lbs_of_table config.routes i)
  | inr e ↦ rw e (
      with_default config.routes (map (balancer config.load_balancing) config.routes)
        (Lb.from_config config) i (length-map (balancer config.load_balancing) config.routes))
]
