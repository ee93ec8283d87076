-- ===== src/Lb/Select.antt =====
-- What every algorithm's selection promises.
use oxi_gate.Base.{
  ℕ, zero, suc, ◌+◌, ◌%◌, ◌<◌, ◌≡◌, ◌≢◌, refl, sym, ◌↔◌, ◌⊎◌, inl, inr, Text, str_eq_iff, Bool,
  true, false, max, Bool-cases, Option-cases, Option, none, some, List, [], ◌∷◌, ◌++◌, length,
  is_empty, get_elem?, find, find-some, find-none, replicate, In, In-of_eq, subst, get_elem?-In,
  get_elem?-lt, ltb, if◌then◌else◌, ◌==◌, arith,
}
use oxi_gate.Config.{
  LoadBalancingAlgorithm, round_robin, weighted_round_robin, least_connections,
  power_of_two_choices,
}
use oxi_gate.Lb.{
  usize_mod, LoadBalancer, Handle, handles, healthy, expand, min_by_connections, choose,
  select_excluding, select_sticky, matches_cookie, less_loaded,
}
use oxi_gate.Lb.Filter.{IsCandidate, In-healthy_iff, In-handles, handles-In}
use native.Mathlib.Nat.{mod-lt}

In-replicate : (n : ℕ) (a b : Handle) → In b (replicate n a) → b ≡ a
In-replicate zero a b m = elim m [ ]
In-replicate (suc n) a b (inl e) = e
In-replicate (suc n) a b (inr m) = In-replicate n a b m

In-append : (b : Handle) (xs ys : List Handle) → In b (xs ++ ys) → In b xs ⊎ In b ys
In-append b [] ys m = inr m
In-append b (x ∷ xs) ys (inl e) = inl (inl e)
In-append b (x ∷ xs) ys (inr m) = elim (In-append b xs ys m) [ inl k ↦ inl (inr k) | inr k ↦ inr k ]

pub In-expand : (h : Handle) (hs : List Handle) → In h (expand hs) → In h hs
unfolding expand
In-expand h [] m = elim m [ ]
In-expand h (g ∷ hs) m = elim (In-append h (replicate (max g.runtime.weight 1) g) (expand hs) m) [
  | inl k ↦ inl (In-replicate _ g h k)
  | inr k ↦ inr (In-expand h hs k)
]

pub length-expand-pos : (h : Handle) (hs : List Handle) → 0 < length (expand (h ∷ hs))
unfolding expand
length-expand-pos h hs = positive (max h.runtime.weight 1) (omega arith)
  where
    positive : (n : ℕ) → 0 < n → 0 < length (replicate n h ++ expand hs)
    positive zero p = absurd (omega arith)
    positive (suc n) p = omega arith

In-min : (best : Handle) (hs : List Handle) → In (min_by_connections best hs) (best ∷ hs)
unfolding min_by_connections
In-min best [] = inl refl
In-min best (h ∷ hs) =
    pick (In-min h hs) (In-min best hs)
      (ltb h.runtime.active_connections best.runtime.active_connections)
  where
    skip : {x : Handle} → In x (best ∷ hs) → In x (best ∷ h ∷ hs)
    skip (inl e) = inl e
    skip (inr m) = inr (inr m)

    pick :
        In (min_by_connections h hs) (h ∷ hs)
        → In (min_by_connections best hs) (best ∷ hs)
        → (b : Bool) → In (min_by_connections (if b then h else best) hs) (best ∷ h ∷ hs)
    pick m k true = inr m
    pick m k false = skip k

-- An index below the length reads an element.
pub get_elem?-mod :
    {A : Type 0} (xs : List A) (c : ℕ) → 0 < length xs → get_elem? xs (c % length xs) ≢ none
get_elem?-mod xs c h e = let (a, q) = get_elem?-lt xs (c % length xs) (mod-lt c h) in cc

less_loaded-In :
    (xs : List Handle) (i j : ℕ) (h : Handle)
    → less_loaded (get_elem? xs i) (get_elem? xs j) ≡ some h
    → In h xs
less_loaded-In xs i j h e = elim (Option-cases (get_elem? xs i)) [
  | inl p ↦ absurd (ground arith)
  | inr (a, p) ↦ elim (Option-cases (get_elem? xs j)) [
    | inl q ↦ absurd (ground arith)
    | inr (b, q) ↦ either a b p q (ground arith)
  ]
]
  where
    either :
        (a b : Handle)
        → get_elem? xs i ≡ some a
        → get_elem? xs j ≡ some b
        → (a ≡ h) ⊎ (b ≡ h)
        → In h xs
    either a b p q (inl s) = In-of_eq xs (sym s) (get_elem?-In xs i a p)
    either a b p q (inr s) = In-of_eq xs (sym s) (get_elem?-In xs j b q)

pub choose-In :
    (lb : LoadBalancer) (alg : LoadBalancingAlgorithm) (hs : List Handle) (h : Handle)
    → (choose lb alg hs).1 ≡ some h
    → In h hs
unfolding choose
choose-In lb round_robin hs h e = get_elem?-In hs _ h e
choose-In lb weighted_round_robin hs h e = elim (Bool-cases (is_empty (expand hs))) [
  | inl p ↦ absurd (ground arith)
  | inr p ↦
      In-expand h hs
        (get_elem?-In (expand hs) (lb.rr_counter % length (expand hs)) h (ground arith))
]
choose-In lb least_connections [] h e = cc
choose-In lb least_connections (g ∷ hs) h e =
    let same : min_by_connections g hs ≡ h = cc in In-of_eq (g ∷ hs) (sym same) (In-min g hs)
choose-In lb power_of_two_choices hs h e = elim (Bool-cases (length hs == 1)) [
  | inl p ↦ get_elem?-In hs 0 h (ground arith)
  | inr p ↦
      less_loaded-In hs (lb.rr_counter % length hs) ((lb.rr_counter + 1) % usize_mod % length hs) h
        (ground arith)
]

less_loaded-ne-none : (a b : Option Handle) → a ≢ none → b ≢ none → less_loaded a b ≢ none
less_loaded-ne-none none b p q e = p refl
less_loaded-ne-none (some a) none p q e = q refl
less_loaded-ne-none (some a) (some b) p q e = ground arith

choose-ne-none :
    (lb : LoadBalancer) (alg : LoadBalancingAlgorithm) (h : Handle) (hs : List Handle)
    → (choose lb alg (h ∷ hs)).1 ≢ none
unfolding choose
choose-ne-none lb round_robin h hs = get_elem?-mod (h ∷ hs) lb.rr_counter (omega arith)
choose-ne-none lb weighted_round_robin h hs =
    let p = get_elem?-mod (expand (h ∷ hs)) lb.rr_counter (length-expand-pos h hs) in
    ground (arith, length-expand-pos h hs)
choose-ne-none lb least_connections h hs = λ e. cc
choose-ne-none lb power_of_two_choices h hs = ground (
  arith,
  less_loaded-ne-none (get_elem? (h ∷ hs) (lb.rr_counter % length (h ∷ hs)))
      (get_elem? (h ∷ hs) ((lb.rr_counter + 1) % usize_mod % length (h ∷ hs)))
      (get_elem?-mod (h ∷ hs) lb.rr_counter (omega arith))
      (get_elem?-mod (h ∷ hs) ((lb.rr_counter + 1) % usize_mod) (omega arith)),
)

-- A selected upstream is one of the balancer's own, it was healthy when the list was read, and
-- its address is not excluded.
pub select_excluding-IsCandidate :
    (lb : LoadBalancer) (exclude : List Text) (h : Handle)
    → (select_excluding lb exclude).1 ≡ some h
    → IsCandidate lb exclude h
unfolding select_excluding
select_excluding-IsCandidate lb exclude h e = elim (Bool-cases (is_empty (healthy lb exclude))) [
  | inl p ↦ absurd (ground arith)
  | inr p ↦
      (In-healthy_iff lb exclude h).0
        (choose-In lb lb.algorithm (healthy lb exclude) h (ground arith))
]

select_none-empty :
    (lb : LoadBalancer) (exclude : List Text) (hs : List Handle)
    → healthy lb exclude ≡ hs
    → (select_excluding lb exclude).1 ≡ none
    → hs ≡ []
unfolding select_excluding
select_none-empty lb exclude [] p e = refl
select_none-empty lb exclude (h ∷ hs) p e = absurd (choose-ne-none lb lb.algorithm h hs (rw p at e))

-- Nothing is selected exactly when no upstream is healthy with an address that is not excluded,
-- whatever the algorithm and the counter.
pub select_excluding-none_iff :
    (lb : LoadBalancer) (exclude : List Text)
    → ((select_excluding lb exclude).1 ≡ none) ↔ ((h : Handle) → ¬ IsCandidate lb exclude h)
unfolding select_excluding
select_excluding-none_iff lb exclude = (to, from (healthy lb exclude) refl)
  where
    to : (select_excluding lb exclude).1 ≡ none → (h : Handle) → ¬ IsCandidate lb exclude h
    to e h c =
        let m = (In-healthy_iff lb exclude h).1 c in rw (select_none-empty lb exclude _ refl e) at m

    from :
        (hs : List Handle)
        → healthy lb exclude ≡ hs
        → ((h : Handle) → ¬ IsCandidate lb exclude h)
        → (select_excluding lb exclude).1 ≡ none
    from [] p none_fits = ground arith
    from (h ∷ hs) p none_fits =
        absurd (none_fits h ((In-healthy_iff lb exclude h).0 (rw p (inl refl))))

choose-keeps :
    (lb : LoadBalancer) (alg : LoadBalancingAlgorithm) (hs : List Handle)
    → ((choose lb alg hs).0.upstreams ≡ lb.upstreams)
      × ((choose lb alg hs).0.algorithm ≡ lb.algorithm)
unfolding choose
choose-keeps lb round_robin hs = (refl, refl)
choose-keeps lb weighted_round_robin hs = ground arith
choose-keeps lb least_connections hs = (refl, refl)
choose-keeps lb power_of_two_choices hs = ground arith

-- A selection changes nothing but the rotation counter.
pub select_excluding-keeps :
    (lb : LoadBalancer) (exclude : List Text)
    → ((select_excluding lb exclude).0.upstreams ≡ lb.upstreams)
      × ((select_excluding lb exclude).0.algorithm ≡ lb.algorithm)
unfolding select_excluding
select_excluding-keeps lb exclude =
    ground (arith, choose-keeps lb lb.algorithm (healthy lb exclude))

-- A handle of the balancer's own list that the cookie's test accepts.
sticky-IsCandidate :
    (lb : LoadBalancer) (val : Text) (h : Handle)
    → In h (handles 0 lb.upstreams)
    → matches_cookie val h ≡ true
    → IsCandidate lb [] h × (h.runtime.address ≡ val)
sticky-IsCandidate lb val h m e =
    let (k, p, q) = In-handles 0 lb.upstreams h m in
    let same : h.index ≡ k = omega arith in
    (
      record { placed = rw same q; up = ground arith; fresh = λ none_in. none_in },
      (str_eq_iff h.runtime.address val).0 (ground arith),
    )

-- A cookie that names a healthy upstream selects an upstream of that address and leaves the
-- balancer as it was; with any other cookie the selection is the one without a cookie.
pub select_sticky_lem :
    (lb : LoadBalancer) (val : Text)
    → ((h : Handle) × (select_sticky lb (some val) ≡ (lb, some h))
        × IsCandidate lb [] h
        × (h.runtime.address ≡ val))
      ⊎ ((select_sticky lb (some val) ≡ select_sticky lb none)
          × ((h : Handle) → IsCandidate lb [] h → h.runtime.address ≢ val))
unfolding select_sticky
select_sticky_lem lb val =
    elim (Option-cases (find (matches_cookie val) (handles 0 lb.upstreams))) [
      | inl e ↦ inr (rw (e, select_sticky) refl, λ h c same. missed e h c same)
      | inr (h, e) ↦
          let (m, q) = find-some (matches_cookie val) (handles 0 lb.upstreams) h e in
          let (c, a) = sticky-IsCandidate lb val h m q in inl (h, rw (e, select_sticky) refl, c, a)
    ]
  where
    missed :
        find (matches_cookie val) (handles 0 lb.upstreams) ≡ none
        → (h : Handle) → IsCandidate lb [] h
        → h.runtime.address ≢ val
    missed e h c same =
        let here : 0 + h.index ≡ h.index = omega arith in
        let m : In h (handles 0 lb.upstreams) =
          subst (λ j. In (record { index = j; runtime = h.runtime }) (handles 0 lb.upstreams)) here
            (handles-In 0 lb.upstreams h.index h.runtime c.placed) in
        let no_match = find-none (matches_cookie val) (handles 0 lb.upstreams) e h m in
        let yes_match = (str_eq_iff h.runtime.address val).1 same in absurd (ground (arith, c.up))
