-- ===== src/Router/Order.antt =====
-- The order of the route table: longer prefixes first, and among equal lengths the order of the
-- configuration.
use oxi_gate.Base.{
  ℕ, suc, ◌≤◌, ◌<◌, ◌≡◌, subst, ◌⊎◌, inl, inr, Bool, true, false, Bool-cases, leb, if◌then◌else◌,
  some, List, [], ◌∷◌, length, find, In, All, All-In, arith,
}
use oxi_gate.Config.{RouteConfig}
use oxi_gate.Router.{Route, normalize_prefix, routes_from, insert, sort_by_length}

abbrev pub Precedes : Route → Route → Type 0
Precedes r s =
    (length s.path_prefix ≤ length r.path_prefix)
    × (length r.path_prefix ≡ length s.path_prefix → r.lb < s.lb)

abbrev pub IsOrdered : List Route → Type 0
IsOrdered [] = Unit {0}
IsOrdered (r ∷ rs) = All (Precedes r) rs × IsOrdered rs

abbrev After : ℕ → List Route → Type 0
After i rs = All (λ r. i < r.lb) rs

All-insert :
    (P : Route → Type 0) (r : Route) (rs : List Route) → P r → All P rs → All P (insert r rs)
unfolding insert
All-insert P r [] p h = (p, tt)
All-insert P r (s ∷ rs) p h =
    elim (Bool-cases (leb (length s.path_prefix) (length r.path_prefix))) [
      | inl e ↦ rw e (p, h)
      | inr e ↦ rw e (h.0, All-insert P r rs p h.1)
    ]

Precedes-All :
    (r s : Route) (rs : List Route)
    → Precedes r s
    → All (Precedes s) rs
    → After r.lb rs
    → All (Precedes r) rs
Precedes-All r s [] p h a = tt
Precedes-All r s (t ∷ rs) p h a = ((omega arith, λ e. a.0), Precedes-All r s rs p h.1 a.1)

insert-IsOrdered :
    (r : Route) (rs : List Route) → After r.lb rs → IsOrdered rs → IsOrdered (insert r rs)
unfolding insert
insert-IsOrdered r [] a o = (tt, tt)
insert-IsOrdered r (s ∷ rs) a o =
    elim (Bool-cases (leb (length s.path_prefix) (length r.path_prefix))) [
      | inl e ↦
          let p : Precedes r s = (ground arith, λ q. a.0) in
          rw e ((p, Precedes-All r s rs p o.0 a.1), o)
      | inr e ↦ rw e (
        All-insert (Precedes s) r rs (ground arith, λ q. ground arith) o.0,
        insert-IsOrdered r rs a.1 o.1,
      )
    ]

After-sort : (i : ℕ) (rs : List Route) → After i rs → After i (sort_by_length rs)
unfolding sort_by_length
After-sort i [] a = tt
After-sort i (r ∷ rs) a = All-insert (λ s. i < s.lb) r (sort_by_length rs) a.0 (After-sort i rs a.1)

After-routes_from : (i j : ℕ) (rs : List RouteConfig) → i < j → After i (routes_from j rs)
unfolding routes_from
After-routes_from i j [] h = tt
After-routes_from i j (r ∷ rs) h = (h, After-routes_from i (suc j) rs (omega arith))

pub sort_by_length-IsOrdered :
    (i : ℕ) (rs : List RouteConfig) → IsOrdered (sort_by_length (routes_from i rs))
unfolding sort_by_length routes_from
sort_by_length-IsOrdered i [] = tt
sort_by_length-IsOrdered i (r ∷ rs) =
    insert-IsOrdered (record { path_prefix = normalize_prefix r.path_prefix; lb = i })
      (sort_by_length (routes_from (suc i) rs))
      (After-sort i (routes_from (suc i) rs) (After-routes_from i (suc i) rs (omega arith)))
      (sort_by_length-IsOrdered (suc i) rs)

-- Sorting keeps the routes.
In-insert : (x r : Route) (rs : List Route) → (x ≡ r) ⊎ In x rs → In x (insert r rs)
unfolding insert
In-insert x r [] m = m
In-insert x r (s ∷ rs) m =
    pick (In-insert x r rs) m (leb (length s.path_prefix) (length r.path_prefix))
  where
    pick :
        ((x ≡ r) ⊎ In x rs → In x (insert r rs))
        → (x ≡ r) ⊎ In x (s ∷ rs)
        → (b : Bool) → In x (if b then r ∷ s ∷ rs else s ∷ insert r rs)
    pick ih (inl e) true = inl e
    pick ih (inr k) true = inr k
    pick ih (inl e) false = inr (ih (inl e))
    pick ih (inr (inl e)) false = inl e
    pick ih (inr (inr k)) false = inr (ih (inr k))

insert-In : (x r : Route) (rs : List Route) → In x (insert r rs) → (x ≡ r) ⊎ In x rs
unfolding insert
insert-In x r [] m = m
insert-In x r (s ∷ rs) m =
    pick (insert-In x r rs) (leb (length s.path_prefix) (length r.path_prefix)) m
  where
    pick :
        (In x (insert r rs) → (x ≡ r) ⊎ In x rs)
        → (b : Bool) → In x (if b then r ∷ s ∷ rs else s ∷ insert r rs)
        → (x ≡ r) ⊎ In x (s ∷ rs)
    pick ih true m = m
    pick ih false (inl e) = inr (inl e)
    pick ih false (inr k) = elim (ih k) [ inl e ↦ inl e | inr l ↦ inr (inr l) ]

pub In-sort : (x : Route) (rs : List Route) → In x rs → In x (sort_by_length rs)
unfolding sort_by_length
In-sort x [] m = m
In-sort x (r ∷ rs) (inl e) = In-insert x r (sort_by_length rs) (inl e)
In-sort x (r ∷ rs) (inr m) = In-insert x r (sort_by_length rs) (inr (In-sort x rs m))

pub sort-In : (x : Route) (rs : List Route) → In x (sort_by_length rs) → In x rs
unfolding sort_by_length
sort-In x [] m = m
sort-In x (r ∷ rs) m = elim (insert-In x r (sort_by_length rs) m) [
  | inl e ↦ inl e
  | inr k ↦ inr (sort-In x rs k)
]

-- In an ordered table the first route that passes a test precedes every other that does.
pub find_first :
    (p : Route → Bool) (rs : List Route) (r s : Route)
    → IsOrdered rs
    → find p rs ≡ some r
    → In s rs
    → p s ≡ true
    → (s ≡ r) ⊎ Precedes r s
find_first p [] r s o e m q = elim m [ ]
find_first p (x ∷ rs) r s o e m q = elim (Bool-cases (p x)) [
  | inl h ↦ at_head (rw h at e) m
  | inr h ↦ later (λ e' k. find_first p rs r s o.1 e' k q) h (rw h at e) m
]
  where
    at_head : some x ≡ some r → (s ≡ x) ⊎ In s rs → (s ≡ r) ⊎ Precedes r s
    at_head e (inl k) = inl (cc)
    at_head e (inr k) =
        let same : x ≡ r = cc in
        inr (subst (λ y. Precedes y s) same (All-In (Precedes x) rs o.0 s k))

    later :
        (find p rs ≡ some r → In s rs → (s ≡ r) ⊎ Precedes r s)
        → p x ≡ false
        → find p rs ≡ some r
        → (s ≡ x) ⊎ In s rs
        → (s ≡ r) ⊎ Precedes r s
    later ih h e (inl k) =
        let wrong : p x ≡ true = subst (λ y. p y ≡ true) k q in absurd (ground arith)
    later ih h e (inr k) = ih e k
