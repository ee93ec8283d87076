-- ===== src/Lb/Load.antt =====
-- The algorithms that look at the load: least connections and power of two choices.
use oxi_gate.Base.{
  ℕ, suc, ◌+◌, ◌%◌, ◌≤◌, ◌<◌, ◌≡◌, ◌≢◌, refl, ap, sym, ◌∙◌, ◌⊎◌, inl, inr, Text, Bool, true, false,
  Bool-cases, ltb, leb, ◌==◌, if◌then◌else◌, some, List, [], ◌∷◌, length, get_elem?, get_elem?-lt,
  get_elem?-In, All, All-In, subst, is_empty, arith,
}
use oxi_gate.Config.{Upstream, least_connections, power_of_two_choices}
use oxi_gate.Lb.{
  UpstreamRuntime, LoadBalancer, Handle, usize_mod, healthy, min_by_connections, choose,
  select_excluding, less_loaded, on_upstream, from_upstreams,
}
use oxi_gate.Lb.Filter.{
  IsCandidate, In-healthy_iff, Ascending, healthy-Ascending, Ascending-inj, Ascending-mono,
}
use oxi_gate.Lb.Select.{select_excluding-keeps}
use oxi_gate.Lb.Rotation.{select_excluding-choose}
use oxi_gate.Lb.Weighted.{In-pos}
use native.Mathlib.Nat.{mod-lt, mod-eq_of_lt, mod-add-mod, mod_self}

abbrev load : Handle → ℕ
load h = h.runtime.active_connections

-- `r` has no more load than `g`, and less if `g` stands before it.
abbrev Beats : Handle → Handle → Type 0
Beats r g = (load r ≤ load g) × (g.index < r.index → load r < load g)

abbrev IsMin : Handle → List Handle → Handle → Type 0
IsMin best hs r = (best.index ≤ r.index) × Beats r best × All (Beats r) hs

-- One round of the scan, from what the rest of the scan gives for either outcome of the test.
IsMin-step :
    (best h : Handle) (hs : List Handle) (b : Bool)
    → best.index < h.index
    → ltb (load h) (load best) ≡ b
    → IsMin h hs (min_by_connections h hs)
    → IsMin best hs (min_by_connections best hs)
    → IsMin best (h ∷ hs) (min_by_connections (if b then h else best) hs)
IsMin-step best h hs true p e (after, own, others) _ =
    (omega arith, (ground arith, λ q. ground arith), (own, others))
IsMin-step best h hs false p e _ (after, own, others) =
    (after, own, ((ground arith, λ q. ground arith), others))

min_by_connections_lem :
    (best : Handle) (hs : List Handle)
    → Ascending (suc best.index) hs
    → IsMin best hs (min_by_connections best hs)
unfolding min_by_connections
min_by_connections_lem best [] a = (omega arith, (omega arith, λ p. absurd (omega arith)), tt)
min_by_connections_lem best (h ∷ hs) a =
    IsMin-step best h hs (ltb (load h) (load best)) a.0 refl (min_by_connections_lem h hs a.1)
      (min_by_connections_lem best hs (Ascending-mono {m = suc best.index} hs (omega arith) a.1))

choose_least :
    (lb : LoadBalancer) (hs : List Handle) (h : Handle)
    → Ascending 0 hs
    → (choose lb least_connections hs).1 ≡ some h
    → All (Beats h) hs
unfolding choose
choose_least lb [] h a e = tt
choose_least lb (g ∷ hs) h a e =
    let same : min_by_connections g hs ≡ h = cc in
    let (after, own, others) = min_by_connections_lem g hs a.1 in
    subst (λ r. All (Beats r) (g ∷ hs)) same (own, others)

-- Least connections selects an upstream with the fewest active connections among the candidates,
-- and among those the first of the list.
pub least_connections-le :
    (lb : LoadBalancer) (exclude : List Text) (h g : Handle)
    → lb.algorithm ≡ least_connections
    → (select_excluding lb exclude).1 ≡ some h
    → IsCandidate lb exclude g
    → (h.runtime.active_connections ≤ g.runtime.active_connections)
      × (g.index < h.index → h.runtime.active_connections < g.runtime.active_connections)
least_connections-le lb exclude h g alg e c =
    let m = (In-healthy_iff lb exclude g).1 c in
    let chosen =
      ap (λ r. r.1)
        (sym
          (select_excluding-choose lb exclude least_connections lb.rr_counter alg (In-pos g _ m)))
      ∙ e in
    All-In (Beats h) (healthy lb exclude)
      (choose_least lb (healthy lb exclude) h (healthy-Ascending lb exclude) chosen) g m

-- What happens to a balancer while requests are served: selections, and changes of an upstream's
-- health and connection count.
pub data Step (lb : LoadBalancer) : LoadBalancer → Type 0 where
  selects : (exclude : List Text) → Step lb (select_excluding lb exclude).0
  changes : (i : ℕ) (f : UpstreamRuntime → UpstreamRuntime) → Step lb (on_upstream i f lb)

pub data Reach (lb : LoadBalancer) : LoadBalancer → Type 0 where
  here : Reach lb lb
  next : {a b : LoadBalancer} → Reach lb a → Step a b → Reach lb b

-- The counter of power of two choices stays even and in range.
abbrev IsEven : LoadBalancer → Type 0
IsEven lb =
    (lb.algorithm ≡ power_of_two_choices) × (lb.rr_counter % 2 ≡ 0) × (lb.rr_counter < usize_mod)

abbrev HasEvenCounter : LoadBalancer → Type 0
HasEvenCounter lb = (lb.rr_counter % 2 ≡ 0) × (lb.rr_counter < usize_mod)

choose_even :
    (lb : LoadBalancer) (hs : List Handle)
    → HasEvenCounter lb
    → HasEvenCounter (choose lb power_of_two_choices hs).0
unfolding choose
choose_even lb hs v = elim (Bool-cases (length hs == 1)) [
  | inl e ↦ rw e v
  | inr e ↦ rw e (omega arith, omega arith)
]

select_even :
    (lb : LoadBalancer) (exclude : List Text)
    → IsEven lb
    → HasEvenCounter (select_excluding lb exclude).0
unfolding select_excluding
select_even lb exclude v = elim (Bool-cases (is_empty (healthy lb exclude))) [
  | inl e ↦ rw e (v.1, v.2)
  | inr e ↦ rw e (
      subst (λ alg. HasEvenCounter (choose lb alg (healthy lb exclude)).0) (sym v.0)
        (choose_even lb (healthy lb exclude) (v.1, v.2)))
]

Step-IsEven : {a b : LoadBalancer} → Step a b → IsEven a → IsEven b
Step-IsEven {a} (selects exclude) v = (
  (select_excluding-keeps a exclude).1 ∙ v.0,
  (select_even a exclude v).0,
  (select_even a exclude v).1,
)
Step-IsEven (changes i f) v = v

Reach-IsEven : {a b : LoadBalancer} → Reach a b → IsEven a → IsEven b
Reach-IsEven here v = v
Reach-IsEven (next r s) v = Step-IsEven s (Reach-IsEven r v)

built-IsEven :
    (us : List Upstream) (lb : LoadBalancer)
    → Reach (from_upstreams us power_of_two_choices) lb
    → IsEven lb
unfolding from_upstreams
built-IsEven us lb r = Reach-IsEven r (refl, refl, omega arith)

mod_suc_ne : (c n : ℕ) → 1 < n → c % n ≢ (c + 1) % n
mod_suc_ne c n h e = elim (Bool-cases (ltb (c % n + 1) n)) [
  | inl p ↦
      let same : (c % n + 1) % n ≡ c % n + 1 = mod-eq_of_lt (ground arith) in
      omega (arith, mod-add-mod c n 1)
  | inr p ↦
      let full : c % n + 1 ≡ n = ground (arith, mod-lt c {m = n} (omega arith)) in
      omega (arith, mod-add-mod c n 1, ap (λ k. k % n) full, mod_self n)
]

less_loaded_lem :
    (a b h : Handle)
    → less_loaded (some a) (some b) ≡ some h
    → ((h ≡ a) × (load a ≤ load b)) ⊎ ((h ≡ b) × (load b ≤ load a))
less_loaded_lem a b h e = elim (Bool-cases (leb (load a) (load b))) [
  | inl p ↦ inl (ground arith, ground arith)
  | inr p ↦ inr (ground arith, ground arith)
]

choose_two :
    (lb : LoadBalancer) (hs : List Handle) (a b : Handle)
    → 1 < length hs
    → get_elem? hs (lb.rr_counter % length hs) ≡ some a
    → get_elem? hs ((lb.rr_counter + 1) % usize_mod % length hs) ≡ some b
    → (choose lb power_of_two_choices hs).1 ≡ less_loaded (some a) (some b)
unfolding choose
choose_two lb hs a b many p q =
    let more : (length hs == 1) ≡ false = ground arith in rw (more, p, q)

power_of_two-le :
    (lb : LoadBalancer) (exclude : List Text) (h : Handle)
    → lb.algorithm ≡ power_of_two_choices
    → lb.rr_counter + 1 < usize_mod
    → 1 < length (healthy lb exclude)
    → (select_excluding lb exclude).1 ≡ some h
    → (g : Handle) × IsCandidate lb exclude g
      × (g.index ≢ h.index)
      × (h.runtime.active_connections ≤ g.runtime.active_connections)
power_of_two-le lb exclude h alg fits many e =
    let hs = healthy lb exclude in
    let i = lb.rr_counter % length hs in
    let j = (lb.rr_counter + 1) % usize_mod % length hs in
    let kept : (lb.rr_counter + 1) % usize_mod ≡ lb.rr_counter + 1 = mod-eq_of_lt fits in
    let (a, at_i) = get_elem?-lt hs i (mod-lt lb.rr_counter (omega arith)) in
    let (b, at_j) = get_elem?-lt hs j (mod-lt ((lb.rr_counter + 1) % usize_mod) (omega arith)) in
    let apart : i ≢ j =
      λ s. mod_suc_ne lb.rr_counter (length hs) many (s ∙ ap (λ c. c % length hs) kept) in
    let chosen =
      sym (choose_two lb hs a b many at_i at_j)
      ∙ ap (λ r. r.1)
          (sym (
            select_excluding-choose lb exclude power_of_two_choices lb.rr_counter alg
              (omega arith)))
      ∙ e in
    let fits_a = (In-healthy_iff lb exclude a).0 (get_elem?-In hs i a at_i) in
    let fits_b = (In-healthy_iff lb exclude b).0 (get_elem?-In hs j b at_j) in
    let same_place = Ascending-inj 0 hs i j a b (healthy-Ascending lb exclude) at_i at_j in
    elim (less_loaded_lem a b h chosen) [
      | inl (s, le) ↦ (
        b,
        fits_b,
        λ q. apart (same_place (ap (λ x. x.index) (sym s) ∙ sym q)),
        subst (λ x. load x ≤ load b) (sym s) le,
      )
      | inr (s, le) ↦ (
        a,
        fits_a,
        λ q. apart (same_place (q ∙ ap (λ x. x.index) s)),
        subst (λ x. load x ≤ load a) (sym s) le,
      )
    ]

-- Power of two choices: however the balancer was used since it was built, with two candidates or
-- more it looks at two different ones, and selects one whose load is no more than the other's.
pub power_of_two-lighter :
    (us : List Upstream) (lb : LoadBalancer) (exclude : List Text) (h : Handle)
    → Reach (from_upstreams us power_of_two_choices) lb
    → 1 < length (healthy lb exclude)
    → (select_excluding lb exclude).1 ≡ some h
    → (g : Handle) × IsCandidate lb exclude g
      × (g.index ≢ h.index)
      × (h.runtime.active_connections ≤ g.runtime.active_connections)
power_of_two-lighter us lb exclude h r many e =
    let (algorithm, even, below) = built-IsEven us lb r in
    power_of_two-le lb exclude h algorithm (omega arith) many e
