-- ===== src/Lb/Filter.antt =====
-- The candidates of a selection: the handles that `select_excluding` keeps.
use oxi_gate.Base.{
  ℕ, zero, suc, ◌+◌, ◌≤◌, ◌≡◌, refl, ap, sym, ◌↔◌, inl, inr, Text, str_eq, str_eq_iff, str_eq_refl,
  Bool, true, false, Bool-cases, some, List, [], ◌∷◌, get_elem?, any, filter, subst, In,
  get_elem?-In, ◌<◌, In-filter, filter-In, any_iff_true, any_of_In, arith,
}
use oxi_gate.Lb.{UpstreamRuntime, LoadBalancer, Handle, handles, is_eligible, healthy}

pub In-handles :
    (i : ℕ) (us : List UpstreamRuntime) (h : Handle)
    → In h (handles i us)
    → (k : ℕ) × (h.index ≡ i + k) × (get_elem? us k ≡ some h.runtime)
unfolding handles
In-handles i [] h m = elim m [ ]
In-handles i (u ∷ us) h (inl e) = (0, rw e (omega arith), rw e)
In-handles i (u ∷ us) h (inr m) =
    let (k, p, q) = In-handles (suc i) us h m in (suc k, omega arith, q)

pub handles-In :
    (i : ℕ) (us : List UpstreamRuntime) (k : ℕ) (u : UpstreamRuntime)
    → get_elem? us k ≡ some u
    → In (record { index = i + k; runtime = u }) (handles i us)
unfolding handles
handles-In i [] k u e = cc
handles-In i (v ∷ us) zero u e =
    let same : u ≡ v = cc in let here : i + 0 ≡ i = omega arith in rw (same, here) (inl refl)
handles-In i (v ∷ us) (suc k) u e =
    let step : i + suc k ≡ suc i + k = omega arith in
    inr (
      subst (λ j. In (record { index = j; runtime = u }) (handles (suc i) us)) (sym step)
        (handles-In (suc i) us k u e))

-- Positions rise along the list.
abbrev pub Ascending : ℕ → List Handle → Type 0
Ascending n [] = Unit {0}
Ascending n (h ∷ hs) = (n ≤ h.index) × Ascending (suc h.index) hs

pub Ascending-mono : {m n : ℕ} (hs : List Handle) → m ≤ n → Ascending n hs → Ascending m hs
Ascending-mono [] p a = tt
Ascending-mono (h ∷ hs) p a = (omega arith, a.1)

handles-Ascending : (i : ℕ) (us : List UpstreamRuntime) → Ascending i (handles i us)
unfolding handles
handles-Ascending i [] = tt
handles-Ascending i (u ∷ us) = (omega arith, handles-Ascending (suc i) us)

filter-Ascending :
    (p : Handle → Bool) (n : ℕ) (hs : List Handle) → Ascending n hs → Ascending n (filter p hs)
filter-Ascending p n [] a = tt
filter-Ascending p n (h ∷ hs) a = elim (Bool-cases (p h)) [
  | inl e ↦ rw e (a.0, filter-Ascending p (suc h.index) hs a.1)
  | inr e ↦ rw e (Ascending-mono {m = n} _ (omega arith) (filter-Ascending p (suc h.index) hs a.1))
]

pub healthy-Ascending : (lb : LoadBalancer) (exclude : List Text) → Ascending 0 (healthy lb exclude)
unfolding healthy
healthy-Ascending lb exclude = filter-Ascending _ 0 _ (handles-Ascending 0 lb.upstreams)

-- Every position in the list is at least the bound.
pub In-Ascending : (n : ℕ) (hs : List Handle) (h : Handle) → Ascending n hs → In h hs → n ≤ h.index
In-Ascending n [] h a m = elim m [ ]
In-Ascending n (g ∷ hs) h a (inl e) = rw e a.0
In-Ascending n (g ∷ hs) h a (inr m) = omega (arith, a.0, In-Ascending (suc g.index) hs h a.1 m)

absurd_order : (h a b : Handle) → h ≡ a → h.index < b.index → a.index ≡ b.index → ⊥
absurd_order h a b e m q = let same : h.index ≡ a.index = ap (λ x. x.index) e in omega arith

-- Two places that hold the same position are one place.
pub Ascending-inj :
    (n : ℕ) (hs : List Handle) (i j : ℕ) (a b : Handle)
    → Ascending n hs
    → get_elem? hs i ≡ some a
    → get_elem? hs j ≡ some b
    → a.index ≡ b.index
    → i ≡ j
Ascending-inj n [] i j a b s p q e = cc
Ascending-inj n (h ∷ hs) zero zero a b s p q e = refl
Ascending-inj n (h ∷ hs) zero (suc j) a b s p q e =
    let m = In-Ascending (suc h.index) hs b s.1 (get_elem?-In hs j b q) in
    absurd (absurd_order h a b (cc) m e)
Ascending-inj n (h ∷ hs) (suc i) zero a b s p q e =
    let m = In-Ascending (suc h.index) hs a s.1 (get_elem?-In hs i a p) in
    absurd (absurd_order h b a (cc) m (sym e))
Ascending-inj n (h ∷ hs) (suc i) (suc j) a b s p q e =
    ap suc (Ascending-inj (suc h.index) hs i j a b s.1 p q e)

-- What a selection may return: a handle of the balancer, healthy, with an address that is not
-- excluded.
pub record IsCandidate (lb : LoadBalancer) (exclude : List Text) (h : Handle) : Type 0 where
  pub placed : get_elem? lb.upstreams h.index ≡ some h.runtime
  pub up : h.runtime.healthy ≡ true
  pub fresh : ¬ In h.runtime.address exclude

not_excluded :
    (a : Text) (exclude : List Text) → (any (λ e. str_eq e a) exclude ≡ false) ↔ (¬ In a exclude)
not_excluded a exclude = (to, from)
  where
    to : any (λ e. str_eq e a) exclude ≡ false → ¬ In a exclude
    to q m =
        let hit : any (λ e. str_eq e a) exclude ≡ true =
          any_of_In (λ e. str_eq e a) a exclude m (str_eq_refl a) in
        cc

    from : (¬ In a exclude) → any (λ e. str_eq e a) exclude ≡ false
    from h = elim (Bool-cases (any (λ e. str_eq e a) exclude)) [
      | inr q ↦ q
      | inl q ↦
          let (e, m, s) = any_iff_true (λ e. str_eq e a) exclude q in
          absurd (h (rw (sym ((str_eq_iff e a).0 s)) m))
    ]

-- The list of candidates holds exactly what may be returned.
pub In-healthy_iff :
    (lb : LoadBalancer) (exclude : List Text) (h : Handle)
    → In h (healthy lb exclude) ↔ IsCandidate lb exclude h
unfolding healthy
In-healthy_iff lb exclude h = (to, from)
  where
    to : In h (filter (is_eligible exclude) (handles 0 lb.upstreams)) → IsCandidate lb exclude h
    to m =
        let (listed, ok) = In-filter (is_eligible exclude) h (handles 0 lb.upstreams) m in
        let (k, p, q) = In-handles 0 lb.upstreams h listed in
        let same : h.index ≡ k = omega arith in
        record {
          placed = rw same q;
          up = ground arith;
          fresh = (not_excluded h.runtime.address exclude).0 (ground arith);
        }

    from : IsCandidate lb exclude h → In h (filter (is_eligible exclude) (handles 0 lb.upstreams))
    from c =
        let clear = (not_excluded h.runtime.address exclude).1 c.fresh in
        let same : 0 + h.index ≡ h.index = omega arith in
        filter-In (is_eligible exclude) h (handles 0 lb.upstreams)
          (rw same at (handles-In 0 lb.upstreams h.index h.runtime c.placed)) (rw (c.up, clear))
