-- ===== src/Lb/Weighted.antt =====
-- Weighted round robin: one turn of the rotation gives each candidate its weight.
use oxi_gate.Base.{
  ℕ, zero, suc, ◌+◌, ◌%◌, ◌<◌, ◌≡◌, refl, ap, ◌∙◌, inl, inr, max, Text, ◌==◌, if◌then◌else◌, Option,
  none, some, List, [], ◌∷◌, ◌++◌, map, length, get_elem?, take, drop, replicate, In,
  take-append-drop, arith,
}
use oxi_gate.Config.{weighted_round_robin}
use oxi_gate.Lb.{LoadBalancer, Handle, usize_mod, healthy, expand, choose, bump}
use oxi_gate.Lb.Filter.{IsCandidate, In-healthy_iff, Ascending, healthy-Ascending, In-Ascending}
use oxi_gate.Lb.Select.{length-expand-pos}
use oxi_gate.Lb.Rotation.{
  selections, turn_whole, selections-turn, select_excluding-choose, is_empty_pos,
}

-- How many of the results are the upstream at a position.
abbrev pub hits : ℕ → List Handle → ℕ
hits i [] = 0
hits i (h ∷ hs) = (if h.index == i then 1 else 0) + hits i hs

abbrev pub somes : List (Option Handle) → List Handle
somes [] = []
somes (none ∷ rs) = somes rs
somes (some h ∷ rs) = h ∷ somes rs

somes-map : (hs : List Handle) → somes (map some hs) ≡ hs
somes-map [] = refl
somes-map (h ∷ hs) = ap (◌∷◌ h) (somes-map hs)

hits-append : (i : ℕ) (xs ys : List Handle) → hits i (xs ++ ys) ≡ hits i xs + hits i ys
hits-append i [] ys = omega arith
hits-append i (x ∷ xs) ys = omega (arith, hits-append i xs ys)

hits-replicate : (i n : ℕ) (h : Handle) → hits i (replicate n h) ≡ (if h.index == i then n else 0)
hits-replicate i zero h = ground arith
hits-replicate i (suc n) h = ground (arith, hits-replicate i n h)

-- A position below the bound does not occur.
hits-absent : (n i : ℕ) (hs : List Handle) → Ascending n hs → i < n → hits i (expand hs) ≡ 0
unfolding expand
hits-absent n i [] a h = refl
hits-absent n i (g ∷ hs) a h = ground (
  arith,
  hits-append i (replicate (max g.runtime.weight 1) g) (expand hs),
  hits-replicate i (max g.runtime.weight 1) g,
  hits-absent (suc g.index) i hs a.1 (omega (arith, a.0)),
)

hits-expand :
    (n : ℕ) (hs : List Handle) (h : Handle)
    → Ascending n hs
    → In h hs
    → hits h.index (expand hs) ≡ max h.runtime.weight 1
unfolding expand
hits-expand n [] h a m = elim m [ ]
hits-expand n (g ∷ hs) h a (inl e) = rw e (
    ground (
      arith,
      hits-append g.index (replicate (max g.runtime.weight 1) g) (expand hs),
      hits-replicate g.index (max g.runtime.weight 1) g,
      hits-absent (suc g.index) g.index hs a.1 (omega arith),
    ))
hits-expand n (g ∷ hs) h a (inr m) = ground (
  arith,
  hits-append h.index (replicate (max g.runtime.weight 1) g) (expand hs),
  hits-replicate h.index (max g.runtime.weight 1) g,
  hits-expand (suc g.index) hs h a.1 m,
  In-Ascending (suc g.index) hs h a.1 m,
)

hits-rotate : (i c : ℕ) (xs : List Handle) → hits i (drop c xs ++ take c xs) ≡ hits i xs
hits-rotate i c xs = omega (
  arith,
  hits-append i (drop c xs) (take c xs),
  hits-append i (take c xs) (drop c xs),
  ap (hits i) (take-append-drop c xs),
)

pub In-pos : (h : Handle) (hs : List Handle) → In h hs → 0 < length hs
In-pos h [] m = elim m [ ]
In-pos h (g ∷ hs) m = omega arith

expand-pos : (hs : List Handle) → 0 < length hs → 0 < length (expand hs)
expand-pos [] p = absurd (omega arith)
expand-pos (h ∷ hs) p = length-expand-pos h hs

choose_weighted :
    (lb : LoadBalancer) (hs : List Handle)
    → 0 < length (expand hs)
    → choose lb weighted_round_robin hs
      ≡ (bump 1 lb, get_elem? (expand hs) (lb.rr_counter % length (expand hs)))
unfolding choose
choose_weighted lb hs p = rw (is_empty_pos (expand hs) p)

-- Weighted round robin keeps the weights: in as many selections as the candidates' weights add up
-- to, each candidate is selected as often as its weight says, a weight of 0 counting as 1, as long
-- as the counter does not wrap meanwhile.
pub weighted_turn :
    (lb : LoadBalancer) (exclude : List Text) (h : Handle)
    → lb.algorithm ≡ weighted_round_robin
    → IsCandidate lb exclude h
    → lb.rr_counter + length (expand (healthy lb exclude)) < usize_mod
    → hits h.index (somes (selections (length (expand (healthy lb exclude))) lb exclude))
      ≡ max h.runtime.weight 1
weighted_turn lb exclude h alg c fits =
    ap (λ rs. hits h.index (somes rs)) turned
    ∙ ap (hits h.index) (somes-map (drop place xs ++ take place xs))
    ∙ hits-rotate h.index place xs
    ∙ hits-expand 0 (healthy lb exclude) h (healthy-Ascending lb exclude) listed
  where
    xs : List Handle
    xs = expand (healthy lb exclude)

    place : ℕ
    place = lb.rr_counter % length xs

    listed : In h (healthy lb exclude)
    listed = (In-healthy_iff lb exclude h).1 c

    some_up : 0 < length (healthy lb exclude)
    some_up = In-pos h (healthy lb exclude) listed

    turned : selections (length xs) lb exclude ≡ map some (drop place xs ++ take place xs)
    turned =
        selections-turn lb exclude xs
          (λ k.
            select_excluding-choose lb exclude weighted_round_robin k alg some_up
            ∙ choose_weighted (record lb { rr_counter = k }) (healthy lb exclude)
                (expand-pos (healthy lb exclude) some_up))
          (length xs) lb.rr_counter fits
        ∙ turn_whole xs lb.rr_counter (expand-pos (healthy lb exclude) some_up)
