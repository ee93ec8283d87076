-- ===== src/Lb/Rotation.antt =====
-- The rotation of the round-robin algorithms: `counter % len` walks through the whole list.
use oxi_gate.Base.{
  ℕ, zero, suc, ◌+◌, ◌-◌, ◌*◌, ◌/◌, ◌%◌, ◌≤◌, ◌<◌, ◌≡◌, refl, ap, ap₂, sym, ◌∙◌, Text, false,
  Option, some, List, [], ◌∷◌, ◌++◌, map, length, is_empty, get_elem?, take, drop, arith,
}
use oxi_gate.Config.{LoadBalancingAlgorithm, round_robin}
use oxi_gate.Lb.{LoadBalancer, Handle, usize_mod, healthy, choose, select_excluding}
use mathlib.Core.List.{map-append}
use native.Mathlib.Nat.{mod-lt, div-add-mod, add-mul-mod_self_right, mod-eq_of_lt}

-- n selections in a row, with nothing else happening between them.
unfoldable pub selections : ℕ → LoadBalancer → List Text → List (Option Handle)
selections zero lb exclude = []
selections (suc n) lb exclude =
    let (lb', h) = select_excluding lb exclude in h ∷ selections n lb' exclude

mod_stretch : (i q m : ℕ) → i < m → (i + q * m) % m ≡ i
mod_stretch i q m h = add-mul-mod_self_right i q m ∙ mod-eq_of_lt h

module _ {A : Type 0} where
  -- The elements at the places c, c + 1, … modulo the length.
  pub turn : List A → ℕ → ℕ → List (Option A)
  turn xs c zero = []
  turn xs c (suc n) = get_elem? xs (c % length xs) ∷ turn xs (suc c) n

  turn-append : (xs : List A) (c a b : ℕ) → turn xs c (a + b) ≡ turn xs c a ++ turn xs (c + a) b
  unfolding turn
  turn-append xs c zero b =
      let p : 0 + b ≡ b = omega arith in let q : c + 0 ≡ c = omega arith in rw (p, q)
  turn-append xs c (suc a) b =
      let p : suc a + b ≡ suc (a + b) = omega arith in
      let q : c + suc a ≡ suc c + a = omega arith in
      rw (p, q) (ap (◌∷◌ (get_elem? xs (c % length xs))) (turn-append xs (suc c) a b))

  drop-get :
      (xs : List A) (i : ℕ)
      → i < length xs
      → (x : A) × (get_elem? xs i ≡ some x) × (drop i xs ≡ x ∷ drop (suc i) xs)
  drop-get [] i h = absurd (omega arith)
  drop-get (x ∷ xs) zero h = (x, refl, refl)
  drop-get (x ∷ xs) (suc i) h = drop-get xs i (omega arith)

  -- A stretch of the list read without passing its end.
  turn_stretch :
      (xs : List A) (q i n : ℕ)
      → i + n ≤ length xs
      → turn xs (i + q * length xs) n ≡ map some (take n (drop i xs))
  unfolding turn
  turn_stretch xs q i zero h = refl
  turn_stretch xs q i (suc n) h =
      let (x, e, d) = drop-get xs i (omega arith) in
      let moved : suc (i + q * length xs) ≡ suc i + q * length xs = omega arith in
      let read = ap (get_elem? xs) (mod_stretch i q (length xs) (omega arith)) ∙ e in
      let rest = ap (λ c. turn xs c n) moved ∙ turn_stretch xs q (suc i) n (omega arith) in
      ap₂ ◌∷◌ read rest ∙ sym (ap (λ l. map some (take (suc n) l)) d)

  take_all : (xs : List A) (n : ℕ) → length xs ≤ n → take n xs ≡ xs
  take_all [] zero h = refl
  take_all [] (suc n) h = refl
  take_all (x ∷ xs) zero h = absurd (omega arith)
  take_all (x ∷ xs) (suc n) h = ap (◌∷◌ x) (take_all xs n (omega arith))

  length-drop_eq : (xs : List A) (i : ℕ) → length (drop i xs) ≡ length xs - i
  length-drop_eq xs zero = omega arith
  length-drop_eq [] (suc i) = omega arith
  length-drop_eq (x ∷ xs) (suc i) = omega (arith, length-drop_eq xs i)

  -- One whole turn: the list, started at c modulo its length.
  pub turn_whole :
      (xs : List A) (c : ℕ)
      → 0 < length xs
      → turn xs c (length xs) ≡ map some (drop (c % length xs) xs ++ take (c % length xs) xs)
  turn_whole xs c h =
      let n = length xs in
      let i = c % n in
      let within : i < n = mod-lt c h in
      let start : i + c / n * n ≡ c = omega (arith, div-add-mod c n) in
      let again : i + c / n * n + (n - i) ≡ 0 + suc (c / n) * n = grind arith in
      let parts : n ≡ n - i + i = omega arith in
      let first =
        turn_stretch xs (c / n) i (n - i) (omega arith)
        ∙ ap (map some) (take_all (drop i xs) (n - i) (omega (arith, length-drop_eq xs i))) in
      let second = turn_stretch xs (suc (c / n)) 0 i (omega arith) in
      ap₂ (turn xs) (sym start) parts
      ∙ turn-append xs (i + c / n * n) (n - i) i
      ∙ ap₂ ◌++◌ first (ap (λ k. turn xs k i) again ∙ second)
      ∙ sym (map-append some (drop i xs) (take i xs))

-- Selections that read `xs` at the counter walk through `xs` until the counter would wrap.
pub selections-turn :
    (lb : LoadBalancer) (exclude : List Text) (xs : List Handle)
    → ((c : ℕ)
        → select_excluding (record lb { rr_counter = c }) exclude
          ≡ (record lb { rr_counter = (c + 1) % usize_mod }, get_elem? xs (c % length xs)))
    → (n c : ℕ) → c + n < usize_mod
    → selections n (record lb { rr_counter = c }) exclude ≡ turn xs c n
unfolding selections turn
selections-turn lb exclude xs step zero c h = refl
selections-turn lb exclude xs step (suc n) c h =
    let kept : (c + 1) % usize_mod ≡ suc c = mod-eq_of_lt {n = c + 1} (omega arith) ∙ omega arith in
    ap₂ ◌∷◌ (ap (λ r. r.1) (step c)) (
      ap (λ r. selections n r.0 exclude) (step c)
      ∙ ap (λ k. selections n (record lb { rr_counter = k }) exclude) kept
      ∙ selections-turn lb exclude xs step n (suc c) (omega arith))

pub is_empty_pos : {A : Type 0} (xs : List A) → 0 < length xs → is_empty xs ≡ false
is_empty_pos [] h = absurd (omega arith)
is_empty_pos (x ∷ xs) h = refl

-- With candidates at hand a selection is the choice of the algorithm among them, whatever the
-- counter is set to before.
pub select_excluding-choose :
    (lb : LoadBalancer) (exclude : List Text) (alg : LoadBalancingAlgorithm) (c : ℕ)
    → lb.algorithm ≡ alg
    → 0 < length (healthy lb exclude)
    → select_excluding (record lb { rr_counter = c }) exclude
      ≡ choose (record lb { rr_counter = c }) alg (healthy lb exclude)
unfolding select_excluding healthy
select_excluding-choose lb exclude alg c e some_up =
    rw (is_empty_pos (healthy lb exclude) some_up, ← e) refl

-- Round robin is fair: as many selections as there are candidates visit each candidate once, in the
-- list's order from the counter's place on, as long as the counter does not wrap meanwhile.
pub round_robin_turn :
    (lb : LoadBalancer) (exclude : List Text)
    → lb.algorithm ≡ round_robin
    → 0 < length (healthy lb exclude)
    → lb.rr_counter + length (healthy lb exclude) < usize_mod
    → let hs = healthy lb exclude in
      let c = lb.rr_counter % length hs in
      selections (length hs) lb exclude ≡ map some (drop c hs ++ take c hs)
unfolding choose
round_robin_turn lb exclude alg some_up fits =
    selections-turn lb exclude (healthy lb exclude)
      (λ c. select_excluding-choose lb exclude round_robin c alg some_up)
      (length (healthy lb exclude)) lb.rr_counter fits
    ∙ turn_whole (healthy lb exclude) lb.rr_counter some_up
