-- ===== src/LoadShed/Bound.antt =====
-- What the counter says, and the bound on the calls that run.
use oxi_gate.Base.{ℕ, ◌+◌, ◌≤◌, ◌<◌, ◌≡◌, refl, ◌↔◌, false, Bool-cases, inl, inr, arith}
use oxi_gate.LoadShed.{
  usize_mod, State, new, is_refused, call, refuse, finish, drop_future, Step, calls, refuses,
  finishes, drops, Reach, start, after,
}

-- The counter counts the calls at every place, within `n`, and the limit holds.
abbrev IsCounted : ℕ → ℕ → State → Type 0
IsCounted limit n s =
    (s.max_concurrency ≡ limit)
    × (s.in_flight ≡ s.refused + s.running + s.dropped)
    × (s.running + s.dropped ≤ limit)
    × (s.in_flight ≤ n)

Step-IsCounted :
    (limit n : ℕ) {s t : State}
    → n + 1 < usize_mod
    → Step s t
    → IsCounted limit n s
    → IsCounted limit (n + 1) t
unfolding call refuse finish drop_future
Step-IsCounted limit n {s} h calls (a, b, c, d) = elim (Bool-cases (is_refused s)) [
  | inl full ↦ (ground arith, ground arith, ground arith, ground arith)
  | inr room ↦ (ground arith, ground arith, ground arith, ground arith)
]
Step-IsCounted limit n h (refuses p) (a, b, c, d) = (a, omega arith, c, omega arith)
Step-IsCounted limit n h (finishes p) (a, b, c, d) = (a, omega arith, omega arith, omega arith)
Step-IsCounted limit n h (drops p) (a, b, c, d) = (a, omega arith, omega arith, omega arith)

Reach-IsCounted :
    (limit : ℕ) {n : ℕ} {s t : State}
    → n < usize_mod
    → Reach n s t
    → IsCounted limit 0 s
    → IsCounted limit n t
Reach-IsCounted limit h start v = v
Reach-IsCounted limit h (after {n} r step) v =
    Step-IsCounted limit n h step (Reach-IsCounted limit (omega arith) r v)

-- However the calls interleave, over fewer than 2 ^ 64 steps: no more calls run at once than the
-- limit says; and the next call is let through exactly when the calls that run, those being refused
-- and those whose future was dropped are together fewer than the limit.
pub running-le :
    (limit n : ℕ) (s : State)
    → n < usize_mod
    → Reach n (new limit) s
    → (s.running ≤ limit) × ((is_refused s ≡ false) ↔ (s.running + s.refused + s.dropped < limit))
unfolding new
running-le limit n s h r =
    let (a, b, c, d) = Reach-IsCounted limit h r (refl, omega arith, omega arith, omega arith) in
    (omega arith, (λ e. ground arith, λ e. ground arith))
