-- ===== src/Base/Bits.antt =====
-- The mask of the high bits: `x & (2 ^ w - 2 ^ k)` clears the low k bits.
use Prim.Native.Nat.{
  ℕ, zero, suc, ◌+◌, ◌-◌, ◌*◌, ◌/◌, ◌%◌, ◌^◌, ◌≤◌, ◌<◌, min, bit_and, digits, bit_and-bitwise,
}
use mathlib.Core.Logic.{◌↔◌}
use mathlib.Core.Path.{◌≡◌, sym, ap, ap₂, ◌∙◌}
use native.Mathlib.Nat.{pow-suc, one-le-pow, div-div-eq-div-mul, div-one, mul-div_left}
use native.Mathlib.Omega.{arith}

-- With fuel for every digit of the first number, the bitwise loop computes `bit_and`.
digits-bit_and :
    (bound fuel a b : ℕ) → a ≤ bound → a ≤ fuel → digits (λ x. zero) min fuel a b ≡ bit_and a b
digits-bit_and bound zero zero b p q = sym (bit_and-bitwise zero b)
digits-bit_and bound (suc fuel) zero b p q = sym (bit_and-bitwise zero b)
digits-bit_and bound zero (suc a) b p q = absurd (omega arith)
digits-bit_and zero (suc fuel) (suc a) b p q = absurd (omega arith)
digits-bit_and (suc bound) (suc fuel) (suc a) b p q =
    let half = digits-bit_and bound fuel (suc a / 2) (b / 2) (omega arith) (omega arith) in
    let own = digits-bit_and bound a (suc a / 2) (b / 2) (omega arith) (omega arith) in
    omega (arith, half, own, bit_and-bitwise (suc a) b)

-- The law for the lowest digit.
pub bit_and-halves : (a b : ℕ) → bit_and a b ≡ min (a % 2) (b % 2) + 2 * bit_and (a / 2) (b / 2)
bit_and-halves zero b = omega (arith, bit_and-bitwise zero b, bit_and-bitwise zero (b / 2))
bit_and-halves (suc a) b =
    let own = digits-bit_and a a (suc a / 2) (b / 2) (omega arith) (omega arith) in
    omega (arith, own, bit_and-bitwise (suc a) b)

pow-pos : (k : ℕ) → 1 ≤ 2 ^ k
pow-pos k = one-le-pow k 2 (omega arith)

pow_two-suc : (k : ℕ) → 2 ^ suc k ≡ 2 ^ k * 2
pow_two-suc k = pow-suc 2 k

bit_and_ones : (w a : ℕ) → a < 2 ^ w → bit_and a (2 ^ w - 1) ≡ a
bit_and_ones zero a h = let e : a ≡ 0 = omega arith in ap (λ x. bit_and x 0) e ∙ sym e
bit_and_ones (suc w) a h =
    let half : (2 ^ suc w - 1) / 2 ≡ 2 ^ w - 1 = omega (arith, pow_two-suc w, pow-pos w) in
    omega (
      arith,
      bit_and-halves a (2 ^ suc w - 1),
      ap (bit_and (a / 2)) half,
      bit_and_ones w (a / 2) (omega (arith, pow_two-suc w)),
      pow_two-suc w,
      pow-pos w,
    )

pub bit_and_high : (w k a : ℕ) → k ≤ w → a < 2 ^ w → bit_and a (2 ^ w - 2 ^ k) ≡ a / 2 ^ k * 2 ^ k
bit_and_high w zero a p h = omega (arith, bit_and_ones w a h, div-one a)
bit_and_high zero (suc k) a p h = absurd (omega arith)
bit_and_high (suc w) (suc k) a p h =
    let half : (2 ^ suc w - 2 ^ suc k) / 2 ≡ 2 ^ w - 2 ^ k =
      omega (arith, pow_two-suc w, pow_two-suc k) in
    let quotient : a / 2 ^ suc k ≡ a / 2 / 2 ^ k =
      ap (λ m. a / m) (omega (arith, pow_two-suc k)) ∙ sym (div-div-eq-div-mul a 2 (2 ^ k)) in
    let product : a / 2 ^ suc k * 2 ^ suc k ≡ a / 2 / 2 ^ k * (2 ^ k * 2) =
      ap₂ ◌*◌ quotient (pow_two-suc k) in
    let low : (2 ^ suc w - 2 ^ suc k) % 2 ≡ 0 = omega (arith, pow_two-suc w, pow_two-suc k) in
    let rest =
      ap (bit_and (a / 2)) half
      ∙ bit_and_high w k (a / 2) (omega arith) (omega (arith, pow_two-suc w)) in
    omega (arith, bit_and-halves a (2 ^ suc w - 2 ^ suc k), rest, low, product)

pub pow_two-pos : (k : ℕ) → 0 < 2 ^ k
pow_two-pos k = omega (arith, pow-pos k)

-- Two numbers agree under the mask exactly when their high bits agree.
pub bit_and_high-eq_iff :
    (w k a b : ℕ)
    → k ≤ w
    → a < 2 ^ w
    → b < 2 ^ w
    → (bit_and a (2 ^ w - 2 ^ k) ≡ bit_and b (2 ^ w - 2 ^ k)) ↔ (a / 2 ^ k ≡ b / 2 ^ k)
bit_and_high-eq_iff w k a b p ha hb = (
  λ e.
      sym (mul-div_left (a / 2 ^ k) (pow_two-pos k))
      ∙ ap (λ m. m / 2 ^ k) (sym (bit_and_high w k a p ha) ∙ e ∙ bit_and_high w k b p hb)
      ∙ mul-div_left (b / 2 ^ k) (pow_two-pos k),
  λ e. bit_and_high w k a p ha ∙ ap (λ q. q * 2 ^ k) e ∙ sym (bit_and_high w k b p hb),
)
