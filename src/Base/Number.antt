-- ===== src/Base/Number.antt =====
-- `str::parse` for the unsigned integers: an optional plus sign, then decimal digits.
use Prim.Native.Nat.{ℕ, ◌+◌, ◌-◌, ◌*◌, ◌≤◌}
use mathlib.Core.Path.{◌≡◌}
use mathlib.Core.Bool.{Bool, ◌&&◌}
use mathlib.Core.List.{[], ◌∷◌}
use mathlib.Core.Option.{Option, none, some}
use native.Mathlib.Omega.{arith}
use oxi_gate.Base.Bools.{if◌then◌else◌, leb, ◌==◌}
use oxi_gate.Base.Str.{Text}

abbrev pub is_digit : ℕ → Bool
is_digit c = leb b'0' c && leb c b'9'

-- The value of a run of digits behind the value read so far.
unfoldable pub digits_from : ℕ → Text → Option ℕ
digits_from n [] = some n
digits_from n (c ∷ cs) =
    let rest = digits_from (n * 10 + (c - b'0')) cs in if is_digit c then rest else none

unfoldable pub digits : Text → Option ℕ
unfolding digits_from
digits [] = none
digits (c ∷ cs) = digits_from 0 (c ∷ cs)

abbrev at_most : ℕ → Option ℕ → Option ℕ
at_most limit none = none
at_most limit (some n) = if leb n limit then some n else none

-- `parse::<u8>` and `parse::<u16>` for the limits 255 and 65535.
unfoldable pub parse_uint : ℕ → Text → Option ℕ
unfolding digits
parse_uint limit [] = none
parse_uint limit (c ∷ cs) = at_most limit (if c == b'+' then digits cs else digits (c ∷ cs))

pub parse_uint-le : (limit : ℕ) (s : Text) (n : ℕ) → parse_uint limit s ≡ some n → n ≤ limit
unfolding parse_uint
parse_uint-le limit [] n e = cc
parse_uint-le limit (c ∷ cs) n e = bound (if c == b'+' then digits cs else digits (c ∷ cs)) e
  where
    bound : (o : Option ℕ) → at_most limit o ≡ some n → n ≤ limit
    bound none q = cc
    bound (some k) q = ground arith
