-- ===== src/Base/Str.antt =====
-- Rust's `str` and `String` as lists of bytes, with the methods of `str` that the program calls.
use Prim.Native.Char.{code}
use Prim.Native.Nat.{ℕ, ◌+◌}
use Prim.Native.String.{String}
use mathlib.Core.Path.{◌≡◌, refl, ap₂}
use mathlib.Core.Logic.{◌↔◌}
use mathlib.Core.Bool.{Bool, true, false, ◌&&◌, ◌||◌}
use mathlib.Core.List.{List, [], ◌∷◌, ◌++◌}
use mathlib.Core.Option.{Option, none, some}
use native.Mathlib.Omega.{arith}
use oxi_gate.Base.Bools.{if◌then◌else◌, leb, ◌==◌}

abbrev pub Text : Type 0
Text = List ℕ

-- The bytes of an ASCII literal.
abbrev pub codes : String → Text
codes String.[] = []
codes (String.◌∷◌ c s) = code c ∷ codes s

unfoldable pub str_eq : Text → Text → Bool
str_eq [] [] = true
str_eq [] (y ∷ ys) = false
str_eq (x ∷ xs) [] = false
str_eq (x ∷ xs) (y ∷ ys) = (x == y) && str_eq xs ys

pub str_eq_iff : (s t : Text) → (str_eq s t ≡ true) ↔ (s ≡ t)
unfolding str_eq
str_eq_iff [] [] = (λ _. refl, λ _. refl)
str_eq_iff [] (y ∷ ys) = (λ h. cc, λ h. cc)
str_eq_iff (x ∷ xs) [] = (λ h. cc, λ h. cc)
str_eq_iff (x ∷ xs) (y ∷ ys) = ground (arith, str_eq_iff xs ys)

pub str_eq_refl : (s : Text) → str_eq s s ≡ true
str_eq_refl s = (str_eq_iff s s).1 refl

-- `str::starts_with`, the pattern last.
unfoldable pub starts_with : Text → Text → Bool
starts_with s [] = true
starts_with [] (y ∷ ys) = false
starts_with (x ∷ xs) (y ∷ ys) = (x == y) && starts_with xs ys

pub starts_with-append : (p r : Text) → starts_with (p ++ r) p ≡ true
unfolding starts_with
starts_with-append [] r = refl
starts_with-append (x ∷ p) r = ground (arith, starts_with-append p r)

pub starts_with-split : (s p : Text) → starts_with s p ≡ true → (r : Text) × (s ≡ p ++ r)
unfolding starts_with
starts_with-split s [] h = (s, refl)
starts_with-split [] (y ∷ p) h = cc
starts_with-split (x ∷ s) (y ∷ p) h =
    let (r, e) = starts_with-split s p (ground arith) in
    let q : x ≡ y = ground arith in (r, ap₂ ◌∷◌ q e)

-- `str::strip_prefix`
unfoldable pub strip_prefix : Text → Text → Option Text
strip_prefix s [] = some s
strip_prefix [] (y ∷ ys) = none
strip_prefix (x ∷ xs) (y ∷ ys) = if x == y then strip_prefix xs ys else none

pub strip_prefix-append : (p r : Text) → strip_prefix (p ++ r) p ≡ some r
unfolding strip_prefix
strip_prefix-append [] r = refl
strip_prefix-append (x ∷ p) r = ground (arith, strip_prefix-append p r)

-- `str::trim_end_matches` of one byte: a byte goes if all that follows goes.
unfoldable pub trim_end_matches : Text → ℕ → Text
trim_end_matches [] c = []
trim_end_matches (x ∷ xs) c = keep (trim_end_matches xs c)
  where
    keep : Text → Text
    keep [] = if x == c then [] else x ∷ []
    keep (y ∷ ys) = x ∷ y ∷ ys

-- `str::split_once` at one byte.
unfoldable pub split_once : Text → ℕ → Option (Text × Text)
split_once [] c = none
split_once (x ∷ xs) c = if x == c then some ([], xs) else after (split_once xs c)
  where
    after : Option (Text × Text) → Option (Text × Text)
    after none = none
    after (some (a, b)) = some (x ∷ a, b)

-- `str::split` at one byte: always at least one part.
unfoldable pub split : Text → ℕ → List Text
split [] c = [] ∷ []
split (x ∷ xs) c = if x == c then [] ∷ split xs c else extend (split xs c)
  where
    extend : List Text → List Text
    extend [] = (x ∷ []) ∷ []
    extend (p ∷ ps) = (x ∷ p) ∷ ps

-- ASCII whitespace, the only whitespace in the texts that the program trims.
abbrev pub is_space : ℕ → Bool
is_space c = c == 32 || c == 9 || c == 10 || c == 11 || c == 12 || c == 13

unfoldable pub trim_start : Text → Text
trim_start [] = []
trim_start (x ∷ xs) = if is_space x then trim_start xs else x ∷ xs

unfoldable pub trim_end : Text → Text
trim_end [] = []
trim_end (x ∷ xs) = keep (trim_end xs)
  where
    keep : Text → Text
    keep [] = if is_space x then [] else x ∷ []
    keep (y ∷ ys) = x ∷ y ∷ ys

unfoldable pub trim : Text → Text
unfolding trim_start trim_end
trim s = trim_end (trim_start s)

unfoldable pub to_ascii_lowercase : Text → Text
to_ascii_lowercase [] = []
to_ascii_lowercase (c ∷ cs) =
    (if leb b'A' c && leb c b'Z' then c + 32 else c) ∷ to_ascii_lowercase cs

-- `str::contains`
unfoldable pub contains_str : Text → Text → Bool
unfolding starts_with
contains_str [] p = starts_with [] p
contains_str (c ∷ cs) p = starts_with (c ∷ cs) p || contains_str cs p

-- `str::find` of a text: what stands behind its first occurrence.
unfoldable pub find_str : Text → Text → Option Text
unfolding strip_prefix
find_str [] p = strip_prefix [] p
find_str (c ∷ cs) p = or_later (strip_prefix (c ∷ cs) p) (find_str cs p)
  where
    or_later : Option Text → Option Text → Option Text
    or_later (some r) later = some r
    or_later none later = later

-- `str::rsplit_once` at one byte.
unfoldable pub rsplit_once : Text → ℕ → Option (Text × Text)
rsplit_once [] c = none
rsplit_once (x ∷ xs) c = earlier (rsplit_once xs c)
  where
    earlier : Option (Text × Text) → Option (Text × Text)
    earlier (some (a, b)) = some (x ∷ a, b)
    earlier none = if x == c then some ([], xs) else none

-- `str::replace` of one byte by a text.
unfoldable pub replace : Text → ℕ → Text → Text
replace [] c p = []
replace (x ∷ xs) c p = if x == c then p ++ replace xs c p else x ∷ replace xs c p

-- A carriage return at the end of a line belongs to the line's end.
unfoldable pub strip_return : Text → Text
strip_return [] = []
strip_return (x ∷ []) = if x == 13 then [] else x ∷ []
strip_return (x ∷ y ∷ r) = x ∷ strip_return (y ∷ r)

-- `str::lines`: the last part is a line only if it is not empty.
unfoldable pub line_list : List Text → List Text
unfolding strip_return
line_list [] = []
line_list ([] ∷ []) = []
line_list ((c ∷ cs) ∷ []) = (c ∷ cs) ∷ []
line_list (p ∷ q ∷ ps) = strip_return p ∷ line_list (q ∷ ps)

unfoldable pub lines : Text → List Text
unfolding split line_list
lines s = line_list (split s 10)
