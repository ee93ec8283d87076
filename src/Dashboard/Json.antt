-- ===== src/Dashboard/Json.antt =====
-- The helpers of src/dashboard.rs that write JSON. `decimal` prints a number.
use oxi_gate.Base.{ℕ, Text, replace, List, [], ◌∷◌, ◌++◌}

unfoldable pub json_str : Text → Text
unfolding replace
json_str s =
    b'"' ∷ (replace (replace s b'\\' (b'\\' ∷ b'\\' ∷ [])) b'"' (b'\\' ∷ b'"' ∷ []) ++ b'"' ∷ [])

-- The elements with a comma before each but the first.
unfoldable pub separated : List Text → Text
separated [] = []
separated (t ∷ []) = t
separated (t ∷ u ∷ ts) = t ++ (b',' ∷ separated (u ∷ ts))

module _ (decimal : ℕ → Text) where
  unfoldable pub members : List (Text × ℕ) → List Text
  unfolding json_str
  members [] = []
  members ((k, v) ∷ m) = (json_str k ++ (b':' ∷ decimal v)) ∷ members m

  unfoldable pub map_to_json_obj : List (Text × ℕ) → Text
  unfolding members separated
  map_to_json_obj m = b'{' ∷ (separated (members m) ++ b'}' ∷ [])
