-- ===== src/ProxyProtocol/Words.antt =====
-- src/proxy_protocol.rs: the words of a line of the first format, which `split_whitespace` splits at
-- the white space of Unicode. A line is UTF-8 there.
use oxi_gate.Base.{
  ℕ, Text, is_space, Bool, ◌&&◌, ◌||◌, leb, ◌==◌, if◌then◌else◌, List, [], ◌∷◌, ◌++◌,
}

-- The white space of Unicode outside ASCII, in UTF-8: two or three bytes.
abbrev is_two_byte_space : ℕ → ℕ → Bool
is_two_byte_space a b = (a == 0xc2) && (b == 0x85 || b == 0xa0)

abbrev is_three_byte_space : ℕ → ℕ → ℕ → Bool
is_three_byte_space a b c =
    (a == 0xe1 && b == 0x9a && c == 0x80)
    || (a == 0xe2
        && b == 0x80
        && (leb 0x80 c && leb c 0x8a || (c == 0xa8 || (c == 0xa9 || c == 0xaf))))
    || (a == 0xe2 && b == 0x81 && c == 0x9f)
    || (a == 0xe3 && b == 0x80 && c == 0x80)

unfoldable pub narrow : ℕ → Text → Text
narrow a [] = a ∷ []
narrow a (b ∷ []) = if is_two_byte_space a b then 32 ∷ [] else a ∷ b ∷ []
narrow a (b ∷ c ∷ r) =
    if is_three_byte_space a b c
    then 32 ∷ r
    else if is_two_byte_space a b
    then 32 ∷ c ∷ r
    else a ∷ b ∷ c ∷ r

-- A text in UTF-8 with each character of white space as one byte.
unfoldable pub narrow_spaces : Text → Text
unfolding narrow
narrow_spaces [] = []
narrow_spaces (c ∷ cs) = narrow c (narrow_spaces cs)

-- The runs of bytes that are not ASCII white space.
unfoldable pub words_from : Text → Text → List Text
words_from cur [] = if_some cur
  where
    if_some : Text → List Text
    if_some [] = []
    if_some (x ∷ xs) = (x ∷ xs) ∷ []
words_from cur (c ∷ cs) =
    let closed = words_from [] cs in
    let longer = words_from (cur ++ c ∷ []) cs in if is_space c then close cur closed else longer
  where
    close : Text → List Text → List Text
    close [] ws = ws
    close (x ∷ xs) ws = (x ∷ xs) ∷ ws

-- `split_whitespace`
unfoldable pub split_whitespace : Text → List Text
unfolding words_from narrow_spaces
split_whitespace line = words_from [] (narrow_spaces line)
