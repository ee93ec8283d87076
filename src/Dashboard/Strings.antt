-- ===== src/Dashboard/Strings.antt =====
-- `json_str` against a reader of JSON strings (RFC 8259) that knows the escapes of a quote, a
-- backslash and a slash, and refuses every other escape and control characters.
use oxi_gate.Base.{
  ℕ, ◌≤◌, ◌≡◌, refl, ap, sym, ◌∙◌, Text, replace, Bool, true, false, Bool-cases, ltb, ◌==◌, ==_iff,
  ◌||◌, if◌then◌else◌, Option, none, some, [], ◌∷◌, ◌++◌, All, inl, inr, arith,
}
use oxi_gate.Dashboard.Json.{json_str}
use mathlib.Core.List.{append_assoc}

abbrev consed : ℕ → Option (Text × Text) → Option (Text × Text)
consed c none = none
consed c (some (s, rest)) = some (c ∷ s, rest)

-- The characters up to the closing quote, and what follows it. The flag tells that a backslash
-- stands before the first of them.
unfoldable pub read_chars : Bool → Text → Option (Text × Text)
read_chars escaped [] = none
read_chars true (c ∷ cs) =
    let rest = read_chars false cs in
    if c == b'"' || c == b'\\' || c == b'/' then consed c rest else none
read_chars false (c ∷ cs) =
    let rest = read_chars (c == b'\\') cs in
    if c == b'"'
    then some ([], cs)
    else if c == b'\\'
    then rest
    else if ltb c 32
    then none
    else consed c rest

unfoldable pub read_string : Text → Option (Text × Text)
unfolding read_chars
read_string [] = none
read_string (c ∷ cs) = if c == b'"' then read_chars false cs else none

-- What the two replacements make of a text, byte by byte.
abbrev escape : Text → Text
escape s = replace (replace s b'\\' (b'\\' ∷ b'\\' ∷ [])) b'"' (b'\\' ∷ b'"' ∷ [])

read_chars-plain :
    (c : ℕ) (cs : Text)
    → (c == b'\\') ≡ false
    → (c == b'"') ≡ false
    → ltb c 32 ≡ false
    → read_chars false (c ∷ cs) ≡ consed c (read_chars false cs)
unfolding read_chars
read_chars-plain c cs h k l = rw (k, h, l) refl

read_chars-escape :
    (s rest : Text)
    → All (λ c. 32 ≤ c) s
    → read_chars false (escape s ++ b'"' ∷ rest) ≡ some (s, rest)
unfolding read_chars replace
read_chars-escape [] rest h = refl
read_chars-escape (c ∷ s) rest (p, h) =
    let later = read_chars-escape s rest h in
    elim (Bool-cases (c == b'\\')) [
      | inl backslash ↦
          rw (backslash, later) (ap (λ x. some (x ∷ s, rest)) (sym ((==_iff c b'\\').0 backslash)))
      | inr other ↦ elim (Bool-cases (c == b'"')) [
        | inl quote ↦
            rw (other, quote, later) (ap (λ x. some (x ∷ s, rest)) (sym ((==_iff c b'"').0 quote)))
        | inr plain ↦
            rw (other, plain)
              (read_chars-plain c (escape s ++ b'"' ∷ rest) other plain (ground arith)
                ∙ ap (consed c) later)
      ]
    ]

-- What `json_str` writes of a text without control characters is a string of JSON that is read back
-- as the same text, whatever follows it.
pub read_string-json_str :
    (s rest : Text) → All (λ c. 32 ≤ c) s → read_string (json_str s ++ rest) ≡ some (s, rest)
unfolding read_string json_str
read_string-json_str s rest h =
    ap (read_chars false) (append_assoc (escape s) (b'"' ∷ []) rest) ∙ read_chars-escape s rest h
