-- ===== src/Router/Matching.antt =====
-- When a path matches a route's prefix.
use oxi_gate.Base.{
  ℕ, ◌≡◌, ◌≢◌, refl, sym, ◌∙◌, ◌↔◌, ◌⊎◌, inl, inr, Text, str_eq, str_eq_iff, starts_with,
  starts_with-append, starts_with-split, trim_end_matches, true, false, Bool-cases, ◌||◌, [], ◌∷◌,
  ◌++◌, arith,
}
use oxi_gate.Router.{path_matches, slash}
use mathlib.Core.List.{append_assoc}

trim_no_slash :
    (body : Text) (c d : ℕ) → c ≢ d → trim_end_matches (body ++ c ∷ []) d ≡ body ++ c ∷ []
unfolding trim_end_matches
trim_no_slash [] c d h = ground arith
trim_no_slash (x ∷ []) c d h = ground (arith, trim_no_slash [] c d h)
trim_no_slash (x ∷ y ∷ body) c d h = rw (trim_no_slash (y ∷ body) c d h)

ne_slash : (body : Text) (c : ℕ) → c ≢ b'/' → body ++ c ∷ [] ≢ slash
ne_slash [] c h e = h (ground arith)
ne_slash (x ∷ []) c h e = cc
ne_slash (x ∷ y ∷ body) c h e = cc

-- A prefix that does not end in a slash matches itself and what continues it behind a slash, and no
-- other path.
pub path_matches_iff :
    (path body : Text) (c : ℕ)
    → c ≢ b'/'
    → (path_matches path (body ++ c ∷ []) ≡ true)
      ↔ ((path ≡ body ++ c ∷ []) ⊎ ((rest : Text) × (path ≡ (body ++ c ∷ []) ++ b'/' ∷ rest)))
unfolding path_matches
path_matches_iff path body c h = (to, from)
  where
    prefix : Text
    prefix = body ++ c ∷ []

    not_root : str_eq prefix slash ≡ false
    not_root = elim (Bool-cases (str_eq prefix slash)) [
      | inl e ↦ absurd (ne_slash body c h ((str_eq_iff prefix slash).0 e))
      | inr e ↦ e
    ]

    trimmed : trim_end_matches prefix b'/' ≡ prefix
    trimmed = trim_no_slash body c b'/' h

    to :
        path_matches path prefix ≡ true
        → (path ≡ prefix) ⊎ ((rest : Text) × (path ≡ prefix ++ b'/' ∷ rest))
    to m =
        let n : (str_eq path prefix || starts_with path (prefix ++ slash)) ≡ true =
          rw (not_root, trimmed) at m in
        elim (Bool-cases (str_eq path prefix)) [
          | inl e ↦ inl ((str_eq_iff path prefix).0 e)
          | inr e ↦
              let (rest, q) = starts_with-split path (prefix ++ slash) (rw e at n) in
              inr (rest, q ∙ append_assoc prefix slash rest)
        ]

    from :
        (path ≡ prefix) ⊎ ((rest : Text) × (path ≡ prefix ++ b'/' ∷ rest))
        → path_matches path prefix ≡ true
    from (inl e) = rw (not_root, (str_eq_iff path prefix).1 e)
    from (inr (rest, e)) =
        let q : starts_with path (prefix ++ slash) ≡ true =
          rw (e, sym (append_assoc prefix slash rest))
            (starts_with-append (prefix ++ slash) rest) in
        rw (not_root, trimmed) (ground (arith, q))

-- The prefix "/" matches every path.
pub path_matches-root : (path : Text) → path_matches path slash ≡ true
unfolding path_matches
path_matches-root path = refl
