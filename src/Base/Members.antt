-- ===== src/Base/Members.antt =====
-- Membership in a list, by recursion, and the laws of the Boolean searches.
use Prim.Native.Nat.{ℕ, zero, suc}
use mathlib.Core.Path.{◌≡◌, refl, ap, sym, subst}
use mathlib.Core.Logic.{◌⊎◌, inl, inr}
use mathlib.Core.Bool.{Bool, true, false}
use mathlib.Core.List.{List, [], ◌∷◌, ◌++◌}
use mathlib.Core.Option.{none, some}
use native.Mathlib.Omega.{arith}
use oxi_gate.Base.Bools.{Bool-cases}
use oxi_gate.Base.Lists.{get_elem?, any, find, filter, All}

module _ {A : Type 0} where
  -- Membership, by recursion, so that it computes to a disjunction.
  abbrev pub In : A → List A → Type 0
  In a [] = ⊥
  In a (x ∷ xs) = (a ≡ x) ⊎ In a xs

  pub In-of_eq : {a b : A} (xs : List A) → a ≡ b → In b xs → In a xs
  In-of_eq xs e m = subst (λ x. In x xs) (sym e) m

  pub get_elem?-In : (xs : List A) (i : ℕ) (a : A) → get_elem? xs i ≡ some a → In a xs
  get_elem?-In [] i a h = cc
  get_elem?-In (x ∷ xs) zero a h = inl (cc)
  get_elem?-In (x ∷ xs) (suc i) a h = inr (get_elem?-In xs i a h)

  pub In-get_elem? : (a : A) (xs : List A) → In a xs → (i : ℕ) × (get_elem? xs i ≡ some a)
  In-get_elem? a [] m = elim m [ ]
  In-get_elem? a (x ∷ xs) (inl e) = (0, ap some (sym e))
  In-get_elem? a (x ∷ xs) (inr m) = let (i, e) = In-get_elem? a xs m in (suc i, e)

module _ {A : Type 0} (p : A → Bool) where
  pub In-filter : (a : A) (xs : List A) → In a (filter p xs) → In a xs × (p a ≡ true)
  In-filter a [] m = elim m [ ]
  In-filter a (x ∷ xs) m = elim (Bool-cases (p x)) [
    | inl e ↦ keep e (In-filter a xs) (rw e at m)
    | inr e ↦ let (k, h) = In-filter a xs (rw e at m) in (inr k, h)
  ]
    where
      keep :
          p x ≡ true
          → (In a (filter p xs) → In a xs × (p a ≡ true))
          → (a ≡ x) ⊎ In a (filter p xs)
          → In a (x ∷ xs) × (p a ≡ true)
      keep e ih (inl q) = (inl q, rw q e)
      keep e ih (inr k) = let (k', h) = ih k in (inr k', h)

  pub filter-In : (a : A) (xs : List A) → In a xs → p a ≡ true → In a (filter p xs)
  filter-In a [] m h = elim m [ ]
  filter-In a (x ∷ xs) (inl q) h = let e : p x ≡ true = rw (← q) h in rw e (inl q)
  filter-In a (x ∷ xs) (inr m) h = elim (Bool-cases (p x)) [
    | inl e ↦ rw e (inr (filter-In a xs m h))
    | inr e ↦ rw e (filter-In a xs m h)
  ]

  pub any_iff_true : (xs : List A) → any p xs ≡ true → (a : A) × In a xs × (p a ≡ true)
  any_iff_true [] h = cc
  any_iff_true (x ∷ xs) h = elim (Bool-cases (p x)) [
    | inl e ↦ (x, inl refl, e)
    | inr e ↦ let (a, m, q) = any_iff_true xs (rw e at h) in (a, inr m, q)
  ]

  pub any_of_In : (a : A) (xs : List A) → In a xs → p a ≡ true → any p xs ≡ true
  any_of_In a [] m h = elim m [ ]
  any_of_In a (x ∷ xs) (inl q) h = let e : p x ≡ true = rw (← q) h in rw e
  any_of_In a (x ∷ xs) (inr m) h = ground (arith, any_of_In a xs m h)

  pub find-some : (xs : List A) (a : A) → find p xs ≡ some a → In a xs × (p a ≡ true)
  find-some [] a h = cc
  find-some (x ∷ xs) a h = elim (Bool-cases (p x)) [
    | inl e ↦ let q : some x ≡ some a = rw e at h in (inl (cc), ground arith)
    | inr e ↦ let (m, q) = find-some xs a (rw e at h) in (inr m, q)
  ]

  pub find-none : (xs : List A) → find p xs ≡ none → (a : A) → In a xs → p a ≡ false
  find-none [] h a m = elim m [ ]
  find-none (x ∷ xs) h a (inl q) = rw q (ground arith)
  find-none (x ∷ xs) h a (inr m) = find-none xs (ground arith) a m

module _ {κ} {A : Type 0} (P : A → Type κ) where
  pub All-In : (xs : List A) → All P xs → (a : A) → In a xs → P a
  All-In [] h a m = elim m [ ]
  All-In (x ∷ xs) h a (inl q) = rw q h.0
  All-In (x ∷ xs) h a (inr m) = All-In xs h.1 a m

  pub In-All : (xs : List A) → ((a : A) → In a xs → P a) → All P xs
  In-All [] h = tt
  In-All (x ∷ xs) h = (h x (inl refl), In-All xs (λ a m. h a (inr m)))

  pub All-append : (xs ys : List A) → All P xs → All P ys → All P (xs ++ ys)
  All-append [] ys h k = k
  All-append (x ∷ xs) ys h k = (h.0, All-append xs ys h.1 k)

  pub All-of_append : (xs ys : List A) → All P (xs ++ ys) → All P xs × All P ys
  All-of_append [] ys h = (tt, h)
  All-of_append (x ∷ xs) ys (p, h) = let (a, b) = All-of_append xs ys h in ((p, a), b)
