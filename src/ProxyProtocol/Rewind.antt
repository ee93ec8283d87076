-- ===== src/ProxyProtocol/Rewind.antt =====
-- The wrapper that puts bytes back: `PrefixedStream` delivers its bytes in order.
use oxi_gate.Base.{
  ℕ, zero, suc, ◌+◌, ◌≤◌, ◌≡◌, refl, ap, sym, ◌∙◌, subst, inl, inr, Text, Bool-cases, ltb, min, [],
  ◌∷◌, ◌++◌, length, take, drop, take-append-drop, length-take, ok, Result-cases, arith,
}
use oxi_gate.ProxyProtocol.Stream.{read, bytes_of, PrefixedStream, remaining, poll_read}
use oxi_gate.ProxyProtocol.Conserves.{read_lem}
use mathlib.Core.List.{append_assoc}

drop-add : (n m : ℕ) (xs : Text) → drop (n + m) xs ≡ drop m (drop n xs)
drop-add zero m xs = ap (λ k. drop k xs) (omega arith)
drop-add (suc n) m [] = let e : suc n + m ≡ suc (n + m) = omega arith in rw e (nothing m)
  where
    nothing : (m : ℕ) → [] ≡ drop {A = ℕ} m []
    nothing zero = refl
    nothing (suc m) = refl
drop-add (suc n) m (x ∷ xs) =
    let e : suc n + m ≡ suc (n + m) = omega arith in rw e (drop-add n m xs)

drop-all : (n : ℕ) (xs : Text) → length xs ≤ n → drop n xs ≡ []
drop-all zero [] h = refl
drop-all zero (x ∷ xs) h = absurd (omega arith)
drop-all (suc n) [] h = refl
drop-all (suc n) (x ∷ xs) h = drop-all n xs (omega arith)

-- A read from the wrapper delivers the next bytes, at most as many as there is room for, and leaves
-- the rest.
pub poll_read_lem :
    (s : PrefixedStream) (n : ℕ) (got : Text) (s' : PrefixedStream)
    → poll_read s n ≡ ok (got, s')
    → (remaining s ≡ got ++ remaining s') × (length got ≤ n)
unfolding poll_read remaining
poll_read_lem s n got s' e = elim (Bool-cases (ltb s.prefix_pos (length s.prefix))) [
  | inl buffered ↦
      let rest = drop s.prefix_pos s.prefix in
      let k = min (length rest) n in
      let taken : take k rest ≡ got = ground arith in
      let after : record s { prefix_pos = s.prefix_pos + k } ≡ s' = ground arith in
      subst (λ g. (remaining s ≡ g ++ remaining s') × (length g ≤ n)) taken
        (subst (λ t. (remaining s ≡ take k rest ++ remaining t) × (length (take k rest) ≤ n)) after
          (
            ap (λ r. r ++ bytes_of s.inner) (sym (take-append-drop k rest))
                ∙ append_assoc (take k rest) (drop k rest) (bytes_of s.inner)
                ∙ ap (λ r. take k rest ++ (r ++ bytes_of s.inner))
                    (sym (drop-add s.prefix_pos k s.prefix)),
            omega (arith, length-take k rest),
          ))
  | inr drained ↦ elim (Result-cases (read n s.inner)) [
    | inr (x, failed) ↦ absurd (ground arith)
    | inl ((bytes, inner), done) ↦
        let (whole, fits) = read_lem n s.inner bytes inner done in
        let empty = drop-all s.prefix_pos s.prefix (ground arith) in
        let taken : bytes ≡ got = ground arith in
        let after : record s { inner = inner } ≡ s' = ground arith in
        subst (λ g. (remaining s ≡ g ++ remaining s') × (length g ≤ n)) taken
          (subst (λ t. (remaining s ≡ bytes ++ remaining t) × (length bytes ≤ n)) after
            (
              ap (λ r. r ++ bytes_of s.inner) empty
                  ∙ whole
                  ∙ ap (λ r. bytes ++ (r ++ bytes_of inner)) (sym empty),
              fits,
            ))
  ]
]
