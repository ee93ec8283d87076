-- ===== src/ProxyProtocol/Contract.antt =====
-- What `maybe_read_proxy_header` promises to its caller.
use oxi_gate.Base.{
  ℕ, zero, suc, ◌≤◌, ◌≡◌, ◌≢◌, refl, ap, sym, ◌∙◌, subst, inl, inr, Text, codes, str_eq, str_eq_iff,
  Bool-cases, Option, none, some, [], ◌∷◌, ◌++◌, length, take, Result, ok, err, Result-cases, arith,
}
use oxi_gate.Net.{IpAddr}
use oxi_gate.ProxyProtocol.Stream.{Stream, bytes_of, read_exact, new, remaining}
use oxi_gate.ProxyProtocol.Header.{ProxyHeader, parse_v1, parse_v2, parse_v2_addresses, be16, at}
use oxi_gate.ProxyProtocol.Detect.{
  Outcome, Filled, full, ended, fill, v2_sig, then_filled, from_v1, read_v2, after_twelve,
  after_six, maybe_read_proxy_header,
}
use oxi_gate.ProxyProtocol.Conserves.{buffer, left, IsFilled, fill_lem, fill_grows, fill-ne-none}
use oxi_gate.ProxyProtocol.Promise.{IsHeader, parse_v1_lem, parse_v1-ne-none, read_exact_lem}
use mathlib.Core.List.{append_assoc}

module _ (parse_ip : Text → Option IpAddr) where
  -- There is a result. Without a header nothing of the stream's bytes was taken; with one, what was
  -- taken is that header's bytes.
  abbrev pub Keeps : Text → Outcome → Type 0
  Keeps bytes none = ⊥
  Keeps bytes (some (err e)) = Unit {0}
  Keeps bytes (some (ok (none, s))) = remaining s ≡ bytes
  Keeps bytes (some (ok (some h, s))) =
      (taken : Text) × (bytes ≡ taken ++ remaining s) × IsHeader parse_ip taken h

  then_filled-Keeps :
      (bytes : Text) (o : Option (Result _ Filled)) (k : Filled → Outcome)
      → o ≢ none
      → ((f : Filled) → o ≡ some (ok f) → Keeps bytes (k f))
      → Keeps bytes (then_filled o k)
  then_filled-Keeps bytes none k h c = h refl
  then_filled-Keeps bytes (some (err e)) k h c = tt
  then_filled-Keeps bytes (some (ok f)) k h c = c f refl

  new_lem :
      (first : Text) (stream : Stream) → remaining (new stream first) ≡ first ++ bytes_of stream
  unfolding remaining new
  new_lem first stream = refl

  take-all : (n : ℕ) (xs : Text) → length xs ≤ n → take n xs ≡ xs
  take-all zero [] h = refl
  take-all zero (x ∷ xs) h = absurd (omega arith)
  take-all (suc n) [] h = refl
  take-all (suc n) (x ∷ xs) h = ap (◌∷◌ x) (take-all n xs (omega arith))

  take-append : (n : ℕ) (xs ys : Text) → n ≤ length xs → take n (xs ++ ys) ≡ take n xs
  take-append zero xs ys h = refl
  take-append (suc n) [] ys h = absurd (omega arith)
  take-append (suc n) (x ∷ xs) ys h = ap (◌∷◌ x) (take-append n xs ys (omega arith))

  read_v2-Keeps :
      (f : Filled)
      → take 12 (buffer f) ≡ v2_sig
      → length (buffer f) ≤ 16
      → IsFilled 16 f
      → Keeps (buffer f ++ bytes_of (left f)) (read_v2 parse_ip f)
  unfolding read_v2 parse_v2 remaining new
  read_v2-Keeps (ended first stream) sig h p = tt
  read_v2-Keeps (full first stream) sig h p =
      rw (take-all 16 first h)
        (elim (Result-cases (read_exact (be16 (at first 14) (at first 15)) stream)) [
          | inr (x, failed) ↦ rw failed tt
          | inl ((rest, stream'), done) ↦
              elim (Result-cases (parse_v2_addresses (at first 12) (at first 13) rest)) [
                | inr (x, failed) ↦ rw (done, failed) tt
                | inl (header, parsed) ↦
                    let (whole, size) = read_exact_lem _ stream rest stream' done in
                    rw (done, parsed)
                      (
                        first ++ rest,
                        ap (λ t. first ++ t) whole
                            ∙ sym (append_assoc first rest (bytes_of stream')),
                        inr (first, rest, refl, exactly first h p, sig, size, parsed),
                      )
              ]
        ])
    where
      exactly : (t : Text) → length t ≤ 16 → 16 ≤ length t → length t ≡ 16
      exactly t h p = omega arith

  after_twelve-Keeps :
      (f : Filled)
      → length (buffer f) ≤ 16
      → IsFilled 12 f
      → Keeps (buffer f ++ bytes_of (left f)) (after_twelve parse_ip f)
  unfolding after_twelve
  after_twelve-Keeps (ended first stream) h p = new_lem first stream
  after_twelve-Keeps (full first stream) h p = elim (Bool-cases (str_eq (take 12 first) v2_sig)) [
    | inr other ↦ rw other (new_lem first stream)
    | inl sig ↦ rw sig (
        then_filled-Keeps (first ++ bytes_of stream) (fill 16 16 first stream) (read_v2 parse_ip)
          (fill-ne-none 16 16 first stream (omega arith))
          (λ f e.
            let (conserved, filled) = fill_lem 16 16 first stream f e in
            let ((more, grown), bounded) = fill_grows 16 16 first stream f h e in
            let same =
              ap (take 12) grown
              ∙ take-append 12 first more p
              ∙ (str_eq_iff (take 12 first) v2_sig).0 sig in
            subst (λ b. Keeps b (read_v2 parse_ip f)) (sym conserved)
              (read_v2-Keeps f same bounded filled)))
  ]

  after_six-Keeps :
      (f : Filled)
      → length (buffer f) ≤ 16
      → IsFilled 6 f
      → Keeps (buffer f ++ bytes_of (left f)) (after_six parse_ip f)
  unfolding after_six remaining new
  after_six-Keeps (ended first stream) h p = refl
  after_six-Keeps (full first stream) h p =
      elim (Bool-cases (str_eq (take 6 first) (codes "PROXY "))) [
        | inl sig ↦ rw sig (v1 (parse_v1 parse_ip 110 first stream) refl)
        | inr other ↦ rw other (
            then_filled-Keeps (first ++ bytes_of stream) (fill 16 12 first stream)
              (after_twelve parse_ip) (fill-ne-none 16 12 first stream (omega arith))
              (λ f e.
                let (conserved, filled) = fill_lem 16 12 first stream f e in
                let (_, bounded) = fill_grows 16 12 first stream f h e in
                subst (λ b. Keeps b (after_twelve parse_ip f)) (sym conserved)
                  (after_twelve-Keeps f bounded filled)))
      ]
    where
      v1 :
          (o : Option (Result _ (ProxyHeader × Text × Stream)))
          → parse_v1 parse_ip 110 first stream ≡ o
          → Keeps (first ++ bytes_of stream) (from_v1 parse_ip o)
      v1 none e = parse_v1-ne-none parse_ip 110 first stream (omega arith) (omega arith) e
      v1 (some (err x)) e = tt
      v1 (some (ok (header, leftover, rest))) e =
          let (line, split, good, parsed) =
            parse_v1_lem parse_ip 110 first stream header leftover rest e in
          (
            line ++ 13 ∷ 10 ∷ [],
            split
                ∙ append_assoc line (13 ∷ 10 ∷ leftover) (bytes_of rest)
                ∙ sym (append_assoc line (13 ∷ 10 ∷ []) (leftover ++ bytes_of rest)),
            inl (line, refl, good, parsed),
          )

  -- Reading the head of a connection always ends, and it ends in one of three ways: with an error;
  -- without a header, where the stream handed on delivers exactly the bytes of the connection; or
  -- with a header, where the connection's bytes are those of a well-formed header with these
  -- addresses, followed by exactly the bytes that the stream handed on delivers.
  pub maybe_read_proxy_header_lem :
      (stream : Stream) → Keeps (bytes_of stream) (maybe_read_proxy_header parse_ip stream)
  unfolding maybe_read_proxy_header
  maybe_read_proxy_header_lem stream =
      then_filled-Keeps (bytes_of stream) (fill 16 6 [] stream) (after_six parse_ip)
        (fill-ne-none 16 6 [] stream (omega arith))
        (λ f e.
          let (conserved, filled) = fill_lem 16 6 [] stream f e in
          let (_, bounded) = fill_grows 16 6 [] stream f (omega arith) e in
          subst (λ b. Keeps b (after_six parse_ip f)) (sym conserved)
            (after_six-Keeps f bounded filled))
