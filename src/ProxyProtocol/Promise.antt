-- ===== src/ProxyProtocol/Promise.antt =====
-- What the parsers of the two formats take from the stream.
use oxi_gate.Base.{
  ℕ, zero, suc, ◌+◌, ◌-◌, ◌<◌, ◌≡◌, ◌≢◌, ap, ap₂, sym, ◌∙◌, subst, ◌⊎◌, inl, inr, Text, true, ◌&&◌,
  Bool-cases, Option-cases, leb, ltb, ◌==◌, Option, none, some, [], ◌∷◌, ◌++◌, length, take, drop,
  take-append-drop, length-append, length-take, ok, Result-cases, arith,
}
use oxi_gate.Net.{IpAddr}
use oxi_gate.ProxyProtocol.Stream.{chunk, failure, Stream, read, read_exact, bytes_of}
use oxi_gate.ProxyProtocol.Header.{
  ProxyHeader, find_crlf, is_utf8, parse_v1_line, parse_v1, parse_v2_addresses, be16, at,
}
use oxi_gate.ProxyProtocol.Detect.{v2_sig}
use oxi_gate.ProxyProtocol.Conserves.{read_lem}
use mathlib.Core.List.{append_assoc}

find_crlf_lem :
    (buf line leftover : Text)
    → find_crlf buf ≡ some (line, leftover)
    → buf ≡ line ++ 13 ∷ 10 ∷ leftover
unfolding find_crlf
find_crlf_lem [] line leftover e = cc
find_crlf_lem (x ∷ []) line leftover e = cc
find_crlf_lem (x ∷ y ∷ r) line leftover e = elim (Bool-cases (x == 13 && y == 10)) [
  | inl here ↦ ground arith
  | inr later ↦ elim (Option-cases (find_crlf (y ∷ r))) [
    | inl missing ↦ absurd (ground arith)
    | inr ((a, b), found) ↦
        let rest = find_crlf_lem (y ∷ r) a b found in
        let head : x ∷ a ≡ line = ground arith in
        let tail : b ≡ leftover = ground arith in
        ap (◌∷◌ x) rest
        ∙ ap (λ t. x ∷ a ++ 13 ∷ 10 ∷ t) tail
        ∙ ap (λ t. t ++ 13 ∷ 10 ∷ leftover) head
  ]
]

pub read_exact_lem :
    (n : ℕ) (stream : Stream) (got : Text) (rest : Stream)
    → read_exact n stream ≡ ok (got, rest)
    → (bytes_of stream ≡ got ++ bytes_of rest) × (length got ≡ n)
unfolding read_exact bytes_of
read_exact_lem zero events got rest e = (ground arith, ground arith)
read_exact_lem (suc n) [] got rest e = cc
read_exact_lem (suc n) (failure ∷ events) got rest e = cc
read_exact_lem (suc n) (chunk [] ∷ events) got rest e = cc
read_exact_lem (suc n) (chunk (b ∷ bytes) ∷ events) got rest e =
    elim (Bool-cases (leb (length bytes) n)) [
      | inl fits ↦ elim (Result-cases (read_exact (n - length bytes) events)) [
        | inr (x, failed) ↦ absurd (ground arith)
        | inl ((more, events'), done) ↦
            let (whole, size) = read_exact_lem (n - length bytes) events more events' done in
            let taken : b ∷ bytes ++ more ≡ got = ground arith in
            let gone : events' ≡ rest = ground arith in
            (
              ap (λ t. b ∷ bytes ++ t) whole
                  ∙ sym (append_assoc (b ∷ bytes) more (bytes_of events'))
                  ∙ ap (λ t. t ++ bytes_of events') taken
                  ∙ ap (λ s. got ++ bytes_of s) gone,
              subst (λ t. length t ≡ suc n) taken (ground (arith, length-append bytes more)),
            )
      ]
      | inr more ↦
          let taken : b ∷ take n bytes ≡ got = ground arith in
          let gone : chunk (drop n bytes) ∷ events ≡ rest = ground arith in
          (
            ap (λ t. b ∷ t ++ bytes_of events) (sym (take-append-drop n bytes))
                ∙ ap (◌∷◌ b) (append_assoc (take n bytes) (drop n bytes) (bytes_of events))
                ∙ ap (λ t. t ++ (drop n bytes ++ bytes_of events)) taken
                ∙ ap (λ s. got ++ bytes_of s) gone,
            subst (λ t. length t ≡ suc n) taken (ground (arith, length-take n bytes)),
          )
    ]

module _ (parse_ip : Text → Option IpAddr) where
  -- The bytes of a header: a version 1 line with its CR LF, or a version 2 block.
  abbrev pub IsHeader : Text → ProxyHeader → Type 0
  IsHeader taken h =
      ((line : Text) × (taken ≡ line ++ 13 ∷ 10 ∷ [])
        × (is_utf8 line ≡ true)
        × (parse_v1_line parse_ip line ≡ ok h))
      ⊎ ((hdr : Text) × (rest : Text) × (taken ≡ hdr ++ rest)
          × (length hdr ≡ 16)
          × (take 12 hdr ≡ v2_sig)
          × (length rest ≡ be16 (at hdr 14) (at hdr 15))
          × (parse_v2_addresses (at hdr 12) (at hdr 13) rest ≡ ok h))

  pub parse_v1_lem :
      (fuel : ℕ) (buf : Text) (stream : Stream) (h : ProxyHeader) (leftover : Text) (rest : Stream)
      → parse_v1 parse_ip fuel buf stream ≡ some (ok (h, leftover, rest))
      → (line : Text) × (buf ++ bytes_of stream ≡ line ++ 13 ∷ 10 ∷ leftover ++ bytes_of rest)
        × (is_utf8 line ≡ true)
        × (parse_v1_line parse_ip line ≡ ok h)
  unfolding parse_v1
  parse_v1_lem zero buf stream h leftover rest e = cc
  parse_v1_lem (suc fuel) buf stream h leftover rest e = elim (Option-cases (find_crlf buf)) [
    | inr ((line, after), found) ↦
        let split = find_crlf_lem buf line after found in
        elim (Bool-cases (is_utf8 line)) [
          | inr bad ↦ absurd (ground arith)
          | inl good ↦ elim (Result-cases (parse_v1_line parse_ip line)) [
            | inr (x, failed) ↦ absurd (ground arith)
            | inl (h', parsed) ↦
                let same_h : h' ≡ h = ground arith in
                let same_left : after ≡ leftover = ground arith in
                let same_rest : stream ≡ rest = ground arith in
                (
                  line,
                  ap (λ b. b ++ bytes_of stream) split
                      ∙ ap₂ (λ a s. line ++ 13 ∷ 10 ∷ a ++ bytes_of s) same_left same_rest,
                  good,
                  parsed ∙ ap ok same_h,
                )
          ]
        ]
    | inl missing ↦ elim (Bool-cases (ltb 108 (length buf))) [
      | inl long ↦ absurd (ground arith)
      | inr short ↦ elim (Result-cases (read 1 stream)) [
        | inr (x, failed) ↦ absurd (ground arith)
        | inl (([], events), done) ↦ absurd (ground arith)
        | inl ((b ∷ [], events), done) ↦
            let (whole, _) = read_lem 1 stream (b ∷ []) events done in
            let (line, split, good, parsed) =
              parse_v1_lem fuel (buf ++ b ∷ []) events h leftover rest (ground arith) in
            (
              line,
              ap (λ t. buf ++ t) whole ∙ sym (append_assoc buf (b ∷ []) (bytes_of events)) ∙ split,
              good,
              parsed,
            )
        | inl ((b ∷ c ∷ bs, events), done) ↦
            let (_, size) = read_lem 1 stream (b ∷ c ∷ bs) events done in absurd (omega arith)
      ]
    ]
  ]

  -- The buffer grows by a byte in each round and a buffer of 109 bytes is refused, so 110 rounds
  -- are enough.
  pub parse_v1-ne-none :
      (fuel : ℕ) (buf : Text) (stream : Stream)
      → 109 < length buf + fuel
      → 0 < fuel
      → parse_v1 parse_ip fuel buf stream ≢ none
  unfolding parse_v1
  parse_v1-ne-none zero buf stream h p e = absurd (omega arith)
  parse_v1-ne-none (suc fuel) buf stream h p e = elim (Option-cases (find_crlf buf)) [
    | inr ((line, after), found) ↦ ground arith
    | inl missing ↦ elim (Bool-cases (ltb 108 (length buf))) [
      | inl long ↦ ground arith
      | inr short ↦ elim (Result-cases (read 1 stream)) [
        | inr (x, failed) ↦ ground arith
        | inl (([], events), done) ↦ ground arith
        | inl ((b ∷ bs, events), done) ↦
            parse_v1-ne-none fuel (buf ++ b ∷ []) events (omega (arith, length-append buf (b ∷ [])))
              (ground arith) (ground arith)
      ]
    ]
  ]
