-- ===== src/ProxyProtocol/Conserves.antt =====
-- No byte is lost or made up: what the parser takes, and what it leaves.
use oxi_gate.Base.{
  ℕ, zero, suc, ◌+◌, ◌-◌, ◌≤◌, ◌≡◌, ◌≢◌, refl, ap, sym, ◌∙◌, subst, inl, inr, Text, Bool-cases, leb,
  none, some, [], ◌∷◌, ◌++◌, length, take, drop, take-append-drop, length-append, length-take, ok,
  Result-cases, arith,
}
use oxi_gate.ProxyProtocol.Stream.{chunk, failure, Stream, read, bytes_of}
use oxi_gate.ProxyProtocol.Detect.{Filled, full, ended, fill}
use mathlib.Core.List.{append_assoc, append-nil}

-- A read splits the bytes that are to come.
pub read_lem :
    (n : ℕ) (stream : Stream) (got : Text) (rest : Stream)
    → read n stream ≡ ok (got, rest)
    → (bytes_of stream ≡ got ++ bytes_of rest) × (length got ≤ n)
unfolding read bytes_of
read_lem n [] got rest e = (ground arith, ground arith)
read_lem n (failure ∷ events) got rest e = cc
read_lem n (chunk bytes ∷ events) got rest e = elim (Bool-cases (leb (length bytes) n)) [
  | inl fits ↦ (ground arith, ground arith)
  | inr more ↦
      let split = take-append-drop n bytes in
      let whole =
        ap (λ b. b ++ bytes_of events) (sym split)
        ∙ append_assoc (take n bytes) (drop n bytes) (bytes_of events) in
      let taken : take n bytes ≡ got = ground arith in
      let left : chunk (drop n bytes) ∷ events ≡ rest = ground arith in
      (
        whole
            ∙ ap (λ b. b ++ (drop n bytes ++ bytes_of events)) taken
            ∙ ap (λ s. got ++ bytes_of s) left,
        subst (λ b. length b ≤ n) taken (omega (arith, length-take n bytes)),
      )
]

-- What the loop holds, and what it leaves in the stream.
abbrev pub buffer : Filled → Text
buffer (full first stream) = first
buffer (ended first stream) = first

abbrev pub left : Filled → Stream
left (full first stream) = stream
left (ended first stream) = stream

abbrev pub IsFilled : ℕ → Filled → Type 0
IsFilled goal (full first stream) = goal ≤ length first
IsFilled goal (ended first stream) = Unit {0}

pub fill_lem :
    (fuel goal : ℕ) (first : Text) (stream : Stream) (f : Filled)
    → fill fuel goal first stream ≡ some (ok f)
    → (first ++ bytes_of stream ≡ buffer f ++ bytes_of (left f)) × IsFilled goal f
unfolding fill
fill_lem zero goal first stream f e = elim (Bool-cases (leb goal (length first))) [
  | inl enough ↦
      let same : full first stream ≡ f = ground arith in
      subst (λ g. (first ++ bytes_of stream ≡ buffer g ++ bytes_of (left g)) × IsFilled goal g) same
        (refl, ground arith)
  | inr short ↦ absurd (ground arith)
]
fill_lem (suc fuel) goal first stream f e = elim (Bool-cases (leb goal (length first))) [
  | inl enough ↦
      let same : full first stream ≡ f = ground arith in
      subst (λ g. (first ++ bytes_of stream ≡ buffer g ++ bytes_of (left g)) × IsFilled goal g) same
        (refl, ground arith)
  | inr short ↦ elim (Result-cases (read (16 - length first) stream)) [
    | inr (x, failed) ↦ absurd (ground arith)
    | inl (([], rest), done) ↦
        let same : ended first rest ≡ f = ground arith in
        let (whole, _) = read_lem (16 - length first) stream [] rest done in
        subst (λ g. (first ++ bytes_of stream ≡ buffer g ++ bytes_of (left g)) × IsFilled goal g)
          same (ap (λ b. first ++ b) whole, tt)
    | inl ((b ∷ bs, rest), done) ↦
        let (whole, _) = read_lem (16 - length first) stream (b ∷ bs) rest done in
        let (conserved, enough) = fill_lem fuel goal (first ++ b ∷ bs) rest f (ground arith) in
        (
          ap (λ t. first ++ t) whole
              ∙ sym (append_assoc first (b ∷ bs) (bytes_of rest))
              ∙ conserved,
          enough,
        )
  ]
]

-- Sixteen rounds are enough: no fuel's end.
pub fill-ne-none :
    (fuel goal : ℕ) (first : Text) (stream : Stream)
    → goal ≤ length first + fuel
    → fill fuel goal first stream ≢ none
unfolding fill
fill-ne-none zero goal first stream h e = ground arith
fill-ne-none (suc fuel) goal first stream h e = elim (Bool-cases (leb goal (length first))) [
  | inl enough ↦ ground arith
  | inr short ↦ elim (Result-cases (read (16 - length first) stream)) [
    | inr (x, failed) ↦ ground arith
    | inl (([], rest), done) ↦ ground arith
    | inl ((b ∷ bs, rest), done) ↦
        fill-ne-none fuel goal (first ++ b ∷ bs) rest (omega (arith, length-append first (b ∷ bs)))
          (ground arith)
  ]
]

-- The buffer grows at its end and stays within its 16 bytes.
pub fill_grows :
    (fuel goal : ℕ) (first : Text) (stream : Stream) (f : Filled)
    → length first ≤ 16
    → fill fuel goal first stream ≡ some (ok f)
    → ((more : Text) × (buffer f ≡ first ++ more)) × (length (buffer f) ≤ 16)
unfolding fill
fill_grows zero goal first stream f h e = elim (Bool-cases (leb goal (length first))) [
  | inl enough ↦
      let same : full first stream ≡ f = ground arith in
      subst (λ g. ((more : Text) × (buffer g ≡ first ++ more)) × (length (buffer g) ≤ 16)) same
        (([], sym (append-nil first)), h)
  | inr short ↦ absurd (ground arith)
]
fill_grows (suc fuel) goal first stream f h e = elim (Bool-cases (leb goal (length first))) [
  | inl enough ↦
      let same : full first stream ≡ f = ground arith in
      subst (λ g. ((more : Text) × (buffer g ≡ first ++ more)) × (length (buffer g) ≤ 16)) same
        (([], sym (append-nil first)), h)
  | inr short ↦ elim (Result-cases (read (16 - length first) stream)) [
    | inr (x, failed) ↦ absurd (ground arith)
    | inl (([], rest), done) ↦
        let same : ended first rest ≡ f = ground arith in
        subst (λ g. ((more : Text) × (buffer g ≡ first ++ more)) × (length (buffer g) ≤ 16)) same
          (([], sym (append-nil first)), h)
    | inl ((b ∷ bs, rest), done) ↦
        let (_, fits) = read_lem (16 - length first) stream (b ∷ bs) rest done in
        let ((more, grown), bounded) =
          fill_grows fuel goal (first ++ b ∷ bs) rest f
            (omega (arith, length-append first (b ∷ bs))) (ground arith) in
        ((b ∷ bs ++ more, grown ∙ append_assoc first (b ∷ bs) more), bounded)
  ]
]
