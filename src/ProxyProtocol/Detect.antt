-- ===== src/ProxyProtocol/Detect.antt =====
-- `maybe_read_proxy_header`: which format a connection starts with, if any.
use oxi_gate.Base.{
  ℕ, zero, suc, ◌-◌, Text, codes, str_eq, true, false, leb, if◌then◌else◌, Option, none, some, [],
  ◌∷◌, ◌++◌, length, take, Result, ok, err,
}
use oxi_gate.Net.{IpAddr}
use oxi_gate.ProxyProtocol.Stream.{Stream, Error, eof, read, PrefixedStream, new}
use oxi_gate.ProxyProtocol.Header.{ProxyHeader, parse_v1, parse_v2}

abbrev pub v2_sig : Text
v2_sig = 0x0d ∷ 0x0a ∷ 0x0d ∷ 0x0a ∷ 0x00 ∷ 0x0d ∷ 0x0a ∷ 0x51 ∷ 0x55 ∷ 0x49 ∷ 0x54 ∷ 0x0a ∷ []

-- The outcome of a `while filled < goal` loop: the buffer is filled so far, or the stream ended.
pub data Filled : Type 0 where
  full : Text → Stream → Filled
  ended : Text → Stream → Filled

-- The buffer has room for 16 bytes. Each round adds a byte, so 16 rounds are enough; `none` is the
-- fuel's end.
unfoldable pub fill : ℕ → ℕ → Text → Stream → Option (Result Error Filled)
fill zero goal first stream =
    if leb goal (length first) then some (ok (full first stream)) else none
fill (suc fuel) goal first stream = elim (leb goal (length first)) [
  | true ↦ some (ok (full first stream))
  | false ↦ elim (read (16 - length first) stream) [
    | err e ↦ some (err e)
    | ok ([], rest) ↦ some (ok (ended first rest))
    | ok (b ∷ bs, rest) ↦ fill fuel goal (first ++ b ∷ bs) rest
  ]
]

abbrev pub Outcome : Type 0
Outcome = Option (Result Error (Option ProxyHeader × PrefixedStream))

-- What stands behind a `?`: an error, and the fuel's end, go on up.
abbrev pub then_filled : Option (Result Error Filled) → (Filled → Outcome) → Outcome
then_filled none k = none
then_filled (some (err e)) k = some (err e)
then_filled (some (ok f)) k = k f

module _ (parse_ip : Text → Option IpAddr) where
  abbrev pub from_v1 : Option (Result Error (ProxyHeader × Text × Stream)) → Outcome
  from_v1 none = none
  from_v1 (some (err e)) = some (err e)
  from_v1 (some (ok (header, leftover, stream))) = some (ok (some header, new stream leftover))

  abbrev pub from_v2 : Result Error (ProxyHeader × Stream) → Outcome
  from_v2 (err e) = some (err e)
  from_v2 (ok (header, stream)) = some (ok (some header, new stream []))

  unfoldable pub read_v2 : Filled → Outcome
  read_v2 (ended first stream) = some (err eof)
  read_v2 (full first stream) = from_v2 (parse_v2 stream (take 16 first))

  unfoldable pub after_twelve : Filled → Outcome
  unfolding read_v2
  after_twelve (ended first stream) = some (ok (none, new stream first))
  after_twelve (full first stream) =
      if str_eq (take 12 first) v2_sig
      then then_filled (fill 16 16 first stream) read_v2
      else some (ok (none, new stream first))

  unfoldable pub after_six : Filled → Outcome
  unfolding after_twelve
  after_six (ended first stream) = some (ok (none, new stream first))
  after_six (full first stream) =
      if str_eq (take 6 first) (codes "PROXY ")
      then from_v1 (parse_v1 parse_ip 110 first stream)
      else then_filled (fill 16 12 first stream) after_twelve

  unfoldable pub maybe_read_proxy_header : Stream → Outcome
  unfolding after_six
  maybe_read_proxy_header stream = then_filled (fill 16 6 [] stream) after_six
