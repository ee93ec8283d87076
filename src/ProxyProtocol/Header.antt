-- ===== src/ProxyProtocol/Header.antt =====
-- The two header formats.
use Prim.Native.Nat.{bit_and}
use oxi_gate.Base.{
  ℕ, zero, suc, ◌+◌, ◌-◌, ◌*◌, Text, codes, str_eq, parse_uint, Bool, true, false, not, ◌&&◌, ◌||◌,
  leb, ltb, ◌==◌, if◌then◌else◌, Option, none, some, List, [], ◌∷◌, ◌++◌, length, take, drop,
  get_elem?, Result, ok, err, ◌>>=◌, ◌>>◌, ok_or, bail_if,
}
use oxi_gate.Net.{IpAddr, v4, v6, SocketAddr}
use oxi_gate.ProxyProtocol.Words.{split_whitespace}
use oxi_gate.ProxyProtocol.Stream.{
  Stream, Error, eof, header_too_long, malformed, unsupported_family, read, read_exact,
}

pub record ProxyHeader : Type 0 where
  pub src : SocketAddr
  pub dst : SocketAddr

abbrev pub unspecified : SocketAddr
unspecified = record { ip = v4 0; port = 0 }

abbrev pub unknown_header : ProxyHeader
unknown_header = record { src = unspecified; dst = unspecified }

-- `buf.windows(2).position(|w| w == b"\r\n")`: what stands before the first CR LF, and behind it.
unfoldable pub find_crlf : Text → Option (Text × Text)
find_crlf [] = none
find_crlf (x ∷ []) = none
find_crlf (x ∷ y ∷ r) = if x == 13 && y == 10 then some ([], r) else before x (find_crlf (y ∷ r))
  where
    before : ℕ → Option (Text × Text) → Option (Text × Text)
    before x none = none
    before x (some (a, b)) = some (x ∷ a, b)

-- `str::from_utf8`: the ranges of the bytes that must follow a first byte.
abbrev tail_byte : ℕ × ℕ
tail_byte = (0x80, 0xbf)

unfoldable pub following : ℕ → Option (List (ℕ × ℕ))
following b =
    if ltb b 0x80
    then some []
    else if leb 0xc2 b && leb b 0xdf
    then some (tail_byte ∷ [])
    else if b == 0xe0
    then some ((0xa0, 0xbf) ∷ tail_byte ∷ [])
    else if b == 0xed
    then some ((0x80, 0x9f) ∷ tail_byte ∷ [])
    else if leb 0xe1 b && leb b 0xef
    then some (tail_byte ∷ tail_byte ∷ [])
    else if b == 0xf0
    then some ((0x90, 0xbf) ∷ tail_byte ∷ tail_byte ∷ [])
    else if leb 0xf1 b && leb b 0xf3
    then some (tail_byte ∷ tail_byte ∷ tail_byte ∷ [])
    else if b == 0xf4
    then some ((0x80, 0x8f) ∷ tail_byte ∷ tail_byte ∷ [])
    else none

abbrev starts : Option (List (ℕ × ℕ)) → (List (ℕ × ℕ) → Bool) → Bool
starts none k = false
starts (some rs) k = k rs

-- The text with the ranges that its next bytes must lie in.
unfoldable pub utf8_from : List (ℕ × ℕ) → Text → Bool
unfolding following
utf8_from [] [] = true
utf8_from (r ∷ rs) [] = false
utf8_from [] (b ∷ bs) = starts (following b) (λ rs. utf8_from rs bs)
utf8_from ((lo, hi) ∷ rs) (b ∷ bs) = leb lo b && leb b hi && utf8_from rs bs

unfoldable pub is_utf8 : Text → Bool
unfolding utf8_from
is_utf8 = utf8_from []

-- `parts[i]`: an index that the length test has put in range.
abbrev part : List Text → ℕ → Text
part parts i = elim (get_elem? parts i) [ some p ↦ p | none ↦ [] ]

module _ (parse_ip : Text → Option IpAddr) where
  socket_addr : Text → Text → Result Error SocketAddr
  socket_addr ip port = do
    ip ← ok_or (parse_ip ip) malformed
    port ← ok_or (parse_uint 65535 port) malformed
    ok (record { ip = ip; port = port })

  unfoldable pub parse_parts : List Text → Result Error ProxyHeader
  unfolding socket_addr str_eq
  parse_parts parts =
      if ltb (length parts) 2 || not (str_eq (part parts 0) (codes "PROXY"))
      then err malformed
      else if str_eq (part parts 1) (codes "UNKNOWN")
      then ok unknown_header
      else if ltb (length parts) 6
      then err malformed
      else do
        src ← socket_addr (part parts 2) (part parts 4)
        dst ← socket_addr (part parts 3) (part parts 5)
        ok (record { src = src; dst = dst })

  unfoldable pub parse_v1_line : Text → Result Error ProxyHeader
  unfolding parse_parts split_whitespace
  parse_v1_line line = parse_parts (split_whitespace line)

  -- The loop reads one byte at a time until a CR LF is there. It ends within 109 rounds, since
  -- each round adds a byte and a longer buffer is refused; `none` is the fuel's end.
  unfoldable pub parse_v1 : ℕ → Text → Stream → Option (Result Error (ProxyHeader × Text × Stream))
  parse_v1 zero buf stream = none
  parse_v1 (suc fuel) buf stream = elim (find_crlf buf) [
    | some (line, leftover) ↦ some do
      bail_if (not (is_utf8 line)) malformed
      header ← parse_v1_line line
      ok (header, leftover, stream)
    | none ↦ if ltb 108 (length buf) then some (err header_too_long) else elim (read 1 stream) [
      | err e ↦ some (err e)
      | ok ([], rest) ↦ some (err eof)
      | ok (b ∷ bs, rest) ↦ parse_v1 fuel (buf ++ b ∷ []) rest
    ]
  ]

-- u16::from_be_bytes
abbrev pub be16 : ℕ → ℕ → ℕ
be16 hi lo = hi * 256 + lo

-- The address of big-endian bytes: `Ipv4Addr::new` of four, `Ipv6Addr::from` of sixteen.
unfoldable pub big_endian : ℕ → Text → ℕ
big_endian n [] = n
big_endian n (b ∷ bs) = big_endian (n * 256 + b) bs

abbrev pub at : Text → ℕ → ℕ
at bytes i = elim (get_elem? bytes i) [ some b ↦ b | none ↦ 0 ]

abbrev pub slice : Text → ℕ → ℕ → Text
slice bytes from upto = take (upto - from) (drop from bytes)

-- The addresses of a version 2 header; `rest` is what follows its first sixteen bytes.
unfoldable pub parse_v2_addresses : ℕ → ℕ → Text → Result Error ProxyHeader
unfolding big_endian
parse_v2_addresses ver_cmd family rest =
    if bit_and ver_cmd 0x0f == 0
    then ok unknown_header
    else if family == 0x11 && leb 12 (length rest)
    then ok (record {
      src = record { ip = v4 (big_endian 0 (slice rest 0 4)); port = be16 (at rest 8) (at rest 9) };
      dst = record {
        ip = v4 (big_endian 0 (slice rest 4 8));
        port = be16 (at rest 10) (at rest 11);
      };
    })
    else if family == 0x21 && leb 36 (length rest)
    then ok (record {
      src = record {
        ip = v6 (big_endian 0 (slice rest 0 16));
        port = be16 (at rest 32) (at rest 33);
      };
      dst = record {
        ip = v6 (big_endian 0 (slice rest 16 32));
        port = be16 (at rest 34) (at rest 35);
      };
    })
    else err unsupported_family

unfoldable pub parse_v2 : Stream → Text → Result Error (ProxyHeader × Stream)
unfolding parse_v2_addresses read_exact
parse_v2 stream hdr = do
  (rest, stream') ← read_exact (be16 (at hdr 14) (at hdr 15)) stream
  header ← parse_v2_addresses (at hdr 12) (at hdr 13) rest
  ok (header, stream')
