-- ===== src/ProxyProtocol/Tests.antt =====
-- Connections with a version 1 header, a version 2 header and none, and the theorem at the first.
use oxi_gate.Base.{◌≤◌, ◌≡◌, refl, length, codes, str_eq, parse_uint, none, some, [], ◌∷◌, ◌++◌, ok}
use oxi_gate.Samples.{quad, known_ips}
use oxi_gate.ProxyProtocol.Stream.{
  Stream, chunk, read, bytes_of, PrefixedStream, new, poll_read, remaining,
}
use oxi_gate.ProxyProtocol.Words.{split_whitespace}
use oxi_gate.ProxyProtocol.Header.{find_crlf, is_utf8, parse_v1_line, parse_v1, parse_v2}
use oxi_gate.ProxyProtocol.Detect.{v2_sig, fill, maybe_read_proxy_header}
use oxi_gate.ProxyProtocol.Rewind.{poll_read_lem}
use oxi_gate.ProxyProtocol.Contract.{Keeps, maybe_read_proxy_header_lem}

detect_code : Unit {0}
unfolding maybe_read_proxy_header fill read find_crlf is_utf8 parse_v1_line parse_v1 parse_v2 new
    str_eq parse_uint bytes_of poll_read remaining
detect_code = tt

-- The line arrives in two pieces, the second with the request's first bytes.
abbrev version_one : Stream
version_one =
    chunk (codes "PROXY TCP4 10.0.0.0")
    ∷ chunk (codes " 0.0.0.0 1000 443" ++ 13 ∷ 10 ∷ codes "GET /")
    ∷ []

reads_version_one :
    maybe_read_proxy_header known_ips version_one
    ≡ some (
        ok (
          some (record {
            src = record { ip = quad 10 0 0 0; port = 1000 };
            dst = record { ip = quad 0 0 0 0; port = 443 };
          }),
          new (chunk (codes "GET /") ∷ []) [],
        ))
unfolding detect_code
reads_version_one = refl

reads_version_two :
    maybe_read_proxy_header known_ips (
      chunk (v2_sig ++ 0x21 ∷ 0x11 ∷ 0 ∷ 12 ∷ [])
      ∷ chunk (10 ∷ 0 ∷ 0 ∷ 1 ∷ 10 ∷ 0 ∷ 0 ∷ 2 ∷ 4 ∷ 0 ∷ 1 ∷ 187 ∷ codes "GET")
      ∷ [])
    ≡ some (
        ok (
          some (record {
            src = record { ip = quad 10 0 0 1; port = 1024 };
            dst = record { ip = quad 10 0 0 2; port = 443 };
          }),
          new (chunk (codes "GET") ∷ []) [],
        ))
unfolding detect_code
reads_version_two = refl

reads_no_header :
    maybe_read_proxy_header known_ips (chunk (codes "GET / HTTP/1.1") ∷ [])
    ≡ some (ok (none, new [] (codes "GET / HTTP/1.1")))
unfolding detect_code
reads_no_header = refl

maybe_read_proxy_header_lem_example :
    Keeps known_ips (bytes_of version_one) (maybe_read_proxy_header known_ips version_one)
maybe_read_proxy_header_lem_example = maybe_read_proxy_header_lem known_ips version_one

abbrev put_back : PrefixedStream
put_back = new (chunk (codes "T /") ∷ []) (codes "GE")

abbrev partly_read : PrefixedStream
partly_read = record put_back { prefix_pos = 1 }

poll_read_lem_example :
    (remaining put_back ≡ codes "G" ++ remaining partly_read) × (length (codes "G") ≤ 1)
unfolding detect_code
poll_read_lem_example = poll_read_lem put_back 1 (codes "G") partly_read refl

-- A no-break space and an em space split, and a letter of two bytes does not.
wide_words :
    split_whitespace
      (codes "PROXY" ++ 0xc2 ∷ 0xa0 ∷ codes "a" ++ 0xe2 ∷ 0x80 ∷ 0x83 ∷ 0xc3 ∷ 0xa0 ∷ [])
    ≡ codes "PROXY" ∷ codes "a" ∷ (0xc3 ∷ 0xa0 ∷ []) ∷ []
unfolding split_whitespace
wide_words = refl
