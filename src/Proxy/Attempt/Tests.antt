-- ===== src/Proxy/Attempt/Tests.antt =====
-- The header map of the samples with an iterator that yields lower case, and the theorems at a
-- response with a hop-by-hop field and at a request that names an address of its own.
use oxi_gate.Base.{
  ◌≡◌, refl, ap₂, ◌⊎◌, ◌↔◌, inl, inr, Text, codes, to_ascii_lowercase, str_eq, false, none, some,
  List, [], ◌∷◌, In, ok, arith,
}
use oxi_gate.Net.{v4}
use oxi_gate.Proxy.Attempt.{
  ProxyAttempt, ProxyRequest, UpstreamResponse, Response, build_client_response, streamed,
}
use oxi_gate.Proxy.Attempt.Forwards.{IsHeaderMap, hop_by_hop, build_client_response-headers}
use oxi_gate.Proxy.BodyLimit.{ended}
use oxi_gate.Proxy.Headers.{HeaderMap}
use oxi_gate.Samples.{field_list, known_uri, no_text}

abbrev lower_names : List (Text × Text) → List (Text × Text)
lower_names [] = []
lower_names ((n, v) ∷ fields) = (to_ascii_lowercase n, v) ∷ lower_names fields

abbrev lower_list : HeaderMap
lower_list = record field_list { entries = lower_names }

lower-lower : (s : Text) → to_ascii_lowercase (to_ascii_lowercase s) ≡ to_ascii_lowercase s
unfolding to_ascii_lowercase
lower-lower [] = refl
lower-lower (c ∷ cs) = ap₂ ◌∷◌ (ground arith) (lower-lower cs)

lower_names-lower :
    (h : List (Text × Text)) (e : Text × Text) → In e (lower_names h) → to_ascii_lowercase e.0 ≡ e.0
lower_names-lower [] e m = absurd m
lower_names-lower ((n, v) ∷ h) e (inl p) = rw p (lower-lower n)
lower_names-lower ((n, v) ∷ h) e (inr m) = lower_names-lower h e m

raised-lower :
    (n v : Text) (h : List (Text × Text)) (e : Text × Text)
    → In e (lower_names ((to_ascii_lowercase n, v) ∷ h))
      ↔ ((e ≡ (to_ascii_lowercase n, v)) ⊎ In e (lower_names h))
raised-lower n v h e = rw (lower-lower n) (λ m. m, λ m. m)

lower_list-IsHeaderMap : IsHeaderMap lower_list
lower_list-IsHeaderMap = record {
  entries_empty = λ e m. m;
  entries_append = raised-lower;
  entries_lower = lower_names-lower;
}

abbrev attempt : ProxyAttempt lower_list known_uri no_text
attempt = record {
  headers = [];
  version = 11;
  body_bytes = [];
  address = codes "http://a";
  method = codes "GET";
  path = codes "/";
  query = none;
  remote_addr = v4 1;
  request_set = [];
  idle_timeout = 100;
  client_is_tls = false;
  preserve_upgrade = false;
}

abbrev answer : UpstreamResponse lower_list known_uri no_text
answer = record {
  status = 200;
  version = 11;
  headers = (codes "Connection", codes "close") ∷ (codes "content-type", codes "text/html") ∷ [];
  body = (0, ended) ∷ [];
}

abbrev relayed : Response lower_list known_uri no_text
relayed = record {
  status = 200;
  version = 11;
  headers = (codes "content-type", codes "text/html") ∷ [];
  body = streamed (ended ∷ []);
}

relays : build_client_response lower_list known_uri no_text attempt 0 answer ≡ ok relayed
unfolding build_client_response to_ascii_lowercase str_eq
relays = refl

build_client_response-headers_example :
    In (codes "content-type", codes "text/html") (lower_names relayed.headers) ↔ (
      In (codes "content-type", codes "text/html") (lower_names answer.headers)
      × (¬ In (codes "content-type") (hop_by_hop false)))
build_client_response-headers_example =
    build_client_response-headers lower_list lower_list-IsHeaderMap known_uri no_text attempt 0
      answer relayed relays (codes "content-type", codes "text/html")

-- A client that names an address of its own.
abbrev spoofing : ProxyAttempt lower_list known_uri no_text
spoofing = record attempt {
  headers =
      (codes "Host", codes "me")
      ∷ (codes "X-Real-IP", codes "1.2.3.4")
      ∷ (codes "TE", codes "trailers")
      ∷ [];
  request_set = (codes "X-Set", codes "s") ∷ [];
}

abbrev sent : ProxyRequest lower_list known_uri no_text
sent = record {
  method = codes "GET";
  uri = record { scheme = some (codes "http"); host = some (codes "127.0.0.1"); port = some 80 };
  version = 11;
  headers =
      (codes "host", codes "a")
      ∷ (codes "x-set", codes "s")
      ∷ (codes "x-forwarded-proto", codes "http")
      ∷ (codes "x-forwarded-for", codes "10.0.0.1")
      ∷ (codes "x-real-ip", codes "10.0.0.1")
      ∷ (codes "x-real-ip", codes "1.2.3.4")
      ∷ [];
  body = [];
}
