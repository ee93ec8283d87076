-- ===== src/Proxy/Attempt/Sends.antt =====
-- Which header fields a request to an upstream has.
use oxi_gate.Base.{
  Text, codes, to_ascii_lowercase, Option, none, some, List, [], ◌∷◌, ◌++◌, if◌then◌else◌,
}
use oxi_gate.Http.{Uri}
use oxi_gate.Net.{IpAddr}
use oxi_gate.Proxy.Attempt.{ProxyAttempt, extract_host}
use oxi_gate.Proxy.Headers.{HeaderMap}

-- The fields as the map has them, their names in lower case.
abbrev pub lowered : List (Text × Text) → List (Text × Text)
lowered [] = []
lowered ((n, v) ∷ fields) = (to_ascii_lowercase n, v) ∷ lowered fields

module _ (M : HeaderMap) where
  module _ (parse_uri : Text → Option Uri) (ip_to_string : IpAddr → Text) where
    -- The upstream's host, where it is a valid value.
    abbrev pub host_field : Option Text → List (Text × Text)
    host_field none = []
    host_field (some host) = if M.is_value host then (codes "host", host) ∷ [] else []

    -- What the proxy adds: the client's address twice, the protocol, the configured fields, and the
    -- upstream's host.
    abbrev pub added : ProxyAttempt M parse_uri ip_to_string → List (Text × Text)
    added a =
        (codes "X-Real-IP", ip_to_string a.remote_addr)
        ∷ (codes "X-Forwarded-For", ip_to_string a.remote_addr)
        ∷ (codes "X-Forwarded-Proto", codes (if a.client_is_tls then "https" else "http"))
        ∷ (a.request_set ++ host_field (extract_host a.address))
