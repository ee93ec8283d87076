-- ===== src/Proxy/Attempt.antt =====
-- src/proxy/handler.rs: one attempt at one upstream.
-- The HTTP client, with its timeout, is the parameter `send`: while the handler waits for it, other
-- tasks run, so it returns the balancer as it finds it then. The clock is part of the `World`.
pub mod Forwards
pub mod Sends
mod Tests
use oxi_gate.Base.{
  ℕ, Text, codes, strip_prefix, split, trim_end_matches, str_eq, Bool, ◌||◌, if◌then◌else◌,
  is_empty, Option, none, some, List, [], ◌∷◌, ◌++◌, Result, ok, err, ◌>>=◌, ok_or,
}
use oxi_gate.Http.{Uri}
use oxi_gate.Lb.{LoadBalancer}
use oxi_gate.Net.{IpAddr}
use oxi_gate.Proxy.BodyLimit.{BodyLimitError, Poll, SourceError, new_idle, idle_wrap}
use oxi_gate.Proxy.Headers.{HeaderMap, is_dropped, header, copy_headers, set_request_headers}

unfoldable pub full_uri : Text → Text → Option Text → Text
unfolding trim_end_matches
full_uri upstream_base path query =
    let base = trim_end_matches upstream_base b'/' in
    let path = if is_empty path then codes "/" else path in
    elim query [ some q ↦ base ++ path ++ b'?' ∷ q | none ↦ base ++ path ]

abbrev or_else {ℓ} : {A : Type ℓ} → Option A → Option A → Option A
or_else none d = d
or_else (some a) d = some a

abbrev first_part : List Text → Option Text
first_part [] = none
first_part (p ∷ ps) = some p

unfoldable pub extract_host : Text → Option Text
unfolding strip_prefix split
extract_host upstream =
    elim (or_else (strip_prefix upstream (codes "http://"))
      (strip_prefix upstream (codes "https://"))) [
        | none ↦ none
        | some without_scheme ↦ first_part (split without_scheme b'/')
      ]

unfoldable pub is_not_forwarded : Bool → Text → Bool
unfolding str_eq is_dropped
is_not_forwarded preserve_upgrade name =
    str_eq name (codes "host") || is_dropped preserve_upgrade name

pub data AttemptError : Type 0 where
  bad_target_uri build_request upstream_error build_response : AttemptError

pub data Body : Type 0 where
  full : Text → Body
  streamed : List (Poll BodyLimitError) → Body

-- `Text → Option Uri` and the address printer are the standard library's and the `http` crate's.
module _ (M : HeaderMap) (parse_uri : Text → Option Uri) (ip_to_string : IpAddr → Text) where
  unfoldable pub build_target_uri : Text → Text → Option Text → Option Uri
  unfolding full_uri
  build_target_uri upstream_base path query = parse_uri (full_uri upstream_base path query)

  pub record ProxyRequest : Type 0 where
    pub method : Text
    pub uri : Uri
    pub version : ℕ
    pub headers : M.H
    pub body : Text

  pub record UpstreamResponse : Type 0 where
    pub status : ℕ
    pub version : ℕ
    pub headers : M.H
    pub body : List (ℕ × Poll SourceError)

  pub record Response : Type 0 where
    pub status : ℕ
    pub version : ℕ
    pub headers : M.H
    pub body : Body

  -- `ProxyAttempt`, without the client, the upstream being its address.
  pub record ProxyAttempt : Type 0 where
    pub headers : M.H
    pub version : ℕ
    pub body_bytes : Text
    pub address : Text
    pub method : Text
    pub path : Text
    pub query : Option Text
    pub remote_addr : IpAddr
    pub request_set : List (Text × Text)
    pub idle_timeout : ℕ
    pub client_is_tls : Bool
    pub preserve_upgrade : Bool

  abbrev pub with_host : Option Text → Option M.H → Option M.H
  with_host none builder = builder
  with_host (some host) builder =
      if M.is_value host then header M (codes "host") host builder else builder

  -- The header fields of the request to the upstream.
  unfoldable pub request_headers : ProxyAttempt → Option M.H
  unfolding copy_headers set_request_headers header extract_host is_not_forwarded
  request_headers a =
      let copied =
        copy_headers M (is_not_forwarded a.preserve_upgrade) (M.entries a.headers) (some M.empty) in
      let client_ip = ip_to_string a.remote_addr in
      let real_ip = header M (codes "X-Real-IP") client_ip copied in
      let forwarded = header M (codes "X-Forwarded-For") client_ip real_ip in
      let proto = codes (if a.client_is_tls then "https" else "http") in
      let with_proto = header M (codes "X-Forwarded-Proto") proto forwarded in
      let configured = set_request_headers M a.request_set with_proto in
      with_host (extract_host a.address) configured

  unfoldable pub build_proxy_request : ProxyAttempt → Result AttemptError ProxyRequest
  unfolding build_target_uri request_headers
  build_proxy_request a = do
    target_uri ← ok_or (build_target_uri a.address a.path a.query) bad_target_uri
    headers ← ok_or (request_headers a) build_request
    ok (record {
      method = a.method;
      uri = target_uri;
      version = a.version;
      headers = headers;
      body = a.body_bytes;
    })

  -- The response to the client, `now` being when the upstream's arrived.
  unfoldable pub build_client_response :
      ProxyAttempt → ℕ → UpstreamResponse → Result AttemptError Response
  unfolding copy_headers is_dropped idle_wrap new_idle
  build_client_response a now r = do
    headers ←
        ok_or (copy_headers M (is_dropped a.preserve_upgrade) (M.entries r.headers) (some M.empty))
          build_response
    ok (record {
      status = r.status;
      version = r.version;
      headers = headers;
      body = streamed (idle_wrap (new_idle now a.idle_timeout) r.body);
    })

  module _ (World : Type 0) (clock : World → ℕ)
      (send : World
        → LoadBalancer
        → ProxyRequest
        → (World × LoadBalancer) × Option UpstreamResponse) where
    unfoldable pub answered :
        ProxyAttempt
        → (World × LoadBalancer) × Option UpstreamResponse
        → (World × LoadBalancer) × Result AttemptError Response
    unfolding build_client_response
    answered a ((world, lb), none) = ((world, lb), err upstream_error)
    answered a ((world, lb), some r) = ((world, lb), build_client_response a (clock world) r)

    unfoldable pub attempt_proxy :
        ProxyAttempt → World → LoadBalancer → (World × LoadBalancer) × Result AttemptError Response
    unfolding build_proxy_request answered
    attempt_proxy a world lb = elim (build_proxy_request a) [
      | err e ↦ ((world, lb), err e)
      | ok request ↦ answered a (send world lb request)
    ]
