-- ===== src/Proxy/Headers.antt =====
-- src/proxy/handler.rs and src/security.rs: what the handler does with header fields.
-- The header map, its validity tests and its iteration order are the `http` crate's: the interface
-- `HeaderMap`. The names that a map's iterator yields are lower case.
use oxi_gate.Base.{
  Text, codes, str_eq, contains_str, to_ascii_lowercase, split, split_once, trim, Bool, false, not,
  ◌&&◌, ◌||◌, if◌then◌else◌, Option, none, some, List, [], ◌∷◌, any,
}

pub record HeaderMap : Type 1 where
  pub H : Type 0
  pub empty : H
  pub entries : H → List (Text × Text)
  pub get : Text → H → Option Text
  pub contains_key : Text → H → Bool
  pub append : Text → Text → H → H
  pub insert : Text → Text → H → H
  -- `HeaderName::from_bytes` and `HeaderValue::from_str` succeed.
  pub is_name : Text → Bool
  pub is_value : Text → Bool
  -- `HeaderValue::to_str`
  pub to_str : Text → Option Text

abbrev hop_by_hop_names : List Text
hop_by_hop_names =
    codes "connection"
    ∷ codes "keep-alive"
    ∷ codes "proxy-authenticate"
    ∷ codes "proxy-authorization"
    ∷ codes "te"
    ∷ codes "trailers"
    ∷ codes "transfer-encoding"
    ∷ codes "upgrade"
    ∷ []

unfoldable pub is_hop_by_hop : Text → Bool
unfolding str_eq
is_hop_by_hop name = any (str_eq name) hop_by_hop_names

unfoldable pub is_hop_by_hop_except_upgrade : Text → Bool
unfolding str_eq
is_hop_by_hop_except_upgrade name = any (str_eq name) (
    codes "keep-alive"
    ∷ codes "proxy-authenticate"
    ∷ codes "proxy-authorization"
    ∷ codes "te"
    ∷ codes "trailers"
    ∷ codes "transfer-encoding"
    ∷ [])

-- Which fields the two copying loops of `attempt_proxy` leave out.
unfoldable pub is_dropped : Bool → Text → Bool
unfolding is_hop_by_hop is_hop_by_hop_except_upgrade
is_dropped preserve_upgrade name =
    if preserve_upgrade then is_hop_by_hop_except_upgrade name else is_hop_by_hop name

abbrev pub and_then {ℓ κ} : {A : Type ℓ} {B : Type κ} → Option A → (A → Option B) → Option B
and_then none f = none
and_then (some a) f = f a

-- The value of the cookie in one part of the header, if it is the one with this name.
unfoldable pub cookie_part : Text → Text → Option Text
unfolding split_once trim str_eq
cookie_part name part = elim (split_once (trim part) b'=') [
  | none ↦ none
  | some (k, v) ↦ if str_eq (trim k) name then some (trim v) else none
]

unfoldable pub first_cookie : Text → List Text → Option Text
unfolding cookie_part
first_cookie name [] = none
first_cookie name (part ∷ parts) = elim (cookie_part name part) [
  | some v ↦ some v
  | none ↦ first_cookie name parts
]

module _ (M : HeaderMap) where
  unfoldable pub is_upgrade_request : M.H → Bool
  unfolding contains_str to_ascii_lowercase
  is_upgrade_request headers =
      M.contains_key (codes "upgrade") headers
      || elim (and_then (M.get (codes "connection") headers) M.to_str) [
        | none ↦ false
        | some s ↦ contains_str (to_ascii_lowercase s) (codes "upgrade")
      ]

  unfoldable pub extract_cookie : M.H → Text → Option Text
  unfolding first_cookie split
  extract_cookie headers name =
      and_then (and_then (M.get (codes "cookie") headers) M.to_str)
        (λ cookie. first_cookie name (split cookie b';'))

  -- `builder.header(name, value)`: an invalid field spoils the builder until its end.
  unfoldable pub header : Text → Text → Option M.H → Option M.H
  header name value none = none
  header name value (some h) =
      if M.is_name name && M.is_value value then some (M.append name value h) else none

  -- The copying loops: the request's leaves out the host as well.
  unfoldable pub copy_headers : (Text → Bool) → List (Text × Text) → Option M.H → Option M.H
  unfolding header
  copy_headers skip [] builder = builder
  copy_headers skip ((name, value) ∷ fields) builder =
      let copied = copy_headers skip fields (header name value builder) in
      if skip name then copy_headers skip fields builder else copied

  -- `for (k, v) in &headers_cfg.request_set`
  unfoldable pub set_request_headers : List (Text × Text) → Option M.H → Option M.H
  unfolding header
  set_request_headers [] builder = builder
  set_request_headers ((k, v) ∷ fields) builder = set_request_headers fields (header k v builder)

  -- `for (k, v) in &ctx.headers.response_set`
  unfoldable pub set_response_headers : List (Text × Text) → M.H → M.H
  set_response_headers [] h = h
  set_response_headers ((k, v) ∷ fields) h =
      set_response_headers fields (if M.is_name k && M.is_value v then M.insert k v h else h)

  unfoldable pub add_missing : List (Text × Text) → M.H → M.H
  add_missing [] h = h
  add_missing ((k, v) ∷ fields) h =
      add_missing fields
        (if not (M.contains_key k h) && (M.is_name k && M.is_value v) then M.insert k v h else h)

  abbrev pub security_pairs : List (Text × Text)
  security_pairs =
      (codes "X-Content-Type-Options", codes "nosniff")
      ∷ (codes "X-Frame-Options", codes "SAMEORIGIN")
      ∷ (codes "Referrer-Policy", codes "strict-origin-when-cross-origin")
      ∷ (codes "X-XSS-Protection", codes "0")
      ∷ (codes "Permissions-Policy", codes "geolocation=(), microphone=(), camera=()")
      ∷ []

  unfoldable pub apply_security_headers : M.H → M.H
  unfolding add_missing
  apply_security_headers h = add_missing security_pairs h
