-- ===== src/Dashboard.antt =====
-- src/dashboard.rs and the admin server's dispatch in src/main.rs: who may see the admin pages.
-- The header map is the interface `HeaderMap`; the page's HTML, the text of the metrics and the
-- accept key of a websocket are parameters. The task that feeds a websocket is not modelled.
pub mod Json
pub mod Stats
pub mod Access
pub mod Strings
pub mod Totals
mod Tests
use oxi_gate.Base.{
  ℕ, Text, codes, str_eq, strip_prefix, split, Bool, true, false, not, ◌&&◌, ◌||◌, if◌then◌else◌,
  is_empty, Option, none, some, List, [], ◌∷◌,
}
use oxi_gate.Proxy.Headers.{HeaderMap, and_then}

pub record Response : Type 0 where
  pub status : ℕ
  pub fields : List (Text × Text)
  pub body : Text

abbrev content_type : Text → Text × Text
content_type t = (codes "Content-Type", t)

abbrev no_cache : Text × Text
no_cache = (codes "Cache-Control", codes "no-cache")

unfoldable pub html_response : Text → Response
html_response body = record {
  status = 200;
  fields = content_type (codes "text/html; charset=utf-8") ∷ no_cache ∷ [];
  body = body;
}

unfoldable pub json_response : Text → Response
json_response body = record {
  status = 200;
  fields = content_type (codes "application/json; charset=utf-8") ∷ no_cache ∷ [];
  body = body;
}

unfoldable pub error_response : ℕ → Text → Response
error_response status message = record {
  status = status;
  fields = content_type (codes "text/plain; charset=utf-8") ∷ [];
  body = message;
}

unfoldable pub switching_protocols : Text → Response
switching_protocols accept = record {
  status = 101;
  fields =
      (codes "Connection", codes "Upgrade")
      ∷ (codes "Upgrade", codes "websocket")
      ∷ (codes "Sec-WebSocket-Accept", accept)
      ∷ [];
  body = [];
}

-- The first `token` parameter of the query decides.
unfoldable pub query_token : Text → List Text → Bool
unfolding strip_prefix str_eq
query_token token [] = false
query_token token (part ∷ parts) = elim (strip_prefix part (codes "token=")) [
  | some v ↦ str_eq v token
  | none ↦ query_token token parts
]

module _ (M : HeaderMap) where
  pub record Request : Type 0 where
    pub path : Text
    pub query : Option Text
    pub headers : M.H

  abbrev pub bearer : Request → Option Text
  bearer req =
      and_then (and_then (M.get (codes "authorization") req.headers) M.to_str)
        (λ s. strip_prefix s (codes "Bearer "))

  unfoldable pub authorized : Request → Text → Bool
  unfolding query_token split strip_prefix str_eq
  authorized req token = elim (bearer req) [
    | some rest ↦ str_eq rest token
    | none ↦ elim req.query [ some q ↦ query_token token (split q b'&') | none ↦ false ]
  ]

  -- A token that is set and not empty closes the pages to requests that do not show it.
  unfoldable pub is_denied : Option Text → Request → Bool
  unfolding authorized
  is_denied none req = false
  is_denied (some token) req = not (is_empty token) && not (authorized req token)

  -- `admin_token` and the texts of the pages are what the state gives at this moment.
  pub record Pages : Type 0 where
    pub admin_token : Option Text
    pub dashboard_html : Text
    pub stats : Text
    pub metrics : Text

  unfoldable pub page : Pages → Text → Response
  unfolding html_response json_response str_eq
  page pages path =
      if str_eq path (codes "/")
        || str_eq path (codes "/dashboard")
        || str_eq path (codes "/dashboard/")
      then html_response pages.dashboard_html
      else if str_eq path (codes "/api/stats")
      then json_response pages.stats
      else if str_eq path (codes "/metrics")
      then record {
        status = 200;
        fields = content_type (codes "text/plain; version=0.0.4; charset=utf-8") ∷ no_cache ∷ [];
        body = pages.metrics;
      }
      else record {
        status = 404;
        fields = content_type (codes "application/json") ∷ [];
        body = codes "{\"error\":\"not_found\"}";
      }

  unfoldable pub handle_admin : Pages → Request → Response
  unfolding page is_denied str_eq
  handle_admin pages req =
      if str_eq req.path (codes "/healthz")
      then record {
        status = 200;
        fields = content_type (codes "text/plain") ∷ [];
        body = codes "ok";
      }
      else if is_denied pages.admin_token req
      then record {
        status = 401;
        fields =
            (codes "WWW-Authenticate", codes "Bearer")
            ∷ content_type (codes "application/json")
            ∷ [];
        body =
            codes
              "{\"error\":\"unauthorized\",\"hint\":\"Authorization: Bearer <token> or ?token=\"}";
      }
      else page pages req.path

  module _ (derive_accept_key : Text → Text) where
    unfoldable pub handle_dashboard_ws : Pages → Request → Response
    unfolding is_denied error_response switching_protocols
    handle_dashboard_ws pages req =
        if is_denied pages.admin_token req
        then record {
          status = 401;
          fields = (codes "WWW-Authenticate", codes "Bearer") ∷ [];
          body = codes "unauthorized";
        }
        else elim (M.get (codes "sec-websocket-key") req.headers) [
          | none ↦ error_response 400 (codes "missing websocket key")
          | some key ↦ switching_protocols (derive_accept_key key)
        ]

    -- The closure of `run_admin_server`.
    unfoldable pub serve_admin : Pages → Request → Response
    unfolding handle_dashboard_ws handle_admin str_eq
    serve_admin pages req =
        if str_eq req.path (codes "/ws") && M.contains_key (codes "upgrade") req.headers
        then handle_dashboard_ws pages req
        else handle_admin pages req
