-- ===== src/Dashboard/Access.antt =====
-- Who the admin server answers.
use oxi_gate.Base.{
  ◌≡◌, ◌≢◌, refl, ap, sym, ◌∙◌, ◌⊎◌, inl, inr, Text, codes, str_eq, str_eq_iff, str_eq_refl,
  strip_prefix, strip_prefix-append, split, Bool, true, false, ◌&&◌, ◌||◌, Bool-cases, Option-cases,
  if◌then◌else◌, some, List, [], ◌∷◌, ◌++◌, In, arith,
}
use oxi_gate.Proxy.Headers.{HeaderMap, and_then}
use oxi_gate.Dashboard.{
  Request, Response, Pages, query_token, bearer, authorized, is_denied, page, handle_admin,
  handle_dashboard_ws, serve_admin, html_response, json_response, error_response,
  switching_protocols,
}

strip_prefix_lem : (s p r : Text) → strip_prefix s p ≡ some r → s ≡ p ++ r
unfolding strip_prefix
strip_prefix_lem s [] r e = ground arith
strip_prefix_lem [] (y ∷ p) r e = cc
strip_prefix_lem (x ∷ s) (y ∷ p) r e = ground (arith, strip_prefix_lem s p r)

query_token-In :
    (token : Text) (parts : List Text)
    → query_token token parts ≡ true
    → In (codes "token=" ++ token) parts
unfolding query_token
query_token-In token [] e = cc
query_token-In token (part ∷ parts) e = elim (Option-cases (strip_prefix part (codes "token="))) [
  | inl missing ↦ inr (query_token-In token parts (ground arith))
  | inr (v, found) ↦
      let same : v ≡ token = (str_eq_iff v token).0 (ground arith) in
      inl
        (sym (strip_prefix_lem part (codes "token=") v found ∙ ap (λ t. codes "token=" ++ t) same))
]

module _ (M : HeaderMap) where
  -- The request's Authorization header is a bearer token, this one.
  abbrev pub HasBearer : Text → Request M → Type 0
  HasBearer token req =
      (v : Text) × (M.get (codes "authorization") req.headers ≡ some v)
      × (M.to_str v ≡ some (codes "Bearer " ++ token))

  -- A parameter of the query is this token.
  abbrev pub HasParameter : Text → Request M → Type 0
  HasParameter token req =
      (q : Text) × (req.query ≡ some q) × In (codes "token=" ++ token) (split q b'&')

  bearer-HasBearer :
      (token : Text) (req : Request M) → bearer M req ≡ some token → HasBearer token req
  bearer-HasBearer token req e = elim (Option-cases (M.get (codes "authorization") req.headers)) [
    | inl missing ↦ absurd (ground arith)
    | inr (v, got) ↦ elim (Option-cases (M.to_str v)) [
      | inl bad ↦ absurd (ground arith)
      | inr (s, read) ↦
          (v, got, read ∙ ap some (strip_prefix_lem s (codes "Bearer ") token (ground arith)))
    ]
  ]

  authorized-HasToken :
      (req : Request M) (token : Text)
      → authorized M req token ≡ true
      → HasBearer token req ⊎ HasParameter token req
  unfolding authorized
  authorized-HasToken req token e = elim (Option-cases (bearer M req)) [
    | inr (rest, shown) ↦
        let same : rest ≡ token = (str_eq_iff rest token).0 (ground arith) in
        inl (bearer-HasBearer token req (shown ∙ ap some same))
    | inl missing ↦ elim (Option-cases req.query) [
      | inl nothing ↦ absurd (ground arith)
      | inr (q, given) ↦ inr (q, given, query_token-In token (split q b'&') (ground arith))
    ]
  ]

  is_denied-false :
      (pages : Pages M) (req : Request M) (token : Text)
      → pages.admin_token ≡ some token
      → token ≢ []
      → is_denied M pages.admin_token req ≡ false
      → authorized M req token ≡ true
  unfolding is_denied
  is_denied-false pages req [] e h d = absurd (h refl)
  is_denied-false pages req (c ∷ token) e h d = elim (Bool-cases (authorized M req (c ∷ token))) [
    | inl shown ↦ shown
    | inr hidden ↦ absurd (ground arith)
  ]

  bearer-authorized :
      (req : Request M) (token : Text) → HasBearer token req → authorized M req token ≡ true
  unfolding authorized
  bearer-authorized req token (v, got, read) = rw (shown, authorized) (str_eq_refl token)
    where
      shown : bearer M req ≡ some token
      shown =
          ap (λ o. and_then (and_then o M.to_str) (λ s. strip_prefix s (codes "Bearer "))) got
          ∙ ap (λ o. and_then o (λ s. strip_prefix s (codes "Bearer "))) read
          ∙ strip_prefix-append (codes "Bearer ") token

  denied_bearer :
      (pages : Pages M) (req : Request M) (token : Text)
      → pages.admin_token ≡ some token
      → HasBearer token req
      → is_denied M pages.admin_token req ≡ true
      → ⊥
  unfolding is_denied
  denied_bearer pages req token set shown denied = ground (arith, bearer-authorized req token shown)

  if-status :
      (c : Bool) (r s : Response)
      → r.status ≢ 401
      → s.status ≢ 401
      → (if c then r else s).status ≢ 401
  if-status true r s p q = p
  if-status false r s p q = q

  page-status : (pages : Pages M) (path : Text) → (page M pages path).status ≢ 401
  unfolding page html_response json_response
  page-status pages path =
      if-status
        (str_eq path (codes "/")
          || str_eq path (codes "/dashboard")
          || str_eq path (codes "/dashboard/"))
        _ _ (ground arith)
        (if-status (str_eq path (codes "/api/stats")) _ _ (ground arith)
          (if-status (str_eq path (codes "/metrics")) _ _ (ground arith) (ground arith)))

  module _ (derive_accept_key : Text → Text) where
    serve_admin-denied :
        (pages : Pages M) (req : Request M)
        → req.path ≢ codes "/healthz"
        → is_denied M pages.admin_token req ≡ true
        → (serve_admin M derive_accept_key pages req).status ≡ 401
    unfolding serve_admin handle_admin handle_dashboard_ws
    serve_admin-denied pages req h d =
        elim (Bool-cases
          (str_eq req.path (codes "/ws") && M.contains_key (codes "upgrade") req.headers)) [
            | inl websocket ↦ rw (websocket, d) refl
            | inr plain ↦ elim (Bool-cases (str_eq req.path (codes "/healthz"))) [
              | inl health ↦ absurd (h ((str_eq_iff req.path (codes "/healthz")).0 health))
              | inr other ↦ rw (plain, other, d) refl
            ]
          ]

    serve_admin-admitted :
        (pages : Pages M) (req : Request M)
        → is_denied M pages.admin_token req ≡ false
        → (serve_admin M derive_accept_key pages req).status ≢ 401
    unfolding serve_admin handle_admin handle_dashboard_ws error_response switching_protocols
    serve_admin-admitted pages req d =
        elim (Bool-cases
          (str_eq req.path (codes "/ws") && M.contains_key (codes "upgrade") req.headers)) [
            | inl websocket ↦ elim (Option-cases (M.get (codes "sec-websocket-key") req.headers)) [
              | inl missing ↦ rw (websocket, d, missing) (ground arith)
              | inr (key, given) ↦ rw (websocket, d, given) (ground arith)
            ]
            | inr plain ↦
                rw (plain, d)
                  (if-status (str_eq req.path (codes "/healthz")) _ _ (ground arith)
                    (page-status pages req.path))
          ]

    -- With an admin token that is set and not empty, the answer to a request for any path but the
    -- health probe's is one of two: 401, and the request does not carry the token as its bearer
    -- token; or another status than 401, and the request carries the token, as its bearer token or
    -- as a parameter of its query.
    pub serve_admin-HasToken :
        (pages : Pages M) (req : Request M) (token : Text)
        → pages.admin_token ≡ some token
        → token ≢ []
        → req.path ≢ codes "/healthz"
        → (((serve_admin M derive_accept_key pages req).status ≡ 401) × (¬ HasBearer token req))
          ⊎ (((serve_admin M derive_accept_key pages req).status ≢ 401)
              × (HasBearer token req ⊎ HasParameter token req))
    serve_admin-HasToken pages req token set filled path =
        elim (Bool-cases (is_denied M pages.admin_token req)) [
          | inl denied ↦ inl (
            serve_admin-denied pages req path denied,
            λ shown. denied_bearer pages req token set shown denied,
          )
          | inr free ↦ inr (
            serve_admin-admitted pages req free,
            authorized-HasToken req token (is_denied-false pages req token set filled free),
          )
        ]
