-- ===== src/Proxy/Attempt/Forwards.antt =====
-- Which header fields of an upstream's response reach the client.
use oxi_gate.Base.{
  ℕ, ◌≡◌, refl, ap, sym, ◌∙◌, ◌↔◌, subst, ◌⊎◌, inl, inr, Text, codes, str_eq, str_eq_iff, any,
  any_iff_true, any_of_In, In-of_eq, to_ascii_lowercase, Bool, true, false, Bool-cases, ◌&&◌,
  Option, none, some, Option-cases, List, [], ◌∷◌, In, ok, arith,
}
use oxi_gate.Http.{Uri}
use oxi_gate.Net.{IpAddr}
use oxi_gate.Proxy.Attempt.{ProxyAttempt, UpstreamResponse, Response, build_client_response}
use oxi_gate.Proxy.Headers.{HeaderMap, header, copy_headers, is_dropped}

-- What is relied on of the `http` crate's map: a new map is empty, `append` adds one field under the
-- name in lower case and keeps the others, and an iterator yields names in lower case.
pub record IsHeaderMap (M : HeaderMap) : Type 0 where
  pub entries_empty : (e : Text × Text) → ¬ In e (M.entries M.empty)
  pub entries_append :
      (n v : Text) (h : M.H) (e : Text × Text)
      → In e (M.entries (M.append n v h)) ↔ ((e ≡ (to_ascii_lowercase n, v)) ⊎ In e (M.entries h))
  pub entries_lower :
      (h : M.H) (e : Text × Text) → In e (M.entries h) → to_ascii_lowercase e.0 ≡ e.0

-- The fields that are kept from the other side: the eight names, and for an upgrade, six of them.
abbrev pub hop_by_hop : Bool → List Text
hop_by_hop false =
    codes "connection"
    ∷ codes "keep-alive"
    ∷ codes "proxy-authenticate"
    ∷ codes "proxy-authorization"
    ∷ codes "te"
    ∷ codes "trailers"
    ∷ codes "transfer-encoding"
    ∷ codes "upgrade"
    ∷ []
hop_by_hop true =
    codes "keep-alive"
    ∷ codes "proxy-authenticate"
    ∷ codes "proxy-authorization"
    ∷ codes "te"
    ∷ codes "trailers"
    ∷ codes "transfer-encoding"
    ∷ []

any-str_eq : (n : Text) (names : List Text) → (any (str_eq n) names ≡ true) ↔ In n names
any-str_eq n names = (
  λ e.
      let (a, m, same) = any_iff_true (str_eq n) names e in
      In-of_eq names ((str_eq_iff n a).0 same) m,
  λ m. any_of_In (str_eq n) n names m ((str_eq_iff n n).1 refl),
)

pub any-str_eq-false :
    (n : Text) (names : List Text) → (any (str_eq n) names ≡ false) ↔ (¬ In n names)
any-str_eq-false n names =
    let (f, g) = any-str_eq n names in
    (
      λ e m. let there = g m in cc,
      λ h. elim (Bool-cases (any (str_eq n) names)) [ inl e ↦ absurd (h (f e)) | inr e ↦ e ],
    )

is_dropped_iff :
    (preserve_upgrade : Bool) (n : Text)
    → (is_dropped preserve_upgrade n ≡ false) ↔ (¬ In n (hop_by_hop preserve_upgrade))
unfolding is_dropped
is_dropped_iff false n = any-str_eq-false n (hop_by_hop false)
is_dropped_iff true n = any-str_eq-false n (hop_by_hop true)

module _ (M : HeaderMap) (laws : IsHeaderMap M) where
  copy_headers-none :
      (skip : Text → Bool) (fields : List (Text × Text)) → copy_headers M skip fields none ≡ none
  unfolding copy_headers header
  copy_headers-none skip [] = refl
  copy_headers-none skip ((n, v) ∷ fields) = ground (arith, copy_headers-none skip fields)

  -- What the copying loop adds is in its input, and not left out.
  pub copy_headers-In :
      (skip : Text → Bool) (fields : List (Text × Text)) (h h' : M.H) (e : Text × Text)
      → ((f : Text × Text) → In f fields → to_ascii_lowercase f.0 ≡ f.0)
      → copy_headers M skip fields (some h) ≡ some h'
      → In e (M.entries h')
      → In e (M.entries h) ⊎ (In e fields × (skip e.0 ≡ false))
  unfolding copy_headers header
  copy_headers-In skip [] h h' e lower q m =
      let same : h ≡ h' = ground arith in inl (subst (λ x. In e (M.entries x)) (sym same) m)
  copy_headers-In skip ((n, v) ∷ fields) h h' e lower q m = elim (Bool-cases (skip n)) [
    | inl left_out ↦
        later (copy_headers-In skip fields h h' e (λ f k. lower f (inr k)) (rw left_out at q) m)
    | inr kept ↦ elim (Bool-cases (M.is_name n && M.is_value v)) [
      | inr bad ↦ let none_left = copy_headers-none skip fields in absurd (ground arith)
      | inl good ↦ added kept (
          copy_headers-In skip fields (M.append n v h) h' e (λ f k. lower f (inr k))
            (rw (good, kept) at q) m)
    ]
  ]
    where
      later :
          In e (M.entries h) ⊎ (In e fields × (skip e.0 ≡ false))
          → In e (M.entries h) ⊎ (In e ((n, v) ∷ fields) × (skip e.0 ≡ false))
      later (inl k) = inl k
      later (inr (k, s)) = inr (inr k, s)

      new_one :
          skip n ≡ false
          → (e ≡ (to_ascii_lowercase n, v)) ⊎ In e (M.entries h)
          → In e (M.entries h) ⊎ (In e ((n, v) ∷ fields) × (skip e.0 ≡ false))
      new_one kept (inr k) = inl k
      new_one kept (inl p) =
          let same : e ≡ (n, v) = p ∙ ap (λ x. (x, v)) (lower (n, v) (inl refl)) in
          inr (inl same, ap (λ f. skip f.0) same ∙ kept)

      added :
          skip n ≡ false
          → In e (M.entries (M.append n v h)) ⊎ (In e fields × (skip e.0 ≡ false))
          → In e (M.entries h) ⊎ (In e ((n, v) ∷ fields) × (skip e.0 ≡ false))
      added kept (inl k) = new_one kept ((laws.entries_append n v h e).0 k)
      added kept (inr k) = later (inr k)

  -- The copying loop keeps what the map has, and adds what is not left out.
  pub copy_headers-adds :
      (skip : Text → Bool) (fields : List (Text × Text)) (h h' : M.H) (e : Text × Text)
      → ((f : Text × Text) → In f fields → to_ascii_lowercase f.0 ≡ f.0)
      → copy_headers M skip fields (some h) ≡ some h'
      → In e (M.entries h) ⊎ (In e fields × (skip e.0 ≡ false))
      → In e (M.entries h')
  unfolding copy_headers header
  copy_headers-adds skip [] h h' e lower q m =
      let same : h ≡ h' = ground arith in
      elim m [ inl k ↦ subst (λ x. In e (M.entries x)) same k | inr (k, s) ↦ absurd k ]
  copy_headers-adds skip ((n, v) ∷ fields) h h' e lower q m = elim (Bool-cases (skip n)) [
    | inl left_out ↦
        copy_headers-adds skip fields h h' e (λ f k. lower f (inr k)) (rw left_out at q)
          (elim m [
            | inl k ↦ inl k
            | inr (inl p, s) ↦ let kept = ap (λ f. skip f.0) (sym p) ∙ s in absurd cc
            | inr (inr k, s) ↦ inr (k, s)
          ])
    | inr kept ↦ elim (Bool-cases (M.is_name n && M.is_value v)) [
      | inr bad ↦ let none_left = copy_headers-none skip fields in absurd (ground arith)
      | inl good ↦
          copy_headers-adds skip fields (M.append n v h) h' e (λ f k. lower f (inr k))
            (rw (good, kept) at q)
            (elim m [
              | inl k ↦ inl ((laws.entries_append n v h e).1 (inr k))
              | inr (inl p, s) ↦
                  let same = p ∙ ap (λ x. (x, v)) (sym (lower (n, v) (inl refl))) in
                  inl ((laws.entries_append n v h e).1 (inl same))
              | inr (inr k, s) ↦ inr (k, s)
            ])
    ]
  ]

  module _ (parse_uri : Text → Option Uri) (ip_to_string : IpAddr → Text) where
    -- For a header map with these laws, the fields of the response that an attempt hands back are
    -- exactly those of the upstream's response whose name is not one of connection, keep-alive,
    -- proxy-authenticate, proxy-authorization, te, trailers, transfer-encoding and upgrade; for an
    -- upgrade, connection and upgrade are let through as well.
    pub build_client_response-headers :
        (a : ProxyAttempt M parse_uri ip_to_string) (now : ℕ)
        (r : UpstreamResponse M parse_uri ip_to_string) (r' : Response M parse_uri ip_to_string)
        → build_client_response M parse_uri ip_to_string a now r ≡ ok r'
        → (e : Text × Text)
        → In e (M.entries r'.headers)
          ↔ (In e (M.entries r.headers) × (¬ In e.0 (hop_by_hop a.preserve_upgrade)))
    unfolding build_client_response
    build_client_response-headers a now r r' q e =
        elim (Option-cases
          (copy_headers M (is_dropped a.preserve_upgrade) (M.entries r.headers) (some M.empty))) [
            | inl failed ↦ absurd (ground arith)
            | inr (h, copied) ↦
                let same : h ≡ r'.headers = ground arith in
                let lower = laws.entries_lower r.headers in
                let (kept, dropped) = is_dropped_iff a.preserve_upgrade e.0 in
                (
                  λ m.
                      elim (copy_headers-In (is_dropped a.preserve_upgrade) (M.entries r.headers)
                        M.empty h e lower copied (subst (λ x. In e (M.entries x)) (sym same) m)) [
                          | inl k ↦ absurd (laws.entries_empty e k)
                          | inr (k, s) ↦ (k, kept s)
                        ],
                  λ (k, s).
                      subst (λ x. In e (M.entries x)) same
                        (copy_headers-adds (is_dropped a.preserve_upgrade) (M.entries r.headers)
                          M.empty h e lower copied (inr (k, dropped s))),
                )
          ]
