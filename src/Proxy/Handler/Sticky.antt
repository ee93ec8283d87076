-- ===== src/Proxy/Handler/Sticky.antt =====
-- The sticky cookie of src/proxy/handler.rs and src/lb/mod.rs, from the `Set-Cookie` of a response to
-- the upstream that a later request is given.
use oxi_gate.Base.{
  ℕ, ◌≡◌, ◌≢◌, refl, sym, ◌∙◌, ap, subst, inl, inr, Text, codes, str_eq_refl, split, split_once,
  trim, false, ◌==◌, Option, none, some, List, [], ◌∷◌, ◌++◌, All, All-append, arith,
}
use oxi_gate.Config.{StickyConfig}
use oxi_gate.Http.{Uri}
use oxi_gate.Lb.{LoadBalancer, Handle, select_sticky}
use oxi_gate.Lb.Filter.{IsCandidate}
use oxi_gate.Lb.Select.{select_sticky_lem}
use oxi_gate.Machine.{Float}
use oxi_gate.Net.{IpAddr}
use oxi_gate.Proxy.Headers.{HeaderMap, and_then, cookie_part, first_cookie, extract_cookie}
use oxi_gate.Proxy.Loop.{cookie_text}
use mathlib.Core.List.{append_assoc}

-- No such byte in the text.
abbrev pub IsFreeOf : ℕ → Text → Type 0
IsFreeOf c s = All (λ x. x ≢ c) s

split_once-first : (c : ℕ) (s r : Text) → IsFreeOf c s → split_once (s ++ c ∷ r) c ≡ some (s, r)
unfolding split_once
split_once-first c [] r h = ground arith
split_once-first c (x ∷ s) r (other, h) =
    let differs : (x == c) ≡ false = ground arith in rw (split_once-first c s r h, differs) refl

first_cookie-part :
    (name value : Text) (before after : List Text) (part : Text)
    → All (λ p. cookie_part name p ≡ none) before
    → cookie_part name part ≡ some value
    → first_cookie name (before ++ part ∷ after) ≡ some value
unfolding first_cookie
first_cookie-part name value [] after part h e =
    subst (λ o. elim o [ some v ↦ some v | none ↦ first_cookie name after ] ≡ some value) (sym e)
      refl
first_cookie-part name value (p ∷ before) after part (q, h) e =
    subst
      (λ o.
        elim o [ some v ↦ some v | none ↦ first_cookie name (before ++ part ∷ after) ] ≡ some value)
      (sym q) (first_cookie-part name value before after part h e)

-- A cookie's name or value as it can stand in the header: no separator, no space at its ends.
abbrev pub IsToken : Text → Type 0
IsToken s = IsFreeOf b';' s × (trim s ≡ s)

cookie_part-pair :
    (name address part : Text)
    → IsFreeOf b'=' name
    → trim name ≡ name
    → trim address ≡ address
    → trim part ≡ name ++ b'=' ∷ address
    → cookie_part name part ≡ some address
unfolding cookie_part
cookie_part-pair name address part no_equals name_trim address_trim pair =
    rw
      (
        pair,
        split_once-first b'=' name address no_equals,
        cookie_part,
        name_trim,
        str_eq_refl name,
        address_trim,
      )
      refl

pair-IsFreeOf :
    (name address : Text)
    → IsFreeOf b';' name
    → IsFreeOf b';' address
    → IsFreeOf b';' (name ++ b'=' ∷ address)
pair-IsFreeOf name address h k =
    All-append (λ x. x ≢ b';') name (b'=' ∷ address) h (ground arith, k)

module _ (F : Float) (M : HeaderMap) (parse_uri : Text → Option Uri) (ip_to_string : IpAddr → Text)
    (decimal : ℕ → Text) where
  kept_pair :
      (sticky : StickyConfig) (address pair attributes : Text)
      → IsFreeOf b';' sticky.cookie_name
      → IsFreeOf b';' address
      → split_once (cookie_text F M parse_uri ip_to_string decimal sticky address) b';'
        ≡ some (pair, attributes)
      → pair ≡ sticky.cookie_name ++ b'=' ∷ address
  kept_pair sticky address pair attributes h k e =
      let name_value = sticky.cookie_name ++ b'=' ∷ address in
      let age = decimal sticky.max_age_secs in
      let flags = codes "; HttpOnly; SameSite=Lax" in
      let path = codes " Path=/; Max-Age=" in
      let joined =
        append_assoc (name_value ++ b';' ∷ path) age flags
        ∙ append_assoc name_value (b';' ∷ path) (age ++ flags) in
      let found =
        split_once-first b';' name_value (path ++ (age ++ flags))
          (pair-IsFreeOf sticky.cookie_name address h k) in
      let kept = sym (ap (λ t. split_once t b';') joined) ∙ e in cc

  extracted :
      (headers : M.H) (v header name address : Text)
      → M.get (codes "cookie") headers ≡ some v
      → M.to_str v ≡ some header
      → first_cookie name (split header b';') ≡ some address
      → extract_cookie M headers name ≡ some address
  unfolding extract_cookie
  extracted headers v header name address got read found =
      ap (λ o. and_then (and_then o M.to_str) (λ cookie. first_cookie name (split cookie b';'))) got
      ∙ ap (λ o. and_then o (λ cookie. first_cookie name (split cookie b';'))) read
      ∙ found

  again :
      (lb : LoadBalancer) (h : Handle)
      → IsCandidate lb [] h
      → (g : Handle) × (select_sticky lb (some h.runtime.address) ≡ (lb, some g))
        × (g.runtime.address ≡ h.runtime.address)
  again lb h up = elim (select_sticky_lem lb h.runtime.address) [
    | inl (g, chosen, candidate, same) ↦ (g, chosen, same)
    | inr (missed, none_there) ↦ absurd (none_there h up refl)
  ]

  -- A client that keeps what stands before the first semicolon of the `Set-Cookie` that the handler
  -- made for an upstream, and sends it back among other cookies of which none before it has its
  -- name, is given an upstream of that address again as long as that one is healthy, and the
  -- balancer's turn does not move; the cookie's name and the address hold no semicolon, have no
  -- space at their ends, and the name has no equals sign.
  pub select_sticky-extract_cookie :
      (sticky : StickyConfig) (lb : LoadBalancer) (h : Handle) (headers : M.H)
      (v header pair attributes part : Text) (before after : List Text)
      → IsCandidate lb [] h
      → IsToken sticky.cookie_name
      → IsFreeOf b'=' sticky.cookie_name
      → IsToken h.runtime.address
      → split_once (cookie_text F M parse_uri ip_to_string decimal sticky h.runtime.address) b';'
        ≡ some (pair, attributes)
      → M.get (codes "cookie") headers ≡ some v
      → M.to_str v ≡ some header
      → split header b';' ≡ before ++ part ∷ after
      → trim part ≡ pair
      → All (λ p. cookie_part sticky.cookie_name p ≡ none) before
      → (g : Handle) × (select_sticky lb (extract_cookie M headers sticky.cookie_name)
          ≡ (lb, some g))
        × (g.runtime.address ≡ h.runtime.address)
  select_sticky-extract_cookie sticky lb h headers v header pair attributes part before after up
        name no_equals address kept got read parts sent others =
      let whole = kept_pair sticky h.runtime.address pair attributes name.0 address.0 kept in
      let here =
        cookie_part-pair sticky.cookie_name h.runtime.address part no_equals name.1 address.1
          (sent ∙ whole) in
      let found =
        first_cookie-part sticky.cookie_name h.runtime.address before after part others here in
      let value =
        extracted headers v header sticky.cookie_name h.runtime.address got read
          (ap (first_cookie sticky.cookie_name) parts ∙ found) in
      rw value (again lb h up)
