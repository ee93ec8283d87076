-- ===== src/Proxy/Handler/Tests.antt =====
-- A request that is retried and answered, and the theorem at it.
use oxi_gate.Base.{
  Text, codes, arith, ◌++◌, ◌≡◌, split, split_once, trim, to_ascii_lowercase, str_eq, true, All, ℕ,
  refl, none, some, [], ◌∷◌,
}
use oxi_gate.Config.{StickyConfig}
use oxi_gate.Lb.{select_excluding, select_sticky, Handle}
use oxi_gate.Lb.Filter.{IsCandidate}
use oxi_gate.Proxy.Handler.Sticky.{IsToken, select_sticky-extract_cookie}
use oxi_gate.Proxy.Headers.{cookie_part, extract_cookie}
use oxi_gate.Proxy.Loop.{cookie_text}
use oxi_gate.Net.{v4}
use oxi_gate.Proxy.Attempt
use oxi_gate.Proxy.Handler.{State, proxy_request}
use oxi_gate.Proxy.Handler.Answers.{IsAnswered}
use oxi_gate.Proxy.Handler.Gates.{proxy_request-IsAnswered}
use oxi_gate.Samples.{
  whole, field_list, known_uri, no_text, one_digit, stopped, fails_once, two_upstreams, context,
  get_request,
}

abbrev before : State whole field_list known_uri no_text one_digit ℕ stopped fails_once
before = record {
  lbs = two_upstreams ∷ [];
  rate_limiter = none;
  request_limit = some 1;
  ticks = [];
  world = 0;
}

answers_ok :
    (proxy_request whole field_list known_uri no_text one_digit ℕ stopped fails_once context
      get_request
      (v4 1)
      before).1.status
    ≡ 200
unfolding proxy_request Attempt.attempt_proxy select_excluding select_sticky str_eq
answers_ok = refl

proxy_request-IsAnswered_example :
    IsAnswered whole field_list known_uri no_text one_digit ℕ stopped fails_once context get_request
      (v4 1)
      before
      (proxy_request whole field_list known_uri no_text one_digit ℕ stopped fails_once context
        get_request
        (v4 1)
        before)
proxy_request-IsAnswered_example =
    proxy_request-IsAnswered whole field_list known_uri no_text one_digit ℕ stopped fails_once
      context get_request (v4 1) before

abbrev sticky : StickyConfig
sticky = record { cookie_name = codes "node"; max_age_secs = 9 }

abbrev first_handle : Handle
first_handle = record {
  index = 0;
  runtime = record {
    address = codes "http://a";
    weight = 1;
    healthy = true;
    active_connections = 0;
  };
}

first-IsCandidate : IsCandidate two_upstreams [] first_handle
first-IsCandidate = record { placed = refl; up = refl; fresh = λ m. m }

abbrev sent_back : Text
sent_back = codes "a=1; node=http://a"

abbrev attributes : Text
attributes = codes " Path=/; Max-Age=9; HttpOnly; SameSite=Lax"

pair_kept :
    split_once
      (cookie_text whole field_list known_uri no_text one_digit sticky (codes "http://a"))
      b';'
    ≡ some (codes "node=http://a", attributes)
unfolding split_once
pair_kept = refl

got : field_list.get (codes "cookie") ((codes "cookie", sent_back) ∷ []) ≡ some sent_back
unfolding str_eq to_ascii_lowercase
got = refl

parts : split sent_back b';' ≡ (codes "a=1" ∷ []) ++ codes " node=http://a" ∷ []
unfolding split
parts = refl

trimmed : trim (codes " node=http://a") ≡ codes "node=http://a"
unfolding trim
trimmed = refl

name-IsToken : IsToken (codes "node")
unfolding trim
name-IsToken = (ground arith, refl)

address-IsToken : IsToken (codes "http://a")
unfolding trim
address-IsToken = (ground arith, refl)

other_first : All (λ p. cookie_part (codes "node") p ≡ none) (codes "a=1" ∷ [])
unfolding cookie_part
other_first = (refl, tt)

select_sticky-extract_cookie_example :
    (g : Handle) × (select_sticky two_upstreams
        (extract_cookie field_list ((codes "cookie", sent_back) ∷ []) (codes "node"))
      ≡ (two_upstreams, some g))
    × (g.runtime.address ≡ codes "http://a")
select_sticky-extract_cookie_example =
    select_sticky-extract_cookie whole field_list known_uri no_text one_digit sticky two_upstreams
      first_handle ((codes "cookie", sent_back) ∷ []) sent_back sent_back (codes "node=http://a")
      attributes (codes " node=http://a") (codes "a=1" ∷ []) [] first-IsCandidate name-IsToken
      (ground arith) address-IsToken pair_kept got refl parts trimmed other_first
