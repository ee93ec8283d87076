-- ===== src/Proxy/Loop/Tests.antt =====
-- The retry loop with two upstreams, the first of which fails, and the theorems at it.
use oxi_gate.Base.{ℕ, ◌≤◌, ◌≡◌, refl, codes, str_eq, none, some, [], ◌∷◌, length, arith}
use oxi_gate.Lb.{select_excluding, select_sticky}
use oxi_gate.Net.{v4}
use oxi_gate.Proxy.Attempt
use oxi_gate.Proxy.Loop.{
  requests_total, retries_total, connections_inc, connections_dec, request_duration, attempts, Ran,
}
use oxi_gate.Proxy.Loop.Counts.{IsRecorded, attempts-IsRecorded, attempts-keeps}
use oxi_gate.Proxy.Loop.Retries.{IsDistinct, addresses, attempts-addresses}
use oxi_gate.Samples.{
  whole, field_list, known_uri, no_text, one_digit, stopped, fails_once, two_upstreams, context,
  get_request,
}

loop_code : Unit {0}
unfolding attempts select_excluding select_sticky Attempt.attempt_proxy str_eq
loop_code = tt

abbrev run : Ran whole field_list known_uri no_text one_digit ℕ stopped fails_once
run =
    attempts whole field_list known_uri no_text one_digit ℕ stopped fails_once 3 0 context
      get_request [] (v4 1) none [] 0 two_upstreams

retries_second :
    run.ticks
    ≡ connections_inc (codes "http://a")
      ∷ connections_dec (codes "http://a")
      ∷ retries_total
      ∷ connections_inc (codes "http://b")
      ∷ connections_dec (codes "http://b")
      ∷ requests_total (codes "GET") 200 (some (codes "http://b"))
      ∷ request_duration (codes "http://b")
      ∷ []
unfolding loop_code
retries_second = refl

attempts-addresses_example : IsDistinct (addresses run.ticks) × (length (addresses run.ticks) ≤ 3)
attempts-addresses_example =
    attempts-addresses whole field_list known_uri no_text one_digit ℕ stopped fails_once context
      get_request [] (v4 1) none 3 0 two_upstreams

attempts-IsRecorded_example :
    IsRecorded whole field_list known_uri no_text one_digit ℕ stopped fails_once context get_request
      []
      (v4 1)
      none
      run.ticks
      run.response
attempts-IsRecorded_example =
    attempts-IsRecorded whole field_list known_uri no_text one_digit ℕ stopped fails_once context
      get_request [] (v4 1) none 3 0 two_upstreams

attempts-keeps_example : run.lb.upstreams ≡ two_upstreams.upstreams
attempts-keeps_example =
    attempts-keeps whole field_list known_uri no_text one_digit ℕ stopped fails_once context
      get_request [] (v4 1) none 3 0 two_upstreams (λ world lb r. refl)
      (omega arith, (omega arith, tt))
