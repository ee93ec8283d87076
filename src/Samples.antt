-- ===== src/Samples.antt =====
-- Inputs that the tests share: a configuration like those of the repository's unit tests, whole
-- numbers in place of `f64`, and parsers that know a few texts.
use oxi_gate.Base.{
  ℕ, ◌+◌, ◌-◌, ◌*◌, Text, codes, str_eq, Bool, true, false, leb, max, ◌==◌, find,
  to_ascii_lowercase, any, ok, if◌then◌else◌, Option, none, some, List, [], ◌∷◌,
}
use oxi_gate.Config.{Config, Upstream, round_robin, least_connections}
use oxi_gate.Http.{Uri}
use oxi_gate.Machine.{Float}
use oxi_gate.Net.{IpAddr, v4}
use oxi_gate.Lb.{LoadBalancer}
use oxi_gate.Proxy.Attempt
use oxi_gate.Proxy.BodyLimit.{data_frame, ready, ended}
use oxi_gate.Proxy.Headers.{HeaderMap}
use oxi_gate.Proxy.Loop

abbrev pub quad : ℕ → ℕ → ℕ → ℕ → IpAddr
quad a b c d = v4 (((a * 256 + b) * 256 + c) * 256 + d)

-- Two of the texts that the standard library's parser reads.
abbrev pub known_ips : Text → Option IpAddr
known_ips s =
    if str_eq s (codes "0.0.0.0")
    then some (quad 0 0 0 0)
    else if str_eq s (codes "10.0.0.0")
    then some (quad 10 0 0 0)
    else none

abbrev pub whole : Float
whole = record {
  F64 = ℕ;
  of_u32 = λ n. n;
  zero_f = 0;
  one_f = 1;
  times = λ a b. a * b;
  minus = λ a b. a - b;
  max_f = λ a b. max a b;
  le = λ a b. leb a b;
  mul_f64 = λ a b. a * b;
}

abbrev pub backend : Text → Upstream
backend a = record { address = a; weight = 1 }

abbrev pub base_cfg : Config ℕ
base_cfg = record {
  listen = record { ip = v4 0; port = 0 };
  metrics_listen = record { ip = v4 0; port = 0 };
  max_concurrency = none;
  upstreams = backend (codes "http://127.0.0.1:8081") ∷ [];
  routes =
      record {
        path_prefix = codes "/api";
        upstreams = backend (codes "http://127.0.0.1:9001") ∷ [];
        load_balancing = some least_connections;
      }
      ∷ record {
        path_prefix = codes "/api/v2";
        upstreams = backend (codes "http://127.0.0.1:9002") ∷ [];
        load_balancing = none;
      }
      ∷ [];
  load_balancing = round_robin;
  health_check = record {
    interval_secs = 5;
    timeout_secs = 2;
    path = codes "/";
    unhealthy_threshold = 3;
    healthy_threshold = 2;
  };
  timeouts = record { connect_secs = 5; request_secs = 30; idle_secs = 60 };
  tls = none;
  retries = 1;
  max_connections = 0;
  sticky = none;
  headers = record { request_set = []; response_set = [] };
  access_log = false;
  rate_limit = none;
  proxy_protocol = false;
  upstream_http2 = false;
  pool_max_idle_per_host = 8;
  max_body_bytes = 1024;
  retry_idempotent_only = true;
  force_retry_with_body = false;
  acl = none;
  security_headers = true;
  admin_token = none;
  proxy_protocol_trusted_cidrs = [];
}

abbrev pub known_uri : Text → Option Uri
known_uri s = elim s [
  | [] ↦ none
  | c ∷ cs ↦
      some
        (record { scheme = some (codes "http"); host = some (codes "127.0.0.1"); port = some 80 })
]

-- Header fields as a list, their names in lower case; every name and value is valid.
abbrev named : Text → Text × Text → Bool
named name (n, v) = str_eq n (to_ascii_lowercase name)

abbrev value_of : Option (Text × Text) → Option Text
value_of none = none
value_of (some (n, v)) = some v

abbrev pub field_list : HeaderMap
field_list = record {
  H = List (Text × Text);
  empty = [];
  entries = λ h. h;
  get = λ name h. value_of (find (named name) h);
  contains_key = λ name h. any (named name) h;
  append = λ name value h. (to_ascii_lowercase name, value) ∷ h;
  insert = λ name value h. (to_ascii_lowercase name, value) ∷ h;
  is_name = λ name. true;
  is_value = λ value. true;
  to_str = λ value. some value;
}

abbrev pub no_text : IpAddr → Text
no_text ip = codes "10.0.0.1"

abbrev pub one_digit : ℕ → Text
one_digit n = (b'0' + n) ∷ []

abbrev pub stopped : ℕ → ℕ
stopped world = 0

abbrev pub good_answer : Attempt.UpstreamResponse field_list known_uri no_text
good_answer = record {
  status = 200;
  version = 11;
  headers = (codes "content-type", codes "text/html") ∷ (codes "connection", codes "close") ∷ [];
  body = (0, ready (ok (data_frame (codes "hello")))) ∷ (0, ended) ∷ [];
}

-- A client whose first request fails; the world counts the requests.
abbrev pub fails_once :
    ℕ
    → LoadBalancer
    → Attempt.ProxyRequest field_list known_uri no_text
    → (ℕ × LoadBalancer) × Option (Attempt.UpstreamResponse field_list known_uri no_text)
fails_once world lb r = ((world + 1, lb), if world == 0 then none else some good_answer)

abbrev pub two_upstreams : LoadBalancer
two_upstreams = record {
  upstreams =
      record { address = codes "http://a"; weight = 1; healthy = true; active_connections = 0 }
      ∷ record { address = codes "http://b"; weight = 1; healthy = true; active_connections = 0 }
      ∷ [];
  algorithm = round_robin;
  rr_counter = 0;
}

abbrev pub context : Loop.ProxyContext whole field_list known_uri no_text one_digit
context = record {
  router = record { routes = []; default = some 0 };
  retries = 2;
  sticky = some (record { cookie_name = codes "node"; max_age_secs = 9 });
  headers = record { request_set = []; response_set = [] };
  max_body_bytes = 10;
  retry_idempotent_only = true;
  force_retry_with_body = false;
  acl = none;
  security_headers = false;
  client_is_tls = true;
  idle_timeout = 100;
}

abbrev pub get_request : Loop.Request whole field_list known_uri no_text one_digit
get_request = record {
  method = codes "GET";
  path = codes "/x";
  query = none;
  version = 11;
  headers = (codes "host", codes "me") ∷ (codes "upgrade-insecure-requests", codes "1") ∷ [];
  body = (0, ended) ∷ [];
}
