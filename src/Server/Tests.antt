-- ===== src/Server/Tests.antt =====
-- A server behind a trusted proxy: a runtime, a connection with a header, two reloads and a run of
-- the accept loop.
use oxi_gate.Base.{
  ℕ, ◌≤◌, ◌<◌, ◌≡◌, ◌≢◌, ◌⊎◌, refl, inl, Text, codes, str_eq, split_once, parse_uint, Bool, true,
  false, Option, none, some, List, [], ◌∷◌, ◌++◌, ok, err,
}
use oxi_gate.Acl.{Acl, is_allowed, parse_cidr, contains}
use oxi_gate.Config.{Config, AclConfig}
use oxi_gate.Proxy.Handler
use oxi_gate.Acl.Listed.{IsListed}
use oxi_gate.Server.Denied.{IsUntouched, call-denied}
use oxi_gate.Server.Service.{call}
use oxi_gate.Config.Load.{unreadable, connect_timeout}
use oxi_gate.Net.{SocketAddr}
use oxi_gate.ProxyProtocol.Detect.{fill}
use oxi_gate.ProxyProtocol.Header.{find_crlf, is_utf8, parse_v1_line, parse_v1}
use oxi_gate.ProxyProtocol.Stream.{Stream, chunk, read, new}
use oxi_gate.Samples.{
  base_cfg, whole, known_uri, known_ips, quad, field_list, no_text, one_digit, stopped, fails_once,
  two_upstreams, get_request,
}
use oxi_gate.Proxy.Client.{ClientOptions, client_of}
use oxi_gate.Server.{
  BuildError, bad_tls, panics, no_native_roots, too_many_permits, max_permits, Disk, Runtime,
  runtime_of, Cells, cells_of, acceptor, from_config, start,
}
use oxi_gate.Server.Build.{IsBuilt, from_config-validated}
use oxi_gate.Server.Connection.{Served, served, serve, handle_one_connection}
use oxi_gate.Server.Reload.{Attempt, reloads, IsCoherent, last_good, start-reloads}
use oxi_gate.Server.Trust.{IsDirect, IsFromHeader, handle_one_connection-client_addr}
use oxi_gate.Tls.{Pem, no_file, ServerConfig}
use oxi_gate.Validator.{validate}

-- A file holds one certificate and one key, which are its text.
abbrev plain_pem : Pem
plain_pem = record {
  File = Text;
  Cert = Text;
  Key = Text;
  certs = λ file. some file ∷ [];
  pkcs8_private_keys = λ file. some file ∷ [];
  rsa_private_keys = λ file. [];
  fits = λ chain key. true;
}

abbrev empty_disk : Disk plain_pem
empty_disk = record { open_file = λ path. none; has_native_roots = true }

abbrev no_roots : Disk plain_pem
no_roots = record { open_file = λ path. none; has_native_roots = false }

abbrev disk_with : Text → Disk plain_pem
disk_with text = record { open_file = λ path. some text; has_native_roots = true }

abbrev proxied : Config ℕ
proxied = record base_cfg {
  proxy_protocol = true;
  proxy_protocol_trusted_cidrs = codes "10.0.0.0/8" ∷ [];
}

abbrev trusted_acl : Acl
trusted_acl = record { allow = record { addr = quad 10 0 0 0; prefix = 8 } ∷ []; deny = [] }

abbrev options_of : Config ℕ → ClientOptions
options_of config = record {
  connect_timeout = connect_timeout config;
  pool_max_idle_per_host = config.pool_max_idle_per_host;
  http2 = config.upstream_http2;
}

abbrev rt : Runtime whole known_ips plain_pem
rt =
    runtime_of whole known_ips plain_pem proxied (client_of (options_of proxied)) none none
      (some trusted_acl)

built : from_config whole known_ips plain_pem empty_disk proxied ≡ ok rt
unfolding from_config split_once parse_uint str_eq
built = refl

-- The key's file does not open.
abbrev encrypted : Config ℕ
encrypted = record proxied {
  tls = some (record { cert = codes "cert.pem"; key = codes "key.pem" });
}

no_certificate : from_config whole known_ips plain_pem empty_disk encrypted ≡ err (bad_tls no_file)
unfolding from_config split_once parse_uint str_eq
no_certificate = refl

abbrev peer : SocketAddr
peer = record { ip = quad 10 0 0 7; port = 4000 }

abbrev with_header : Stream
with_header =
    chunk (codes "PROXY TCP4 10.0.0.0")
    ∷ chunk (codes " 0.0.0.0 1000 443" ++ 13 ∷ 10 ∷ codes "GET /")
    ∷ []

abbrev service : Served whole field_list known_uri no_text one_digit known_ips plain_pem
service =
    serve whole field_list known_uri no_text one_digit known_ips plain_pem rt
      (record { ip = quad 10 0 0 0; port = 1000 }) (new (chunk (codes "GET /") ∷ []) [])

served_from_header :
    handle_one_connection whole field_list known_uri no_text one_digit known_ips plain_pem rt peer
      with_header
    ≡ some (served service)
unfolding handle_one_connection runtime_of fill read find_crlf is_utf8 parse_v1_line parse_v1 str_eq
    parse_uint is_allowed
served_from_header = refl

handle_one_connection-client_addr_example :
    ((true ≡ false)
      × IsDirect whole field_list known_uri no_text one_digit known_ips plain_pem peer with_header
          service)
    ⊎ ((true ≡ true)
        × ((proxied.proxy_protocol_trusted_cidrs ≡ [])
            ⊎ IsListed known_ips proxied.proxy_protocol_trusted_cidrs peer.ip)
        × (IsDirect whole field_list known_uri no_text one_digit known_ips plain_pem peer
              with_header service
            ⊎ IsFromHeader whole field_list known_uri no_text one_digit known_ips plain_pem
                with_header service))
handle_one_connection-client_addr_example =
    handle_one_connection-client_addr whole field_list known_uri no_text one_digit known_ips
      plain_pem empty_disk proxied rt peer with_header service built served_from_header

abbrev every_file : Text → Bool
every_file path = true

valid : validate whole known_uri known_ips every_file proxied ≡ ok tt
unfolding validate split_once parse_uint str_eq
valid = refl

-- Above what a semaphore takes.
too_many :
    from_config whole known_ips plain_pem empty_disk
      (record proxied { max_connections = 2_305_843_009_213_693_952 })
    ≡ err (panics too_many_permits)
unfolding from_config split_once parse_uint str_eq
too_many = refl

from_config-validated_example :
    ((empty_disk.has_native_roots ≡ false)
      × (from_config whole known_ips plain_pem empty_disk proxied ≡ err (panics no_native_roots)))
    ⊎ ((empty_disk.has_native_roots ≡ true)
        × (((e : BuildError) × (acceptor whole known_ips plain_pem empty_disk none ≡ err e)
              × (from_config whole known_ips plain_pem empty_disk proxied ≡ err e))
            ⊎ ((tls : Option (ServerConfig plain_pem)) × (acceptor whole known_ips plain_pem
                    empty_disk none
                  ≡ ok tls)
                × (((max_permits < proxied.max_connections)
                      × (from_config whole known_ips plain_pem empty_disk proxied
                          ≡ err (panics too_many_permits)))
                    ⊎ ((proxied.max_connections ≤ max_permits)
                        × IsBuilt whole known_ips plain_pem empty_disk proxied tls)))))
from_config-validated_example =
    from_config-validated whole known_ips plain_pem known_uri every_file empty_disk proxied valid

abbrev with_cert : Text → Runtime whole known_ips plain_pem
with_cert text =
    runtime_of whole known_ips plain_pem encrypted (client_of (options_of encrypted))
      (some (record {
        cert_chain = text ∷ [];
        key = text;
        alpn_protocols = codes "h2" ∷ codes "http/1.1" ∷ [];
      }))
      none (some trusted_acl)

abbrev started : Cells whole known_ips plain_pem
started = cells_of whole known_ips plain_pem encrypted (with_cert (codes "old"))

starts : start whole known_ips plain_pem (disk_with (codes "old")) encrypted ≡ ok started
unfolding start split_once parse_uint str_eq
starts = refl

-- A file that does not read, a renewed certificate, and one that is no longer there.
abbrev attempts : List (Attempt whole known_ips plain_pem)
attempts =
    (empty_disk, err unreadable)
    ∷ (disk_with (codes "new"), ok encrypted)
    ∷ (empty_disk, ok encrypted)
    ∷ []

renewed : (reloads whole known_ips plain_pem attempts started).runtime ≡ with_cert (codes "new")
unfolding reloads split_once parse_uint str_eq
renewed = refl

-- A panic ends the task, and the certificate that comes later is not read.
not_renewed :
    reloads whole known_ips plain_pem ((no_roots, ok encrypted) ∷ attempts) started ≡ started
unfolding reloads
not_renewed = refl

start-reloads_example :
    IsCoherent whole known_ips plain_pem
      (last_good whole known_ips plain_pem attempts (disk_with (codes "old"), encrypted))
      (reloads whole known_ips plain_pem attempts started)
start-reloads_example =
    start-reloads whole known_ips plain_pem (disk_with (codes "old")) encrypted started attempts
      starts

-- The same server with a list that denies the address of the header.
abbrev deny_ten : AclConfig
deny_ten = record { allow = []; deny = codes "10.0.0.0/8" ∷ [] }

abbrev denying : Config ℕ
denying = record proxied { acl = some deny_ten }

abbrev denying_rt : Runtime whole known_ips plain_pem
denying_rt =
    runtime_of whole known_ips plain_pem denying (client_of (options_of denying)) none none
      (some trusted_acl)

abbrev denying_service : Served whole field_list known_uri no_text one_digit known_ips plain_pem
denying_service =
    serve whole field_list known_uri no_text one_digit known_ips plain_pem denying_rt
      (record { ip = quad 10 0 0 0; port = 1000 }) (new (chunk (codes "GET /") ∷ []) [])

denying_valid : validate whole known_uri known_ips every_file denying ≡ ok tt
unfolding validate split_once parse_uint str_eq
denying_valid = refl

denying_built : from_config whole known_ips plain_pem empty_disk denying ≡ ok denying_rt
unfolding from_config split_once parse_uint str_eq
denying_built = refl

denying_served :
    handle_one_connection whole field_list known_uri no_text one_digit known_ips plain_pem
      denying_rt peer with_header
    ≡ some (served denying_service)
unfolding handle_one_connection runtime_of fill read find_crlf is_utf8 parse_v1_line parse_v1 str_eq
    parse_uint is_allowed
denying_served = refl

client-IsListed : IsListed known_ips (codes "10.0.0.0/8" ∷ []) (quad 10 0 0 0)
unfolding parse_cidr contains split_once parse_uint str_eq
client-IsListed =
    (codes "10.0.0.0/8", inl refl, (record { addr = quad 10 0 0 0; prefix = 8 }, refl, refl))

service-IsListed : IsListed known_ips deny_ten.deny denying_service.client_addr.ip
unfolding serve
service-IsListed = client-IsListed

abbrev idle : Handler.State whole field_list known_uri no_text one_digit ℕ stopped fails_once
idle = record {
  lbs = two_upstreams ∷ [];
  rate_limiter = none;
  request_limit = some 1;
  ticks = [];
  world = 0;
}

call-denied_example :
    (((idle.request_limit ≢ some 0)
        × ((call whole field_list known_uri no_text one_digit known_ips plain_pem ℕ stopped
              fails_once denying_service get_request idle).1.status
            ≡ 403))
      ⊎ ((idle.request_limit ≡ some 0)
          × ((call whole field_list known_uri no_text one_digit known_ips plain_pem ℕ stopped
                fails_once denying_service get_request idle).1.status
              ≡ 503)))
    × IsUntouched whole field_list known_uri no_text one_digit known_ips plain_pem ℕ stopped
        fails_once idle
        (call whole field_list known_uri no_text one_digit known_ips plain_pem ℕ stopped fails_once
          denying_service get_request idle).0
call-denied_example =
    call-denied whole field_list known_uri no_text one_digit known_ips plain_pem ℕ stopped
      fails_once every_file empty_disk denying deny_ten denying_rt peer with_header denying_service
      get_request idle denying_valid denying_built refl denying_served service-IsListed
