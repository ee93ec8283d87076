-- ===== src/Tls/Tests.antt =====
-- A certificate file and two key files, one of them with a key in the old form only; the contents of
-- a file are the sections that it holds.
use oxi_gate.Base.{
  ℕ, ◌≡◌, refl, ◌↔◌, Text, codes, str_eq, Bool, true, Option, none, some, List, [], ◌∷◌,
  if◌then◌else◌, ok, err,
}
use oxi_gate.Tls.{Pem, ServerConfig, load_server_config, rsa_key, private_key, no_key}
use oxi_gate.Tls.Keys.{IsLoaded, load_server_config_iff}

data Section : Type 0 where
  certificate pkcs8 rsa : ℕ → Section
  broken : Section

abbrev cert_sections : List Section → List (Option ℕ)
cert_sections [] = []
cert_sections (certificate n ∷ rest) = some n ∷ cert_sections rest
cert_sections (broken ∷ rest) = none ∷ cert_sections rest
cert_sections (_ ∷ rest) = cert_sections rest

abbrev pkcs8_sections : List Section → List (Option ℕ)
pkcs8_sections [] = []
pkcs8_sections (pkcs8 n ∷ rest) = some n ∷ pkcs8_sections rest
pkcs8_sections (_ ∷ rest) = pkcs8_sections rest

abbrev rsa_sections : List Section → List (Option ℕ)
rsa_sections [] = []
rsa_sections (rsa n ∷ rest) = some n ∷ rsa_sections rest
rsa_sections (_ ∷ rest) = rsa_sections rest

abbrev files : Text → Option (List Section)
files path =
    if str_eq path (codes "cert.pem")
    then some (certificate 1 ∷ certificate 2 ∷ [])
    else if str_eq path (codes "old.pem")
    then some (rsa 5 ∷ rsa 6 ∷ [])
    else if str_eq path (codes "both.pem")
    then some (rsa 5 ∷ pkcs8 7 ∷ [])
    else none

abbrev every_key : List ℕ → ℕ → Bool
every_key chain key = true

abbrev pem : Pem
pem = record {
  File = List Section;
  Cert = ℕ;
  Key = ℕ;
  certs = cert_sections;
  pkcs8_private_keys = pkcs8_sections;
  rsa_private_keys = rsa_sections;
  fits = every_key;
}

abbrev loaded : ServerConfig pem
loaded = record {
  cert_chain = 1 ∷ 2 ∷ [];
  key = 5;
  alpn_protocols = codes "h2" ∷ codes "http/1.1" ∷ [];
}

old_key : load_server_config pem files (codes "cert.pem") (codes "old.pem") ≡ ok loaded
unfolding load_server_config rsa_key str_eq
old_key = refl

new_key_first :
    load_server_config pem files (codes "cert.pem") (codes "both.pem")
    ≡ ok (record loaded { key = 7 })
unfolding load_server_config private_key str_eq
new_key_first = refl

no_key_there : load_server_config pem files (codes "cert.pem") (codes "cert.pem") ≡ err no_key
unfolding load_server_config rsa_key str_eq
no_key_there = refl

load_server_config_iff_example :
    (load_server_config pem files (codes "cert.pem") (codes "old.pem") ≡ ok loaded)
    ↔ IsLoaded pem files (codes "cert.pem") (codes "old.pem") loaded
load_server_config_iff_example =
    load_server_config_iff pem files (codes "cert.pem") (codes "old.pem") loaded
