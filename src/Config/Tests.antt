-- ===== src/Config/Tests.antt =====
-- A file with one backend.
use oxi_gate.Base.{
  ℕ, ◌≡◌, refl, inl, Text, codes, str_eq, Option, some, none, Bool, true, [], ◌∷◌, All,
  if◌then◌else◌, ok, err, arith,
}
use oxi_gate.Config.Load.{Document, with_defaults, from_file, unparsable}
use oxi_gate.Config.Minimal.{backends_only, from_file-backends_only}
use oxi_gate.Net.{SocketAddr, v4}
use oxi_gate.Samples.{whole, known_uri, known_ips, backend}
use oxi_gate.Validator.Valid.{IsUpstream}

abbrev anywhere : SocketAddr
anywhere = record { ip = v4 0; port = 8080 }

abbrev only_backend : Document ℕ
only_backend = backends_only anywhere anywhere (backend (codes "http://127.0.0.1:8081") ∷ [])

abbrev one_file : Text → Option Text
one_file path = if str_eq path (codes "config.yaml") then some (codes "listen") else none

abbrev yaml : Text → Option (Document ℕ)
yaml content = some only_backend

abbrev no_yaml : Text → Option (Document ℕ)
no_yaml content = none

abbrev every_file : Text → Bool
every_file path = true

not_yaml :
    from_file whole known_uri known_ips every_file one_file no_yaml (codes "config.yaml")
    ≡ err unparsable
unfolding from_file str_eq
not_yaml = refl

file_read : one_file (codes "config.yaml") ≡ some (codes "listen")
unfolding str_eq
file_read = refl

backend-IsUpstream :
    All
      (IsUpstream whole known_uri known_ips every_file)
      (backend (codes "http://127.0.0.1:8081") ∷ [])
backend-IsUpstream = ((ground arith, (ground arith, (_, refl, (inl refl, ground arith)))), tt)

from_file-backends_only_example :
    from_file whole known_uri known_ips every_file one_file yaml (codes "config.yaml")
    ≡ ok (with_defaults only_backend)
from_file-backends_only_example =
    from_file-backends_only whole known_uri known_ips every_file one_file yaml (codes "config.yaml")
      (codes "listen") anywhere anywhere (backend (codes "http://127.0.0.1:8081") ∷ []) file_read
      refl (ground arith) backend-IsUpstream
