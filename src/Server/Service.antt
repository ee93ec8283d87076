-- ===== src/Server/Service.antt =====
-- `ProxySvc::call` of src/main.rs: the requests of a connection are handled with the connection's
-- context and client address.
use oxi_gate.Base.{ℕ, Text, Option}
use oxi_gate.Http.{Uri}
use oxi_gate.Lb.{LoadBalancer}
use oxi_gate.Machine.{Float}
use oxi_gate.Net.{IpAddr}
use oxi_gate.Proxy.Attempt
use oxi_gate.Proxy.Handler
use oxi_gate.Proxy.Headers.{HeaderMap}
use oxi_gate.Server.Connection.{Served}
use oxi_gate.Tls.{Pem}

module _ (F : Float) (M : HeaderMap) (parse_uri : Text → Option Uri) (ip_to_string : IpAddr → Text)
    (decimal : ℕ → Text) (parse_ip : Text → Option IpAddr) (P : Pem) (World : Type 0)
    (clock : World → ℕ)
    (send : World
      → LoadBalancer
      → Attempt.ProxyRequest M parse_uri ip_to_string
      → (World × LoadBalancer) × Option (Attempt.UpstreamResponse M parse_uri ip_to_string)) where
  unfoldable pub call :
      Served F M parse_uri ip_to_string decimal parse_ip P
      → Handler.Request F M parse_uri ip_to_string decimal World clock send
      → Handler.State F M parse_uri ip_to_string decimal World clock send
      → Handler.State F M parse_uri ip_to_string decimal World clock send
        × Handler.Response F M parse_uri ip_to_string decimal World clock send
  unfolding Handler.proxy_request
  call svc req s =
      Handler.proxy_request F M parse_uri ip_to_string decimal World clock send svc.ctx req
        svc.client_addr.ip s
