-- ===== src/Tls/Ends.antt =====
-- The handshake of src/http1.rs and src/http2.rs comes back where rustls does.
use proxypen.Base.{
  ℕ, List, Option, Returns, Ensures, Ensures-err, Ensures-if, Returns-Ensures, Ensures-map_err,
}
use proxypen.Error.{tls}
use proxypen.Config.{TestTarget}
use proxypen.Tls.{ClientConfig, Connector, handshake}

pub handshake-Ensures :
    (c : Connector) (alpn : Option (List (List ℕ))) (t : TestTarget)
    → ((cfg : ClientConfig) (host : List ℕ) → Returns (c.connect cfg host))
    → Ensures (λ _. Unit {0}) (handshake c alpn t)
unfolding handshake
handshake-Ensures c alpn t h =
    Ensures-if (c.is_server_name t.host) _ _
      (λ e. Ensures-map_err tls _ (Returns-Ensures _ (h _ t.host))) (λ e. Ensures-err)
