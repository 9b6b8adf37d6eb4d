-- ===== src/Tls.antt =====
-- src/tls.rs: the settings that are handed to rustls. What rustls does with them is an argument.
pub mod Ends
use proxypen.Base.{
  ℕ, String, List, [], Bool, true, Option, none, some, if◌then◌else◌, Outcome, err, map_err,
}
use proxypen.Error.{ProxyPenError, tls}
use proxypen.Config.{TestTarget}

-- Who checks the server's certificate: the roots of webpki, or `NoVerify`.
pub data ServerCertVerifier : Type 0 where
  web_roots no_verify : ServerCertVerifier

pub record ClientConfig : Type 0 where
  pub verifier : ServerCertVerifier
  pub alpn_protocols : List (List ℕ)

-- `verify_server_cert`, with the check by the roots; also for the two signatures of a handshake
unfoldable pub verify_server_cert :
    {Cert : Type 0} → (Cert → Bool) → ServerCertVerifier → Cert → Bool
verify_server_cert check web_roots cert = check cert
verify_server_cert check no_verify cert = true

unfoldable pub make_tls_config : Option (List (List ℕ)) → Bool → ClientConfig
make_tls_config alpn insecure = record {
  verifier = (if insecure then no_verify else web_roots);
  alpn_protocols = elim alpn [ none ↦ [] | some alpn_protos ↦ alpn_protos ];
}

-- `ServerName::try_from` and `TlsConnector::connect` of rustls
pub record Connector : Type 0 where
  pub is_server_name : List ℕ → Bool
  pub connect : ClientConfig → List ℕ → Outcome String (Unit {0})

-- The TLS handshake of the HTTP/1.1 and HTTP/2 tests
unfoldable pub handshake :
    Connector → Option (List (List ℕ)) → TestTarget → Outcome ProxyPenError (Unit {0})
unfolding make_tls_config
handshake c alpn t =
    if c.is_server_name t.host
    then map_err tls (c.connect (make_tls_config alpn t.danger_accept_invalid_certs) t.host)
    else err (tls "invalid server name")
