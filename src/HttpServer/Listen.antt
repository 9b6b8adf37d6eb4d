-- ===== src/HttpServer/Listen.antt =====
-- src/http_server.rs: the listeners of TLS and of QUIC. A task's result is only logged.
pub mod Alpn
mod Runs
use proxypen.Base.{
  ℕ, List, [], ◌∷◌, map, Option, codes, String, Outcome, ok, err, panic, stuck, Bool, ◌>>=◌, ◌>>◌,
}
use proxypen.Error.{IoError}
use proxypen.Listener.{listen}
use proxypen.Stream.Conn.{Conn}
use proxypen.HttpServer.{
  Client, Sent, Stream3, Served, over_http1, over_http2, served_by, serve_http1, serve_http2,
  serve_http3_conn, make_server_tls_config,
}

-- The requests of a connection over HTTP/2
pub record Requests2 : Type 0 where
  pub handshake : Outcome String (Unit {0})
  pub incoming : List (Outcome String Bool)

-- A connection to the TLS server: the handshake with the protocol that it settles, and what the connection gives to a
-- task of either protocol
pub record TlsClient : Type 0 where
  pub accept : Outcome String (Option (List ℕ))
  pub http1 : Client
  pub http2 : Requests2

-- What a task does with its connection
pub data TlsSession : Type 0 where
  refused : TlsSession
  spoke_http1 : Outcome IoError (Unit {0}) × Conn → TlsSession
  spoke_http2 : Outcome String (List (List Sent)) → TlsSession

speak : List ℕ → TlsClient → Served → TlsSession
speak body c over_http1 = spoke_http1 (serve_http1 body c.http1.read c.http1.shutdown c.http1.conn)
speak body c over_http2 = spoke_http2 (serve_http2 body c.http2.handshake c.http2.incoming)

unfoldable pub tls_session : List ℕ → TlsClient → TlsSession
unfolding speak
tls_session body c = elim c.accept [
  | ok protocol ↦ speak body c (served_by protocol)
  | err e ↦ refused
  | panic ↦ refused
  | stuck ↦ refused
]

-- What `run_tls_server` offers
abbrev pub tls_alpn : List (List ℕ)
tls_alpn = codes "h2" ∷ codes "http/1.1" ∷ []

-- An error of the configuration comes before the listener; the loop ends by the listener's error.
unfoldable pub run_tls_server :
    List ℕ
    → Outcome String (Unit {0})
    → Outcome IoError (Unit {0})
    → List (Outcome IoError TlsClient)
    → Outcome String (List TlsSession × Outcome IoError (Unit {0}))
unfolding tls_session
run_tls_server body single_cert bind incoming = do
  config ← make_server_tls_config single_cert tls_alpn
  let (clients, end) = listen bind incoming
  ok (map (tls_session body) clients, end)

-- What the set-up of the QUIC endpoint meets, in its order
pub record QuicSetup : Type 0 where
  pub single_cert : Outcome String (Unit {0})
  pub quic_config : Outcome String (Unit {0})
  pub default_runtime : Outcome String (Unit {0})
  pub bind : Outcome String (Unit {0})
  pub set_nonblocking : Outcome String (Unit {0})
  pub endpoint : Outcome String (Unit {0})

-- The requests of a connection over HTTP/3
pub record Requests3 : Type 0 where
  pub build : Outcome String (Unit {0})
  pub incoming : List (Outcome String (Option Stream3))

unfoldable pub quic_session : List ℕ → Outcome String Requests3 → Outcome String (List (List Sent))
quic_session body incoming = incoming >>= λ c. serve_http3_conn body c.build c.incoming

-- In milliseconds
abbrev pub max_idle_timeout : ℕ
max_idle_timeout = 30000

-- The list's end is an endpoint that is closed: `accept` gives `None`, and the server ends without an error.
unfoldable pub run_http3_server :
    List ℕ
    → QuicSetup
    → List (Outcome String Requests3)
    → Outcome String (List (Outcome String (List (List Sent))))
unfolding quic_session
run_http3_server body setup incoming = do
  config ← make_server_tls_config setup.single_cert (codes "h3" ∷ [])
  setup.quic_config
  setup.default_runtime
  setup.bind
  setup.set_nonblocking
  setup.endpoint
  ok (map (quic_session body) incoming)
