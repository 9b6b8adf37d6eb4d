-- ===== src/Http3.antt =====
-- src/http3.rs: the test over HTTP/3. quinn, h3, the system and the clock's readings are arguments.
pub mod Addresses
pub mod Timed
mod Runs
use proxypen.Base.{
  ℕ, ◌+◌, ◌-◌, ◌%◌, ◌^◌, List, [], ◌∷◌, Bool, true, false, Option, none, some, length,
  if◌then◌else◌, codes, String, map_err, Outcome, ok, err, panic, stuck, ◌>>=◌, ◌>>◌,
}
use proxypen.Error.{
  IoError, ProxyPenError, http, quic, http_error, quic_error, from_connection_error,
}
use proxypen.Net.{IpAddr, SocketAddr, parse_ip, is_ipv6}
use proxypen.Config.{ProxyConfig, TestTarget, SocksAddrs, to_socks_addr, https_uri}
use proxypen.Direct.{DirectConfig, System, Socket, resolve_target, build_udp_socket}
use proxypen.UdpSocket.{SocksUdpSocket}
use proxypen.Stream.Conn.{Conn}
use proxypen.Socks.Handshake.{Codec}
use proxypen.Socks.Connector.{Dialer}
use proxypen.Socks.Associate.{Network, associate}
use proxypen.Tls.{ClientConfig, make_tls_config}
use proxypen.Transport.{Transport, socks5, direct, is_direct}
use proxypen.Results.{Protocol, success, TestResult, caught}

-- What quinn and h3 answer; an error is its text.
pub record Quic : Type 0 where
  -- `default_runtime`
  pub has_runtime : Bool
  -- `Endpoint::new` and `Endpoint::new_with_abstract_socket`
  pub endpoint : Outcome String (Unit {0})
  -- Whether the TLS settings make a `QuicClientConfig`.
  pub is_config : ClientConfig → Bool
  pub connect_with : ClientConfig → SocketAddr → List ℕ → Outcome String (Unit {0})
  -- What the `Connecting` comes to
  pub connecting : Outcome String (Unit {0})
  -- `h3::client::new`
  pub handshake : Outcome String (Unit {0})
  pub is_uri : List ℕ → Bool
  pub send_request : List ℕ → Outcome String (Unit {0})
  pub finish : Outcome String (Unit {0})
  -- The status of the response
  pub recv_response : Outcome String ℕ
  -- What `recv_data` gives until it says that there is no more
  pub body : List (Outcome String (List ℕ))
  -- The driver of the connection ended before the request did.
  pub driver_first : Bool

-- The socket under a `quinn::Endpoint`
pub data Endpoint : Type 0 where
  wrapped : SocksUdpSocket → Endpoint
  plain : Socket → Endpoint

unfoldable pub resolve_target_for_socks : TestTarget → SocketAddr → SocketAddr
resolve_target_for_socks t relay_addr = elim t.resolved_addr [
  | some ip ↦ record { ip = ip; port = t.port }
  | none ↦ elim (parse_ip t.host) [
    | some ip ↦ record { ip = ip; port = t.port }
    | none ↦ relay_addr
  ]
]

-- `default_runtime().ok_or_else(..)?` and the endpoint
unfoldable pub make_endpoint : Quic → Outcome ProxyPenError (Unit {0})
make_endpoint c =
    if c.has_runtime
    then map_err (quic_error "endpoint: ") c.endpoint
    else err (quic "no async runtime")

unfoldable pub make_quic_client_config : Quic → Bool → Outcome ProxyPenError ClientConfig
unfolding make_tls_config
make_quic_client_config c insecure =
    let config = make_tls_config (some (codes "h3" ∷ [])) insecure in
    if c.is_config config then ok config else err (quic "QUIC config: ")

-- The readers of the body's size
unfoldable pub read_body : List (Outcome String (List ℕ)) → ℕ → Outcome ProxyPenError ℕ
read_body [] total_size = ok total_size
read_body (ok chunk ∷ body) total_size = read_body body ((total_size + length chunk) % 2 ^ 64)
read_body (err e ∷ body) total_size = err (http_error "recv data: " e)
read_body (panic ∷ body) total_size = panic
read_body (stuck ∷ body) total_size = stuck

-- The request's future
unfoldable pub request : Quic → List ℕ → Outcome ProxyPenError (ℕ × ℕ)
request c uri = do
  map_err (http_error "send request: ") (c.send_request uri)
  map_err (http_error "finish request: ") c.finish
  http_status ← map_err (http_error "recv response: ") c.recv_response
  total_size ← read_body c.body 0
  ok (http_status, total_size)

-- The `select!` of the request and the driver
unfoldable pub race : Quic → TestTarget → Outcome ProxyPenError (ℕ × ℕ)
race c t =
    if c.driver_first then err (http "connection closed unexpectedly") else request c (https_uri t)

-- The result over a transport without a TCP connection of the target: `socks_handshake` is the first reading's.
abbrev pub answered : (ℕ → ℕ) → Bool → ℕ × ℕ → TestResult
answered clock is_direct (http_status, total_size) =
    let i : ℕ = if is_direct then 1 else 2 in
    record {
      protocol = Protocol.http3;
      status = success;
      http_status = some http_status;
      timing = record {
        socks_handshake = (if is_direct then none else some (clock 1 - clock 0));
        tcp_connect = none;
        tls_handshake = some (clock (i + 1) - clock i);
        first_byte = clock (i + 2) - clock 0;
        total = clock (i + 3) - clock 0;
      };
      response_size = some total_size;
    }

-- The environment: shadowquic, the system and its resolver
module _ (q : Codec) (addrs : SocksAddrs) (dialer : Dialer) (net : Network) (os : System)
    (lookup_host : List ℕ → Outcome IoError (List SocketAddr)) (c : Quic) where
  -- The association's control stream is kept until the request is done.
  unfoldable pub build_socks_endpoint :
      ProxyConfig → TestTarget → Outcome ProxyPenError (Endpoint × SocketAddr × Option Conn)
  build_socks_endpoint config t = do
    assoc ← associate q addrs dialer net config
    let socks_addr = to_socks_addr addrs t
    let target_socket_addr = resolve_target_for_socks t assoc.relay_addr
    make_endpoint c
    ok (
      wrapped (record { target = socks_addr; remote_addr = target_socket_addr }),
      target_socket_addr,
      some assoc.control,
    )

  unfoldable pub build_direct_endpoint :
      DirectConfig → TestTarget → Outcome ProxyPenError (Endpoint × SocketAddr × Option Conn)
  build_direct_endpoint config t = do
    target_addr ← resolve_target lookup_host t
    std_socket ← build_udp_socket os (is_ipv6 target_addr) config.interface
    make_endpoint c
    ok (plain std_socket, target_addr, none)

  unfoldable pub build_endpoint :
      Transport → TestTarget → Outcome ProxyPenError (Endpoint × SocketAddr × Option Conn)
  unfolding build_socks_endpoint build_direct_endpoint
  build_endpoint (socks5 config) t = build_socks_endpoint config t
  build_endpoint (direct config) t = build_direct_endpoint config t

  unfoldable pub do_test : (ℕ → ℕ) → Transport → TestTarget → Outcome ProxyPenError TestResult
  do_test clock transport t = do
    (endpoint, target_socket_addr, control) ← build_endpoint transport t
    client_config ← make_quic_client_config c t.danger_accept_invalid_certs
    map_err (quic_error "connect: ") (c.connect_with client_config target_socket_addr t.host)
    map_err from_connection_error c.connecting
    map_err (http_error "h3 handshake: ") c.handshake
    (if c.is_uri (https_uri t) then ok tt else err (http "request build: "))
    r ← race c t
    ok (answered clock (is_direct transport) r)

  -- `late`: the deadline of `tokio::time::timeout` came first.
  unfoldable pub test :
      (IoError → List ℕ) → (ℕ → ℕ) → Bool → Transport → TestTarget → Outcome ⊥ TestResult
  unfolding do_test
  test io_text clock late transport t =
      caught io_text Protocol.http3 late (do_test clock transport t)
