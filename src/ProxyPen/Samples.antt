-- ===== src/ProxyPen/Samples.antt =====
-- A world in which the target answers and the proxy does not: test data.
use proxypen.Base.{
  ℕ, ◌*◌, List, [], ◌∷◌, true, false, arith, codes, Outcome, ok, err, Ensures, Ensures-ok,
  Ensures-bind, Ensures-Returns, Returns, Any,
}
use proxypen.Error.{timeout, IoError, broken_pipe, unexpected_eof, ProxyPenError}
use proxypen.Net.{v4, SocketAddr, is_ipv6}
use proxypen.UdpSocket.{SocksAddr}
use proxypen.UdpSocket
use proxypen.Config.{TestTarget, SocksAddrs}
use proxypen.Direct.Connected.{connect_tcp-IsTcpFor, resolve_target-Any}
use proxypen.Direct.{linux, System, resolve_target, build_udp_socket}
use proxypen.Direct.Sockets.{build_udp_socket-IsUdpFor}
use proxypen.Socks.Handshake.{Codec}
use proxypen.Socks.Connector.{Dialer}
use proxypen.Socks.Associate.{Network, associate}
use proxypen.Stream
use proxypen.Transport.{connect_tcp, Transport, Stream, socks5, direct}
use proxypen.Tls.{Connector}
use proxypen.Http1
use proxypen.Http2
use proxypen.Http3
use proxypen.ProxyPen.{World}
use proxypen.ProxyPen.Kept.{Answers}

abbrev pub nowhere : SocksAddr
nowhere = record { addr = UdpSocket.v4 (0 ∷ 0 ∷ 0 ∷ 0 ∷ []); port = 0 }

abbrev pub codec : Codec
codec = record {
  socks5_version = 5;
  auth_method_password = 2;
  auth_method_none = 0;
  reply_succeeded = 0;
  cmd_tcp_connect = 1;
  cmd_udp_associate = 3;
  reserve = 0;
  encode_auth = λ r. r.version ∷ [];
  decode_auth = Stream.fail unexpected_eof;
  encode_password = λ r. r.version ∷ [];
  decode_password = Stream.fail unexpected_eof;
  encode_cmd = λ r. r.version ∷ [];
  decode_cmd = Stream.fail unexpected_eof;
}

abbrev pub addrs : SocksAddrs
addrs = record {
  from_socket = λ a. record nowhere { port = a.port };
  from_domain = λ n p. record nowhere { port = p };
}

abbrev dialer : Dialer
dialer = record { connect = λ a. err broken_pipe; set_nodelay = ok tt }

abbrev net : Network
net = record {
  resolve = λ a. ok [];
  resolve_text = λ s. ok [];
  bind_udp = λ s. ok tt;
  connect_udp = λ a. ok tt;
}

abbrev pub found : SocketAddr
found = record { ip = v4 93 184 216 34; port = 443 }

abbrev os : System
os = record { platform = linux; call = λ c. ok tt; if_nametoindex = λ n. 0 }

abbrev lookup_host : List ℕ → Outcome IoError (List SocketAddr)
lookup_host s = ok (found ∷ [])

abbrev ticking : ℕ → ℕ
ticking i = i * 1000000

abbrev connector : Connector
connector = record { is_server_name = λ s. true; connect = λ c s. ok tt }

-- In the world the connection is the transport's.
abbrev connect : Transport → TestTarget → Outcome ProxyPenError Stream
connect transport t = err timeout

abbrev http1 : Http1.Exchange
http1 = record {
  clock = ticking;
  connect = connect;
  connector = connector;
  write = λ s. ok tt;
  first = ok (codes "HTTP/1.1 200 OK\r\n\r\n");
  rest = ok [] ∷ [];
  late = false;
}

abbrev h2 : Http2.H2
h2 = record {
  handshake = ok tt;
  is_uri = λ s. true;
  send_request = λ s. ok tt;
  response = ok 200;
  body = ok (codes "hi") ∷ [];
  release_capacity = λ n. ok tt;
}

abbrev http2 : Http2.Exchange
http2 = record { clock = ticking; connect = connect; connector = connector; h2 = h2; late = false }

abbrev quic : Http3.Quic
quic = record {
  has_runtime = true;
  endpoint = ok tt;
  is_config = λ c. true;
  connect_with = λ c a h. ok tt;
  connecting = ok tt;
  handshake = ok tt;
  is_uri = λ s. true;
  send_request = λ s. ok tt;
  finish = ok tt;
  recv_response = ok 200;
  body = ok (codes "hi") ∷ [];
  driver_first = false;
}

abbrev pub world : World
world = record {
  io_text = λ e. codes "broken";
  http1 = http1;
  http2 = http2;
  codec = codec;
  addrs = addrs;
  dialer = dialer;
  net = net;
  os = os;
  lookup_host = lookup_host;
  quic = quic;
  clock = ticking;
  late = false;
}

endpoint-Ensures :
    (transport : Transport) (t : TestTarget)
    → Ensures
        (λ _. Unit {0})
        (Http3.build_endpoint codec addrs dialer net os lookup_host quic transport t)
unfolding Http3.build_endpoint Http3.make_endpoint associate
endpoint-Ensures (socks5 config) t = record { holds = tt }
endpoint-Ensures (direct config) t =
    Ensures-bind (resolve_target lookup_host t) _ (resolve_target-Any lookup_host t (Ensures-ok tt))
      λ a _.
        Ensures-bind (build_udp_socket os (is_ipv6 a) config.interface) _
          (build_udp_socket-IsUdpFor os (λ c. Ensures-ok tt) (is_ipv6 a) config.interface)
          λ s _. Ensures-ok tt

connect_tcp-Returns :
    (transport : Transport) (t : TestTarget)
    → Returns (connect_tcp codec addrs dialer net os lookup_host transport t)
unfolding connect_tcp package.proxypen.Socks.Connector.connect
connect_tcp-Returns (socks5 config) t = tt
connect_tcp-Returns (direct config) t = Ensures-Returns {P = Any} _ (
    Ensures-bind _ _
      (connect_tcp-IsTcpFor os (λ c. Ensures-ok tt) lookup_host t config.interface (Ensures-ok tt))
      λ s _. Ensures-ok tt)

pub world-Answers : (transport : Transport) (t : TestTarget) → Answers world transport t
world-Answers transport t = record {
  http1 = record {
    clock = λ i. omega arith;
    connect = connect_tcp-Returns transport t;
    connector = λ c h. tt;
    write = tt;
    first = tt;
    rest = (tt, tt);
  };
  http2 = record {
    clock = λ i. omega arith;
    connect = connect_tcp-Returns transport t;
    connector = λ c h. tt;
    handshake = tt;
    send_request = tt;
    response = tt;
    body = (tt, tt);
    release_capacity = λ n. tt;
  };
  http3 = record {
    connect_with = λ c a. tt;
    connecting = tt;
    handshake = tt;
    send_request = tt;
    finish = tt;
    recv_response = tt;
    body = (tt, tt);
  };
  clock = λ i. omega arith;
  endpoint = Ensures-Returns _ (endpoint-Ensures transport t);
}
