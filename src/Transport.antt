-- ===== src/Transport.antt =====
-- src/transport.rs: through the proxy or directly. What the operating system answers is an argument.
pub mod Framing
mod Runs
use proxypen.Base.{
  ℕ, ◌+◌, min, List, [], ◌∷◌, ◌++◌, Bool, true, false, Option, none, some, length, take, Outcome,
  ok, err, panic, stuck, ◌>>=◌, ◌>>◌, map_err, slice,
}
use proxypen.Error.{IoError, ProxyPenError, io}
use proxypen.Net.{SocketAddr, is_ipv6}
use proxypen.UdpSocket.{SocksAddr, encode_socks5_udp_header, decode_socks5_udp_header}
use proxypen.Config.{ProxyConfig, TestTarget, SocksAddrs}
use proxypen.Direct.{DirectConfig, System, Socket, Call, build_udp_socket}
use proxypen.Direct
use proxypen.Stream.Conn.{Conn}
use proxypen.Socks.Handshake.{Codec}
use proxypen.Socks.Connector.{Dialer}
use proxypen.Socks.Connector
use proxypen.Socks.Associate.{Network, UdpAssociation, associate}

pub data Transport : Type 0 where
  socks5 : ProxyConfig → Transport
  direct : DirectConfig → Transport

-- A TCP stream: the proxy's tunnel, or a socket that is connected to the target.
pub data Stream : Type 0 where
  tunnel : Conn → Stream
  socket : Socket → Stream

pub data TransportUdpSocket : Type 0 where
  direct_udp : Socket → TransportUdpSocket
  socks5_udp : UdpAssociation → SocksAddr → TransportUdpSocket

unfoldable pub is_direct : Transport → Bool
is_direct (socks5 config) = false
is_direct (direct config) = true

module _ (q : Codec) (addrs : SocksAddrs) (dialer : Dialer) (net : Network) (os : System) where
  unfoldable pub connect_tcp :
      (List ℕ → Outcome IoError (List SocketAddr))
      → Transport
      → TestTarget
      → Outcome ProxyPenError Stream
  connect_tcp lookup_host (socks5 config) target = do
    c ← Connector.connect q addrs dialer config target
    ok (tunnel c)
  connect_tcp lookup_host (direct config) target = do
    s ← Direct.connect_tcp os lookup_host target config.interface
    ok (socket s)

  -- `UdpSocket::from_std` is part of tokio and succeeds on a non-blocking socket.
  unfoldable pub open_udp : Transport → SocketAddr → Outcome ProxyPenError TransportUdpSocket
  open_udp (direct config) target = do
    s ← build_udp_socket os (is_ipv6 target) config.interface
    map_err io (os.call (Call.connect target))
    ok (direct_udp (record s { peer = some target }))
  open_udp (socks5 config) target = do
    assoc ← associate q addrs dialer net config
    ok (socks5_udp assoc (addrs.from_socket target))

-- The datagram that `send` hands to the socket.
unfoldable pub send : TransportUdpSocket → List ℕ → Outcome IoError (List ℕ)
send (direct_udp s) payload = ok payload
send (socks5_udp assoc target) payload = do
  header ← encode_socks5_udp_header target
  ok (header ++ payload)

-- What `recv` puts into a buffer of `room` bytes when the socket gives a datagram.
unfoldable pub recv : TransportUdpSocket → ℕ → Outcome IoError (List ℕ) → Outcome IoError (List ℕ)
recv (direct_udp s) room r = do datagram ← r; ok (take room datagram)
recv (socks5_udp assoc target) room r = do
  datagram ← r
  let tmp = take (room + 256) datagram
  (a, hlen) ← decode_socks5_udp_header tmp
  payload ← slice tmp hlen (length tmp)
  ok (take (min (length payload) room) payload)
