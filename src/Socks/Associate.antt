-- ===== src/Socks/Associate.antt =====
-- src/socks/associate.rs. How the system connects, resolves and binds is an argument.
pub mod Relay
use proxypen.Base.{
  ℕ, List, [], ◌∷◌, Bool, true, false, Option, none, some, ◌&&◌, ◌==◌, if◌then◌else◌, Outcome, ok,
  err, panic, stuck, ◌>>=◌, ◌>>◌, map_err, ok_or, codes,
}
use proxypen.Error.{IoError, ProxyPenError, io, socks}
use proxypen.Net.{IpAddr, v4, v6, SocketAddr, parse_socket, is_ipv6}
use proxypen.UdpSocket.{SocksAddr}
use proxypen.Config.{ProxyConfig, SocksAddrs}
use proxypen.Stream.Conn
use proxypen.Stream.Conn.{Conn, Exec}
use proxypen.Socks.Handshake.{Codec, CmdReply, authenticate, send_udp_associate}
use proxypen.Socks.Connector.{Dialer, finished}

pub record UdpAssociation : Type 0 where
  -- The socket's local address as asked for, and its peer.
  pub bound : List ℕ
  pub peer : SocketAddr
  pub relay_addr : SocketAddr
  pub control : Conn

-- The system's part: `to_socket_addrs` of an address and of a text, `UdpSocket::bind` and `connect`.
pub record Network : Type 0 where
  pub resolve : SocksAddr → Outcome IoError (List SocketAddr)
  pub resolve_text : List ℕ → Outcome IoError (List SocketAddr)
  pub bind_udp : List ℕ → Outcome IoError (Unit {0})
  pub connect_udp : SocketAddr → Outcome IoError (Unit {0})

all_zero : List ℕ → Bool
all_zero [] = true
all_zero (x ∷ xs) = x == 0 && all_zero xs

unfoldable pub is_unspecified : IpAddr → Bool
unfolding all_zero
is_unspecified (v4 a b c d) = a == 0 && b == 0 && c == 0 && d == 0
is_unspecified (v6 segments) = all_zero segments

abbrev first : List SocketAddr → Option SocketAddr
first [] = none
first (a ∷ rest) = some a

-- `it.next().unwrap()`
abbrev first_or_panic : {E : Type 0} → List SocketAddr → Outcome E SocketAddr
first_or_panic [] = panic
first_or_panic (a ∷ rest) = ok a

unfoldable pub proxy_addr : Network → List ℕ → Outcome ProxyPenError SocketAddr
proxy_addr net addr = elim (parse_socket addr) [
  | some a ↦ ok a
  | none ↦ map_err (λ _. socks "cannot parse proxy addr") (net.resolve_text addr >>= first_or_panic)
]

-- The reply's relay address, its IP replaced by the proxy's where it is unspecified.
unfoldable pub relay_of : Network → ProxyConfig → CmdReply → Outcome ProxyPenError SocketAddr
relay_of net config reply = do
  found ← map_err (λ _. socks "cannot resolve relay addr") (net.resolve reply.bind_addr)
  relay ← ok_or (first found) (socks "relay addr resolved to nothing")
  if is_unspecified relay.ip
      then (do p ← proxy_addr net config.addr; ok (record relay { ip = p.ip }))
      else ok relay

unfoldable pub bind_addr : SocketAddr → List ℕ
bind_addr relay = if is_ipv6 relay then codes "[::]:0" else codes "0.0.0.0:0"

unfoldable pub associate :
    Codec → SocksAddrs → Dialer → Network → ProxyConfig → Outcome ProxyPenError UdpAssociation
associate q addrs dialer net config = do
  stream ← map_err io (dialer.connect config.addr)
  map_err io dialer.set_nodelay
  let bind_hint = addrs.from_socket (record { ip = v4 0 0 0 0; port = 0 })
  (reply, control) ←
      finished (Conn.◌>>◌ (authenticate q config.auth) (send_udp_associate q bind_hint) stream)
  relay_addr ← relay_of net config reply
  map_err io (net.bind_udp (bind_addr relay_addr))
  map_err io (net.connect_udp relay_addr)
  ok (record {
    bound = bind_addr relay_addr;
    peer = relay_addr;
    relay_addr = relay_addr;
    control = control;
  })
