-- ===== src/Dns/Resolve/Ends.antt =====
-- `resolve_a` of src/dns.rs comes back.
use proxypen.Base.{
  ℕ, arith, List, Option, none, some, length, take, ltb, ◌+◌, Outcome, ok, Returns, Any, Ensures,
  Ensures-ok, Ensures-err, Ensures-if, Ensures-bind, Ensures-map_err, Ensures-Returns,
  Returns-Ensures,
}
use proxypen.Error.{IoError, io}
use proxypen.Net.{SocketAddr, is_ipv6}
use proxypen.Config.{ProxyConfig, SocksAddrs}
use proxypen.UdpSocket.{SocksAddr, AddrOrDomain, encode_socks5_udp_header, encode_addr}
use proxypen.UdpSocket
use proxypen.UdpSocket.Safety.{decode-Ensures, slice-Ensures}
use proxypen.Direct.{System, Call}
use proxypen.Direct.Sockets
use proxypen.Direct.Sockets.{build_udp_socket-IsUdpFor}
use proxypen.Socks.Handshake.{Codec}
use proxypen.Socks.Connector.{Dialer}
use proxypen.Socks.Associate.{Network, associate}
use proxypen.Transport.{
  Transport, socks5, direct, TransportUdpSocket, direct_udp, socks5_udp, open_udp, send, recv,
}
use proxypen.Dns.{DnsConfig, max_name_len, random_id, encode_query, split}
use proxypen.Dns.Safety.{decode_a_response-Returns}
use proxypen.Dns.RoundTrip.{short_labels, encode_query_cases}
use proxypen.Dns.Resolve.{Wire, timed_out, resolve_a}

-- An address that is no domain: what shadowquic makes of a socket address
abbrev pub IsIp : AddrOrDomain → Type 0
IsIp (UdpSocket.v4 ip) = Unit {0}
IsIp (UdpSocket.v6 ip) = Unit {0}
IsIp (UdpSocket.domain d) = ⊥

-- What came in, if anything did
abbrev pub Came : Option (Outcome IoError (List ℕ)) → Type 0
Came none = Unit {0}
Came (some r) = Returns r

-- Each call on the network under a query comes back.
pub record Carried (wire : Wire) : Type 0 where
  pub sent : (datagram : List ℕ) → Returns (wire.sent datagram)
  pub received : (datagram : List ℕ) → Came (wire.received datagram)

Sendable : TransportUdpSocket → Type 0
Sendable (direct_udp s) = Unit {0}
Sendable (socks5_udp assoc target) = IsIp target.addr

encode_addr-Any : (a : AddrOrDomain) → IsIp a → Ensures Any (encode_addr a)
unfolding encode_addr
encode_addr-Any (UdpSocket.v4 ip) h = Ensures-ok tt
encode_addr-Any (UdpSocket.v6 ip) h = Ensures-ok tt
encode_addr-Any (UdpSocket.domain d) h = absurd h

send-Any :
    (socket : TransportUdpSocket) (payload : List ℕ)
    → Sendable socket
    → Ensures Any (send socket payload)
unfolding send Sendable encode_socks5_udp_header
send-Any (direct_udp s) payload h = Ensures-ok tt
send-Any (socks5_udp assoc target) payload h =
    Ensures-bind {P = Any} _ _
      (Ensures-bind _ _ (encode_addr-Any target.addr h) λ a _. Ensures-ok tt)
      λ header _. Ensures-ok tt

recv-Any :
    (socket : TransportUdpSocket) (room : ℕ) (datagram : List ℕ)
    → Ensures Any (recv socket room (ok datagram))
unfolding recv
recv-Any (direct_udp s) room datagram = Ensures-ok tt
recv-Any (socks5_udp assoc target) room datagram =
    let tmp = take (room + 256) datagram in
    Ensures-bind _ _ (decode-Ensures tmp) λ r h.
      Ensures-bind _ _ (slice-Ensures tmp (r.1) (length tmp) h (omega arith))
        λ payload _. Ensures-ok tt

encode_query-Any : (id : ℕ) (hostname : List ℕ) → Ensures Any (encode_query id hostname)
encode_query-Any id hostname =
    rw (encode_query_cases id hostname)
      (Ensures-if (short_labels (split b'.' hostname)) _ _ (λ _. Ensures-ok tt) (λ _. Ensures-err))

timed_out-Any : (o : Option (Outcome IoError (List ℕ))) → Came o → Ensures Any (timed_out o)
unfolding timed_out
timed_out-Any none h = Ensures-err
timed_out-Any (some r) h = Ensures-map_err io r (Returns-Ensures r h)

module _ (q : Codec) (addrs : SocksAddrs) (dialer : Dialer) (net : Network) (os : System)
    (system : Sockets.Answers os)
    (associated : (config : ProxyConfig) → Returns (associate q addrs dialer net config))
    (ip_addr : (a : SocketAddr) → IsIp (addrs.from_socket a).addr) where
  open_udp-Sendable :
      (transport : Transport) (server : SocketAddr)
      → Ensures Sendable (open_udp q addrs dialer net os transport server)
  unfolding open_udp Sendable
  open_udp-Sendable (direct config) server =
      Ensures-bind _ _ (build_udp_socket-IsUdpFor os system (is_ipv6 server) config.interface)
        λ s _.
          Ensures-bind _ _ (Ensures-map_err io _ (system (Call.connect server)))
            λ _ _. Ensures-ok tt
  open_udp-Sendable (socks5 config) server =
      Ensures-bind _ _ (Returns-Ensures _ (associated config))
        λ assoc _. Ensures-ok (ip_addr server)

  -- Over either transport and whatever comes in: if the system's calls, an association and the network come back,
  -- then so does the resolver.
  pub resolve_a-Returns :
      (wire : Wire) (transport : Transport) (dns : DnsConfig) (hostname : List ℕ)
      → Carried wire
      → Returns (resolve_a q addrs dialer net os wire transport dns hostname)
  unfolding resolve_a
  resolve_a-Returns wire transport dns hostname w = Ensures-Returns _ (
      Ensures-if {P = Any} (ltb max_name_len (length hostname)) _ _ (λ _. Ensures-err)
        λ _. Ensures-bind _ _ (open_udp-Sendable transport dns.server) λ socket h.
          Ensures-bind _ _ (encode_query-Any (random_id wire.subsec_nanos) hostname) λ query _.
            Ensures-bind _ _ (Ensures-map_err io _ (send-Any socket query h)) λ datagram _.
              Ensures-bind _ _ (Ensures-map_err io _ (Returns-Ensures _ (w.sent datagram))) λ _ _.
                Ensures-bind _ _ (timed_out-Any _ (w.received datagram)) λ received _.
                  Ensures-bind _ _ (Ensures-map_err io _ (recv-Any socket 1500 received)) λ buf _.
                    Returns-Ensures _ (decode_a_response-Returns (random_id wire.subsec_nanos) buf))
