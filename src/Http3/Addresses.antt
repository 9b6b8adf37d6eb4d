-- ===== src/Http3/Addresses.antt =====
-- The addresses of src/http3.rs agree with those of src/config.rs, src/direct.rs and src/udp_socket.rs.
use proxypen.Base.{some, ℕ, List, ◌≡◌, inl, inr, refl, none, arith, Option-cases, Outcome, ok}
use proxypen.Error.{IoError}
use proxypen.Net.{SocketAddr, IpAddr, parse_ip}
use proxypen.Config.{ProxyConfig, TestTarget, SocksAddrs, to_socks_addr}
use proxypen.Config.Destination.{at_port}
use proxypen.Direct.{System}
use proxypen.Socks.Handshake.{Codec}
use proxypen.Socks.Connector.{Dialer}
use proxypen.Socks.Associate.{UdpAssociation, Network, associate}
use proxypen.Http3.{Quic, wrapped, resolve_target_for_socks, make_endpoint, build_socks_endpoint}

-- The address that QUIC is told to connect to and the one that the proxy is told to send to: the same address at the
-- target's port, or the relay's and the target's name and port.
pub data Agree (q : SocksAddrs) (t : TestTarget) (relay_addr addr : SocketAddr) : Type 0 where
  same :
      (ip : IpAddr)
      → addr ≡ at_port ip t.port
      → to_socks_addr q t ≡ q.from_socket addr
      → Agree q t relay_addr addr
  by_name :
      addr ≡ relay_addr
      → to_socks_addr q t ≡ q.from_domain t.host t.port
      → t.resolved_addr ≡ none
      → parse_ip t.host ≡ none
      → Agree q t relay_addr addr

resolve_target_for_socks-Agree :
    (q : SocksAddrs) (t : TestTarget) (relay_addr : SocketAddr)
    → Agree q t relay_addr (resolve_target_for_socks t relay_addr)
unfolding to_socks_addr resolve_target_for_socks
resolve_target_for_socks-Agree q t relay_addr = elim (Option-cases t.resolved_addr) [
  | inr (ip, e) ↦ same ip (ground (arith, e)) (ground (arith, e))
  | inl e ↦ elim (Option-cases (parse_ip t.host)) [
    | inr (ip, f) ↦ same ip (ground (arith, e, f)) (ground (arith, e, f))
    | inl f ↦ by_name (ground (arith, e, f)) (ground (arith, e, f)) e f
  ]
]

-- Once the proxy has made the association and quinn its endpoint, the socket sends to the target and reports its
-- datagrams as coming from the address that QUIC connects to: the target's own where the proxy gets an address, the
-- relay's where it gets a name. The association's control stream is handed on.
pub build_socks_endpoint-Agree :
    (q : Codec) (addrs : SocksAddrs) (dialer : Dialer) (net : Network) (os : System)
    (lookup_host : List ℕ → Outcome IoError (List SocketAddr)) (c : Quic) (config : ProxyConfig)
    (t : TestTarget) (assoc : UdpAssociation)
    → associate q addrs dialer net config ≡ ok assoc
    → make_endpoint c ≡ ok tt
    → (addr : SocketAddr) × (build_socks_endpoint q addrs dialer net os lookup_host c config t
        ≡ ok (
          wrapped (record { target = to_socks_addr addrs t; remote_addr = addr }),
          addr,
          some assoc.control,
        ))
      × Agree addrs t assoc.relay_addr addr
unfolding build_socks_endpoint
build_socks_endpoint-Agree q addrs dialer net os lookup_host c config t assoc h k = (
  resolve_target_for_socks t assoc.relay_addr,
  rw (h, k) refl,
  resolve_target_for_socks-Agree addrs t assoc.relay_addr,
)
