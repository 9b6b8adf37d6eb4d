-- ===== src/Transport/Runs.antt =====
-- Datagrams through the proxy: a target of four bytes, and a domain whose header is longer than 256 bytes.
use proxypen.Base.{
  ℕ, ◌+◌, ◌-◌, ◌≡◌, refl, arith, min, List, [], ◌∷◌, ◌++◌, length, take, replicate, ok,
}
use proxypen.Net.{SocketAddr}
use proxypen.Net
use proxypen.UdpSocket.{SocksAddr, v4, domain}
use proxypen.UdpSocket.RoundTrip.{IsSocksAddr, header_bytes, addr_bytes}
use proxypen.Socks.Associate.{UdpAssociation}
use proxypen.Transport.{socks5_udp, recv}
use proxypen.Transport.Framing.{recv-header_bytes}

abbrev relay : SocketAddr
relay = record { ip = Net.v4 10 0 0 1; port = 4000 }

abbrev assoc : UdpAssociation
assoc = record {
  bound = [];
  peer = relay;
  relay_addr = relay;
  control = record { inbox = []; outbox = []; room = 0 };
}

abbrev target : SocksAddr
target = record { addr = v4 (1 ∷ 2 ∷ 3 ∷ 4 ∷ []); port = 53 }

abbrev six : List ℕ
six = 1 ∷ 2 ∷ 3 ∷ 4 ∷ 5 ∷ 6 ∷ []

abbrev long_domain : SocksAddr
long_domain = record {
  addr = domain (record { len = 255; contents = replicate 255 97 });
  port = 53;
}

long_domain-IsSocksAddr : IsSocksAddr long_domain
long_domain-IsSocksAddr = ((refl, omega arith), omega arith)

long_header : length (header_bytes long_domain) ≡ 262
unfolding header_bytes addr_bytes
long_header = refl

recv-header_bytes_example :
    recv (socks5_udp assoc target) 10 (ok (header_bytes long_domain ++ six))
    ≡ ok (take (min 10 (10 + 256 - length (header_bytes long_domain))) six)
recv-header_bytes_example =
    recv-header_bytes assoc target long_domain 10 six long_domain-IsSocksAddr
      (rw long_header (omega arith))

-- Two of the six bytes are lost, although the buffer has room for ten.
cut : take (min 10 (10 + 256 - length (header_bytes long_domain))) six ≡ 1 ∷ 2 ∷ 3 ∷ 4 ∷ []
cut = rw long_header refl
