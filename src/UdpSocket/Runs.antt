-- ===== src/UdpSocket/Runs.antt =====
-- Datagrams of src/udp_socket.rs on concrete bytes.
use proxypen.Base.{
  ℕ, ◌≡◌, ◌++◌, refl, List, [], ◌∷◌, some, length, take, min, arith, ok, err, Ensures,
}
use proxypen.Error.{invalid_data}
use proxypen.Net
use proxypen.Base.Flow
use proxypen.Base.Bytes
use proxypen.UdpSocket.{
  v4, domain, SocksAddr, encode_socks5_udp_header, decode_socks5_udp_header, SocksUdpSocket, strip,
  try_send,
}
use proxypen.UdpSocket.Safety.{Delivered, strip-Ensures}
use proxypen.UdpSocket.RoundTrip.{IsSocksAddr, decode-encode_socks5_udp_header, strip-header_bytes}

-- example.com:53
abbrev example_com : SocksAddr
example_com = record {
  addr = domain (record {
    len = 11;
    contents = b'e' ∷ b'x' ∷ b'a' ∷ b'm' ∷ b'p' ∷ b'l' ∷ b'e' ∷ b'.' ∷ b'c' ∷ b'o' ∷ b'm' ∷ [];
  });
  port = 53;
}

example_com-IsSocksAddr : IsSocksAddr example_com
example_com-IsSocksAddr = ((refl, omega arith), omega arith)

decode-encode_socks5_udp_header_example :
    (header : List ℕ) × (encode_socks5_udp_header example_com ≡ ok header)
    × (decode_socks5_udp_header (header ++ (1 ∷ 2 ∷ [])) ≡ ok (example_com, length header))
decode-encode_socks5_udp_header_example =
    decode-encode_socks5_udp_header example_com (1 ∷ 2 ∷ []) example_com-IsSocksAddr

abbrev socket : SocksUdpSocket
socket = record {
  target = record { addr = v4 (1 ∷ 2 ∷ 3 ∷ 4 ∷ []); port = 443 };
  remote_addr = record { ip = Net.v4 1 2 3 4; port = 443 };
}

abbrev from_proxy : List ℕ
from_proxy = 0 ∷ 0 ∷ 0 ∷ 1 ∷ 1 ∷ 2 ∷ 3 ∷ 4 ∷ 1 ∷ 187 ∷ 77 ∷ 88 ∷ 99 ∷ []

strip-Ensures_example : Ensures (λ o. Delivered 2 o) (strip socket 2 from_proxy)
strip-Ensures_example = strip-Ensures socket 2 from_proxy

stripped :
    strip socket 2 from_proxy
    ≡ ok
        (some (77 ∷ 88 ∷ [], record { addr = record { ip = Net.v4 1 2 3 4; port = 443 }; len = 2 }))
unfolding strip decode_socks5_udp_header Flow.index Flow.slice Bytes.from_be
stripped = refl

fragment :
    decode_socks5_udp_header (0 ∷ 0 ∷ 1 ∷ 1 ∷ [])
    ≡ err (invalid_data "fragmented UDP not supported")
unfolding decode_socks5_udp_header Flow.index
fragment = refl

abbrev three : List ℕ
three = 77 ∷ 88 ∷ 99 ∷ []

strip-header_bytes_example :
    (datagram : List ℕ) × (try_send (record socket { target = example_com }) three ≡ ok datagram)
    × (strip socket 2 datagram
        ≡ ok (
            some (
              take (min (length three) 2) three,
              record { addr = socket.remote_addr; len = min (length three) 2 },
            )))
strip-header_bytes_example =
    strip-header_bytes socket example_com 2 three example_com-IsSocksAddr (omega arith)
