-- ===== src/UdpSocket.antt =====
-- src/udp_socket.rs: the SOCKS5 header of a datagram, and the socket that adds and strips it for QUIC.
-- The address type is shadowquic's, with the constructors and fields that the file uses.
pub mod Safety
pub mod RoundTrip
mod Runs
use proxypen.Base.{
  ℕ, zero, suc, ◌+◌, ◌/◌, ◌%◌, ◌≤◌, ◌<◌, min, List, [], ◌∷◌, ◌++◌, Bool, true, false, Option, none,
  some, length, take, drop, ltb, leb, ◌==◌, if◌then◌else◌, Outcome, ok, err, panic, ◌>>=◌, index,
  slice, map_err,
}
use proxypen.Base.Bytes.{from_be}
use proxypen.Error.{IoError, invalid_data}
use proxypen.Net.{SocketAddr}

pub record VarVec : Type 0 where
  pub len : ℕ
  pub contents : List ℕ

pub data AddrOrDomain : Type 0 where
  -- `[u8; 4]` and `[u8; 16]`
  v4 v6 : List ℕ → AddrOrDomain
  domain : VarVec → AddrOrDomain

pub record SocksAddr : Type 0 where
  pub addr : AddrOrDomain
  pub port : ℕ

abbrev pub IoResult {ℓ} : Type ℓ → Type ℓ
IoResult A = Outcome IoError A

unfoldable pub encode_addr : AddrOrDomain → IoResult (List ℕ)
encode_addr (v4 ip) = ok (0x01 ∷ ip)
encode_addr (v6 ip) = ok (0x04 ∷ ip)
encode_addr (domain d) = do name ← slice d.contents 0 d.len; ok (0x03 ∷ d.len ∷ name)

unfoldable pub encode_socks5_udp_header : SocksAddr → IoResult (List ℕ)
unfolding encode_addr
encode_socks5_udp_header dst = do
  a ← encode_addr dst.addr
  ok (0x00 ∷ 0x00 ∷ 0x00 ∷ (a ++ (dst.port / 256 % 256 ∷ dst.port % 256 ∷ [])))

-- The address of the type `atyp`, and the offset behind it.
decode_addr : ℕ → List ℕ → IoResult (AddrOrDomain × ℕ)
decode_addr atyp buf =
    if atyp == 0x01
    then (if ltb (length buf) (4 + 4 + 2)
        then err (invalid_data "IPv4 addr too short")
        else (do ip ← slice buf 4 8; ok (v4 ip, 8)))
    else if atyp == 0x04
    then (if ltb (length buf) (4 + 16 + 2)
        then err (invalid_data "IPv6 addr too short")
        else (do ip ← slice buf 4 20; ok (v6 ip, 20)))
    else if atyp == 0x03
    then (if ltb (length buf) 5 then err (invalid_data "domain header too short") else (do
      domain_len ← index buf 4
      if ltb (length buf) (5 + domain_len + 2)
          then err (invalid_data "domain addr too short")
          else do
            contents ← slice buf 5 (5 + domain_len)
            ok (domain (record { len = domain_len % 256; contents = contents }), 5 + domain_len)))
    else err (invalid_data "unknown address type")

unfoldable pub decode_socks5_udp_header : List ℕ → IoResult (SocksAddr × ℕ)
unfolding decode_addr
decode_socks5_udp_header buf =
    if ltb (length buf) 4 then err (invalid_data "UDP header too short") else (do
      frag ← index buf 2
      if ltb 0 frag then err (invalid_data "fragmented UDP not supported") else do
        atyp ← index buf 3
        (addr, offset) ← decode_addr atyp buf
        hi ← index buf offset
        lo ← index buf (offset + 1)
        ok (record { addr = addr; port = from_be 0 (hi ∷ lo ∷ []) }, offset + 2))

-- The wrapper for QUIC: the destination, and the address that is reported as the source.
pub record SocksUdpSocket : Type 0 where
  pub target : SocksAddr
  pub remote_addr : SocketAddr

-- The datagram that `try_send` hands to the inner socket.
unfoldable pub try_send : SocksUdpSocket → List ℕ → IoResult (List ℕ)
try_send s contents = do header ← encode_socks5_udp_header s.target; ok (header ++ contents)

-- `RecvMeta`, its `stride` being `len`
pub record RecvMeta : Type 0 where
  pub addr : SocketAddr
  pub len : ℕ

-- What the inner socket's `poll_recv` says.
pub data Poll {ℓ} (A : Type ℓ) : Type ℓ where
  ready : A → Poll A
  pending : Poll A

-- The result of `poll_recv`: nothing, or the bytes put into `bufs[0]` and the metadata.
unfoldable pub strip : SocksUdpSocket → ℕ → List ℕ → IoResult (Option (List ℕ × RecvMeta))
strip s room filled = if length filled == 0 then ok none else (do
  (a, header_len) ← decode_socks5_udp_header filled
  payload ← slice filled header_len (length filled)
  let copy_len = min (length payload) room
  if length payload == 0
      then ok none
      else ok (some (take copy_len payload, record { addr = s.remote_addr; len = copy_len })))

unfoldable pub poll_recv :
    SocksUdpSocket → ℕ → Poll (IoResult (List ℕ)) → Poll (IoResult (Option (List ℕ × RecvMeta)))
unfolding strip
poll_recv s room pending = pending
poll_recv s room (ready r) = ready (do datagram ← r; strip s room (take 65535 datagram))

-- The inner `tokio::net::UdpSocket`, as far as the wrapper passes its answers on.
pub record InnerSocket : Type 0 where
  pub local_addr : IoResult SocketAddr
  pub poll_send_ready : Poll (IoResult (Unit {0}))

unfoldable pub local_addr : InnerSocket → IoResult SocketAddr
local_addr inner = inner.local_addr

abbrev pub may_fragment : Bool
may_fragment = false

abbrev pub max_transmit_segments : ℕ
max_transmit_segments = 1

abbrev pub max_receive_segments : ℕ
max_receive_segments = 1

-- The poller has the inner socket of the wrapper that makes it.
unfoldable pub poll_writable : InnerSocket → Poll (IoResult (Unit {0}))
poll_writable inner = inner.poll_send_ready
