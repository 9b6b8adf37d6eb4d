-- ===== src/UdpSocket/RoundTrip.antt =====
-- The SOCKS5 header of src/udp_socket.rs is read back as it was written.
use proxypen.Base.{
  ℕ, suc, ◌+◌, ◌/◌, ◌%◌, ◌^◌, ◌<◌, ◌≡◌, refl, ap, min, List, [], ◌∷◌, ◌++◌, false, some, length,
  take, drop, ltb, ◌==◌, arith, ok, index, slice, slice-append, index_at, drop_on, length-append,
  append_assoc, append-nil, drop-append, le→ltb,
}
use proxypen.Base.Bytes.{be_bytes, from_be, from_be-be_bytes}
use proxypen.Error.{IoError}
use proxypen.UdpSocket.{
  AddrOrDomain, v4, v6, domain, SocksAddr, encode_addr, encode_socks5_udp_header, decode_addr,
  decode_socks5_udp_header, SocksUdpSocket, try_send, strip,
}

-- The arrays have their lengths, and a domain's length byte is the length of its name.
abbrev pub IsAddr : AddrOrDomain → Type 0
IsAddr (v4 ip) = length ip ≡ 4
IsAddr (v6 ip) = length ip ≡ 16
IsAddr (domain d) = (d.len ≡ length d.contents) × (length d.contents < 256)

abbrev pub IsSocksAddr : SocksAddr → Type 0
IsSocksAddr a = IsAddr a.addr × (a.port < 2 ^ 16)

-- The type byte, the address and nothing else.
unfoldable pub addr_bytes : AddrOrDomain → List ℕ
addr_bytes (v4 ip) = 0x01 ∷ ip
addr_bytes (v6 ip) = 0x04 ∷ ip
addr_bytes (domain d) = 0x03 ∷ d.len ∷ d.contents

unfoldable pub header_bytes : SocksAddr → List ℕ
header_bytes a = 0 ∷ 0 ∷ 0 ∷ (addr_bytes a.addr ++ (a.port / 256 % 256 ∷ a.port % 256 ∷ []))

atyp : AddrOrDomain → ℕ
atyp (v4 ip) = 1
atyp (v6 ip) = 4
atyp (domain d) = 3

encode_addr-IsAddr : (a : AddrOrDomain) → IsAddr a → encode_addr a ≡ ok (addr_bytes a)
unfolding encode_addr addr_bytes
encode_addr-IsAddr (v4 ip) h = refl
encode_addr-IsAddr (v6 ip) h = refl
encode_addr-IsAddr (domain d) h =
    let e = slice-append IoError [] d.contents [] 0 d.len refl (omega (arith, h.0)) in
    let e' : slice {E = IoError} d.contents 0 d.len ≡ ok d.contents = rw append-nil at e in
    rw e' refl

pub encode-IsSocksAddr :
    (a : SocksAddr) → IsSocksAddr a → encode_socks5_udp_header a ≡ ok (header_bytes a)
unfolding encode_socks5_udp_header header_bytes
encode-IsSocksAddr a h = rw (encode_addr-IsAddr a.addr h.0) refl

decode_addr-addr_bytes :
    (a : AddrOrDomain) (p q : ℕ) (r : List ℕ)
    → IsAddr a
    → decode_addr (atyp a) (0 ∷ 0 ∷ 0 ∷ (addr_bytes a ++ (p ∷ q ∷ r)))
      ≡ ok (a, 3 + length (addr_bytes a))
unfolding decode_addr addr_bytes atyp
decode_addr-addr_bytes (v4 ip) p q r h =
    let l = length-append {0} ip (p ∷ q ∷ r) in
    rw
      (
        le→ltb (suc (suc (suc (suc (length (ip ++ (p ∷ q ∷ r))))))) 10 (omega (arith, l)),
        slice-append IoError (0 ∷ 0 ∷ 0 ∷ 1 ∷ []) ip (p ∷ q ∷ r) 4 8 refl (omega arith),
      )
      (ap (λ n. ok (v4 ip, n)) (omega arith))
decode_addr-addr_bytes (v6 ip) p q r h =
    let l = length-append {0} ip (p ∷ q ∷ r) in
    rw
      (
        le→ltb (suc (suc (suc (suc (length (ip ++ (p ∷ q ∷ r))))))) 22 (omega (arith, l)),
        slice-append IoError (0 ∷ 0 ∷ 0 ∷ 4 ∷ []) ip (p ∷ q ∷ r) 4 20 refl (omega arith),
      )
      (ap (λ n. ok (v6 ip, n)) (omega arith))
decode_addr-addr_bytes (domain d) p q r h =
    let l = length-append {0} d.contents (p ∷ q ∷ r) in
    let buf = 0 ∷ 0 ∷ 0 ∷ 3 ∷ d.len ∷ (d.contents ++ (p ∷ q ∷ r)) in
    let m : d.len % 256 ≡ d.len = omega (arith, h.0, h.1) in
    rw
      (
        le→ltb (length buf) 5 (omega arith),
        index_at IoError buf 4 d.len (d.contents ++ (p ∷ q ∷ r)) refl,
        le→ltb (length buf) (5 + d.len + 2) (omega (arith, l, h.0)),
        slice-append IoError (0 ∷ 0 ∷ 0 ∷ 3 ∷ d.len ∷ []) d.contents (p ∷ q ∷ r) 5 (5 + d.len) refl
            (omega (arith, h.0)),
        m,
      )
      (ap (λ n. ok (domain d, n)) (omega (arith, h.0)))

-- A header and what follows it, with the port's bytes at the offset behind the address.
header_split :
    (a : SocksAddr) (payload : List ℕ)
    → header_bytes a ++ payload
      ≡ 0 ∷ 0 ∷ 0 ∷ (addr_bytes a.addr ++ (a.port / 256 % 256 ∷ a.port % 256 ∷ payload))
unfolding header_bytes
header_split a payload =
    ap (λ t. 0 ∷ 0 ∷ 0 ∷ t)
      (append_assoc (addr_bytes a.addr) (a.port / 256 % 256 ∷ a.port % 256 ∷ []) payload)

length-header_bytes : (a : SocksAddr) → length (header_bytes a) ≡ 3 + length (addr_bytes a.addr) + 2
unfolding header_bytes
length-header_bytes a =
    omega (arith, length-append {0} (addr_bytes a.addr) (a.port / 256 % 256 ∷ a.port % 256 ∷ []))

atyp_at :
    (a : AddrOrDomain) (r : List ℕ)
    → index {E = IoError} (0 ∷ 0 ∷ 0 ∷ (addr_bytes a ++ r)) 3 ≡ ok (atyp a)
unfolding addr_bytes atyp
atyp_at (v4 ip) r = index_at IoError _ 3 1 _ refl
atyp_at (v6 ip) r = index_at IoError _ 3 4 _ refl
atyp_at (domain d) r = index_at IoError _ 3 3 _ refl

decoded :
    (a : SocksAddr) (payload : List ℕ)
    → IsSocksAddr a
    → decode_socks5_udp_header
        (0 ∷ 0 ∷ 0 ∷ (addr_bytes a.addr ++ (a.port / 256 % 256 ∷ a.port % 256 ∷ payload)))
      ≡ ok (a, length (header_bytes a))
unfolding decode_socks5_udp_header
decoded a payload h =
    let p = a.port / 256 % 256 in
    let q = a.port % 256 in
    let front = 0 ∷ 0 ∷ 0 ∷ addr_bytes a.addr in
    let buf = 0 ∷ 0 ∷ 0 ∷ (addr_bytes a.addr ++ (p ∷ q ∷ payload)) in
    let n = 3 + length (addr_bytes a.addr) in
    let n' : n ≡ length front = omega arith in
    let at : drop n buf ≡ p ∷ q ∷ payload = rw n' (drop-append front (p ∷ q ∷ payload)) in
    let long : ltb (length buf) 4 ≡ false =
      le→ltb _ _ (omega (arith, length-append {0} (addr_bytes a.addr) (p ∷ q ∷ payload))) in
    let port : from_be 0 (p ∷ q ∷ []) ≡ a.port = unfold be_bytes in from_be-be_bytes 2 a.port h.1 in
    rw
      (
        long,
        index_at IoError buf 2 0 _ refl,
        atyp_at a.addr (p ∷ q ∷ payload),
        decode_addr-addr_bytes a.addr p q payload h.0,
        index_at IoError buf n p _ at,
        index_at IoError buf (n + 1) q _ (drop_on buf n 1 _ at),
        port,
      )
      (ap (λ k. ok (a, k)) (omega (arith, length-header_bytes a)))

-- The header of any well-formed address, followed by any payload, is decoded to the address and to the
-- length of the header.
pub decode-encode_socks5_udp_header :
    (a : SocksAddr) (payload : List ℕ)
    → IsSocksAddr a
    → (header : List ℕ) × (encode_socks5_udp_header a ≡ ok header)
      × (decode_socks5_udp_header (header ++ payload) ≡ ok (a, length header))
decode-encode_socks5_udp_header a payload h =
    (header_bytes a, encode-IsSocksAddr a h, rw (header_split a payload) (decoded a payload h))

-- A payload behind a header.
pub payload_of :
    (h payload : List ℕ)
    → slice {E = IoError} (h ++ payload) (length h) (length (h ++ payload)) ≡ ok payload
payload_of h payload =
    let e =
      slice-append IoError h payload [] (length h) (length (h ++ payload)) refl
        (omega (arith, length-append {0} h payload)) in
    rw append-nil at e

-- A datagram of `try_send` with a payload that is not empty, to any well-formed address, is stripped to its
-- payload when it comes back: all of it if the buffer has room, and as much as fits otherwise. The metadata gives the
-- wrapper's remote address, whatever address the header has, and the number of bytes.
pub strip-header_bytes :
    (s : SocksUdpSocket) (a : SocksAddr) (room : ℕ) (payload : List ℕ)
    → IsSocksAddr a
    → 0 < length payload
    → (datagram : List ℕ) × (try_send (record s { target = a }) payload ≡ ok datagram)
      × (strip s room datagram
          ≡ ok (
              some (
                take (min (length payload) room) payload,
                record { addr = s.remote_addr; len = min (length payload) room },
              )))
unfolding try_send strip
strip-header_bytes s a room payload i l =
    let h = header_bytes a in
    let (h', e, d) = decode-encode_socks5_udp_header a payload i in
    let q : h' ≡ header_bytes a = cc (e, encode-IsSocksAddr a i) in
    let d' : decode_socks5_udp_header (h ++ payload) ≡ ok (a, length h) = rw q at d in
    let nonempty : (length (h ++ payload) == 0) ≡ false =
      ground (arith, length-append {0} h payload) in
    let some_payload : (length payload == 0) ≡ false = ground arith in
    (
      h ++ payload,
      rw (encode-IsSocksAddr a i) refl,
      rw (nonempty, d', payload_of h payload, some_payload) refl,
    )
