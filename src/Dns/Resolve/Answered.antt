-- ===== src/Dns/Resolve/Answered.antt =====
-- `resolve_a` of src/dns.rs over either transport.
use proxypen.Base.{
  ℕ, ◌+◌, ◌-◌, ◌^◌, ◌≤◌, ◌<◌, ◌≡◌, ap, ◌∙◌, arith, min, List, [], ◌∷◌, ◌++◌, All, some, length,
  take, take_all, le→ltb, bit_and, ok,
}
use proxypen.Net.{v4}
use proxypen.Config.{SocksAddrs}
use proxypen.UdpSocket.{SocksAddr}
use proxypen.UdpSocket.RoundTrip.{IsSocksAddr, header_bytes}
use proxypen.Direct.{System}
use proxypen.Socks.Handshake.{Codec}
use proxypen.Socks.Connector.{Dialer}
use proxypen.Socks.Associate.{Network}
use proxypen.Transport.{Transport, TransportUdpSocket, direct_udp, socks5_udp, open_udp, send, recv}
use proxypen.Transport.Framing.{recv-header_bytes}
use proxypen.Dns.{DnsConfig, max_name_len, random_id, encode_query}
use proxypen.Dns.Answers.{Answer, AnswerFits, IsAddress}
use proxypen.Dns.RoundTrip.{reply, decode_a_response-reply}
use proxypen.Dns.Resolve.{Wire, resolve_a}

-- A datagram with a payload for the socket: over the proxy behind the header of any well-formed address that
-- leaves the buffer its room.
unfoldable pub Carries : TransportUdpSocket → List ℕ → List ℕ → Type 0
Carries (direct_udp s) payload datagram = datagram ≡ payload
Carries (socks5_udp assoc target) payload datagram =
    (a : SocksAddr) × IsSocksAddr a
    × (length (header_bytes a) ≤ 256)
    × (datagram ≡ header_bytes a ++ payload)

recv-Carries :
    (socket : TransportUdpSocket) (room : ℕ) (payload datagram : List ℕ)
    → Carries socket payload datagram
    → length payload ≤ room
    → recv socket room (ok datagram) ≡ ok payload
unfolding Carries
recv-Carries (direct_udp s) room payload datagram h l =
    unfold recv in rw h (ap ok (take_all room payload l))
recv-Carries (socks5_udp assoc target) room payload datagram (a, i, l', e) l =
    let m : min room (room + 256 - length (header_bytes a)) ≡ room = omega arith in
    rw e (
      recv-header_bytes assoc target a room payload i (omega arith)
      ∙ ap (λ n. ok (take n payload)) m
      ∙ ap ok (take_all room payload l))

module _ (q : Codec) (addrs : SocksAddrs) (dialer : Dialer) (net : Network) (os : System)
    (wire : Wire) where
  -- Over either transport: where the socket opens and takes the query for a name of at most 255 bytes, and what
  -- comes back to it carries a response of at most 1500 bytes, over the proxy behind a header of at most 256 bytes, with a
  -- code of 0, the one question echoed and each answer's name a pointer of two bytes, whatever its other flags and its
  -- counts of authority and additional records, the result is the first address among its answers, the records before it
  -- being passed over.
  pub resolve_a-reply :
      (transport : Transport) (dns : DnsConfig) (hostname query datagram back : List ℕ)
      (socket : TransportUdpSocket) (flags an c1 c2 c3 c4 a b c d : ℕ) (xs : List Answer)
      (y : Answer) (rest : List ℕ)
      → length hostname ≤ 255
      → open_udp q addrs dialer net os transport dns.server ≡ ok socket
      → encode_query (random_id wire.subsec_nanos) hostname ≡ ok query
      → send socket query ≡ ok datagram
      → wire.sent datagram ≡ ok tt
      → wire.received datagram ≡ some (ok back)
      → Carries socket
          (reply (random_id wire.subsec_nanos) flags an (c1 ∷ c2 ∷ c3 ∷ c4 ∷ []) query xs y rest)
          back
      → length
          (reply (random_id wire.subsec_nanos) flags an (c1 ∷ c2 ∷ c3 ∷ c4 ∷ []) query xs y rest)
        ≤ 1500
      → flags < 2 ^ 16
      → bit_and flags 0x000F ≡ 0
      → an < 2 ^ 16
      → length xs < an
      → All (λ x. AnswerFits x × ¬ (IsAddress x)) xs
      → AnswerFits y
      → y.rtype ≡ 1
      → y.rdata ≡ a ∷ b ∷ c ∷ d ∷ []
      → resolve_a q addrs dialer net os wire transport dns hostname ≡ ok (v4 a b c d)
  unfolding resolve_a
  resolve_a-reply transport dns hostname query datagram back socket flags an c1 c2 c3 c4 a b c d xs
        y rest short opened encoded sent went came carried fits hf hr ha hn hx fy ty ey =
      let id = random_id wire.subsec_nanos in
      let payload = reply id flags an (c1 ∷ c2 ∷ c3 ∷ c4 ∷ []) query xs y rest in
      let small : id < 2 ^ 16 = unfold random_id in omega arith in
      rw
        (
          le→ltb max_name_len (length hostname) short,
          opened,
          encoded,
          sent,
          went,
          came,
          recv-Carries socket 1500 payload back carried fits,
        )
        (decode_a_response-reply id flags an c1 c2 c3 c4 a b c d hostname query xs y rest encoded
          small hf hr ha hn hx fy ty ey)
