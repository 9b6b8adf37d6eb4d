-- ===== src/Dns/Resolve.antt =====
-- src/dns.rs: `resolve_a`, the resolver over a transport. What the network answers, the deadline and the clock are
-- arguments.
pub mod Answered
pub mod Ends
use proxypen.Base.{
  ℕ, List, Bool, Option, none, some, length, ltb, if◌then◌else◌, Outcome, ok, err, panic, stuck,
  ◌>>=◌, ◌>>◌, map_err,
}
use proxypen.Error.{IoError, ProxyPenError, io, invalid_config}
use proxypen.Net.{IpAddr}
use proxypen.Config.{SocksAddrs}
use proxypen.Direct.{System}
use proxypen.Socks.Handshake.{Codec}
use proxypen.Socks.Connector.{Dialer}
use proxypen.Socks.Associate.{Network}
use proxypen.Transport.{Transport, open_udp, send, recv}
use proxypen.Dns.{DnsConfig, DnsResult, max_name_len, random_id, encode_query, decode_a_response}

-- The network under the socket of one query: what sending a datagram gives, and what comes in behind it, nothing if
-- the five seconds are over first; and the clock's nanoseconds.
pub record Wire : Type 0 where
  pub sent : List ℕ → Outcome IoError (Unit {0})
  pub received : List ℕ → Option (Outcome IoError (List ℕ))
  pub subsec_nanos : ℕ

unfoldable pub timed_out : Option (Outcome IoError (List ℕ)) → DnsResult (List ℕ)
timed_out none = err (invalid_config "DNS query timed out")
timed_out (some r) = map_err io r

module _ (q : Codec) (addrs : SocksAddrs) (dialer : Dialer) (net : Network) (os : System)
    (wire : Wire) where
  -- The buffer has 1500 bytes.
  unfoldable pub resolve_a : Transport → DnsConfig → List ℕ → DnsResult IpAddr
  unfolding timed_out
  resolve_a transport dns hostname =
      if ltb max_name_len (length hostname)
      then err (invalid_config "DNS hostname too long")
      else (do
        socket ← open_udp q addrs dialer net os transport dns.server
        let id = random_id wire.subsec_nanos
        query ← encode_query id hostname
        datagram ← map_err io (send socket query)
        map_err io (wire.sent datagram)
        received ← timed_out (wire.received datagram)
        buf ← map_err io (recv socket 1500 (ok received))
        decode_a_response id buf)
