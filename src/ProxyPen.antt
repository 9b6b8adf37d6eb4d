-- ===== src/ProxyPen.antt =====
-- src/lib.rs: the tests of all protocols over one transport.
pub mod Kept
pub mod Samples
mod Runs
use proxypen.Base.{ℕ, List, [], ◌∷◌, Bool, Outcome, ok, err, panic, stuck, ◌>>=◌}
use proxypen.Error.{IoError, ProxyPenError}
use proxypen.Net.{SocketAddr}
use proxypen.Config.{TestTarget, SocksAddrs}
use proxypen.Direct.{System}
use proxypen.Socks.Handshake.{Codec}
use proxypen.Socks.Connector.{Dialer}
use proxypen.Socks.Associate.{Network}
use proxypen.Transport.{Transport, Stream, connect_tcp}
use proxypen.Results.{TestResult}
use proxypen.Http1
use proxypen.Http2
use proxypen.Http3

-- What the three tests meet, one after the other.
pub record World : Type 0 where
  pub io_text : IoError → List ℕ
  pub http1 : Http1.Exchange
  pub http2 : Http2.Exchange
  pub codec : Codec
  pub addrs : SocksAddrs
  pub dialer : Dialer
  pub net : Network
  pub os : System
  pub lookup_host : List ℕ → Outcome IoError (List SocketAddr)
  pub quic : Http3.Quic
  pub clock : ℕ → ℕ
  pub late : Bool

-- The connection of a test over TCP is the transport's.
abbrev connected : World → Transport → TestTarget → Outcome ProxyPenError Stream
connected w = connect_tcp w.codec w.addrs w.dialer w.net w.os w.lookup_host

abbrev pub over_http1 : World → Http1.Exchange
over_http1 w = record w.http1 { connect = connected w }

abbrev pub over_http2 : World → Http2.Exchange
over_http2 w = record w.http2 { connect = connected w }

unfoldable pub test_http1 : World → Transport → TestTarget → Outcome ⊥ TestResult
test_http1 w transport t = Http1.test w.io_text (over_http1 w) transport t

unfoldable pub test_http2 : World → Transport → TestTarget → Outcome ⊥ TestResult
test_http2 w transport t = Http2.test w.io_text (over_http2 w) transport t

unfoldable pub test_http3 : World → Transport → TestTarget → Outcome ⊥ TestResult
test_http3 w transport t =
    Http3.test w.codec w.addrs w.dialer w.net w.os w.lookup_host w.quic w.io_text w.clock w.late
      transport t

unfoldable pub test_all : World → Transport → TestTarget → Outcome ⊥ (List TestResult)
unfolding test_http1 test_http2 test_http3
test_all w transport t = do
  first ← test_http1 w transport t
  second ← test_http2 w transport t
  third ← test_http3 w transport t
  ok (first ∷ second ∷ third ∷ [])
