-- ===== src/ProxyPen/Kept.antt =====
-- The results of all tests together.
use proxypen.Base.{
  ℕ, ◌+◌, ◌≤◌, List, [], ◌∷◌, Bool, true, false, not, Returns, Ensures, Ensures-ok, Ensures-bind,
}
use proxypen.Config.{TestTarget}
use proxypen.Transport.{Transport, is_direct}
use proxypen.Results.{Protocol, TestResult}
use proxypen.Results.Kept.{IsResult}
use proxypen.Http3
use proxypen.Http1.Timed as Timed1
use proxypen.Http2.Timed as Timed2
use proxypen.Http3.Timed as Timed3
use proxypen.ProxyPen.{World, over_http1, over_http2, test_http1, test_http2, test_http3, test_all}

-- Each call that one of the tests makes comes back, and no clock goes back.
pub record Answers (w : World) (transport : Transport) (t : TestTarget) : Type 0 where
  pub http1 : Timed1.Answers (over_http1 w) transport t
  pub http2 : Timed2.Answers (over_http2 w) transport t
  pub http3 : Timed3.Answers w.quic t
  pub clock : (i : ℕ) → w.clock i ≤ w.clock (i + 1)
  pub endpoint :
      Returns
        (Http3.build_endpoint w.codec w.addrs w.dialer w.net w.os w.lookup_host w.quic transport t)

-- One result for each protocol, in their order. Over a direct connection the TCP connect is timed, else the SOCKS5
-- handshake; HTTP/3 has no TCP connect.
abbrev pub AllResults : Bool → Bool → List TestResult → Type 0
AllResults direct tls (first ∷ second ∷ third ∷ []) =
    IsResult Protocol.http1 (not direct) direct tls first
    × IsResult Protocol.http2 (not direct) direct true second
    × IsResult Protocol.http3 (not direct) false true third
AllResults direct tls _ = ⊥

-- Whatever the target and the connections answer, as long as they answer: `test_all` comes back with a result for each
-- protocol in order, each a failure with nothing but its text, or a success with a status, a size, and times that were
-- taken for the steps of its transport, add up and lie before the first byte and the total.
pub test_all-AllResults :
    (w : World) (transport : Transport) (t : TestTarget)
    → Answers w transport t
    → Ensures (AllResults (is_direct transport) t.use_tls) (test_all w transport t)
unfolding test_all
test_all-AllResults w transport t a =
    Ensures-bind (test_http1 w transport t) _
      (Timed1.test-IsResult (over_http1 w) transport t a.http1 w.io_text)
      λ first p.
        Ensures-bind (test_http2 w transport t) _
          (Timed2.test-IsResult (over_http2 w) transport t a.http2 w.io_text)
          λ second s.
            Ensures-bind (test_http3 w transport t) _
              (Timed3.test-IsResult w.codec w.addrs w.dialer w.net w.os w.lookup_host w.quic w.clock
                transport t a.http3 a.clock a.endpoint w.io_text w.late)
              λ third h. Ensures-ok (p, s, h)
