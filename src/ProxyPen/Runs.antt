-- ===== src/ProxyPen/Runs.antt =====
-- All tests of a target that answers, without a proxy.
use proxypen.Base.{[], ◌≡◌, refl, true, false, none, some, codes, Ensures}
use proxypen.Base.Decimal.{decimal}
use proxypen.Config.{TestTarget}
use proxypen.Transport.{Transport, direct, is_direct}
use proxypen.Results.{Protocol, failure, succeeded, display}
use proxypen.ProxyPen.{test_all}
use proxypen.ProxyPen.Kept.{AllResults, test_all-AllResults}
use proxypen.ProxyPen.Samples.{world, world-Answers}

abbrev transport : Transport
transport = direct (record { interface = none })

abbrev target : TestTarget
target = record {
  host = codes "example.com";
  port = 443;
  path = [];
  use_tls = true;
  resolved_addr = none;
  danger_accept_invalid_certs = false;
}

test_all-AllResults_example :
    Ensures (AllResults (is_direct transport) true) (test_all world transport target)
test_all-AllResults_example =
    test_all-AllResults world transport target (world-Answers transport target)

success_line :
    display (succeeded Protocol.http2 true 5000000 (some 7000000) 20000000 31500000 200 12)
    ≡ codes "[HTTP/2]   OK 200 (31ms) tcp:5ms tls:7ms ttfb:20ms size:12B"
unfolding display decimal
success_line = refl

failure_line :
    display (failure Protocol.http1 (codes "timeout")) ≡ codes "[HTTP/1.1] FAILED: timeout"
unfolding display
failure_line = refl
