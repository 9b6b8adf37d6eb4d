-- ===== src/Http2.antt =====
-- src/http2.rs: the test over HTTP/2. The h2 crate, the connection, TLS and the clock's readings are arguments.
pub mod Timed
mod Runs
use proxypen.Base.{
  ℕ, ◌+◌, ◌-◌, ◌%◌, ◌^◌, List, [], ◌∷◌, Bool, not, Option, some, length, if◌then◌else◌, codes,
  String, map_err, Outcome, ok, err, panic, stuck, ◌>>=◌, ◌>>◌,
}
use proxypen.Error.{from_h2, IoError, ProxyPenError, http, invalid_config}
use proxypen.Config.{TestTarget, https_uri}
use proxypen.Results.{Protocol, TestResult, succeeded, caught}
use proxypen.Tls.{Connector, handshake}
use proxypen.Transport.{Transport, Stream, is_direct}

-- What h2 and http answer; an `h2::Error` is its text.
pub record H2 : Type 0 where
  -- `client::handshake`
  pub handshake : Outcome String (Unit {0})
  -- Whether `Request::builder` takes the URI.
  pub is_uri : List ℕ → Bool
  pub send_request : List ℕ → Outcome String (Unit {0})
  -- The status of the response
  pub response : Outcome String ℕ
  -- What `body.data()` gives until it says that there is no more
  pub body : List (Outcome String (List ℕ))
  pub release_capacity : ℕ → Outcome String (Unit {0})

pub record Exchange : Type 0 where
  pub clock : ℕ → ℕ
  -- `Transport.connect_tcp` with its environment
  pub connect : Transport → TestTarget → Outcome ProxyPenError Stream
  pub connector : Connector
  pub h2 : H2
  -- The deadline of `tokio::time::timeout` came first.
  pub late : Bool

-- `start.elapsed()` between two readings
abbrev pub elapsed : Exchange → ℕ → ℕ → ℕ
elapsed x i j = x.clock j - x.clock i

-- The body's loop: each chunk's room is given back to the flow control.
unfoldable pub read_body :
    (ℕ → Outcome String (Unit {0})) → List (Outcome String (List ℕ)) → ℕ → Outcome ProxyPenError ℕ
read_body release [] total_size = ok total_size
read_body release (ok chunk ∷ body) total_size =
    map_err from_h2 (release (length chunk))
    >> read_body release body ((total_size + length chunk) % 2 ^ 64)
read_body release (err e ∷ body) total_size = err (from_h2 e)
read_body release (panic ∷ body) total_size = panic
read_body release (stuck ∷ body) total_size = stuck

-- Behind the connect
unfoldable pub request : H2 → TestTarget → Outcome ProxyPenError (ℕ × ℕ)
request h t = do
  map_err from_h2 h.handshake
  (if h.is_uri (https_uri t) then ok tt else err (http "request build: "))
  map_err from_h2 (h.send_request (https_uri t))
  http_status ← map_err from_h2 h.response
  total_size ← read_body h.release_capacity h.body 0
  ok (http_status, total_size)

-- What the test offers of ALPN
abbrev pub alpn : Option (List (List ℕ))
alpn = some (codes "h2" ∷ [])

unfoldable pub do_test : Exchange → Transport → TestTarget → Outcome ProxyPenError TestResult
do_test x transport t =
    if not t.use_tls then err (invalid_config "HTTP/2 requires TLS (use https:// target)") else do
      stream ← x.connect transport t
      handshake x.connector alpn t
      (http_status, total_size) ← request x.h2 t
      ok (
          succeeded Protocol.http2 (is_direct transport) (elapsed x 0 1) (some (elapsed x 2 3))
            (elapsed x 0 4) (elapsed x 0 5) http_status total_size)

unfoldable pub test : (IoError → List ℕ) → Exchange → Transport → TestTarget → Outcome ⊥ TestResult
unfolding do_test
test io_text x transport t = caught io_text Protocol.http2 x.late (do_test x transport t)
