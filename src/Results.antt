-- ===== src/Results.antt =====
-- src/result.rs: what a test of the target results in, and how it is printed. A `Duration` is its nanoseconds.
-- What the `test` functions of the three protocols share stands here too.
pub mod Kept
use proxypen.Base.{
  ℕ, ◌-◌, ◌/◌, ◌≤◌, List, [], ◌∷◌, ◌++◌, Bool, true, false, Option, none, some, length, replicate,
  concat, codes, Outcome, ok, err, panic, stuck, if◌then◌else◌,
}
use proxypen.Base.Decimal.{decimal}
use proxypen.Error.{IoError, ProxyPenError, to_string}

pub data Protocol : Type 0 where
  http1 http2 http3 : Protocol

pub data TestStatus : Type 0 where
  success : TestStatus
  failed : List ℕ → TestStatus

pub record Timing : Type 0 where
  pub socks_handshake : Option ℕ
  pub tcp_connect : Option ℕ
  pub tls_handshake : Option ℕ
  pub first_byte : ℕ
  pub total : ℕ

pub record TestResult : Type 0 where
  pub protocol : Protocol
  pub status : TestStatus
  pub http_status : Option ℕ
  pub timing : Timing
  pub response_size : Option ℕ

unfoldable pub protocol_name : Protocol → List ℕ
protocol_name http1 = codes "HTTP/1.1"
protocol_name http2 = codes "HTTP/2"
protocol_name http3 = codes "HTTP/3"

-- `Duration::as_millis`
abbrev as_millis : ℕ → ℕ
as_millis d = d / 1000000

-- `{:<10}`
abbrev pad_right : ℕ → List ℕ → List ℕ
pad_right width s = s ++ replicate (width - length s) b' '

-- A part that is written only where there is a duration.
abbrev in_millis : List ℕ → Option ℕ → List ℕ
in_millis label none = []
in_millis label (some d) = concat (label ∷ decimal (as_millis d) ∷ codes "ms" ∷ [])

abbrev in_bytes : Option ℕ → List ℕ
in_bytes none = []
in_bytes (some n) = concat (codes " size:" ∷ decimal n ∷ codes "B" ∷ [])

abbrev unwrap_or : Option ℕ → ℕ → ℕ
unwrap_or none d = d
unwrap_or (some v) d = v

-- `fmt`
unfoldable pub display : TestResult → List ℕ
unfolding protocol_name
display r =
    let proto = pad_right 10 (concat (codes "[" ∷ protocol_name r.protocol ∷ codes "]" ∷ [])) in
    elim r.status [
      | success ↦ concat (
          proto
          ∷ codes " OK "
          ∷ decimal (unwrap_or r.http_status 0)
          ∷ codes " ("
          ∷ decimal (as_millis r.timing.total)
          ∷ codes "ms)"
          ∷ in_millis (codes " socks:") r.timing.socks_handshake
          ∷ in_millis (codes " tcp:") r.timing.tcp_connect
          ∷ in_millis (codes " tls:") r.timing.tls_handshake
          ∷ in_millis (codes " ttfb:") (some r.timing.first_byte)
          ∷ in_bytes r.response_size
          ∷ [])
      | failed e ↦ concat (proto ∷ codes " FAILED: " ∷ e ∷ [])
    ]

abbrev pub empty_timing : Timing
empty_timing = record {
  socks_handshake = none;
  tcp_connect = none;
  tls_handshake = none;
  first_byte = 0;
  total = 0;
}

abbrev pub failure : Protocol → List ℕ → TestResult
failure p e = record {
  protocol = p;
  status = failed e;
  http_status = none;
  timing = empty_timing;
  response_size = none;
}

-- `(socks_handshake, tcp_connect)`, from `transport.is_direct()` and the time that the connect took
abbrev pub connect_times : Bool → ℕ → Option ℕ × Option ℕ
connect_times is_direct d = if is_direct then (none, some d) else (some d, none)

-- The result of a success over TCP, where the connect took the time `d`
abbrev pub succeeded : Protocol → Bool → ℕ → Option ℕ → ℕ → ℕ → ℕ → ℕ → TestResult
succeeded p is_direct d tls_handshake first_byte total http_status response_size =
    let (socks_handshake, tcp_connect) = connect_times is_direct d in
    record {
      protocol = p;
      status = success;
      http_status = some http_status;
      timing = record {
        socks_handshake = socks_handshake;
        tcp_connect = tcp_connect;
        tls_handshake = tls_handshake;
        first_byte = first_byte;
        total = total;
      };
      response_size = some response_size;
    }

-- The `match` of the three `test` functions: `late` says that the deadline came before the end of `do_test`. An
-- error becomes a result.
unfoldable pub caught :
    (IoError → List ℕ)
    → Protocol
    → (late : Bool) → Outcome ProxyPenError TestResult
    → Outcome ⊥ TestResult
caught io_text p true r = ok (failure p (codes "timeout"))
caught io_text p false (ok r) = ok r
caught io_text p false (err e) = ok (failure p (to_string io_text e))
caught io_text p false panic = panic
caught io_text p false stuck = stuck
