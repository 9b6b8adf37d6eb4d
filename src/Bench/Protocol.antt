-- ===== src/Bench/Protocol.antt =====
-- src/bench/protocol.rs: the messages of the control connection and the header of a datagram.
-- What a `write` sends is the list of its bytes: to write them one number after the other, until the
-- connection breaks, is to write their concatenation.
pub mod RoundTrip
pub mod Refusals
mod Runs
use proxypen.Base.{
  ℕ, zero, ◌+◌, ◌≤◌, ◌<◌, ◌^◌, min, List, [], ◌∷◌, ◌++◌, Bool, ◌||◌, Option, none, some, length,
  take, drop, ltb, ◌==◌, if◌then◌else◌, Outcome, ok, err, panic, slice,
}
use proxypen.Base
use proxypen.Base.Bytes.{be_bytes, from_be}
use proxypen.Base.Utf8.{from_utf8_lossy}
use proxypen.Error.{invalid_data}
use proxypen.Stream.{Reader, ◌>>=◌, pure, fail, read_exact, read_uint}

-- "PROXYBEN"
abbrev pub magic : List ℕ
magic = b'P' ∷ b'R' ∷ b'O' ∷ b'X' ∷ b'Y' ∷ b'B' ∷ b'E' ∷ b'N' ∷ []

abbrev pub version : ℕ
version = 1

abbrev pub kind_tcp_up : ℕ
kind_tcp_up = 0

abbrev pub kind_tcp_down : ℕ
kind_tcp_down = 1

abbrev pub kind_udp_up : ℕ
kind_udp_up = 2

abbrev pub kind_udp_down : ℕ
kind_udp_down = 3

abbrev pub kind_close : ℕ
kind_close = 4

abbrev pub status_ok : ℕ
status_ok = 0

abbrev pub status_err : ℕ
status_err = 1

unfoldable pub write_handshake : List ℕ
write_handshake = magic ++ be_bytes 1 version

same_bytes : List ℕ → List ℕ → Bool
same_bytes [] [] = Bool.true
same_bytes [] (y ∷ ys) = Bool.false
same_bytes (x ∷ xs) [] = Bool.false
same_bytes (x ∷ xs) (y ∷ ys) = if x == y then same_bytes xs ys else Bool.false

check_version : ℕ → Reader (Unit {0})
check_version v =
    if v == version then pure tt else fail (invalid_data "bench handshake: unsupported version")

check_magic : List ℕ → Reader (Unit {0})
unfolding same_bytes check_version
check_magic m =
    if same_bytes m magic
    then read_uint 1 >>= check_version
    else fail (invalid_data "bench handshake: bad magic")

unfoldable pub read_handshake : Reader (Unit {0})
unfolding check_magic
read_handshake = do m ← read_exact 8; check_magic m

pub record TestRequest : Type 0 where
  pub kind : ℕ
  pub duration_ms : ℕ
  pub payload_size : ℕ
  pub bandwidth_bps : ℕ
  pub expected_packets : ℕ

abbrev pub close : TestRequest
close = record {
  kind = kind_close;
  duration_ms = 0;
  payload_size = 0;
  bandwidth_bps = 0;
  expected_packets = 0;
}

unfoldable pub write_request : TestRequest → List ℕ
write_request r =
    be_bytes 1 r.kind
    ++ (be_bytes 4 r.duration_ms
        ++ (be_bytes 4 r.payload_size
            ++ (be_bytes 8 r.bandwidth_bps ++ be_bytes 8 r.expected_packets)))

unfoldable pub read_request : Reader TestRequest
read_request = do
  kind ← read_uint 1
  duration_ms ← read_uint 4
  payload_size ← read_uint 4
  bandwidth_bps ← read_uint 8
  expected_packets ← read_uint 8
  pure (record {
    kind = kind;
    duration_ms = duration_ms;
    payload_size = payload_size;
    bandwidth_bps = bandwidth_bps;
    expected_packets = expected_packets;
  })

unfoldable pub is_udp : TestRequest → Bool
is_udp r = r.kind == kind_udp_up || r.kind == kind_udp_down

pub record TestResponse : Type 0 where
  pub status : ℕ
  pub data_port : ℕ
  -- the bytes of a `String`
  pub error : List ℕ

abbrev pub response_ok : ℕ → TestResponse
response_ok port = record { status = status_ok; data_port = port; error = [] }

abbrev pub response_err : List ℕ → TestResponse
response_err msg = record { status = status_err; data_port = 0; error = msg }

unfoldable pub write_response : TestResponse → List ℕ
write_response r =
    let len = min (length r.error) 65535 in
    be_bytes 1 r.status ++ (be_bytes 2 r.data_port ++ (be_bytes 2 len ++ take len r.error))

unfoldable pub read_response : Reader TestResponse
read_response = do
  status ← read_uint 1
  data_port ← read_uint 2
  err_len ← read_uint 2
  err_buf ← read_exact err_len
  pure (record { status = status; data_port = data_port; error = from_utf8_lossy err_buf })

pub record TestReport : Type 0 where
  pub bytes : ℕ
  pub packets : ℕ
  pub max_seq : ℕ
  pub ooo : ℕ
  pub dup : ℕ
  pub jitter_ns : ℕ
  pub latency_min_ns : ℕ
  pub latency_max_ns : ℕ
  pub latency_sum_ns : ℕ
  pub duration_actual_ns : ℕ

unfoldable pub write_report : TestReport → List ℕ
write_report r =
    be_bytes 8 r.bytes
    ++ (be_bytes 8 r.packets
        ++ (be_bytes 8 r.max_seq
            ++ (be_bytes 8 r.ooo
                ++ (be_bytes 8 r.dup
                    ++ (be_bytes 8 r.jitter_ns
                        ++ (be_bytes 8 r.latency_min_ns
                            ++ (be_bytes 8 r.latency_max_ns
                                ++ (be_bytes 8 r.latency_sum_ns
                                    ++ be_bytes 8 r.duration_actual_ns))))))))

unfoldable pub read_report : Reader TestReport
read_report = do
  bytes ← read_uint 8
  packets ← read_uint 8
  max_seq ← read_uint 8
  ooo ← read_uint 8
  dup ← read_uint 8
  jitter_ns ← read_uint 8
  latency_min_ns ← read_uint 8
  latency_max_ns ← read_uint 8
  latency_sum_ns ← read_uint 8
  duration_actual_ns ← read_uint 8
  pure (record {
    bytes = bytes;
    packets = packets;
    max_seq = max_seq;
    ooo = ooo;
    dup = dup;
    jitter_ns = jitter_ns;
    latency_min_ns = latency_min_ns;
    latency_max_ns = latency_max_ns;
    latency_sum_ns = latency_sum_ns;
    duration_actual_ns = duration_actual_ns;
  })

abbrev pub udp_header_len : ℕ
udp_header_len = 16

-- `buf` with its first 16 bytes overwritten; a shorter one panics.
unfoldable pub encode_udp_header : {E : Type 0} → List ℕ → ℕ → ℕ → Outcome E (List ℕ)
encode_udp_header buf seq send_ts_ns =
    if ltb (length buf) 16
    then panic
    else ok (be_bytes 8 seq ++ (be_bytes 8 send_ts_ns ++ drop 16 buf))

unfoldable pub decode_udp_header : {E : Type 0} → List ℕ → Outcome E (Option (ℕ × ℕ))
decode_udp_header buf =
    if ltb (length buf) udp_header_len
    then ok none
    else Base.◌>>=◌ (slice buf 0 8)
        (λ s. Base.◌>>=◌ (slice buf 8 16) (λ t. ok (some (from_be 0 s, from_be 0 t))))
