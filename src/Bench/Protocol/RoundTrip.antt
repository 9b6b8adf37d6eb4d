-- ===== src/Bench/Protocol/RoundTrip.antt =====
-- What one side of the control connection writes, the other reads (src/bench/protocol.rs).
use proxypen.Base.{
  ℕ, ◌≤◌, ◌<◌, ◌^◌, min, ◌≡◌, refl, ◌∙◌, List, [], ◌++◌, some, length, take, drop, ok, slice-append,
  arith, append_assoc, length-append, length-take, take_all, le→ltb, slice-append,
}
use proxypen.Base.Bytes.{be_bytes, length-be_bytes, from_be-be_bytes}
use proxypen.Base.Utf8.{from_utf8_lossy, IsUtf8, from_utf8_lossy-IsUtf8}
use proxypen.Stream.{read_exact, read_uint-be_bytes, read_exact-append}
use proxypen.Bench.Protocol.{
  TestRequest, write_request, read_request, TestResponse, write_response, read_response, TestReport,
  write_report, read_report, encode_udp_header, decode_udp_header,
}

abbrev pub IsU8 : ℕ → Type 0
IsU8 v = v < 256 ^ 1

abbrev pub IsU16 : ℕ → Type 0
IsU16 v = v < 256 ^ 2

abbrev pub IsU32 : ℕ → Type 0
IsU32 v = v < 256 ^ 4

abbrev pub IsU64 : ℕ → Type 0
IsU64 v = v < 256 ^ 8

-- The fields are in the range of their Rust types.
pub record RequestFits (r : TestRequest) : Type 0 where
  pub kind : IsU8 r.kind
  pub duration_ms : IsU32 r.duration_ms
  pub payload_size : IsU32 r.payload_size
  pub bandwidth_bps : IsU64 r.bandwidth_bps
  pub expected_packets : IsU64 r.expected_packets

pub record ReportFits (r : TestReport) : Type 0 where
  pub bytes : IsU64 r.bytes
  pub packets : IsU64 r.packets
  pub max_seq : IsU64 r.max_seq
  pub ooo : IsU64 r.ooo
  pub dup : IsU64 r.dup
  pub jitter_ns : IsU64 r.jitter_ns
  pub latency_min_ns : IsU64 r.latency_min_ns
  pub latency_max_ns : IsU64 r.latency_max_ns
  pub latency_sum_ns : IsU64 r.latency_sum_ns
  pub duration_actual_ns : IsU64 r.duration_actual_ns

-- A request is read back as it was written, and the bytes behind it are left.
pub read_request-write_request :
    (r : TestRequest) (rest : List ℕ)
    → RequestFits r
    → read_request (write_request r ++ rest) ≡ ok (r, rest)
unfolding read_request write_request
read_request-write_request r rest f = simp append_assoc (
    rw
      (
        read_uint-be_bytes 1 r.kind _ f.kind,
        read_uint-be_bytes 4 r.duration_ms _ f.duration_ms,
        read_uint-be_bytes 4 r.payload_size _ f.payload_size,
        read_uint-be_bytes 8 r.bandwidth_bps _ f.bandwidth_bps,
        read_uint-be_bytes 8 r.expected_packets _ f.expected_packets,
      )
      refl)

-- A report is read back as it was written, and the bytes behind it are left.
pub read_report-write_report :
    (r : TestReport) (rest : List ℕ)
    → ReportFits r
    → read_report (write_report r ++ rest) ≡ ok (r, rest)
unfolding read_report write_report
read_report-write_report r rest f = simp append_assoc (
    rw
      (
        read_uint-be_bytes 8 r.bytes _ f.bytes,
        read_uint-be_bytes 8 r.packets _ f.packets,
        read_uint-be_bytes 8 r.max_seq _ f.max_seq,
        read_uint-be_bytes 8 r.ooo _ f.ooo,
        read_uint-be_bytes 8 r.dup _ f.dup,
        read_uint-be_bytes 8 r.jitter_ns _ f.jitter_ns,
        read_uint-be_bytes 8 r.latency_min_ns _ f.latency_min_ns,
        read_uint-be_bytes 8 r.latency_max_ns _ f.latency_max_ns,
        read_uint-be_bytes 8 r.latency_sum_ns _ f.latency_sum_ns,
        read_uint-be_bytes 8 r.duration_actual_ns _ f.duration_actual_ns,
      )
      refl)

-- What arrives of a response: an error text longer than 65535 bytes is cut there, which may leave
-- bytes that are no text and are replaced.
pub read_response_cut :
    (r : TestResponse) (rest : List ℕ)
    → IsU8 r.status
    → IsU16 r.data_port
    → read_response (write_response r ++ rest)
      ≡ ok (record r { error = from_utf8_lossy (take (min (length r.error) 65535) r.error) }, rest)
unfolding read_response write_response
read_response_cut r rest hs hp =
    let len = min (length r.error) 65535 in
    let cut = take len r.error in
    let e : length cut ≡ len = omega (arith, length-take {0} len r.error) in
    let step : read_exact len (cut ++ rest) ≡ ok (cut, rest) =
      rw e at (read_exact-append cut rest) in
    simp append_assoc (
      rw
        (
          read_uint-be_bytes 1 r.status _ hs,
          read_uint-be_bytes 2 r.data_port _ hp,
          read_uint-be_bytes 2 len _ (omega arith),
          step,
        )
        refl)

-- A response whose error text has at most 65535 bytes is read back as it was written.
pub read_response-write_response :
    (r : TestResponse) (rest : List ℕ)
    → IsU8 r.status
    → IsU16 r.data_port
    → length r.error ≤ 65535
    → IsUtf8 r.error
    → read_response (write_response r ++ rest) ≡ ok (r, rest)
read_response-write_response r rest hs hp hl hu =
    let e : min (length r.error) 65535 ≡ length r.error = omega arith in
    read_response_cut r rest hs hp
    ∙ rw (e, take_all (length r.error) r.error (omega arith), from_utf8_lossy-IsUtf8 r.error hu)
        refl

-- The header put into the front of a datagram of at least 16 bytes is read back, and the rest of the
-- datagram stays as it is.
pub decode_udp_header-encode_udp_header :
    {E : Type 0} (buf : List ℕ) (seq ts : ℕ)
    → IsU64 seq
    → IsU64 ts
    → 16 ≤ length buf
    → (out : List ℕ) × (encode_udp_header {E = E} buf seq ts ≡ ok out)
      × (decode_udp_header {E = E} out ≡ ok (some (seq, ts)))
      × (drop 16 out ≡ drop 16 buf)
unfolding encode_udp_header decode_udp_header
decode_udp_header-encode_udp_header {E} buf seq ts hs ht hl =
    let s = be_bytes 8 seq in
    let t = be_bytes 8 ts in
    let out = s ++ (t ++ drop 16 buf) in
    let ls = length-be_bytes 8 seq in
    let lt = length-be_bytes 8 ts in
    let long : 16 ≤ length out =
      omega (arith, length-append {0} s (t ++ drop 16 buf), length-append {0} t (drop 16 buf)) in
    (
      out,
      rw (le→ltb (length buf) 16 hl) refl,
      rw
          (
            le→ltb (length out) 16 long,
            slice-append E [] s (t ++ drop 16 buf) 0 8 refl (omega arith),
            slice-append E s t (drop 16 buf) 8 16 (omega arith) (omega arith),
            from_be-be_bytes 8 seq hs,
            from_be-be_bytes 8 ts ht,
          )
          refl,
      tail16,
    )
  where
    tail16 : drop 16 (be_bytes 8 seq ++ (be_bytes 8 ts ++ drop 16 buf)) ≡ drop 16 buf
    tail16 = unfold be_bytes in refl
