-- ===== src/Bench/Server.antt =====
-- src/bench/server.rs: a session. What the system answers for the sockets of test number `i` is a `DataPlane`.
-- A session runs on its own connection; the listeners that accept them stand in Listen.
pub mod Data
pub mod Ends
pub mod Listen
pub mod Received
use proxypen.Base.{
  ℕ, zero, suc, ◌+◌, ◌*◌, ◌%◌, ◌^◌, min, max, List, [], ◌∷◌, ◌++◌, Bool, true, false, Option, none,
  some, length, take, replicate, ◌==◌, if◌then◌else◌, Outcome, ok, err, panic, stuck, codes,
}
use proxypen.Base
use proxypen.Base.Decimal.{decimal}
use proxypen.Error.{IoError}
use proxypen.Net.{SocketAddr, same_socket}
use proxypen.Stream.Conn.{Exec, ◌>>=◌, ◌>>◌, pure, lift, recv, write_all}
use proxypen.Bench.Protocol.{
  kind_tcp_up, kind_tcp_down, kind_udp_up, kind_udp_down, kind_close, TestRequest, TestReport,
  response_ok, response_err, read_handshake, write_handshake, read_request, write_response,
  write_report, read_report, decode_udp_header, udp_header_len,
}
use proxypen.Bench.Stats.{Float64, UdpStats, default, record_arrival, into_report, u64}
use proxypen.Bench.Transfer.{
  Done, Sender, enough, receive, transmit, send_loop, bytes_report, sender_report,
}

-- A datagram that came, and when, since the session's start.
pub record Packet : Type 0 where
  pub came : ℕ
  pub from : SocketAddr
  pub bytes : List ℕ

pub record DataPlane : Type 0 where
  -- The local address, the bind and the port it gives.
  pub listen : Outcome IoError ℕ
  pub accept : Outcome IoError (Unit {0})
  pub reads : List Done
  -- The readings of the clock, the answers to writes or sends, the pacer's start.
  pub clock : ℕ → ℕ
  pub writes : ℕ → Done
  pub pacer_start : ℕ
  -- The first datagram, and those that came before the deadline.
  pub hello : Outcome IoError Packet
  pub packets : List (Outcome IoError Packet)
  -- What the clock says at the end.
  pub elapsed : ℕ

infixl 5 ◌|>◌
abbrev ◌|>◌ {ℓ κ} :
    {A : Type ℓ} {B : Type κ} → Outcome IoError A → (A → Outcome IoError B) → Outcome IoError B
m |> f = Base.◌>>=◌ m f

abbrev pub io_session : IoError → IoError
io_session e = e

-- `report.write`, and then the client's report is read and dropped.
unfoldable pub send_report : TestReport → Exec IoError (Unit {0})
unfolding write_all
send_report report = do
  write_all io_session (write_report report)
  client_report ← recv io_session read_report
  pure tt

unfoldable pub open_port : DataPlane → Exec IoError (Unit {0})
open_port d = do port ← lift d.listen; write_all io_session (write_response (response_ok port))

-- The frame of the four tests: the response with the port, the data, the two reports.
unfoldable pub exchange : DataPlane → Outcome IoError TestReport → Exec IoError (Unit {0})
unfolding open_port send_report
exchange d run = do open_port d; report ← lift run; send_report report

abbrev pub duration_ns : TestRequest → ℕ
duration_ns req = req.duration_ms * 1_000_000

unfoldable pub tcp_up_data : DataPlane → TestRequest → Outcome IoError TestReport
tcp_up_data d req = d.accept |> λ _.
    receive (max req.payload_size 1) d.reads 0 |> λ bytes. ok (bytes_report bytes d.elapsed)

unfoldable pub run_tcp_up : DataPlane → TestRequest → Exec IoError (Unit {0})
run_tcp_up d req = exchange d (tcp_up_data d req)

unfoldable pub tcp_down_data : DataPlane → TestRequest → Outcome IoError TestReport
tcp_down_data d req = d.accept |> λ _.
    transmit (max req.payload_size 1) d.clock d.writes (duration_ns req) (enough (duration_ns req))
    |> λ bytes. ok (bytes_report bytes d.elapsed)

unfoldable pub run_tcp_down : DataPlane → TestRequest → Exec IoError (Unit {0})
run_tcp_down d req = exchange d (tcp_down_data d req)

abbrev pub datagram_size : TestRequest → ℕ
datagram_size req = max req.payload_size udp_header_len

module _ (F : Float64) where
  counted : UdpStats F → ℕ → ℕ → Option (ℕ × ℕ) → UdpStats F
  counted s came len none = s
  counted s came len (some (seq, ts)) =
      record_arrival F s
        (record { seq = seq; send_ts_ns = ts; recv_ts_ns = u64 came; payload_len = len })

  unfoldable pub process_packet : UdpStats F → List ℕ → ℕ → Outcome IoError (UdpStats F)
  unfolding counted
  process_packet s buf came = decode_udp_header buf |> λ h. ok (counted s came (length buf) h)

  next_packet :
      Bool
      → Outcome IoError (UdpStats F)
      → UdpStats F
      → (UdpStats F → Outcome IoError (UdpStats F))
      → Outcome IoError (UdpStats F)
  next_packet from_peer processed s more = if from_peer then (processed |> more) else more s

  -- The datagrams until the deadline, those of another source being dropped; `room` is the buffer's size.
  unfoldable pub receive_packets :
      SocketAddr → ℕ → List (Outcome IoError Packet) → UdpStats F → Outcome IoError (UdpStats F)
  unfolding next_packet
  receive_packets peer room [] s = ok s
  receive_packets peer room (r ∷ rs) s = r |> λ q.
      next_packet (same_socket q.from peer) (process_packet s (take room q.bytes) q.came) s
        (λ s'. receive_packets peer room rs s')

  unfoldable pub udp_up_data : DataPlane → TestRequest → Outcome IoError TestReport
  udp_up_data d req = d.hello |> λ hello.
      process_packet (default F) (take (datagram_size req + 64) hello.bytes) hello.came |> λ s.
      receive_packets hello.from (datagram_size req + 64) d.packets s |> λ s'.
      ok (into_report F s' (u64 d.elapsed))

  unfoldable pub run_udp_up : DataPlane → TestRequest → Exec IoError (Unit {0})
  run_udp_up d req = exchange d (udp_up_data d req)

-- The datagrams, until the deadline, once the hello has come
unfoldable pub send_down : DataPlane → TestRequest → Outcome IoError Sender
send_down d req = d.hello |> λ hello.
    send_loop d.clock d.writes
      (record { bandwidth_bps = req.bandwidth_bps; packet_bytes = datagram_size req }) d.pacer_start
      (duration_ns req) (enough (duration_ns req))
      (record {
        seq = 0;
        bytes = 0;
        sent = [];
        buf = replicate (datagram_size req) 0;
        readings = 0;
        due = none;
      })

unfoldable pub udp_down_data : DataPlane → TestRequest → Outcome IoError TestReport
unfolding send_down
udp_down_data d req = send_down d req |> λ s. ok (sender_report s d.elapsed)

unfoldable pub run_udp_down : DataPlane → TestRequest → Exec IoError (Unit {0})
run_udp_down d req = exchange d (udp_down_data d req)

module _ (F : Float64) (planes : ℕ → DataPlane) where
  -- The test of one request; `more` is the rest of the loop.
  unfoldable pub dispatch : ℕ → TestRequest → Exec IoError (Unit {0}) → Exec IoError (Unit {0})
  dispatch i req more =
      if req.kind == kind_close
      then pure tt
      else if req.kind == kind_tcp_up
      then run_tcp_up (planes i) req >> more
      else if req.kind == kind_tcp_down
      then run_tcp_down (planes i) req >> more
      else if req.kind == kind_udp_up
      then run_udp_up F (planes i) req >> more
      else if req.kind == kind_udp_down
      then run_udp_down (planes i) req >> more
      else write_all io_session
          (write_response (response_err (codes "unknown test kind " ++ decimal req.kind)))

  -- The loop; each round reads a request, so that the bytes of the connection are fuel enough.
  unfoldable pub requests : ℕ → ℕ → Exec IoError (Unit {0})
  requests zero i = lift stuck
  requests (suc fuel) i = do
    req ← recv io_session read_request
    dispatch i req (requests fuel (suc i))

  unfoldable pub handle_session : Outcome IoError (Unit {0}) → Exec IoError (Unit {0})
  handle_session set_nodelay = do
    lift set_nodelay
    recv io_session read_handshake
    write_all io_session write_handshake
    λ c. requests (suc (length c.inbox)) 0 c
