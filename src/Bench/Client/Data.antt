-- ===== src/Bench/Client/Data.antt =====
-- The data of the tests of src/bench/client.rs, on the client's side.
pub mod Download
pub mod Ends
use proxypen.Base.{
  ℕ, ◌+◌, ◌-◌, max, List, [], ◌∷◌, Option, none, some, length, take, replicate, ◌==◌, if◌then◌else◌,
  Outcome, ok, err, panic, stuck, map_err,
}
use proxypen.Error.{IoError}
use proxypen.Bench.Protocol.{
  kind_tcp_up, TestReport, encode_udp_header, decode_udp_header, udp_header_len,
}
use proxypen.Bench.Stats.{Float64, UdpStats, default, record_arrival, into_report, u64}
use proxypen.Bench.Transfer.{
  straggle_grace, Done, done, failed, Sender, enough, receive, transmit, send_loop, bytes_report,
  sender_report,
}
use proxypen.Bench.Client.{io, proxy, Received, ClientPlane, BenchResult, ◌|>◌, fits}

unfoldable pub run_tcp_data : ClientPlane → ℕ → ℕ → ℕ → BenchResult TestReport
run_tcp_data d kind duration chunk = map_err proxy d.opened |> λ _.
    let grace = if kind == kind_tcp_up then 0 else straggle_grace in
    fits chunk d.vec_room |> λ _. fits (duration + grace) d.clock_room |> λ _.
    map_err io (
      if kind == kind_tcp_up
      then transmit chunk d.clock d.writes duration (enough duration)
      else receive chunk d.reads 0)
    |> λ bytes. ok (bytes_report bytes d.elapsed)

-- `Ok(())` counts the whole buffer.
abbrev pub whole : ℕ → Done → Done
whole len (done n) = done len
whole len (failed e) = failed e

-- The hello and the datagrams, until the deadline
unfoldable pub send_up : ClientPlane → ℕ → ℕ → ℕ → BenchResult Sender
send_up d duration datagram_size bandwidth_bps =
    let len = max datagram_size udp_header_len in
    map_err proxy d.opened |> λ _. fits len d.vec_room |> λ _.
    encode_udp_header (replicate len 0) 0 0 |> λ hello. map_err io d.hello |> λ _.
    fits duration d.clock_room |> λ _. map_err io (
      send_loop d.clock (λ i. whole len (d.writes i))
        (record { bandwidth_bps = bandwidth_bps; packet_bytes = len }) d.pacer_start duration
        (enough duration)
        (record { seq = 1; bytes = len; sent = hello ∷ []; buf = hello; readings = 0; due = none }))

unfoldable pub run_udp_up : ClientPlane → ℕ → ℕ → ℕ → BenchResult TestReport
unfolding send_up
run_udp_up d duration datagram_size bandwidth_bps =
    send_up d duration datagram_size bandwidth_bps |> λ s. ok (sender_report s d.elapsed)

module _ (F : Float64) where
  abbrev since : Option ℕ → ℕ → ℕ
  since none at = at
  since (some start) at = start

  counted : UdpStats F → ℕ → ℕ → Option (ℕ × ℕ) → UdpStats F
  counted s came len none = s
  counted s came len (some (seq, ts)) =
      record_arrival F s
        (record { seq = seq; send_ts_ns = ts; recv_ts_ns = u64 came; payload_len = len })

  -- The datagrams until the deadline or the first error; the session starts with the first of them.
  unfoldable pub receive_down :
      ℕ
      → List (Outcome IoError Received)
      → Option ℕ
      → UdpStats F
      → BenchResult (Option ℕ × UdpStats F)
  unfolding counted
  receive_down room [] start s = ok (start, s)
  receive_down room (err e ∷ rs) start s = ok (start, s)
  receive_down room (panic ∷ rs) start s = panic
  receive_down room (stuck ∷ rs) start s = stuck
  receive_down room (ok q ∷ rs) start s =
      let begin = since start q.at in
      let buf = take room q.bytes in
      decode_udp_header buf |> λ h.
      receive_down room rs (some begin) (counted s (q.stamped - begin) (length buf) h)

  abbrev duration_actual : ClientPlane → Option ℕ → ℕ
  duration_actual d none = 0
  duration_actual d (some start) = u64 (d.elapsed - start)

  unfoldable pub run_udp_down : ClientPlane → ℕ → ℕ → BenchResult TestReport
  run_udp_down d duration datagram_size =
      let len = max datagram_size udp_header_len in
      map_err proxy d.opened |> λ _. fits len d.vec_room |> λ _.
      encode_udp_header (replicate len 0) 0 0 |> λ hello. map_err io d.hello |> λ _.
      fits (len + 64) d.vec_room |> λ _. fits (duration + straggle_grace) d.clock_room |> λ _.
      receive_down (len + 64) d.packets none (default F) |> λ r.
      ok (into_report F (r.1) (duration_actual d (r.0)))
