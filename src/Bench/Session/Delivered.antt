-- ===== src/Bench/Session/Delivered.antt =====
-- The UDP upload and download of src/bench/client.rs and src/bench/server.rs over a network that loses, repeats and reorders
-- datagrams.
use proxypen.Base.{
  IsOneOf, ℕ, suc, ◌+◌, ◌-◌, ◌*◌, ◌/◌, ◌^◌, ◌≤◌, ◌<◌, ◌≡◌, refl, max, [], ◌∷◌, length, All, none,
  arith, ok, Ensures, Ensures-mono, Returns, bind-ok, map_err, map_err-ok,
}
use proxypen.Bench.Protocol.{TestRequest, encode_udp_header, udp_header_len}
use proxypen.Bench.Pacer.{Pacer}
use proxypen.Bench.Pacer.Schedule.{Limits, packet_ns, target_packets-le-rate}
use proxypen.Bench.Stats.{Float64, u64}
use proxypen.Bench.Transfer.{straggle_grace, Sender, enough, sender_report}
use proxypen.Bench.Transfer.Pace.{Numbered, send_loop-Sent}
use proxypen.Bench.Server.{DataPlane, datagram_size, duration_ns, send_down, udp_up_data}
use proxypen.Bench.Transfer.Network.{zeros, length-zeros, hello-Numbered}
use proxypen.Bench.Server.Received.{Arrives, udp_up_data-Delivered}
use proxypen.Bench.Client.{BenchError, io, proxy, ClientPlane, fits}
use proxypen.Bench.Client.Data.{send_up, whole, run_udp_down}
use proxypen.Bench.Client.Data.Download.{run_udp_down-Delivered}
use proxypen.Bench.Transfer.Rate.{send_loop-rate}

-- What the client has sent when it stops
send_up-Numbered :
    (c : ClientPlane) (duration size bandwidth_bps : ℕ) (s : Sender)
    → ((k : ℕ) → c.clock k < c.clock (suc k))
    → Limits
        (record { bandwidth_bps = bandwidth_bps; packet_bytes = max size udp_header_len })
        0
        duration
    → send_up c duration size bandwidth_bps ≡ ok s
    → Numbered (max size udp_header_len) 0 s.seq s.sent
unfolding send_up
send_up-Numbered c duration size bandwidth_bps s ticks l e =
    let len = max size udp_header_len in
    let (a, e1, f1) = bind-ok (map_err proxy c.opened) _ s e in
    let (v, e4, f4) = bind-ok (fits len c.vec_room) _ s f1 in
    let (hello, e2, f2) = bind-ok (encode_udp_header {E = BenchError} (zeros len) 0 0) _ s f4 in
    let (b, e5, f5) = bind-ok (map_err io c.hello) _ s f2 in
    let (t, e3, f3) = bind-ok (fits duration c.clock_room) _ s f5 in
    let p : Pacer = record { bandwidth_bps = bandwidth_bps; packet_bytes = len } in
    let (m, ts, next, long, header, none_before) =
      hello-Numbered BenchError len hello (omega arith) e2 in
    let sent =
      send_loop-Sent c.clock (λ i. whole len (c.writes i)) p c.pacer_start duration
        (suc (duration * bandwidth_bps / packet_ns p)) len 0 ticks (omega arith)
        (λ t b.
          omega (arith, target_packets-le-rate p (t - c.pacer_start) duration l (omega arith)))
        (record { seq = 1; bytes = len; sent = hello ∷ []; buf = hello; readings = 0; due = none })
        (enough duration) (m, ts, next, long, header, none_before) (omega arith) long refl
        (omega arith) in
    (rw (map_err-ok io _ s f3) at sent).holds.numbered

-- Let the client's upload come to an end, with a clock that moves on with each reading and a limited rate. Let the server
-- be asked for datagrams of the client's size, and let all that reaches it from the peer be datagrams which the client
-- sent, unchanged, but in any order, any number of times or not at all. Then the server comes back, with an error or with
-- a report that has no more packets than the client's and no number above the client's last one, and whose bytes are those
-- of its packets, modulo 2^64.
pub send_up-udp_up_data :
    (F : Float64) (c : ClientPlane) (d : DataPlane) (duration bandwidth_bps : ℕ) (s : Sender)
    (req : TestRequest)
    → ((k : ℕ) → c.clock k < c.clock (suc k))
    → Limits (record { bandwidth_bps = bandwidth_bps; packet_bytes = datagram_size req }) 0 duration
    → send_up c duration req.payload_size bandwidth_bps ≡ ok s
    → suc (length d.packets) < 2 ^ 64
    → Ensures
        (λ hello. IsOneOf s.sent hello.bytes × All (Arrives s.sent hello.from) d.packets)
        d.hello
    → let client = sender_report s c.elapsed in
      Ensures
        (λ server.
          (server.packets ≤ client.packets)
          × (server.max_seq ≤ client.max_seq)
          × (server.bytes ≡ u64 (server.packets * datagram_size req)))
        (udp_up_data F d req)
send_up-udp_up_data F c d duration bandwidth_bps s req ticks l e short arrives =
    let num = send_up-Numbered c duration req.payload_size bandwidth_bps s ticks l e in
    Ensures-mono _ (λ r h. (h.at_most, omega (arith, h.numbers), h.volume))
      (udp_up_data-Delivered F (datagram_size req) s.seq (datagram_size req + 64) s.sent num
        (omega arith) d req refl short arrives)

-- What the server has sent when it stops
send_down-Numbered :
    (d : DataPlane) (req : TestRequest) (s : Sender)
    → ((k : ℕ) → d.clock k < d.clock (suc k))
    → Limits
        (record { bandwidth_bps = req.bandwidth_bps; packet_bytes = datagram_size req })
        0
        (duration_ns req)
    → send_down d req ≡ ok s
    → Numbered (datagram_size req) 0 s.seq s.sent
unfolding send_down
send_down-Numbered d req s ticks l e =
    let len = datagram_size req in
    let (hello, e1, f1) = bind-ok d.hello _ s e in
    let p : Pacer = record { bandwidth_bps = req.bandwidth_bps; packet_bytes = len } in
    let n = length-zeros len in
    let sent =
      send_loop-rate d.clock d.writes p d.pacer_start (duration_ns req) 0 0 (zeros len)
        (enough (duration_ns req)) ticks (omega arith) l (omega arith) in
    rw n at ((rw f1 at sent).holds.numbered)

-- The same of a download, where the server sends and the client, which has room for its buffers and its deadline,
-- receives: the client's report has no more packets than
-- the server's and no number above the server's last one, and its bytes are those of its packets, modulo 2^64.
pub send_down-run_udp_down :
    (F : Float64) (c : ClientPlane) (d : DataPlane) (s : Sender) (req : TestRequest) (duration : ℕ)
    → ((k : ℕ) → d.clock k < d.clock (suc k))
    → Limits
        (record { bandwidth_bps = req.bandwidth_bps; packet_bytes = datagram_size req })
        0
        (duration_ns req)
    → send_down d req ≡ ok s
    → length c.packets < 2 ^ 64
    → datagram_size req + 64 ≤ c.vec_room
    → duration + straggle_grace ≤ c.clock_room
    → Returns c.opened
    → Returns c.hello
    → All (Ensures (λ q. IsOneOf s.sent q.bytes)) c.packets
    → let server = sender_report s d.elapsed in
      Ensures
        (λ client.
          (client.packets ≤ server.packets)
          × (client.max_seq ≤ server.max_seq)
          × (client.bytes ≡ u64 (client.packets * datagram_size req)))
        (run_udp_down F c duration req.payload_size)
send_down-run_udp_down F c d s req duration ticks l e short v t o h arrives =
    let num = send_down-Numbered d req s ticks l e in
    Ensures-mono _ (λ r g. (g.at_most, g.numbers, g.volume))
      (run_udp_down-Delivered F (datagram_size req) s.seq (datagram_size req + 64) s.sent num
        (omega arith) (omega arith) c duration req.payload_size v t refl short o h arrives)
