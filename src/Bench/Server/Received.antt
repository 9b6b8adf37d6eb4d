-- ===== src/Bench/Server/Received.antt =====
-- The UDP upload on the server's side of src/bench/server.rs, over a network that loses, repeats and reorders datagrams.
use proxypen.Base.{
  IsOneOf, ℕ, suc, ◌+◌, ◌^◌, ◌≤◌, ◌<◌, ◌≡◌, true, List, [], ◌∷◌, length, take, take_all, All, arith,
  Outcome, Ensures, Ensures-ok, Ensures-bind, Ensures-if, Ensures-mono,
}
use proxypen.Error.{IoError}
use proxypen.Net.{SocketAddr, same_socket}
use proxypen.Bench.Protocol.{TestRequest}
use proxypen.Bench.Stats.{Float64, Arrival, UdpStats, default, into_report, u64}
use proxypen.Bench.Stats.Delivered.{Delivered}
use proxypen.Bench.Transfer.Pace.{Numbered}
use proxypen.Bench.Transfer.Network.{
  Numbered-IsOneOf, Kept, Kept-mono, default-Kept, record_arrival-Kept, Kept-Delivered,
}
use proxypen.Bench.Server.{
  Packet, DataPlane, datagram_size, counted, process_packet, receive_packets, next_packet,
  udp_up_data,
}

-- What comes from `peer` is one of the datagrams, unchanged.
abbrev pub Arrives : List (List ℕ) → SocketAddr → Outcome IoError Packet → Type 0
Arrives ds peer = Ensures (λ q. same_socket q.from peer ≡ true → IsOneOf ds q.bytes)

module _ (F : Float64) (len n room : ℕ) (ds : List (List ℕ)) (num : Numbered len 0 n ds)
    (fits : len ≤ room) where
  process_packet-Kept :
      (k : ℕ) (s : UdpStats F) (bytes : List ℕ) (came : ℕ)
      → Kept F len n k s
      → IsOneOf ds bytes
      → Ensures (Kept F len n (suc k)) (process_packet F s (take room bytes) came)
  unfolding process_packet counted
  process_packet-Kept k s bytes came h i =
      let (seq, ts, b, l, e) = Numbered-IsOneOf len 0 n ds bytes num i in
      let a : Arrival = record {
        seq = seq;
        send_ts_ns = ts;
        recv_ts_ns = u64 came;
        payload_len = length bytes;
      } in
      rw (take_all room bytes (omega arith), e)
        (Ensures-ok (record_arrival-Kept F len n k s a b l h))

  receive_packets-Kept :
      (peer : SocketAddr) (rs : List (Outcome IoError Packet)) (k : ℕ) (s : UdpStats F)
      → Kept F len n k s
      → All (Arrives ds peer) rs
      → Ensures (Kept F len n (k + length rs)) (receive_packets F peer room rs s)
  unfolding receive_packets next_packet
  receive_packets-Kept peer [] k s h a = Ensures-ok (Kept-mono F len n k (k + 0) s (omega arith) h)
  receive_packets-Kept peer (r ∷ rs) k s h a = Ensures-bind r _ a.0 λ q c.
      Ensures-mono _ (λ t g. Kept-mono F len n _ _ t (omega arith) g)
        (Ensures-if (same_socket q.from peer) _ _
          (λ e.
            Ensures-bind _ _ (process_packet-Kept k s q.bytes q.came h (c e))
              λ t g. receive_packets-Kept peer rs (suc k) t g a.1)
          λ _.
            Ensures-mono _
              (λ t g. Kept-mono F len n (k + length rs) (suc k + length rs) t (omega arith) g)
              (receive_packets-Kept peer rs k s h a.1))

  -- What the server reports of an upload
  pub udp_up_data-Delivered :
      (d : DataPlane) (req : TestRequest)
      → datagram_size req + 64 ≡ room
      → suc (length d.packets) < 2 ^ 64
      → Ensures (λ hello. IsOneOf ds hello.bytes × All (Arrives ds hello.from) d.packets) d.hello
      → Ensures (λ r. Delivered n len r.packets r.max_seq r.bytes) (udp_up_data F d req)
  unfolding udp_up_data into_report
  udp_up_data-Delivered d req e l a = rw e (
      Ensures-bind d.hello _ a λ hello (i, c).
        Ensures-bind _ _
          (process_packet-Kept 0 (default F) hello.bytes hello.came (default-Kept F len n) i)
          λ s h. Ensures-bind _ _ (receive_packets-Kept hello.from d.packets 1 s h c) λ s' g.
            let c = Kept-Delivered F len n (1 + length d.packets) s' (omega arith) g in
            Ensures-ok (record { at_most = c.at_most; numbers = c.numbers; volume = c.volume }))
