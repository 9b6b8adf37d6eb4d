-- ===== src/Bench/Server/Data.antt =====
-- The data of each test of src/bench/server.rs comes to an end.
use proxypen.Base.{
  Any, ℕ, zero, suc, ◌-◌, ◌<◌, ◌≤◌, ◌≡◌, refl, max, List, [], ◌∷◌, All, length, take, replicate,
  length-replicate, arith, Bool, Outcome, Ensures, Ensures-ok, Ensures-if, Ensures-bind,
  Ensures-mono,
}
use proxypen.Error.{IoError}
use proxypen.Net.{SocketAddr, same_socket}
use proxypen.Bench.Protocol.{TestRequest}
use proxypen.Bench.Protocol.Refusals.{decoded-Any}
use proxypen.Bench.Pacer.{u64_max}
use proxypen.Bench.Stats.{Float64, UdpStats}
use proxypen.Bench.Transfer.{enough}
use proxypen.Bench.Transfer.Writer.{transmit-Written, receive-Any}
use proxypen.Bench.Transfer.Pace.{send_loop-Sent, target_packets-le}
use proxypen.Bench.Server.{
  DataPlane, Packet, tcp_up_data, tcp_down_data, udp_up_data, udp_down_data, duration_ns,
  datagram_size, send_down, process_packet, next_packet, receive_packets,
}

-- The system's calls come back, and its clock moves on with each reading.
pub record Answers (d : DataPlane) : Type 0 where
  pub listen : Ensures Any d.listen
  pub accept : Ensures Any d.accept
  pub hello : Ensures Any d.hello
  pub packets : All (λ r. Ensures Any r) d.packets
  pub ticks : (k : ℕ) → d.clock k < d.clock (suc k)

module _ (d : DataPlane) (h : Answers d) (req : TestRequest) where
  behind : (k : ℕ) → k ≤ d.clock k
  behind zero = omega arith
  behind (suc k) = omega (arith, behind k, h.ticks k)

  pub tcp_up_data-Any : Ensures Any (tcp_up_data d req)
  unfolding tcp_up_data
  tcp_up_data-Any =
      Ensures-bind _ _ h.accept λ _ _.
        Ensures-bind _ _ (receive-Any (max req.payload_size 1) d.reads 0) λ _ _. Ensures-ok tt

  pub tcp_down_data-Any : Ensures Any (tcp_down_data d req)
  unfolding tcp_down_data
  tcp_down_data-Any =
      let t = duration_ns req in
      Ensures-bind _ _ h.accept λ _ _.
        Ensures-bind _ _
          (transmit-Written (max req.payload_size 1) d.clock d.writes t t (behind t) (enough t)
            (omega arith))
          λ _ _. Ensures-ok tt

  send_down-Any : Ensures Any (send_down d req)
  unfolding send_down
  send_down-Any =
      let t = duration_ns req in
      let size = datagram_size req in
      let l : length (replicate {A = ℕ} size 0) ≡ size = length-replicate {0} size 0 in
      Ensures-bind _ _ h.hello λ _ _.
        Ensures-mono _ (λ _ _. tt)
          (send_loop-Sent d.clock d.writes _ d.pacer_start t u64_max size 0 h.ticks (omega arith)
            (λ k _. target_packets-le _ (k - d.pacer_start)) _ (enough t) refl (omega arith) l refl
            (omega arith))

  pub udp_down_data-Any : Ensures Any (udp_down_data d req)
  unfolding udp_down_data
  udp_down_data-Any = Ensures-bind _ _ send_down-Any λ _ _. Ensures-ok tt

module _ (F : Float64) where
  process_packet-Any :
      (s : UdpStats F) (buf : List ℕ) (came : ℕ) → Ensures Any (process_packet F s buf came)
  unfolding process_packet
  process_packet-Any s buf came = Ensures-bind _ _ (decoded-Any buf) λ _ _. Ensures-ok tt

  next_packet-Any :
      (b : Bool) (r : Outcome IoError (UdpStats F)) (s : UdpStats F)
      (more : UdpStats F → Outcome IoError (UdpStats F))
      → Ensures Any r
      → ((s' : UdpStats F) → Ensures Any (more s'))
      → Ensures Any (next_packet F b r s more)
  unfolding next_packet
  next_packet-Any b r s more h k =
      Ensures-if b _ _ (λ _. Ensures-bind _ _ h λ s' _. k s') (λ _. k s)

  receive_packets-Any :
      (peer : SocketAddr) (room : ℕ) (rs : List (Outcome IoError Packet)) (s : UdpStats F)
      → All (λ r. Ensures Any r) rs
      → Ensures Any (receive_packets F peer room rs s)
  unfolding receive_packets
  receive_packets-Any peer room [] s h = Ensures-ok tt
  receive_packets-Any peer room (r ∷ rs) s h = Ensures-bind r _ h.0 λ q _.
      next_packet-Any (same_socket q.from peer) (process_packet F s (take room q.bytes) q.came) s _
        (process_packet-Any s (take room q.bytes) q.came)
        (λ s'. receive_packets-Any peer room rs s' h.1)

  pub udp_up_data-Any :
      (d : DataPlane) → Answers d → (req : TestRequest) → Ensures Any (udp_up_data F d req)
  unfolding udp_up_data
  udp_up_data-Any d h req = Ensures-bind _ _ h.hello λ hello _.
      Ensures-bind _ _ (process_packet-Any _ _ _) λ s _.
        Ensures-bind _ _ (receive_packets-Any hello.from _ d.packets s h.packets)
          λ _ _. Ensures-ok tt
