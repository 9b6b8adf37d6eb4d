-- ===== src/Bench/Client/Data/Ends.antt =====
-- The data of each test of src/bench/client.rs comes to an end, where there is room for its buffers and its deadline.
use proxypen.Base.{
  Any, ℕ, zero, suc, ◌+◌, ◌-◌, refl, ◌≤◌, ◌<◌, max, List, [], ◌∷◌, All, take, ◌==◌, if◌then◌else◌,
  arith, Option, none, Outcome, ok, err, panic, stuck, Ensures, Ensures-ok, Ensures-if,
  Ensures-bind, Ensures-mono, Ensures-map_err,
}
use proxypen.Error.{IoError}
use proxypen.Bench.Protocol.{kind_tcp_up, udp_header_len}
use proxypen.Bench.Protocol.Refusals.{decoded-Any}
use proxypen.Bench.Pacer.{u64_max}
use proxypen.Bench.Stats.{Float64, UdpStats, default}
use proxypen.Bench.Transfer.{straggle_grace, enough}
use proxypen.Bench.Transfer.Writer.{transmit-Written, receive-Any}
use proxypen.Bench.Transfer.Pace.{send_loop-Sent, target_packets-le, encode_udp_header-ok}
use proxypen.Bench.Transfer.Network.{zeros, length-zeros, hello-Numbered}
use proxypen.Bench.Client.{BenchError, io, proxy, Received, ClientPlane, fits, fits-ok, HasRoom}
use proxypen.Bench.Client.Data.{run_tcp_data, send_up, run_udp_up, receive_down, run_udp_down}

-- The system's calls come back, and its clock moves on with each reading.
pub record Answers (d : ClientPlane) : Type 0 where
  pub opened : Ensures Any d.opened
  pub hello : Ensures Any d.hello
  pub packets : All (λ r. Ensures Any r) d.packets
  pub ticks : (k : ℕ) → d.clock k < d.clock (suc k)

module _ (d : ClientPlane) (h : Answers d) where
  behind : (k : ℕ) → k ≤ d.clock k
  behind zero = omega arith
  behind (suc k) = omega (arith, behind k, h.ticks k)

  fits-Any : {n limit : ℕ} → n ≤ limit → Ensures Any (fits n limit)
  fits-Any h = rw (fits-ok h) (Ensures-ok tt)

  module _ (duration size chunk : ℕ) (r : HasRoom d duration size chunk) where
    pub run_tcp_data-Any : (kind : ℕ) → Ensures Any (run_tcp_data d kind duration chunk)
    unfolding run_tcp_data
    run_tcp_data-Any kind =
        let deadline : duration + (if kind == kind_tcp_up then 0 else straggle_grace)
            ≤ d.clock_room =
          ground (arith, r.deadline) in
        Ensures-bind _ _ (Ensures-map_err proxy d.opened h.opened) λ _ _.
          Ensures-bind _ _ (fits-Any r.chunk) λ _ _. Ensures-bind _ _ (fits-Any deadline) λ _ _.
            Ensures-bind _ _
              (Ensures-map_err io _ (
                Ensures-if (kind == kind_tcp_up) _ _
                  (λ _.
                    Ensures-mono _ (λ _ _. tt)
                      (transmit-Written chunk d.clock d.writes duration duration (behind duration)
                        (enough duration) (omega arith)))
                  λ _. receive-Any chunk d.reads 0))
              λ _ _. Ensures-ok tt

    send_up-Any : (bandwidth_bps : ℕ) → Ensures Any (send_up d duration size bandwidth_bps)
    unfolding send_up
    send_up-Any bandwidth_bps =
        let len = max size udp_header_len in
        let start =
          encode_udp_header-ok BenchError (zeros len) 0 0 (omega (arith, length-zeros len)) in
        let (m, ts, next, long, header, none_before) =
          hello-Numbered BenchError len _ (omega arith) start in
        Ensures-bind _ _ (Ensures-map_err proxy d.opened h.opened) λ _ _.
          Ensures-bind _ _ (fits-Any (omega (arith, r.datagram))) λ _ _. rw start (
            Ensures-bind _ _ (Ensures-map_err io d.hello h.hello) λ _ _.
              Ensures-bind _ _ (fits-Any (omega (arith, r.deadline))) λ _ _. Ensures-map_err io _ (
                Ensures-mono _ (λ _ _. tt)
                  (send_loop-Sent d.clock _ _ d.pacer_start duration u64_max len 0 h.ticks
                    (omega arith) (λ t _. target_packets-le _ (t - d.pacer_start)) _
                    (enough duration) (m, ts, next, long, header, none_before) (omega arith) long
                    refl (omega arith))))

    pub run_udp_up-Any :
        (bandwidth_bps : ℕ) → Ensures Any (run_udp_up d duration size bandwidth_bps)
    unfolding run_udp_up
    run_udp_up-Any bandwidth_bps = Ensures-bind _ _ (send_up-Any bandwidth_bps) λ _ _. Ensures-ok tt

    module _ (F : Float64) where
      receive_down-Any :
          (room : ℕ) (rs : List (Outcome IoError Received)) (start : Option ℕ) (s : UdpStats F)
          → All (λ r. Ensures Any r) rs
          → Ensures Any (receive_down F room rs start s)
      unfolding receive_down
      receive_down-Any room [] start s a = Ensures-ok tt
      receive_down-Any room (err e ∷ rs) start s a = Ensures-ok tt
      receive_down-Any room (panic ∷ rs) start s a = absurd a.0.holds
      receive_down-Any room (stuck ∷ rs) start s a = absurd a.0.holds
      receive_down-Any room (ok q ∷ rs) start s a =
          Ensures-bind _ _ (decoded-Any (take room q.bytes)) λ _ _. receive_down-Any room rs _ _ a.1

      pub run_udp_down-Any : Ensures Any (run_udp_down F d duration size)
      unfolding run_udp_down
      run_udp_down-Any =
          let len = max size udp_header_len in
          Ensures-bind _ _ (Ensures-map_err proxy d.opened h.opened) λ _ _.
            Ensures-bind _ _ (fits-Any (omega (arith, r.datagram))) λ _ _.
              rw (encode_udp_header-ok BenchError (zeros len) 0 0 (omega (arith, length-zeros len)))
                (Ensures-bind _ _ (Ensures-map_err io d.hello h.hello) λ _ _.
                  Ensures-bind _ _ (fits-Any r.datagram) λ _ _.
                    Ensures-bind _ _ (fits-Any r.deadline) λ _ _.
                      Ensures-bind _ _
                        (receive_down-Any (len + 64) d.packets none (default F) h.packets)
                        λ _ _. Ensures-ok tt)
