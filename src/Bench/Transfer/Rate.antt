-- ===== src/Bench/Transfer/Rate.antt =====
-- The sender of datagrams against its bandwidth.
use proxypen.Base.{ℕ, suc, ◌-◌, ◌*◌, ◌/◌, ◌<◌, ◌≤◌, refl, none, length, arith, Ensures, List, []}
use proxypen.Bench.Pacer.{Pacer}
use proxypen.Bench.Pacer.Schedule.{Limits, packet_ns, target_packets-le-rate}
use proxypen.Bench.Transfer.{Done, send_loop}
use proxypen.Bench.Transfer.Pace.{Sent, send_loop-Sent}

-- The sender keeps to the bandwidth. Let the buffer have at least 16 bytes, the clock move on with each reading and
-- the pacer limit the rate, clear of the width of u128. Started with the number `first` and nothing sent, the
-- loop stops; the datagrams are as long as the buffer and carry the numbers from `first` on; and the number behind
-- the last is either `first` or at most what the bandwidth allows until the deadline.
pub send_loop-rate :
    (now : ℕ → ℕ) (answer : ℕ → Done) (p : Pacer) (start deadline first bytes : ℕ) (buf : List ℕ)
    (fuel : ℕ)
    → ((k : ℕ) → now k < now (suc k))
    → 16 ≤ length buf
    → Limits p 0 deadline
    → 2 * deadline < fuel
    → Ensures
        (Sent now answer p start deadline
          (deadline * p.bandwidth_bps / packet_ns p)
          (length buf)
          first)
        (send_loop now answer p start deadline fuel
          (record { seq = first; bytes = bytes; sent = []; buf = buf; readings = 0; due = none }))
send_loop-rate now answer p start deadline first bytes buf fuel ticks long l h =
    send_loop-Sent now answer p start deadline (deadline * p.bandwidth_bps / packet_ns p)
      (length buf) first ticks long
      (λ t b. target_packets-le-rate p (t - start) deadline l (omega arith)) _ fuel refl
      (omega arith) refl refl (omega arith)
