-- ===== src/Bench/Transfer/Runs.antt =====
-- The loops of Bench/Transfer with a clock that moves on by one with each reading.
use proxypen.Base.{
  ℕ, suc, ◌*◌, ◌/◌, ◌<◌, ◌≡◌, refl, arith, List, [], ◌∷◌, replicate, length, none, ok, err, Ensures,
}
use proxypen.Error.{broken_pipe}
use proxypen.Bench.Pacer.{Pacer}
use proxypen.Bench.Pacer.Schedule.{Limits, packet_ns}
use proxypen.Bench.Transfer.{Done, done, failed, receive, transmit, send_loop}
use proxypen.Bench.Transfer.Writer.{Written, transmit-Written}
use proxypen.Bench.Transfer.Pace.{Sent}
use proxypen.Bench.Transfer.Rate.{send_loop-rate}
use proxypen.Base.Loop

abbrev clock : ℕ → ℕ
clock k = k

abbrev takes : ℕ → Done
takes k = done 100

transmit-Written_example :
    Ensures (Written 64 clock takes 5 5 (omega arith)) (transmit 64 clock takes 5 6)
transmit-Written_example = transmit-Written 64 clock takes 5 5 (omega arith) 6 (omega arith)

transmitted : transmit 64 clock takes 5 6 ≡ ok 320
unfolding transmit Loop.iterate
transmitted = refl

abbrev buffer : List ℕ
buffer = replicate 20 0

abbrev pacer : Pacer
pacer = record { bandwidth_bps = 8_000_000; packet_bytes = 20 }

pacer-Limits : Limits pacer 0 100
pacer-Limits = record {
  bandwidth = omega arith;
  packet = omega arith;
  bytes = omega arith;
  time = omega arith;
  count = omega arith;
}

moves_on : (k : ℕ) → clock k < clock (suc k)
moves_on k = omega arith

send_loop-rate_example :
    Ensures
      (Sent clock takes pacer 0 100 (100 * pacer.bandwidth_bps / packet_ns pacer) (length buffer) 1)
      (send_loop clock takes pacer 0 100 201
        (record { seq = 1; bytes = 20; sent = []; buf = buffer; readings = 0; due = none }))
send_loop-rate_example =
    send_loop-rate clock takes pacer 0 100 1 20 buffer 201 moves_on (omega arith) pacer-Limits
      (omega arith)

received : receive 64 (done 10 ∷ done 100 ∷ done 0 ∷ done 7 ∷ []) 0 ≡ ok 74
unfolding receive
received = refl

read_fails : receive 64 (done 10 ∷ failed broken_pipe ∷ []) 0 ≡ err broken_pipe
unfolding receive
read_fails = refl
