-- ===== src/Bench/Transfer.antt =====
-- The loops that src/bench/server.rs and src/bench/client.rs share: they are the same lines in both. Times
-- are nanoseconds since the loop's start. What the system answers and the clock's readings, in the order
-- in which the code takes them, are arguments.
pub mod Writer
pub mod Pace
pub mod Rate
pub mod Network
mod Runs
use proxypen.Base.{
  ℕ, zero, suc, ◌+◌, ◌-◌, ◌*◌, ◌%◌, ◌^◌, ◌<◌, min, List, [], ◌∷◌, Bool, true, false, Option, none,
  some, length, leb, ltb, ◌==◌, if◌then◌else◌, Outcome, ok, err, panic, stuck, ◌>>=◌,
}
use proxypen.Base.Loop.{Round, stop, again, iterate}
use proxypen.Error.{IoError}
use proxypen.Bench.Protocol.{TestReport, encode_udp_header}
use proxypen.Bench.Pacer.{Pacer, target_packets}
use proxypen.Bench.Stats.{u64}

-- `STRAGGLE_GRACE`
abbrev pub straggle_grace : ℕ
straggle_grace = 500_000_000

-- How a read, a write or a send ended: with a number of bytes, or in an error.
pub data Done : Type 0 where
  done : ℕ → Done
  failed : IoError → Done

-- Reading until the peer closes, the read fails or the deadline fires; `reads` has the bytes that are there at
-- each read which came before the deadline.
unfoldable pub receive : ℕ → List Done → ℕ → Outcome IoError ℕ
receive chunk [] bytes = ok bytes
receive chunk (failed e ∷ reads) bytes = err e
receive chunk (done available ∷ reads) bytes =
    let n = min available chunk in
    let rest = receive chunk reads (u64 (bytes + n)) in if n == 0 then ok bytes else rest

-- After write `k`.
wrote : ℕ → ℕ → ℕ → Done → Outcome IoError (Round (ℕ × ℕ) ℕ)
wrote chunk k bytes (failed e) = ok (stop bytes)
wrote chunk k bytes (done accepted) =
    let n = min accepted chunk in
    if n == 0 then ok (stop bytes) else ok (again (suc k, u64 (bytes + n)))

-- A round of writing while the clock is before the deadline; reading `k` of the clock comes before write `k`.
-- The state is `k` and the bytes written.
write_round : ℕ → (ℕ → ℕ) → (ℕ → Done) → ℕ → ℕ × ℕ → Outcome IoError (Round (ℕ × ℕ) ℕ)
unfolding wrote
write_round chunk now write deadline (k, bytes) =
    if ltb (now k) deadline then wrote chunk k bytes (write k) else ok (stop bytes)

unfoldable pub transmit : ℕ → (ℕ → ℕ) → (ℕ → Done) → ℕ → ℕ → Outcome IoError ℕ
unfolding write_round
transmit chunk now write deadline fuel = iterate (write_round chunk now write deadline) fuel (0, 0)

-- The sender of datagrams: the number of the next one, the bytes counted, what was sent, newest first; the
-- buffer, and how many readings of the clock were taken.
pub record Sender : Type 0 where
  pub seq : ℕ
  pub bytes : ℕ
  pub sent : List (List ℕ)
  pub buf : List ℕ
  pub readings : ℕ
  -- In the inner loop: `due`, a u64.
  pub due : Option ℕ

module _ (now : ℕ → ℕ) (answer : ℕ → Done) (p : Pacer) (start deadline : ℕ) where
  -- `send` of a datagram that is stamped; `seq` is below `due` and so does not overflow.
  sent_one : Sender → List ℕ → Done → Outcome IoError (Round Sender Sender)
  sent_one s out (failed e) = ok (stop s)
  sent_one s out (done n) = ok (
      again (record s {
        seq = suc s.seq;
        bytes = u64 (s.bytes + n);
        sent = out ∷ s.sent;
        buf = out;
        readings = suc (suc s.readings);
      }))

  -- A turn of the outer loop (`start` is the pacer's), and one of the inner loop.
  outer_round : Sender → Outcome IoError (Round Sender Sender)
  outer_round s =
      if leb deadline (now s.readings)
      then ok (stop s)
      else ok (
          again (record s {
            readings = suc (suc s.readings);
            due = some (target_packets p (now (suc s.readings) - start));
          }))

  inner_round : Sender → ℕ → Outcome IoError (Round Sender Sender)
  unfolding sent_one
  inner_round s due =
      if ltb s.seq due
      then (if leb deadline (now s.readings)
          then ok (stop s)
          else encode_udp_header s.buf s.seq (u64 (now (suc s.readings))) >>= λ out.
              sent_one s out (answer s.seq))
      else ok (again (record s { due = none }))

  next_round : Sender → Option ℕ → Outcome IoError (Round Sender Sender)
  unfolding outer_round inner_round
  next_round s none = outer_round s
  next_round s (some due) = inner_round s due

  send_round : Sender → Outcome IoError (Round Sender Sender)
  unfolding next_round
  send_round s = next_round s s.due

  unfoldable pub send_loop : ℕ → Sender → Outcome IoError Sender
  unfolding send_round
  send_loop = iterate send_round

-- Fuel for a loop until a deadline: each round but one in two takes a reading of the clock, which moves on.
abbrev pub enough : ℕ → ℕ
enough deadline = suc (2 * deadline)

-- The report of a side that counts bytes only.
abbrev pub bytes_report : ℕ → ℕ → TestReport
bytes_report bytes elapsed = record {
  bytes = bytes;
  packets = 0;
  max_seq = 0;
  ooo = 0;
  dup = 0;
  jitter_ns = 0;
  latency_min_ns = 0;
  latency_max_ns = 0;
  latency_sum_ns = 0;
  duration_actual_ns = u64 elapsed;
}

-- The report of a side that sent datagrams.
abbrev pub sender_report : Sender → ℕ → TestReport
sender_report s elapsed = record (bytes_report s.bytes elapsed) {
  packets = s.seq;
  max_seq = s.seq - 1;
}
