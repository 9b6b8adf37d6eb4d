-- ===== src/Bench/Stats/Runs.antt =====
-- The receiver's statistics of src/bench/stats.rs on short histories, with whole numbers for the jitter.
use proxypen.Base.{
  ◌++◌, ok, ℕ, ◌+◌, ◌-◌, ◌/◌, ◌%◌, ◌^◌, ◌<◌, ◌≡◌, refl, arith, false, All, List, [], ◌∷◌,
}
use proxypen.Bench.Stats.{Float64, Arrival, contains, default, into_report, record_arrival}
use proxypen.Bench.Stats.Counts.{received, late, maximum, Counted, received-Counted}
use proxypen.Bench.Protocol.{TestReport, read_report, write_report}
use proxypen.Bench.Stats.Reported.{Reported, read_report-into_report}
use proxypen.Bench.Stats.Latency.{
  ArrivalFits, Measured, latency_min_forgets_zero, received-Measured,
}

wrapped : (x : ℕ) → x % 2 ^ 64 < 2 ^ 64
wrapped x = omega arith

abbrev whole : Float64
whole = record {
  Carrier = ℕ;
  zero = 0;
  from_u64 = λ n. n;
  add = λ a b. a + b;
  sub = λ a b. a - b;
  div = λ a b. a / b;
  as_u64 = λ n. n % 2 ^ 64;
  as_u64_bound = wrapped;
}

abbrev datagram : ℕ → ℕ → ℕ → Arrival
datagram seq sent came = record {
  seq = seq;
  send_ts_ns = sent;
  recv_ts_ns = came;
  payload_len = 100;
}

-- 1, 3, 2, 3, newest first
abbrev history : List Arrival
history = datagram 3 30 45 ∷ datagram 2 20 42 ∷ datagram 3 30 38 ∷ datagram 1 10 15 ∷ []

history-fits : All ArrivalFits history
history-fits = (
  record { seq = omega arith; recv = omega arith },
  (
    record { seq = omega arith; recv = omega arith },
    (
      record { seq = omega arith; recv = omega arith },
      (record { seq = omega arith; recv = omega arith }, tt),
    ),
  ),
)

received-Counted_example : Counted whole history (received whole history)
received-Counted_example = received-Counted whole history (omega arith)

received-Measured_example : Measured whole history (received whole history)
received-Measured_example = received-Measured whole history (omega arith)

read_report-into_report_example :
    (r : TestReport) × (read_report
        (write_report (into_report whole (received whole history) 1_000) ++ (7 ∷ []))
      ≡ ok (r, 7 ∷ []))
    × Reported whole history 1_000 r
read_report-into_report_example =
    read_report-into_report whole history 1_000 (7 ∷ []) (omega arith) history-fits (omega arith)

unseen_1 : contains 1 [] ≡ false
unfolding contains
unseen_1 = refl

unseen_2 : contains 2 (1 ∷ []) ≡ false
unfolding contains
unseen_2 = refl

latency_min_forgets_zero_example :
    (record_arrival whole
      (record_arrival whole (default whole) (datagram 1 10 10))
      (datagram 2 20 99)).latency_min_ns
    ≡ 79
latency_min_forgets_zero_example =
    latency_min_forgets_zero whole (default whole) (datagram 1 10 10) (datagram 2 20 99) unseen_1
      unseen_2 refl

history_late : late history ≡ 1
unfolding late contains maximum
history_late = refl
