-- ===== src/Bench/Stats/Reported.antt =====
-- The report of src/bench/stats.rs as the other side reads it from its bytes in src/bench/protocol.rs.
use proxypen.Base.{ℕ, ◌+◌, ◌^◌, ◌<◌, ◌≡◌, List, ◌++◌, length, map, All, arith, ok, refl}
use proxypen.Bench.Protocol.{TestReport, read_report, write_report}
use proxypen.Bench.Protocol.RoundTrip.{ReportFits, read_report-write_report}
use proxypen.Bench.Stats.{Float64, Arrival, into_report, u64}
use proxypen.Bench.Stats.Counts.{
  received, firsts, seqs, late, maximum, sum, received-Counted, length-firsts, length-late,
}
use proxypen.Bench.Stats.Latency.{ArrivalFits, received-Measured, maximum-lt}

module _ (F : Float64) where
  into_report-ReportFits :
      (h : List Arrival) (d : ℕ)
      → length h < 2 ^ 64
      → All ArrivalFits h
      → d < 2 ^ 64
      → ReportFits (into_report F (received F h) d)
  unfolding into_report
  into_report-ReportFits h d l f hd =
      let c = received-Counted F h l in
      let m = received-Measured F h l in
      record {
        bytes = omega (arith, c.bytes);
        packets = omega (arith, c.packets, length-firsts h);
        max_seq = omega (arith, c.max_seq, maximum-lt h f);
        ooo = omega (arith, c.ooo, length-late h);
        dup = omega (arith, c.dup);
        jitter_ns = F.as_u64_bound (received F h).jitter_ns;
        latency_min_ns = m.in_range f;
        latency_max_ns = m.in_range_max f;
        latency_sum_ns = ground arith;
        duration_actual_ns = hd;
      }

  -- The counters of a report are those of the datagrams behind it.
  pub record Reported (h : List Arrival) (d : ℕ) (r : TestReport) : Type 0 where
    pub packets : r.packets ≡ length (firsts h)
    pub dup : r.dup + length (firsts h) ≡ length h
    pub ooo : r.ooo ≡ late h
    pub max_seq : r.max_seq ≡ maximum (seqs h)
    pub bytes : r.bytes ≡ u64 (sum (map (λ a. a.payload_len) (firsts h)))
    pub duration : r.duration_actual_ns ≡ d

  -- The report of fewer than 2^64 datagrams, with numbers and times of 64 bits, is read by the other side from the bytes
  -- that are written of it, and leaves what comes behind them. What was read counts the packets, the duplicates, the
  -- late ones, the greatest number and the bytes of the whole history, and has the duration.
  pub read_report-into_report :
      (h : List Arrival) (d : ℕ) (rest : List ℕ)
      → length h < 2 ^ 64
      → All ArrivalFits h
      → d < 2 ^ 64
      → (r : TestReport) × (read_report (write_report (into_report F (received F h) d) ++ rest)
          ≡ ok (r, rest))
        × Reported h d r
  unfolding into_report
  read_report-into_report h d rest l f hd =
      let c = received-Counted F h l in
      (
        into_report F (received F h) d,
        read_report-write_report (into_report F (received F h) d) rest
            (into_report-ReportFits h d l f hd),
        record {
          packets = c.packets;
          dup = c.dup;
          ooo = c.ooo;
          max_seq = c.max_seq;
          bytes = c.bytes;
          duration = refl;
        },
      )
