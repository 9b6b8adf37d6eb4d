-- ===== src/Press/Sorted.antt =====
-- The order of the statistics that src/press.rs reports.
use proxypen.Base.{
  ℕ, zero, suc, ◌+◌, ◌-◌, ◌<◌, ◌≡◌, refl, ◌∙◌, min, List, [], ◌∷◌, length, All, false, ◌==◌, arith,
  ok, index, index-lt, Ensures, Ensures-ok, Ensures-bind,
}
use proxypen.Base.Flow
use proxypen.Error.{IoError}
use proxypen.Press.{
  PressProtocol, Milliseconds, LatencyStats, percentile, from_sorted_ms, Press, Reachable, sort_by,
  PressResult, press_result,
}
use proxypen.Press.Tasks.{failures, kept_count, Reachable-Balanced}
use proxypen.Press.Order.{
  IsOrder, Leq, Leq-refl, IsSorted, sort_by-All, index-All, sort_by-IsSorted, length-sort_by,
  Leq-index,
}

module _ (M : Milliseconds) (o : IsOrder M) where
  -- The index that a percentile reads
  abbrev at_rank : List M.Carrier → ℕ → ℕ
  at_rank xs p = min (M.rank p (length xs)) (length xs - 1)

  percentile-at_rank :
      (xs : List M.Carrier) (p : ℕ)
      → 0 < length xs
      → (a : M.Carrier) × (index {E = IoError} xs (at_rank xs p) ≡ ok a)
        × (percentile M xs p ≡ ok a)
  unfolding percentile
  percentile-at_rank xs p h =
      let (a, e) = index-lt IoError xs (at_rank xs p) (omega arith) in
      let some_samples : (length xs == 0) ≡ false = ground arith in (a, e, rw some_samples e)

  -- The statistics of `samples`: as many samples, the least, the percentiles and the greatest in order, and every
  -- sample between the least and the greatest.
  pub record IsSummary (samples : List M.Carrier) (s : LatencyStats M) : Type 0 where
    pub sample_count : s.sample_count ≡ length samples
    pub least : All (Leq M o s.min_ms) samples
    pub greatest : All (λ x. Leq M o x s.max_ms) samples
    pub min_p50 : Leq M o s.min_ms s.p50_ms
    pub p50_p90 : Leq M o s.p50_ms s.p90_ms
    pub p90_p95 : Leq M o s.p90_ms s.p95_ms
    pub p95_p99 : Leq M o s.p95_ms s.p99_ms
    pub p99_max : Leq M o s.p99_ms s.max_ms

  index-below :
      (xs : List M.Carrier) (i : ℕ) (a : M.Carrier)
      → index {E = IoError} xs i ≡ ok a
      → i < length xs
  unfolding Flow.index
  index-below [] i a e = cc
  index-below (x ∷ xs) zero a e = omega arith
  index-below (x ∷ xs) (suc i) a e = omega (arith, index-below xs i a e)

  -- The least and the greatest sample, by their places in the sorted ones
  module _ (samples xs : List M.Carrier) (least greatest : M.Carrier)
      (sorted : sort_by M samples ≡ xs) (s : IsSorted M o xs)
      (e0 : index {E = IoError} xs 0 ≡ ok least)
      (e1 : index {E = IoError} xs (length xs - 1) ≡ ok greatest) where
    all_least : All (Leq M o least) samples
    all_least = sort_by-All M o (Leq M o least) samples (
        rw sorted (
          index-All M o (Leq M o least) xs
            (λ i x e. Leq-index M o xs 0 i least x s (omega arith) e0 e)))

    all_greatest : All (λ x. Leq M o x greatest) samples
    all_greatest =
        sort_by-All M o (λ x. Leq M o x greatest) samples
          (rw sorted (
            index-All M o (λ x. Leq M o x greatest) xs
              (λ i x e.
                Leq-index M o xs i (length xs - 1) x greatest s
                  (omega (arith, index-below xs i x e)) e e1)))

  from_sorted_ms-IsSummary :
      (samples xs : List M.Carrier)
      → sort_by M samples ≡ xs
      → length xs ≡ length samples
      → IsSorted M o xs
      → 0 < length xs
      → Ensures (IsSummary samples) (from_sorted_ms M xs)
  unfolding from_sorted_ms
  from_sorted_ms-IsSummary samples xs sorted n s h =
      let some_samples : (length xs == 0) ≡ false = ground arith in
      let (least, e0) = index-lt IoError xs 0 h in
      let (greatest, e1) = index-lt IoError xs (length xs - 1) (omega arith) in
      let (a, i50, e50) = percentile-at_rank xs 50 h in
      let (b, i90, e90) = percentile-at_rank xs 90 h in
      let (c, i95, e95) = percentile-at_rank xs 95 h in
      let (d, i99, e99) = percentile-at_rank xs 99 h in
      rw (some_samples, e0, e1, e50, e90, e95, e99)
        (Ensures-ok (record {
          sample_count = n;
          least = all_least samples xs least greatest sorted s e0 e1;
          greatest = all_greatest samples xs least greatest sorted s e0 e1;
          min_p50 = Leq-index M o xs 0 (at_rank xs 50) least a s (omega arith) e0 i50;
          p50_p90 =
              Leq-index M o xs (at_rank xs 50) (at_rank xs 90) a b s
                (omega (arith, o.rank_mono 50 90 (length xs) (omega arith))) i50 i90;
          p90_p95 =
              Leq-index M o xs (at_rank xs 90) (at_rank xs 95) b c s
                (omega (arith, o.rank_mono 90 95 (length xs) (omega arith))) i90 i95;
          p95_p99 =
              Leq-index M o xs (at_rank xs 95) (at_rank xs 99) c d s
                (omega (arith, o.rank_mono 95 99 (length xs) (omega arith))) i95 i99;
          p99_max =
              Leq-index M o xs (at_rank xs 99) (length xs - 1) d greatest s (omega arith) i99 e1;
        }))

  sort_by-IsSummary :
      (samples : List M.Carrier)
      → Ensures (IsSummary samples) (from_sorted_ms M (sort_by M samples))
  sort_by-IsSummary [] =
      unfold sort_by from_sorted_ms in
      Ensures-ok (record {
        sample_count = refl;
        least = tt;
        greatest = tt;
        min_p50 = Leq-refl M o M.zero_ms;
        p50_p90 = Leq-refl M o M.zero_ms;
        p90_p95 = Leq-refl M o M.zero_ms;
        p95_p99 = Leq-refl M o M.zero_ms;
        p99_max = Leq-refl M o M.zero_ms;
      })
  sort_by-IsSummary (x ∷ xs) =
      from_sorted_ms-IsSummary (x ∷ xs) (sort_by M (x ∷ xs)) refl (length-sort_by M o (x ∷ xs))
        (sort_by-IsSorted M o (x ∷ xs)) (omega (arith, length-sort_by M o (x ∷ xs)))

  -- What `press` returns
  pub record IsReport (concurrency num_requests : ℕ) (s : Press M) (r : PressResult M)
      : Type 0 where
    pub ttfb : IsSummary s.ttfb r.ttfb
    pub total_time : IsSummary s.total r.total_time
    pub ttfb_count : r.ttfb.sample_count ≡ r.success_count
    pub total_count : r.total_time.sample_count ≡ r.success_count
    pub requests : r.success_count + r.error_count + s.crashed ≡ r.total_requests
    pub errors : length r.errors ≡ min r.error_count 50

  -- However the tasks interleaved: once a run is over its report comes out without a panic. It has a sample of either
  -- kind for each success and counts each request once, but for tasks that panicked; the percentiles lie in their order
  -- between the least and the greatest sample, and no sample lies outside those.
  pub press_result-IsReport :
      (concurrency num_requests : ℕ) (s : Press M) (protocol : PressProtocol) (total_duration : ℕ)
      → Reachable M concurrency num_requests s
      → s.waiting ≡ 0
      → s.running ≡ 0
      → Ensures
          (IsReport concurrency num_requests s)
          (press_result M protocol num_requests total_duration s)
  unfolding press_result
  press_result-IsReport concurrency num_requests s protocol total_duration r w k =
      let b = Reachable-Balanced M concurrency num_requests r in
      Ensures-bind (from_sorted_ms M (sort_by M s.ttfb)) _ (sort_by-IsSummary s.ttfb) λ f p.
        Ensures-bind (from_sorted_ms M (sort_by M s.total)) _ (sort_by-IsSummary s.total) λ t q.
          Ensures-ok (record {
            ttfb = p;
            total_time = q;
            ttfb_count = p.sample_count ∙ b.ttfb;
            total_count = q.sample_count ∙ b.total;
            requests = omega (arith, b.tasks);
            errors =
                kept_count M concurrency num_requests (failures M concurrency num_requests r) b;
          })
