-- ===== src/Press.antt =====
-- src/press.rs: the tasks of a press run as steps of a state, and the statistics. Tasks interleave at will; what
-- each test of the target results in comes with its step. Floating point is an argument.
pub mod Tasks
pub mod Percentiles
pub mod Order
pub mod Report
pub mod Sorted
pub mod Permuted
mod Runs
use proxypen.Base.{
  ℕ, zero, suc, ◌+◌, ◌-◌, ◌<◌, ◌≤◌, min, List, [], ◌∷◌, ◌++◌, length, ltb, ◌==◌, if◌then◌else◌,
  Bool, codes, Outcome, ok, err, panic, index, ◌>>=◌,
}
use proxypen.Error.{IoError}
use proxypen.Results.{success, failed, TestResult, Timing}

pub data PressProtocol : Type 0 where
  http1 http2 http3 : PressProtocol

-- `fmt` for `PressProtocol`
unfoldable pub press_protocol_name : PressProtocol → List ℕ
press_protocol_name PressProtocol.http1 = codes "HTTP/1.1"
press_protocol_name PressProtocol.http2 = codes "HTTP/2"
press_protocol_name PressProtocol.http3 = codes "HTTP/3"

-- The f64 operations of the statistics.
pub record Milliseconds : Type 1 where
  pub Carrier : Type 0
  pub zero_ms : Carrier
  pub add : Carrier → Carrier → Carrier
  pub div : Carrier → Carrier → Carrier
  pub from_usize : ℕ → Carrier
  -- `(p / 100.0 * (n - 1) as f64) as usize`
  pub rank : ℕ → ℕ → ℕ
  -- `as_secs_f64() * 1000.0` of a duration in nanoseconds
  pub in_ms : ℕ → Carrier
  -- `a.partial_cmp(b).unwrap_or(Equal)` is not `Greater`.
  pub not_greater : Carrier → Carrier → Bool
  -- Requests and a duration: the quotient, or 0.0 where the duration is not above it.
  pub per_second : ℕ → ℕ → Carrier

module _ (M : Milliseconds) where
  open M use {Carrier, zero_ms, add, div, from_usize, rank, in_ms, not_greater, per_second}

  pub record LatencyStats : Type 0 where
    pub min_ms : Carrier
    pub max_ms : Carrier
    pub avg_ms : Carrier
    pub p50_ms : Carrier
    pub p90_ms : Carrier
    pub p95_ms : Carrier
    pub p99_ms : Carrier
    pub sample_count : ℕ

  abbrev pub no_samples : LatencyStats
  no_samples = record {
    min_ms = zero_ms;
    max_ms = zero_ms;
    avg_ms = zero_ms;
    p50_ms = zero_ms;
    p90_ms = zero_ms;
    p95_ms = zero_ms;
    p99_ms = zero_ms;
    sample_count = 0;
  }

  unfoldable pub percentile : List Carrier → ℕ → Outcome IoError Carrier
  percentile sorted p =
      if length sorted == 0
      then ok zero_ms
      else index sorted (min (rank p (length sorted)) (length sorted - 1))

  -- `iter().sum()`
  total_of : Carrier → List Carrier → Carrier
  total_of acc [] = acc
  total_of acc (x ∷ xs) = total_of (add acc x) xs

  unfoldable pub from_sorted_ms : List Carrier → Outcome IoError LatencyStats
  unfolding total_of
  from_sorted_ms samples = if length samples == 0 then ok no_samples else (do
    least ← index samples 0
    greatest ← index samples (length samples - 1)
    p50 ← percentile samples 50
    p90 ← percentile samples 90
    p95 ← percentile samples 95
    p99 ← percentile samples 99
    ok (record {
      min_ms = least;
      max_ms = greatest;
      avg_ms = div (total_of zero_ms samples) (from_usize (length samples));
      p50_ms = p50;
      p90_ms = p90;
      p95_ms = p95;
      p99_ms = p99;
      sample_count = length samples;
    }))

  -- What the tasks share, and how many of them wait for a permit, hold one, or panicked.
  pub record Press : Type 0 where
    pub waiting : ℕ
    pub running : ℕ
    pub crashed : ℕ
    pub success_count : ℕ
    pub error_count : ℕ
    pub ttfb : List Carrier
    pub total : List Carrier
    pub errors : List (List ℕ)

  abbrev pub spawned : ℕ → Press
  spawned num_requests = record {
    waiting = num_requests;
    running = 0;
    crashed = 0;
    success_count = 0;
    error_count = 0;
    ttfb = [];
    total = [];
    errors = [];
  }

  abbrev pub acquire : Press → Press
  acquire s = record s { waiting = s.waiting - 1; running = s.running + 1 }

  -- The end of a task, its permit given back. The locked vectors are newest last.
  unfoldable pub finish : Press → TestResult → Press
  finish s r = elim r.status [
    | success ↦ record s {
      running = s.running - 1;
      ttfb = s.ttfb ++ (in_ms r.timing.first_byte ∷ []);
      total = s.total ++ (in_ms r.timing.total ∷ []);
      success_count = s.success_count + 1;
    }
    | failed e ↦ record s {
      running = s.running - 1;
      error_count = s.error_count + 1;
      errors = (if ltb (length s.errors) 50 then s.errors ++ (e ∷ []) else s.errors);
    }
  ]

  -- A panic ends a task and gives its permit back; `handle.await` ignores it.
  abbrev pub crash : Press → Press
  crash s = record s { running = s.running - 1; crashed = s.crashed + 1 }

  -- The states of a run with `concurrency` permits.
  pub data Reachable (concurrency num_requests : ℕ) : Press → Type 0 where
    start : Reachable concurrency num_requests (spawned num_requests)
    acquires :
        {s : Press}
        → Reachable concurrency num_requests s
        → 0 < s.waiting
        → s.running < concurrency
        → Reachable concurrency num_requests (acquire s)
    finishes :
        {s : Press}
        → Reachable concurrency num_requests s
        → 0 < s.running
        → (r : TestResult) → Reachable concurrency num_requests (finish s r)
    crashes :
        {s : Press}
        → Reachable concurrency num_requests s
        → 0 < s.running
        → Reachable concurrency num_requests (crash s)

  -- `sort_by`, which is stable
  insert_by : Carrier → List Carrier → List Carrier
  insert_by x [] = x ∷ []
  insert_by x (y ∷ ys) = if not_greater x y then x ∷ y ∷ ys else y ∷ insert_by x ys

  unfoldable pub sort_by : List Carrier → List Carrier
  unfolding insert_by
  sort_by [] = []
  sort_by (x ∷ xs) = insert_by x (sort_by xs)

  pub record PressResult : Type 0 where
    pub protocol : PressProtocol
    pub total_requests : ℕ
    pub success_count : ℕ
    pub error_count : ℕ
    pub ttfb : LatencyStats
    pub total_time : LatencyStats
    pub total_duration : ℕ
    pub requests_per_second : Carrier
    pub errors : List (List ℕ)

  -- The end of `press`, in the state in which all tasks are over
  unfoldable pub press_result : PressProtocol → ℕ → ℕ → Press → Outcome IoError PressResult
  press_result protocol num_requests total_duration s = do
    ttfb ← from_sorted_ms (sort_by s.ttfb)
    total_time ← from_sorted_ms (sort_by s.total)
    ok (record {
      protocol = protocol;
      total_requests = num_requests;
      success_count = s.success_count;
      error_count = s.error_count;
      ttfb = ttfb;
      total_time = total_time;
      total_duration = total_duration;
      requests_per_second = per_second num_requests total_duration;
      errors = s.errors;
    })
