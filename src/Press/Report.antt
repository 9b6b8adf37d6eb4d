-- ===== src/Press/Report.antt =====
-- src/press.rs: the result of a press run as text. The formats of f64 are arguments.
use proxypen.Base.{ℕ, zero, suc, ◌-◌, List, [], ◌∷◌, ◌++◌, length, replicate, concat, codes}
use proxypen.Base.Decimal.{decimal}
use proxypen.Press.{press_protocol_name, Milliseconds, LatencyStats, PressResult}

-- `{:.2}` of an f64, and of `as_secs_f64` of a duration
pub record Formats (M : Milliseconds) : Type 0 where
  pub fixed2 : M.Carrier → List ℕ
  pub seconds : ℕ → List ℕ

pad_left : ℕ → List ℕ → List ℕ
pad_left width s = replicate (width - length s) b' ' ++ s

module _ (M : Milliseconds) (f : Formats M) where
  time_line : List ℕ → M.Carrier → List ℕ
  unfolding pad_left
  time_line label x = concat (label ∷ pad_left 8 (f.fixed2 x) ∷ codes " ms" ∷ [])

  unfoldable pub latency_lines : LatencyStats M → List (List ℕ)
  unfolding time_line
  latency_lines s =
      time_line (codes "  min: ") s.min_ms
      ∷ time_line (codes "  avg: ") s.avg_ms
      ∷ time_line (codes "  p50: ") s.p50_ms
      ∷ time_line (codes "  p90: ") s.p90_ms
      ∷ time_line (codes "  p95: ") s.p95_ms
      ∷ time_line (codes "  p99: ") s.p99_ms
      ∷ time_line (codes "  max: ") s.max_ms
      ∷ []

-- The loop over the errors: `left` more are printed, and the count of the rest.
unfoldable pub error_lines : ℕ → List (List ℕ) → List (List ℕ)
error_lines left [] = []
error_lines zero (e ∷ es) =
    concat (codes "  ... and " ∷ decimal (length (e ∷ es)) ∷ codes " more" ∷ []) ∷ []
error_lines (suc left) (e ∷ es) = (codes "  " ++ e) ∷ error_lines left es

unfoldable pub errors_part : List (List ℕ) → List (List ℕ)
unfolding error_lines
errors_part [] = []
errors_part (e ∷ es) = [] ∷ codes "--- Errors ---" ∷ error_lines 20 (e ∷ es)

-- `fmt`: the lines
unfoldable pub result_lines : (M : Milliseconds) → Formats M → PressResult M → List (List ℕ)
unfolding latency_lines errors_part
result_lines M f r =
    (codes "=== Press Test Results ==="
      ∷ (codes "Protocol:        " ++ press_protocol_name r.protocol)
      ∷ (codes "Total requests:  " ++ decimal r.total_requests)
      ∷ (codes "Successful:      " ++ decimal r.success_count)
      ∷ (codes "Failed:          " ++ decimal r.error_count)
      ∷ concat (codes "Duration:        " ∷ f.seconds r.total_duration ∷ codes "s" ∷ [])
      ∷ (codes "Req/sec:         " ++ f.fixed2 r.requests_per_second)
      ∷ []
      ∷ codes "--- TTFB (Time To First Byte) ---"
      ∷ latency_lines M f r.ttfb)
    ++ (([] ∷ codes "--- Total Request Time ---" ∷ latency_lines M f r.total_time)
        ++ errors_part r.errors)
