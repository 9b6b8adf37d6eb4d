-- ===== src/Press/Percentiles.antt =====
-- The statistics of src/press.rs read only samples that are there.
use proxypen.Base.{
  ℕ, ◌-◌, ◌<◌, ◌≡◌, refl, min, List, length, ◌==◌, arith, false, ok, index, index-lt, Ensures,
  Ensures-ok, Ensures-if, Ensures-bind, Ensures-index,
}
use proxypen.Error.{IoError}
use proxypen.Press.{Milliseconds, percentile, from_sorted_ms}

module _ (M : Milliseconds) where
  -- Whatever rank the floating point gives, a percentile of some samples is one of them.
  pub percentile-index :
      (sorted : List M.Carrier) (p : ℕ)
      → 0 < length sorted
      → (i : ℕ) × (x : M.Carrier) × (i < length sorted)
        × (index {E = IoError} sorted i ≡ ok x)
        × (percentile M sorted p ≡ ok x)
  unfolding percentile
  percentile-index sorted p h =
      let i = min (M.rank p (length sorted)) (length sorted - 1) in
      let l : i < length sorted = omega arith in
      let (x, e) = index-lt IoError sorted i l in
      let some_samples : (length sorted == 0) ≡ false = ground arith in
      (i, x, l, e, rw some_samples e)

  percentile-Ensures :
      (sorted : List M.Carrier) (p : ℕ)
      → 0 < length sorted
      → Ensures (λ _. Unit {0}) (percentile M sorted p)
  percentile-Ensures sorted p h =
      let (i, x, l, e, q) = percentile-index sorted p h in rw q (Ensures-ok tt)

  -- The statistics of any samples come out without a panic, and count the samples.
  pub from_sorted_ms-Ensures :
      (samples : List M.Carrier)
      → Ensures (λ s. s.sample_count ≡ length samples) (from_sorted_ms M samples)
  unfolding from_sorted_ms
  from_sorted_ms-Ensures samples =
      Ensures-if (length samples == 0) _ _ (λ e. Ensures-ok (ground arith))
        λ e.
          let l : 0 < length samples = ground arith in
          Ensures-bind _ _ (Ensures-index IoError samples 0 l) λ least _.
            Ensures-bind _ _ (Ensures-index IoError samples (length samples - 1) (omega arith))
              λ greatest _. Ensures-bind _ _ (percentile-Ensures samples 50 l) λ a _.
                Ensures-bind _ _ (percentile-Ensures samples 90 l) λ b _.
                  Ensures-bind _ _ (percentile-Ensures samples 95 l)
                    λ c _. Ensures-bind _ _ (percentile-Ensures samples 99 l) λ d _. Ensures-ok refl
